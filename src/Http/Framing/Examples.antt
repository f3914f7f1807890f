-- ===== src/Http/Framing/Examples.antt =====
-- The framing of a request at a concrete head.
use nitro_server.Base.{refl, true, [], ◌∷◌, bytes_eq}
use nitro_server.Base.Text.{codes}
use nitro_server.Http.{iequals}
use nitro_server.Http.Fields.{RequestFields, trim, trim_front, trim_back, pieces}
use nitro_server.Http.Framing.{
  framing, see, see_all, verdict, te_refused, codings_refused, length_refused,
}
use nitro_server.Http.Framing.Sound.{IsFramed, framing-IsFramed}

abbrev upload : RequestFields
upload = record {
  version = codes "HTTP/1.1";
  headers = (codes "Host", codes "a") ∷ (codes "transfer-encoding", codes " Chunked ,") ∷ [];
}

framing-IsFramed_example : IsFramed upload true
unfolding framing see see_all verdict te_refused codings_refused length_refused iequals trim
    trim_front trim_back pieces bytes_eq
framing-IsFramed_example = framing-IsFramed upload true refl
