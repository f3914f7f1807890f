-- ===== src/Http/Chunked/Examples.antt =====
-- Chunked bodies at concrete inputs.
use nitro_server.Base.{◌≡◌, [], ◌∷◌, ◌++◌, arith}
use nitro_server.Base.Text.{Bytes, codes}
use nitro_server.Http.{crlf}
use nitro_server.Http.Chunked.{complete, decode_chunked}
use nitro_server.Http.Chunked.RoundTrip.{joined, total, stream_body, decode_chunked-stream_body}
use nitro_server.Http.Chunked.Total.{IsAnswer, decode_chunked-IsAnswer}

decode_chunked-stream_body_example :
    decode_chunked 100
      (stream_body (codes "hello" ∷ [] ∷ codes " wor" ∷ []) (codes "ld") ++ codes "GET")
    ≡ complete (joined (codes "hello" ∷ [] ∷ codes " wor" ∷ []) ++ codes "ld") (codes "GET")
unfolding total
decode_chunked-stream_body_example =
    decode_chunked-stream_body 100 (codes "hello" ∷ [] ∷ codes " wor" ∷ []) (codes "ld")
      (codes "GET") (omega arith) (omega arith)

-- A size line that announces more than arrives.
abbrev short_body : Bytes
short_body = codes "ff" ++ (crlf ++ codes "abc")

decode_chunked-IsAnswer_example : IsAnswer 4 (decode_chunked 4 short_body)
decode_chunked-IsAnswer_example = decode_chunked-IsAnswer 4 short_body
