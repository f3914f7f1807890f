-- ===== src/Http/Upgrade/Examples.antt =====
-- A WebSocket upgrade at concrete headers.
use nitro_server.Base.{◌+◌, refl, true, List, [], ◌∷◌, length, bytes_eq}
use nitro_server.Base.Text.{Bytes, codes}
use nitro_server.Http.{iequals}
use nitro_server.Http.Fields.{Header, find_header, trim, trim_front, trim_back, pieces, contains}
use nitro_server.Http.Upgrade.{
  valid_key, is_base64_byte, select, negotiate, takes_deflate, shake, open_session, switch_to,
  handshake,
}
use nitro_server.Http.Upgrade.Opened.{IsOpened, handshake-IsOpened}

abbrev sample_key : Bytes
sample_key = codes "dGhlIHNhbXBsZSBub25jZQ=="

abbrev upgrade_fields : List Header
upgrade_fields =
    (codes "Sec-WebSocket-Key", sample_key)
    ∷ (codes "Sec-WebSocket-Version", codes "13")
    ∷ (codes "Sec-WebSocket-Protocol", codes "a, b")
    ∷ (codes "Sec-WebSocket-Extensions", codes "permessage-deflate")
    ∷ []

handshake-IsOpened_example :
    IsOpened [] true true
      (codes "b" ∷ [])
      upgrade_fields
      0
      (shake sample_key true (codes "b"))
      (open_session true true (0 + length (shake sample_key true (codes "b"))))
unfolding handshake switch_to valid_key is_base64_byte negotiate select takes_deflate find_header
    iequals trim trim_front trim_back pieces contains bytes_eq
handshake-IsOpened_example =
    handshake-IsOpened [] true true (codes "b" ∷ []) upgrade_fields 0
      (shake sample_key true (codes "b"))
      (open_session true true (0 + length (shake sample_key true (codes "b")))) refl
