-- ===== src/Http/Upgrade/Written.antt =====
-- The answer of `wsHandshake` of src/engine/UvReactor.cpp, line by line.
use nitro_server.Base.{◌≡◌, refl, Bool, true, false, List, [], ◌∷◌, ◌++◌, append_assoc}
use nitro_server.Base.Text.{Bytes, codes}
use nitro_server.Ws.Handshake.{accept_key}
use nitro_server.Http.{crlf}
use nitro_server.Http.Upgrade.{shake}

-- Lines, each with its CRLF.
pub each_line : List Bytes → Bytes
each_line [] = []
each_line (line ∷ lines) = line ++ (crlf ++ each_line lines)

abbrev pub extension_lines : Bool → List Bytes
extension_lines false = []
extension_lines true =
    (codes "Sec-WebSocket-Extensions: permessage-deflate; server_no_context_takeover; "
      ++ codes "client_no_context_takeover")
    ∷ []

abbrev pub protocol_lines : Bytes → List Bytes
protocol_lines [] = []
protocol_lines (c ∷ protocol) = (codes "Sec-WebSocket-Protocol: " ++ (c ∷ protocol)) ∷ []

-- The lines of the answer.
abbrev pub answer_lines : Bytes → Bool → Bytes → List Bytes
answer_lines key deflate protocol =
    codes "HTTP/1.1 101 Switching Protocols"
    ∷ codes "Upgrade: websocket"
    ∷ codes "Connection: Upgrade"
    ∷ (codes "Sec-WebSocket-Accept: " ++ accept_key key)
    ∷ (extension_lines deflate ++ (protocol_lines protocol ++ ([] ∷ [])))

pub shake-each_line :
    (key : Bytes) (deflate : Bool) (protocol : Bytes)
    → shake key deflate protocol ≡ each_line (answer_lines key deflate protocol)
unfolding shake each_line
shake-each_line key false [] = refl
shake-each_line key true [] = refl
shake-each_line key false (c ∷ protocol) = simp (append_assoc)
shake-each_line key true (c ∷ protocol) = simp (append_assoc)
