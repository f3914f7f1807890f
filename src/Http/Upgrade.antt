-- ===== src/Http/Upgrade.antt =====
-- `uvErrorResponse` and `UvReactor::wsHandshake` of src/engine/UvReactor.cpp: the answer to a WebSocket
-- upgrade and the session that it opens. The head of the request goes to the runner as that of any
-- other request does; the connection is not a TLS one.
pub mod Offer
pub mod Written
pub mod Opened
mod Examples
use nitro_server.Base.{
  ℕ, ◌+◌, Bool, true, false, ◌&&◌, ◌||◌, not, Option, none, some, List, [], ◌∷◌, ◌++◌,
  if◌then◌else◌, leb, ◌==◌, bytes_eq, length, take, get_or, all,
}
use nitro_server.Base.Text.{Bytes, codes}
use nitro_server.Ws.Handshake.{accept_key}
use nitro_server.Ws.Session.{Session}
use nitro_server.Http.{build_head, crlf}
use nitro_server.Http.Fields.{Header, find_header, is_empty, trim, tokens, contains}

pub error_response : Bytes → ℕ → Bytes → List Header → Bytes
error_response date status msg extra =
    build_head date status (extra ++ ((codes "Content-Type", codes "text/plain") ∷ [])) (length msg)
      false (some 0)
    ++ msg

unfoldable pub is_base64_byte : ℕ → Bool
is_base64_byte ch =
    (leb b'A' ch && leb ch b'Z')
    || (leb b'a' ch && leb ch b'z')
    || (leb b'0' ch && leb ch b'9')
    || ch == b'+'
    || ch == b'/'

unfoldable pub valid_key : Bytes → Bool
valid_key k =
    length k == 24
    && get_or k 22 0 == b'='
    && get_or k 23 0 == b'='
    && all is_base64_byte (take 22 k)

abbrev pub any_equal : Bytes → List Bytes → Bool
any_equal want [] = false
any_equal want (t ∷ ts) = bytes_eq t want || any_equal want ts

-- An empty name selects nothing.
unfoldable pub select : List Bytes → List Bytes → Bytes
select [] offered = []
select (want ∷ wants) offered =
    let rest = select wants offered in
    if not (is_empty want) && any_equal want offered then want else rest

-- The protocol of the session, empty for none; `none` is a client that offers nothing the route accepts.
unfoldable pub negotiate : List Bytes → Option Bytes → Option Bytes
negotiate [] offer = some []
negotiate (want ∷ wants) none = some []
negotiate (want ∷ wants) (some offer) =
    let protocol = select (want ∷ wants) (tokens offer) in
    if is_empty (trim offer) then some [] else if is_empty protocol then none else some protocol

unfoldable pub takes_deflate : Bool → Option Bytes → Bool
takes_deflate compression none = false
takes_deflate compression (some ext) = compression && contains ext (codes "permessage-deflate")

pub shake : Bytes → Bool → Bytes → Bytes
shake key deflate protocol =
    codes "HTTP/1.1 101 Switching Protocols"
    ++ (crlf
        ++ (codes "Upgrade: websocket"
            ++ (crlf
                ++ (codes "Connection: Upgrade"
                    ++ (crlf
                        ++ (codes "Sec-WebSocket-Accept: "
                            ++ (accept_key key
                                ++ (crlf
                                    ++ ((if deflate
                                          then codes
                                              "Sec-WebSocket-Extensions: permessage-deflate; "
                                            ++ (codes
                                                  "server_no_context_takeover; client_no_context_takeover"
                                                ++ crlf)
                                          else [])
                                        ++ ((if is_empty protocol
                                              then []
                                              else codes "Sec-WebSocket-Protocol: "
                                                ++ (protocol ++ crlf))
                                            ++ crlf))))))))))

abbrev pub open_session : Bool → Bool → ℕ → Session
open_session deflate has_sink written = record {
  deflate = deflate;
  has_sink = has_sink;
  closing = false;
  ws_closing = false;
  msg = [];
  msg_opcode = none;
  msg_compressed = false;
  write_pending = written;
}

-- An answer that ends the connection, or the answer and the session.
pub data Upgrade : Type 0 where
  refused : Bytes → Upgrade
  opened : Bytes → Session → Upgrade

abbrev pub is_13 : Option Bytes → Bool
is_13 none = false
is_13 (some ver) = bytes_eq (trim ver) (codes "13")

module _ (date : Bytes) (compression has_sink : Bool) (protocols : List Bytes)
    (headers : List Header) (pending : ℕ) where
  abbrev pub bad_request : Upgrade
  bad_request = refused (build_head date 400 [] 0 false (some 0))

  abbrev pub not_supported : Upgrade
  not_supported = refused (
      error_response date 426 (codes "websocket not supported")
        ((codes "Sec-WebSocket-Version", codes "13") ∷ []))

  unfoldable pub switch_to : Bytes → Option Bytes → Upgrade
  switch_to key none = bad_request
  switch_to key (some protocol) =
      let deflate =
        takes_deflate compression (find_header headers (codes "sec-websocket-extensions")) in
      opened (shake key deflate protocol)
        (open_session deflate has_sink (pending + length (shake key deflate protocol)))

  unfoldable pub handshake : Upgrade
  handshake = elim (find_header headers (codes "sec-websocket-key")) [
    | none ↦ bad_request
    | some key ↦
        if not (valid_key (trim key))
        then bad_request
        else if not (is_13 (find_header headers (codes "sec-websocket-version")))
        then not_supported
        else switch_to key
            (negotiate protocols (find_header headers (codes "sec-websocket-protocol")))
  ]
