-- ===== src/Ws/Handshake.antt =====
-- `handshakeGuid` and `acceptKey` of src/engine/WsCodec.h.
use nitro_server.Base.{◌≡◌, ◌++◌, length, arith}
use nitro_server.Base.Text.{Bytes, codes}
use nitro_server.Ws.Base64.{base64_encode}
use nitro_server.Ws.Base64.Decode.{base64_decode, base64_decode-base64_encode}
use nitro_server.Ws.Sha1.{sha1}
use nitro_server.Ws.Sha1.Digest.{sha1_shape}

abbrev pub handshake_guid : Bytes
handshake_guid = codes "258EAFA5-E914-47DA-95CA-C5AB0DC85B11"

pub accept_key : Bytes → Bytes
accept_key client_key = base64_encode (sha1 (client_key ++ handshake_guid))

-- The accept key of any client key has 28 characters, and decodes to the SHA-1 digest of the client
-- key followed by the protocol's GUID.
pub accept_key_lem :
    (client_key : Bytes)
    → (length (accept_key client_key) ≡ 28)
      × (base64_decode (accept_key client_key) ≡ sha1 (client_key ++ handshake_guid))
unfolding accept_key
accept_key_lem client_key =
    let (bytes, size) = sha1_shape (client_key ++ handshake_guid) in
    let (back, long) = base64_decode-base64_encode (sha1 (client_key ++ handshake_guid)) bytes in
    (omega (arith, long, size), back)
