-- ===== src/Ws.antt =====
-- src/engine/WsCodec.h: the RFC 6455 handshake and wire frame helpers.
pub mod Frame
pub mod Utf8
pub mod Base64
pub mod Sha1
pub mod Handshake
pub mod Session
mod Examples
