-- ===== src/Http2.antt =====
-- src/engine/Http2Session.h and src/engine/Http2Session.cpp: one HTTP/2 connection.
--
-- The frames are nghttp2's, a library: the calls that it makes of the session's callbacks are the
-- environment's choice, and the calls that the session makes of it, and of the sinks, are actions.
-- A clock's reading, an admission and an id of the shared counter are arguments of the operation that
-- asks for them. The allocation of a payload is taken to succeed.
pub mod State
pub mod Callbacks
pub mod Session
pub mod Order
pub mod Budget
pub mod Answers
pub mod Body
mod Examples
