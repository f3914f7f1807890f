-- ===== src/Lib.antt =====
-- Verification of the native engine of nitro_server, the HTTP and WebSocket server in src/engine.
--
-- The engine's loop thread reads requests, looks their route up in the router, dispatches them to Dart
-- isolates and writes the answers. The parts that are modelled here are the ones that decide something:
--
--   Base       shared tests, lists, association lists, byte strings and bit masks.
--   Ws         src/engine/WsCodec.h. Frame: `parseHeader`, `encodeFrame`; Utf8: `validUtf8`;
--              Base64: `base64Encode`; Sha1: `sha1`; Handshake: `acceptKey`. Session: `wsProcess` and
--              `wsCloseConn` of src/engine/UvReactor.cpp, which act on the frames of a connection.
--   Pending    src/engine/PendingTable.h: the requests in flight, in sixteen shards, and the logs of the
--              body payloads that Dart has not acknowledged. One function for each operation of
--              `PendingTable`; `Call` and `run` are the calls that the engine makes, one after the other.
--   Dispatch   src/engine/DispatchController.h: `tick`, the hill climb over the number of isolates that
--              requests are spread over.
--   Common     src/engine/Common.h and src/engine/Wire.h: the methods and their tokens.
--   Http       src/engine/UvReactor.cpp and src/engine/Common.h: `uvBuildHead` and `uvBuildStreamHead`, the
--              checks on the caller's headers, `reasonPhrase` and `uvChunkSize`. Fields, Framing and Chunked:
--              the helpers on request headers, `uvFraming`, `decodeChunked` and the text of
--              `sendStreamChunk`. Head: `parseHead` of src/engine/HttpParse.cpp. Request: the reading of one
--              request in `processConn`; Answer: what it does with a request that is
--              complete. Upload: `emitStreamBytes` and `emitStreamChunked`. Upgrade: `wsHandshake`.
--              Upgrade: `wsHandshake`, with the lines of its answer in Written.
--   Json       src/engine/JsonWriter.cpp: the writer that a handler drives token by token. Document: the
--              calls for a whole document, as a handler makes them, and its text. Escape: a reader
--              of JSON strings.
--   Router     src/engine/Router.h and src/engine/Router.cpp: the segment trie. `add`, `remove` and, in
--              Router/Match, the search of `match` with its stack of frames. Allowed: `allowedMethods`.
--              Register: `registerRoute` and `unregisterRoute` of src/engine/UvReactor.cpp.
--   Http2      src/engine/Http2Session.h and src/engine/Http2Session.cpp. Callbacks: what nghttp2 calls for
--              received frames, for a stream that closes and for a response's data; Session: `feed`,
--              `respond`, `goAway`, `sweep`, `pump` and `stop`, and `run`, the reactor's calls one after the
--              other. Order: the order in which nghttp2 makes its callbacks, which the theorems about runs
--              take as a hypothesis. Budget, Answers and Body: proofs.
--   Proxy      src/engine/UvReactor.cpp: `uvParseProxyHeader`.
--   Emitters   src/engine/UvReactor.cpp: the list of the sinks, and `nextEmitter`, which picks one.
--
-- The parts meet in a round of `processConn`: Request takes a buffer apart with the parser of heads, the
-- framing, the router of its settings and the chunk decoder. Upgrade answers a handshake with the accept
-- key of Ws and hands a fresh session to Ws/Session, whose rounds use the frame codec and the UTF-8 check.
-- An HTTP/2 session routes by the same router, refuses by its `allowed_methods`, and checks the fields with
-- the same UTF-8 test. What a connection does to the outside, a write, a message for the runner, an entry
-- of the pending table, is an action in the result, in the order of the calls.
--
-- Byte strings are lists of numbers, and theorems that need bytes say so (`All IsByte`). Fixed-width
-- integers keep their wrap-around: the words of SHA-1 are taken modulo 2^32, and a frame's length is read
-- from eight bytes. An object that is shared by pointer, a pending request, is an address in a heap;
-- pointers to payloads are numbers, and `freed` lists the calls of `free`. A mutex makes an operation one
-- step. The throughput of the dispatch controller is a double: its type, the constant -1 and the test
-- against the margin are parameters, of which nothing is assumed.
--
-- Fuel: `valid_utf8_loop` takes the number of bytes, `match_loop` takes `match_fuel` of the path, which
-- doubles with each segment as at most two frames are pushed for one; the loops that
-- take bytes from a buffer, those of `wsProcess`, `decodeChunked`, `emitStreamChunked` and the field lines,
-- take its length and one more, as every round takes a byte at least; the loops of SHA-1 run as often as
-- theirs. The theorems about them state what the loops return, so that the fuel is enough.
--
-- Not modelled: sockets, timers and threads (libuv), TLS, the frames of HTTP/2 (nghttp2), Brotli, the bridge to
-- Dart and the generated bindings, the JSON writer's doubles, templates and buffer growth;
-- of the connections, answers from files, and the limits and timeouts of a connection. They are I/O, other
-- projects' code, or read state of several threads.
pub mod Base
pub mod Common
pub mod Dispatch
pub mod Emitters
pub mod Http
pub mod Http2
pub mod Json
pub mod Pending
pub mod Proxy
pub mod Router
pub mod Ws
