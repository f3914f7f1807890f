-- ===== src/Ws/Session.antt =====
-- The WebSocket session of src/engine/UvReactor.cpp: `wsCloseConn` and `wsProcess`.
--
-- `c->buf` is passed beside the other fields of the connection. An effect on the outside is an
-- `Action`, in the order of the calls; `closing`, which other code sets, is only read. The
-- allocation of a message is taken to succeed, and the connection is not a TLS one.
pub mod Rest
mod Examples
pub mod Stuck
pub mod Deliver
pub mod Split
use nitro_server.Base.{
  ℕ, zero, suc, ◌+◌, ◌*◌, ◌/◌, ◌%◌, ◌^◌, Bool, true, false, ◌&&◌, ◌||◌, not, Option, none, some,
  List, [], ◌∷◌, ◌++◌, ltb, ◌==◌, if◌then◌else◌, length, get_or, take, drop, bit_and, bit_xor,
}
use nitro_server.Base.Text.{Bytes}
use nitro_server.Ws.Frame.{
  FrameHeader, parse_header, encode_frame, is_control, known_opcode, is_set, valid_close_code, text,
  binary, close, ping, pong,
}
use nitro_server.Ws.Utf8.{valid_utf8}

-- `msg_opcode` is `none` for the source's -1; `has_sink` tells whether `wsEmitter` is set.
pub record Session : Type 0 where
  pub deflate : Bool
  pub has_sink : Bool
  pub closing : Bool
  pub ws_closing : Bool
  pub msg : Bytes
  pub msg_opcode : Option ℕ
  pub msg_compressed : Bool
  pub write_pending : ℕ

-- `cfg_.maxBodyBytes` and `cfg_.wsMaxBufferBytes`; 0 stands for a number that is not positive.
pub record Limits : Type 0 where
  pub max_body_bytes : ℕ
  pub ws_max_buffer_bytes : ℕ

-- `writeAnswer(c, bytes, keep_alive, finish)`, `emitWsMessage(c->id, payload, opcode, code)`,
-- `pending_.trackPayload(c->id, payload)` and `wsConnLoop_.erase(c->id)`.
pub data Action : Type 0 where
  write : Bytes → Bool → Bool → Action
  message : Bytes → ℕ → ℕ → Action
  track : Bytes → Action
  forget : Action

-- `maxMsg`, with 10 MiB as the default.
pub max_msg : Limits → ℕ
max_msg limits = if ltb 0 limits.max_body_bytes then limits.max_body_bytes else 10 * 2 ^ 20

abbrev pub emit : Bool → Bytes → ℕ → ℕ → List Action
emit true payload opcode code = message payload opcode code ∷ []
emit false payload opcode code = []

abbrev pub wire_code : ℕ → ℕ
wire_code code = if code == 1005 then 1000 else code

-- The close frame that is the last thing written.
pub close_frame : ℕ → Bytes
close_frame code =
    encode_frame close (wire_code code / 2 ^ 8 % 256 ∷ wire_code code % 256 ∷ []) true []

pub close_conn : ℕ → Session → Session × List Action
close_conn code s = if s.ws_closing then (s, []) else (
  record s { ws_closing = true; write_pending = s.write_pending + length (close_frame code) },
  forget ∷ emit s.has_sink [] close code ++ (write (close_frame code) false true ∷ []),
)

-- What `writeAnswer` does with an answer that does not finish the connection: a reader that falls
-- behind by more than the cap is closed.
pub write_more : Limits → Bytes → Session → Session × List Action
write_more limits bytes s =
    let pending = s.write_pending + length bytes in
    let next = record s { write_pending = pending } in
    let (last, done) = close_conn 1009 next in
    if not s.ws_closing
      && ltb 0 limits.ws_max_buffer_bytes
      && ltb limits.ws_max_buffer_bytes pending
    then (last, write bytes true false ∷ done)
    else (next, write bytes true false ∷ [])

-- The tests on the first two bytes, `badRsv`, `badOp` and `!masked`, and those on a control frame.
unfoldable pub is_broken : Bool → ℕ → ℕ → Bool
is_broken deflate b0 b1 =
    is_set (bit_and b0 (if deflate then 0x30 else 0x70))
    || not (known_opcode (bit_and b0 0x0f))
    || not (is_set (bit_and b1 0x80))
    || (is_control (bit_and b0 0x0f)
        && (not (is_set (bit_and b0 0x80)) || ltb 125 (bit_and b1 0x7f)))

unfoldable pub unmask : Bytes → ℕ → Bytes → Bytes
unmask key i [] = []
unmask key i (b ∷ bs) = bit_xor b (get_or key (bit_and i 3) 0) ∷ unmask key (suc i) bs

-- The code that a close frame's payload leads to.
unfoldable pub close_code : Bytes → ℕ
close_code [] = 1005
close_code (a ∷ []) = 1002
close_code (a ∷ b ∷ reason) =
    if not (valid_close_code (a * 256 + b))
    then 1002
    else if not (valid_utf8 reason)
    then 1007
    else a * 256 + b

-- `c->wsMsgOpcode == ws::kText && !c->wsMsgCompressed && !ws::validUtf8(...)`.
pub is_bad_text : Session → ℕ → Bool
is_bad_text s opcode = opcode == text && not s.msg_compressed && not (valid_utf8 s.msg)

-- The end of a message.
pub deliver : Session → ℕ → Session × List Action
deliver s opcode = if is_bad_text s opcode then close_conn 1007 s else (
  record s { msg = []; msg_opcode = none; msg_compressed = false },
  track s.msg ∷ emit s.has_sink s.msg opcode (if s.msg_compressed then 1 else 0),
)

-- The tests behind a fragment, on a session that holds it. `opcode` is the message's.
pub grown : ℕ → Bool → Session → ℕ → Session × List Action
grown cap fin s opcode =
    if ltb cap (length s.msg) then close_conn 1009 s else if fin then deliver s opcode else (s, [])

pub on_data : ℕ → FrameHeader → Bytes → Session → Option ℕ → Session × List Action
on_data cap h payload s none =
    if h.opcode == text || h.opcode == binary
    then grown cap h.fin
        (record s { msg = payload; msg_opcode = some h.opcode; msg_compressed = h.rsv1 }) h.opcode
    else close_conn 1002 s
on_data cap h payload s (some opcode) =
    if h.opcode == text || h.opcode == binary
    then close_conn 1002 s
    else grown cap h.fin (record s { msg = s.msg ++ payload }) opcode

pub on_frame : Limits → FrameHeader → Bytes → Session → Session × List Action
on_frame limits h payload s =
    if h.opcode == ping
    then write_more limits (encode_frame pong payload true []) s
    else if h.opcode == pong
    then (s, [])
    else if h.opcode == close
    then close_conn (close_code payload) s
    else on_data (max_msg limits) h payload s s.msg_opcode

-- What one round of the loop leaves: the buffer, and the session with what was done; `none` where
-- the loop waits for more bytes.
unfoldable pub with_header :
    Limits → Session → Bytes → Option FrameHeader → Option (Bytes × (Session × List Action))
with_header limits s buf none = none
with_header limits s buf (some h) =
    if not (is_control h.opcode) && ltb (max_msg limits) h.payload_length
    then some (buf, close_conn 1009 s)
    else if ltb (length buf) (h.header_size + h.payload_length)
    then none
    else some (
      drop (h.header_size + h.payload_length) buf,
      on_frame limits h (unmask h.mask 0 (take h.payload_length (drop h.header_size buf))) s,
    )

unfoldable pub turn : Limits → Session → Bytes → Option (Bytes × (Session × List Action))
turn limits s buf =
    if ltb (length buf) 2
    then none
    else if is_broken s.deflate (get_or buf 0 0) (get_or buf 1 0)
    then some (buf, close_conn 1002 s)
    else with_header limits s buf (parse_header buf s.deflate)

-- The loop. Every round that goes on takes at least the two bytes of a header, so that the fuel,
-- the length of the buffer, is enough.
pub record Processed : Type 0 where
  pub left : Bytes
  pub session : Session
  pub actions : List Action

abbrev pub after : List Action → Processed → Processed
after done p = record p { actions = done ++ p.actions }

unfoldable pub process_loop : Limits → ℕ → Session → Bytes → Processed
process_loop limits zero s buf = record { left = buf; session = s; actions = [] }
process_loop limits (suc fuel) s buf = elim (s.closing || s.ws_closing) [
  | true ↦ record { left = buf; session = s; actions = [] }
  | false ↦ elim (turn limits s buf) [
    | none ↦ record { left = buf; session = s; actions = [] }
    | some (rest, (next, done)) ↦ after done (process_loop limits fuel next rest)
  ]
]

unfoldable pub process : Limits → Session → Bytes → Processed
process limits s buf = process_loop limits (suc (length buf)) s buf
