-- ===== src/Http2/State.antt =====
-- The state of src/engine/Http2Session.h, and `rejectStream` of src/engine/Http2Session.cpp.
use nitro_server.Base.{ℕ, Bool, true, false, Option, none, List, [], ◌∷◌}
use nitro_server.Base.Text.{Bytes, codes}
use nitro_server.Base.Assoc.{nat_eq, insert}
use nitro_server.Common.{Method, get}
use nitro_server.Json.{int_text}
use nitro_server.Router.{Router}
use nitro_server.Router.Match.{Captures}
use nitro_server.Http.Fields.{Header}

-- `content_length` is `none` for -1, `deadline` for `!hasDeadline`. A cap, a timeout or a budget that
-- is not positive is 0.
pub record Stream : Type 0 where
  pub request_id : ℕ
  pub method : Method
  pub custom_method : Bytes
  pub path : Bytes
  pub query : Bytes
  pub scheme : Bytes
  pub authority : Bytes
  pub headers : List Header
  pub content_length : Option ℕ
  pub rejected : Bool
  pub matched : Bool
  pub pattern : Bytes
  pub params : Captures
  pub max_body : ℕ
  pub reserved : ℕ
  pub timeout_ms : ℕ
  pub emitted : Bool
  pub deadline : Option ℕ
  pub last_progress : ℕ
  pub body : Bytes
  pub resp_body : Bytes
  pub resp_off : ℕ

abbrev pub fresh_stream : ℕ → ℕ → Stream
fresh_stream max_body now = record {
  request_id = 0;
  method = get;
  custom_method = [];
  path = [];
  query = [];
  scheme = [];
  authority = [];
  headers = [];
  content_length = none;
  rejected = false;
  matched = false;
  pattern = [];
  params = [];
  max_body = max_body;
  reserved = 0;
  timeout_ms = 0;
  emitted = false;
  deadline = none;
  last_progress = now;
  body = [];
  resp_body = [];
  resp_off = 0;
}

pub record Session : Type 0 where
  pub router : Router
  pub max_body_bytes : ℕ
  pub default_timeout_ms : ℕ
  pub body_budget : ℕ
  pub reserved : ℕ
  pub goaway_sent : Bool
  pub stopped : Bool
  pub next_id : ℕ
  pub streams : List (ℕ × Stream)
  pub req_to_stream : List (ℕ × ℕ)

-- `nghttp2_submit_response` with whether the body of the stream is its data source,
-- `nghttp2_submit_goaway`, a call of `pump` (`pumped`), the calls of the emitter, and what `readBody`
-- returns.
pub data Action : Type 0 where
  submit : ℕ → List Header → Bool → Action
  submit_goaway pumped : Action
  emit_head : ℕ → Stream → Bool → Action
  emit_body_data : ℕ → Bytes → Action
  emit_body_end : ℕ → Action
  send_data : ℕ → Bytes → Bool → Action

pub status_line : ℕ → Header
status_line status = (codes ":status", int_text status)

-- `rejectStream`, on the stream and without the call of nghttp2.
abbrev pub rejected_stream : Stream → Stream
rejected_stream st = record st { rejected = true; body = [] }

abbrev pub put_stream : ℕ → Stream → Session → Session
put_stream id st s = record s { streams = insert id st s.streams }

unfoldable pub reject_stream : ℕ → Stream → ℕ → List Header → Session → Session × List Action
reject_stream id st status extra s =
    (put_stream id (rejected_stream st) s, submit id (status_line status ∷ extra) false ∷ [])
