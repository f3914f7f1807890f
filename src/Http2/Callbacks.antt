-- ===== src/Http2/Callbacks.antt =====
-- The callbacks of src/engine/Http2Session.cpp that nghttp2 calls for received frames.
use nitro_server.Base.{
  ℕ, suc, ◌+◌, ◌-◌, ◌^◌, Bool, true, false, ◌&&◌, ◌||◌, not, Option, none, some, List, [], ◌∷◌,
  ◌++◌, if◌then◌else◌, ltb, ◌==◌, bytes_eq, length, all, min, take, drop,
}
use nitro_server.Base.Text.{Bytes, codes}
use nitro_server.Base.Assoc.{nat_eq, lookup, insert, erase}
use nitro_server.Common.{parse_method}
use nitro_server.Ws.Utf8.{valid_utf8}
use nitro_server.Router.Allowed.{allowed_methods, joined_methods}
use nitro_server.Router.Match.{Best, match_route}
use nitro_server.Http.Fields.{is_empty}
use nitro_server.Http.Framing.{is_digit}
use nitro_server.Http.Head.Field.{cut, is_ascii}
use nitro_server.Http.Request.{digits_value}
use nitro_server.Http2.State.{
  Stream, fresh_stream, Session, Action, emit_head, emit_body_data, emit_body_end, send_data,
  put_stream, reject_stream,
}

-- The type of a frame, HEADERS with its category.
pub data FrameKind : Type 0 where
  request_headers trailers data_frame other_frame : FrameKind

abbrev pub is_request_head : FrameKind → Bool
is_request_head request_headers = true
is_request_head k = false

-- `NGHTTP2_HEADERS || NGHTTP2_DATA`
abbrev pub carries_end : FrameKind → Bool
carries_end other_frame = false
carries_end k = true

unfoldable pub on_begin_headers : FrameKind → ℕ → ℕ → Session → Session × List Action
on_begin_headers kind now id s =
    if is_request_head kind
    then (put_stream id (fresh_stream s.max_body_bytes now) s, [])
    else (s, [])

-- The digits of a `content-length`, all of the text, as `std::from_chars` reads them into 64 bits.
unfoldable pub parse_digits : Bytes → Option ℕ
parse_digits text =
    if is_empty text || not (all is_digit text)
    then none
    else if ltb (digits_value 0 text) (2 ^ 63)
    then some (digits_value 0 text)
    else none

abbrev pub negated : Option ℕ → Option ℕ
negated none = none
negated (some n) = if n == 0 then some 0 else none

-- A negative number is refused by `cl >= 0`.
unfoldable pub parse_length : Bytes → Option ℕ
parse_length [] = none
parse_length (c ∷ text) = if c == b'-' then negated (parse_digits text) else parse_digits (c ∷ text)

abbrev pub with_path : Bytes → Stream → Stream
with_path v st = elim (cut b'?' v) [
  | none ↦ record st { path = v }
  | some (path, query) ↦ record st { path = path; query = query }
]

-- A header that is valid, on the fields of the stream.
unfoldable pub store_header : Bytes → Bytes → Stream → Stream
store_header n v st =
    if bytes_eq n (codes ":method")
    then record st { method = (parse_method v).0; custom_method = (parse_method v).1 }
    else if bytes_eq n (codes ":path")
    then with_path v st
    else if bytes_eq n (codes ":scheme")
    then record st { scheme = v }
    else if bytes_eq n (codes ":authority")
    then record st { authority = v }
    else record st {
      content_length =
          (if bytes_eq n (codes "content-length") then parse_length v else st.content_length);
      headers = st.headers ++ ((n, v) ∷ []);
    }

-- A field of a request's header block.
unfoldable pub on_header : FrameKind → ℕ → Bytes → Bytes → Session → Session × List Action
on_header kind id name value s = elim (lookup id s.streams) [
  | none ↦ (s, [])
  | some st ↦
      if not (is_request_head kind) || st.rejected
      then (s, [])
      else if not (valid_utf8 value) || not (is_ascii name)
      then reject_stream id st 400 [] s
      else (put_stream id (store_header name value st) s, [])
]

unfoldable pub on_data_chunk : ℕ → ℕ → Bytes → Session → Session × List Action
on_data_chunk now id bytes s = elim (lookup id s.streams) [
  | none ↦ (s, [])
  | some st ↦
      if st.rejected
      then (s, [])
      else if ltb 0 st.max_body && ltb st.max_body (length st.body + length bytes)
      then reject_stream id (record st { last_progress = now }) 413 [] s
      else (put_stream id (record st { last_progress = now; body = st.body ++ bytes }) s, [])
]

-- What the environment answers while a request is handed over: the clock, `admit_` and, where there is
-- a shared counter, its next id.
pub record Moment : Type 0 where
  pub now : ℕ
  pub admitted : Bool
  pub shared_id : Option ℕ

abbrev pub id_of : Option ℕ → ℕ → ℕ
id_of none own = own
id_of (some shared) own = shared

abbrev pub next_own : Option ℕ → ℕ → ℕ
next_own none own = suc own
next_own (some shared) own = own

-- The stream as it is handed over.
abbrev pub handed_over : Moment → ℕ → Stream → Stream
handed_over m id st = record st {
  request_id = id;
  emitted = true;
  deadline = (if ltb 0 st.timeout_ms then some (m.now + st.timeout_ms) else st.deadline);
}

abbrev pub body_actions : ℕ → Bytes → List Action
body_actions id body = if is_empty body then [] else emit_body_data id body ∷ []

unfoldable pub emit_request : Moment → ℕ → Stream → Session → Session × List Action
emit_request m stream_id st s =
    let id = id_of m.shared_id s.next_id in
    let out = handed_over m id st in
    (
      record s {
        next_id = next_own m.shared_id s.next_id;
        req_to_stream = insert id stream_id s.req_to_stream;
        streams = insert stream_id (record out { body = [] }) s.streams;
      },
      emit_head id out (is_empty st.body) ∷ body_actions id st.body ++ (emit_body_end id ∷ []),
    )

abbrev pub is_nil_list : List Bytes → Bool
is_nil_list [] = true
is_nil_list (m ∷ ms) = false

-- `emitComplete`
unfoldable pub emit_complete : Moment → ℕ → Stream → Session → Session × List Action
emit_complete m stream_id st s =
    let allowed = allowed_methods st.path s.router in
    if not m.admitted
    then reject_stream stream_id st 503 ((codes "retry-after", codes "1") ∷ []) s
    else if not st.matched && not (is_nil_list allowed)
    then reject_stream stream_id st 405 ((codes "allow", joined_methods allowed) ∷ []) s
    else emit_request m stream_id st s

abbrev pub or_value : Option ℕ → ℕ → ℕ
or_value none inherited = inherited
or_value (some own) inherited = own

-- The route's own cap and deadline, and the server's where it has none.
unfoldable pub routed : ℕ → Option Best → Stream → Stream
routed timeout none st = record st { matched = false; timeout_ms = timeout }
routed timeout (some b) st = record st {
  matched = true;
  pattern = b.route.pattern;
  params = b.captures;
  max_body = or_value b.route.max_body_bytes st.max_body;
  timeout_ms = or_value b.route.timeout_ms timeout;
}

-- `st->maxBody > 0 && st->contentLength > st->maxBody`
unfoldable pub over_cap : Stream → Bool
over_cap st = elim st.content_length [
  | none ↦ false
  | some n ↦ ltb 0 st.max_body && ltb st.max_body n
]

-- What a stream may buffer.
unfoldable pub wanted : Bool → ℕ → Stream → ℕ
wanted true budget st = 0
wanted false budget st = elim st.content_length [
  | some n ↦ n
  | none ↦ if ltb 0 st.max_body then st.max_body else budget + 1
]

-- The reservation from the session's budget.
unfoldable pub reserve : Bool → ℕ → Stream → Session → Session × List Action
reserve bodyless id st s =
    let want = wanted bodyless s.body_budget st in
    if st.rejected || not (ltb 0 s.body_budget)
    then (s, [])
    else if ltb s.body_budget want
    then reject_stream id st 413 [] s
    else if ltb s.body_budget (s.reserved + want)
    then reject_stream id st 503 ((codes "retry-after", codes "1") ∷ []) s
    else (
      record (put_stream id (record st { reserved = want }) s) { reserved = s.reserved + want },
      [],
    )

-- A header block that is complete: the first half of `onFrameRecv`.
unfoldable pub on_head : ℕ → Bool → ℕ → Session → Session × List Action
on_head now end_stream id s = elim (lookup id s.streams) [
  | none ↦ (s, [])
  | some st ↦
      let found = match_route st.method st.custom_method st.path s.router in
      let next = routed s.default_timeout_ms found (record st { last_progress = now }) in
      if not st.rejected && over_cap next
      then reject_stream id next 413 [] s
      else reserve end_stream id next (put_stream id next s)
]

-- The second half: `END_STREAM` completes the request.
unfoldable pub on_end : Moment → ℕ → Session → Session × List Action
on_end m id s = elim (lookup id s.streams) [
  | none ↦ (s, [])
  | some st ↦ if st.rejected then (s, []) else emit_complete m id st s
]

-- One operation after the other, with the actions of both.
unfoldable pub after :
    (Session → Session × List Action) → Session × List Action → Session × List Action
after f (s, done) = let next = f s in (next.0, done ++ next.1)

-- `onFrameRecv`
unfoldable pub on_frame : FrameKind → Bool → Moment → ℕ → Session → Session × List Action
on_frame kind end_stream m id s =
    let routed_first = if is_request_head kind then on_head m.now end_stream id s else (s, []) in
    if carries_end kind && end_stream then after (on_end m id) routed_first else routed_first

-- `onStreamClose`
unfoldable pub on_stream_close : ℕ → Session → Session × List Action
on_stream_close id s = elim (lookup id s.streams) [
  | none ↦ (s, [])
  | some st ↦ (
    record s {
      reserved = s.reserved - st.reserved;
      req_to_stream = erase st.request_id s.req_to_stream;
      streams = erase id s.streams;
    },
    [],
  )
]

-- `readBody`, with whether it sets the flag that ends the data.
unfoldable pub read_body : ℕ → Stream → Stream × (Bytes × Bool)
read_body length_wanted st =
    let n = min length_wanted (length st.resp_body - st.resp_off) in
    (
      record st { resp_off = st.resp_off + n },
      (take n (drop st.resp_off st.resp_body), st.resp_off + n == length st.resp_body),
    )

unfoldable pub on_read : ℕ → ℕ → Session → Session × List Action
on_read id length_wanted s = elim (lookup id s.streams) [
  | none ↦ (s, [])
  | some st ↦
      let next = read_body length_wanted st in
      (put_stream id next.0 s, send_data id next.1.0 next.1.1 ∷ [])
]
