-- ===== src/Http2/Session.antt =====
-- The operations of src/engine/Http2Session.cpp that the reactor calls.
--
-- nghttp2 makes its callbacks while it reads bytes (`feed`) and while it writes frames (`pump`), so an
-- operation that reads or writes takes the callbacks that are made of it.
use nitro_server.Base.{
  ℕ, ◌-◌, Bool, true, false, ◌&&◌, ◌||◌, not, Option, none, some, List, [], ◌∷◌, ◌++◌,
  if◌then◌else◌, ltb, leb, ◌==◌,
}
use nitro_server.Base.Text.{Bytes}
use nitro_server.Base.Assoc.{nat_eq, lookup, erase}
use nitro_server.Http.Fields.{Header, is_empty}
use nitro_server.Router.Match.{is_head}
use nitro_server.Http2.State.{
  Stream, Session, Action, submit, submit_goaway, pumped, status_line, rejected_stream, put_stream,
}
use nitro_server.Http2.Callbacks.{
  FrameKind, Moment, after, on_begin_headers, on_header, on_data_chunk, on_frame, on_stream_close,
  on_read,
}

-- A call that nghttp2 makes of the session.
pub data Callback : Type 0 where
  begin_headers : FrameKind → ℕ → ℕ → Callback
  header : FrameKind → ℕ → Bytes → Bytes → Callback
  data_chunk : ℕ → ℕ → Bytes → Callback
  frame_recv : FrameKind → Bool → Moment → ℕ → Callback
  stream_close : ℕ → Callback
  data_read : ℕ → ℕ → Callback

unfoldable pub on_callback : Callback → Session → Session × List Action
on_callback (begin_headers kind now id) s = on_begin_headers kind now id s
on_callback (header kind id name value) s = on_header kind id name value s
on_callback (data_chunk now id bytes) s = on_data_chunk now id bytes s
on_callback (frame_recv kind end_stream m id) s = on_frame kind end_stream m id s
on_callback (stream_close id) s = on_stream_close id s
on_callback (data_read id length_wanted) s = on_read id length_wanted s

unfoldable pub on_callbacks : List Callback → Session → Session × List Action
on_callbacks [] s = (s, [])
on_callbacks (c ∷ cs) s = after (on_callbacks cs) (on_callback c s)

unfoldable pub pump : List Callback → Session → Session × List Action
pump sent s = after (on_callbacks sent) (s, pumped ∷ [])

-- `received` are the callbacks of `nghttp2_session_mem_recv`, and `ok` whether it returns no error.
unfoldable pub feed :
    List Callback → Bool → List Callback → Session → (Session × List Action) × Bool
feed received ok sent s =
    if s.stopped
    then ((s, []), false)
    else if not ok
    then (on_callbacks received s, false)
    else (after (pump sent) (on_callbacks received s), true)

-- `status == 204 || status == 304 || (status >= 100 && status < 200)`
unfoldable pub bodyless_status : ℕ → Bool
bodyless_status status = status == 204 || status == 304 || leb 100 status && ltb status 200

unfoldable pub answer_body : Stream → ℕ → Bytes → Bytes
answer_body st status body = if is_head st.method || bodyless_status status then [] else body

-- What `respond` does with the stream, before it pumps.
unfoldable pub answer_stream :
    ℕ → Stream → ℕ → List Header → Bytes → Session → Session × List Action
answer_stream id st status headers body s =
    let sent_body = answer_body st status body in
    (
      put_stream id (record st { resp_body = sent_body; resp_off = 0 }) s,
      submit id (status_line status ∷ headers) (not (is_empty sent_body)) ∷ [],
    )

-- `none` where `respond` returns early.
unfoldable pub answer : ℕ → ℕ → List Header → Bytes → Session → Option (Session × List Action)
answer request_id status headers body s =
    if s.stopped then none else elim (lookup request_id s.req_to_stream) [
      | none ↦ none
      | some id ↦ elim (lookup id s.streams) [
        | none ↦ none
        | some st ↦ some (answer_stream id st status headers body s)
      ]
    ]

unfoldable pub respond :
    ℕ → ℕ → List Header → Bytes → List Callback → Session → Session × List Action
respond request_id status headers body sent s = elim (answer request_id status headers body s) [
  | none ↦ (s, [])
  | some next ↦ after (pump sent) next
]

unfoldable pub go_away : List Callback → Session → Session × List Action
go_away sent s =
    if s.goaway_sent || s.stopped
    then (s, [])
    else after (pump sent) (record s { goaway_sent = true }, submit_goaway ∷ [])

unfoldable pub stop : Session → Session × List Action
stop s = (record s { stopped = true }, [])

-- `hasDeadline && now >= deadline`
unfoldable pub is_expired : ℕ → Stream → Bool
is_expired now st = elim st.deadline [ none ↦ false | some d ↦ leb d now ]

-- `bodyStallMs > 0 && now - lastProgress >= bodyStallMs`
unfoldable pub is_stalled : ℕ → ℕ → Stream → Bool
is_stalled now stall st = ltb 0 stall && leb stall (now - st.last_progress)

-- What the loop of `sweep` has done: the streams, `expired`, and the answers.
pub record Swept : Type 0 where
  pub streams : List (ℕ × Stream)
  pub expired : List ℕ
  pub answers : List Action

abbrev pub keep_stream : ℕ → Stream → Swept → Swept
keep_stream id st w = record w { streams = (id, st) ∷ w.streams }

abbrev pub timed_out : ℕ → Stream → List ℕ → Swept → Swept
timed_out id st expired w = record {
  streams = (id, rejected_stream st) ∷ w.streams;
  expired = expired ++ w.expired;
  answers = submit id (status_line 408 ∷ []) false ∷ w.answers;
}

unfoldable pub sweep_streams : ℕ → ℕ → List (ℕ × Stream) → Swept
sweep_streams now stall [] = record { streams = []; expired = []; answers = [] }
sweep_streams now stall ((id, st) ∷ m) =
    let rest = sweep_streams now stall m in
    if st.rejected
    then keep_stream id st rest
    else if st.emitted
    then (if is_expired now st
        then timed_out id st (st.request_id ∷ []) rest
        else keep_stream id st rest)
    else if is_stalled now stall st
    then timed_out id st [] rest
    else keep_stream id st rest

unfoldable pub erase_all : List ℕ → List (ℕ × ℕ) → List (ℕ × ℕ)
erase_all [] m = m
erase_all (id ∷ ids) m = erase_all ids (erase id m)

-- The session after the loop of `sweep`.
unfoldable pub swept : Swept → Session → Session
swept w s = record s { streams = w.streams; req_to_stream = erase_all w.expired s.req_to_stream }

abbrev pub is_nil_actions : List Action → Bool
is_nil_actions [] = true
is_nil_actions (a ∷ more) = false

-- The ids that it returns are last.
unfoldable pub sweep : ℕ → ℕ → List Callback → Session → (Session × List Action) × List ℕ
sweep now stall sent s =
    let w = sweep_streams now stall s.streams in
    let done : Session × List Action = (swept w s, w.answers) in
    if s.stopped
    then ((s, []), [])
    else if is_nil_actions w.answers
    then (done, w.expired)
    else (after (pump sent) done, w.expired)

-- A call of the session by the reactor, with the callbacks that nghttp2 makes during it.
pub data Call : Type 0 where
  feed_bytes : List Callback → Bool → List Callback → Call
  respond_to : ℕ → ℕ → List Header → Bytes → List Callback → Call
  go_away_now : List Callback → Call
  sweep_at : ℕ → ℕ → List Callback → Call
  pump_out : List Callback → Call
  stop_it : Call

unfoldable pub on_call : Call → Session → Session × List Action
on_call (feed_bytes received ok sent) s = (feed received ok sent s).0
on_call (respond_to request_id status headers body sent) s =
    respond request_id status headers body sent s
on_call (go_away_now sent) s = go_away sent s
on_call (sweep_at now stall sent) s = (sweep now stall sent s).0
on_call (pump_out sent) s = pump sent s
on_call stop_it s = stop s

unfoldable pub run : List Call → Session → Session × List Action
run [] s = (s, [])
run (c ∷ cs) s = after (run cs) (on_call c s)
