-- ===== src/Http2/Order.antt =====
-- The order in which nghttp2 makes the callbacks of src/engine/Http2Session.cpp for one stream: its
-- header block, then its data, then nothing once `END_STREAM` has come.
use nitro_server.Base.{
  ℕ, ◌+◌, ◌≡◌, Bool, true, false, ◌||◌, not, Option, none, some, List, [], ◌∷◌, ◌++◌, if◌then◌else◌,
  leb, ◌==◌, length,
}
use nitro_server.Base.Assoc.{nat_eq, lookup}
use nitro_server.Http2.State.{Session}
use nitro_server.Http2.Callbacks.{
  request_headers, trailers, data_frame, other_frame, is_request_head,
}
use nitro_server.Http2.Session.{
  Callback, begin_headers, header, data_chunk, frame_recv, stream_close, data_read, on_callback,
  Call, feed_bytes, respond_to, go_away_now, sweep_at, pump_out, stop_it, on_call, answer, swept,
  sweep_streams, is_nil_actions,
}

-- A stream whose header block is arriving, one that may still send data, and one that is half closed.
pub data Phase : Type 0 where
  opening arriving ended : Phase

abbrev pub Phases : Type 0
Phases = ℕ → Option Phase

abbrev pub no_phase : Phases
no_phase id = none

unfoldable pub set_phase : ℕ → Option Phase → Phases → Phases
set_phase id p ph j = if id == j then p else ph j

abbrev pub is_opening : Option Phase → Bool
is_opening (some opening) = true
is_opening p = false

abbrev pub is_arriving : Option Phase → Bool
is_arriving (some arriving) = true
is_arriving p = false

abbrev pub is_idle : Option Phase → Bool
is_idle none = true
is_idle (some p) = false

-- When nghttp2 makes a callback.
unfoldable pub is_due : Callback → Phases → Bool
is_due (begin_headers kind now id) ph = not (is_request_head kind) || is_idle (ph id)
is_due (header kind id name value) ph = not (is_request_head kind) || is_opening (ph id)
is_due (data_chunk now id bytes) ph = is_arriving (ph id)
is_due (frame_recv request_headers end_stream m id) ph = is_opening (ph id)
is_due (frame_recv other_frame end_stream m id) ph = true
is_due (frame_recv kind end_stream m id) ph = is_arriving (ph id)
is_due (stream_close id) ph = true
is_due (data_read id length_wanted) ph = true

unfoldable pub then_phases : Callback → Phases → Phases
then_phases (begin_headers request_headers now id) ph = set_phase id (some opening) ph
then_phases (frame_recv request_headers end_stream m id) ph =
    set_phase id (if end_stream then some ended else some arriving) ph
then_phases (frame_recv trailers end_stream m id) ph =
    if end_stream then set_phase id (some ended) ph else ph
then_phases (frame_recv data_frame end_stream m id) ph =
    if end_stream then set_phase id (some ended) ph else ph
then_phases (stream_close id) ph = set_phase id none ph
then_phases c ph = ph

-- nghttp2 passes on no more data than a declared `content-length`.
unfoldable pub within : Callback → Session → Bool
within (data_chunk now id bytes) s = elim (lookup id s.streams) [
  | none ↦ true
  | some st ↦ elim st.content_length [
    | none ↦ true
    | some n ↦ leb (length st.body + length bytes) n
  ]
]
within c s = true

-- The callbacks come in nghttp2's order.
unfoldable pub IsInOrder : List Callback → Phases → Session → Type 0
IsInOrder [] ph s = Unit
IsInOrder (c ∷ cs) ph s =
    (is_due c ph ≡ true) × (within c s ≡ true) × IsInOrder cs (then_phases c ph) (on_callback c s).0

unfoldable pub phases_after : List Callback → Phases → Phases
phases_after [] ph = ph
phases_after (c ∷ cs) ph = phases_after cs (then_phases c ph)

-- The callbacks that are made in a call, and the session that they are made on.
unfoldable pub made : Call → Session → List Callback
made (feed_bytes received ok sent) s =
    if s.stopped then [] else if not ok then received else received ++ sent
made (respond_to request_id status headers body sent) s =
    elim (answer request_id status headers body s) [ none ↦ [] | some next ↦ sent ]
made (go_away_now sent) s = if s.goaway_sent || s.stopped then [] else sent
made (sweep_at now stall sent) s =
    if s.stopped || is_nil_actions (sweep_streams now stall s.streams).answers then [] else sent
made (pump_out sent) s = sent
made stop_it s = []

unfoldable pub start : Call → Session → Session
start (respond_to request_id status headers body sent) s =
    elim (answer request_id status headers body s) [ none ↦ s | some next ↦ next.0 ]
start (go_away_now sent) s =
    if s.goaway_sent || s.stopped then s else record s { goaway_sent = true }
start (sweep_at now stall sent) s =
    if s.stopped then s else swept (sweep_streams now stall s.streams) s
start stop_it s = record s { stopped = true }
start c s = s

unfoldable pub IsRunInOrder : List Call → Phases → Session → Type 0
IsRunInOrder [] ph s = Unit
IsRunInOrder (c ∷ cs) ph s =
    IsInOrder (made c s) ph (start c s)
    × IsRunInOrder cs (phases_after (made c s) ph) (on_call c s).0
