-- ===== src/Http2/Answers/Frames.antt =====
-- The callbacks of src/engine/Http2Session.cpp keep the request ids those of the open streams.
use nitro_server.Base.{
  ℕ, ◌≡◌, inl, inr, refl, sym, subst, Bool, true, false, none, some, if◌then◌else◌, ==_refl,
  Bool-cases, Option-cases,
}
use nitro_server.Base.Assoc.{nat_eq, lookup}
use nitro_server.Http2.State.{fresh_stream, Session}
use nitro_server.Http2.Callbacks.{
  FrameKind, request_headers, trailers, data_frame, other_frame, is_request_head, Moment, after,
  on_begin_headers, on_head, on_end, on_frame, on_stream_close, read_body, on_read,
}
use nitro_server.Http2.Session.{
  Callback, begin_headers, header, data_chunk, frame_recv, stream_close, data_read, on_callback,
}
use nitro_server.Http2.Order.{opening, arriving, ended, Phases, set_phase, is_due, then_phases}
use nitro_server.Http2.Budget.Calls.{
  is_opening_lem, is_arriving_lem, is_idle_lem, set_phase_twice, ignored_kind-IsKept,
}
use nitro_server.Http2.Answers.{
  IsServedBy, IsServed-same, IsServed-update, IsServed-begin, IsServed-close, IsServed-enter,
}
use nitro_server.Http2.Answers.Callbacks.{on_header-IsServed, on_data_chunk-IsServed}
use nitro_server.Http2.Answers.Requests.{on_head-IsServed, on_end-IsServed}

on_request_headers-IsServed :
    (ph : Phases) (end_stream : Bool) (m : Moment) (id : ℕ) (s : Session)
    → IsServedBy ph s
    → ph id ≡ some opening
    → IsServedBy
        (set_phase id (if end_stream then some ended else some arriving) ph)
        (on_frame request_headers end_stream m id s).0
unfolding on_frame after
on_request_headers-IsServed ph false m id s h is = on_head-IsServed ph m.now id false s h is
on_request_headers-IsServed ph true m id s h is =
    let headed = on_head-IsServed ph m.now id true s h is in
    let final = (after (on_end m id) (on_head m.now true id s)).0 in
    IsServed-same (set_phase id (some ended) (set_phase id (some arriving) ph))
      (set_phase id (some ended) ph) final.streams final.req_to_stream
      (set_phase_twice id (some arriving) (some ended) ph)
      (on_end-IsServed (set_phase id (some arriving) ph) m id (on_head m.now true id s).0 headed
        (unfold set_phase in rw (==_refl id) refl))

on_frame-IsServed :
    (ph : Phases) (kind : FrameKind) (end_stream : Bool) (m : Moment) (id : ℕ) (s : Session)
    → IsServedBy ph s
    → is_due (frame_recv kind end_stream m id) ph ≡ true
    → IsServedBy
        (then_phases (frame_recv kind end_stream m id) ph)
        (on_frame kind end_stream m id s).0
unfolding is_due then_phases
on_frame-IsServed ph request_headers end_stream m id s h due =
    on_request_headers-IsServed ph end_stream m id s h (is_opening_lem (ph id) due)
on_frame-IsServed ph trailers true m id s h due =
    unfold on_frame after in on_end-IsServed ph m id s h (is_arriving_lem (ph id) due)
on_frame-IsServed ph trailers false m id s h due = unfold on_frame in h
on_frame-IsServed ph data_frame true m id s h due =
    unfold on_frame after in on_end-IsServed ph m id s h (is_arriving_lem (ph id) due)
on_frame-IsServed ph data_frame false m id s h due = unfold on_frame in h
on_frame-IsServed ph other_frame true m id s h due = unfold on_frame in h
on_frame-IsServed ph other_frame false m id s h due = unfold on_frame in h

on_stream_close-IsServed :
    (ph : Phases) (id : ℕ) (s : Session)
    → IsServedBy ph s
    → IsServedBy (set_phase id none ph) (on_stream_close id s).0
unfolding on_stream_close
on_stream_close-IsServed ph id s h = elim (Option-cases (lookup id s.streams)) [
  | inl e ↦ rw (e, on_stream_close) (IsServed-enter ph id none s.streams s.req_to_stream h (inl e))
  | inr (st, e) ↦ rw (e, on_stream_close) (IsServed-close ph id s.streams s.req_to_stream st h e)
]

on_read-IsServed :
    (ph : Phases) (id n : ℕ) (s : Session) → IsServedBy ph s → IsServedBy ph (on_read id n s).0
unfolding on_read read_body
on_read-IsServed ph id n s h = elim (Option-cases (lookup id s.streams)) [
  | inl e ↦ rw (e, on_read) h
  | inr (st, e) ↦
      rw (e, on_read)
        (IsServed-update ph id s.streams s.req_to_stream st (read_body n st).0 h e (λ r k. k) refl)
]

on_begin_headers-IsServed :
    (ph : Phases) (now id : ℕ) (s : Session)
    → IsServedBy ph s
    → ph id ≡ none
    → lookup id s.streams ≡ none
    → IsServedBy (set_phase id (some opening) ph) (on_begin_headers request_headers now id s).0
unfolding on_begin_headers
on_begin_headers-IsServed ph now id s h idle fresh =
    IsServed-begin ph id (some opening) s.streams s.req_to_stream
      (fresh_stream s.max_body_bytes now) h fresh refl

-- A callback that comes in nghttp2's order keeps the ids.
pub on_callback-IsServed :
    (c : Callback) (ph : Phases) (s : Session)
    → IsServedBy ph s
    → ((id : ℕ) → ph id ≡ none → lookup id s.streams ≡ none)
    → is_due c ph ≡ true
    → IsServedBy (then_phases c ph) (on_callback c s).0
unfolding on_callback then_phases is_due
on_callback-IsServed (begin_headers request_headers now id) ph s h idle due =
    let is = is_idle_lem (ph id) due in on_begin_headers-IsServed ph now id s h is (idle id is)
on_callback-IsServed (begin_headers trailers now id) ph s h idle due = unfold on_begin_headers in h
on_callback-IsServed (begin_headers data_frame now id) ph s h idle due =
    unfold on_begin_headers in h
on_callback-IsServed (begin_headers other_frame now id) ph s h idle due =
    unfold on_begin_headers in h
on_callback-IsServed (header kind id name value) ph s h idle due =
    elim (Bool-cases (is_request_head kind)) [
      | inl e ↦ on_header-IsServed ph kind id name value s h (is_opening_lem (ph id) (rw e at due))
      | inr e ↦ subst (λ t. IsServedBy ph t) (sym (ignored_kind-IsKept ph id name value kind s e)) h
    ]
on_callback-IsServed (data_chunk now id bytes) ph s h idle due =
    on_data_chunk-IsServed ph now id bytes s h (is_arriving_lem (ph id) due)
on_callback-IsServed (frame_recv kind end_stream m id) ph s h idle due =
    on_frame-IsServed ph kind end_stream m id s h due
on_callback-IsServed (stream_close id) ph s h idle due = on_stream_close-IsServed ph id s h
on_callback-IsServed (data_read id n) ph s h idle due = on_read-IsServed ph id n s h
