-- ===== src/Http2/Budget/Constant.antt =====
-- No callback of src/engine/Http2Session.cpp writes `bodyBudget_`.
use nitro_server.Base.{
  ℕ, ◌≡◌, inl, inr, refl, ap, ◌∙◌, Bool, ◌&&◌, not, List, [], ◌∷◌, arith, Bool-cases, Option-cases,
}
use nitro_server.Base.Text.{Bytes}
use nitro_server.Base.Assoc.{nat_eq, lookup}
use nitro_server.Router.Match.{match_route}
use nitro_server.Http2.State.{Stream, Session, put_stream, reject_stream}
use nitro_server.Http2.Callbacks.{
  FrameKind, is_request_head, Moment, after, on_begin_headers, on_header, on_data_chunk, reserve,
  routed, over_cap, on_head, on_end, emit_complete, emit_request, on_frame, on_stream_close,
  on_read,
}
use nitro_server.Http2.Session.{
  Callback, begin_headers, header, data_chunk, frame_recv, stream_close, data_read, on_callback,
  on_callbacks,
}

on_header-body_budget :
    (kind : FrameKind) (id : ℕ) (name value : Bytes) (s : Session)
    → (on_header kind id name value s).0.body_budget ≡ s.body_budget
unfolding on_header reject_stream
on_header-body_budget kind id name value s = elim (Option-cases (lookup id s.streams)) [
  | inl e ↦ ground (arith, e)
  | inr (st, e) ↦ ground (arith, e)
]

on_data_chunk-body_budget :
    (now id : ℕ) (bytes : Bytes) (s : Session)
    → (on_data_chunk now id bytes s).0.body_budget ≡ s.body_budget
unfolding on_data_chunk reject_stream
on_data_chunk-body_budget now id bytes s = elim (Option-cases (lookup id s.streams)) [
  | inl e ↦ ground (arith, e)
  | inr (st, e) ↦ ground (arith, e)
]

reserve-body_budget :
    (bodyless : Bool) (id : ℕ) (st : Stream) (s : Session)
    → (reserve bodyless id st s).0.body_budget ≡ s.body_budget
unfolding reserve reject_stream
reserve-body_budget bodyless id st s = ground arith

on_head-body_budget :
    (now : ℕ) (end_stream : Bool) (id : ℕ) (s : Session)
    → (on_head now end_stream id s).0.body_budget ≡ s.body_budget
unfolding on_head reject_stream
on_head-body_budget now end_stream id s = elim (Option-cases (lookup id s.streams)) [
  | inl e ↦ rw (e, on_head) refl
  | inr (st, e) ↦
      let next =
        routed s.default_timeout_ms (match_route st.method st.custom_method st.path s.router)
          (record st { last_progress = now }) in
      elim (Bool-cases (not st.rejected && over_cap next)) [
        | inl c ↦
            let step : (on_head now end_stream id s).0 ≡ (reject_stream id next 413 [] s).0 =
              simp (on_head, e, c) in
            ap (λ (t : Session). t.body_budget) step
        | inr c ↦
            let step : (on_head now end_stream id s).0
                ≡ (reserve end_stream id next (put_stream id next s)).0 =
              simp (on_head, e, c) in
            ap (λ (t : Session). t.body_budget) step
            ∙ reserve-body_budget end_stream id next (put_stream id next s)
      ]
]

emit_complete-body_budget :
    (m : Moment) (id : ℕ) (st : Stream) (s : Session)
    → (emit_complete m id st s).0.body_budget ≡ s.body_budget
unfolding emit_complete reject_stream emit_request
emit_complete-body_budget m id st s = ground arith

on_end-body_budget :
    (m : Moment) (id : ℕ) (s : Session) → (on_end m id s).0.body_budget ≡ s.body_budget
unfolding on_end
on_end-body_budget m id s = elim (Option-cases (lookup id s.streams)) [
  | inl e ↦ rw (e, on_end) refl
  | inr (st, e) ↦ ground (arith, e, emit_complete-body_budget m id st s)
]

on_frame-body_budget :
    (kind : FrameKind) (end_stream : Bool) (m : Moment) (id : ℕ) (s : Session)
    → (on_frame kind end_stream m id s).0.body_budget ≡ s.body_budget
unfolding on_frame after
on_frame-body_budget kind end_stream m id s = elim (Bool-cases (is_request_head kind)) [
  | inl e ↦ ground (
    arith,
    e,
    on_head-body_budget m.now end_stream id s,
    on_end-body_budget m id (on_head m.now end_stream id s).0,
  )
  | inr e ↦ ground (arith, e, on_end-body_budget m id s)
]

pub on_callback-body_budget :
    (c : Callback) (s : Session) → (on_callback c s).0.body_budget ≡ s.body_budget
unfolding on_callback on_stream_close on_read
on_callback-body_budget (begin_headers kind now id) s = unfold on_begin_headers in ground arith
on_callback-body_budget (header kind id name value) s = on_header-body_budget kind id name value s
on_callback-body_budget (data_chunk now id bytes) s = on_data_chunk-body_budget now id bytes s
on_callback-body_budget (frame_recv kind end_stream m id) s =
    on_frame-body_budget kind end_stream m id s
on_callback-body_budget (stream_close id) s = elim (Option-cases (lookup id s.streams)) [
  | inl e ↦ rw (on_stream_close, e) refl
  | inr (st, e) ↦ rw (on_stream_close, e) refl
]
on_callback-body_budget (data_read id n) s = elim (Option-cases (lookup id s.streams)) [
  | inl e ↦ rw (on_read, e) refl
  | inr (st, e) ↦ rw (on_read, e) refl
]

pub on_callbacks-body_budget :
    (cs : List Callback) (s : Session) → (on_callbacks cs s).0.body_budget ≡ s.body_budget
unfolding on_callbacks after
on_callbacks-body_budget [] s = refl
on_callbacks-body_budget (c ∷ cs) s =
    on_callbacks-body_budget cs (on_callback c s).0 ∙ on_callback-body_budget c s
