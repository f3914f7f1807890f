-- ===== src/Http2/Answers/Callbacks.antt =====
-- The fields and the data of a request, in src/engine/Http2Session.cpp, leave the request ids alone.
use nitro_server.Base.{
  ℕ, ◌+◌, ◌≡◌, inl, inr, refl, sym, ◌∙◌, subst, false, ◌&&◌, ◌||◌, not, Option, some, List, [],
  ◌++◌, ltb, length, arith, Bool-cases, Option-cases,
}
use nitro_server.Base.Text.{Bytes}
use nitro_server.Base.Assoc.{nat_eq, lookup}
use nitro_server.Ws.Utf8.{valid_utf8}
use nitro_server.Http.Head.Field.{cut, is_ascii}
use nitro_server.Http2.State.{Stream, Session, rejected_stream, put_stream, reject_stream}
use nitro_server.Http2.Callbacks.{
  FrameKind, is_request_head, on_header, store_header, on_data_chunk,
}
use nitro_server.Http2.Order.{Phase, opening, arriving, Phases, set_phase}
use nitro_server.Http2.Answers.{
  IsServedBy, IsServed-same, set_phase_same, IsServed-unsent, IsServed-unsent_put,
}

-- A refusal of a stream that is not handed over.
pub reject_stream-IsServed :
    (ph : Phases) (id : ℕ) (q : Option Phase) (st next : Stream) (status : ℕ)
    (extra : List (Bytes × Bytes)) (s : Session)
    → IsServedBy ph s
    → lookup id s.streams ≡ some st
    → st.emitted ≡ false
    → next.emitted ≡ st.emitted
    → IsServedBy (set_phase id q ph) (reject_stream id next status extra s).0
unfolding reject_stream
reject_stream-IsServed ph id q st next status extra s h found unsent same =
    IsServed-unsent_put ph id q s.streams s.req_to_stream st (rejected_stream next) h found unsent
      same

pub still-IsServed :
    (ph : Phases) (id : ℕ) (s : Session) → IsServedBy (set_phase id (ph id) ph) s → IsServedBy ph s
still-IsServed ph id s h =
    IsServed-same (set_phase id (ph id) ph) ph s.streams s.req_to_stream (set_phase_same ph id) h

store_header-emitted : (n v : Bytes) (st : Stream) → (store_header n v st).emitted ≡ st.emitted
unfolding store_header
store_header-emitted n v st = elim (Option-cases (cut b'?' v)) [
  | inl e ↦ ground (arith, e)
  | inr (p, e) ↦ ground (arith, e)
]

pub on_header-IsServed :
    (ph : Phases) (kind : FrameKind) (id : ℕ) (name value : Bytes) (s : Session)
    → IsServedBy ph s
    → ph id ≡ some opening
    → IsServedBy ph (on_header kind id name value s).0
unfolding on_header
on_header-IsServed ph kind id name value s h is = elim (Option-cases (lookup id s.streams)) [
  | inl e ↦ rw (e, on_header) h
  | inr (st, e) ↦
      let unsent =
        IsServed-unsent ph id s.streams s.req_to_stream st h e
          (λ k. let clash = sym is ∙ k in cc) in
      still-IsServed ph id (on_header kind id name value s).0
        (elim (Bool-cases (not (is_request_head kind) || st.rejected)) [
          | inl b ↦
              rw (e, on_header, b)
                (IsServed-same ph (set_phase id (ph id) ph) s.streams s.req_to_stream
                  (λ j. sym (set_phase_same ph id j)) h)
          | inr b ↦ elim (Bool-cases (not (valid_utf8 value) || not (is_ascii name))) [
            | inl c ↦
                rw (e, on_header, b, c)
                  (reject_stream-IsServed ph id (ph id) st st 400 [] s h e unsent refl)
            | inr c ↦
                rw (e, on_header, b, c)
                  (IsServed-unsent_put ph id (ph id) s.streams s.req_to_stream st
                    (store_header name value st) h e unsent (store_header-emitted name value st))
          ]
        ])
]

pub on_data_chunk-IsServed :
    (ph : Phases) (now id : ℕ) (bytes : Bytes) (s : Session)
    → IsServedBy ph s
    → ph id ≡ some arriving
    → IsServedBy ph (on_data_chunk now id bytes s).0
unfolding on_data_chunk
on_data_chunk-IsServed ph now id bytes s h is = elim (Option-cases (lookup id s.streams)) [
  | inl e ↦ rw (e, on_data_chunk) h
  | inr (st, e) ↦
      let unsent =
        IsServed-unsent ph id s.streams s.req_to_stream st h e
          (λ k. let clash = sym is ∙ k in cc) in
      let touched : Stream = record st { last_progress = now } in
      let longer : Stream = record touched { body = st.body ++ bytes } in
      elim (Bool-cases st.rejected) [
        | inl b ↦ rw (e, on_data_chunk, b) h
        | inr b ↦
            still-IsServed ph id (on_data_chunk now id bytes s).0
              (elim (Bool-cases
                (ltb 0 st.max_body && ltb st.max_body (length st.body + length bytes))) [
                  | inl c ↦
                      let step : on_data_chunk now id bytes s ≡ reject_stream id touched 413 [] s =
                        simp (on_data_chunk, e, b, c) in
                      subst (λ r. IsServedBy (set_phase id (ph id) ph) r.0) (sym step)
                        (reject_stream-IsServed ph id (ph id) st touched 413 [] s h e unsent refl)
                  | inr c ↦
                      let step : on_data_chunk now id bytes s ≡ (put_stream id longer s, []) =
                        simp (on_data_chunk, e, b, c) in
                      subst (λ r. IsServedBy (set_phase id (ph id) ph) r.0) (sym step)
                        (IsServed-unsent_put ph id (ph id) s.streams s.req_to_stream st longer h e
                          unsent refl)
                ])
      ]
]
