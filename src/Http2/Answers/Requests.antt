-- ===== src/Http2/Answers/Requests.antt =====
-- The routing and the end of a request in src/engine/Http2Session.cpp: the one maps a new request id.
use nitro_server.Base.{
  ℕ, ◌+◌, ◌≡◌, inl, inr, refl, sym, ◌∙◌, subst, Bool, false, ◌&&◌, ◌||◌, not, Option, none, some,
  List, [], ltb, ==_refl, Bool-cases, Option-cases,
}
use nitro_server.Base.Text.{Bytes}
use nitro_server.Base.Assoc.{nat_eq, lookup, lookup-insert}
use nitro_server.Router.Match.{Best, match_route}
use nitro_server.Router.Allowed.{allowed_methods}
use nitro_server.Http2.State.{Stream, Session, put_stream, reject_stream}
use nitro_server.Http2.Callbacks.{
  Moment, id_of, reserve, wanted, routed, over_cap, on_head, on_end, is_nil_list, emit_complete,
  emit_request,
}
use nitro_server.Http2.Order.{opening, arriving, ended, Phases, set_phase}
use nitro_server.Http2.Answers.{
  IsServedBy, IsServed-update, IsServed-emit, IsServed-unsent, IsServed-unsent_put, IsServed-enter,
}
use nitro_server.Http2.Answers.Callbacks.{reject_stream-IsServed, still-IsServed}

reserve-IsServed :
    (ph : Phases) (end_stream : Bool) (id : ℕ) (st : Stream) (s : Session)
    → IsServedBy ph s
    → lookup id s.streams ≡ some st
    → st.emitted ≡ false
    → IsServedBy ph (reserve end_stream id st s).0
unfolding reserve
reserve-IsServed ph end_stream id st s h found unsent =
    let want = wanted end_stream s.body_budget st in
    let refused = λ (status : ℕ) (extra : List (Bytes × Bytes)).
      still-IsServed ph id (reject_stream id st status extra s).0
        (reject_stream-IsServed ph id (ph id) st st status extra s h found unsent refl) in
    elim (Bool-cases (st.rejected || not (ltb 0 s.body_budget))) [
      | inl a ↦ rw (reserve, a) h
      | inr a ↦ elim (Bool-cases (ltb s.body_budget want)) [
        | inl b ↦ rw (reserve, a, b) (refused 413 [])
        | inr b ↦ elim (Bool-cases (ltb s.body_budget (s.reserved + want))) [
          | inl c ↦ rw (reserve, a, b, c) (refused 503 _)
          | inr c ↦
              rw (reserve, a, b, c)
                (IsServed-update ph id s.streams s.req_to_stream st (record st { reserved = want })
                  h found (λ r k. k) refl)
        ]
      ]
    ]

routed-emitted :
    (timeout : ℕ) (found : Option Best) (st : Stream)
    → (routed timeout found st).emitted ≡ st.emitted
unfolding routed
routed-emitted timeout none st = refl
routed-emitted timeout (some b) st = refl

pub on_head-IsServed :
    (ph : Phases) (now id : ℕ) (end_stream : Bool) (s : Session)
    → IsServedBy ph s
    → ph id ≡ some opening
    → IsServedBy (set_phase id (some arriving) ph) (on_head now end_stream id s).0
unfolding on_head
on_head-IsServed ph now id end_stream s h is = elim (Option-cases (lookup id s.streams)) [
  | inl e ↦
      rw (e, on_head) (IsServed-enter ph id (some arriving) s.streams s.req_to_stream h (inl e))
  | inr (st, e) ↦
      let unsent =
        IsServed-unsent ph id s.streams s.req_to_stream st h e
          (λ k. let clash = sym is ∙ k in cc) in
      let touched : Stream = record st { last_progress = now } in
      let found = match_route st.method st.custom_method st.path s.router in
      let next = routed s.default_timeout_ms found touched in
      let same = routed-emitted s.default_timeout_ms found touched in
      elim (Bool-cases (not st.rejected && over_cap next)) [
        | inl c ↦
            let step : on_head now end_stream id s ≡ reject_stream id next 413 [] s =
              simp (on_head, e, c) in
            subst (λ r. IsServedBy (set_phase id (some arriving) ph) r.0) (sym step)
              (reject_stream-IsServed ph id (some arriving) st next 413 [] s h e unsent same)
        | inr c ↦
            let step : on_head now end_stream id s
                ≡ reserve end_stream id next (put_stream id next s) =
              simp (on_head, e, c) in
            subst (λ r. IsServedBy (set_phase id (some arriving) ph) r.0) (sym step)
              (reserve-IsServed (set_phase id (some arriving) ph) end_stream id next
                (put_stream id next s)
                (IsServed-unsent_put ph id (some arriving) s.streams s.req_to_stream st next h e
                  unsent same)
                (rw (lookup-insert id id next s.streams, ==_refl id) refl) (same ∙ unsent))
      ]
]

emit_request-IsServed :
    (ph : Phases) (m : Moment) (id : ℕ) (st : Stream) (s : Session)
    → IsServedBy ph s
    → lookup id s.streams ≡ some st
    → st.emitted ≡ false
    → st.rejected ≡ false
    → IsServedBy (set_phase id (some ended) ph) (emit_request m id st s).0
unfolding emit_request
emit_request-IsServed ph m id st s h e unsent alive =
    IsServed-emit ph id (id_of m.shared_id s.next_id) s.streams s.req_to_stream st _ h e unsent
      (refl, refl, alive)

pub on_end-IsServed :
    (ph : Phases) (m : Moment) (id : ℕ) (s : Session)
    → IsServedBy ph s
    → ph id ≡ some arriving
    → IsServedBy (set_phase id (some ended) ph) (on_end m id s).0
unfolding on_end emit_complete
on_end-IsServed ph m id s h is = elim (Option-cases (lookup id s.streams)) [
  | inl e ↦ rw (e, on_end) (IsServed-enter ph id (some ended) s.streams s.req_to_stream h (inl e))
  | inr (st, e) ↦
      let unsent =
        IsServed-unsent ph id s.streams s.req_to_stream st h e
          (λ k. let clash = sym is ∙ k in cc) in
      elim (Bool-cases st.rejected) [
        | inl b ↦
            rw (on_end, e, b)
              (IsServed-enter ph id (some ended) s.streams s.req_to_stream h (inr refl))
        | inr b ↦
            let allowed = allowed_methods st.path s.router in
            let step : on_end m id s ≡ emit_complete m id st s = simp (on_end, e, b) in
            subst (λ r. IsServedBy (set_phase id (some ended) ph) r.0) (sym step)
              (elim (Bool-cases (not m.admitted)) [
                | inl c ↦
                    rw (emit_complete, c)
                      (reject_stream-IsServed ph id (some ended) st st 503 _ s h e unsent refl)
                | inr c ↦ elim (Bool-cases (not st.matched && not (is_nil_list allowed))) [
                  | inl d ↦
                      rw (emit_complete, c, d)
                        (reject_stream-IsServed ph id (some ended) st st 405 _ s h e unsent refl)
                  | inr d ↦
                      rw (emit_complete, c, d) (emit_request-IsServed ph m id st s h e unsent b)
                ]
              ])
      ]
]
