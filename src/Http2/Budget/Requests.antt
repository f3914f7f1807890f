-- ===== src/Http2/Budget/Requests.antt =====
-- What the routing and the end of a request do to the budget of src/engine/Http2Session.cpp.
use nitro_server.Base.{
  ℕ, ◌+◌, ◌≤◌, ◌≡◌, inl, inr, refl, sym, ◌∙◌, subst, Bool, true, false, ◌&&◌, ◌||◌, not, Option,
  none, some, List, [], ltb, ltb→lt, ==_refl, arith, Bool-cases,
}
use nitro_server.Base.Text.{Bytes}
use nitro_server.Base.Assoc.{nat_eq, lookup, lookup-insert}
use nitro_server.Router.Match.{Best, match_route}
use nitro_server.Router.Allowed.{allowed_methods}
use nitro_server.Http2.State.{Stream, Session, rejected_stream, put_stream, reject_stream}
use nitro_server.Http2.Callbacks.{
  Moment, emit_request, emit_complete, is_nil_list, routed, over_cap, wanted, reserve, on_head,
  on_end,
}
use nitro_server.Http2.Order.{Phase, opening, arriving, ended, Phases, set_phase}
use nitro_server.Http2.Budget.{
  Kept, Declared, IsKeptBy, IsKept-phase, IsKept-put, IsKept-reserve, IsKept-update, IsKept-enter,
  IsKept-stream,
}
use nitro_server.Http2.Budget.Streams.{reject_stream-ended}

-- A stream without a body, once its header block is complete.
abbrev pub after_head : Bool → Phase
after_head true = ended
after_head false = arriving

unbudgeted-Kept :
    (budget : ℕ) (end_stream : Bool) (st : Stream)
    → st.body ≡ []
    → (st.rejected || not (ltb 0 budget)) ≡ true
    → Kept budget (after_head end_stream) st
unbudgeted-Kept budget true st empty h = empty
unbudgeted-Kept budget false st empty h = elim (Bool-cases st.rejected) [
  | inl e ↦ inl (e, empty)
  | inr e ↦ inr (e, inl (ground (arith, e, h)))
]

wanted-Declared :
    (budget : ℕ) (declared : Option ℕ) (st : Stream)
    → st.content_length ≡ declared
    → wanted false budget st ≤ budget
    → Declared declared st.max_body (wanted false budget st)
unfolding wanted
wanted-Declared budget none st e h = elim (Bool-cases (ltb 0 st.max_body)) [
  | inl b ↦ (ltb→lt 0 st.max_body b, rw (e, wanted, b) refl)
  | inr b ↦ let low = rw (e, wanted, b) at h in absurd (omega (arith, low))
]
wanted-Declared budget (some n) st e h = rw (e, wanted) refl

budgeted-Kept :
    (budget : ℕ) (end_stream : Bool) (st : Stream)
    → st.body ≡ []
    → st.rejected ≡ false
    → wanted end_stream budget st ≤ budget
    → Kept budget (after_head end_stream) (record st { reserved = wanted end_stream budget st })
budgeted-Kept budget true st empty alive below = empty
budgeted-Kept budget false st empty alive below =
    inr
      (alive, inr (rw empty (omega arith), wanted-Declared budget st.content_length st refl below))

rejected_after_head :
    (budget : ℕ) (end_stream : Bool) (st : Stream)
    → Kept budget (after_head end_stream) (rejected_stream st)
rejected_after_head budget true st = refl
rejected_after_head budget false st = inl (refl, refl)

reject_stream-after_head :
    (ph : Phases) (id : ℕ) (end_stream : Bool) (st next : Stream) (status : ℕ)
    (extra : List (Bytes × Bytes)) (s : Session)
    → IsKeptBy ph s
    → lookup id s.streams ≡ some st
    → next.reserved ≡ st.reserved
    → IsKeptBy
        (set_phase id (some (after_head end_stream)) ph)
        (reject_stream id next status extra s).0
unfolding reject_stream
reject_stream-after_head ph id end_stream st next status extra s h found same =
    IsKept-put ph s.body_budget s.reserved id s.streams (after_head end_stream) st
      (rejected_stream next) h found same (rejected_after_head s.body_budget end_stream next)

reserve-IsKept :
    (ph : Phases) (end_stream : Bool) (id : ℕ) (st : Stream) (s : Session)
    → IsKeptBy ph s
    → lookup id s.streams ≡ some st
    → st.reserved ≡ 0
    → st.body ≡ []
    → IsKeptBy (set_phase id (some (after_head end_stream)) ph) (reserve end_stream id st s).0
unfolding reserve
reserve-IsKept ph end_stream id st s h found unreserved empty =
    let want = wanted end_stream s.body_budget st in
    elim (Bool-cases (st.rejected || not (ltb 0 s.body_budget))) [
      | inl a ↦
          rw (reserve, a)
            (IsKept-enter ph s.body_budget s.reserved id s.streams (after_head end_stream) st h
              found (unbudgeted-Kept s.body_budget end_stream st empty a))
      | inr a ↦ elim (Bool-cases (ltb s.body_budget want)) [
        | inl b ↦
            rw (reserve, a, b)
              (reject_stream-after_head ph id end_stream st st 413 [] s h found refl)
        | inr b ↦ elim (Bool-cases (ltb s.body_budget (s.reserved + want))) [
          | inl c ↦
              rw (reserve, a, b, c)
                (reject_stream-after_head ph id end_stream st st 503 _ s h found refl)
          | inr c ↦
              rw (reserve, a, b, c)
                (IsKept-reserve ph s.body_budget s.reserved id want s.streams
                  (after_head end_stream) st (record st { reserved = want }) h found
                  (omega (arith, unreserved)) (ground (arith, c))
                  (budgeted-Kept s.body_budget end_stream st empty (ground (arith, a))
                    (ground (arith, b))))
        ]
      ]
    ]

routed_lem :
    (timeout : ℕ) (found : Option Best) (st : Stream)
    → ((routed timeout found st).reserved ≡ st.reserved)
      × ((routed timeout found st).body ≡ st.body)
unfolding routed
routed_lem timeout none st = (refl, refl)
routed_lem timeout (some b) st = (refl, refl)

pub on_head-IsKept :
    (ph : Phases) (now id : ℕ) (end_stream : Bool) (s : Session)
    → IsKeptBy ph s
    → ph id ≡ some opening
    → IsKeptBy (set_phase id (some (after_head end_stream)) ph) (on_head now end_stream id s).0
unfolding on_head
on_head-IsKept ph now id end_stream s h is =
    let (st, e) = IsKept-stream ph s.body_budget s.reserved id s.streams opening h is in
    let (q, was, kept) = IsKept-phase ph s.body_budget s.reserved id s.streams st h e in
    let same : q ≡ opening = cc in
    let (unreserved, empty) = subst (λ p. Kept s.body_budget p st) same kept in
    let touched : Stream = record st { last_progress = now } in
    let found = match_route st.method st.custom_method st.path s.router in
    let next = routed s.default_timeout_ms found touched in
    let (reserved_same, body_same) = routed_lem s.default_timeout_ms found touched in
    elim (Bool-cases (not st.rejected && over_cap next)) [
      | inl c ↦
          let step : on_head now end_stream id s ≡ reject_stream id next 413 [] s =
            simp (on_head, e, c) in
          subst (λ r. IsKeptBy (set_phase id (some (after_head end_stream)) ph) r.0) (sym step)
            (reject_stream-after_head ph id end_stream st next 413 [] s h e reserved_same)
      | inr c ↦
          let step : on_head now end_stream id s
              ≡ reserve end_stream id next (put_stream id next s) =
            simp (on_head, e, c) in
          let ready : IsKeptBy ph (put_stream id next s) =
            IsKept-update ph s.body_budget s.reserved id s.streams opening st next h e is
              reserved_same (reserved_same ∙ unreserved, body_same ∙ empty) in
          subst (λ r. IsKeptBy (set_phase id (some (after_head end_stream)) ph) r.0) (sym step)
            (reserve-IsKept ph end_stream id next (put_stream id next s) ready
              (rw (lookup-insert id id next s.streams, ==_refl id) refl)
              (reserved_same ∙ unreserved) (body_same ∙ empty))
    ]

emit_request-IsKept :
    (ph : Phases) (m : Moment) (id : ℕ) (st : Stream) (s : Session)
    → IsKeptBy ph s
    → lookup id s.streams ≡ some st
    → IsKeptBy (set_phase id (some ended) ph) (emit_request m id st s).0
unfolding emit_request
emit_request-IsKept ph m id st s h e =
    IsKept-put ph s.body_budget s.reserved id s.streams ended st _ h e refl refl

-- A stream that was refused holds no body in any phase.
rejected-Kept :
    (budget : ℕ) (q : Phase) (st : Stream)
    → Kept budget q st
    → st.rejected ≡ true
    → Kept budget ended st
rejected-Kept budget opening st h e = h.1
rejected-Kept budget arriving st (inl (refused, empty)) e = empty
rejected-Kept budget arriving st (inr (alive, room)) e = cc
rejected-Kept budget ended st h e = h

pub on_end-IsKept :
    (ph : Phases) (m : Moment) (id : ℕ) (q : Phase) (s : Session)
    → IsKeptBy ph s
    → ph id ≡ some q
    → IsKeptBy (set_phase id (some ended) ph) (on_end m id s).0
unfolding on_end emit_complete
on_end-IsKept ph m id q s h is =
    let (st, e) = IsKept-stream ph s.body_budget s.reserved id s.streams q h is in
    let (p, was, kept) = IsKept-phase ph s.body_budget s.reserved id s.streams st h e in
    elim (Bool-cases st.rejected) [
      | inl b ↦
          rw (on_end, e, b)
            (IsKept-enter ph s.body_budget s.reserved id s.streams ended st h e
              (rejected-Kept s.body_budget p st kept b))
      | inr b ↦
          let allowed = allowed_methods st.path s.router in
          let step : on_end m id s ≡ emit_complete m id st s = simp (on_end, e, b) in
          subst (λ r. IsKeptBy (set_phase id (some ended) ph) r.0) (sym step)
            (elim (Bool-cases (not m.admitted)) [
              | inl c ↦ rw (emit_complete, c) (reject_stream-ended ph id st st 503 _ s h e refl)
              | inr c ↦ elim (Bool-cases (not st.matched && not (is_nil_list allowed))) [
                | inl d ↦
                    rw (emit_complete, c, d) (reject_stream-ended ph id st st 405 _ s h e refl)
                | inr d ↦ rw (emit_complete, c, d) (emit_request-IsKept ph m id st s h e)
              ]
            ])
    ]
