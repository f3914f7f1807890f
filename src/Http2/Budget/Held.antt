-- ===== src/Http2/Budget/Held.antt =====
-- The promise of src/engine/Http2Session.h about `bodyBudget_`: what a session holds and reserves after
-- any calls.
use nitro_server.Base.{
  ℕ, ◌≤◌, ◌<◌, ◌≡◌, inl, inr, refl, sym, ap, ◌∙◌, List, [], ◌∷◌, length, arith, Option-cases,
}
use nitro_server.Base.Assoc.{nat_eq, lookup}
use nitro_server.Base.Total.{total, total-le}
use nitro_server.Http2.State.{Stream, Session}
use nitro_server.Http2.Callbacks.{after}
use nitro_server.Http2.Session.{
  answer, answer_stream, swept, Call, feed_bytes, respond_to, go_away_now, sweep_at, pump_out,
  stop_it, on_call, run,
}
use nitro_server.Http2.Order.{Phase, opening, arriving, ended, no_phase, made, start, IsRunInOrder}
use nitro_server.Http2.Budget.{Kept, IsKeptBy, IsKept-phase, reserved_of, held_of}
use nitro_server.Http2.Budget.Constant.{on_callbacks-body_budget}
use nitro_server.Http2.Budget.Run.{on_call_lem, answer-cases, run-IsBudgeted}

Kept-held :
    (budget : ℕ) (q : Phase) (st : Stream)
    → 0 < budget
    → Kept budget q st
    → length st.body ≤ st.reserved
Kept-held budget opening st pos (unreserved, empty) = rw empty (omega arith)
Kept-held budget arriving st pos (inl (refused, empty)) = rw empty (omega arith)
Kept-held budget arriving st pos (inr (alive, inl unlimited)) =
    absurd (omega (arith, pos, unlimited))
Kept-held budget arriving st pos (inr (alive, inr (fits, declared))) = fits
Kept-held budget ended st pos empty = rw empty (omega arith)

start-body_budget : (c : Call) (s : Session) → (start c s).body_budget ≡ s.body_budget
unfolding start swept answer_stream
start-body_budget (feed_bytes received ok sent) s = refl
start-body_budget (respond_to request_id status headers body sent) s =
    elim (Option-cases (answer request_id status headers body s)) [
      | inl e ↦ rw (start, e) refl
      | inr (next, e) ↦
          let (id, st, mapped, found, is) = answer-cases request_id status headers body s next e in
          rw (start, e, ← is) refl
    ]
start-body_budget (go_away_now sent) s = ground arith
start-body_budget (sweep_at now stall sent) s = ground arith
start-body_budget (pump_out sent) s = refl
start-body_budget stop_it s = refl

run-body_budget : (calls : List Call) (s : Session) → (run calls s).0.body_budget ≡ s.body_budget
unfolding run after
run-body_budget [] s = refl
run-body_budget (c ∷ cs) s =
    run-body_budget cs (on_call c s).0
    ∙ ap (λ (t : Session). t.body_budget) (on_call_lem c s)
    ∙ on_callbacks-body_budget (made c s) (start c s)
    ∙ start-body_budget c s

-- A session without streams.
abbrev pub IsFresh : Session → Type 0
IsFresh s = (s.streams ≡ []) × (s.reserved ≡ 0)

pub fresh-IsKeptBy : (s : Session) → IsFresh s → IsKeptBy no_phase s
fresh-IsKeptBy s (no_streams, unreserved) =
    rw (no_streams, unreserved)
      (record {
        unique = tt;
        fits = λ j. unfold lookup in tt;
        counted = unfold total in refl;
        bounded = omega arith;
      })

-- Where nghttp2 makes its callbacks in its order and passes on no more data than a declared
-- `content-length`, the request bodies that a session with a budget holds are never more than the
-- budget together, whatever calls it was given since it had no stream and nothing reserved.
pub run-held :
    (calls : List Call) (s : Session)
    → IsFresh s
    → 0 < s.body_budget
    → IsRunInOrder calls no_phase s
    → total held_of (run calls s).0.streams ≤ s.body_budget
run-held calls s fresh pos ok =
    let (ph, kept) = run-IsBudgeted calls no_phase s (fresh-IsKeptBy s fresh) ok in
    let end = (run calls s).0 in
    let same = run-body_budget calls s in
    let still : 0 < end.body_budget = omega (arith, same, pos) in
    let below : total held_of end.streams ≤ total reserved_of end.streams =
      total-le reserved_of held_of end.streams kept.unique (λ id st found.
        let (q, is, k) =
          IsKept-phase ph end.body_budget end.reserved id end.streams st kept found in
        Kept-held end.body_budget q st still k) in
    omega (arith, below, kept.counted, kept.bounded, same)

-- Where nghttp2 makes its callbacks in its order and passes on no more data than a declared
-- `content-length`, then after any calls of a session that had no stream and nothing reserved,
-- `reserved_` is what the open streams reserve, so that a stream that closes gives back all that it
-- took, and it is never more than the budget.
pub run-reserved :
    (calls : List Call) (s : Session)
    → IsFresh s
    → IsRunInOrder calls no_phase s
    → ((run calls s).0.reserved ≡ total reserved_of (run calls s).0.streams)
      × ((run calls s).0.reserved ≤ s.body_budget)
run-reserved calls s fresh ok =
    let (ph, kept) = run-IsBudgeted calls no_phase s (fresh-IsKeptBy s fresh) ok in
    (sym kept.counted, omega (arith, kept.bounded, run-body_budget calls s))
