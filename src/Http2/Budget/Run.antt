-- ===== src/Http2/Budget/Run.antt =====
-- The promise of src/engine/Http2Session.h about `bodyBudget_`, over a session's whole life.
use nitro_server.Base.{
  ℕ, ◌≡◌, inl, inr, refl, sym, subst, ◌||◌, not, some, List, [], ◌∷◌, ◌++◌, Bool-cases,
  Option-cases,
}
use nitro_server.Base.Text.{Bytes}
use nitro_server.Base.Assoc.{nat_eq, lookup}
use nitro_server.Http.Fields.{Header}
use mathlib.Core.Option.{some-injective}
use nitro_server.Http2.State.{Stream, Session, Action}
use nitro_server.Http2.Callbacks.{after}
use nitro_server.Http2.Session.{
  Callback, on_callback, on_callbacks, pump, feed, answer, answer_stream, answer_body, respond,
  go_away, stop, sweep, sweep_streams, swept, is_nil_actions, Call, feed_bytes, respond_to,
  go_away_now, sweep_at, pump_out, stop_it, on_call, run,
}
use nitro_server.Http2.Order.{
  Phase, opening, arriving, ended, Phases, phases_after, made, start, IsRunInOrder,
}
use nitro_server.Http2.Budget.{Kept, IsKeptBy, IsKept-phase, IsKept-update}
use nitro_server.Http2.Budget.Calls.{on_callbacks-IsKept}
use nitro_server.Http2.Budget.Sweep.{swept-IsKept}

after_state :
    (f : Session → Session × List Action) (p : Session × List Action) → (after f p).0 ≡ (f p.0).0
unfolding after
after_state f p = refl

on_callbacks-append :
    (cs ds : List Callback) (s : Session)
    → (on_callbacks (cs ++ ds) s).0 ≡ (on_callbacks ds (on_callbacks cs s).0).0
unfolding on_callbacks after
on_callbacks-append [] ds s = refl
on_callbacks-append (c ∷ cs) ds s = on_callbacks-append cs ds (on_callback c s).0

-- A call is the callbacks that are made in it, on the session that they are made on.
pub on_call_lem :
    (c : Call) (s : Session) → (on_call c s).0 ≡ (on_callbacks (made c s) (start c s)).0
unfolding on_call made start feed on_callbacks after pump respond go_away sweep
on_call_lem (feed_bytes received ok sent) s = elim (Bool-cases s.stopped) [
  | inl a ↦ simp (on_call, made, start, feed, a, on_callbacks)
  | inr a ↦ elim (Bool-cases (not ok)) [
    | inl b ↦ simp (on_call, made, start, feed, a, b)
    | inr b ↦
        simp (on_call, made, start, feed, a, b, after, pump, on_callbacks-append received sent s)
  ]
]
on_call_lem (respond_to request_id status headers body sent) s =
    elim (Option-cases (answer request_id status headers body s)) [
      | inl e ↦ simp (on_call, made, start, respond, e, on_callbacks)
      | inr (next, e) ↦ simp (on_call, made, start, respond, e, after, pump)
    ]
on_call_lem (go_away_now sent) s = elim (Bool-cases (s.goaway_sent || s.stopped)) [
  | inl a ↦ simp (on_call, made, start, go_away, a, on_callbacks)
  | inr a ↦ simp (on_call, made, start, go_away, a, after, pump)
]
on_call_lem (sweep_at now stall sent) s =
    let w = sweep_streams now stall s.streams in
    elim (Bool-cases s.stopped) [
      | inl a ↦ simp (on_call, made, start, sweep, a, on_callbacks)
      | inr a ↦ elim (Bool-cases (is_nil_actions w.answers)) [
        | inl b ↦ simp (on_call, made, start, sweep, a, b, on_callbacks)
        | inr b ↦ simp (on_call, made, start, sweep, a, b, after, pump)
      ]
    ]
on_call_lem (pump_out sent) s = unfold pump after in refl
on_call_lem stop_it s = unfold stop on_callbacks in refl

pub answer-cases :
    (request_id status : ℕ) (headers : List Header) (body : Bytes) (s : Session)
    (next : Session × List Action)
    → answer request_id status headers body s ≡ some next
    → (id : ℕ) × (st : Stream) × (lookup request_id s.req_to_stream ≡ some id)
      × (lookup id s.streams ≡ some st)
      × (answer_stream id st status headers body s ≡ next)
unfolding answer
answer-cases request_id status headers body s next h = elim (Bool-cases s.stopped) [
  | inl a ↦ let clash = rw (answer, a) at h in cc
  | inr a ↦ elim (Option-cases (lookup request_id s.req_to_stream)) [
    | inl b ↦ let clash = rw (answer, a, b) at h in cc
    | inr (id, b) ↦ elim (Option-cases (lookup id s.streams)) [
      | inl c ↦ let clash = rw (answer, a, b, c) at h in cc
      | inr (st, c) ↦ (
        id,
        st,
        b,
        c,
        some-injective (answer_stream id st status headers body s) next (rw (answer, a, b, c) at h),
      )
    ]
  ]
]

resp-Kept :
    (budget : ℕ) (q : Phase) (st : Stream) (body : Bytes)
    → Kept budget q st
    → Kept budget q (record st { resp_body = body; resp_off = 0 })
resp-Kept budget opening st body h = h
resp-Kept budget arriving st body h = h
resp-Kept budget ended st body h = h

answer_stream-IsKept :
    (ph : Phases) (id : ℕ) (st : Stream) (status : ℕ) (headers : List Header) (body : Bytes)
    (s : Session)
    → IsKeptBy ph s
    → lookup id s.streams ≡ some st
    → IsKeptBy ph (answer_stream id st status headers body s).0
unfolding answer_stream
answer_stream-IsKept ph id st status headers body s h found =
    let (q, was, kept) = IsKept-phase ph s.body_budget s.reserved id s.streams st h found in
    let sent_body = answer_body st status body in
    IsKept-update ph s.body_budget s.reserved id s.streams q st
      (record st { resp_body = sent_body; resp_off = 0 }) h found was refl
      (resp-Kept s.body_budget q st sent_body kept)

pub start-IsKept : (c : Call) (ph : Phases) (s : Session) → IsKeptBy ph s → IsKeptBy ph (start c s)
unfolding start swept
start-IsKept (feed_bytes received ok sent) ph s h = h
start-IsKept (respond_to request_id status headers body sent) ph s h =
    elim (Option-cases (answer request_id status headers body s)) [
      | inl e ↦ rw (start, e) h
      | inr (next, e) ↦
          let (id, st, mapped, found, is) = answer-cases request_id status headers body s next e in
          rw (start, e, ← is) (answer_stream-IsKept ph id st status headers body s h found)
    ]
start-IsKept (go_away_now sent) ph s h = elim (Bool-cases (s.goaway_sent || s.stopped)) [
  | inl a ↦ rw (start, a) h
  | inr a ↦ rw (start, a) h
]
start-IsKept (sweep_at now stall sent) ph s h = elim (Bool-cases s.stopped) [
  | inl a ↦ rw (start, a) h
  | inr a ↦ rw (start, a) (swept-IsKept now stall ph s h)
]
start-IsKept (pump_out sent) ph s h = h
start-IsKept stop_it ph s h = h

abbrev pub IsBudgeted : Session → Type 0
IsBudgeted s = (ph : Phases) × IsKeptBy ph s

pub run-IsBudgeted :
    (calls : List Call) (ph : Phases) (s : Session)
    → IsKeptBy ph s
    → IsRunInOrder calls ph s
    → IsBudgeted (run calls s).0
unfolding run IsRunInOrder after
run-IsBudgeted [] ph s h ok = (ph, h)
run-IsBudgeted (c ∷ cs) ph s h (here, rest) =
    run-IsBudgeted cs (phases_after (made c s) ph) (on_call c s).0
      (subst (λ t. IsKeptBy (phases_after (made c s) ph) t) (sym (on_call_lem c s))
        (on_callbacks-IsKept (made c s) ph (start c s) (start-IsKept c ph s h) here))
      rest
