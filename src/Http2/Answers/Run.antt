-- ===== src/Http2/Answers/Run.antt =====
-- Where an answer of src/engine/Http2Session.cpp goes, after any calls.
use nitro_server.Base.{
  ℕ, ◌≡◌, inl, inr, refl, sym, ◌∙◌, subst, ◌||◌, none, some, List, [], ◌∷◌, Bool-cases,
  Option-cases,
}
use mathlib.Core.Option.{some-injective}
use nitro_server.Base.Text.{Bytes}
use nitro_server.Base.Assoc.{nat_eq, lookup}
use nitro_server.Http.Fields.{Header}
use nitro_server.Http2.State.{Stream, Session, Action}
use nitro_server.Http2.Callbacks.{after}
use nitro_server.Http2.Session.{
  Callback, on_callback, on_callbacks, answer, answer_stream, answer_body, swept, Call, feed_bytes,
  respond_to, go_away_now, sweep_at, pump_out, stop_it, on_call, run,
}
use nitro_server.Http2.Order.{
  Phases, no_phase, then_phases, IsInOrder, phases_after, made, start, IsRunInOrder,
}
use nitro_server.Http2.Budget.{IsKeptBy, Fits-some}
use nitro_server.Http2.Budget.Calls.{on_callback-IsKept, on_callbacks-IsKept}
use nitro_server.Http2.Budget.Run.{on_call_lem, answer-cases, start-IsKept}
use nitro_server.Http2.Budget.Held.{IsFresh, fresh-IsKeptBy}
use nitro_server.Http2.Answers.{Serves, IsServedBy, IsServed-update}
use nitro_server.Http2.Answers.Frames.{on_callback-IsServed}
use nitro_server.Http2.Answers.Sweep.{swept-IsServed}

idle-lookup :
    (ph : Phases) (s : Session)
    → IsKeptBy ph s
    → (id : ℕ) → ph id ≡ none
    → lookup id s.streams ≡ none
idle-lookup ph s h id idle = elim (Option-cases (lookup id s.streams)) [
  | inl e ↦ e
  | inr (st, e) ↦
      let (q, is, kept) = Fits-some s.body_budget (ph id) st (rw e at (h.fits id)) in
      let clash = sym idle ∙ is in cc
]

on_callbacks-IsServed :
    (cs : List Callback) (ph : Phases) (s : Session)
    → IsKeptBy ph s
    → IsServedBy ph s
    → IsInOrder cs ph s
    → IsServedBy (phases_after cs ph) (on_callbacks cs s).0
unfolding on_callbacks phases_after IsInOrder after
on_callbacks-IsServed [] ph s kept h ok = h
on_callbacks-IsServed (c ∷ cs) ph s kept h (due, bound, ok) =
    on_callbacks-IsServed cs (then_phases c ph) (on_callback c s).0
      (on_callback-IsKept c ph s kept due bound)
      (on_callback-IsServed c ph s h (idle-lookup ph s kept) due) ok

answer_stream-IsServed :
    (ph : Phases) (id : ℕ) (st : Stream) (status : ℕ) (headers : List Header) (body : Bytes)
    (s : Session)
    → IsServedBy ph s
    → lookup id s.streams ≡ some st
    → IsServedBy ph (answer_stream id st status headers body s).0
unfolding answer_stream
answer_stream-IsServed ph id st status headers body s h found =
    let sent_body = answer_body st status body in
    IsServed-update ph id s.streams s.req_to_stream st
      (record st { resp_body = sent_body; resp_off = 0 }) h found (λ r k. k) refl

start-IsServed :
    (c : Call) (ph : Phases) (s : Session) → IsServedBy ph s → IsServedBy ph (start c s)
unfolding start swept
start-IsServed (feed_bytes received ok sent) ph s h = h
start-IsServed (respond_to request_id status headers body sent) ph s h =
    elim (Option-cases (answer request_id status headers body s)) [
      | inl e ↦ rw (start, e) h
      | inr (next, e) ↦
          let (id, st, mapped, found, is) = answer-cases request_id status headers body s next e in
          rw (start, e, ← is) (answer_stream-IsServed ph id st status headers body s h found)
    ]
start-IsServed (go_away_now sent) ph s h = elim (Bool-cases (s.goaway_sent || s.stopped)) [
  | inl a ↦ rw (start, a) h
  | inr a ↦ rw (start, a) h
]
start-IsServed (sweep_at now stall sent) ph s h = elim (Bool-cases s.stopped) [
  | inl a ↦ rw (start, a) h
  | inr a ↦ rw (start, a) (swept-IsServed now stall ph s h)
]
start-IsServed (pump_out sent) ph s h = h
start-IsServed stop_it ph s h = h

pub run-IsServed :
    (calls : List Call) (ph : Phases) (s : Session)
    → IsKeptBy ph s
    → IsServedBy ph s
    → IsRunInOrder calls ph s
    → (end : Phases) × IsServedBy end (run calls s).0
unfolding run IsRunInOrder after
run-IsServed [] ph s kept h ok = (ph, h)
run-IsServed (c ∷ cs) ph s kept h (here, rest) =
    let ready = start-IsKept c ph s kept in
    run-IsServed cs (phases_after (made c s) ph) (on_call c s).0
      (subst (λ t. IsKeptBy (phases_after (made c s) ph) t) (sym (on_call_lem c s))
        (on_callbacks-IsKept (made c s) ph (start c s) ready here))
      (subst (λ t. IsServedBy (phases_after (made c s) ph) t) (sym (on_call_lem c s))
        (on_callbacks-IsServed (made c s) ph (start c s) ready (start-IsServed c ph s h) here))
      rest

fresh-IsServedBy : (s : Session) → IsFresh s → s.req_to_stream ≡ [] → IsServedBy no_phase s
unfolding lookup
fresh-IsServedBy s (no_streams, unreserved) no_ids =
    rw (no_streams, no_ids)
      (record { unique = tt; ids_unique = tt; served = λ r j at. cc; waiting = λ j t at sent. cc })

-- Where nghttp2 makes its callbacks in its order and passes on no more data than a declared
-- `content-length`, an answer under a request id that is not a no-op, after any calls of a session that
-- had no stream, no id and nothing reserved, goes to an open stream that was handed over under that id
-- and that the engine has not refused, and it changes the session as the answer of that stream does.
pub run-answer :
    (calls : List Call) (s : Session) (request_id status : ℕ) (headers : List Header) (body : Bytes)
    (next : Session × List Action)
    → IsFresh s
    → s.req_to_stream ≡ []
    → IsRunInOrder calls no_phase s
    → answer request_id status headers body (run calls s).0 ≡ some next
    → (id : ℕ) × (st : Stream) × (lookup id (run calls s).0.streams ≡ some st)
      × Serves request_id st
      × (next ≡ answer_stream id st status headers body (run calls s).0)
run-answer calls s request_id status headers body next fresh no_ids ok h =
    let (ph, served) =
      run-IsServed calls no_phase s (fresh-IsKeptBy s fresh) (fresh-IsServedBy s fresh no_ids) ok in
    let (id, st, mapped, found, is) =
      answer-cases request_id status headers body (run calls s).0 next h in
    let (other, there, serves) = served.served request_id id mapped in
    let same : other ≡ st = some-injective other st (sym there ∙ found) in
    (id, st, found, subst (λ t. Serves request_id t) same serves, sym is)
