-- ===== src/Pending/Abort.antt =====
-- What `abort_all` does to the requests that are still in the table, and to those that are not.
use nitro_server.Base.{
  ℕ, ◌<◌, ◌≡◌, refl, ◌∙◌, Bool, true, false, List, [], ◌∷◌, ◌++◌, if◌then◌else◌, ◌==◌, ◌||◌, length,
  get_or, set, arith, Bool-cases, inl, inr, length-set, get_or-set_self, get_or-set_ne,
}
use nitro_server.Base.Text.{codes}
use nitro_server.Pending.{
  PendingRequest, fresh_request, Shard, PendingTable, abort_request, abort_table, abort_shards,
  abort_all, log_pointers,
}

-- The address stands in a table.
pub is_live : ℕ → List (ℕ × ℕ) → Bool
is_live a [] = false
is_live a ((id, b) ∷ m) = a == b || is_live a m

pub is_live_in : ℕ → List Shard → Bool
is_live_in a [] = false
is_live_in a (s ∷ ss) = is_live a s.table || is_live_in a ss

-- A stream starts with its answer: `startStream` sets `answered`.
abbrev pub StreamIsAnswer : PendingRequest → Type 0
StreamIsAnswer r = r.stream_started ≡ true → r.answered ≡ true

-- Aborting a request twice is aborting it once.
abort_request_twice :
    (r : PendingRequest) → StreamIsAnswer r → abort_request (abort_request r) ≡ abort_request r
unfolding abort_request
abort_request_twice r h = ground arith

abort_request-StreamIsAnswer :
    (r : PendingRequest) → StreamIsAnswer r → StreamIsAnswer (abort_request r)
unfolding abort_request
abort_request-StreamIsAnswer r h = ground arith

abbrev request_at : List PendingRequest → ℕ → PendingRequest
request_at heap a = get_or heap a fresh_request

length-abort_table :
    (m : List (ℕ × ℕ)) (heap : List PendingRequest) → length (abort_table m heap) ≡ length heap
unfolding abort_table
length-abort_table [] heap = refl
length-abort_table ((id, b) ∷ m) heap = omega (
  arith,
  length-abort_table m (set heap b (abort_request (request_at heap b))),
  length-set heap b (abort_request (request_at heap b)),
)

abort_table-request :
    (m : List (ℕ × ℕ)) (heap : List PendingRequest) (a : ℕ)
    → a < length heap
    → StreamIsAnswer (request_at heap a)
    → request_at (abort_table m heap) a
      ≡ (if is_live a m then abort_request (request_at heap a) else request_at heap a)
unfolding abort_table is_live
abort_table-request [] heap a h w = refl
abort_table-request ((id, b) ∷ m) heap a h w =
    let r = abort_request (request_at heap b) in
    let ih = abort_table-request m (set heap b r) a (omega (arith, length-set heap b r)) in
    elim (Bool-cases (a == b)) [
      | inl same ↦
          let e : a ≡ b = ground arith in
          let here : request_at (set heap b r) a ≡ abort_request (request_at heap a) =
            rw e (get_or-set_self heap b r fresh_request (omega arith)) in
          ground (
            arith,
            ih (rw here (abort_request-StreamIsAnswer (request_at heap a) w)),
            here,
            abort_request_twice (request_at heap a) w,
          )
      | inr other ↦
          let there : request_at (set heap b r) a ≡ request_at heap a =
            get_or-set_ne heap b a r fresh_request (ground arith) in
          ground (arith, ih (rw there w), there)
    ]

if_same : (b : Bool) (r : PendingRequest) → (if b then r else r) ≡ r
if_same true r = refl
if_same false r = refl

abort_shards-request :
    (ss : List Shard) (heap : List PendingRequest) (freed : List ℕ) (a : ℕ)
    → a < length heap
    → StreamIsAnswer (request_at heap a)
    → request_at (abort_shards ss heap freed).0 a
      ≡ (if is_live_in a ss then abort_request (request_at heap a) else request_at heap a)
unfolding abort_shards is_live_in
abort_shards-request [] heap freed a h w = refl
abort_shards-request (s ∷ ss) heap freed a h w =
    let now = abort_table-request s.table heap a h w in
    let ih =
      abort_shards-request ss (abort_table s.table heap) (freed ++ log_pointers s.logs) a
        (omega (arith, length-abort_table s.table heap)) in
    elim (Bool-cases (is_live a s.table)) [
      | inl live ↦
          let e : request_at (abort_table s.table heap) a ≡ abort_request (request_at heap a) =
            now ∙ rw live in
          let twice = abort_request_twice (request_at heap a) w in
          ih (rw e (abort_request-StreamIsAnswer (request_at heap a) w))
          ∙ rw (e, live, twice) (if_same (is_live_in a ss) (abort_request (request_at heap a)))
      | inr dead ↦
          let e : request_at (abort_table s.table heap) a ≡ request_at heap a = now ∙ rw dead in
          ih (rw e w) ∙ rw (e, dead)
    ]

-- What the worker and the stream find at a request once it is aborted.
pub record IsAborted (before after : PendingRequest) : Type 0 where
  pub answered : after.answered ≡ true
  pub takes_over :
      before.answered ≡ false
      → (after.worker_owned ≡ true) × (after.status ≡ 503) × (after.body ≡ codes "server stopped")
  pub keeps_answer :
      before.answered ≡ true
      → (after.status ≡ before.status)
        × (after.body ≡ before.body)
        × (after.headers ≡ before.headers)
  pub kills_stream :
      before.answered ≡ true
      → before.stream_started ≡ true
      → before.stream_done ≡ false
      → after.stream_dead ≡ true

abort_request-IsAborted : (r : PendingRequest) → IsAborted r (abort_request r)
unfolding abort_request
abort_request-IsAborted r = ground arith

-- For a request of the heap whose stream has not started before its answer: if it stands in a shard,
-- `abort_all` leaves it answered, an unanswered one by the worker's 503, an answered one with the answer
-- that it had, and a started stream that is not done becomes dead. If it stands in no shard it is left
-- as it is.
pub abort_all-requests :
    (t : PendingTable) (a : ℕ)
    → a < length t.heap
    → StreamIsAnswer (get_or t.heap a fresh_request)
    → (is_live_in a t.shards ≡ true
        → IsAborted (get_or t.heap a fresh_request) (get_or (abort_all t).heap a fresh_request))
      × (is_live_in a t.shards ≡ false
          → get_or (abort_all t).heap a fresh_request ≡ get_or t.heap a fresh_request)
unfolding abort_all
abort_all-requests t a h w =
    let e = abort_shards-request t.shards t.heap t.freed a h w in
    (λ live. rw (e, live) (abort_request-IsAborted (request_at t.heap a)), λ dead. e ∙ rw dead)
