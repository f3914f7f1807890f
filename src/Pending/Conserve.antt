-- ===== src/Pending/Conserve.antt =====
-- Every payload that is tracked is either held in a log or has been freed, once.
use nitro_server.Base.{
  ℕ, zero, suc, ◌+◌, ◌%◌, ◌<◌, ◌≡◌, refl, true, Option, List, [], ◌∷◌, ◌++◌, if◌then◌else◌, leb,
  ◌==◌, ◌&&◌, length, get_or, set, map, arith, Bool-cases, Option-cases, inl, inr,
}
use nitro_server.Base.Assoc.{nat_eq, lookup, insert, erase, Values, Values-lookup}
use nitro_server.Pending.Log.{
  IsLog, IsTable, split_acked_all, shard-Values, apply-IsTable, empty-IsTable,
}
use nitro_server.Pending.{
  PendingRequest, PayloadLog, Shard, empty_shard, PendingTable, empty, shard, set_shard, pointers,
  create, erase_log, erase_request, drop_log, drop_payloads, log_or_empty, track_log, track_payload,
  split_acked, ack_log, ack_found, ack_logs, ack, abort_all, abort_table, abort_shards,
  log_pointers, size, size_of, Call, create_call, erase_call, drop_call, track_call, ack_call,
  abort_call, apply, run,
}

-- How often a pointer stands in a list.
pub count : ℕ → List ℕ → ℕ
count p [] = 0
count p (q ∷ qs) = (if p == q then 1 else 0) + count p qs

count-append : (p : ℕ) (xs ys : List ℕ) → count p (xs ++ ys) ≡ count p xs + count p ys
unfolding count
count-append p [] ys = omega arith
count-append p (x ∷ xs) ys = omega (arith, count-append p xs ys)

-- How often a pointer is held by the logs of one shard, and by all of them.
pub held_in : ℕ → List (ℕ × PayloadLog) → ℕ
held_in p m = count p (log_pointers m)

pub held_by : ℕ → List Shard → ℕ
held_by p [] = 0
held_by p (s ∷ ss) = held_in p s.logs + held_by p ss

pub held : ℕ → PendingTable → ℕ
held p t = held_by p t.shards

module _ (p : ℕ) where
  pointers-append :
      (xs ys : List (ℕ × ℕ))
      → count p (pointers (xs ++ ys)) ≡ count p (pointers xs) + count p (pointers ys)
  unfolding count
  pointers-append [] ys = omega arith
  pointers-append ((seq, q) ∷ xs) ys = omega (arith, pointers-append xs ys)

  log_count : Option PayloadLog → ℕ
  log_count o = count p (pointers (log_or_empty o).payloads)

  -- Replacing or removing a log changes what is held by that log alone.
  held-insert :
      (id : ℕ) (log : PayloadLog) (m : List (ℕ × PayloadLog))
      → held_in p (insert id log m) + log_count (lookup id m)
        ≡ held_in p m + count p (pointers log.payloads)
  unfolding held_in log_pointers insert lookup log_count log_or_empty count
  held-insert id log [] = ground (arith, count-append p (pointers log.payloads) [])
  held-insert id log ((j, old) ∷ m) = ground (
    arith,
    held-insert id log m,
    count-append p (pointers log.payloads) (log_pointers m),
    count-append p (pointers old.payloads) (log_pointers m),
    count-append p (pointers old.payloads) (log_pointers (insert id log m)),
  )

  held-erase :
      (id : ℕ) (m : List (ℕ × PayloadLog))
      → held_in p (erase id m) + log_count (lookup id m) ≡ held_in p m
  unfolding held_in log_pointers erase lookup log_count log_or_empty count
  held-erase id [] = omega arith
  held-erase id ((j, old) ∷ m) = ground (
    arith,
    held-erase id m,
    count-append p (pointers old.payloads) (log_pointers m),
    count-append p (pointers old.payloads) (log_pointers (erase id m)),
  )

  split_acked-count :
      (acked : ℕ) (ps : List (ℕ × ℕ))
      → count p (pointers (split_acked acked ps).0) + count p (split_acked acked ps).1
        ≡ count p (pointers ps)
  unfolding split_acked count
  split_acked-count acked [] = omega arith
  split_acked-count acked ((seq, q) ∷ ps) = ground (arith, split_acked-count acked ps)

  -- The logs of a shard before and after a call, with what the call frees.
  erase_log-count :
      (id : ℕ) (m : List (ℕ × PayloadLog))
      → held_in p (erase_log id m).0 + count p (erase_log id m).1 ≡ held_in p m
  unfolding erase_log log_count log_or_empty count
  erase_log-count id m = elim (Option-cases (lookup id m)) [
    | inl missing ↦ ground (arith, missing)
    | inr (log, found) ↦
        ground (arith, found, held-erase id m, held-insert id (record log { orphaned = true }) m)
  ]

  drop_log-count :
      (id : ℕ) (m : List (ℕ × PayloadLog))
      → held_in p (drop_log id m).0 + count p (drop_log id m).1 ≡ held_in p m
  unfolding drop_log log_count log_or_empty count
  drop_log-count id m = elim (Option-cases (lookup id m)) [
    | inl missing ↦ ground (arith, missing)
    | inr (log, found) ↦ ground (arith, found, held-erase id m)
  ]

  ack_found-count :
      (id up_to : ℕ) (log : PayloadLog) (m : List (ℕ × PayloadLog))
      → IsLog log
      → log_count (lookup id m) ≡ count p (pointers log.payloads)
      → held_in p (ack_found id up_to log m).0 + count p (ack_found id up_to log m).1 ≡ held_in p m
  unfolding ack_found ack_log count
  ack_found-count id up_to log m below same =
      let parts = split_acked-count up_to log.payloads in
      elim (Bool-cases (leb up_to log.acked)) [
        | inl old ↦ rw old (omega arith)
        | inr news ↦ rw news (elim (Bool-cases (log.orphaned && up_to == log.next_seq)) [
          | inl reaped ↦
              let all_acked : up_to ≡ log.next_seq = ground arith in
              let none_left : count p (pointers (split_acked up_to log.payloads).0) ≡ 0 =
                rw (all_acked, split_acked_all log.next_seq log.payloads below) in
              rw reaped (omega (arith, parts, held-erase id m, none_left))
          | inr kept ↦ rw kept (omega (arith, parts, held-insert id (ack_log log up_to).0 m))
        ])
      ]

  ack_logs-count :
      (id up_to : ℕ) (m : List (ℕ × PayloadLog))
      → Values IsLog m
      → held_in p (ack_logs id up_to m).0 + count p (ack_logs id up_to m).1 ≡ held_in p m
  unfolding ack_logs count
  ack_logs-count id up_to m ok = elim (Option-cases (lookup id m)) [
    | inl missing ↦ ground (arith, missing)
    | inr (log, found) ↦
        let same : log_count (lookup id m) ≡ count p (pointers log.payloads) =
          rw found (unfold log_count log_or_empty in refl) in
        ground (
          arith,
          found,
          ack_found-count id up_to log m (Values-lookup IsLog id log m ok found) same,
        )
  ]

  track-count :
      (id q : ℕ) (m : List (ℕ × PayloadLog))
      → held_in p (insert id (track_log (log_or_empty (lookup id m)) q) m)
        ≡ held_in p m + (if p == q then 1 else 0)
  unfolding track_log log_count count
  track-count id q m =
      let log = log_or_empty (lookup id m) in
      ground (
        arith,
        held-insert id (track_log log q) m,
        pointers-append log.payloads ((log.next_seq, q) ∷ []),
      )

  -- Writing one shard changes what that shard holds.
  held_by-set :
      (ss : List Shard) (k : ℕ) (s : Shard)
      → k < length ss
      → held_by p (set ss k s) + held_in p (get_or ss k empty_shard).logs
        ≡ held_by p ss + held_in p s.logs
  unfolding held_by
  held_by-set [] k s h = absurd (omega arith)
  held_by-set (x ∷ ss) zero s h = omega arith
  held_by-set (x ∷ ss) (suc k) s h = omega (arith, held_by-set ss k s (omega arith))

  abort_shards-count :
      (ss : List Shard) (heap : List PendingRequest) (freed : List ℕ)
      → count p (abort_shards ss heap freed).1 ≡ count p freed + held_by p ss
  unfolding abort_shards held_by held_in
  abort_shards-count [] heap freed = omega arith
  abort_shards-count (s ∷ ss) heap freed = omega (
    arith,
    abort_shards-count ss (abort_table s.table heap) (freed ++ log_pointers s.logs),
    count-append p freed (log_pointers s.logs),
  )

  held_by-empty : (ss : List Shard) → held_by p (map (λ _. empty_shard) ss) ≡ 0
  unfolding held_by held_in log_pointers count
  held_by-empty [] = refl
  held_by-empty (s ∷ ss) = omega (arith, held_by-empty ss)

abbrev pub HasShards : PendingTable → Type 0
HasShards t = length t.shards ≡ 16

-- The payloads that a list of calls tracks.
pub tracked : List Call → List ℕ
tracked [] = []
tracked (track_call id q ∷ cs) = q ∷ tracked cs
tracked (c ∷ cs) = tracked cs

-- What the table accounts for: held or freed.
pub accounted : ℕ → PendingTable → ℕ
accounted p t = held p t + count p t.freed

-- A call on one shard that frees what it stops holding.
set_shard-accounted :
    (p : ℕ) (t : PendingTable) (id : ℕ) (s : Shard) (gone : List ℕ)
    → HasShards t
    → accounted p (set_shard t id s gone) + held_in p (shard t id).logs
      ≡ accounted p t + held_in p s.logs + count p gone
unfolding accounted held
set_shard-accounted p t id s gone h =
    omega (arith, held_by-set p t.shards (id % 16) s (omega arith), count-append p t.freed gone)

-- A call accounts for what it tracks, and loses nothing.
apply-accounted :
    (p : ℕ) (t : PendingTable) (c : Call)
    → IsTable t
    → accounted p (apply t c) ≡ accounted p t + count p (tracked (c ∷ []))
unfolding apply create erase_request drop_payloads track_payload ack abort_all tracked count
apply-accounted p t (create_call id) h =
    unfold accounted held in
    omega (
      arith,
      held_by-set p t.shards (id % 16)
          (record (shard t id) { table = insert id (length t.heap) (shard t id).table }),
    )
apply-accounted p t (erase_call id) h = omega (
  arith,
  set_shard-accounted p t id _ (erase_log id (shard t id).logs).1 h.0,
  erase_log-count p id (shard t id).logs,
)
apply-accounted p t (drop_call id) h = omega (
  arith,
  set_shard-accounted p t id _ (drop_log id (shard t id).logs).1 h.0,
  drop_log-count p id (shard t id).logs,
)
apply-accounted p t (track_call id q) h =
    omega (arith, set_shard-accounted p t id _ [] h.0, track-count p id q (shard t id).logs)
apply-accounted p t (ack_call id n) h = omega (
  arith,
  set_shard-accounted p t id _ (ack_logs id n (shard t id).logs).1 h.0,
  ack_logs-count p id n (shard t id).logs (shard-Values t id h),
)
apply-accounted p t abort_call h =
    unfold accounted held in
    omega (arith, abort_shards-count p t.shards t.heap t.freed, held_by-empty p t.shards)

tracked_cons :
    (p : ℕ) (c : Call) (cs : List Call)
    → count p (tracked (c ∷ cs)) ≡ count p (tracked (c ∷ [])) + count p (tracked cs)
unfolding tracked count
tracked_cons p (track_call id q) cs = omega arith
tracked_cons p c cs = omega arith

pub run-accounted :
    (p : ℕ) (cs : List Call) (t : PendingTable)
    → IsTable t
    → accounted p (run t cs) ≡ accounted p t + count p (tracked cs)
unfolding run
run-accounted p [] t h = unfold tracked count in omega arith
run-accounted p (c ∷ cs) t h = omega (
  arith,
  run-accounted p cs (apply t c) (apply-IsTable t c h),
  apply-accounted p t c h,
  tracked_cons p c cs,
)

-- After any calls on a new table, a payload pointer is held by the logs and has been freed, together,
-- exactly as often as it was tracked: what is tracked once is never freed twice, never both held and
-- freed, and never lost.
pub held_or_freed :
    (cs : List Call) (p : ℕ)
    → held p (run empty cs) + count p (run empty cs).freed ≡ count p (tracked cs)
unfolding accounted
held_or_freed cs p = omega (arith, run-accounted p cs empty empty-IsTable, empty_holds)
  where
    empty_holds : accounted p empty ≡ 0
    empty_holds = unfold accounted held held_by held_in log_pointers count in omega arith

run-append : (cs ds : List Call) (t : PendingTable) → run t (cs ++ ds) ≡ run (run t cs) ds
unfolding run
run-append [] ds t = refl
run-append (c ∷ cs) ds t = run-append cs ds (apply t c)

size_of-empty : (ss : List Shard) → size_of (map (λ _. empty_shard) ss) ≡ 0
unfolding size_of
size_of-empty [] = refl
size_of-empty (s ∷ ss) = omega (arith, size_of-empty ss)

-- When `abort_all` follows any calls on a new table, every payload has been freed exactly as often as
-- it was tracked, and no request entry is left.
pub abort_all_frees :
    (cs : List Call) (p : ℕ)
    → (count p (abort_all (run empty cs)).freed ≡ count p (tracked cs))
      × (size (abort_all (run empty cs)) ≡ 0)
unfolding abort_all size held
abort_all_frees cs p =
    let t = run empty cs in
    (
      omega (arith, abort_shards-count p t.shards t.heap t.freed, held_or_freed cs p),
      size_of-empty t.shards,
    )
