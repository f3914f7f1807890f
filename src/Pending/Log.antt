-- ===== src/Pending/Log.antt =====
-- The payload logs: sequence numbers lie below the next one, whatever is called.
use nitro_server.Base.{
  ℕ, zero, suc, ◌+◌, ◌%◌, ◌<◌, ◌≡◌, refl, List, [], ◌∷◌, ltb, leb, ◌==◌, ◌&&◌, length, get_or, set,
  map, arith, Bool-cases, Option-cases, inl, inr, length-set, length-map, All, All-append,
}
use nitro_server.Base.Assoc.{nat_eq, lookup, Values, Values-insert, Values-erase, Values-lookup}
use nitro_server.Pending.{
  PayloadLog, Shard, empty_shard, PendingTable, empty, shard, set_shard, create, erase_log,
  erase_request, drop_log, drop_payloads, log_or_empty, track_log, track_payload, split_acked,
  ack_log, ack_found, ack_logs, ack, abort_all, Call, create_call, erase_call, drop_call,
  track_call, ack_call, abort_call, apply, run,
}

abbrev pub Below : ℕ → List (ℕ × ℕ) → Type 0
Below n ps = All (λ q. q.0 < n) ps

-- A log hands out its sequence numbers from 0 up.
abbrev pub IsLog : PayloadLog → Type 0
IsLog log = Below log.next_seq log.payloads

abbrev pub IsTable : PendingTable → Type 0
IsTable t = (length t.shards ≡ 16) × All (λ s. Values IsLog s.logs) t.shards

Below-suc : (n : ℕ) (ps : List (ℕ × ℕ)) → Below n ps → Below (n + 1) ps
Below-suc n [] h = tt
Below-suc n (q ∷ ps) (lt, h) = (omega arith, Below-suc n ps h)

split_acked-Below :
    (acked n : ℕ) (ps : List (ℕ × ℕ)) → Below n ps → Below n (split_acked acked ps).0
unfolding split_acked
split_acked-Below acked n [] h = tt
split_acked-Below acked n ((seq, p) ∷ ps) (lt, h) =
    let ih = split_acked-Below acked n ps h in
    elim (Bool-cases (ltb seq acked)) [ inl old ↦ rw old ih | inr live ↦ rw live (lt, ih) ]

-- Where everything is acknowledged, nothing stays.
pub split_acked_all : (n : ℕ) (ps : List (ℕ × ℕ)) → Below n ps → (split_acked n ps).0 ≡ []
unfolding split_acked
split_acked_all n [] h = refl
split_acked_all n ((seq, p) ∷ ps) (lt, h) = ground (arith, split_acked_all n ps h)

lookup-IsLog :
    (id : ℕ) (m : List (ℕ × PayloadLog)) → Values IsLog m → IsLog (log_or_empty (lookup id m))
unfolding log_or_empty
lookup-IsLog id m h = elim (Option-cases (lookup id m)) [
  | inl missing ↦ rw missing tt
  | inr (log, found) ↦ rw found (Values-lookup IsLog id log m h found)
]

erase_log-Values :
    (id : ℕ) (m : List (ℕ × PayloadLog)) → Values IsLog m → Values IsLog (erase_log id m).0
unfolding erase_log
erase_log-Values id m h = elim (Option-cases (lookup id m)) [
  | inl missing ↦ rw (missing, erase_log) h
  | inr (log, found) ↦
      rw (found, erase_log)
        (elim (Bool-cases (log.acked == log.next_seq)) [
          | inl done ↦ rw done (Values-erase IsLog id m h)
          | inr open_log ↦
              rw open_log (Values-insert IsLog id _ m (Values-lookup IsLog id log m h found) h)
        ])
]

drop_log-Values :
    (id : ℕ) (m : List (ℕ × PayloadLog)) → Values IsLog m → Values IsLog (drop_log id m).0
unfolding drop_log
drop_log-Values id m h = elim (Option-cases (lookup id m)) [
  | inl missing ↦ rw (missing, drop_log) h
  | inr (log, found) ↦ rw (found, drop_log) (Values-erase IsLog id m h)
]

ack_logs-Values :
    (id up_to : ℕ) (m : List (ℕ × PayloadLog))
    → Values IsLog m
    → Values IsLog (ack_logs id up_to m).0
unfolding ack_logs ack_found ack_log
ack_logs-Values id up_to m h = elim (Option-cases (lookup id m)) [
  | inl missing ↦ rw (missing, ack_logs) h
  | inr (log, found) ↦
      let below = split_acked-Below up_to _ log.payloads (Values-lookup IsLog id log m h found) in
      rw (found, ack_logs)
        (elim (Bool-cases (leb up_to log.acked)) [
          | inl old ↦ rw old h
          | inr news ↦ rw news (elim (Bool-cases (log.orphaned && up_to == log.next_seq)) [
            | inl reaped ↦ rw reaped (Values-erase IsLog id m h)
            | inr kept ↦ rw kept (Values-insert IsLog id _ m below h)
          ])
        ])
]

track_log-IsLog : (log : PayloadLog) (p : ℕ) → IsLog log → IsLog (track_log log p)
unfolding track_log
track_log-IsLog log p h =
    All-append (λ q. q.0 < log.next_seq + 1) log.payloads _ (Below-suc log.next_seq log.payloads h)
      (omega arith)

All-set :
    (ss : List Shard) (k : ℕ) (s : Shard)
    → All (λ s. Values IsLog s.logs) ss
    → Values IsLog s.logs
    → All (λ s. Values IsLog s.logs) (set ss k s)
All-set [] k s h v = tt
All-set (x ∷ ss) zero s h v = (v, h.1)
All-set (x ∷ ss) (suc k) s h v = (h.0, All-set ss k s h.1 v)

All-get_or :
    (ss : List Shard) (k : ℕ)
    → All (λ s. Values IsLog s.logs) ss
    → Values IsLog (get_or ss k empty_shard).logs
All-get_or [] k h = tt
All-get_or (x ∷ ss) zero h = h.0
All-get_or (x ∷ ss) (suc k) h = All-get_or ss k h.1

All-map_empty : (ss : List Shard) → All (λ s. Values IsLog s.logs) (map (λ _. empty_shard) ss)
All-map_empty [] = tt
All-map_empty (s ∷ ss) = (tt, All-map_empty ss)

pub shard-Values : (t : PendingTable) (id : ℕ) → IsTable t → Values IsLog (shard t id).logs
shard-Values t id h = All-get_or t.shards (id % 16) h.1

set_shard-IsTable :
    (t : PendingTable) (id : ℕ) (s : Shard) (gone : List ℕ)
    → IsTable t
    → Values IsLog s.logs
    → IsTable (set_shard t id s gone)
set_shard-IsTable t id s gone h v =
    (omega (arith, length-set t.shards (id % 16) s), All-set t.shards (id % 16) s h.1 v)

-- Every call keeps sixteen shards and logs whose sequence numbers lie below the next one.
pub apply-IsTable : (t : PendingTable) (c : Call) → IsTable t → IsTable (apply t c)
unfolding apply create erase_request drop_payloads track_payload ack abort_all
apply-IsTable t (create_call id) h =
    (omega (arith, length-set {0}), All-set t.shards (id % 16) _ h.1 (shard-Values t id h))
apply-IsTable t (erase_call id) h =
    set_shard-IsTable t id _ (erase_log id (shard t id).logs).1 h
      (erase_log-Values id _ (shard-Values t id h))
apply-IsTable t (drop_call id) h =
    set_shard-IsTable t id _ (drop_log id (shard t id).logs).1 h
      (drop_log-Values id _ (shard-Values t id h))
apply-IsTable t (track_call id q) h = set_shard-IsTable t id _ [] h (
    Values-insert IsLog id _ _ (track_log-IsLog _ q (lookup-IsLog id _ (shard-Values t id h)))
      (shard-Values t id h))
apply-IsTable t (ack_call id n) h =
    set_shard-IsTable t id _ (ack_logs id n (shard t id).logs).1 h
      (ack_logs-Values id n _ (shard-Values t id h))
apply-IsTable t abort_call h =
    (omega (arith, length-map t.shards (λ (s : Shard). empty_shard)), All-map_empty t.shards)

-- From a table with sixteen shards whose logs list sequence numbers below their next one, any calls lead
-- to such a table.
pub run-IsTable : (cs : List Call) (t : PendingTable) → IsTable t → IsTable (run t cs)
unfolding run
run-IsTable [] t h = h
run-IsTable (c ∷ cs) t h = run-IsTable cs (apply t c) (apply-IsTable t c h)

pub empty-IsTable : IsTable empty
empty-IsTable = omega arith
