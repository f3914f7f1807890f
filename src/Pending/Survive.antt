-- ===== src/Pending/Survive.antt =====
-- A payload stays readable until it is acknowledged: what frees it, and what does not.
use nitro_server.Base.{
  ℕ, ◌%◌, ◌≤◌, ◌<◌, ◌≡◌, ◌≢◌, ◌⊎◌, refl, sym, ap, subst, ◌∙◌, true, false, some, List, [], ◌∷◌,
  ◌++◌, ltb, leb, ◌==◌, ◌&&◌, length, get_or, arith, Bool-cases, Option-cases, inl, inr, All,
  get_or-set_self, get_or-set_ne,
}
use nitro_server.Base.Assoc.{
  nat_eq, lookup, insert, erase, lookup-insert, lookup-erase_ne, Values, Values-lookup,
}
use nitro_server.Pending.Log.{
  IsLog, Below, IsTable, shard-Values, apply-IsTable, empty-IsTable, run-IsTable,
}
use nitro_server.Pending.{
  PayloadLog, Shard, empty_shard, PendingTable, empty, shard, set_shard, create, erase_log,
  erase_request, drop_log, drop_payloads, log_or_empty, track_log, track_payload, split_acked,
  ack_log, ack_found, ack_logs, ack, Call, create_call, erase_call, drop_call, track_call, ack_call,
  abort_call, apply, run,
}

-- The payload `p` stands in the log with the sequence number `seq`.
abbrev pub InLog : ℕ → ℕ → List (ℕ × ℕ) → Type 0
InLog seq p [] = ⊥
InLog seq p ((s, q) ∷ ps) = ((s ≡ seq) × (q ≡ p)) ⊎ InLog seq p ps

pub record HeldLog (m : List (ℕ × PayloadLog)) (id seq p : ℕ) : Type 0 where
  pub log : PayloadLog
  pub found : lookup id m ≡ some log
  pub listed : InLog seq p log.payloads
  pub waits : log.acked ≤ seq

-- The log of `id` holds the payload, which is not acknowledged.
abbrev pub Held : PendingTable → ℕ → ℕ → ℕ → Type 0
Held t id seq p = HeldLog (shard t id).logs id seq p

-- The calls that leave the payload alone: no acknowledgement past it, no drop of its log, no abort.
abbrev pub Spares : ℕ → ℕ → Call → Type 0
Spares id seq (create_call j) = Unit
Spares id seq (erase_call j) = Unit
Spares id seq (drop_call j) = j ≢ id
Spares id seq (track_call j q) = Unit
Spares id seq (ack_call j n) = j ≡ id → n ≤ seq
Spares id seq abort_call = ⊥

-- Calls for another id leave the log of this one as it is.
module _ (j id : ℕ) (other : (j == id) ≡ false) (m : List (ℕ × PayloadLog)) where
  lookup-insert_other : (log : PayloadLog) → lookup id (insert j log m) ≡ lookup id m
  lookup-insert_other log = rw (lookup-insert j id log m, other)

  lookup-erase_log : lookup id (erase_log j m).0 ≡ lookup id m
  unfolding erase_log
  lookup-erase_log = elim (Option-cases (lookup j m)) [
    | inl missing ↦ rw (missing, erase_log)
    | inr (log, found) ↦
        rw (found, erase_log)
          (elim (Bool-cases (log.acked == log.next_seq)) [
            | inl done ↦ rw done (lookup-erase_ne j id m other)
            | inr waiting ↦ rw waiting (lookup-insert_other _)
          ])
  ]

  lookup-drop_log : lookup id (drop_log j m).0 ≡ lookup id m
  unfolding drop_log
  lookup-drop_log = elim (Option-cases (lookup j m)) [
    | inl missing ↦ rw (missing, drop_log)
    | inr (log, found) ↦ rw (found, drop_log) (lookup-erase_ne j id m other)
  ]

  lookup-ack_logs : (n : ℕ) → lookup id (ack_logs j n m).0 ≡ lookup id m
  unfolding ack_logs ack_found ack_log
  lookup-ack_logs n = elim (Option-cases (lookup j m)) [
    | inl missing ↦ rw (missing, ack_logs)
    | inr (log, found) ↦
        rw (found, ack_logs)
          (elim (Bool-cases (leb n log.acked)) [
            | inl old ↦ rw old
            | inr news ↦ rw news (elim (Bool-cases (log.orphaned && n == log.next_seq)) [
              | inl reaped ↦ rw reaped (lookup-erase_ne j id m other)
              | inr kept ↦ rw kept (lookup-insert_other _)
            ])
          ])
  ]

InLog-lt : (seq p n : ℕ) (ps : List (ℕ × ℕ)) → Below n ps → InLog seq p ps → seq < n
InLog-lt seq p n [] h i = absurd i
InLog-lt seq p n ((s, q) ∷ ps) h (inl (e, _)) = omega arith
InLog-lt seq p n ((s, q) ∷ ps) h (inr i) = InLog-lt seq p n ps h.1 i

InLog-append : (seq p : ℕ) (ps qs : List (ℕ × ℕ)) → InLog seq p ps → InLog seq p (ps ++ qs)
InLog-append seq p [] qs i = absurd i
InLog-append seq p ((s, q) ∷ ps) qs (inl e) = inl e
InLog-append seq p ((s, q) ∷ ps) qs (inr i) = inr (InLog-append seq p ps qs i)

InLog-split_acked :
    (seq p n : ℕ) (ps : List (ℕ × ℕ)) → n ≤ seq → InLog seq p ps → InLog seq p (split_acked n ps).0
unfolding split_acked
InLog-split_acked seq p n [] le i = absurd i
InLog-split_acked seq p n ((s, q) ∷ ps) le (inl (e, e')) =
    let live : ltb s n ≡ false = ground arith in rw live (inl (e, e'))
InLog-split_acked seq p n ((s, q) ∷ ps) le (inr i) =
    let ih = InLog-split_acked seq p n ps le i in
    elim (Bool-cases (ltb s n)) [ inl old ↦ rw old ih | inr live ↦ rw live (inr ih) ]

lookup-insert_self :
    (id : ℕ) (log : PayloadLog) (m : List (ℕ × PayloadLog)) → lookup id (insert id log m) ≡ some log
lookup-insert_self id log m =
    let same : (id == id) ≡ true = ground arith in rw (lookup-insert id id log m, same)

-- What happens to the log itself, call by call.
module _ (id seq p : ℕ) (m : List (ℕ × PayloadLog)) (ok : Values IsLog m)
    (h : HeldLog m id seq p) where
  seq-lt : seq < h.log.next_seq
  seq-lt =
      InLog-lt seq p h.log.next_seq h.log.payloads (Values-lookup IsLog id h.log m ok h.found)
        h.listed

  erase_log-HeldLog : HeldLog (erase_log id m).0 id seq p
  unfolding erase_log
  erase_log-HeldLog =
      let open_log : (h.log.acked == h.log.next_seq) ≡ false = ground (arith, seq-lt, h.waits) in
      record {
        log = record (h.log) { orphaned = true };
        found = rw (h.found, erase_log) (rw open_log (lookup-insert_self id _ m));
        listed = h.listed;
        waits = h.waits;
      }

  track-HeldLog :
      (q : ℕ) → HeldLog (insert id (track_log (log_or_empty (lookup id m)) q) m) id seq p
  unfolding track_log
  track-HeldLog q = record {
    log = track_log h.log q;
    found = rw h.found (unfold log_or_empty in lookup-insert_self id _ m);
    listed = InLog-append seq p h.log.payloads _ h.listed;
    waits = h.waits;
  }

  ack_logs-HeldLog : (n : ℕ) → n ≤ seq → HeldLog (ack_logs id n m).0 id seq p
  unfolding ack_logs ack_found ack_log
  ack_logs-HeldLog n le = elim (Bool-cases (leb n h.log.acked)) [
    | inl old ↦ record {
      log = h.log;
      found = rw (h.found, ack_logs) (rw old h.found);
      listed = h.listed;
      waits = h.waits;
    }
    | inr news ↦
        let open_log : (h.log.orphaned && n == h.log.next_seq) ≡ false = ground (arith, seq-lt) in
        record {
          log = (ack_log h.log n).0;
          found = rw (h.found, ack_logs) (rw news (rw open_log (lookup-insert_self id _ m)));
          listed = InLog-split_acked seq p n h.log.payloads le h.listed;
          waits = le;
        }
  ]

HeldLog-same :
    (id seq p : ℕ) (m m' : List (ℕ × PayloadLog))
    → lookup id m' ≡ lookup id m
    → HeldLog m id seq p
    → HeldLog m' id seq p
HeldLog-same id seq p m m' e h = record {
  log = h.log;
  found = e ∙ h.found;
  listed = h.listed;
  waits = h.waits;
}

-- A call that maps the logs of one shard keeps the payload, if it does so for its own id and leaves
-- the other ids' logs alone.
module _ (t : PendingTable) (id seq p : ℕ) (ok : IsTable t) (h : Held t id seq p) where
  keep :
      (j : ℕ) (s : Shard) (gone : List ℕ)
      → ((j == id) ≡ false → lookup id s.logs ≡ lookup id (shard t j).logs)
      → (j ≡ id → HeldLog s.logs j seq p)
      → Held (set_shard t j s gone) id seq p
  keep j s gone others own = elim (Bool-cases (j % 16 == id % 16)) [
    | inl near ↦
        let index : j % 16 ≡ id % 16 = ground arith in
        rw (← index) (
          rw (get_or-set_self t.shards (j % 16) s empty_shard (omega (arith, ok.0)))
            (elim (Bool-cases (j == id)) [
              | inl same ↦
                  let e : j ≡ id = ground arith in subst (λ k. HeldLog s.logs k seq p) e (own e)
              | inr other ↦
                  HeldLog-same id seq p (shard t id).logs s.logs
                    (others other ∙ ap (λ k. lookup id (get_or t.shards k empty_shard).logs) index)
                    h
            ]))
    | inr far ↦ rw (get_or-set_ne t.shards (j % 16) (id % 16) s empty_shard (ground arith)) h
  ]

  -- The logs of `j` are those of `id` where `j` is `id`.
  own_logs : (j : ℕ) → j ≡ id → HeldLog (shard t j).logs j seq p
  own_logs j e = subst (λ k. HeldLog (shard t k).logs k seq p) (sym e) h

  apply-Held : (c : Call) → Spares id seq c → Held (apply t c) id seq p
  unfolding apply create erase_request drop_payloads track_payload ack
  apply-Held (create_call j) sp =
      keep j (record (shard t j) { table = insert j (length t.heap) (shard t j).table }) []
        (λ other. refl) (own_logs j)
  apply-Held (erase_call j) sp =
      let m = (shard t j).logs in
      keep j (record { table = erase j (shard t j).table; logs = (erase_log j m).0 })
        (erase_log j m).1 (λ other. lookup-erase_log j id other m)
        (λ e. erase_log-HeldLog j seq p m (shard-Values t j ok) (own_logs j e))
  apply-Held (drop_call j) sp =
      let m = (shard t j).logs in
      keep j (record (shard t j) { logs = (drop_log j m).0 }) (drop_log j m).1
        (λ other. lookup-drop_log j id other m) (λ e. absurd (sp e))
  apply-Held (track_call j q) sp =
      let m = (shard t j).logs in
      keep j (record (shard t j) { logs = insert j (track_log (log_or_empty (lookup j m)) q) m }) []
        (λ other. lookup-insert_other j id other m (track_log (log_or_empty (lookup j m)) q))
        (λ e. track-HeldLog j seq p m (shard-Values t j ok) (own_logs j e) q)
  apply-Held (ack_call j n) sp =
      let m = (shard t j).logs in
      keep j (record (shard t j) { logs = (ack_logs j n m).0 }) (ack_logs j n m).1
        (λ other. lookup-ack_logs j id other m n)
        (λ e. ack_logs-HeldLog j seq p m (shard-Values t j ok) (own_logs j e) n (sp e))
  apply-Held abort_call sp = absurd sp

run-Held :
    (cs : List Call) (t : PendingTable) (id seq p : ℕ)
    → IsTable t
    → Held t id seq p
    → All (Spares id seq) cs
    → Held (run t cs) id seq p
unfolding run
run-Held [] t id seq p ok h sp = h
run-Held (c ∷ cs) t id seq p ok h sp =
    run-Held cs (apply t c) id seq p (apply-IsTable t c ok) (apply-Held t id seq p ok h c sp.0) sp.1

InLog-last : (seq p : ℕ) (ps : List (ℕ × ℕ)) → InLog seq p (ps ++ ((seq, p) ∷ []))
InLog-last seq p [] = inl (refl, refl)
InLog-last seq p (q ∷ ps) = inr (InLog-last seq p ps)

track_payload-Held :
    (t : PendingTable) (id p : ℕ)
    → IsTable t
    → (log_or_empty (lookup id (shard t id).logs)).acked ≤ (track_payload t id p).1
    → Held (apply t (track_call id p)) id (track_payload t id p).1 p
unfolding apply track_payload
track_payload-Held t id p ok early =
    let m = (shard t id).logs in
    let log = log_or_empty (lookup id m) in
    let s = record (shard t id) { logs = insert id (track_log log p) m } in
    rw (get_or-set_self t.shards (id % 16) s empty_shard (omega (arith, ok.0))) (record {
      log = track_log log p;
      found = lookup-insert_self id (track_log log p) m;
      listed = unfold track_log in InLog-last log.next_seq p log.payloads;
      waits = unfold track_log in early;
    })

-- After any calls on a new table, a payload tracked for a request gets the sequence number that
-- `track_payload` answers; if that number is not acknowledged in advance, the payload stays in the
-- request's log, also when the request is erased, until it is acknowledged, its log is dropped or the
-- table is aborted.
pub tracked_survives :
    (before after : List Call) (id p : ℕ)
    → (log_or_empty (lookup id (shard (run empty before) id).logs)).acked
      ≤ (track_payload (run empty before) id p).1
    → All (Spares id (track_payload (run empty before) id p).1) after
    → Held
        (run (apply (run empty before) (track_call id p)) after)
        id
        (track_payload (run empty before) id p).1
        p
tracked_survives before after id p early sp =
    run-Held after _ id _ p (apply-IsTable _ (track_call id p) ok) fresh sp
  where
    ok : IsTable (run empty before)
    ok = run-IsTable before empty empty-IsTable

    fresh :
        Held
          (apply (run empty before) (track_call id p))
          id
          (track_payload (run empty before) id p).1
          p
    fresh = track_payload-Held (run empty before) id p ok early
