-- ===== src/Pending.antt =====
-- src/engine/PendingTable.h: the sharded registry of in-flight requests and the logs of body
-- payloads that Dart has not acknowledged.
--
-- A payload pointer is a number, and `freed` records each `std::free` in order. Requests are shared
-- (`std::shared_ptr`): the table maps an id to an address in `heap`, which `abort_all` writes through.
-- Request ids, sequences and acknowledgements are numbers: a negative acknowledgement is a no-op in
-- the source as 0 is here. The clock, file and socket fields of a request, which no operation of the
-- table touches, are left out. Each operation holds its shard's lock, so that operations are steps.
pub mod Conserve
pub mod Log
pub mod Survive
pub mod Abort
mod Examples
use nitro_server.Base.{
  ℕ, zero, suc, ◌+◌, ◌%◌, ◌≤◌, ◌<◌, Bool, true, false, Option, none, some, List, [], ◌∷◌, ◌++◌,
  if◌then◌else◌, ltb, leb, ◌==◌, ◌&&◌, not, length, get_or, set, replicate, map,
}
use nitro_server.Base.Text.{Bytes, codes}
use nitro_server.Base.Assoc.{nat_eq, lookup, insert, erase}

pub record PendingRequest : Type 0 where
  pub answered : Bool
  pub worker_owned : Bool
  pub status : ℕ
  pub headers : List (Bytes × Bytes)
  pub body : Bytes
  pub stream_started : Bool
  pub stream_done : Bool
  pub stream_dead : Bool

abbrev pub fresh_request : PendingRequest
fresh_request = record {
  answered = false;
  worker_owned = false;
  status = 500;
  headers = [];
  body = [];
  stream_started = false;
  stream_done = false;
  stream_dead = false;
}

-- `payloads` pairs a sequence number with a pointer, the oldest first.
pub record PayloadLog : Type 0 where
  pub payloads : List (ℕ × ℕ)
  pub next_seq : ℕ
  pub acked : ℕ
  pub orphaned : Bool

abbrev pub empty_log : PayloadLog
empty_log = record { payloads = []; next_seq = 0; acked = 0; orphaned = false }

pub record Shard : Type 0 where
  pub table : List (ℕ × ℕ)
  pub logs : List (ℕ × PayloadLog)

abbrev pub empty_shard : Shard
empty_shard = record { table = []; logs = [] }

abbrev pub shard_count : ℕ
shard_count = 16

pub record PendingTable : Type 0 where
  pub shards : List Shard
  pub heap : List PendingRequest
  pub freed : List ℕ

abbrev pub empty : PendingTable
empty = record { shards = replicate shard_count empty_shard; heap = []; freed = [] }

-- `shard(id)`: the low four bits of the id.
abbrev pub shard : PendingTable → ℕ → Shard
shard t id = get_or t.shards (id % shard_count) empty_shard

abbrev pub set_shard : PendingTable → ℕ → Shard → List ℕ → PendingTable
set_shard t id s gone = record t {
  shards = set t.shards (id % shard_count) s;
  freed = t.freed ++ gone;
}

abbrev pub pointers : List (ℕ × ℕ) → List ℕ
pointers [] = []
pointers ((seq, p) ∷ ps) = p ∷ pointers ps

-- The new request stands at the end of the heap, and its address is returned.
pub create : PendingTable → ℕ → PendingTable × ℕ
create t id =
    let s = shard t id in
    let address = length t.heap in
    (
      record t {
        shards = set t.shards (id % shard_count) (record s { table = insert id address s.table });
        heap = t.heap ++ (fresh_request ∷ []);
      },
      address,
    )

pub find : PendingTable → ℕ → Option ℕ
find t id = lookup id (shard t id).table

-- What the request's log becomes once the entry is gone, and what is freed.
pub erase_log : ℕ → List (ℕ × PayloadLog) → List (ℕ × PayloadLog) × List ℕ
erase_log id logs = elim (lookup id logs) [
  | none ↦ (logs, [])
  | some log ↦
      if log.acked == log.next_seq
      then (erase id logs, pointers log.payloads)
      else (insert id (record log { orphaned = true }) logs, [])
]

pub erase_request : PendingTable → ℕ → PendingTable
erase_request t id =
    let s = shard t id in
    let (logs, gone) = erase_log id s.logs in
    set_shard t id (record { table = erase id s.table; logs = logs }) gone

pub drop_log : ℕ → List (ℕ × PayloadLog) → List (ℕ × PayloadLog) × List ℕ
drop_log id logs = elim (lookup id logs) [
  | none ↦ (logs, [])
  | some log ↦ (erase id logs, pointers log.payloads)
]

pub drop_payloads : PendingTable → ℕ → PendingTable
drop_payloads t id =
    let s = shard t id in
    let (logs, gone) = drop_log id s.logs in set_shard t id (record s { logs = logs }) gone

-- `s.payloads[requestId]` makes an empty log where there is none.
pub log_or_empty : Option PayloadLog → PayloadLog
log_or_empty none = empty_log
log_or_empty (some log) = log

pub track_log : PayloadLog → ℕ → PayloadLog
track_log log p = record log {
  payloads = log.payloads ++ ((log.next_seq, p) ∷ []);
  next_seq = log.next_seq + 1;
}

pub track_payload : PendingTable → ℕ → ℕ → PendingTable × ℕ
track_payload t id p =
    let s = shard t id in
    let log = log_or_empty (lookup id s.logs) in
    (set_shard t id (record s { logs = insert id (track_log log p) s.logs }) [], log.next_seq)

-- The loop over a log's payloads: what stays and what is freed.
pub split_acked : ℕ → List (ℕ × ℕ) → List (ℕ × ℕ) × List ℕ
split_acked acked [] = ([], [])
split_acked acked ((seq, p) ∷ ps) =
    let (kept, gone) = split_acked acked ps in
    if ltb seq acked then (kept, p ∷ gone) else ((seq, p) ∷ kept, gone)

pub ack_log : PayloadLog → ℕ → PayloadLog × List ℕ
ack_log log up_to =
    let (kept, gone) = split_acked up_to log.payloads in
    (record log { payloads = kept; acked = up_to }, gone)

pub ack_found : ℕ → ℕ → PayloadLog → List (ℕ × PayloadLog) → List (ℕ × PayloadLog) × List ℕ
ack_found id up_to log logs =
    if leb up_to log.acked
    then (logs, [])
    else (let (log', gone) = ack_log log up_to in
        if log'.orphaned && log'.acked == log'.next_seq
        then (erase id logs, gone)
        else (insert id log' logs, gone))

pub ack_logs : ℕ → ℕ → List (ℕ × PayloadLog) → List (ℕ × PayloadLog) × List ℕ
ack_logs id up_to logs = elim (lookup id logs) [
  | none ↦ (logs, [])
  | some log ↦ ack_found id up_to log logs
]

pub ack : PendingTable → ℕ → ℕ → PendingTable
ack t id up_to =
    let s = shard t id in
    let (logs, gone) = ack_logs id up_to s.logs in set_shard t id (record s { logs = logs }) gone

-- What `abort_all` writes to one live request.
pub abort_request : PendingRequest → PendingRequest
abort_request r =
    if not r.answered
    then record r {
      answered = true;
      worker_owned = true;
      status = 503;
      headers = (codes "Content-Type", codes "text/plain") ∷ [];
      body = codes "server stopped";
    }
    else if r.stream_started && not r.stream_done && not r.stream_dead
    then record r { stream_dead = true }
    else r

pub abort_table : List (ℕ × ℕ) → List PendingRequest → List PendingRequest
abort_table [] heap = heap
abort_table ((id, address) ∷ m) heap =
    abort_table m (set heap address (abort_request (get_or heap address fresh_request)))

pub log_pointers : List (ℕ × PayloadLog) → List ℕ
log_pointers [] = []
log_pointers ((id, log) ∷ m) = pointers log.payloads ++ log_pointers m

pub abort_shards : List Shard → List PendingRequest → List ℕ → List PendingRequest × List ℕ
abort_shards [] heap freed = (heap, freed)
abort_shards (s ∷ ss) heap freed =
    abort_shards ss (abort_table s.table heap) (freed ++ log_pointers s.logs)

pub abort_all : PendingTable → PendingTable
abort_all t =
    let (heap, freed) = abort_shards t.shards t.heap t.freed in
    record { shards = map (λ _. empty_shard) t.shards; heap = heap; freed = freed }

pub size_of : List Shard → ℕ
size_of [] = 0
size_of (s ∷ ss) = length s.table + size_of ss

pub size : PendingTable → ℕ
size t = size_of t.shards

pub payload_log_count : List Shard → ℕ
payload_log_count [] = 0
payload_log_count (s ∷ ss) = length s.logs + payload_log_count ss

pub pending_payloads : PendingTable → ℕ → ℕ
pending_payloads t id = length (log_or_empty (lookup id (shard t id).logs)).payloads

-- The calls that the engine makes, one after the other.
pub data Call : Type 0 where
  create_call : ℕ → Call
  erase_call : ℕ → Call
  drop_call : ℕ → Call
  track_call : ℕ → ℕ → Call
  ack_call : ℕ → ℕ → Call
  abort_call : Call

unfoldable pub apply : PendingTable → Call → PendingTable
apply t (create_call id) = (create t id).0
apply t (erase_call id) = erase_request t id
apply t (drop_call id) = drop_payloads t id
apply t (track_call id p) = (track_payload t id p).0
apply t (ack_call id up_to) = ack t id up_to
apply t abort_call = abort_all t

unfoldable pub run : PendingTable → List Call → PendingTable
run t [] = t
run t (c ∷ cs) = run (apply t c) cs
