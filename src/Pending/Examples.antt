-- ===== src/Pending/Examples.antt =====
-- The table of src/engine/PendingTable.h on concrete runs.
use nitro_server.Base.{◌+◌, ◌≤◌, ◌<◌, ◌≡◌, refl, true, false, List, [], ◌∷◌, length, get_or, arith}
use nitro_server.Base.Assoc.{nat_eq, lookup, insert}
use nitro_server.Pending.{
  PendingTable, Call, create_call, erase_call, drop_call, track_call, ack_call, apply, run, empty,
  create, track_payload, track_log, log_or_empty, shard, abort_all, size, fresh_request,
}
use nitro_server.Pending.Conserve.{held, count, tracked, held_or_freed, abort_all_frees}
use nitro_server.Pending.Survive.{Held, tracked_survives}
use nitro_server.Pending.Abort.{is_live_in, IsAborted, StreamIsAnswer, abort_all-requests}

-- A request with two payloads, the first of which is acknowledged before the request is erased.
abbrev two_payloads : List Call
two_payloads =
    create_call 7 ∷ track_call 7 100 ∷ track_call 7 101 ∷ ack_call 7 1 ∷ erase_call 7 ∷ []

held_or_freed_example :
    held 101 (run empty two_payloads) + count 101 (run empty two_payloads).freed
    ≡ count 101 (tracked two_payloads)
held_or_freed_example = held_or_freed two_payloads 101

abort_all_frees_example :
    (count 101 (abort_all (run empty two_payloads)).freed ≡ count 101 (tracked two_payloads))
    × (size (abort_all (run empty two_payloads)) ≡ 0)
abort_all_frees_example = abort_all_frees two_payloads 101

abbrev first_calls : List Call
first_calls = create_call 7 ∷ track_call 7 100 ∷ []

abbrev later_calls : List Call
later_calls = erase_call 7 ∷ ack_call 7 1 ∷ drop_call 8 ∷ []

not_acked :
    (log_or_empty (lookup 7 (shard (run empty first_calls) 7).logs)).acked
    ≤ (track_payload (run empty first_calls) 7 101).1
unfolding run apply create track_payload track_log log_or_empty lookup insert
not_acked = omega arith

second_seq : (track_payload (run empty first_calls) 7 101).1 ≡ 1
unfolding run apply create track_payload track_log log_or_empty lookup insert
second_seq = refl

tracked_survives_example :
    Held
      (run (apply (run empty first_calls) (track_call 7 101)) later_calls)
      7
      (track_payload (run empty first_calls) 7 101).1
      101
tracked_survives_example =
    tracked_survives first_calls later_calls 7 101 not_acked
      (tt, (λ e. omega (arith, second_seq), (λ e. omega (arith, e), tt)))

abbrev one_request : PendingTable
one_request = (create empty 7).0

one_request-length : 0 < length one_request.heap
unfolding create
one_request-length = omega arith

one_request-StreamIsAnswer : StreamIsAnswer (get_or one_request.heap 0 fresh_request)
unfolding create
one_request-StreamIsAnswer h = cc

abort_all-requests_example :
    (is_live_in 0 one_request.shards ≡ true
      → IsAborted
          (get_or one_request.heap 0 fresh_request)
          (get_or (abort_all one_request).heap 0 fresh_request))
    × (is_live_in 0 one_request.shards ≡ false
        → get_or (abort_all one_request).heap 0 fresh_request
          ≡ get_or one_request.heap 0 fresh_request)
abort_all-requests_example =
    abort_all-requests one_request 0 one_request-length one_request-StreamIsAnswer
