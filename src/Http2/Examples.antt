-- ===== src/Http2/Examples.antt =====
-- Concrete inputs: an upload of three bytes over HTTP/2, its answer, and a path of another method.
use nitro_server.Base.{
  ℕ, ◌≤◌, ◌≡◌, refl, true, false, Option, none, some, List, [], ◌∷◌, arith, bytes_eq,
}
use nitro_server.Base.Text.{codes}
use nitro_server.Base.Assoc.{nat_eq, lookup, insert}
use nitro_server.Base.Total.{total}
use nitro_server.Common.{post, parse_method, method_index}
use nitro_server.Router.{
  RouteEntry, Router, node, child, no_child, no_node, split, split_from, find_child, method_key,
}
use nitro_server.Router.Match.{
  match_route, match_loop, visit, pushed, pushed_on, match_fuel, pick, pick_maybe, consider,
}
use nitro_server.Ws.Utf8.{valid_utf8, valid_utf8_loop}
use nitro_server.Http.Head.Field.{cut, is_ascii}
use nitro_server.Http2.State.{Stream, fresh_stream, Session, Action, reject_stream}
use nitro_server.Http2.Callbacks.{
  request_headers, data_frame, Moment, after, on_begin_headers, on_header, store_header,
  on_data_chunk, on_frame, on_head, on_end, emit_complete, emit_request, reserve, wanted, over_cap,
  routed,
}
use nitro_server.Http2.Session.{
  Callback, begin_headers, header, data_chunk, frame_recv, answer, answer_stream, Call, feed_bytes,
  run, on_call, on_callback, on_callbacks, feed, pump,
}
use nitro_server.Http2.Order.{
  no_phase, IsRunInOrder, IsInOrder, is_due, then_phases, within, phases_after, made, start,
  set_phase,
}
use nitro_server.Http2.Budget.{reserved_of, held_of}
use nitro_server.Http2.Budget.Held.{run-held, run-reserved}
use nitro_server.Http2.Answers.{Serves}
use nitro_server.Http2.Answers.Run.{run-answer}
use nitro_server.Http2.Body.{reads, reads-whole}

abbrev upload_route : RouteEntry
upload_route = record {
  method = post;
  custom_method = [];
  pattern = codes "/up";
  timeout_ms = some 1000;
  is_web_socket = false;
  stream_body = false;
  max_body_bytes = some 64;
  ws_protocols = [];
  static_response = none;
}

abbrev upload_router : Router
upload_router = record {
  root =
      node
        (child (codes "up") (node no_child no_node [] no_node ((codes "M:2", upload_route) ∷ []))
          no_child)
        no_node [] no_node [];
  size = 1;
}

abbrev new_session : Session
new_session = record {
  router = upload_router;
  max_body_bytes = 32;
  default_timeout_ms = 0;
  body_budget = 100;
  reserved = 0;
  goaway_sent = false;
  stopped = false;
  next_id = 1;
  streams = [];
  req_to_stream = [];
}

abbrev at_five : Moment
at_five = record { now = 5; admitted = true; shared_id = none }

abbrev upload_head : List Callback
upload_head =
    begin_headers request_headers 0 1
    ∷ header request_headers 1 (codes ":method") (codes "POST")
    ∷ header request_headers 1 (codes ":path") (codes "/up")
    ∷ frame_recv request_headers false at_five 1
    ∷ []

abbrev upload_part : List Callback
upload_part = data_chunk 6 1 (codes "abc") ∷ []

abbrev upload_end : List Callback
upload_end = frame_recv data_frame true at_five 1 ∷ []

abbrev half_way : List Call
half_way = feed_bytes upload_head true [] ∷ feed_bytes upload_part true [] ∷ []

abbrev whole_way : List Call
whole_way =
    feed_bytes upload_head true []
    ∷ feed_bytes upload_part true []
    ∷ feed_bytes upload_end true []
    ∷ []

half_way-IsRunInOrder : IsRunInOrder half_way no_phase new_session
unfolding IsRunInOrder IsInOrder is_due then_phases within phases_after made start set_phase on_call
    on_callback on_callbacks feed pump after on_begin_headers on_header store_header on_data_chunk
    on_frame on_head on_end reserve wanted over_cap routed lookup insert valid_utf8 is_ascii
    bytes_eq parse_method cut reject_stream match_route match_loop visit pushed pushed_on match_fuel
    pick pick_maybe consider split split_from find_child method_key valid_utf8_loop method_index
half_way-IsRunInOrder =
    ((refl, refl, (refl, refl, (refl, refl, (refl, refl, tt)))), ((refl, refl, tt), tt))

run-held_example : total held_of (run half_way new_session).0.streams ≤ 100
run-held_example = run-held half_way new_session (refl, refl) (omega arith) half_way-IsRunInOrder

run-reserved_example :
    ((run half_way new_session).0.reserved ≡ total reserved_of (run half_way new_session).0.streams)
    × ((run half_way new_session).0.reserved ≤ 100)
run-reserved_example = run-reserved half_way new_session (refl, refl) half_way-IsRunInOrder

whole_way-IsRunInOrder : IsRunInOrder whole_way no_phase new_session
unfolding IsRunInOrder IsInOrder is_due then_phases within phases_after made start set_phase on_call
    on_callback on_callbacks feed pump after on_begin_headers on_header store_header on_data_chunk
    on_frame on_head on_end reserve wanted over_cap routed lookup insert valid_utf8 is_ascii
    bytes_eq parse_method cut reject_stream match_route match_loop visit pushed pushed_on match_fuel
    pick pick_maybe consider split split_from find_child method_key valid_utf8_loop method_index
whole_way-IsRunInOrder = (
  (refl, refl, (refl, refl, (refl, refl, (refl, refl, tt)))),
  ((refl, refl, tt), ((refl, refl, tt), tt)),
)

abbrev or_unchanged : Option (Session × List Action) → Session × List Action
or_unchanged none = (new_session, [])
or_unchanged (some next) = next

abbrev hello : Option (Session × List Action)
hello = answer 1 200 [] (codes "hello") (run whole_way new_session).0

hello_is : hello ≡ some (or_unchanged hello)
unfolding run answer emit_complete emit_request IsRunInOrder IsInOrder is_due then_phases within
    phases_after made start set_phase on_call on_callback on_callbacks feed pump after
    on_begin_headers on_header store_header on_data_chunk on_frame on_head on_end reserve wanted
    over_cap routed lookup insert valid_utf8 is_ascii bytes_eq parse_method cut reject_stream
    match_route match_loop visit pushed pushed_on match_fuel pick pick_maybe consider split
    split_from find_child method_key valid_utf8_loop method_index
hello_is = refl

run-answer_example :
    (id : ℕ) × (st : Stream) × (lookup id (run whole_way new_session).0.streams ≡ some st)
    × Serves 1 st
    × (or_unchanged hello
        ≡ answer_stream id st 200 [] (codes "hello") (run whole_way new_session).0)
run-answer_example =
    run-answer whole_way new_session 1 200 [] (codes "hello") (or_unchanged hello) (refl, refl) refl
      whole_way-IsRunInOrder hello_is

abbrev hello_stream : Stream
hello_stream = record (fresh_stream 32 0) { resp_body = codes "hello" }

reads-whole_example : reads (2 ∷ 1 ∷ 9 ∷ []) hello_stream ≡ (codes "hello", true)
reads-whole_example = reads-whole 2 (1 ∷ 9 ∷ []) hello_stream refl (omega arith)
