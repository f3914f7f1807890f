-- ===== src/Http/Answer/Examples.antt =====
-- Concrete requests, answered.
use nitro_server.Base.{◌≡◌, refl, true, false, none, some, List, [], ◌∷◌, ◌++◌, bytes_eq}
use nitro_server.Base.Text.{Bytes, codes}
use nitro_server.Base.Assoc.{bytes_key, lookup}
use nitro_server.Common.{parse_method, method_index, post}
use nitro_server.Ws.Utf8.{valid_utf8, valid_utf8_loop}
use nitro_server.Router.{
  Router, RouteEntry, node, child, no_child, no_node, empty_router, split, split_from, find_child,
  method_key,
}
use nitro_server.Router.Match.{
  Best, match_route, match_loop, match_fuel, pushed, pushed_on, visit, consider, pick, pick_maybe,
}
use nitro_server.Http.{crlf, iequals}
use nitro_server.Http.Fields.{find_header, trim, trim_front, trim_back, pieces}
use nitro_server.Http.Crlf.{find_crlf, starts_crlf}
use nitro_server.Http.Framing.{
  framing, see, see_all, verdict, te_refused, codings_refused, length_refused,
}
use nitro_server.Http.Head.{
  ParsedHead, is_line_byte, reduce_target, after_scheme, from_slash, header_lines, with_lines,
  on_target, on_parts, on_line, parse_head,
}
use nitro_server.Http.Head.Field.{
  cut, is_field_byte, starts_blank, ends_blank, is_ascii, name_value, parse_field,
}
use nitro_server.Http.Head.RoundTrip.{parsed}
use nitro_server.Http.Request.{
  Settings, make_request, check_length, with_verdict, with_head, read_head, is_streamed, read_body,
  with_body, with_request, round, serves, declared_length, digits_value, split_query, server_max,
}
use nitro_server.Http.Request.End.{find_end, starts_end}
use nitro_server.Http.Fields.{is_web_socket_upgrade, client_wants_keep_alive}
use nitro_server.Http.Request.{Request}
use nitro_server.Http.Answer.{
  Terms, Emission, Answer, dispatches, answer_request, matched_route, plain_route, dispatch,
  deadline_of, keeps_alive,
}
use nitro_server.Http.Answer.Dispatched.{out_of, carried, round-dispatches}

abbrev post_route : RouteEntry
post_route = record {
  method = post;
  custom_method = [];
  pattern = codes "/a";
  timeout_ms = none;
  is_web_socket = false;
  stream_body = false;
  max_body_bytes = none;
  ws_protocols = [];
  static_response = none;
}

abbrev post_router : Router
post_router = record {
  root =
      node
        (child (codes "a") (node no_child no_node [] no_node ((codes "M:2", post_route) ∷ []))
          no_child)
        no_node [] no_node [];
  size = 1;
}

abbrev settings : Settings
settings = record { max_body_bytes = 100; routes = post_router }

abbrev terms : Router → Terms
terms routes = record {
  routes = routes;
  keep_alive_timeout_ms = 5000;
  max_requests_per_conn = 0;
  default_timeout_ms = 30000;
  draining = false;
  served = 0;
  age_expired = false;
  over_budget = false;
  next_id = 9;
  now = 1;
  has_emitter = true;
}

abbrev post_hi : Bytes
post_hi =
    codes "POST /a?b HTTP/1.1"
    ++ (crlf
        ++ (codes "Host: a"
            ++ (crlf ++ (codes "Content-Length: 2" ++ (crlf ++ (crlf ++ codes "hi"))))))

abbrev post_head : ParsedHead
post_head =
    parsed (codes "POST") (codes "/a?b") (codes "HTTP/1.1")
      ((codes "Host", codes "a") ∷ (codes "Content-Length", codes "2") ∷ [])

abbrev post_request : Request
post_request = make_request settings post_head false

post_hi-round : round settings post_hi ≡ serves post_request (codes "hi") []
unfolding round with_request with_body read_head with_head with_verdict check_length read_body
    is_streamed make_request declared_length digits_value split_query server_max find_end starts_end
    framing see see_all verdict te_refused codings_refused length_refused iequals find_header
    parse_head on_line on_parts on_target with_lines header_lines reduce_target after_scheme
    from_slash is_line_byte cut is_field_byte starts_blank ends_blank is_ascii name_value
    parse_field trim trim_front trim_back pieces find_crlf starts_crlf valid_utf8 valid_utf8_loop
    bytes_eq parse_method match_route match_loop match_fuel split split_from find_child method_key
    pushed pushed_on visit consider pick pick_maybe method_index lookup
post_hi-round = refl

abbrev post_best : Best
post_best = record { route = post_route; captures = []; spec = 2; is_all = false }

abbrev post_answer : Answer
post_answer = dispatch (terms post_router) post_request post_best (codes "hi")

abbrev post_out : List Emission
post_out = out_of post_answer

post_dispatched :
    answer_request (terms post_router) post_request (codes "hi") []
    ≡ dispatches 9 false true (some 30001) post_out
unfolding answer_request matched_route plain_route dispatch deadline_of keeps_alive round
    with_request with_body read_head with_head with_verdict check_length read_body is_streamed
    make_request declared_length digits_value split_query server_max find_end starts_end framing see
    see_all verdict te_refused codings_refused length_refused iequals find_header parse_head on_line
    on_parts on_target with_lines header_lines reduce_target after_scheme from_slash is_line_byte
    cut is_field_byte starts_blank ends_blank is_ascii name_value parse_field trim trim_front
    trim_back pieces find_crlf starts_crlf valid_utf8 valid_utf8_loop bytes_eq parse_method
    match_route match_loop match_fuel split split_from find_child method_key pushed pushed_on visit
    consider pick pick_maybe method_index lookup is_web_socket_upgrade client_wants_keep_alive
post_dispatched = refl

round-dispatches_example :
    (b : Best) × (match_route post [] (codes "/a") post_router ≡ some b)
    × (b.route.is_web_socket ≡ false)
    × (false ≡ false)
    × (carried post_out ≡ codes "hi")
unfolding make_request split_query round with_request with_body read_head with_head with_verdict
    check_length read_body is_streamed declared_length digits_value server_max find_end starts_end
    framing see see_all verdict te_refused codings_refused length_refused iequals find_header
    parse_head on_line on_parts on_target with_lines header_lines reduce_target after_scheme
    from_slash is_line_byte cut is_field_byte starts_blank ends_blank is_ascii name_value
    parse_field trim trim_front trim_back pieces find_crlf starts_crlf valid_utf8 valid_utf8_loop
    bytes_eq parse_method match_route match_loop match_fuel split split_from find_child method_key
    pushed pushed_on visit consider pick pick_maybe
round-dispatches_example =
    round-dispatches settings (terms post_router) post_hi post_request (codes "hi") [] 9 false true
      (some 30001) post_out post_hi-round refl post_dispatched

abbrev lost_request : Request
lost_request = make_request (record { max_body_bytes = 100; routes = empty_router }) post_head false
