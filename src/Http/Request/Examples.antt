-- ===== src/Http/Request/Examples.antt =====
-- The reading of requests at concrete buffers.
use nitro_server.Base.{◌≡◌, refl, false, [], ◌∷◌, ◌++◌, bytes_eq}
use nitro_server.Base.Text.{Bytes, codes}
use nitro_server.Common.{parse_method}
use nitro_server.Ws.Utf8.{valid_utf8, valid_utf8_loop}
use nitro_server.Router.{empty_router, split, split_from, find_child, method_key}
use nitro_server.Router.Match.{
  match_route, match_loop, match_fuel, pushed, pushed_on, visit, consider, pick, pick_maybe,
}
use nitro_server.Http.{crlf, iequals}
use nitro_server.Http.Fields.{find_header, trim, trim_front, trim_back, pieces}
use nitro_server.Http.Crlf.{find_crlf, starts_crlf}
use nitro_server.Http.Framing.{
  framing, see, see_all, verdict, te_refused, codings_refused, length_refused,
}
use nitro_server.Http.Head.{
  ParsedHead, is_line_byte, reduce_target, after_scheme, from_slash, header_lines, with_lines,
  on_target, on_parts, on_line, parse_head,
}
use nitro_server.Http.Head.Field.{
  cut, is_field_byte, starts_blank, ends_blank, is_ascii, name_value, parse_field,
}
use nitro_server.Http.Head.RoundTrip.{parsed}
use nitro_server.Http.Request.{
  Settings, make_request, check_length, with_verdict, with_head, read_head, is_streamed, read_body,
  with_body, with_request, round, serves, declared_length, digits_value, split_query, server_max,
}
use nitro_server.Http.Request.End.{find_end, starts_end}
use nitro_server.Http.Request.Accepted.{IsServed, round-IsServed}
use nitro_server.Http.Request.Pipelined.{round-append}

abbrev settings : Settings
settings = record { max_body_bytes = 100; routes = empty_router }

abbrev post_hi : Bytes
post_hi =
    codes "POST /a?b HTTP/1.1"
    ++ (crlf
        ++ (codes "Host: a"
            ++ (crlf ++ (codes "Content-Length: 2" ++ (crlf ++ (crlf ++ codes "hi"))))))

abbrev next_get : Bytes
next_get = codes "GET / HTTP/1.1" ++ (crlf ++ crlf)

abbrev post_head : ParsedHead
post_head =
    parsed (codes "POST") (codes "/a?b") (codes "HTTP/1.1")
      ((codes "Host", codes "a") ∷ (codes "Content-Length", codes "2") ∷ [])

-- The request is read with its body, and nothing is left.
post_hi-round :
    round settings post_hi ≡ serves (make_request settings post_head false) (codes "hi") []
unfolding round with_request with_body read_head with_head with_verdict check_length read_body
    is_streamed make_request declared_length digits_value split_query server_max find_end starts_end
    framing see see_all verdict te_refused codings_refused length_refused iequals find_header
    parse_head on_line on_parts on_target with_lines header_lines reduce_target after_scheme
    from_slash is_line_byte cut is_field_byte starts_blank ends_blank is_ascii name_value
    parse_field trim trim_front trim_back pieces find_crlf starts_crlf valid_utf8 valid_utf8_loop
    bytes_eq parse_method match_route match_loop match_fuel split split_from find_child method_key
    pushed pushed_on visit consider pick pick_maybe
post_hi-round = refl

round-IsServed_example :
    IsServed settings post_hi (make_request settings post_head false) (codes "hi") []
round-IsServed_example =
    round-IsServed settings post_hi (make_request settings post_head false) (codes "hi") []
      post_hi-round

round-append_example :
    round settings (post_hi ++ next_get)
    ≡ serves (make_request settings post_head false) (codes "hi") ([] ++ next_get)
round-append_example =
    round-append settings post_hi next_get (make_request settings post_head false) (codes "hi") []
      post_hi-round
