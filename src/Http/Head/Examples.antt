-- ===== src/Http/Head/Examples.antt =====
-- Request heads at concrete inputs.
use nitro_server.Base.{◌≡◌, refl, inl, inr, [], ◌∷◌, ◌++◌, bytes_eq}
use nitro_server.Base.Text.{Bytes, codes}
use nitro_server.Common.{parse_method}
use nitro_server.Http.{crlf}
use nitro_server.Http.Fields.{trim, trim_front, trim_back}
use nitro_server.Http.Crlf.{find_crlf, starts_crlf}
use nitro_server.Ws.Utf8.{valid_utf8, valid_utf8_loop}
use nitro_server.Http.Head.{
  is_line_byte, reduce_target, after_scheme, from_slash, header_lines, with_lines, on_target,
  on_parts, on_line, parse_head,
}
use nitro_server.Http.Head.Field.{
  cut, is_field_byte, starts_blank, ends_blank, is_ascii, name_value, parse_field,
}
use nitro_server.Http.Head.Sound.{IsAccepted, parse_head-IsAccepted}
use nitro_server.Http.Head.Target.{is_visible}
use nitro_server.Http.Head.Written.{head_text}
use nitro_server.Http.Head.RoundTrip.{parsed, parse_head-head_text}

-- The absolute form of a target, with one field.
abbrev absolute : Bytes
absolute = codes "GET http://a/b?c HTTP/1.1" ++ (crlf ++ codes "Host: a")

parse_head-IsAccepted_example : IsAccepted (parse_head absolute)
unfolding parse_head on_line on_parts on_target with_lines header_lines reduce_target after_scheme
    from_slash is_line_byte cut is_field_byte starts_blank ends_blank is_ascii name_value
    parse_field trim trim_front trim_back find_crlf starts_crlf valid_utf8 valid_utf8_loop bytes_eq
    parse_method
parse_head-IsAccepted_example = parse_head-IsAccepted absolute refl

parse_head-head_text_example :
    parse_head
      (head_text (codes "PURGE") (codes "/a") (codes "HTTP/1.0") ((codes "Host", codes "a") ∷ []))
    ≡ parsed (codes "PURGE") (codes "/a") (codes "HTTP/1.0") ((codes "Host", codes "a") ∷ [])
unfolding is_visible is_field_byte is_ascii starts_blank ends_blank trim trim_front trim_back
    valid_utf8 valid_utf8_loop
parse_head-head_text_example =
    parse_head-head_text (codes "PURGE") (codes "/a") (codes "HTTP/1.0") refl refl (inl refl, refl)
      (inr refl) ((codes "Host", codes "a") ∷ [])
      (
        (
          record {
            named = refl;
            name_bytes = refl;
            name_ascii = refl;
            name_free = refl;
            name_front = refl;
            name_back = refl;
            value_bytes = refl;
            value_text = refl;
          },
          refl,
        ),
        tt,
      )
