-- ===== src/Http/Head/RoundTrip.antt =====
-- A request head that is written down is read back by `parseHead` of src/engine/HttpParse.cpp.
use nitro_server.Base.{
  ◌≡◌, refl, ap, ◌∙◌, true, false, not, Option, none, some, List, [], ◌∷◌, ◌++◌, ◌==◌, bytes_eq,
  all, All, arith, ◌⊎◌, inl, inr, append-nil,
}
use nitro_server.Base.Text.{Bytes, codes}
use nitro_server.Common.{parse_method}
use nitro_server.Http.Fields.{Header, is_empty}
use nitro_server.Http.Crlf.{no_cr, find_crlf_back}
use nitro_server.Http.Head.{
  ParsedHead, is_line_byte, starts_slash, reduce_target, with_lines, on_target, on_parts, on_line,
  parse_head,
}
use nitro_server.Http.Head.Sound.{IsVersion}
use nitro_server.Http.Head.Target.{is_visible, IsTarget}
use nitro_server.Http.Head.Written.{
  field_text, fields_text, line_text, head_text, IsWritten, all-join, all-imply, cut_back,
  find_crlf-none, with_lines_back,
}

reduce_target_back :
    (target : Bytes)
    → (starts_slash target ≡ true) ⊎ (target ≡ codes "*")
    → reduce_target target ≡ some target
unfolding reduce_target bytes_eq
reduce_target_back [] (inl e) = cc
reduce_target_back (c ∷ s) (inl e) = ground (arith, e)
reduce_target_back target (inr e) = rw e refl

-- The head that the parts of a request make.
abbrev pub parsed : Bytes → Bytes → Bytes → List Header → ParsedHead
parsed token target version hs = record {
  method = (parse_method token).0;
  custom_method = (parse_method token).1;
  target = target;
  version = version;
  headers = hs;
  ok = true;
  bad_version = false;
}

on_parts_back :
    (token target version : Bytes) (lines : Option Bytes)
    → (starts_slash target ≡ true) ⊎ (target ≡ codes "*")
    → IsVersion version
    → on_parts token target version lines
      ≡ with_lines (record (parsed token target version []) { ok = false }) lines
unfolding on_parts on_target bytes_eq
on_parts_back token target version lines t (inl v) =
    rw (v, on_parts, reduce_target_back target t) refl
on_parts_back token target version lines t (inr v) =
    rw (v, on_parts, reduce_target_back target t) refl

line_bytes : (s : Bytes) → all is_visible s ≡ true → all is_line_byte s ≡ true
unfolding is_visible is_line_byte
line_bytes s h = all-imply is_visible is_line_byte (λ c e. ground (arith, e)) s h

no_blank : (s : Bytes) → all is_visible s ≡ true → all (λ c. not (c == b' ')) s ≡ true
unfolding is_visible
no_blank s h = all-imply is_visible _ (λ c e. ground (arith, e)) s h

version_visible : (version : Bytes) → IsVersion version → all is_visible version ≡ true
unfolding is_visible
version_visible version (inl e) = rw e refl
version_visible version (inr e) = rw e refl

target_not_empty :
    (target : Bytes) → (starts_slash target ≡ true) ⊎ (target ≡ codes "*") → is_empty target ≡ false
target_not_empty [] (inl e) = cc
target_not_empty (c ∷ s) (inl e) = refl
target_not_empty target (inr e) = rw e refl

module _ (token target version : Bytes) (named : is_empty token ≡ false)
    (visible : all is_visible token ≡ true) (t : IsTarget target) (v : IsVersion version) where
  line_fits : all is_line_byte (line_text token target version) ≡ true
  unfolding line_text is_line_byte
  line_fits = all-join is_line_byte token _ (line_bytes token visible) (
      all-join is_line_byte target _ (line_bytes target t.1)
        (line_bytes version (version_visible version v)))

  line_no_cr : no_cr (line_text token target version) ≡ true
  unfolding is_line_byte
  line_no_cr =
      all-imply is_line_byte _ (λ c e. ground (arith, e)) (line_text token target version) line_fits

  target_named : is_empty target ≡ false
  target_named = target_not_empty target t.0

  on_line_back :
      (lines : Option Bytes)
      → on_line (line_text token target version) lines
        ≡ with_lines (record (parsed token target version []) { ok = false }) lines
  unfolding on_line line_text
  on_line_back lines =
      rw
        (
          on_line,
          line_fits,
          cut_back b' ' token (target ++ (b' ' ∷ version)) (no_blank token visible),
          cut_back b' ' target version (no_blank target t.1),
          named,
          target_named,
        )
        (on_parts_back token target version lines t.0 v)

  -- A request line with a method, a target and a version that `parseHead` takes, followed by fields
  -- written as `name: value` lines, is read back whole: the method of the token, the target, the
  -- version and every field in its order. The method token is visible ASCII and not empty; a name is
  -- not empty, is ASCII without a colon or blanks at its ends; a value passes `valid_utf8` and is
  -- without blanks at its ends; and neither holds a byte below 0x20 other than the tab.
  pub parse_head-head_text :
      (hs : List Header)
      → All IsWritten hs
      → parse_head (head_text token target version hs) ≡ parsed token target version hs
  unfolding parse_head head_text fields_text with_lines
  parse_head-head_text [] w =
      ap parse_head (append-nil (line_text token target version))
      ∙ rw (parse_head, find_crlf-none (line_text token target version) line_no_cr)
          (on_line_back none)
  parse_head-head_text (h ∷ hs) w =
      rw
        (
          parse_head,
          find_crlf_back (line_text token target version) (field_text h ++ fields_text hs)
              line_no_cr,
        )
        (on_line_back (some (field_text h ++ fields_text hs))
          ∙ with_lines_back (parsed token target version []) h hs w)
