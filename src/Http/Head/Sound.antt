-- ===== src/Http/Head/Sound.antt =====
-- What `parseHead` of src/engine/HttpParse.cpp accepts.
use nitro_server.Base.{
  ℕ, zero, suc, ◌≡◌, refl, sym, ap, subst, ◌∙◌, true, false, ◌||◌, not, Option, none, some, [], ◌∷◌,
  ◌==◌, bytes_eq, bytes_eq→eq, length, all, All, arith, ◌⊎◌, inl, inr, Bool-cases, Option-cases,
  &&-true,
}
use nitro_server.Base.Text.{Bytes, codes}
use nitro_server.Http.Fields.{is_empty}
use nitro_server.Http.Crlf.{find_crlf}
use nitro_server.Http.Head.{
  ParsedHead, is_line_byte, reduce_target, header_lines, with_lines, on_target, on_parts, on_line,
  parse_head,
}
use nitro_server.Http.Head.Field.{cut, parse_field}
use nitro_server.Http.Head.Target.{
  is_visible, IsTarget, IsRoutable, IsTarget-IsRoutable, reduce_target-IsTarget,
}
use nitro_server.Http.Head.Field.Form.{IsField, IsHeader-IsField}
use nitro_server.Http.Head.Field.Sound.{parse_field-IsHeader, cut_here, cut-IsCut, all-append}

abbrev pub IsVersion : Bytes → Type 0
IsVersion version = (version ≡ codes "HTTP/1.1") ⊎ (version ≡ codes "HTTP/1.0")

-- What an accepted head promises.
pub record IsAccepted (p : ParsedHead) : Type 0 where
  pub known : IsVersion p.version
  pub routable : IsRoutable p.target
  pub fields : All IsField p.headers

header_lines-All : (fuel : ℕ) (s : Bytes) → All IsField (header_lines fuel s).1
unfolding header_lines
header_lines-All zero s = tt
header_lines-All (suc fuel) s = elim (Option-cases (find_crlf s)) [
  | inl e ↦ elim (Bool-cases (is_empty s)) [
    | inl a ↦ rw (header_lines, e, a) tt
    | inr a ↦ elim (Option-cases (parse_field s)) [
      | inl b ↦ rw (header_lines, e, a, b) tt
      | inr (h, b) ↦
          rw (header_lines, e, a, b) (IsHeader-IsField h (parse_field-IsHeader s h b), tt)
    ]
  ]
  | inr ((line, after), e) ↦
      let rest = header_lines-All fuel after in
      elim (Bool-cases (is_empty line)) [
        | inl a ↦ rw (header_lines, e, a) tt
        | inr a ↦ elim (Option-cases (parse_field line)) [
          | inl b ↦ rw (header_lines, e, a, b) tt
          | inr (h, b) ↦
              rw (header_lines, e, a, b) (IsHeader-IsField h (parse_field-IsHeader line h b), rest)
        ]
      ]
]

with_lines-IsAccepted :
    (p : ParsedHead) (lines : Option Bytes)
    → p.headers ≡ []
    → IsVersion p.version
    → IsTarget p.target
    → IsAccepted (with_lines p lines)
unfolding with_lines
with_lines-IsAccepted p none n v t = record {
  known = v;
  routable = IsTarget-IsRoutable p.target t;
  fields = rw n tt;
}
with_lines-IsAccepted p (some s) n v t = record {
  known = v;
  routable = IsTarget-IsRoutable p.target t;
  fields = header_lines-All (suc (length s)) s;
}

on_target-IsAccepted :
    (p : ParsedHead) (target : Bytes) (lines : Option Bytes)
    → p.ok ≡ false
    → p.headers ≡ []
    → IsVersion p.version
    → all is_visible target ≡ true
    → (on_target p (reduce_target target) lines).ok ≡ true
    → IsAccepted (on_target p (reduce_target target) lines)
unfolding on_target
on_target-IsAccepted p target lines o n v h e = elim (Option-cases (reduce_target target)) [
  | inl a ↦
      let same = ap (λ t. (on_target p t lines).ok) a in
      let clash : true ≡ false = sym e ∙ (same ∙ o) in cc
  | inr (t, a) ↦
      subst (λ r. IsAccepted (on_target p r lines)) (sym a)
        (with_lines-IsAccepted (record p { target = t }) lines n v
          (reduce_target-IsTarget target t h a))
]

IsGoodHead : ParsedHead → Type 0
IsGoodHead p = p.ok ≡ true → IsAccepted p

unaccepted : (p : ParsedHead) → p.ok ≡ false → IsGoodHead p
unfolding IsGoodHead
unaccepted p e t = absurd (let clash = sym e ∙ t in cc)

on_parts-IsGoodHead :
    (token target version : Bytes) (lines : Option Bytes)
    → all is_visible target ≡ true
    → IsGoodHead (on_parts token target version lines)
unfolding on_parts IsGoodHead
on_parts-IsGoodHead token target version lines h =
    elim (Bool-cases (bytes_eq version (codes "HTTP/1.1"))) [
      | inl a ↦
          rw (on_parts, a)
            (on_target-IsAccepted _ target lines refl refl (inl (bytes_eq→eq version _ a)) h)
      | inr a ↦ elim (Bool-cases (bytes_eq version (codes "HTTP/1.0"))) [
        | inl b ↦
            rw (on_parts, a, b)
              (on_target-IsAccepted _ target lines refl refl (inr (bytes_eq→eq version _ b)) h)
        | inr b ↦ rw (on_parts, a, b) (unaccepted _ refl)
      ]
    ]

visible_line :
    (s : Bytes)
    → all is_line_byte s ≡ true
    → all (λ c. not (c == b' ')) s ≡ true
    → all is_visible s ≡ true
unfolding is_line_byte is_visible
visible_line [] h k = refl
visible_line (c ∷ s) h k =
    let (here, rest) = &&-true (is_line_byte c) (all is_line_byte s) h in
    let (apart, free) = &&-true (not (c == b' ')) (all (λ c. not (c == b' ')) s) k in
    let more = visible_line s rest free in ground (arith, more, here, apart)

on_line-IsGoodHead : (line : Bytes) (lines : Option Bytes) → IsGoodHead (on_line line lines)
unfolding on_line
on_line-IsGoodHead line lines = elim (Bool-cases (all is_line_byte line)) [
  | inr a ↦ rw (on_line, a) (unaccepted _ refl)
  | inl a ↦ elim (Option-cases (cut b' ' line)) [
    | inl b ↦ rw (on_line, a, b) (unaccepted _ refl)
    | inr ((token, after), b) ↦ elim (Option-cases (cut b' ' after)) [
      | inl c ↦ rw (on_line, a, b, c) (unaccepted _ refl)
      | inr ((target, version), c) ↦ elim (Bool-cases (is_empty token || is_empty target)) [
        | inl d ↦ rw (on_line, a, b, c, d) (unaccepted _ refl)
        | inr d ↦ elim (cut-IsCut b' ' line token after b) [
          | cut_here whole free ↦ elim (cut-IsCut b' ' after target version c) [
            | cut_here behind alone ↦
                let (left, right) = all-append is_line_byte token (b' ' ∷ after) (rw whole at a) in
                let (here, there) =
                  all-append is_line_byte target (b' ' ∷ version) (
                    rw behind at
                      ((&&-true (is_line_byte b' ') (all is_line_byte after) right).1)) in
                rw (on_line, a, b, c, d)
                  (on_parts-IsGoodHead token target version lines (visible_line target here alone))
          ]
        ]
      ]
    ]
  ]
]

-- An accepted head, whatever bytes arrived, names HTTP/1.1 or HTTP/1.0; its target is `*` or starts
-- with a slash, and is visible ASCII; and each of its fields has a name that is not empty, is ASCII,
-- holds no colon and neither starts nor ends with a blank, and a value that passes the engine's UTF-8
-- check `valid_utf8`, where neither holds a byte below 0x20 other than the tab: no CR, LF or NUL gets
-- through.
pub parse_head-IsAccepted :
    (head : Bytes) → (parse_head head).ok ≡ true → IsAccepted (parse_head head)
unfolding parse_head IsGoodHead
parse_head-IsAccepted head = elim (Option-cases (find_crlf head)) [
  | inl e ↦ rw (parse_head, e) (on_line-IsGoodHead head none)
  | inr ((line, lines), e) ↦ rw (parse_head, e) (on_line-IsGoodHead line (some lines))
]
