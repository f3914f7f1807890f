-- ===== src/Http/Head/Written.antt =====
-- Request heads as text, and their field lines under `parseHead` of src/engine/HttpParse.cpp.
use nitro_server.Base.{
  ℕ, zero, suc, ◌≤◌, ◌<◌, ◌≡◌, refl, ap, ◌∙◌, Bool, true, false, not, none, some, List, [], ◌∷◌,
  ◌++◌, ◌==◌, length, all, All, arith, &&-true, length-append, append-nil,
}
use nitro_server.Base.Text.{Bytes}
use nitro_server.Http.{crlf}
use nitro_server.Http.Fields.{Header, is_empty, trim, trim_front}
use nitro_server.Http.Crlf.{find_crlf, starts_crlf, no_cr, find_crlf_back}
use nitro_server.Http.Head.{ParsedHead, header_lines, with_lines}
use nitro_server.Http.Head.Field.{cut, is_field_byte, name_value, parse_field}
use nitro_server.Http.Head.Field.Sound.{IsHeader, starts_blank-append}

unfoldable pub field_text : Header → Bytes
field_text h = h.0 ++ (b':' ∷ b' ' ∷ h.1)

unfoldable pub fields_text : List Header → Bytes
fields_text [] = []
fields_text (h ∷ hs) = crlf ++ (field_text h ++ fields_text hs)

unfoldable pub line_text : Bytes → Bytes → Bytes → Bytes
line_text token target version = token ++ (b' ' ∷ (target ++ (b' ' ∷ version)))

-- A head as a client writes it, without the empty line that ends it.
unfoldable pub head_text : Bytes → Bytes → Bytes → List Header → Bytes
head_text token target version hs = line_text token target version ++ fields_text hs

abbrev pub IsWritten : Header → Type 0
IsWritten h = IsHeader h × (trim h.1 ≡ h.1)

pub all-join :
    (p : ℕ → Bool) (s t : Bytes) → all p s ≡ true → all p t ≡ true → all p (s ++ t) ≡ true
all-join p [] t h k = k
all-join p (c ∷ s) t h k =
    let (one, rest) = &&-true (p c) (all p s) h in rw one (all-join p s t rest k)

pub all-imply :
    (p q : ℕ → Bool)
    → ((c : ℕ) → p c ≡ true → q c ≡ true)
    → (s : Bytes) → all p s ≡ true
    → all q s ≡ true
all-imply p q i [] h = refl
all-imply p q i (c ∷ s) h =
    let (one, rest) = &&-true (p c) (all p s) h in rw (i c one) (all-imply p q i s rest)

pub cut_back :
    (mark : ℕ) (before after : Bytes)
    → all (λ c. not (c == mark)) before ≡ true
    → cut mark (before ++ (mark ∷ after)) ≡ some (before, after)
unfolding cut
cut_back mark [] after h = ground arith
cut_back mark (c ∷ before) after h =
    let (one, rest) = &&-true (not (c == mark)) (all (λ d. not (d == mark)) before) h in
    let other : (c == mark) ≡ false = (ground (arith, one)) in
    rw (cut, other, cut_back mark before after rest) refl

pub parse_field_back : (h : Header) → IsWritten h → parse_field (field_text h) ≡ some h
unfolding parse_field field_text name_value trim trim_front is_field_byte
parse_field_back h (good, trimmed) =
    let whole = all-join is_field_byte h.0 (b':' ∷ b' ' ∷ h.1) good.name_bytes good.value_bytes in
    let front = starts_blank-append h.0 (b':' ∷ b' ' ∷ h.1) good.named ∙ good.name_front in
    rw
      (
        parse_field,
        whole,
        front,
        cut_back b':' h.0 (b' ' ∷ h.1) good.name_free,
        name_value,
        good.named,
        good.name_back,
        trimmed,
        good.value_text,
        good.name_ascii,
      )
      refl

pub no_cr-field : (h : Header) → IsHeader h → no_cr (field_text h) ≡ true
unfolding field_text is_field_byte
no_cr-field h good =
    all-imply is_field_byte _ (λ c e. ground (arith, e)) (field_text h)
      (all-join is_field_byte h.0 (b':' ∷ b' ' ∷ h.1) good.name_bytes good.value_bytes)

pub find_crlf-none : (s : Bytes) → no_cr s ≡ true → find_crlf s ≡ none
unfolding find_crlf starts_crlf
find_crlf-none [] h = refl
find_crlf-none (c ∷ []) h = refl
find_crlf-none (c ∷ d ∷ s) h = ground (arith, find_crlf-none (d ∷ s))

pub is_empty-append : (s t : Bytes) → is_empty s ≡ false → is_empty (s ++ t) ≡ false
is_empty-append [] t e = cc
is_empty-append (c ∷ s) t e = refl

pub not_empty-field : (h : Header) → IsHeader h → is_empty (field_text h) ≡ false
unfolding field_text
not_empty-field h good = is_empty-append h.0 (b':' ∷ b' ' ∷ h.1) good.named

pub header_lines_back :
    (fuel : ℕ) (h : Header) (hs : List Header)
    → length hs < fuel
    → All IsWritten (h ∷ hs)
    → header_lines fuel (field_text h ++ fields_text hs) ≡ (true, h ∷ hs)
unfolding header_lines fields_text
header_lines_back zero h hs l w = absurd (omega arith)
header_lines_back (suc fuel) h [] l (w, ws) =
    ap (λ s. header_lines (suc fuel) s) (append-nil (field_text h))
    ∙ rw
        (
          header_lines,
          find_crlf-none (field_text h) (no_cr-field h w.0),
          not_empty-field h w.0,
          parse_field_back h w,
        )
        refl
header_lines_back (suc fuel) h (g ∷ hs) l (w, ws) =
    rw
      (
        header_lines,
        find_crlf_back (field_text h) (field_text g ++ fields_text hs) (no_cr-field h w.0),
        not_empty-field h w.0,
        parse_field_back h w,
        header_lines_back fuel g hs (omega arith) ws,
      )
      refl

pub fields_long : (hs : List Header) → length hs ≤ length (fields_text hs)
unfolding fields_text
fields_long [] = omega arith
fields_long (h ∷ hs) = omega (arith, fields_long hs, length-append (field_text h) (fields_text hs))

pub with_lines_back :
    (p : ParsedHead) (h : Header) (hs : List Header)
    → All IsWritten (h ∷ hs)
    → with_lines p (some (field_text h ++ fields_text hs))
      ≡ record p { headers = h ∷ hs; ok = true }
unfolding with_lines
with_lines_back p h hs w =
    let enough : length hs < suc (length (field_text h ++ fields_text hs)) =
      (omega (arith, fields_long hs, length-append (field_text h) (fields_text hs))) in
    ap (λ (lines : Bool × List Header). record p { headers = lines.1; ok = lines.0 })
      (header_lines_back (suc (length (field_text h ++ fields_text hs))) h hs enough w)
