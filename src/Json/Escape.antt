-- ===== src/Json/Escape.antt =====
-- `writeEscaped` of src/engine/JsonWriter.cpp against the grammar of JSON strings.
use nitro_server.Base.{
  ℕ, zero, suc, ◌+◌, ◌-◌, ◌*◌, ◌/◌, ◌%◌, ◌<◌, ◌≡◌, refl, ap, ◌∙◌, Bool, false, Option, none, some,
  [], ◌∷◌, ◌++◌, if◌then◌else◌, ltb, leb, ◌&&◌, true, ◌==◌, arith, length, get_or, All,
  append_assoc, drop,
}
use nitro_server.Base.Text.{Bytes, IsByte}
use nitro_server.Base.Bits.{tables_agree, agree_below, and_0f}
use nitro_server.Json.{hex, escape_byte, escape_all}

-- A hexadecimal digit's value, and none of any other byte.
pub hex_value : ℕ → Option ℕ
hex_value c =
    if leb b'0' c && leb c b'9'
    then some (c - b'0')
    else if leb b'a' c && leb c b'f'
    then some (c - 87)
    else if leb b'A' c && leb c b'F'
    then some (c - 55)
    else none

-- The number of four hexadecimal digits, where it is an ASCII character's: the reader answers bytes, and
-- any other character would be several.
pub read_four : Option ℕ → Option ℕ → Option ℕ → Option ℕ → Option ℕ
read_four (some a) (some b) (some c) (some d) =
    let n = a * 4096 + b * 256 + c * 16 + d in if ltb n 0x80 then some n else none
read_four a b c d = none

abbrev and_rest : Bytes → Option ℕ → Option (ℕ × Bytes)
and_rest s none = none
and_rest s (some n) = some (n, s)

-- What follows `\u`.
pub read_hex : Bytes → Option (ℕ × Bytes)
read_hex (a ∷ b ∷ c ∷ d ∷ s) =
    and_rest s (read_four (hex_value a) (hex_value b) (hex_value c) (hex_value d))
read_hex s = none

-- The escapes of RFC 8259, section 7, behind their backslash.
pub read_escape : Bytes → Option (ℕ × Bytes)
read_escape [] = none
read_escape (e ∷ s) =
    if e == 0x22
    then some (0x22, s)
    else if e == 0x5c
    then some (0x5c, s)
    else if e == b'/'
    then some (b'/', s)
    else if e == b'b'
    then some (0x08, s)
    else if e == b'f'
    then some (0x0c, s)
    else if e == b'n'
    then some (0x0a, s)
    else if e == b'r'
    then some (0x0d, s)
    else if e == b't'
    then some (0x09, s)
    else if e == b'u'
    then read_hex s
    else none

-- One character of a JSON string: a byte that needs no escape, or an escape.
pub read_char : Bytes → Option (ℕ × Bytes)
read_char [] = none
read_char (c ∷ s) = if c == 0x5c then read_escape s else if ltb c 0x20 then none else some (c, s)

abbrev starts_quote : Bytes → Bool
starts_quote [] = false
starts_quote (c ∷ s) = c == 0x22

abbrev push : ℕ → Option (Bytes × Bytes) → Option (Bytes × Bytes)
push c none = none
push c (some (content, rest)) = some (c ∷ content, rest)

-- The characters up to the closing quote, and what follows it.
pub read_string : ℕ → Bytes → Option (Bytes × Bytes)
read_string zero s = none
read_string (suc fuel) s =
    if starts_quote s
    then some ([], drop 1 s)
    else elim (read_char s) [ none ↦ none | some r ↦ push r.0 (read_string fuel r.1) ]

value_or : Option ℕ → ℕ
value_or none = 16
value_or (some d) = d

value_or-some : (o : Option ℕ) (d : ℕ) → value_or o ≡ d → d < 16 → o ≡ some d
unfolding value_or
value_or-some none d e h = absurd (omega (arith, e, h))
value_or-some (some x) d e h = ap some e

hex_value_back : (n : ℕ) → n < 16 → hex_value (get_or hex n 0) ≡ some n
unfolding tables_agree hex_value value_or
hex_value_back n h =
    value_or-some (hex_value (get_or hex n 0)) n
      (agree_below 16 (λ n. value_or (hex_value (get_or hex n 0))) (λ n. n) refl n h) h

-- The four digits that are written for a byte below 0x20.
read_hex_back :
    (c : ℕ) (rest : Bytes)
    → c < 32
    → read_hex (b'0' ∷ b'0' ∷ get_or hex (c / 16) 0 ∷ get_or hex (c % 16) 0 ∷ rest) ≡ some (c, rest)
unfolding read_hex read_four
read_hex_back c rest h =
    let zero_digit : hex_value b'0' ≡ some 0 = hex_value_back 0 (omega arith) in
    let high = hex_value_back (c / 16) (omega arith) in
    let low = hex_value_back (c % 16) (omega arith) in
    let whole : 0 * 4096 + 0 * 256 + c / 16 * 16 + c % 16 ≡ c = omega arith in
    let small : ltb c 0x80 ≡ true = ground (arith, h) in
    rw (zero_digit, high, low, whole, small) refl

escape_byte-read :
    (c : ℕ) (rest : Bytes) → c < 256 → read_char (escape_byte c ++ rest) ≡ some (c, rest)
unfolding escape_byte read_char read_escape
escape_byte-read c rest h = ground (arith, read_hex_back c rest, and_0f c h)

escape_byte_start : (c : ℕ) (rest : Bytes) → starts_quote (escape_byte c ++ rest) ≡ false
unfolding escape_byte
escape_byte_start c rest = ground arith

read_string_step :
    (fuel c : ℕ) (text rest : Bytes)
    → read_char text ≡ some (c, rest)
    → starts_quote text ≡ false
    → read_string (suc fuel) text ≡ push c (read_string fuel rest)
unfolding read_string
read_string_step fuel c text rest read inner = rw (inner, read) refl

-- The text between the quotes is a JSON string that reads back as the bytes that were written, up to
-- the closing quote and whatever follows it: no byte below 0x20 and no backslash outside the escapes of
-- RFC 8259, and behind `\u` four hexadecimal digits. A round for each byte, and one more, is enough.
pub read_string-escape_all :
    (s rest : Bytes) (fuel : ℕ)
    → All IsByte s
    → length s < fuel
    → read_string fuel (escape_all s ++ (0x22 ∷ rest)) ≡ some (s, rest)
unfolding escape_all
read_string-escape_all [] rest zero h l = absurd (omega (arith, l))
read_string-escape_all [] rest (suc fuel) h l = unfold read_string in refl
read_string-escape_all (c ∷ s) rest zero h l = absurd (omega (arith, l))
read_string-escape_all (c ∷ s) rest (suc fuel) (b, h) l =
    let tail = escape_all s ++ (0x22 ∷ rest) in
    ap (read_string (suc fuel)) (append_assoc (escape_byte c) (escape_all s) (0x22 ∷ rest))
    ∙ read_string_step fuel c (escape_byte c ++ tail) tail (escape_byte-read c tail b)
        (escape_byte_start c tail)
    ∙ ap (push c) (read_string-escape_all s rest fuel h (omega (arith, l)))
