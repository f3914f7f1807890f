-- ===== src/Ws/Base64/Decode.antt =====
-- Base64 read back: RFC 4648 decoding, against which the encoder is checked.
use nitro_server.Base.{
  ℕ, ◌+◌, ◌-◌, ◌*◌, ◌/◌, ◌%◌, ◌^◌, ◌<◌, ◌≡◌, refl, ap, ◌∙◌, true, false, ◌&&◌, [], ◌∷◌, ◌++◌,
  if◌then◌else◌, get_or, leb, ◌==◌, length, All, arith,
}
use nitro_server.Base.Text.{Bytes, IsByte}
use nitro_server.Base.Bits.{tables_agree, agree_below}
use nitro_server.Ws.Base64.{alphabet, base64_group, base64_encode}

-- The value of a character of the alphabet, by ranges; 64 is `=`, and 65 no character of base64.
pub sextet : ℕ → ℕ
sextet c =
    if leb b'A' c && leb c b'Z'
    then c - 65
    else if leb b'a' c && leb c b'z'
    then c - 71
    else if leb b'0' c && leb c b'9'
    then c + 4
    else if c == b'+'
    then 62
    else if c == b'/'
    then 63
    else if c == b'='
    then 64
    else 65

-- The bytes of one group of four characters, from their values.
pub group_bytes : ℕ → ℕ → ℕ → ℕ → Bytes
group_bytes p q r s =
    let triple = p * 2 ^ 18 + q * 2 ^ 12 + r % 64 * 2 ^ 6 + s % 64 in
    if r == 64
    then triple / 2 ^ 16 ∷ []
    else if s == 64
    then triple / 2 ^ 16 ∷ triple / 2 ^ 8 % 256 ∷ []
    else triple / 2 ^ 16 ∷ triple / 2 ^ 8 % 256 ∷ triple % 256 ∷ []

pub base64_decode : Bytes → Bytes
base64_decode (w ∷ x ∷ y ∷ z ∷ rest) =
    group_bytes (sextet w) (sextet x) (sextet y) (sextet z) ++ base64_decode rest
base64_decode rest = []

sextet-alphabet : (i : ℕ) → i < 64 → sextet (get_or alphabet i 0) ≡ i
unfolding tables_agree sextet
sextet-alphabet i h = agree_below 64 (λ i. sextet (get_or alphabet i 0)) (λ i. i) refl i h

sextet_pad : sextet b'=' ≡ 64
unfolding sextet
sextet_pad = refl

group_back :
    (a b c : ℕ) (rest : Bytes)
    → a < 256
    → b < 256
    → c < 256
    → base64_decode (base64_group a b c true true ++ rest) ≡ a ∷ b ∷ c ∷ base64_decode rest
unfolding base64_group base64_decode group_bytes
group_back a b c rest ha hb hc =
    let t = a * 2 ^ 16 + b * 2 ^ 8 + c in
    rw
      (
        sextet-alphabet (t / 2 ^ 18 % 64) (omega arith),
        sextet-alphabet (t / 2 ^ 12 % 64) (omega arith),
        sextet-alphabet (t / 2 ^ 6 % 64) (omega arith),
        sextet-alphabet (t % 64) (omega arith),
      )
      (ground arith)

group_back_one : (a : ℕ) → a < 256 → base64_decode (base64_group a 0 0 false false) ≡ a ∷ []
unfolding base64_group base64_decode group_bytes
group_back_one a ha =
    let t = a * 2 ^ 16 + 0 * 2 ^ 8 + 0 in
    rw
      (
        sextet-alphabet (t / 2 ^ 18 % 64) (omega arith),
        sextet-alphabet (t / 2 ^ 12 % 64) (omega arith),
        sextet_pad,
      )
      (ground arith)

group_back_two :
    (a b : ℕ) → a < 256 → b < 256 → base64_decode (base64_group a b 0 true false) ≡ a ∷ b ∷ []
unfolding base64_group base64_decode group_bytes
group_back_two a b ha hb =
    let t = a * 2 ^ 16 + b * 2 ^ 8 + 0 in
    rw
      (
        sextet-alphabet (t / 2 ^ 18 % 64) (omega arith),
        sextet-alphabet (t / 2 ^ 12 % 64) (omega arith),
        sextet-alphabet (t / 2 ^ 6 % 64) (omega arith),
        sextet_pad,
      )
      (ground arith)

-- What is encoded from bytes decodes to the same bytes, and takes four characters for every three
-- bytes begun.
pub base64_decode-base64_encode :
    (bytes : Bytes)
    → All IsByte bytes
    → (base64_decode (base64_encode bytes) ≡ bytes)
      × (length (base64_encode bytes) ≡ 4 * ((length bytes + 2) / 3))
unfolding base64_encode base64_group
base64_decode-base64_encode [] h = (unfold base64_decode in refl, omega arith)
base64_decode-base64_encode (a ∷ []) h = (group_back_one a h.0, omega arith)
base64_decode-base64_encode (a ∷ b ∷ []) h = (group_back_two a b h.0 h.1.0, omega arith)
base64_decode-base64_encode (a ∷ b ∷ c ∷ rest) h =
    let (same, size) = base64_decode-base64_encode rest h.1.1.1 in
    (
      group_back a b c (base64_encode rest) h.0 h.1.0 h.1.1.0 ∙ ap (λ t. a ∷ b ∷ c ∷ t) same,
      omega (arith, size),
    )
