-- ===== src/Ws/Utf8/Complete.antt =====
-- Every encoded text is accepted by `valid_utf8`.
use nitro_server.Base.{
  ℕ, zero, suc, ◌+◌, ◌/◌, ◌%◌, ◌<◌, ◌≤◌, ◌≡◌, refl, sym, ap, ◌∙◌, true, false, some, List, [], ◌∷◌,
  ◌++◌, ltb, leb, length, take, drop, all, arith, length-append, inr, All, append_assoc, All-append,
  ◌↔◌, ◌⊎◌,
}
use nitro_server.Base.Text.{Bytes, IsByte}
use nitro_server.Base.Bits.{and_c0}
use nitro_server.Ws.Utf8.{
  utf8_need, is_continuation, code_point_3, code_point_4, refused_form, valid_utf8_loop, valid_utf8,
}
use nitro_server.Ws.Utf8.Encode.{encode_utf8, encode_all, IsCodePoint, IsScalar}
use nitro_server.Ws.Utf8.Exact.{
  utf8_need_lem, code_point_3_lem, code_point_4_lem, Decodes, loop_sound,
}

continuation_back : (x : ℕ) → x < 64 → is_continuation (0x80 + x) ≡ true
continuation_back x h = ground (arith, and_c0 (0x80 + x))

-- The loop passes a whole form that no test refuses.
form_pass :
    (c need fuel : ℕ) (rest : Bytes)
    → ltb c 0x80 ≡ false
    → utf8_need c ≡ some need
    → leb (length (c ∷ rest)) need ≡ false
    → all is_continuation (take need rest) ≡ true
    → refused_form need c rest ≡ false
    → valid_utf8_loop (suc fuel) (c ∷ rest) ≡ valid_utf8_loop fuel (drop need rest)
unfolding valid_utf8_loop
form_pass c need fuel rest wide found long joined allowed = ground (arith, found, joined, allowed)

refused_form_2 :
    (c : ℕ) (rest : Bytes)
    → 0x800 ≤ code_point_3 c rest
    → (code_point_3 c rest < 0xd800) ⊎ (0xdfff < code_point_3 c rest)
    → refused_form 2 c rest ≡ false
unfolding refused_form
refused_form_2 c rest overlong surrogate = ground arith

refused_form_3 :
    (c : ℕ) (rest : Bytes) → 0x10000 ≤ code_point_4 c rest → refused_form 3 c rest ≡ false
unfolding refused_form
refused_form_3 c rest overlong = ground arith

lead_byte :
    (c need : ℕ)
    → c < 256
    → ((need ≡ 1) × (0xc2 ≤ c) × (c < 0xe0))
      ⊎ ((need ≡ 2) × (0xe0 ≤ c) × (c < 0xf0))
      ⊎ ((need ≡ 3) × (0xf0 ≤ c) × (c ≤ 0xf4))
    → utf8_need c ≡ some need
lead_byte c need h range = ground (arith, utf8_need_lem c h)

two_back :
    (cp fuel : ℕ) (tail : Bytes)
    → 0x80 ≤ cp
    → cp < 0x800
    → valid_utf8_loop (suc fuel) ((0xc0 + cp / 64) ∷ (0x80 + cp % 64) ∷ tail)
      ≡ valid_utf8_loop fuel tail
unfolding refused_form
two_back cp fuel tail lo hi =
    form_pass _ 1 fuel ((0x80 + cp % 64) ∷ tail) (ground arith)
      (lead_byte _ 1 (omega arith) (omega arith)) (ground arith)
      (ground (arith, continuation_back (cp % 64))) refl

three_back :
    (cp fuel : ℕ) (tail : Bytes)
    → 0x800 ≤ cp
    → cp < 0x10000
    → (cp < 0xd800) ⊎ (0xdfff < cp)
    → valid_utf8_loop
        (suc fuel)
        ((0xe0 + cp / 4096) ∷ (0x80 + cp / 64 % 64) ∷ (0x80 + cp % 64) ∷ tail)
      ≡ valid_utf8_loop fuel tail
three_back cp fuel tail lo hi surrogate =
    let e =
      code_point_3_lem (0xe0 + cp / 4096) (0x80 + cp / 64 % 64) (0x80 + cp % 64) tail (omega arith)
        (omega arith) (omega arith) in
    let same : code_point_3 (0xe0 + cp / 4096) ((0x80 + cp / 64 % 64) ∷ (0x80 + cp % 64) ∷ tail)
        ≡ cp =
      omega (arith, e) in
    form_pass _ 2 fuel ((0x80 + cp / 64 % 64) ∷ (0x80 + cp % 64) ∷ tail) (ground arith)
      (lead_byte _ 2 (omega arith) (omega arith)) (ground arith)
      (rw
        (continuation_back (cp / 64 % 64) (omega arith), continuation_back (cp % 64) (omega arith)))
      (refused_form_2 _ _ (rw same lo) (rw same surrogate))

four_back :
    (cp fuel : ℕ) (tail : Bytes)
    → 0x10000 ≤ cp
    → cp < 0x140000
    → valid_utf8_loop (suc fuel) (
        (0xf0 + cp / 262144)
        ∷ (0x80 + cp / 4096 % 64)
        ∷ (0x80 + cp / 64 % 64)
        ∷ (0x80 + cp % 64)
        ∷ tail)
      ≡ valid_utf8_loop fuel tail
four_back cp fuel tail lo hi =
    let e =
      code_point_4_lem (0xf0 + cp / 262144) (0x80 + cp / 4096 % 64) (0x80 + cp / 64 % 64)
        (0x80 + cp % 64) tail (omega arith) (omega arith) (omega arith) (omega arith) in
    let same : code_point_4 (0xf0 + cp / 262144)
          ((0x80 + cp / 4096 % 64) ∷ (0x80 + cp / 64 % 64) ∷ (0x80 + cp % 64) ∷ tail)
        ≡ cp =
      omega (arith, e) in
    form_pass _ 3 fuel _ (ground arith) (lead_byte _ 3 (omega arith) (omega arith)) (ground arith)
      (rw (
        continuation_back (cp / 4096 % 64) (omega arith),
        continuation_back (cp / 64 % 64) (omega arith),
        continuation_back (cp % 64) (omega arith),
      ))
      (refused_form_3 _ _ (rw same lo))

step_back :
    (cp fuel : ℕ) (tail : Bytes)
    → IsCodePoint 0x140000 cp
    → valid_utf8_loop (suc fuel) (encode_utf8 cp ++ tail) ≡ valid_utf8_loop fuel tail
unfolding encode_utf8
step_back cp fuel tail (hi, surrogate) =
    ground (arith, two_back cp fuel tail, three_back cp fuel tail, four_back cp fuel tail, ascii)
  where
    ascii : cp < 0x80 → valid_utf8_loop (suc fuel) (cp ∷ tail) ≡ valid_utf8_loop fuel tail
    ascii h = unfold valid_utf8_loop in ground arith

length-encode_utf8 : (cp : ℕ) → 1 ≤ length (encode_utf8 cp)
unfolding encode_utf8
length-encode_utf8 cp = ground arith

pub loop_complete :
    (cps : List ℕ) (fuel : ℕ)
    → All (IsCodePoint 0x140000) cps
    → length (encode_all cps) ≤ fuel
    → valid_utf8_loop fuel (encode_all cps) ≡ true
loop_complete [] fuel h l = unfold valid_utf8_loop in refl
loop_complete (cp ∷ cps) zero h l =
    absurd (omega (arith, length-append (encode_utf8 cp) (encode_all cps), length-encode_utf8 cp))
loop_complete (cp ∷ cps) (suc fuel) (ok, h) l =
    step_back cp fuel (encode_all cps) ok
    ∙ loop_complete cps fuel h
        (omega (arith, length-append (encode_utf8 cp) (encode_all cps), length-encode_utf8 cp))

encode_all-append : (xs ys : List ℕ) → encode_all (xs ++ ys) ≡ encode_all xs ++ encode_all ys
encode_all-append [] ys = refl
encode_all-append (x ∷ xs) ys =
    ap (λ t. encode_utf8 x ++ t) (encode_all-append xs ys)
    ∙ sym (append_assoc (encode_utf8 x) (encode_all xs) (encode_all ys))

-- On bytes, `valid_utf8` answers true exactly on the encodings of texts whose code points lie below
-- 0x140000 and are no surrogates; its loop never runs out of fuel.
pub valid_utf8_iff :
    (bytes : Bytes)
    → All IsByte bytes
    → (valid_utf8 bytes ≡ true)
      ↔ ((cps : List ℕ) × All (IsCodePoint 0x140000) cps × (bytes ≡ encode_all cps))
unfolding valid_utf8 Decodes
valid_utf8_iff bytes h = (
  loop_sound (length bytes) bytes h,
  λ (cps, ok, e). rw e (loop_complete cps (length (encode_all cps)) ok (omega arith)),
)

IsScalar-IsCodePoint : (cps : List ℕ) → All IsScalar cps → All (IsCodePoint 0x140000) cps
IsScalar-IsCodePoint [] h = tt
IsScalar-IsCodePoint (cp ∷ cps) ((lt, s), h) = ((omega arith, s), IsScalar-IsCodePoint cps h)

-- Between two valid texts, the four-byte form of a number past the last code point, 0x110000 up to
-- 0x13ffff, is accepted too.
pub valid_utf8_beyond :
    (before after : List ℕ) (cp : ℕ)
    → All IsScalar before
    → All IsScalar after
    → 0x110000 ≤ cp
    → cp < 0x140000
    → valid_utf8 (encode_all before ++ (encode_utf8 cp ++ encode_all after)) ≡ true
unfolding valid_utf8
valid_utf8_beyond before after cp hb ha lo hi = rw (← encode_all-append before (cp ∷ after)) (
    loop_complete (before ++ (cp ∷ after)) _
      (All-append (IsCodePoint 0x140000) before (cp ∷ after) (IsScalar-IsCodePoint before hb)
        ((hi, inr (omega arith)), IsScalar-IsCodePoint after ha))
      (omega arith))
