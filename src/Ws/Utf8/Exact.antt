-- ===== src/Ws/Utf8/Exact.antt =====
-- Which byte strings `valid_utf8` accepts.
use nitro_server.Base.{
  ℕ, zero, suc, ◌+◌, ◌*◌, ◌/◌, ◌%◌, ◌<◌, ◌≤◌, ◌≡◌, refl, ap, ◌∙◌, true, none, some, List, [], ◌∷◌,
  ◌++◌, ltb, leb, if◌then◌else◌, arith, Bool-cases, inl, inr, All, Option-cases, ◌⊎◌,
}
use nitro_server.Base.Text.{Bytes, IsByte}
use nitro_server.Base.Bits.{and_e0, and_f0, and_f8, and_c0, and_0f, and_07, and_3f}
use nitro_server.Ws.Utf8.{
  utf8_need, is_continuation, code_point_3, code_point_4, refused_form, valid_utf8_loop,
}
use nitro_server.Ws.Utf8.Encode.{encode_utf8, encode_all, IsCodePoint}

-- The lead bytes in plain arithmetic.
pub utf8_need_lem :
    (c : ℕ)
    → c < 256
    → 0x80 ≤ c
    → utf8_need c ≡ (
        if ltb c 0xc2
        then none
        else if ltb c 0xe0
        then some 1
        else if ltb c 0xf0
        then some 2
        else if leb c 0xf4
        then some 3
        else none)
unfolding utf8_need
utf8_need_lem c h l = ground (arith, and_e0 c h, and_f0 c h, and_f8 c h)

continuation_lem : (b : ℕ) → b < 256 → is_continuation b ≡ true → b / 64 ≡ 2
continuation_lem b h e = ground (arith, and_c0 b h)

-- One step reads the encoding of one code point.
Reads : ℕ → ℕ → Bytes → Type 0
Reads fuel c rest =
    (cp : ℕ) × (tail : Bytes) × IsCodePoint 0x140000 cp
    × (c ∷ rest ≡ encode_utf8 cp ++ tail)
    × All IsByte tail
    × (valid_utf8_loop fuel tail ≡ true)

two_bytes :
    (c d : ℕ) (fuel : ℕ) (rest : Bytes)
    → c < 256
    → d < 256
    → All IsByte rest
    → utf8_need c ≡ some 1
    → 0x80 ≤ c
    → valid_utf8_loop (suc fuel) (c ∷ d ∷ rest) ≡ true
    → Reads fuel c (d ∷ rest)
unfolding valid_utf8_loop refused_form Reads encode_utf8
two_bytes c d fuel rest hc hd hr need lo e = (
  c % 32 * 64 + d % 64,
  rest,
  ground (arith, need, utf8_need_lem c hc),
  ground (arith, need, utf8_need_lem c hc lo, and_c0 d hd),
  hr,
  ground (arith, need),
)

encode_three :
    (c d b : ℕ)
    → 0xe0 ≤ c
    → c < 0xf0
    → d / 64 ≡ 2
    → b / 64 ≡ 2
    → 0x800 ≤ c % 16 * 4096 + d % 64 * 64 + b % 64
    → encode_utf8 (c % 16 * 4096 + d % 64 * 64 + b % 64) ≡ c ∷ d ∷ b ∷ []
unfolding encode_utf8
encode_three c d b l h hd hb m = ground arith

encode_four :
    (c d b a : ℕ)
    → 0xf0 ≤ c
    → c ≤ 0xf4
    → d / 64 ≡ 2
    → b / 64 ≡ 2
    → a / 64 ≡ 2
    → 0x10000 ≤ c % 8 * 262144 + d % 64 * 4096 + b % 64 * 64 + a % 64
    → encode_utf8 (c % 8 * 262144 + d % 64 * 4096 + b % 64 * 64 + a % 64) ≡ c ∷ d ∷ b ∷ a ∷ []
unfolding encode_utf8
encode_four c d b a l h hd hb ha m = ground arith

pub code_point_3_lem :
    (c d b : ℕ) (rest : Bytes)
    → c < 256
    → d < 256
    → b < 256
    → code_point_3 c (d ∷ b ∷ rest) ≡ c % 16 * 4096 + d % 64 * 64 + b % 64
unfolding code_point_3
code_point_3_lem c d b rest hc hd hb = rw (and_0f c hc, and_3f d hd, and_3f b hb)

pub code_point_4_lem :
    (c d b a : ℕ) (rest : Bytes)
    → c < 256
    → d < 256
    → b < 256
    → a < 256
    → code_point_4 c (d ∷ b ∷ a ∷ rest) ≡ c % 8 * 262144 + d % 64 * 4096 + b % 64 * 64 + a % 64
unfolding code_point_4
code_point_4_lem c d b a rest hc hd hb ha = rw (and_07 c hc, and_3f d hd, and_3f b hb, and_3f a ha)

-- What the loop has tested when it goes on behind three and behind four bytes.
three_tests :
    (c d b fuel : ℕ) (rest : Bytes)
    → utf8_need c ≡ some 2
    → 0x80 ≤ c
    → valid_utf8_loop (suc fuel) (c ∷ d ∷ b ∷ rest) ≡ true
    → (is_continuation d ≡ true)
      × (is_continuation b ≡ true)
      × (0x800 ≤ code_point_3 c (d ∷ b ∷ rest))
      × ((code_point_3 c (d ∷ b ∷ rest) < 0xd800) ⊎ (0xdfff < code_point_3 c (d ∷ b ∷ rest)))
      × (valid_utf8_loop fuel rest ≡ true)
unfolding valid_utf8_loop refused_form
three_tests c d b fuel rest need lo e = ground (arith, need)

four_tests :
    (c d b a fuel : ℕ) (rest : Bytes)
    → utf8_need c ≡ some 3
    → 0x80 ≤ c
    → valid_utf8_loop (suc fuel) (c ∷ d ∷ b ∷ a ∷ rest) ≡ true
    → (is_continuation d ≡ true)
      × (is_continuation b ≡ true)
      × (is_continuation a ≡ true)
      × (0x10000 ≤ code_point_4 c (d ∷ b ∷ a ∷ rest))
      × (valid_utf8_loop fuel rest ≡ true)
unfolding valid_utf8_loop refused_form
four_tests c d b a fuel rest need lo e = ground (arith, need)

need_range :
    (c need : ℕ)
    → c < 256
    → 0x80 ≤ c
    → utf8_need c ≡ some need
    → ((need ≡ 1) × (c < 0xe0))
      ⊎ ((need ≡ 2) × (0xe0 ≤ c) × (c < 0xf0))
      ⊎ ((need ≡ 3) × (0xf0 ≤ c) × (c ≤ 0xf4))
need_range c need hc lo e = ground (arith, utf8_need_lem c hc lo)

three_bytes :
    (c d b : ℕ) (fuel : ℕ) (rest : Bytes)
    → c < 256
    → d < 256
    → b < 256
    → All IsByte rest
    → utf8_need c ≡ some 2
    → 0x80 ≤ c
    → valid_utf8_loop (suc fuel) (c ∷ d ∷ b ∷ rest) ≡ true
    → Reads fuel c (d ∷ b ∷ rest)
unfolding Reads
three_bytes c d b fuel rest hc hd hb hr need lo e =
    let (td, tb, overlong, surrogate, more) = three_tests c d b fuel rest need lo e in
    let same = code_point_3_lem c d b rest hc hd hb in
    let range = need_range c 2 hc lo need in
    (
      c % 16 * 4096 + d % 64 * 64 + b % 64,
      rest,
      omega (arith, same),
      rw (
          encode_three c d b (omega (arith, range)) (omega (arith, range))
            (continuation_lem d hd td) (continuation_lem b hb tb) (omega (arith, same))),
      hr,
      more,
    )

four_bytes :
    (c d b a : ℕ) (fuel : ℕ) (rest : Bytes)
    → c < 256
    → d < 256
    → b < 256
    → a < 256
    → All IsByte rest
    → utf8_need c ≡ some 3
    → 0x80 ≤ c
    → valid_utf8_loop (suc fuel) (c ∷ d ∷ b ∷ a ∷ rest) ≡ true
    → Reads fuel c (d ∷ b ∷ a ∷ rest)
unfolding Reads
four_bytes c d b a fuel rest hc hd hb ha hr need lo e =
    let (td, tb, ta, overlong, more) = four_tests c d b a fuel rest need lo e in
    let same = code_point_4_lem c d b a rest hc hd hb ha in
    let range = need_range c 3 hc lo need in
    (
      c % 8 * 262144 + d % 64 * 4096 + b % 64 * 64 + a % 64,
      rest,
      omega (arith, same, range),
      rw (
          encode_four c d b a (omega (arith, range)) (omega (arith, range))
            (continuation_lem d hd td) (continuation_lem b hb tb) (continuation_lem a ha ta)
            (omega (arith, same))),
      hr,
      more,
    )

-- A lead byte of at least 0x80 that the loop accepts starts a whole form.
step :
    (c fuel : ℕ) (rest : Bytes)
    → c < 256
    → 0x80 ≤ c
    → All IsByte rest
    → valid_utf8_loop (suc fuel) (c ∷ rest) ≡ true
    → Reads fuel c rest
unfolding valid_utf8_loop
step c fuel rest hc lo hr e = elim (Option-cases (utf8_need c)) [
  | inl bad ↦ absurd (ground (arith, bad))
  | inr (need, found) ↦ elim (need_range c need hc lo found) [
    | inl (one, _) ↦ go_one rest hr e (found ∙ ap some one)
    | inr (inl (two, _, _)) ↦ go_two rest hr e (found ∙ ap some two)
    | inr (inr (three, _, _)) ↦ go_three rest hr e (found ∙ ap some three)
  ]
]
  where
    go_one :
        (rest : Bytes)
        → All IsByte rest
        → valid_utf8_loop (suc fuel) (c ∷ rest) ≡ true
        → utf8_need c ≡ some 1
        → Reads fuel c rest
    go_one [] hr e need = absurd (ground (arith, need))
    go_one (d ∷ rest) hr e need = two_bytes c d fuel rest hc hr.0 hr.1 need lo e

    go_two :
        (rest : Bytes)
        → All IsByte rest
        → valid_utf8_loop (suc fuel) (c ∷ rest) ≡ true
        → utf8_need c ≡ some 2
        → Reads fuel c rest
    go_two (d ∷ b ∷ rest) hr e need = three_bytes c d b fuel rest hc hr.0 hr.1.0 hr.1.1 need lo e
    go_two rest hr e need = absurd (ground (arith, need))

    go_three :
        (rest : Bytes)
        → All IsByte rest
        → valid_utf8_loop (suc fuel) (c ∷ rest) ≡ true
        → utf8_need c ≡ some 3
        → Reads fuel c rest
    go_three (d ∷ b ∷ a ∷ rest) hr e need =
        four_bytes c d b a fuel rest hc hr.0 hr.1.0 hr.1.1.0 hr.1.1.1 need lo e
    go_three rest hr e need = absurd (ground (arith, need))

unfoldable pub Decodes : Bytes → Type 0
Decodes bytes = (cps : List ℕ) × All (IsCodePoint 0x140000) cps × (bytes ≡ encode_all cps)

pub loop_sound :
    (fuel : ℕ) (bytes : Bytes)
    → All IsByte bytes
    → valid_utf8_loop fuel bytes ≡ true
    → Decodes bytes
unfolding Decodes Reads encode_utf8 valid_utf8_loop
loop_sound fuel [] h e = ([], tt, refl)
loop_sound zero (c ∷ rest) h e = cc
loop_sound (suc fuel) (c ∷ rest) h e = elim (Bool-cases (ltb c 0x80)) [
  | inl ascii ↦
      let (cps, ok, same) = loop_sound fuel rest h.1 (ground arith) in
      (c ∷ cps, (ground arith, ok), ground arith)
  | inr wide ↦
      let (cp, tail, ok, here, bytes_tail, more) = step c fuel rest h.0 (ground arith) h.1 e in
      let (cps, oks, same) = loop_sound fuel tail bytes_tail more in
      (cp ∷ cps, (ok, oks), here ∙ ap (λ t. encode_utf8 cp ++ t) same)
]
