-- ===== src/Http/Chunk/Digits.antt =====
-- The digits of a chunk's size, as `uvChunkSize` of src/engine/UvReactor.cpp reads them.
use nitro_server.Base.{
  ℕ, zero, suc, ◌+◌, ◌*◌, ◌<◌, ◌≤◌, ◌≡◌, ◌⊎◌, inl, inr, refl, sym, ap, ◌∙◌, false, some, List, [],
  ◌∷◌, ◌++◌, ltb, length, arith, Option-cases,
}
use nitro_server.Base.Text.{Bytes}
use nitro_server.Http.Chunk.{hex_digit, chunk_digits}

-- The number that hexadecimal digits stand for, behind those of `n`.
unfoldable pub hex_number : ℕ → List ℕ → ℕ
hex_number n [] = n
hex_number n (d ∷ ds) = hex_number (n * 16 + d) ds

-- A hexadecimal digit and its value: 0 to 9, then a to f or A to F.
abbrev pub IsHexDigit : ℕ → ℕ → Type 0
IsHexDigit c d =
    ((d < 10) × (c ≡ b'0' + d))
    ⊎ ((d < 16) × (10 ≤ d) × ((c + 10 ≡ b'a' + d) ⊎ (c + 10 ≡ b'A' + d)))

-- The digits of a text, each a hexadecimal digit of the given value.
unfoldable pub IsHexText : Bytes → List ℕ → Type 0
IsHexText [] [] = Unit
IsHexText [] (d ∷ ds) = ⊥
IsHexText (c ∷ s) [] = ⊥
IsHexText (c ∷ s) (d ∷ ds) = IsHexDigit c d × IsHexText s ds

pub record IsRead (s : Bytes) (size digits size' digits' : ℕ) (rest : Bytes) : Type 0 where
  pub text : Bytes
  pub ds : List ℕ
  pub whole : s ≡ text ++ rest
  pub hexes : IsHexText text ds
  pub sized : size' ≡ hex_number size ds
  pub counted : digits' ≡ digits + length ds
  pub few : digits' ≤ 15

pub hex_digit-IsHexDigit : (c d : ℕ) → hex_digit c ≡ some d → IsHexDigit c d
unfolding hex_digit
hex_digit-IsHexDigit c d h = ground arith

hex_digit_back : (c d : ℕ) → IsHexDigit c d → hex_digit c ≡ some d
unfolding hex_digit
hex_digit_back c d (inl (low, e)) = ground arith
hex_digit_back c d (inr (high, low, inl e)) = ground arith
hex_digit_back c d (inr (high, low, inr e)) = ground arith

IsHexDigit-lt : (c d : ℕ) → IsHexDigit c d → d < 16
IsHexDigit-lt c d (inl (low, e)) = omega arith
IsHexDigit-lt c d (inr (high, low, e)) = omega arith

-- `bound` shifted by four bits for each digit.
unfoldable pub bound_after : ℕ → ℕ → ℕ
bound_after bound zero = bound
bound_after bound (suc m) = bound_after (bound * 16) m

bound_after_ge : (bound m : ℕ) → bound ≤ bound_after bound m
unfolding bound_after
bound_after_ge bound zero = omega arith
bound_after_ge bound (suc m) = omega (arith, bound_after_ge (bound * 16) m)

pub hex_number-lt :
    (s : Bytes) (ds : List ℕ) (n bound m : ℕ)
    → IsHexText s ds
    → n < bound
    → length ds ≤ m
    → hex_number n ds < bound_after bound m
unfolding IsHexText hex_number bound_after
hex_number-lt [] [] n bound m h l k = omega (arith, bound_after_ge bound m)
hex_number-lt [] (d ∷ ds) n bound m h l k = absurd h
hex_number-lt (c ∷ s) [] n bound m h l k = absurd h
hex_number-lt (c ∷ s) (d ∷ ds) n bound zero h l k = absurd (omega (arith, k))
hex_number-lt (c ∷ s) (d ∷ ds) n bound (suc m) (e, h) l k =
    hex_number-lt s ds (n * 16 + d) (bound * 16) m h (omega (arith, l, IsHexDigit-lt c d e))
      (omega (arith, k))

pub chunk_digits-IsRead :
    (s : Bytes) (size digits size' digits' : ℕ) (rest : Bytes)
    → digits ≤ 15
    → chunk_digits size digits s ≡ some (size', (digits', rest))
    → IsRead s size digits size' digits' rest
unfolding chunk_digits hex_number IsHexText
chunk_digits-IsRead [] size digits size' digits' rest l h = record {
  text = [];
  ds = [];
  whole = cc;
  hexes = tt;
  sized = cc;
  counted = ground (arith, h);
  few = ground (arith, h, l);
}
chunk_digits-IsRead (c ∷ s) size digits size' digits' rest l h = elim (Option-cases (hex_digit c)) [
  | inl e ↦
      let (sized, counted, whole) : (size ≡ size') × (digits ≡ digits') × (c ∷ s ≡ rest) =
        ground (arith, e, h) in
      record {
        text = [];
        ds = [];
        whole = whole;
        hexes = tt;
        sized = sym sized;
        counted = omega (arith, counted);
        few = omega (arith, counted, l);
      }
  | inr (d, e) ↦
      let fits : digits + 1 ≤ 15 = ground (arith, e, h) in
      let next : chunk_digits (size * 16 + d) (digits + 1) s ≡ some (size', (digits', rest)) =
        ground (arith, e, h) in
      let r = chunk_digits-IsRead s (size * 16 + d) (digits + 1) size' digits' rest fits next in
      record {
        text = c ∷ r.text;
        ds = d ∷ r.ds;
        whole = ap (λ t. c ∷ t) r.whole;
        hexes = (hex_digit-IsHexDigit c d e, r.hexes);
        sized = r.sized;
        counted = omega (arith, r.counted);
        few = r.few;
      }
]

chunk_digits_stop :
    (s : Bytes) (size digits : ℕ)
    → (s ≡ []) ⊎ ((e : Bytes) × (s ≡ b';' ∷ e))
    → chunk_digits size digits s ≡ some (size, (digits, s))
unfolding chunk_digits hex_digit
chunk_digits_stop s size digits (inl e) = rw e refl
chunk_digits_stop s size digits (inr (t, e)) = rw e refl

pub chunk_digits_back :
    (text : Bytes) (ds : List ℕ) (s : Bytes) (size digits : ℕ)
    → IsHexText text ds
    → digits + length ds ≤ 15
    → (s ≡ []) ⊎ ((e : Bytes) × (s ≡ b';' ∷ e))
    → chunk_digits size digits (text ++ s) ≡ some (hex_number size ds, (digits + length ds, s))
unfolding IsHexText hex_number chunk_digits
chunk_digits_back [] [] s size digits h l m =
    let none_more : digits + 0 ≡ digits = omega arith in
    rw none_more (chunk_digits_stop s size digits m)
chunk_digits_back [] (d ∷ ds) s size digits h l m = absurd h
chunk_digits_back (c ∷ t) [] s size digits h l m = absurd h
chunk_digits_back (c ∷ t) (d ∷ ds) s size digits (is, h) l m =
    let e = hex_digit_back c d is in
    let next = chunk_digits_back t ds s (size * 16 + d) (digits + 1) h (omega (arith, l)) m in
    let moved : digits + 1 + length ds ≡ digits + suc (length ds) = omega arith in
    let fits : ltb 15 (digits + 1) ≡ false = ground (arith, l) in
    rw (chunk_digits, e, fits) (next ∙ rw moved refl)
