-- ===== src/Http/Chunked/Hex.antt =====
-- The chunk sizes that `sendStreamChunk` of src/engine/UvReactor.cpp writes, `uvChunkSize` reads back.
use nitro_server.Base.{
  ℕ, zero, suc, ◌+◌, ◌*◌, ◌/◌, ◌%◌, ◌^◌, ◌≤◌, ◌<◌, ◌≡◌, ◌≢◌, inl, inr, refl, sym, ap, ◌∙◌, true,
  not, Option, none, some, List, [], ◌∷◌, ◌==◌, length, get_or, arith, Bool-cases, append-nil,
}
use nitro_server.Base.Text.{Bytes}
use nitro_server.Base.Bits.{tables_agree, agree_below}
use nitro_server.Json.{hex}
use nitro_server.Http.Crlf.{no_cr}
use nitro_server.Http.Chunk.{hex_digit, chunk_size}
use nitro_server.Http.Chunk.Digits.{hex_number, IsHexDigit, hex_digit-IsHexDigit, IsHexText}
use nitro_server.Http.Chunk.Size.{IsSizeLine, chunk_size_iff}
use nitro_server.Http.Chunked.{hex_digits, hex_text}

value_of : Option ℕ → ℕ
value_of none = 16
value_of (some d) = d

value_of-some : (o : Option ℕ) (d : ℕ) → value_of o ≡ d → d < 16 → o ≡ some d
unfolding value_of
value_of-some none d e h = absurd (omega (arith, e, h))
value_of-some (some x) d e h = ap some e

written-IsHexDigit : (d : ℕ) → d < 16 → IsHexDigit (get_or hex d 0) d
written-IsHexDigit d h = hex_digit-IsHexDigit (get_or hex d 0) d (
    value_of-some (hex_digit (get_or hex d 0)) d
      (unfold tables_agree hex_digit value_of in
        agree_below 16 (λ d. value_of (hex_digit (get_or hex d 0))) (λ d. d) refl d h)
      h)

-- The digits that are written, with those already there behind them.
record IsDigitsOf (k n : ℕ) (text : Bytes) (ds : List ℕ) : Type 0 where
  es : List ℕ
  hexes : IsHexText text es
  value : hex_number 0 es ≡ hex_number n ds
  few : length es ≤ k + length ds

hex_digits-IsDigitsOf :
    (fuel k n : ℕ) (acc : Bytes) (ds : List ℕ)
    → IsHexText acc ds
    → n < 16 ^ k
    → k ≤ fuel
    → IsDigitsOf k n (hex_digits fuel n acc) ds
unfolding hex_digits
hex_digits-IsDigitsOf zero zero n acc ds h l f =
    let none_left : n ≡ 0 = omega (arith, l) in
    rw none_left (record { es = ds; hexes = h; value = refl; few = omega arith })
hex_digits-IsDigitsOf (suc fuel) zero n acc ds h l f =
    let none_left : n ≡ 0 = omega (arith, l) in
    rw (none_left, hex_digits) (record { es = ds; hexes = h; value = refl; few = omega arith })
hex_digits-IsDigitsOf zero (suc k) n acc ds h l f = absurd (omega (arith, f))
hex_digits-IsDigitsOf (suc fuel) (suc k) n acc ds h l f = elim (Bool-cases (n == 0)) [
  | inl e ↦
      let none_left : n ≡ 0 = ground (arith, e) in
      rw (none_left, hex_digits) (record { es = ds; hexes = h; value = refl; few = omega arith })
  | inr e ↦
      let digit = written-IsHexDigit (n % 16) (omega arith) in
      let r =
        hex_digits-IsDigitsOf fuel k (n / 16) (get_or hex (n % 16) 0 ∷ acc) (n % 16 ∷ ds)
          (unfold IsHexText in (digit, h)) (omega (arith, l)) (omega (arith, f)) in
      let whole : n / 16 * 16 + n % 16 ≡ n = omega arith in
      rw (hex_digits, e)
        (record {
          es = r.es;
          hexes = r.hexes;
          value = r.value ∙ (unfold hex_number in ap (λ m. hex_number m ds) whole);
          few = omega (arith, r.few);
        })
]

nonzero_length : (ds : List ℕ) → hex_number 0 ds ≢ 0 → 1 ≤ length ds
unfolding hex_number
nonzero_length [] h = absurd (h refl)
nonzero_length (d ∷ ds) h = omega arith

digit_no_cr : (c d : ℕ) → IsHexDigit c d → not (c == 0x0d) ≡ true
digit_no_cr c d (inl (low, e)) = ground arith
digit_no_cr c d (inr (high, low, inl e)) = ground arith
digit_no_cr c d (inr (high, low, inr e)) = ground arith

hex_text-IsSizeLine : (n : ℕ) → n < 16 ^ 15 → IsSizeLine (hex_text n) n
unfolding hex_text
hex_text-IsSizeLine n h = elim (Bool-cases (n == 0)) [
  | inl e ↦
      let none_left : n ≡ 0 = ground (arith, e) in
      rw (none_left, hex_text)
        (record {
          text = b'0' ∷ [];
          extension = [];
          ds = 0 ∷ [];
          whole = refl;
          hexes = unfold IsHexText in (inl (omega arith, refl), tt);
          value = unfold hex_number in refl;
          some_digits = omega arith;
          few = omega arith;
          printable = tt;
          marked = inl refl;
        })
  | inr e ↦
      let d = hex_digits-IsDigitsOf 16 15 n [] [] (unfold IsHexText in tt) h (omega arith) in
      let same : hex_number 0 d.es ≡ n = d.value ∙ (unfold hex_number in refl) in
      rw (hex_text, e)
        (record {
          text = hex_digits 16 n [];
          extension = [];
          ds = d.es;
          whole = sym (append-nil _);
          hexes = d.hexes;
          value = sym same;
          some_digits = nonzero_length d.es (λ z. ground (arith, e, same, z));
          few = omega (arith, d.few);
          printable = tt;
          marked = inl refl;
        })
]

hexes-no_cr : (text : Bytes) (ds : List ℕ) → IsHexText text ds → no_cr text ≡ true
unfolding IsHexText
hexes-no_cr [] ds h = refl
hexes-no_cr (c ∷ s) [] h = absurd h
hexes-no_cr (c ∷ s) (d ∷ ds) (e, h) = ground (arith, digit_no_cr c d e, hexes-no_cr s ds h)

pub hex_text-no_cr : (n : ℕ) → n < 16 ^ 15 → no_cr (hex_text n) ≡ true
unfolding hex_text
hex_text-no_cr n h = elim (Bool-cases (n == 0)) [
  | inl e ↦ rw (hex_text, e) refl
  | inr e ↦
      let d = hex_digits-IsDigitsOf 16 15 n [] [] (unfold IsHexText in tt) h (omega arith) in
      rw (hex_text, e) (hexes-no_cr (hex_digits 16 n []) d.es d.hexes)
]

-- The size that is written is the size that is read.
pub chunk_size-hex_text : (n : ℕ) → n < 16 ^ 15 → chunk_size (hex_text n) ≡ some n
chunk_size-hex_text n h = (chunk_size_iff (hex_text n) n).1 (hex_text-IsSizeLine n h)
