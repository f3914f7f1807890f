-- ===== src/Json/Integer.antt =====
-- `writeInt` of src/engine/JsonWriter.cpp: the decimal that an int64 is written as.
use nitro_server.Base.{
  All, ℕ, zero, suc, ◌+◌, ◌-◌, ◌*◌, ◌/◌, ◌%◌, ◌^◌, ◌<◌, ◌≤◌, ◌≡◌, refl, ◌∙◌, [], ◌∷◌, ◌++◌,
  if◌then◌else◌, leb, ◌==◌, arith, length, Bool-cases, inl, inr,
}
use nitro_server.Base.Text.{Bytes}
use nitro_server.Json.{int_digits, magnitude, int_text}

abbrev pub IsDigit : ℕ → Type 0
IsDigit c = (b'0' ≤ c) × (c ≤ b'9')

-- The number that decimal digits stand for, behind those of `n`.
pub decimal : ℕ → Bytes → ℕ
decimal n [] = n
decimal n (c ∷ s) = decimal (n * 10 + (c - b'0')) s

int_digits-decimal :
    (fuel x : ℕ) (acc : Bytes) → x < 10 ^ fuel → decimal 0 (int_digits fuel x acc) ≡ decimal x acc
unfolding int_digits decimal
int_digits-decimal zero x acc h = ground arith
int_digits-decimal (suc fuel) x acc h =
    let digit : b'0' + x % 10 - b'0' ≡ x % 10 = omega arith in
    let whole : x / 10 * 10 + x % 10 ≡ x = omega arith in
    elim (Bool-cases (x == 0)) [
      | inl e ↦ let none_left : x ≡ 0 = ground arith in rw none_left refl
      | inr e ↦ rw e (
          int_digits-decimal fuel (x / 10) ((b'0' + x % 10) ∷ acc) (omega (arith, h))
          ∙ rw (decimal, digit, whole) refl)
    ]

length-int_digits : (fuel x : ℕ) (acc : Bytes) → length (int_digits fuel x acc) ≤ fuel + length acc
unfolding int_digits decimal
length-int_digits zero x acc = omega arith
length-int_digits (suc fuel) x acc =
    ground (arith, length-int_digits fuel (x / 10) ((b'0' + x % 10) ∷ acc))

int_digits-IsDigit :
    (fuel x : ℕ) (acc : Bytes) → All IsDigit acc → All IsDigit (int_digits fuel x acc)
unfolding int_digits decimal
int_digits-IsDigit zero x acc h = h
int_digits-IsDigit (suc fuel) x acc h =
    let more =
      int_digits-IsDigit fuel (x / 10) ((b'0' + x % 10) ∷ acc) ((omega arith, omega arith), h) in
    elim (Bool-cases (x == 0)) [ inl e ↦ rw (int_digits, e) h | inr e ↦ rw (int_digits, e) more ]

-- What an int64 is written as: its sign, and digits that stand for its absolute value.
pub record IsDecimalOf (v : ℕ) (text : Bytes) : Type 0 where
  pub digits : Bytes
  pub signed : text ≡ (if leb (2 ^ 63) v then b'-' ∷ [] else []) ++ digits
  pub value : decimal 0 digits ≡ (if leb (2 ^ 63) v then 2 ^ 64 - v else v)
  pub only_digits : All IsDigit digits
  pub fits : length digits ≤ 20

-- For every 64-bit pattern, `writeInt` writes a minus sign exactly where the two's complement number is
-- negative, and then at most twenty digits that stand for its absolute value.
pub int_text-IsDecimalOf : (v : ℕ) → v < 2 ^ 64 → IsDecimalOf v (int_text v)
unfolding int_text decimal
int_text-IsDecimalOf v h = elim (Bool-cases (v == 0)) [
  | inl e ↦
      let none_left : v ≡ 0 = ground arith in
      rw none_left (record {
        digits = b'0' ∷ [];
        signed = refl;
        value = refl;
        only_digits = ((omega arith, omega arith), tt);
        fits = omega arith;
      })
  | inr e ↦ record {
    digits = int_digits 20 (magnitude v) [];
    signed = rw (int_text, e) refl;
    value = int_digits-decimal 20 (magnitude v) [] (ground arith) ∙ ground (arith, e);
    only_digits = int_digits-IsDigit 20 (magnitude v) [] tt;
    fits = omega (arith, length-int_digits 20 (magnitude v) []);
  }
]
