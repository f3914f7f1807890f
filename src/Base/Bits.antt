-- ===== src/Base/Bits.antt =====
-- Masks on one byte as arithmetic: each is a table of at most 256 entries, checked by evaluation.
use nitro_server.Base.{
  ℕ, zero, suc, ◌+◌, ◌*◌, ◌/◌, ◌%◌, ◌<◌, ◌≡◌, refl, Bool, true, ◌&&◌, ◌==◌, ==_iff, Bool-cases, inl,
  inr, arith, bit_and, bit_or,
}

-- The functions have the same value at every number below `size`.
unfoldable pub tables_agree : (f g : ℕ → ℕ) → ℕ → Bool
tables_agree f g zero = true
tables_agree f g (suc size) = f size == g size && tables_agree f g size

pub agree_below :
    (size : ℕ) (f g : ℕ → ℕ) → tables_agree f g size ≡ true → (i : ℕ) → i < size → f i ≡ g i
unfolding tables_agree
agree_below zero f g same i below = absurd (omega arith)
agree_below (suc size) f g same i below = elim (Bool-cases (i == size)) [
  | inl last ↦ rw ((==_iff i size).0 last) (ground arith)
  | inr earlier ↦ agree_below size f g (ground arith) i (ground arith)
]

module _ (b : ℕ) (h : b < 256) where
  pub and_80 : bit_and b 0x80 ≡ b / 128 * 128
  unfolding tables_agree
  and_80 = agree_below 256 (λ x. bit_and x 0x80) (λ x. x / 128 * 128) refl b h

  pub and_40 : bit_and b 0x40 ≡ b / 64 % 2 * 64
  unfolding tables_agree
  and_40 = agree_below 256 (λ x. bit_and x 0x40) (λ x. x / 64 % 2 * 64) refl b h

  pub and_30 : bit_and b 0x30 ≡ b / 16 % 4 * 16
  unfolding tables_agree
  and_30 = agree_below 256 (λ x. bit_and x 0x30) (λ x. x / 16 % 4 * 16) refl b h

  pub and_0f : bit_and b 0x0f ≡ b % 16
  unfolding tables_agree
  and_0f = agree_below 256 (λ x. bit_and x 0x0f) (λ x. x % 16) refl b h

  pub and_7f : bit_and b 0x7f ≡ b % 128
  unfolding tables_agree
  and_7f = agree_below 256 (λ x. bit_and x 0x7f) (λ x. x % 128) refl b h

  pub and_3f : bit_and b 0x3f ≡ b % 64
  unfolding tables_agree
  and_3f = agree_below 256 (λ x. bit_and x 0x3f) (λ x. x % 64) refl b h

  pub and_07 : bit_and b 0x07 ≡ b % 8
  unfolding tables_agree
  and_07 = agree_below 256 (λ x. bit_and x 0x07) (λ x. x % 8) refl b h

  pub and_c0 : bit_and b 0xc0 ≡ b / 64 * 64
  unfolding tables_agree
  and_c0 = agree_below 256 (λ x. bit_and x 0xc0) (λ x. x / 64 * 64) refl b h

  pub and_e0 : bit_and b 0xe0 ≡ b / 32 * 32
  unfolding tables_agree
  and_e0 = agree_below 256 (λ x. bit_and x 0xe0) (λ x. x / 32 * 32) refl b h

  pub and_f0 : bit_and b 0xf0 ≡ b / 16 * 16
  unfolding tables_agree
  and_f0 = agree_below 256 (λ x. bit_and x 0xf0) (λ x. x / 16 * 16) refl b h

  pub and_f8 : bit_and b 0xf8 ≡ b / 8 * 8
  unfolding tables_agree
  and_f8 = agree_below 256 (λ x. bit_and x 0xf8) (λ x. x / 8 * 8) refl b h

-- A flag in the top bit joined to a nibble.
pub or_80 : (x : ℕ) → x < 16 → bit_or 0x80 x ≡ 128 + x
unfolding tables_agree
or_80 x h = agree_below 16 (λ x. bit_or 0x80 x) (λ x. 128 + x) refl x h

pub or_00 : (x : ℕ) → x < 16 → bit_or 0x00 x ≡ x
unfolding tables_agree
or_00 x h = agree_below 16 (λ x. bit_or 0x00 x) (λ x. x) refl x h
