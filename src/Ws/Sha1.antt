-- ===== src/Ws/Sha1.antt =====
-- `rol32` and `sha1` of src/engine/WsCodec.h. A uint32_t is a number below 2^32.
pub mod Digest
use nitro_server.Base.{
  ℕ, zero, suc, ◌+◌, ◌-◌, ◌*◌, ◌/◌, ◌%◌, ◌^◌, ◌≡◌, Bool, true, false, List, [], ◌∷◌, ◌++◌,
  if◌then◌else◌, get_or, ltb, ◌==◌, take, drop, length, replicate, bit_and, bit_or, bit_xor, not,
}
use nitro_server.Base.Text.{Bytes}

abbrev pub u32 : ℕ → ℕ
u32 x = x % 2 ^ 32

pub rol32 : ℕ → ℕ → ℕ
rol32 v n = bit_or (u32 (v * 2 ^ n)) (v / 2 ^ (32 - n))

-- `~b` in a uint32_t.
abbrev not32 : ℕ → ℕ
not32 b = 2 ^ 32 - 1 - b

-- `while (padded % 64 != 56) padded++`; 64 rounds are enough.
pub pad_to_56 : ℕ → ℕ → ℕ
pad_to_56 zero padded = padded
pad_to_56 (suc fuel) padded =
    let more = pad_to_56 fuel (padded + 1) in if padded % 64 == 56 then padded else more

-- A number of 64 bits in eight bytes, the highest first.
abbrev pub length_field : ℕ → Bytes
length_field n =
    n / 2 ^ 56 % 256
    ∷ n / 2 ^ 48 % 256
    ∷ n / 2 ^ 40 % 256
    ∷ n / 2 ^ 32 % 256
    ∷ n / 2 ^ 24 % 256
    ∷ n / 2 ^ 16 % 256
    ∷ n / 2 ^ 8 % 256
    ∷ n % 256
    ∷ []

-- The padded message: data, 0x80, zeros, and the bit length (a size_t) in eight bytes.
pub sha1_message : Bytes → Bytes
sha1_message bytes =
    let len = length bytes in
    let padded = pad_to_56 64 (len + 1) in
    let bit_len = len * 8 % 2 ^ 64 in
    bytes ++ (0x80 ∷ (replicate (padded - (len + 1)) 0 ++ length_field bit_len))

-- The first sixteen words of a block, the last one first: `n` words are left.
block_words : ℕ → Bytes → List ℕ → List ℕ
block_words (suc n) (a ∷ b ∷ c ∷ d ∷ rest) ws =
    block_words n rest ((a * 2 ^ 24 + b * 2 ^ 16 + c * 2 ^ 8 + d) ∷ ws)
block_words n rest ws = ws

-- `w[i] = rol32(w[i - 3] ^ w[i - 8] ^ w[i - 14] ^ w[i - 16], 1)`, `n` words more; the words so far
-- stand with the last one first.
extend_words : ℕ → List ℕ → List ℕ
extend_words zero ws = ws
extend_words (suc n) ws = extend_words n (
    rol32
      (bit_xor (bit_xor (bit_xor (get_or ws 2 0) (get_or ws 7 0)) (get_or ws 13 0))
        (get_or ws 15 0))
      1
    ∷ ws)

pub record Hash : Type 0 where
  pub a : ℕ
  pub b : ℕ
  pub c : ℕ
  pub d : ℕ
  pub e : ℕ

abbrev round_f : ℕ → Hash → ℕ
round_f i s =
    if ltb i 20
    then bit_or (bit_and s.b s.c) (bit_and (not32 s.b) s.d)
    else if ltb i 40
    then bit_xor (bit_xor s.b s.c) s.d
    else if ltb i 60
    then bit_or (bit_or (bit_and s.b s.c) (bit_and s.b s.d)) (bit_and s.c s.d)
    else bit_xor (bit_xor s.b s.c) s.d

abbrev round_k : ℕ → ℕ
round_k i =
    if ltb i 20
    then 0x5a827999
    else if ltb i 40
    then 0x6ed9eba1
    else if ltb i 60
    then 0x8f1bbcdc
    else 0xca62c1d6

-- The eighty rounds of a block, over the words in order, from round `i` on.
rounds : ℕ → List ℕ → Hash → Hash
rounds i [] s = s
rounds i (w ∷ ws) s = rounds (i + 1) ws (record {
  a = u32 (rol32 s.a 5 + round_f i s + s.e + round_k i + w);
  b = s.a;
  c = rol32 s.b 30;
  d = s.c;
  e = s.d;
})

abbrev reverse_onto : List ℕ → List ℕ → List ℕ
reverse_onto [] ys = ys
reverse_onto (x ∷ xs) ys = reverse_onto xs (x ∷ ys)

pub sha1_block : Bytes → Hash → Hash
sha1_block block h =
    let s = rounds 0 (reverse_onto (extend_words 64 (block_words 16 block [])) []) h in
    record {
      a = u32 (h.a + s.a);
      b = u32 (h.b + s.b);
      c = u32 (h.c + s.c);
      d = u32 (h.d + s.d);
      e = u32 (h.e + s.e);
    }

-- `for (off = 0; off < padded; off += 64)`, with the number of blocks left.
pub sha1_blocks : ℕ → Bytes → Hash → Hash
sha1_blocks zero msg h = h
sha1_blocks (suc n) msg h = sha1_blocks n (drop 64 msg) (sha1_block (take 64 msg) h)

abbrev pub word_bytes : ℕ → Bytes
word_bytes w = w / 2 ^ 24 % 256 ∷ w / 2 ^ 16 % 256 ∷ w / 2 ^ 8 % 256 ∷ w % 256 ∷ []

abbrev pub initial : Hash
initial = record { a = 0x67452301; b = 0xefcdab89; c = 0x98badcfe; d = 0x10325476; e = 0xc3d2e1f0 }

pub hash_bytes : Hash → Bytes
hash_bytes h =
    word_bytes h.a ++ word_bytes h.b ++ word_bytes h.c ++ word_bytes h.d ++ word_bytes h.e

pub sha1 : Bytes → Bytes
sha1 bytes = let msg = sha1_message bytes in hash_bytes (sha1_blocks (length msg / 64) msg initial)
