-- ===== src/Ws/Sha1/Digest.antt =====
-- The shape of the padded message and of the digest.
use nitro_server.Base.{
  ℕ, zero, suc, ◌+◌, ◌-◌, ◌*◌, ◌%◌, ◌^◌, ◌≡◌, ◌<◌, ◌≤◌, ◌∷◌, ◌++◌, get_or, take, length, replicate,
  length-append, length-replicate, take-append, get_or-append, All, arith,
}
use nitro_server.Base.Text.{Bytes, IsByte}
use nitro_server.Ws.Sha1.{pad_to_56, sha1_message, length_field, sha1, hash_bytes}

-- With as many rounds as the distance to the next 56, the loop stops there.
pad_to_56_lem :
    (fuel padded : ℕ)
    → (120 - padded % 64) % 64 < fuel
    → pad_to_56 fuel padded ≡ padded + (120 - padded % 64) % 64
unfolding pad_to_56
pad_to_56_lem zero padded h = absurd (omega arith)
pad_to_56_lem (suc fuel) padded h = ground (arith, pad_to_56_lem fuel (padded + 1))

pad_to_56-le : (n : ℕ) → pad_to_56 64 n ≡ n + (120 - n % 64) % 64
pad_to_56-le n = pad_to_56_lem 64 n (omega arith)

length-sha1_message :
    (bytes : Bytes)
    → length (sha1_message bytes) ≡ length bytes + 9 + (120 - (length bytes + 1) % 64) % 64
unfolding sha1_message
length-sha1_message bytes =
    let n = length bytes in
    let gap = pad_to_56 64 (n + 1) - (n + 1) in
    let tail = replicate gap 0 ++ length_field (n * 8 % 2 ^ 64) in
    let zeros = length-replicate {A = ℕ} gap 0 in
    let inner = length-append (replicate gap 0) (length_field (n * 8 % 2 ^ 64)) in
    omega (arith, length-append bytes (0x80 ∷ tail), inner, zeros, pad_to_56-le (n + 1))

-- The padded message fills whole blocks of 64 bytes, starts with the data and 0x80, and is longer than
-- the data by at least 9 bytes, 0x80 and the eight bytes of the length, and by less than 9 + 64.
pub sha1_message_blocks :
    (bytes : Bytes)
    → (length (sha1_message bytes) % 64 ≡ 0)
      × (length bytes + 9 ≤ length (sha1_message bytes))
      × (length (sha1_message bytes) < length bytes + 9 + 64)
      × (take (length bytes) (sha1_message bytes) ≡ bytes)
      × (get_or (sha1_message bytes) (length bytes) 0 ≡ 0x80)
unfolding sha1_message
sha1_message_blocks bytes = (
  omega (arith, length-sha1_message bytes),
  omega (arith, length-sha1_message bytes),
  omega (arith, length-sha1_message bytes),
  take-append bytes _,
  get_or-append bytes _ _ 0,
)

pub sha1_shape : (bytes : Bytes) → All IsByte (sha1 bytes) × (length (sha1 bytes) ≡ 20)
unfolding sha1 hash_bytes
sha1_shape bytes = omega arith
