-- ===== src/Ws/Frame/RoundTrip.antt =====
-- The server's encoder against its own parser.
use nitro_server.Base.{
  ℕ, ◌+◌, ◌/◌, ◌%◌, ◌^◌, ◌<◌, ◌≤◌, ◌≡◌, Bool, true, false, some, [], ◌∷◌, ◌++◌, ltb, leb,
  if◌then◌else◌, length, drop, arith, append_assoc, Bool-cases, bit_and, bit_or,
}
use nitro_server.Base.Text.{Bytes}
use nitro_server.Base.Bits.{and_80, and_40, and_30, and_0f, and_7f, or_80, or_00}
use nitro_server.Ws.Frame.{
  FrameHeader, is_control, known_opcode, read_length, read_mask, parse_header, length_bytes,
  encode_frame, big_endian,
}

-- The bytes that the header of an unmasked frame with `n` payload bytes takes.
abbrev pub header_size_of : ℕ → ℕ
header_size_of n = if ltb n 126 then 2 else if leb n 0xffff then 4 else 10

abbrev pub header_of : ℕ → Bool → ℕ → FrameHeader
header_of op fin n = record {
  fin = fin;
  rsv1 = false;
  opcode = op;
  masked = false;
  payload_length = n;
  header_size = header_size_of n;
  mask = 0 ∷ 0 ∷ 0 ∷ 0 ∷ [];
}

big_endian_eight :
    (n : ℕ)
    → n < 2 ^ 63
    → big_endian 0 (
        n / 2 ^ 56 % 256
        ∷ n / 2 ^ 48 % 256
        ∷ n / 2 ^ 40 % 256
        ∷ n / 2 ^ 32 % 256
        ∷ n / 2 ^ 24 % 256
        ∷ n / 2 ^ 16 % 256
        ∷ n / 2 ^ 8 % 256
        ∷ n % 256
        ∷ [])
      ≡ n
unfolding big_endian
big_endian_eight n h = omega arith

known_opcode-lt : (op : ℕ) → known_opcode op ≡ true → op < 16
unfolding known_opcode
known_opcode-lt op h = ground arith

-- The first byte, field by field.
first_byte :
    (op : ℕ) (fin : Bool)
    → op < 16
    → (bit_or (if fin then 0x80 else 0x00) (bit_and op 0x0f)) ≡ (if fin then 128 + op else op)
first_byte op true h =
    rw (and_0f op (omega arith)) (rw (or_80 (op % 16) (omega arith)) (omega arith))
first_byte op false h =
    rw (and_0f op (omega arith)) (rw (or_00 (op % 16) (omega arith)) (omega arith))

-- The seven bits that announce a length of `n`, and the bytes that follow them.
short_of : ℕ → ℕ
short_of n = if ltb n 126 then n else if leb n 0xffff then 126 else 127

extension : ℕ → Bytes
extension n =
    if ltb n 126
    then []
    else if leb n 0xffff
    then n / 2 ^ 8 % 256 ∷ n % 256 ∷ []
    else n / 2 ^ 56 % 256
      ∷ n / 2 ^ 48 % 256
      ∷ n / 2 ^ 40 % 256
      ∷ n / 2 ^ 32 % 256
      ∷ n / 2 ^ 24 % 256
      ∷ n / 2 ^ 16 % 256
      ∷ n / 2 ^ 8 % 256
      ∷ n % 256
      ∷ []

length_bytes-short_of : (n : ℕ) → length_bytes n ≡ short_of n ∷ extension n
unfolding length_bytes short_of extension
length_bytes-short_of n = ground arith

short_of-lt : (n : ℕ) → short_of n < 128
unfolding short_of
short_of-lt n = ground arith

top_byte : (n : ℕ) → n < 2 ^ 63 → bit_and (n / 2 ^ 56 % 256) 0x80 ≡ 0
top_byte n h = rw (and_80 (n / 2 ^ 56 % 256) (omega arith)) (omega arith)

read_length_back :
    (n b0 : ℕ) (tail : Bytes)
    → n < 2 ^ 63
    → read_length (b0 ∷ short_of n ∷ extension n ++ tail) (short_of n) ≡ some (n, header_size_of n)
unfolding read_length short_of extension
read_length_back n b0 tail h = ground (arith, big_endian_eight n h, top_byte n h)

-- The first byte of a known, whole frame: no reserved bit, and the fields read back.
first_byte_fields :
    (op : ℕ) (fin : Bool) (b : ℕ)
    → op < 16
    → b ≡ (if fin then 128 + op else op)
    → (bit_and b 0x30 ≡ 0)
      × (bit_and b 0x0f ≡ op)
      × (bit_and b 0x40 ≡ 0)
      × (bit_and b 0x80 ≡ (if fin then 128 else 0))
first_byte_fields op true b h e = (
  rw (and_30 b (omega arith)) (omega arith),
  rw (and_0f b (omega arith)) (omega arith),
  rw (and_40 b (omega arith)) (omega arith),
  rw (and_80 b (omega arith)) (omega arith),
)
first_byte_fields op false b h e = (
  rw (and_30 b (omega arith)) (omega arith),
  rw (and_0f b (omega arith)) (omega arith),
  rw (and_40 b (omega arith)) (omega arith),
  rw (and_80 b (omega arith)) (omega arith),
)

second_byte : (n : ℕ) → (bit_and (short_of n) 0x80 ≡ 0) × (bit_and (short_of n) 0x7f ≡ short_of n)
second_byte n = (
  rw (and_80 (short_of n) (omega (arith, short_of-lt n))) (omega (arith, short_of-lt n)),
  rw (and_7f (short_of n) (omega (arith, short_of-lt n))) (omega (arith, short_of-lt n)),
)

parse_header_back :
    (op : ℕ) (fin : Bool) (n b0 : ℕ) (tail : Bytes) (allow : Bool)
    → known_opcode op ≡ true
    → (is_control op ≡ true → (fin ≡ true) × (n ≤ 125))
    → n < 2 ^ 63
    → b0 ≡ (if fin then 128 + op else op)
    → parse_header (b0 ∷ short_of n ∷ extension n ++ tail) allow ≡ some (header_of op fin n)
unfolding parse_header read_mask
parse_header_back op fin n b0 tail allow known control h e =
    let lt = known_opcode-lt op known in
    let (rsv, low, r1, top) = first_byte_fields op fin b0 lt e in
    let (unmasked, short) = second_byte n in
    rw (rsv, low, r1, top, unmasked, short, read_length_back n b0 tail h, known)
      (ground (arith, Bool-cases (is_control op)))

header_end :
    (n b0 : ℕ) (tail : Bytes)
    → drop (header_size_of n) (b0 ∷ short_of n ∷ extension n ++ tail) ≡ tail
unfolding extension
header_end n b0 tail = ground arith

-- Whatever follows it, a frame that the server writes is read back by the header parser with its
-- flags, opcode and length, unmasked, and the payload starts at the header's end. The opcode is a
-- known one, a control frame is final with at most 125 bytes, and the length is below 2^63.
pub parse_header-encode_frame :
    (op : ℕ) (payload : Bytes) (fin : Bool) (rest : Bytes) (allow : Bool)
    → known_opcode op ≡ true
    → (is_control op ≡ true → (fin ≡ true) × (length payload ≤ 125))
    → length payload < 2 ^ 63
    → (parse_header (encode_frame op payload fin [] ++ rest) allow
        ≡ some (header_of op fin (length payload)))
      × (drop (header_size_of (length payload)) (encode_frame op payload fin [] ++ rest)
          ≡ payload ++ rest)
unfolding encode_frame
parse_header-encode_frame op payload fin rest allow known control h =
    rw
      (
        length_bytes-short_of (length payload),
        append_assoc (extension (length payload)) payload rest,
      )
      (
        parse_header_back op fin (length payload) _ (payload ++ rest) allow known control h
            (first_byte op fin (known_opcode-lt op known)),
        header_end (length payload) _ (payload ++ rest),
      )
