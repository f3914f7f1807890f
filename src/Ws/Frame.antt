-- ===== src/Ws/Frame.antt =====
-- Frame headers and close codes of src/engine/WsCodec.h: `isControl`, `FrameHeader`, `parseHeader`,
-- `encodeFrame`, `validCloseCode`. `data` and `n` are one byte string and its length; `false` with
-- `out` untouched is `none`.
pub mod RoundTrip
pub mod Sound
use nitro_server.Base.{
  ℕ, zero, suc, ◌+◌, ◌-◌, ◌*◌, ◌/◌, ◌%◌, ◌^◌, ◌<◌, ◌≡◌, refl, Bool, true, false, ◌&&◌, ◌||◌, not,
  Option, none, some, List, [], ◌∷◌, ◌++◌, ltb, leb, ◌==◌, if◌then◌else◌, length, get_or, take,
  drop, bit_and, bit_or,
}
use nitro_server.Base.Text.{Bytes}

unfoldable pub is_control : ℕ → Bool
is_control opcode = leb 0x8 opcode

-- `enum Opcode`, as the numbers on the wire.
abbrev pub continuation : ℕ
continuation = 0x0

abbrev pub text : ℕ
text = 0x1

abbrev pub binary : ℕ
binary = 0x2

abbrev pub close : ℕ
close = 0x8

abbrev pub ping : ℕ
ping = 0x9

abbrev pub pong : ℕ
pong = 0xa

pub record FrameHeader : Type 0 where
  pub fin : Bool
  pub rsv1 : Bool
  pub opcode : ℕ
  pub masked : Bool
  pub payload_length : ℕ
  pub header_size : ℕ
  pub mask : Bytes

infixl 5 ◌>>=◌ ◌>>◌
abbrev pub ◌>>=◌ {ℓ κ} : {A : Type ℓ} {B : Type κ} → Option A → (A → Option B) → Option B
none >>= f = none
some a >>= f = f a

abbrev pub ◌>>◌ {ℓ} : {B : Type ℓ} → Option (Unit {0}) → Option B → Option B
m >> k = m >>= λ _. k

-- `if (b) return false;`
abbrev pub refuse_if : Bool → Option (Unit {0})
refuse_if true = none
refuse_if false = some tt

abbrev pub is_set : ℕ → Bool
is_set b = not (b == 0)

-- `for (...) length = (length << 8) | data[pos + i]` in a uint64. The low byte of the shifted value
-- is zero, so the disjunction is a sum.
unfoldable pub big_endian : ℕ → Bytes → ℕ
big_endian acc [] = acc
big_endian acc (b ∷ bs) = big_endian ((acc * 256 + b) % 2 ^ 64) bs

-- The payload length and the position behind it, from the seven bits `short` of the second byte.
unfoldable pub read_length : Bytes → ℕ → Option (ℕ × ℕ)
read_length bytes short =
    let n = length bytes in
    if short == 126
    then (do refuse_if (ltb n 4); some (get_or bytes 2 0 * 256 + get_or bytes 3 0, 4))
    else if short == 127
    then (do
      refuse_if (ltb n 10)
      refuse_if (is_set (bit_and (get_or bytes 2 0) 0x80))
      some (big_endian 0 (take 8 (drop 2 bytes)), 10))
    else some (short, 2)

-- The mask key and the position behind it.
unfoldable pub read_mask : Bytes → Bool → ℕ → Option (Bytes × ℕ)
read_mask bytes masked pos =
    if masked
    then (do refuse_if (ltb (length bytes) (pos + 4)); some (take 4 (drop pos bytes), pos + 4))
    else some (0 ∷ 0 ∷ 0 ∷ 0 ∷ [], pos)

unfoldable pub known_opcode : ℕ → Bool
known_opcode op =
    op == continuation || op == text || op == binary || op == close || op == ping || op == pong

unfoldable pub parse_header : Bytes → Bool → Option FrameHeader
parse_header bytes allow_rsv1 = do
  refuse_if (ltb (length bytes) 2)
  let b0 = get_or bytes 0 0
  let b1 = get_or bytes 1 0
  refuse_if (is_set (bit_and b0 0x30))
  let op = bit_and b0 0x0f
  refuse_if (is_set (bit_and b0 0x40) && (not allow_rsv1 || is_control op))
  refuse_if (not (known_opcode op))
  let masked = is_set (bit_and b1 0x80)
  (len, pos) ← read_length bytes (bit_and b1 0x7f)
  refuse_if (is_control op && not (is_set (bit_and b0 0x80)))
  refuse_if (is_control op && ltb 125 len)
  (mask, end) ← read_mask bytes masked pos
  some (record {
    fin = is_set (bit_and b0 0x80);
    rsv1 = is_set (bit_and b0 0x40);
    opcode = op;
    masked = masked;
    payload_length = len;
    header_size = end;
    mask = mask;
  })

-- The length bytes of an encoded frame; `n` is a size_t.
pub length_bytes : ℕ → Bytes
length_bytes n =
    if ltb n 126
    then n % 256 ∷ []
    else if leb n 0xffff
    then 126 ∷ n / 2 ^ 8 % 256 ∷ n % 256 ∷ []
    else 127
      ∷ n / 2 ^ 56 % 256
      ∷ n / 2 ^ 48 % 256
      ∷ n / 2 ^ 40 % 256
      ∷ n / 2 ^ 32 % 256
      ∷ n / 2 ^ 24 % 256
      ∷ n / 2 ^ 16 % 256
      ∷ n / 2 ^ 8 % 256
      ∷ n % 256
      ∷ []

pub encode_frame : ℕ → Bytes → Bool → Bytes → Bytes
encode_frame opcode payload fin out =
    out
    ++ bit_or (if fin then 0x80 else 0x00) (bit_and opcode 0x0f) ∷ length_bytes (length payload)
    ++ payload

unfoldable pub valid_close_code : ℕ → Bool
valid_close_code code =
    if leb 3000 code && leb code 4999
    then true
    else if ltb code 1000 || ltb 1014 code
    then false
    else not (code == 1004) && not (code == 1005) && not (code == 1006)
