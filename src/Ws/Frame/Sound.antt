-- ===== src/Ws/Frame/Sound.antt =====
-- What a parsed frame header promises, whatever bytes arrived.
use nitro_server.Base.{
  ℕ, zero, suc, ◌+◌, ◌^◌, ◌<◌, ◌≤◌, ◌≡◌, ◌⊎◌, refl, Bool, true, some, [], ◌∷◌, ◌++◌, length, get_or,
  take, drop, arith, length-append, inl, inr, bit_and, All, Option-cases, length-take, length-drop,
  take-append_le, drop-append_le, get_or-append_lt,
}
use nitro_server.Base.Text.{Bytes, IsByte}
use nitro_server.Base.Bits.{and_80, and_7f}
use nitro_server.Ws.Frame.{
  FrameHeader, is_set, is_control, known_opcode, read_length, read_mask, parse_header, big_endian,
}

-- The opcodes of RFC 6455: 0 to 2 of data, 8 to 10 of control.
abbrev pub IsOpcode : ℕ → Type 0
IsOpcode op = (op ≤ 2) ⊎ ((8 ≤ op) × (op ≤ 10))

known_opcode-IsOpcode : (op : ℕ) → known_opcode op ≡ true → IsOpcode op
unfolding known_opcode
known_opcode-IsOpcode op h = ground arith

-- A header that stands in `bytes` and that the connection loop may act on.
pub record IsHeaderIn (bytes : Bytes) (allow_rsv1 : Bool) (h : FrameHeader) : Type 0 where
  pub known : IsOpcode h.opcode
  pub inside : h.header_size ≤ length bytes
  pub size_low : 2 ≤ h.header_size
  pub size_high : h.header_size ≤ 14
  pub bounded : h.payload_length < 2 ^ 63
  pub key : length h.mask ≡ 4
  pub control_final : 8 ≤ h.opcode → h.fin ≡ true
  pub control_short : 8 ≤ h.opcode → h.payload_length ≤ 125
  pub compressed : h.rsv1 ≡ true → (allow_rsv1 ≡ true) × (h.opcode < 8)

byte_at : (bytes : Bytes) (i : ℕ) → All IsByte bytes → get_or bytes i 0 < 256
byte_at [] i h = omega arith
byte_at (b ∷ bs) zero h = h.0
byte_at (b ∷ bs) (suc i) h = byte_at bs i h.1

All-drop : (n : ℕ) (bytes : Bytes) → All IsByte bytes → All IsByte (drop n bytes)
All-drop zero bs h = h
All-drop (suc n) [] h = tt
All-drop (suc n) (b ∷ bs) h = All-drop n bs h.1

-- Eight bytes whose first is below 128 hold a number below 2^63.
big_endian-lt :
    (bytes : Bytes)
    → 8 ≤ length bytes
    → All IsByte bytes
    → get_or bytes 0 0 < 128
    → big_endian 0 (take 8 bytes) < 2 ^ 63
unfolding big_endian
big_endian-lt (a ∷ b ∷ c ∷ d ∷ e ∷ f ∷ g ∷ h ∷ rest) l p t = omega arith
big_endian-lt bytes l p t = absurd (omega arith)

get_or-drop : (n : ℕ) (bytes : Bytes) → get_or (drop n bytes) 0 0 ≡ get_or bytes n 0
get_or-drop zero [] = refl
get_or-drop zero (b ∷ bs) = refl
get_or-drop (suc n) [] = refl
get_or-drop (suc n) (b ∷ bs) = get_or-drop n bs

read_length_bounds :
    (bytes : Bytes) (short len pos : ℕ)
    → All IsByte bytes
    → short < 128
    → 2 ≤ length bytes
    → read_length bytes short ≡ some (len, pos)
    → (len < 2 ^ 63) × (pos ≤ length bytes) × (2 ≤ pos) × (pos ≤ 10)
unfolding read_length
read_length_bounds bytes short len pos bs s l e = ground (
  arith,
  byte_at bytes 2 bs,
  byte_at bytes 3 bs,
  and_80 (get_or bytes 2 0),
  get_or-drop 2 bytes,
  length-drop 2 bytes,
  big_endian-lt (drop 2 bytes),
  All-drop 2 bytes bs,
)

read_mask_bounds :
    (bytes key : Bytes) (masked : Bool) (pos end : ℕ)
    → pos ≤ length bytes
    → read_mask bytes masked pos ≡ some (key, end)
    → (length key ≡ 4) × (end ≤ length bytes) × (pos ≤ end) × (end ≤ pos + 4)
unfolding read_mask
read_mask_bounds bytes key masked pos end h e =
    ground (arith, length-take 4 (drop pos bytes), length-drop pos bytes)

-- What is left of an accepted header behind its length, with both tests on the second byte.
module _ (bytes : Bytes) (allow_rsv1 : Bool) (h : FrameHeader) (bs : All IsByte bytes) (len pos : ℕ)
    (bounds : (len < 2 ^ 63) × (pos ≤ length bytes) × (2 ≤ pos) × (pos ≤ 10))
    (read : read_length bytes (bit_and (get_or bytes 1 0) 0x7f) ≡ some (len, pos)) where
  behind_length : parse_header bytes allow_rsv1 ≡ some h → IsHeaderIn bytes allow_rsv1 h
  unfolding parse_header is_control
  behind_length e =
      elim (Option-cases (read_mask bytes (is_set (bit_and (get_or bytes 1 0) 0x80)) pos)) [
        | inl short ↦ ground (arith, read, short)
        | inr ((key, end), got) ↦
            let (four, inside, low, high) = read_mask_bounds bytes key _ pos end bounds.1 got in
            ground (arith, read, got, known_opcode-IsOpcode (bit_and (get_or bytes 0 0) 0x0f))
      ]

two_bytes :
    (bytes : Bytes) (allow : Bool) (h : FrameHeader)
    → parse_header bytes allow ≡ some h
    → 2 ≤ length bytes
unfolding parse_header
two_bytes bytes allow h e = ground arith

-- Whatever bytes arrive, a header that is accepted lies inside them, takes 2 to 14 bytes, announces
-- less than 2^63 bytes under an opcode of 0 to 2 or 8 to 10, and keeps the rules on control frames,
-- of an opcode from 8, and on RSV1: a control frame is the last of its message and announces at most
-- 125 bytes, and RSV1 stands only on a data frame where it is allowed.
pub parse_header-IsHeaderIn :
    (bytes : Bytes) (allow_rsv1 : Bool) (h : FrameHeader)
    → All IsByte bytes
    → parse_header bytes allow_rsv1 ≡ some h
    → IsHeaderIn bytes allow_rsv1 h
parse_header-IsHeaderIn bytes allow h bs e =
    elim (Option-cases (read_length bytes (bit_and (get_or bytes 1 0) 0x7f))) [
      | inl short ↦ unfold parse_header in ground (arith, short)
      | inr ((len, pos), read) ↦
          behind_length bytes allow h bs len pos
            (read_length_bounds bytes _ len pos bs
              (rw (and_7f (get_or bytes 1 0) (byte_at bytes 1 bs)) (omega arith))
              (two_bytes bytes allow h e) read)
            read e
    ]

read_length-append :
    (bytes more : Bytes) (short len pos : ℕ)
    → 2 ≤ length bytes
    → read_length bytes short ≡ some (len, pos)
    → read_length (bytes ++ more) short ≡ some (len, pos)
unfolding read_length
read_length-append bytes more short len pos l e = ground (
  arith,
  length-append bytes more,
  get_or-append_lt bytes more 2 0,
  get_or-append_lt bytes more 3 0,
  drop-append_le 2 bytes more,
  length-drop 2 bytes,
  take-append_le 8 (drop 2 bytes) more,
)

read_mask-append :
    (bytes more key : Bytes) (masked : Bool) (pos end : ℕ)
    → read_mask bytes masked pos ≡ some (key, end)
    → read_mask (bytes ++ more) masked pos ≡ some (key, end)
unfolding read_mask
read_mask-append bytes more key masked pos end e = ground (
  arith,
  length-append bytes more,
  drop-append_le pos bytes more,
  length-drop pos bytes,
  take-append_le 4 (drop pos bytes) more,
)

-- More bytes behind an accepted header do not change it: a header parsed from a partial read stands.
pub parse_header-append :
    (bytes more : Bytes) (allow_rsv1 : Bool) (h : FrameHeader)
    → parse_header bytes allow_rsv1 ≡ some h
    → parse_header (bytes ++ more) allow_rsv1 ≡ some h
unfolding parse_header
parse_header-append bytes more allow h e =
    let two = two_bytes bytes allow h e in
    let same_0 = get_or-append_lt bytes more 0 0 (omega arith) in
    let same_1 = get_or-append_lt bytes more 1 0 two in
    let long = length-append bytes more in
    elim (Option-cases (read_length bytes (bit_and (get_or bytes 1 0) 0x7f))) [
      | inl short ↦ ground (arith, short)
      | inr ((len, pos), read) ↦
          elim (Option-cases (read_mask bytes (is_set (bit_and (get_or bytes 1 0) 0x80)) pos)) [
            | inl short ↦ ground (arith, read, short)
            | inr ((key, end), got) ↦ ground (
              arith,
              read,
              got,
              read_length-append bytes more _ len pos two read,
              read_mask-append bytes more key _ pos end got,
            )
          ]
    ]
