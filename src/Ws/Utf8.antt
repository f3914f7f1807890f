-- ===== src/Ws/Utf8.antt =====
-- `validUtf8` of src/engine/WsCodec.h, the check on text messages and on header values.
pub mod Encode
pub mod Exact
pub mod Complete
use nitro_server.Base.{
  ℕ, zero, suc, ◌+◌, ◌*◌, ◌%◌, ◌^◌, ◌<◌, Bool, true, false, ◌&&◌, ◌||◌, not, Option, none, some,
  List, [], ◌∷◌, ltb, leb, ◌==◌, if◌then◌else◌, length, get_or, take, drop, all, bit_and,
}
use nitro_server.Base.Text.{Bytes}

-- The continuation bytes that a lead byte asks for; `none` is `return false`. A byte below 0x80
-- never gets here.
pub utf8_need : ℕ → Option ℕ
utf8_need c =
    if bit_and c 0xe0 == 0xc0
    then (if ltb c 0xc2 then none else some 1)
    else if bit_and c 0xf0 == 0xe0
    then some 2
    else if bit_and c 0xf8 == 0xf0
    then (if ltb 0xf4 c then none else some 3)
    else none

abbrev pub is_continuation : ℕ → Bool
is_continuation b = bit_and b 0xc0 == 0x80

-- The code point of a three-byte and of a four-byte form. The fields do not overlap, so that the
-- disjunctions are sums.
pub code_point_3 : ℕ → Bytes → ℕ
code_point_3 c rest =
    bit_and c 0x0f * 2 ^ 12
    + bit_and (get_or rest 0 0) 0x3f * 2 ^ 6
    + bit_and (get_or rest 1 0) 0x3f

pub code_point_4 : ℕ → Bytes → ℕ
code_point_4 c rest =
    bit_and c 0x07 * 2 ^ 18
    + bit_and (get_or rest 0 0) 0x3f * 2 ^ 12
    + bit_and (get_or rest 1 0) 0x3f * 2 ^ 6
    + bit_and (get_or rest 2 0) 0x3f

-- Surrogates and overlong forms.
pub refused_form : ℕ → ℕ → Bytes → Bool
refused_form need c rest =
    (need == 2
      && (ltb (code_point_3 c rest) 0x800
          || leb 0xd800 (code_point_3 c rest) && leb (code_point_3 c rest) 0xdfff))
    || (need == 3 && ltb (code_point_4 c rest) 0x10000)

-- The loop, over the bytes from `data + i` on. Every round takes a byte, so that the fuel, the
-- number of bytes, is enough.
unfoldable pub valid_utf8_loop : ℕ → Bytes → Bool
valid_utf8_loop fuel [] = true
valid_utf8_loop zero (c ∷ rest) = false
valid_utf8_loop (suc fuel) (c ∷ rest) = elim (ltb c 0x80) [
  | true ↦ valid_utf8_loop fuel rest
  | false ↦ elim (utf8_need c) [
    | none ↦ false
    | some need ↦
        let more = valid_utf8_loop fuel (drop need rest) in
        if leb (length (c ∷ rest)) need
        then false
        else if not (all is_continuation (take need rest))
        then false
        else if refused_form need c rest
        then false
        else more
  ]
]

unfoldable pub valid_utf8 : Bytes → Bool
valid_utf8 bytes = valid_utf8_loop (length bytes) bytes
