-- ===== src/Json.antt =====
-- src/engine/JsonWriter.cpp: the JSON writer that a handler drives token by token.
--
-- The buffer is the list of the bytes written so far; its capacity and its growth by `realloc` are left
-- out, and so are doubles, which go through `std::to_chars`. An int64 is its 64-bit pattern.
pub mod Escape
pub mod Integer
pub mod Document
mod Examples
use nitro_server.Base.{
  ℕ, zero, suc, ◌+◌, ◌-◌, ◌/◌, ◌%◌, ◌^◌, Bool, true, false, List, [], ◌∷◌, ◌++◌, if◌then◌else◌, ltb,
  leb, ◌==◌, get_or, bit_and,
}
use nitro_server.Base.Text.{Bytes, codes}

pub record Writer : Type 0 where
  pub bytes : Bytes
  pub need_comma : Bool

-- `nitro_server_jw_new`, and `nitro_server_jw_reset` of any writer.
abbrev pub jw_new : Writer
jw_new = record { bytes = []; need_comma = false }

abbrev pub jw_reset : Writer → Writer
jw_reset w = record { bytes = []; need_comma = false }

abbrev pub put_n : Writer → Bytes → Writer
put_n w s = record w { bytes = w.bytes ++ s }

abbrev pub sep : Writer → Writer
sep w = if w.need_comma then put_n w (b',' ∷ []) else w

-- The digits of `x`, the last one first read off, in front of those already there. An uint64 has at most
-- twenty.
pub int_digits : ℕ → ℕ → Bytes → Bytes
int_digits zero x acc = acc
int_digits (suc fuel) x acc =
    let rest = int_digits fuel (x / 10) ((b'0' + x % 10) ∷ acc) in if x == 0 then acc else rest

-- `v < 0`, and `~static_cast<uint64_t>(v) + 1`.
abbrev pub is_negative : ℕ → Bool
is_negative v = leb (2 ^ 63) v

abbrev pub magnitude : ℕ → ℕ
magnitude v = if is_negative v then (2 ^ 64 - 1 - v + 1) % 2 ^ 64 else v

pub int_text : ℕ → Bytes
int_text v =
    if v == 0
    then b'0' ∷ []
    else (if is_negative v then b'-' ∷ [] else []) ++ int_digits 20 (magnitude v) []

abbrev pub write_int : Writer → ℕ → Writer
write_int w v = put_n w (int_text v)

abbrev pub hex : Bytes
hex = codes "0123456789abcdef"

pub escape_byte : ℕ → Bytes
escape_byte c =
    if c == 0x22
    then 0x5c ∷ 0x22 ∷ []
    else if c == 0x5c
    then 0x5c ∷ 0x5c ∷ []
    else if c == 0x08
    then 0x5c ∷ b'b' ∷ []
    else if c == 0x0c
    then 0x5c ∷ b'f' ∷ []
    else if c == 0x0a
    then 0x5c ∷ b'n' ∷ []
    else if c == 0x0d
    then 0x5c ∷ b'r' ∷ []
    else if c == 0x09
    then 0x5c ∷ b't' ∷ []
    else if ltb c 0x20
    then 0x5c ∷ b'u' ∷ b'0' ∷ b'0' ∷ get_or hex (c / 16) 0 ∷ get_or hex (bit_and c 0xf) 0 ∷ []
    else c ∷ []

pub escape_all : Bytes → Bytes
escape_all [] = []
escape_all (c ∷ s) = escape_byte c ++ escape_all s

abbrev pub quoted : Bytes → Bytes
quoted s = 0x22 ∷ (escape_all s ++ (0x22 ∷ []))

abbrev pub write_escaped : Writer → Bytes → Writer
write_escaped w s = put_n w (quoted s)

abbrev pub set_comma : Bool → Writer → Writer
set_comma b w = record w { need_comma = b }

abbrev pub jw_begin_object : Writer → Writer
jw_begin_object w = set_comma false (put_n (sep w) (b'{' ∷ []))

abbrev pub jw_end_object : Writer → Writer
jw_end_object w = set_comma true (put_n w (b'}' ∷ []))

abbrev pub jw_begin_array : Writer → Writer
jw_begin_array w = set_comma false (put_n (sep w) (b'[' ∷ []))

abbrev pub jw_end_array : Writer → Writer
jw_end_array w = set_comma true (put_n w (b']' ∷ []))

abbrev pub jw_key : Writer → Bytes → Writer
jw_key w k = set_comma false (put_n (write_escaped (sep w) k) (b':' ∷ []))

abbrev pub jw_int : Writer → ℕ → Writer
jw_int w v = set_comma true (write_int (sep w) v)

abbrev pub jw_string : Writer → Bytes → Writer
jw_string w s = set_comma true (write_escaped (sep w) s)

abbrev pub jw_bool : Writer → Bool → Writer
jw_bool w b = set_comma true (put_n (sep w) (if b then codes "true" else codes "false"))

abbrev pub jw_null : Writer → Writer
jw_null w = set_comma true (put_n (sep w) (codes "null"))

abbrev pub jw_raw : Writer → Bytes → Writer
jw_raw w r = set_comma true (put_n (sep w) r)
