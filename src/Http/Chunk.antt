-- ===== src/Http/Chunk.antt =====
-- `uvChunkSize` of src/engine/UvReactor.cpp, on the bytes of a chunk's size line up to its CRLF.
pub mod Digits
pub mod Size
use nitro_server.Base.{
  ℕ, suc, ◌+◌, ◌-◌, ◌*◌, Bool, true, false, ◌&&◌, not, Option, none, some, List, [], ◌∷◌,
  if◌then◌else◌, ltb, leb, ◌==◌, all,
}
use nitro_server.Base.Text.{Bytes}

unfoldable pub hex_digit : ℕ → Option ℕ
hex_digit c =
    if leb b'0' c && leb c b'9'
    then some (c - b'0')
    else if leb b'a' c && leb c b'f'
    then some (c - b'a' + 10)
    else if leb b'A' c && leb c b'F'
    then some (c - b'A' + 10)
    else none

-- The loop over the digits: the size, the number of digits and what is left, and none past fifteen.
unfoldable pub chunk_digits : ℕ → ℕ → Bytes → Option (ℕ × (ℕ × Bytes))
chunk_digits size digits [] = some (size, (digits, []))
chunk_digits size digits (c ∷ s) = elim (hex_digit c) [
  | none ↦ some (size, (digits, c ∷ s))
  | some d ↦
      let rest = chunk_digits (size * 16 + d) (digits + 1) s in
      if ltb 15 (digits + 1) then none else rest
]

abbrev pub no_control : ℕ → Bool
no_control c = not (ltb c 0x20)

-- The extensions, up to the CRLF.
unfoldable pub chunk_extensions : ℕ → Bytes → Option ℕ
chunk_extensions size [] = some size
chunk_extensions size (c ∷ s) =
    if not (c == b';') then none else if all no_control (c ∷ s) then some size else none

-- `none` is the -1 of a line that is refused.
unfoldable pub chunk_size : Bytes → Option ℕ
chunk_size line = elim (chunk_digits 0 0 line) [
  | none ↦ none
  | some r ↦ if r.1.0 == 0 then none else chunk_extensions r.0 r.1.1
]
