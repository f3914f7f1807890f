-- ===== src/Ws/Utf8/Encode.antt =====
-- UTF-8 as it is defined, from code points to bytes: the description that the check is held to.
use nitro_server.Base.{ℕ, ◌+◌, ◌/◌, ◌%◌, ◌<◌, ◌⊎◌, List, [], ◌∷◌, ◌++◌, ltb, if◌then◌else◌}
use nitro_server.Base.Text.{Bytes}

unfoldable pub encode_utf8 : ℕ → Bytes
encode_utf8 cp =
    if ltb cp 0x80
    then cp ∷ []
    else if ltb cp 0x800
    then (0xc0 + cp / 64) ∷ (0x80 + cp % 64) ∷ []
    else if ltb cp 0x10000
    then (0xe0 + cp / 4096) ∷ (0x80 + cp / 64 % 64) ∷ (0x80 + cp % 64) ∷ []
    else (0xf0 + cp / 262144)
      ∷ (0x80 + cp / 4096 % 64)
      ∷ (0x80 + cp / 64 % 64)
      ∷ (0x80 + cp % 64)
      ∷ []

abbrev pub encode_all : List ℕ → Bytes
encode_all [] = []
encode_all (cp ∷ cps) = encode_utf8 cp ++ encode_all cps

-- A code point below `limit` that is no surrogate.
abbrev pub IsCodePoint : ℕ → ℕ → Type 0
IsCodePoint limit cp = (cp < limit) × ((cp < 0xd800) ⊎ (0xdfff < cp))

-- The Unicode scalar values.
abbrev pub IsScalar : ℕ → Type 0
IsScalar cp = IsCodePoint 0x110000 cp
