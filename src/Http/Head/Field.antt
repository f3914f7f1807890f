-- ===== src/Http/Head/Field.antt =====
-- The body of the header loop of `parseHead` in src/engine/HttpParse.cpp: one field line.
pub mod Sound
pub mod Form
use nitro_server.Base.{
  ℕ, Bool, true, false, ◌&&◌, ◌||◌, not, Option, none, some, List, [], ◌∷◌, if◌then◌else◌, ltb,
  ◌==◌, all,
}
use nitro_server.Base.Text.{Bytes}
use nitro_server.Http.Fields.{Header, is_empty, is_blank, trim}
use nitro_server.Ws.Utf8.{valid_utf8}

abbrev pub in_front_of : ℕ → Option (Bytes × Bytes) → Option (Bytes × Bytes)
in_front_of c none = none
in_front_of c (some (before, after)) = some (c ∷ before, after)

-- The text before the first `mark` and the text behind it.
unfoldable pub cut : ℕ → Bytes → Option (Bytes × Bytes)
cut mark [] = none
cut mark (c ∷ s) = let rest = cut mark s in if c == mark then some ([], s) else in_front_of c rest

-- A byte that a field line may hold.
unfoldable pub is_field_byte : ℕ → Bool
is_field_byte u = not (ltb u 0x20 && not (u == b'\t'))

unfoldable pub starts_blank : Bytes → Bool
starts_blank [] = false
starts_blank (c ∷ s) = is_blank c

-- The byte before the colon.
unfoldable pub ends_blank : Bytes → Bool
ends_blank [] = false
ends_blank (c ∷ s) = let rest = ends_blank s in if is_empty s then is_blank c else rest

unfoldable pub is_ascii : Bytes → Bool
is_ascii s = all (λ c. ltb c 0x80) s

unfoldable pub name_value : Bytes → Bytes → Option Header
name_value name after =
    if is_empty name
    then none
    else if ends_blank name
    then none
    else if not (valid_utf8 (trim after))
    then none
    else if not (is_ascii name)
    then none
    else some (name, trim after)

-- `none` is `return p`.
unfoldable pub parse_field : Bytes → Option Header
parse_field line =
    if not (all is_field_byte line)
    then none
    else if starts_blank line
    then none
    else elim (cut b':' line) [ none ↦ none | some (name, after) ↦ name_value name after ]
