-- ===== src/Json/Examples.antt =====
-- The JSON writer of src/engine/JsonWriter.cpp on a concrete document.
use nitro_server.Base.{◌≡◌, ◌++◌, true, some, [], ◌∷◌, arith}
use nitro_server.Base.Text.{Bytes, codes}
use nitro_server.Json.{jw_new, jw_reset, escape_all}
use nitro_server.Json.Escape.{read_string, read_string-escape_all}
use nitro_server.Json.Document.{
  Value, bool_value, int_value, string_value, array_value, object_value, no_value, a_value,
  no_field, a_field, emit, print, emit_lem,
}

-- An object with an array of two numbers, a string and a flag.
abbrev document : Value
document = object_value (
    a_field (codes "xs") (array_value (a_value (int_value 7) (a_value (int_value 42) no_value))) (
      a_field (codes "name") (string_value (codes "a"))
        (a_field (codes "ok") (bool_value true) no_field)))

emit_lem_example :
    ((emit document jw_new).bytes ≡ print document)
    × ((emit document (jw_reset (emit document jw_new))).bytes ≡ print document)
emit_lem_example = emit_lem document (emit document jw_new)

-- A quotation mark, a line break and a control byte.
abbrev awkward : Bytes
awkward = 0x22 ∷ 0x0a ∷ 0x1f ∷ []

read_string-escape_all_example :
    read_string 4 (escape_all awkward ++ (0x22 ∷ codes ",1")) ≡ some (awkward, codes ",1")
read_string-escape_all_example =
    read_string-escape_all awkward (codes ",1") 4 (omega arith, (omega arith, (omega arith, tt)))
      (omega arith)
