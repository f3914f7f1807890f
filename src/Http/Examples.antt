-- ===== src/Http/Examples.antt =====
-- The response heads of src/engine/UvReactor.cpp on concrete headers.
use nitro_server.Base.{◌↔◌, ◌≡◌, refl, true, some, List, [], ◌∷◌, All, arith}
use nitro_server.Base.Text.{Bytes, codes}
use nitro_server.Http.{build_head}
use nitro_server.Http.Plain.{plain}
use nitro_server.Http.Lines.{text_of, head_lines, framing_lines, build_head_lem}
use nitro_server.Http.Chunk.{hex_digit, chunk_digits, chunk_extensions, chunk_size}
use nitro_server.Http.Chunk.Size.{IsSizeLine, chunk_size_iff}

abbrev date : Bytes
date = codes "Thu, 01 Jan 1970 00:00:00 GMT"

-- A sound field, one that the engine owns, and a value that would start another line.
abbrev fields : List (Bytes × Bytes)
fields =
    (codes "X-Kind", codes "a")
    ∷ (codes "Connection", codes "close")
    ∷ (codes "X-Split", 0x0d ∷ 0x0a ∷ codes "Set-Cookie: a=b")
    ∷ []

build_head_lem_example :
    (build_head date 200 fields 5 true (some 60)
      ≡ text_of (head_lines date 200 fields (framing_lines 200 5 true (some 60))))
    × All (λ l. plain l ≡ true) (head_lines date 200 fields (framing_lines 200 5 true (some 60)))
build_head_lem_example =
    build_head_lem date 200 fields 5 true (some 60) refl (omega arith) (omega arith) (omega arith)

-- A size of 26 and an extension.
abbrev size_line : Bytes
size_line = codes "1a;x=y"

chunk_size_iff_example : (chunk_size size_line ≡ some 26) ↔ IsSizeLine size_line 26
chunk_size_iff_example = chunk_size_iff size_line 26

size_line_accepted : chunk_size size_line ≡ some 26
unfolding chunk_size chunk_digits hex_digit chunk_extensions
size_line_accepted = refl
