-- ===== src/Base/Text.antt =====
-- Byte strings: `std::string` and `std::string_view` are lists of bytes, and a literal of the
-- source is the list of its character codes (all of them ASCII).
use Prim.Native.Char.{code}
use Prim.Native.String.{String}
use nitro_server.Base.{ℕ, ◌<◌, List, [], ◌∷◌}

abbrev pub Bytes : Type 0
Bytes = List ℕ

abbrev pub IsByte : ℕ → Type 0
IsByte b = b < 256

abbrev pub codes : String → Bytes
codes String.[] = []
codes (String.◌∷◌ c s) = code c ∷ codes s
