-- ===== src/Emitters.antt =====
-- The emitters of src/engine/UvReactor.cpp: the sinks that requests are spread over.
--
-- An emitter is a pointer, a number here. The mutex makes an operation one step.
pub mod Turns
mod Examples
use nitro_server.Base.{
  ℕ, ◌+◌, ◌-◌, ◌%◌, ◌^◌, Bool, true, false, ◌||◌, not, Option, none, some, List, [], ◌∷◌, ◌++◌,
  if◌then◌else◌, ltb, ◌==◌, length, get_elem?,
}

-- `emitters_`, `dispatchWidth_` and `emitterRr_`
pub record Emitters : Type 0 where
  pub sinks : List ℕ
  pub width : ℕ
  pub turn : ℕ

-- `nullptr` is `none`.
unfoldable pub set_emitter : Option ℕ → Emitters → Emitters
set_emitter none s = record s { sinks = [] }
set_emitter (some e) s = record s { sinks = e ∷ [] }

unfoldable pub has_emitter : ℕ → List ℕ → Bool
has_emitter e [] = false
has_emitter e (x ∷ xs) = x == e || has_emitter e xs

unfoldable pub add_emitter : ℕ → Emitters → Emitters
add_emitter e s = if has_emitter e s.sinks then s else record s { sinks = s.sinks ++ (e ∷ []) }

unfoldable pub remove_all : ℕ → List ℕ → List ℕ
remove_all e [] = []
remove_all e (x ∷ xs) = let rest = remove_all e xs in if x == e then rest else x ∷ rest

unfoldable pub remove_emitter : ℕ → Emitters → Emitters × Bool
remove_emitter e s =
    let left = remove_all e s.sinks in
    (record s { sinks = left }, not (length left == length s.sinks))

-- How many of the emitters take part.
unfoldable pub spread : Emitters → ℕ
spread s = if s.width == 0 || ltb (length s.sinks) s.width then length s.sinks else s.width

unfoldable pub next_emitter : Emitters → Emitters × Option ℕ
next_emitter s =
    let w = spread s in
    if length s.sinks == 0 then (s, none) else (
      record s { turn = (s.turn + 1) % 2 ^ 64 },
      get_elem? s.sinks (length s.sinks - w + s.turn % w),
    )
