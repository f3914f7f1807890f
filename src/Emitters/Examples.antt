-- ===== src/Emitters/Examples.antt =====
-- Three emitters, of which the last two take part.
use nitro_server.Base.{ℕ, ◌≡◌, refl, some, [], ◌∷◌, get_elem?, InList, arith}
use nitro_server.Emitters.{Emitters, spread, next_emitter}
use nitro_server.Emitters.Turns.{share, next_emitter-last}

abbrev three : Emitters
three = record { sinks = 11 ∷ 12 ∷ 13 ∷ []; width = 2; turn = 5 }

next_emitter-last_example :
    (e : ℕ) × ((next_emitter three).1 ≡ some e)
    × (get_elem? (12 ∷ 13 ∷ []) 1 ≡ some e)
    × InList e (12 ∷ 13 ∷ [])
    × ((next_emitter three).0 ≡ record three { turn = 6 })
unfolding share
next_emitter-last_example = next_emitter-last three (omega arith)

-- The turn 5 gives the last of them, and moves on.
picks_last :
    next_emitter three ≡ (record { sinks = 11 ∷ 12 ∷ 13 ∷ []; width = 2; turn = 6 }, some 13)
unfolding next_emitter spread
picks_last = refl
