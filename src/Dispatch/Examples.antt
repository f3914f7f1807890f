-- ===== src/Dispatch/Examples.antt =====
-- The controller of src/engine/DispatchController.h on concrete samples.
use nitro_server.Base.{ℕ, ◌+◌, ◌≤◌, ◌≡◌, ◌≢◌, refl, Bool, true, ltb, List, [], ◌∷◌, All, arith}
use nitro_server.Dispatch.{initial, ticks}
use nitro_server.Dispatch.Width.{
  IsController, initial-IsController, ticks-initial_bounds, settled_starts_trial,
}

-- Throughputs in whole answers per tick, and the margin of a fifth.
abbrev by_a_fifth : ℕ → ℕ → Bool
by_a_fifth a b = ltb (b + b + b + b + b + b) (a + a + a + a + a)

abbrev busy : List (ℕ × ℕ)
busy = (100, 9) ∷ (100, 12) ∷ (90, 8) ∷ (95, 20) ∷ []

ticks-initial_bounds_example :
    IsController 4 (ticks 0 by_a_fifth (initial 0 by_a_fifth) 4 busy).0
    × All (λ w. (1 ≤ w) × (w ≤ 4)) (ticks 0 by_a_fifth (initial 0 by_a_fifth) 4 busy).1
ticks-initial_bounds_example = ticks-initial_bounds 0 by_a_fifth 4 busy (omega arith)

settled_starts_trial_example :
    ((ticks 0 by_a_fifth (initial 0 by_a_fifth) 4 busy).0.probing ≡ true)
    × ((ticks 0 by_a_fifth (initial 0 by_a_fifth) 4 busy).0.probe
        ≢ (ticks 0 by_a_fifth (initial 0 by_a_fifth) 4 busy).0.width)
unfolding initial
settled_starts_trial_example =
    settled_starts_trial 0 by_a_fifth busy (initial 0 by_a_fifth) 4
      (initial-IsController 0 by_a_fifth 4 (omega arith)) (omega arith) refl refl
      (omega arith, (omega arith, (omega arith, (omega arith, tt))))
