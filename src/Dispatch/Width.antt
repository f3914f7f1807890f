-- ===== src/Dispatch/Width.antt =====
-- The controller stays within its bounds, and keeps looking for a better width.
use nitro_server.Base.{
  ℕ, ◌+◌, ◌≤◌, ◌<◌, ◌≡◌, ◌≢◌, ◌⊎◌, inl, inr, Bool, true, false, List, [], ◌∷◌, arith, All, length,
  Bool-cases,
}
use nitro_server.Dispatch.{
  Controller, step, turn, reset, initial, tick_settled, tick_probing, tick, ticks,
}

pub record IsController {R : Type 0} (max_width : ℕ) (c : Controller R) : Type 0 where
  pub width_low : 1 ≤ c.width
  pub width_high : c.width ≤ max_width
  pub probe_low : 1 ≤ c.probe
  pub probe_high : c.probe ≤ max_width
  pub moves : c.probing ≡ true → c.probe ≢ c.width
  pub rested : c.probing ≡ true → c.dwell ≡ 0
  pub patience : c.dwell < c.dwell_target
  pub target_low : 4 ≤ c.dwell_target
  pub target_high : c.dwell_target ≤ 50

step_bounds :
    (w : ℕ) (wider : Bool) (max_width : ℕ)
    → 1 ≤ w
    → w ≤ max_width
    → (1 ≤ step w wider max_width) × (step w wider max_width ≤ max_width)
unfolding step
step_bounds w true m lo hi = omega arith
step_bounds w false m lo hi = omega arith

turn_moves :
    (wider : Bool) (w max_width : ℕ)
    → 2 ≤ max_width
    → 1 ≤ w
    → w ≤ max_width
    → step w (turn wider w max_width) max_width ≢ w
unfolding step turn
turn_moves true w m two lo hi = ground arith
turn_moves false w m two lo hi = ground arith

module _ {R : Type 0} (minus_one : R) (beats : R → R → Bool) where
  settled-IsController :
      (c : Controller R) (answers : R) (m : ℕ)
      → IsController m c
      → c.probing ≡ false
      → IsController m (tick_settled minus_one beats c answers m).0
        × (1 ≤ (tick_settled minus_one beats c answers m).1)
        × ((tick_settled minus_one beats c answers m).1 ≤ m)
  unfolding tick_settled
  settled-IsController c answers m v off =
      ground (arith, step_bounds c.width (turn c.wider c.width m) m v.width_low v.width_high)

  probing-IsController :
      (c : Controller R) (answers : R) (m : ℕ)
      → IsController m c
      → c.probing ≡ true
      → IsController m (tick_probing minus_one beats c answers m).0
        × (1 ≤ (tick_probing minus_one beats c answers m).1)
        × ((tick_probing minus_one beats c answers m).1 ≤ m)
  unfolding tick_probing
  probing-IsController c answers m v on =
      ground (arith, step_bounds c.probe c.wider m v.probe_low v.probe_high)

  tick-IsController :
      (c : Controller R) (answers : R) (backlog m : ℕ)
      → IsController m c
      → IsController m (tick minus_one beats c answers backlog m).0
        × (1 ≤ (tick minus_one beats c answers backlog m).1)
        × ((tick minus_one beats c answers backlog m).1 ≤ m)
  unfolding tick reset
  tick-IsController c answers backlog m v = elim (Bool-cases c.probing) [
    | inl on ↦ ground (arith, probing-IsController c answers m v on)
    | inr off ↦ ground (arith, settled-IsController c answers m v off)
  ]

  ticks-IsController :
      (c : Controller R) (m : ℕ) (samples : List (R × ℕ))
      → IsController m c
      → IsController m (ticks minus_one beats c m samples).0
        × All (λ w. (1 ≤ w) × (w ≤ m)) (ticks minus_one beats c m samples).1
  unfolding ticks
  ticks-IsController c m [] v = (v, tt)
  ticks-IsController c m ((answers, backlog) ∷ more) v =
      let (v', lo, hi) = tick-IsController c answers backlog m v in
      let (last, rest) =
        ticks-IsController (tick minus_one beats c answers backlog m).0 m more v' in
      (last, ((lo, hi), rest))

  pub initial-IsController : (m : ℕ) → 1 ≤ m → IsController m (initial minus_one beats)
  unfolding initial
  initial-IsController m h = ground arith

  -- With a fixed number of isolates, at least one, every width that the controller ever answers lies
  -- between 1 and that number, whatever the throughput and the backlog; its state stays in bounds.
  pub ticks-initial_bounds :
      (m : ℕ) (samples : List (R × ℕ))
      → 1 ≤ m
      → IsController m (ticks minus_one beats (initial minus_one beats) m samples).0
        × All (λ w. (1 ≤ w) × (w ≤ m)) (ticks minus_one beats (initial minus_one beats) m samples).1
  ticks-initial_bounds m samples h =
      ticks-IsController (initial minus_one beats) m samples (initial-IsController m h)

  settled_step :
      (c : Controller R) (answers : R) (backlog m : ℕ)
      → IsController m c
      → 2 ≤ m
      → c.probing ≡ false
      → 8 ≤ backlog
      → ((c.dwell + 1 < c.dwell_target)
          × ((tick minus_one beats c answers backlog m).0.probing ≡ false)
          × ((tick minus_one beats c answers backlog m).0.dwell ≡ c.dwell + 1)
          × ((tick minus_one beats c answers backlog m).0.dwell_target ≡ c.dwell_target))
        ⊎ ((c.dwell + 1 ≡ c.dwell_target)
            × ((tick minus_one beats c answers backlog m).0.probing ≡ true))
  unfolding tick tick_settled
  settled_step c answers backlog m v two off busy =
      ground (arith, turn_moves c.wider c.width m two v.width_low v.width_high)

  -- A saturated controller does not stay put: from a settled state, with two or more isolates, as many
  -- saturated ticks as are left of its dwell start a trial of another width.
  pub settled_starts_trial :
      (samples : List (R × ℕ)) (c : Controller R) (m : ℕ)
      → IsController m c
      → 2 ≤ m
      → c.probing ≡ false
      → c.dwell + length samples ≡ c.dwell_target
      → All (λ s. 8 ≤ s.1) samples
      → ((ticks minus_one beats c m samples).0.probing ≡ true)
        × ((ticks minus_one beats c m samples).0.probe
            ≢ (ticks minus_one beats c m samples).0.width)
  unfolding ticks
  settled_starts_trial [] c m v two off e busy = absurd (omega (arith, v.patience))
  settled_starts_trial ((answers, backlog) ∷ more) c m v two off e busy =
      let v' = (tick-IsController c answers backlog m v).0 in
      elim (settled_step c answers backlog m v two off busy.0) [
        | inl (_, off', counted, same) ↦
            settled_starts_trial more (tick minus_one beats c answers backlog m).0 m v' two off'
              (omega (arith, e, counted, same)) busy.1
        | inr (now, on) ↦
            let none_left : length more ≡ 0 = omega (arith, e, now) in
            started more none_left (tick minus_one beats c answers backlog m).0 on (v'.moves on)
      ]
    where
      started :
          (more : List (R × ℕ))
          → length more ≡ 0
          → (c' : Controller R) → c'.probing ≡ true
          → c'.probe ≢ c'.width
          → ((ticks minus_one beats c' m more).0.probing ≡ true)
            × ((ticks minus_one beats c' m more).0.probe
                ≢ (ticks minus_one beats c' m more).0.width)
      started [] z c' on moves = (on, moves)
      started (x ∷ xs) z c' on moves = absurd (omega (arith, z))
