-- ===== src/Emitters/Turns.antt =====
-- Which emitter gets a request.
use nitro_server.Base.{
  ℕ, zero, suc, ◌+◌, ◌-◌, ◌%◌, ◌^◌, ◌≤◌, ◌<◌, ◌≡◌, ◌≢◌, ◌⊎◌, inl, inr, refl, sym, ◌∙◌, subst, false,
  min, ltb, ◌||◌, if◌then◌else◌, some, List, [], ◌∷◌, ◌==◌, ==_iff, length, get_elem?, drop,
  length-drop, arith, Bool-cases, InList,
}
use mathlib.Core.Option.{some-injective}
use native.Mathlib.Nat.{mod-lt}
use nitro_server.Emitters.{Emitters, remove_all, remove_emitter, spread, next_emitter}

add_zero : (n : ℕ) → 0 + n ≡ n
add_zero n = omega arith

add_suc : (m n : ℕ) → suc m + n ≡ suc (m + n)
add_suc m n = omega arith

get_elem?-drop : (n i : ℕ) (xs : List ℕ) → get_elem? (drop n xs) i ≡ get_elem? xs (n + i)
get_elem?-drop zero i xs = rw (add_zero i) refl
get_elem?-drop (suc n) i [] = refl
get_elem?-drop (suc n) i (x ∷ xs) = rw (add_suc n i) (get_elem?-drop n i xs)

get_elem?-InList :
    (xs : List ℕ) (i : ℕ) → i < length xs → (e : ℕ) × (get_elem? xs i ≡ some e) × InList e xs
get_elem?-InList [] i h = absurd (omega (arith, h))
get_elem?-InList (x ∷ xs) zero h = (x, refl, inl refl)
get_elem?-InList (x ∷ xs) (suc i) h =
    let (e, at, among) = get_elem?-InList xs i (omega (arith, h)) in (e, at, inr among)

-- `min width n`, and all `n` for the width 0.
unfoldable pub share : ℕ → ℕ → ℕ
share zero n = n
share (suc width) n = min (suc width) n

share_lem : (width n : ℕ) → (if width == 0 || ltb n width then n else width) ≡ share width n
unfolding share
share_lem zero n = refl
share_lem (suc width) n = ground arith

spread-share : (s : Emitters) → spread s ≡ share s.width (length s.sinks)
unfolding spread
spread-share s = share_lem s.width (length s.sinks)

share_pos : (width n : ℕ) → 0 < n → (0 < share width n) × (share width n ≤ n)
unfolding share
share_pos zero n h = (h, omega arith)
share_pos (suc width) n h = (omega arith, omega arith)

-- While there is an emitter, a request is given to one. It stands among the last that were
-- registered, as many of them as the width says, or all where the width is 0 or more than there are:
-- at the place among these that the turn says, counted around; and the turn moves on by one, modulo
-- 2^64.
pub next_emitter-last :
    (s : Emitters)
    → 0 < length s.sinks
    → (e : ℕ) × ((next_emitter s).1 ≡ some e)
      × (get_elem?
            (drop (length s.sinks - share s.width (length s.sinks)) s.sinks)
            (s.turn % share s.width (length s.sinks))
          ≡ some e)
      × InList e (drop (length s.sinks - share s.width (length s.sinks)) s.sinks)
      × ((next_emitter s).0 ≡ record s { turn = (s.turn + 1) % 2 ^ 64 })
unfolding next_emitter
next_emitter-last s h =
    let w = share s.width (length s.sinks) in
    let (pos, below) = share_pos s.width (length s.sinks) h in
    let some_sink : (length s.sinks == 0) ≡ false = ground (arith, h) in
    let back = length s.sinks - w in
    let inside : s.turn % w < length (drop back s.sinks) =
      omega (arith, mod-lt s.turn pos, length-drop back s.sinks, below) in
    let (e, at, among) = get_elem?-InList (drop back s.sinks) (s.turn % w) inside in
    let step : (next_emitter s).1 ≡ get_elem? s.sinks (back + s.turn % w) =
      simp (next_emitter, some_sink, spread-share s) in
    (
      e,
      step ∙ sym (get_elem?-drop back (s.turn % w) s.sinks) ∙ at,
      at,
      among,
      simp (next_emitter, some_sink),
    )

InList-drop : (n x : ℕ) (xs : List ℕ) → InList x (drop n xs) → InList x xs
InList-drop zero x xs h = h
InList-drop (suc n) x [] h = h
InList-drop (suc n) x (y ∷ xs) h = inr (InList-drop n x xs h)

next_emitter-InList : (s : Emitters) (x : ℕ) → (next_emitter s).1 ≡ some x → InList x s.sinks
unfolding next_emitter
next_emitter-InList s x h = elim (Bool-cases (length s.sinks == 0)) [
  | inl e ↦ let clash = rw (next_emitter, e) at h in cc
  | inr e ↦
      let (y, at, place, among, moved) = next_emitter-last s (ground (arith, e)) in
      let same : y ≡ x = some-injective y x (sym at ∙ h) in
      subst (λ k. InList k s.sinks) same (InList-drop _ y s.sinks among)
]

unfold_kept :
    (e x y : ℕ) (xs : List ℕ)
    → (y == e) ≡ false
    → InList x (remove_all e (y ∷ xs))
    → (y ≡ x) ⊎ InList x (remove_all e xs)
unfolding remove_all
unfold_kept e x y xs differs h = rw (remove_all, differs) at h

-- The emitter that was removed is gone, and the others are still there.
remove_all-InList : (e x : ℕ) (xs : List ℕ) → InList x (remove_all e xs) → (InList x xs) × (x ≢ e)
unfolding remove_all
remove_all-InList e x [] h = absurd h
remove_all-InList e x (y ∷ xs) h = elim (Bool-cases (y == e)) [
  | inl same ↦
      let (there, other) = remove_all-InList e x xs (rw (remove_all, same) at h) in
      (inr there, other)
  | inr differs ↦ elim (unfold_kept e x y xs differs h) [
    | inl is ↦ (inl is, λ k. let clash = sym differs ∙ (==_iff y e).1 (is ∙ k) in cc)
    | inr more ↦ let (there, other) = remove_all-InList e x xs more in (inr there, other)
  ]
]

-- An emitter that was removed is given no request, whatever the width and the turn.
pub next_emitter-remove_emitter :
    (e x : ℕ) (s : Emitters)
    → (next_emitter (remove_emitter e s).0).1 ≡ some x
    → (InList x s.sinks) × (x ≢ e)
unfolding remove_emitter
next_emitter-remove_emitter e x s h =
    remove_all-InList e x s.sinks (next_emitter-InList (remove_emitter e s).0 x h)
