-- ===== src/Base/Total.antt =====
-- The sum of a number over the values of a map, and how an insertion and an erasure change it.
use nitro_server.Base.{
  ℕ, ◌+◌, ◌≤◌, ◌≡◌, refl, none, some, List, [], ◌∷◌, Bool-cases, inl, inr, ◌==◌, ==_iff, ==_refl,
  arith,
}
use nitro_server.Base.Assoc.{nat_eq, lookup, insert, erase, IsUnique}

module _ {V : Type 0} (f : V → ℕ) where
  unfoldable pub total : List (ℕ × V) → ℕ
  total [] = 0
  total ((k, v) ∷ m) = f v + total m

  pub total-insert_new :
      (k : ℕ) (v : V) (m : List (ℕ × V)) → lookup k m ≡ none → total (insert k v m) ≡ total m + f v
  unfolding lookup insert total
  total-insert_new k v [] h = omega arith
  total-insert_new k v ((j, w) ∷ m) h = elim (Bool-cases (j == k)) [
    | inl same ↦ let clash = rw same at h in cc
    | inr other ↦ rw other (omega (arith, total-insert_new k v m (rw other at h)))
  ]

  pub total-insert :
      (k : ℕ) (v w : V) (m : List (ℕ × V))
      → lookup k m ≡ some w
      → total (insert k v m) + f w ≡ total m + f v
  unfolding lookup insert total
  total-insert k v w [] h = cc
  total-insert k v w ((j, u) ∷ m) h = elim (Bool-cases (j == k)) [
    | inl same ↦ let is : u ≡ w = cc in rw (same, is) (omega arith)
    | inr other ↦ rw other (omega (arith, total-insert k v w m (rw other at h)))
  ]

  pub total-erase :
      (k : ℕ) (w : V) (m : List (ℕ × V)) → lookup k m ≡ some w → total (erase k m) + f w ≡ total m
  unfolding lookup erase total
  total-erase k w [] h = cc
  total-erase k w ((j, u) ∷ m) h = elim (Bool-cases (j == k)) [
    | inl same ↦ let is : u ≡ w = cc in rw (same, is) (omega arith)
    | inr other ↦ rw other (omega (arith, total-erase k w m (rw other at h)))
  ]

-- A number that is at most another one at every key has at most its total.
pub total-le :
    {V : Type 0} (f g : V → ℕ) (m : List (ℕ × V))
    → IsUnique m
    → ((k : ℕ) (v : V) → lookup k m ≡ some v → g v ≤ f v)
    → total g m ≤ total f m
unfolding total lookup
total-le f g [] u h = omega arith
total-le f g ((j, v) ∷ m) (fresh, u) h =
    let here : g v ≤ f v = h j v (rw (lookup, ==_refl j) refl) in
    let more = total-le f g m u (λ k w found. h k w (elim (Bool-cases (j == k)) [
      | inl same ↦ let is : j ≡ k = (==_iff j k).0 same in let clash = rw (is, found) at fresh in cc
      | inr other ↦ rw (lookup, other) found
    ])) in
    omega (arith, here, more)
