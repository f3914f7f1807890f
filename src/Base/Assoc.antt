-- ===== src/Base/Assoc.antt =====
-- Maps with unique keys (`std::unordered_map`, `std::map`) as association lists.
use nitro_server.Base.{
  ℕ, ◌≡◌, ◌↔◌, refl, subst, Bool, true, false, Option, none, some, List, [], ◌∷◌, if◌then◌else◌,
  ◌==◌, ==_iff, bytes_eq, bytes_eq_iff, Bool-cases, inl, inr, arith,
}
use mathlib.Core.Option.{some-injective}

-- Keys compare by a decidable equality.
pub record Eq (K : Type 0) : Type 0 where
  pub beq : K → K → Bool
  pub beq_iff : (a b : K) → (beq a b ≡ true) ↔ (a ≡ b)

abbrev nat_beq : ℕ → ℕ → Bool
nat_beq a b = a == b

instance abbrev pub nat_eq : Eq ℕ
nat_eq = record { beq = nat_beq; beq_iff = ==_iff }

instance abbrev pub bytes_key : Eq (List ℕ)
bytes_key = record { beq = bytes_eq; beq_iff = bytes_eq_iff }

module _ {K V : Type 0} ⦃e : Eq K⦄ where
  -- `m.find(k)`
  unfoldable pub lookup : K → List (K × V) → Option V
  lookup k [] = none
  lookup k ((j, v) ∷ m) = if e.beq j k then some v else lookup k m

  -- `m[k] = v`
  unfoldable pub insert : K → V → List (K × V) → List (K × V)
  insert k v [] = (k, v) ∷ []
  insert k v ((j, w) ∷ m) = if e.beq j k then (j, v) ∷ m else (j, w) ∷ insert k v m

  -- `m.erase(it)`, and nothing where the key is missing
  unfoldable pub erase : K → List (K × V) → List (K × V)
  erase k [] = []
  erase k ((j, w) ∷ m) = if e.beq j k then m else (j, w) ∷ erase k m

  -- A map holds each key once.
  abbrev pub IsUnique : List (K × V) → Type 0
  IsUnique [] = Unit
  IsUnique ((k, v) ∷ m) = (lookup k m ≡ none) × IsUnique m

  pub lookup-insert :
      (k j : K) (v : V) (m : List (K × V))
      → lookup j (insert k v m) ≡ (if e.beq k j then some v else lookup j m)
  unfolding lookup insert
  lookup-insert k j v [] = refl
  lookup-insert k j v ((i, w) ∷ m) =
      ground (arith, e.beq_iff k j, e.beq_iff i k, e.beq_iff i j, lookup-insert k j v m)

  pub lookup-erase_ne :
      (k j : K) (m : List (K × V)) → e.beq k j ≡ false → lookup j (erase k m) ≡ lookup j m
  unfolding lookup erase
  lookup-erase_ne k j [] h = refl
  lookup-erase_ne k j ((i, w) ∷ m) h =
      ground (arith, e.beq_iff k j, e.beq_iff i k, e.beq_iff i j, lookup-erase_ne k j m h)

  pub lookup-erase_self : (k : K) (m : List (K × V)) → IsUnique m → lookup k (erase k m) ≡ none
  unfolding lookup erase
  lookup-erase_self k [] h = refl
  lookup-erase_self k ((i, w) ∷ m) (fresh, h) =
      ground (arith, e.beq_iff i k, lookup-erase_self k m h)

  pub lookup-erase :
      (k j : K) (m : List (K × V))
      → IsUnique m
      → lookup j (erase k m) ≡ (if e.beq k j then none else lookup j m)
  lookup-erase k j m h = elim (Bool-cases (e.beq k j)) [
    | inl same ↦ rw same (rw (← (e.beq_iff k j).0 same) (lookup-erase_self k m h))
    | inr other ↦ rw other (lookup-erase_ne k j m other)
  ]

  pub insert-IsUnique : (k : K) (v : V) (m : List (K × V)) → IsUnique m → IsUnique (insert k v m)
  unfolding insert lookup
  insert-IsUnique k v [] h = (refl, tt)
  insert-IsUnique k v ((i, w) ∷ m) (fresh, h) = elim (Bool-cases (e.beq i k)) [
    | inl same ↦ rw same (fresh, h)
    | inr other ↦ rw other (
      ground (arith, lookup-insert k i v m, e.beq_iff i k, e.beq_iff k i),
      insert-IsUnique k v m h,
    )
  ]

  pub erase-IsUnique : (k : K) (m : List (K × V)) → IsUnique m → IsUnique (erase k m)
  unfolding erase lookup
  erase-IsUnique k [] h = tt
  erase-IsUnique k ((i, w) ∷ m) (fresh, h) = elim (Bool-cases (e.beq i k)) [
    | inl same ↦ rw same h
    | inr other ↦
        rw other (
          ground (arith, lookup-erase_ne k i m, e.beq_iff i k, e.beq_iff k i),
          erase-IsUnique k m h,
        )
  ]

-- A property of every value of a map.
abbrev pub Values : {K V : Type 0} → (V → Type 0) → List (K × V) → Type 0
Values P [] = Unit
Values P ((k, v) ∷ m) = P v × Values P m

module _ {K V : Type 0} ⦃e : Eq K⦄ (P : V → Type 0) where
  pub Values-insert :
      (k : K) (v : V) (m : List (K × V)) → P v → Values P m → Values P (insert k v m)
  unfolding insert
  Values-insert k v [] p h = (p, tt)
  Values-insert k v ((j, w) ∷ m) p h = elim (Bool-cases (e.beq j k)) [
    | inl same ↦ rw same (p, h.1)
    | inr other ↦ rw other (h.0, Values-insert k v m p h.1)
  ]

  pub Values-erase : (k : K) (m : List (K × V)) → Values P m → Values P (erase k m)
  unfolding erase
  Values-erase k [] h = tt
  Values-erase k ((j, w) ∷ m) h = elim (Bool-cases (e.beq j k)) [
    | inl same ↦ rw same h.1
    | inr other ↦ rw other (h.0, Values-erase k m h.1)
  ]

  pub Values-lookup : (k : K) (v : V) (m : List (K × V)) → Values P m → lookup k m ≡ some v → P v
  unfolding lookup
  Values-lookup k v [] h found = cc
  Values-lookup k v ((j, w) ∷ m) h found = elim (Bool-cases (e.beq j k)) [
    | inl same ↦ subst P (some-injective w v (rw same at found)) h.0
    | inr other ↦ Values-lookup k v m h.1 (rw other at found)
  ]
