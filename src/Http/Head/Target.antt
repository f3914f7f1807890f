-- ===== src/Http/Head/Target.antt =====
-- The targets that `parseHead` of src/engine/HttpParse.cpp accepts.
use nitro_server.Base.{
  ℕ, zero, suc, ◌≡◌, ◌<◌, refl, ap, subst, Bool, true, ◌&&◌, Option, some, [], ◌∷◌, ltb, ◌==◌,
  bytes_eq, bytes_eq→eq, take, drop, all, All, arith, ◌⊎◌, inl, inr, Bool-cases, &&-true,
}
use nitro_server.Base.Text.{Bytes, codes}
use nitro_server.Http.Head.{after_scheme, from_slash, is_absolute, starts_slash, reduce_target}

unfoldable pub is_visible : ℕ → Bool
is_visible c = ltb 0x20 c && ltb c 0x7f

-- A target that a route can be looked up by.
abbrev pub IsTarget : Bytes → Type 0
IsTarget target =
    ((starts_slash target ≡ true) ⊎ (target ≡ codes "*")) × (all is_visible target ≡ true)

-- The same apart from the parser's tests: `*`, or a slash and more, and visible ASCII.
abbrev pub IsRoutable : Bytes → Type 0
IsRoutable target =
    (((path : Bytes) × (target ≡ b'/' ∷ path)) ⊎ (target ≡ codes "*"))
    × All (λ c. (0x20 < c) × (c < 0x7f)) target

all-is_visible : (s : Bytes) → all is_visible s ≡ true → All (λ c. (0x20 < c) × (c < 0x7f)) s
unfolding is_visible
all-is_visible [] h = tt
all-is_visible (c ∷ s) h =
    let (one, more) = &&-true (is_visible c) (all is_visible s) h in
    ((ground (arith, one), ground (arith, one)), all-is_visible s more)

starts_slash_lem : (s : Bytes) → starts_slash s ≡ true → (path : Bytes) × (s ≡ b'/' ∷ path)
starts_slash_lem [] h = absurd cc
starts_slash_lem (c ∷ s) h = let is : c ≡ b'/' = ground (arith, h) in (s, ap (λ x. x ∷ s) is)

pub IsTarget-IsRoutable : (target : Bytes) → IsTarget target → IsRoutable target
IsTarget-IsRoutable target (inl e, h) = (inl (starts_slash_lem target e), all-is_visible target h)
IsTarget-IsRoutable target (inr e, h) = (inr e, all-is_visible target h)

from_slash-IsTarget : (s : Bytes) → all is_visible s ≡ true → IsTarget (from_slash s)
unfolding from_slash is_visible
from_slash-IsTarget [] h = (inl refl, refl)
from_slash-IsTarget (c ∷ s) h =
    let (one, rest) = &&-true (is_visible c) (all is_visible s) h in
    elim (Bool-cases (c == b'/')) [
      | inl e ↦ rw (from_slash, e) (inl e, h)
      | inr e ↦ rw (from_slash, e) (from_slash-IsTarget s rest)
    ]

all-drop : (p : ℕ → Bool) (n : ℕ) (s : Bytes) → all p s ≡ true → all p (drop n s) ≡ true
all-drop p zero s h = h
all-drop p (suc n) [] h = h
all-drop p (suc n) (c ∷ s) h = all-drop p n s (&&-true (p c) (all p s) h).1

all-after_scheme : (p : ℕ → Bool) (s : Bytes) → all p s ≡ true → all p (after_scheme s) ≡ true
unfolding after_scheme
all-after_scheme p [] h = refl
all-after_scheme p (c ∷ s) h = elim (Bool-cases (bytes_eq (take 3 (c ∷ s)) (codes "://"))) [
  | inl e ↦ rw (after_scheme, e) (all-drop p 3 (c ∷ s) h)
  | inr e ↦ rw (after_scheme, e) (all-after_scheme p s (&&-true (p c) (all p s) h).1)
]

pub reduce_target-IsTarget :
    (target t : Bytes) → all is_visible target ≡ true → reduce_target target ≡ some t → IsTarget t
unfolding reduce_target
reduce_target-IsTarget target t h e = elim (Bool-cases (is_absolute target)) [
  | inl a ↦
      let same : ◌≡◌ {A = Option Bytes} (some (from_slash (after_scheme target))) (some t) =
        rw (reduce_target, a) at e in
      let is : from_slash (after_scheme target) ≡ t = cc in
      subst IsTarget is
        (from_slash-IsTarget (after_scheme target) (all-after_scheme is_visible target h))
  | inr a ↦ elim (Bool-cases (starts_slash target)) [
    | inl b ↦
        let same : ◌≡◌ {A = Option Bytes} (some target) (some t) = rw (reduce_target, a, b) at e in
        let is : target ≡ t = cc in subst IsTarget is (inl b, h)
    | inr b ↦ elim (Bool-cases (bytes_eq target (codes "*"))) [
      | inl c ↦
          let same : ◌≡◌ {A = Option Bytes} (some target) (some t) =
            rw (reduce_target, a, b, c) at e in
          let is : target ≡ t = cc in subst IsTarget is (inr (bytes_eq→eq target (codes "*") c), h)
      | inr c ↦ let clash = rw (reduce_target, a, b, c) at e in cc
    ]
  ]
]
