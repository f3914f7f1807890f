-- ===== src/Http/Crlf.antt =====
-- `find("\r\n", pos)` of src/engine/UvReactor.cpp and src/engine/HttpParse.cpp, on the bytes from
-- `pos` on.
use nitro_server.Base.{
  ℕ, ◌≡◌, refl, ap, ◌∙◌, Bool, true, false, ◌&&◌, not, Option, none, some, [], ◌∷◌, ◌++◌,
  if◌then◌else◌, ◌==◌, all, drop, arith, Bool-cases, Option-cases, inl, inr,
}
use nitro_server.Base.Text.{Bytes}
use nitro_server.Http.{crlf}

unfoldable pub starts_crlf : Bytes → Bool
starts_crlf [] = false
starts_crlf (c ∷ []) = false
starts_crlf (c ∷ d ∷ s) = c == 0x0d && d == 0x0a

abbrev pub before_crlf : ℕ → Option (Bytes × Bytes) → Option (Bytes × Bytes)
before_crlf c none = none
before_crlf c (some (line, after)) = some (c ∷ line, after)

-- What stands before the first CRLF and what follows it.
unfoldable pub find_crlf : Bytes → Option (Bytes × Bytes)
find_crlf [] = none
find_crlf (c ∷ s) =
    let rest = find_crlf s in
    if starts_crlf (c ∷ s) then some ([], drop 1 s) else before_crlf c rest

abbrev pub no_cr : Bytes → Bool
no_cr s = all (λ c. not (c == 0x0d)) s

pub starts_crlf-append : (s t : Bytes) → starts_crlf s ≡ true → starts_crlf (s ++ t) ≡ true
unfolding starts_crlf
starts_crlf-append [] t h = cc
starts_crlf-append (c ∷ []) t h = cc
starts_crlf-append (c ∷ d ∷ s) t h = h

-- A line with no CR is found whole.
pub find_crlf_back :
    (line after : Bytes)
    → no_cr line ≡ true
    → find_crlf (line ++ (crlf ++ after)) ≡ some (line, after)
unfolding find_crlf starts_crlf
find_crlf_back [] after h = refl
find_crlf_back (c ∷ []) after h = ground arith
find_crlf_back (c ∷ d ∷ line) after h = ground (arith, find_crlf_back (d ∷ line) after)

-- A found line, taken apart by its first byte.
data IsFound (c : ℕ) (s line after : Bytes) : Type 0 where
  at_once : starts_crlf (c ∷ s) ≡ true → line ≡ [] → after ≡ drop 1 s → IsFound c s line after
  later :
      (l : Bytes)
      → starts_crlf (c ∷ s) ≡ false
      → find_crlf s ≡ some (l, after)
      → line ≡ c ∷ l
      → IsFound c s line after

find_crlf-IsFound :
    (c : ℕ) (s line after : Bytes) → find_crlf (c ∷ s) ≡ some (line, after) → IsFound c s line after
unfolding find_crlf
find_crlf-IsFound c s line after h = elim (Bool-cases (starts_crlf (c ∷ s))) [
  | inl e ↦
      let same : some ([], drop 1 s) ≡ some (line, after) = rw (e, find_crlf) at h in
      at_once e (cc) (cc)
  | inr e ↦ elim (Option-cases (find_crlf s)) [
    | inl f ↦ let clash : none ≡ some (line, after) = rw (e, find_crlf, f) at h in cc
    | inr ((l, a), f) ↦
        let same : some (c ∷ l, a) ≡ some (line, after) = rw (e, find_crlf, f) at h in
        let there : a ≡ after = cc in later l e (f ∙ rw there refl) (cc)
  ]
]

starts_crlf_lem : (c : ℕ) (s : Bytes) → starts_crlf (c ∷ s) ≡ true → c ∷ s ≡ crlf ++ drop 1 s
unfolding starts_crlf
starts_crlf_lem c [] h = cc
starts_crlf_lem c (d ∷ s) h = ground arith

starts_crlf-stays :
    (c d : ℕ) (s t : Bytes)
    → starts_crlf (c ∷ d ∷ s) ≡ false
    → starts_crlf (c ∷ d ∷ (s ++ t)) ≡ false
unfolding starts_crlf
starts_crlf-stays c d s t h = h

-- What is found stands in the text.
pub find_crlf_whole :
    (s line after : Bytes) → find_crlf s ≡ some (line, after) → s ≡ line ++ (crlf ++ after)
find_crlf_whole [] line after h = unfold find_crlf in cc
find_crlf_whole (c ∷ s) line after h = elim (find_crlf-IsFound c s line after h) [
  | at_once e l a ↦ starts_crlf_lem c s e ∙ rw (l, a) refl
  | later l e f whole ↦ ap (λ t. c ∷ t) (find_crlf_whole s l after f) ∙ rw whole refl
]

find_crlf_later :
    (c : ℕ) (s line after : Bytes)
    → starts_crlf (c ∷ s) ≡ false
    → find_crlf s ≡ some (line, after)
    → find_crlf (c ∷ s) ≡ some (c ∷ line, after)
unfolding find_crlf
find_crlf_later c s line after e f = rw (e, f) refl

-- The bytes that follow do not change what is found.
pub find_crlf-append :
    (s t line after : Bytes)
    → find_crlf s ≡ some (line, after)
    → find_crlf (s ++ t) ≡ some (line, after ++ t)
find_crlf-append [] t line after h = unfold find_crlf in cc
find_crlf-append (c ∷ []) t line after h = unfold find_crlf starts_crlf in cc
find_crlf-append (c ∷ d ∷ s) t line after h = elim (find_crlf-IsFound c (d ∷ s) line after h) [
  | at_once e l a ↦ unfold find_crlf in rw (starts_crlf-append (c ∷ d ∷ s) t e, l, a) refl
  | later l e f whole ↦
      let more = find_crlf-append (d ∷ s) t l after f in
      find_crlf_later c (d ∷ (s ++ t)) l (after ++ t) (starts_crlf-stays c d s t e) more
      ∙ rw whole refl
]
