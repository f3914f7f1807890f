-- ===== src/Http/Request/End.antt =====
-- `find("\r\n\r\n")` of `processConn` in src/engine/UvReactor.cpp.
use nitro_server.Base.{
  ℕ, ◌≡◌, refl, ap, ◌∙◌, Bool, true, false, ◌&&◌, Option, none, some, [], ◌∷◌, ◌++◌, if◌then◌else◌,
  ◌==◌, drop, arith, Bool-cases, Option-cases, inl, inr,
}
use nitro_server.Base.Text.{Bytes}
use nitro_server.Http.{crlf}
use nitro_server.Http.Crlf.{before_crlf}

unfoldable pub starts_end : Bytes → Bool
starts_end [] = false
starts_end (a ∷ []) = false
starts_end (a ∷ b ∷ []) = false
starts_end (a ∷ b ∷ c ∷ []) = false
starts_end (a ∷ b ∷ c ∷ d ∷ s) = (a == 0x0d && b == 0x0a) && (c == 0x0d && d == 0x0a)

-- What stands before the first empty line, and what follows it.
unfoldable pub find_end : Bytes → Option (Bytes × Bytes)
find_end [] = none
find_end (c ∷ s) =
    let rest = find_end s in if starts_end (c ∷ s) then some ([], drop 3 s) else before_crlf c rest

starts_end-append : (s t : Bytes) → starts_end s ≡ true → starts_end (s ++ t) ≡ true
unfolding starts_end
starts_end-append [] t h = cc
starts_end-append (a ∷ []) t h = cc
starts_end-append (a ∷ b ∷ []) t h = cc
starts_end-append (a ∷ b ∷ c ∷ []) t h = cc
starts_end-append (a ∷ b ∷ c ∷ d ∷ s) t h = h

starts_end-drop :
    (c : ℕ) (s t : Bytes) → starts_end (c ∷ s) ≡ true → drop 3 (s ++ t) ≡ drop 3 s ++ t
unfolding starts_end
starts_end-drop a [] t h = cc
starts_end-drop a (b ∷ []) t h = cc
starts_end-drop a (b ∷ c ∷ []) t h = cc
starts_end-drop a (b ∷ c ∷ d ∷ s) t h = refl

starts_end_lem :
    (c : ℕ) (s : Bytes) → starts_end (c ∷ s) ≡ true → c ∷ s ≡ crlf ++ (crlf ++ drop 3 s)
unfolding starts_end
starts_end_lem a [] h = cc
starts_end_lem a (b ∷ []) h = cc
starts_end_lem a (b ∷ c ∷ []) h = cc
starts_end_lem a (b ∷ c ∷ d ∷ s) h = ground arith

-- No end starts before the found one, even with more bytes behind.
find_end_fits :
    (s t head after : Bytes)
    → find_end s ≡ some (head, after)
    → (c : ℕ) → starts_end (c ∷ s) ≡ false
    → starts_end (c ∷ (s ++ t)) ≡ false
unfolding find_end starts_end
find_end_fits [] t head after e c f = cc
find_end_fits (d ∷ []) t head after e c f = cc
find_end_fits (d ∷ b ∷ []) t head after e c f = cc
find_end_fits (d ∷ b ∷ g ∷ s) t head after e c f = f

pub find_end-append :
    (s t head after : Bytes)
    → find_end s ≡ some (head, after)
    → find_end (s ++ t) ≡ some (head, after ++ t)
unfolding find_end
find_end-append [] t head after e = cc
find_end-append (c ∷ s) t head after e = elim (Bool-cases (starts_end (c ∷ s))) [
  | inl a ↦
      let same : ◌≡◌ {A = Option (Bytes × Bytes)} (some ([], drop 3 s)) (some (head, after)) =
        rw (find_end, a) at e in
      let nothing : head ≡ [] = cc in
      let left : after ≡ drop 3 s = cc in
      rw (find_end, starts_end-append (c ∷ s) t a, starts_end-drop c s t a, nothing, left) refl
  | inr a ↦ elim (Option-cases (find_end s)) [
    | inl b ↦ let clash = rw (find_end, a, b) at e in cc
    | inr ((h, l), b) ↦
        let same : ◌≡◌ {A = Option (Bytes × Bytes)} (some (c ∷ h, l)) (some (head, after)) =
          rw (find_end, a, b) at e in
        let start : head ≡ c ∷ h = cc in
        let left : after ≡ l = cc in
        rw (find_end, find_end_fits s t h l b c a, find_end-append s t h l b, start, left) refl
  ]
]

pub find_end_whole :
    (s head after : Bytes) → find_end s ≡ some (head, after) → s ≡ head ++ (crlf ++ (crlf ++ after))
unfolding find_end
find_end_whole [] head after e = cc
find_end_whole (c ∷ s) head after e = elim (Bool-cases (starts_end (c ∷ s))) [
  | inl a ↦
      let same : ◌≡◌ {A = Option (Bytes × Bytes)} (some ([], drop 3 s)) (some (head, after)) =
        rw (find_end, a) at e in
      let nothing : head ≡ [] = cc in
      let left : after ≡ drop 3 s = cc in starts_end_lem c s a ∙ rw (nothing, left) refl
  | inr a ↦ elim (Option-cases (find_end s)) [
    | inl b ↦ let clash = rw (find_end, a, b) at e in cc
    | inr ((h, l), b) ↦
        let same : ◌≡◌ {A = Option (Bytes × Bytes)} (some (c ∷ h, l)) (some (head, after)) =
          rw (find_end, a, b) at e in
        let start : head ≡ c ∷ h = cc in
        let left : after ≡ l = cc in
        ap (λ t. c ∷ t) (find_end_whole s h l b) ∙ rw (start, left) refl
  ]
]
