-- ===== src/Http/Upgrade/Offer.antt =====
-- What the tests of `wsHandshake` of src/engine/UvReactor.cpp say of the key, the version and the
-- extensions that a client sends.
use nitro_server.Base.{
  ℕ, zero, suc, ◌+◌, ◌≤◌, ◌≡◌, ◌⊎◌, inl, inr, refl, sym, ap, ◌∙◌, Bool, true, false, Option, none,
  some, [], ◌∷◌, ◌++◌, ◌==◌, bytes_eq, bytes_eq→eq, bytes_eq_refl, take-append, take-append-drop,
  length, take, drop, get_or, arith, all, All, Bool-cases, &&-true,
}
use mathlib.Core.Option.{some-injective}
use nitro_server.Base.Text.{Bytes, codes}
use nitro_server.Http.Fields.{is_empty, trim, contains}
use nitro_server.Http.Upgrade.{is_base64_byte, valid_key, takes_deflate, is_13}

-- A to Z, a to z, 0 to 9, `+` and `/`.
abbrev pub IsBase64Char : ℕ → Type 0
IsBase64Char c =
    ((b'A' ≤ c) × (c ≤ b'Z'))
    ⊎ (((b'a' ≤ c) × (c ≤ b'z')) ⊎ (((b'0' ≤ c) × (c ≤ b'9')) ⊎ ((c ≡ b'+') ⊎ (c ≡ b'/'))))

-- The base64 text of sixteen bytes: 22 characters and the padding.
abbrev pub IsKeyText : Bytes → Type 0
IsKeyText key =
    (digits : Bytes) × (key ≡ digits ++ codes "==") × (length digits ≡ 22) × All IsBase64Char digits

-- A text that stands somewhere in another.
abbrev pub IsInfix : Bytes → Bytes → Type 0
IsInfix needle text = (before : Bytes) × (after : Bytes) × (text ≡ before ++ (needle ++ after))

is_base64_byte-IsBase64Char : (c : ℕ) → is_base64_byte c ≡ true → IsBase64Char c
unfolding is_base64_byte
is_base64_byte-IsBase64Char c h = ground arith

all-IsBase64Char : (s : Bytes) → all is_base64_byte s ≡ true → All IsBase64Char s
all-IsBase64Char [] h = tt
all-IsBase64Char (c ∷ s) h =
    let (one, more) = &&-true (is_base64_byte c) (all is_base64_byte s) h in
    (is_base64_byte-IsBase64Char c one, all-IsBase64Char s more)

-- A text of `n` bytes and two more.
take_two :
    (n : ℕ) (s : Bytes)
    → length s ≡ n + 2
    → (s ≡ take n s ++ (get_or s n 0 ∷ get_or s (n + 1) 0 ∷ [])) × (length (take n s) ≡ n)
take_two zero [] h = absurd (omega (arith, h))
take_two zero (a ∷ []) h = absurd (omega (arith, h))
take_two zero (a ∷ b ∷ []) h = (refl, refl)
take_two zero (a ∷ b ∷ c ∷ s) h = absurd (omega (arith, h))
take_two (suc n) [] h = absurd (omega (arith, h))
take_two (suc n) (a ∷ s) h =
    let (whole, long) = take_two n s (omega (arith, h)) in
    let moved : suc n + 1 ≡ suc (n + 1) = omega arith in
    (rw moved (ap (λ t. a ∷ t) whole), omega (arith, long))

pub valid_key-IsKeyText : (key : Bytes) → valid_key key ≡ true → IsKeyText key
unfolding valid_key
valid_key-IsKeyText key h =
    let (ends, inner) = &&-true _ (all is_base64_byte (take 22 key)) h in
    let (front, second) = &&-true _ (get_or key 23 0 == b'=') ends in
    let (e, first) = &&-true (length key == 24) (get_or key 22 0 == b'=') front in
    let long : length key ≡ 24 = ground (arith, e) in
    let one : get_or key 22 0 ≡ b'=' = ground (arith, first) in
    let two : get_or key 23 0 ≡ b'=' = ground (arith, second) in
    let (whole, short) = take_two 22 key long in
    let padded : take 22 key ++ (get_or key 22 0 ∷ get_or key 23 0 ∷ [])
        ≡ take 22 key ++ codes "==" =
      rw (one, two) refl in
    (take 22 key, whole ∙ padded, short, all-IsBase64Char (take 22 key) inner)

pub is_13-some :
    (o : Option Bytes) → is_13 o ≡ true → (ver : Bytes) × (o ≡ some ver) × (trim ver ≡ codes "13")
is_13-some none h = absurd cc
is_13-some (some ver) h = (ver, refl, bytes_eq→eq (trim ver) (codes "13") h)

is_empty_lem : (s : Bytes) → is_empty s ≡ true → s ≡ []
is_empty_lem [] h = refl
is_empty_lem (c ∷ s) h = absurd cc

pub contains-IsInfix : (s needle : Bytes) → contains s needle ≡ true → IsInfix needle s
unfolding contains
contains-IsInfix [] needle h = ([], [], rw (is_empty_lem needle h) refl)
contains-IsInfix (c ∷ s) needle h =
    elim (Bool-cases (bytes_eq (take (length needle) (c ∷ s)) needle)) [
      | inl e ↦
          let same = bytes_eq→eq (take (length needle) (c ∷ s)) needle e in
          let after = drop (length needle) (c ∷ s) in
          ([], after, sym (take-append-drop (length needle) (c ∷ s)) ∙ ap (λ t. t ++ after) same)
      | inr e ↦
          let (before, after, whole) = contains-IsInfix s needle (rw (contains, e) at h) in
          (c ∷ before, after, ap (λ t. c ∷ t) whole)
    ]

contains_here : (needle after : Bytes) → contains (needle ++ after) needle ≡ true
unfolding contains bytes_eq
contains_here [] [] = refl
contains_here [] (c ∷ after) = refl
contains_here (c ∷ needle) after =
    rw (take-append needle after, bytes_eq_refl needle) (ground arith)

contains_there :
    (before needle after : Bytes) → contains (before ++ (needle ++ after)) needle ≡ true
unfolding contains
contains_there [] needle after = contains_here needle after
contains_there (c ∷ before) needle after = ground (arith, contains_there before needle after)

-- Compression is on exactly where the server has it on and the client offers it by name.
pub record IsCompressed (compression : Bool) (offer : Option Bytes) (deflate : Bool) : Type 0 where
  pub asked :
      deflate ≡ true
      → (compression ≡ true)
        × ((ext : Bytes) × ((offer ≡ some ext) × IsInfix (codes "permessage-deflate") ext))
  pub granted :
      (ext : Bytes)
      → compression ≡ true
      → offer ≡ some ext
      → IsInfix (codes "permessage-deflate") ext
      → deflate ≡ true

pub takes_deflate-IsCompressed :
    (compression : Bool) (offer : Option Bytes)
    → IsCompressed compression offer (takes_deflate compression offer)
unfolding takes_deflate
takes_deflate-IsCompressed compression none = record {
  asked = λ e. absurd cc;
  granted = λ ext on same is. absurd cc;
}
takes_deflate-IsCompressed false (some ext) = record {
  asked = λ e. absurd cc;
  granted = λ ext on same is. absurd cc;
}
takes_deflate-IsCompressed true (some ext) = record {
  asked = λ e. (refl, (ext, (refl, contains-IsInfix ext (codes "permessage-deflate") e)));
  granted = λ other on same (before, after, whole).
      let back : ext ≡ before ++ (codes "permessage-deflate" ++ after) =
        some-injective ext other same ∙ whole in
      rw back (contains_there before (codes "permessage-deflate") after);
}
