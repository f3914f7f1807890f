-- ===== src/Http/Head/Field/Form.antt =====
-- What one field of a head that `parseHead` of src/engine/HttpParse.cpp accepts looks like.
use nitro_server.Base.{
  ℕ, ◌<◌, ◌≤◌, ◌≡◌, ◌≢◌, ◌⊎◌, refl, sym, ap, ◌∙◌, true, false, not, [], ◌∷◌, ◌++◌, ◌==◌, all, All,
  arith, inl, inr, &&-true,
}
use nitro_server.Base.Text.{Bytes}
use nitro_server.Ws.Utf8.{valid_utf8}
use nitro_server.Http.Fields.{Header, is_empty, is_blank}
use nitro_server.Http.Head.Field.{is_field_byte, starts_blank, ends_blank, is_ascii}
use nitro_server.Http.Head.Field.Sound.{IsHeader}

-- The tab, or a byte from the space on.
abbrev pub IsFieldByte : ℕ → Type 0
IsFieldByte c = (c ≡ 0x09) ⊎ (0x20 ≤ c)

abbrev pub IsNameByte : ℕ → Type 0
IsNameByte c = IsFieldByte c × (c < 0x80) × (c ≢ 0x3a)

abbrev pub IsBlank : ℕ → Type 0
IsBlank c = (c ≡ 0x20) ⊎ (c ≡ 0x09)

-- A field with a name and a value that may be handed to a handler.
pub record IsField (h : Header) : Type 0 where
  pub named : h.0 ≢ []
  pub name_bytes : All IsNameByte h.0
  pub name_front : (c : ℕ) (s : Bytes) → h.0 ≡ c ∷ s → ¬ IsBlank c
  pub name_back : (c : ℕ) (s : Bytes) → h.0 ≡ s ++ (c ∷ []) → ¬ IsBlank c
  pub value_bytes : All IsFieldByte h.1
  pub value_text : valid_utf8 h.1 ≡ true

is_field_byte-IsFieldByte : (c : ℕ) → is_field_byte c ≡ true → IsFieldByte c
unfolding is_field_byte
is_field_byte-IsFieldByte c h = ground arith

all-IsFieldByte : (s : Bytes) → all is_field_byte s ≡ true → All IsFieldByte s
all-IsFieldByte [] h = tt
all-IsFieldByte (c ∷ s) h =
    let (one, more) = &&-true (is_field_byte c) (all is_field_byte s) h in
    (is_field_byte-IsFieldByte c one, all-IsFieldByte s more)

all-IsNameByte :
    (s : Bytes)
    → all is_field_byte s ≡ true
    → is_ascii s ≡ true
    → all (λ c. not (c == b':')) s ≡ true
    → All IsNameByte s
unfolding is_ascii
all-IsNameByte [] h a f = tt
all-IsNameByte (c ∷ s) h a f =
    let (one, more) = &&-true (is_field_byte c) (all is_field_byte s) h in
    let (low, lows) = &&-true _ (is_ascii s) a in
    let (free, frees) = &&-true (not (c == b':')) _ f in
    (
      (is_field_byte-IsFieldByte c one, ground (arith, low), ground (arith, free)),
      all-IsNameByte s more lows frees,
    )

not-IsBlank : (c : ℕ) → is_blank c ≡ false → ¬ IsBlank c
not-IsBlank c h (inl e) = ground arith
not-IsBlank c h (inr e) = ground arith

starts_blank-IsBlank : (c : ℕ) (s : Bytes) → starts_blank (c ∷ s) ≡ false → ¬ IsBlank c
unfolding starts_blank
starts_blank-IsBlank c s h = not-IsBlank c h

ends_blank_last : (c : ℕ) (s : Bytes) → ends_blank (s ++ (c ∷ [])) ≡ is_blank c
unfolding ends_blank
ends_blank_last c [] = refl
ends_blank_last c (d ∷ []) = refl
ends_blank_last c (d ∷ e ∷ s) = ends_blank_last c (e ∷ s)

pub IsHeader-IsField : (h : Header) → IsHeader h → IsField h
IsHeader-IsField h k = record {
  named = λ e. let clash : is_empty [] ≡ false = rw e at k.named in cc;
  name_bytes = all-IsNameByte h.0 k.name_bytes k.name_ascii k.name_free;
  name_front = λ c s e. starts_blank-IsBlank c s (rw e at k.name_front);
  name_back =
      λ c s e. not-IsBlank c (sym (ends_blank_last c s) ∙ ap ends_blank (sym e) ∙ k.name_back);
  value_bytes = all-IsFieldByte h.1 k.value_bytes;
  value_text = k.value_text;
}
