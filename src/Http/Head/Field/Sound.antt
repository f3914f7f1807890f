-- ===== src/Http/Head/Field/Sound.antt =====
-- What one field line that `parseHead` of src/engine/HttpParse.cpp accepts holds.
use nitro_server.Base.{
  ℕ, ◌≡◌, refl, sym, ap, subst, ◌∙◌, Bool, true, false, ◌&&◌, not, Option, some, [], ◌∷◌, ◌++◌,
  ◌==◌, all, arith, inl, inr, Bool-cases, Option-cases, &&-true,
}
use nitro_server.Base.Text.{Bytes}
use nitro_server.Ws.Utf8.{valid_utf8}
use nitro_server.Http.Fields.{Header, is_empty, is_blank, trim_front, trim_back, trim}
use nitro_server.Http.Head.Field.{
  cut, is_field_byte, starts_blank, ends_blank, is_ascii, name_value, parse_field,
}

-- Bytes of a subset stay in the pieces of a text.
module _ (p : ℕ → Bool) where
  all-trim_front : (s : Bytes) → all p s ≡ true → all p (trim_front s) ≡ true
  unfolding trim_front
  all-trim_front [] h = refl
  all-trim_front (c ∷ s) h =
      let (one, rest) = &&-true (p c) (all p s) h in
      elim (Bool-cases (is_blank c)) [
        | inl e ↦ rw (trim_front, e) (all-trim_front s rest)
        | inr e ↦ rw (trim_front, e) h
      ]

  all-trim_back : (s : Bytes) → all p s ≡ true → all p (trim_back s) ≡ true
  unfolding trim_back
  all-trim_back [] h = refl
  all-trim_back (c ∷ s) h =
      let (one, rest) = &&-true (p c) (all p s) h in
      elim (Bool-cases (is_empty (trim_back s) && is_blank c)) [
        | inl e ↦ rw (trim_back, e) refl
        | inr e ↦ rw (trim_back, e, one) (all-trim_back s rest)
      ]

  all-trim : (s : Bytes) → all p s ≡ true → all p (trim s) ≡ true
  unfolding trim
  all-trim s h = all-trim_back (trim_front s) (all-trim_front s h)

pub data IsCut (mark : ℕ) (s before after : Bytes) : Type 0 where
  cut_here :
      s ≡ before ++ (mark ∷ after)
      → all (λ c. not (c == mark)) before ≡ true
      → IsCut mark s before after

pub cut-IsCut :
    (mark : ℕ) (s before after : Bytes)
    → cut mark s ≡ some (before, after)
    → IsCut mark s before after
unfolding cut
cut-IsCut mark [] before after e = cc
cut-IsCut mark (c ∷ s) before after e = elim (Bool-cases (c == mark)) [
  | inl f ↦
      let same : ◌≡◌ {A = Option (Bytes × Bytes)} (some ([], s)) (some (before, after)) =
        rw (f, cut) at e in
      let nothing : before ≡ [] = cc in
      let left : after ≡ s = cc in
      let here : c ≡ mark = ground arith in rw (nothing, left, here) (cut_here refl refl)
  | inr f ↦ elim (Option-cases (cut mark s)) [
    | inl g ↦ let clash = rw (f, cut, g) at e in cc
    | inr ((b, a), g) ↦
        let same : ◌≡◌ {A = Option (Bytes × Bytes)} (some (c ∷ b, a)) (some (before, after)) =
          rw (f, cut, g) at e in
        let nothing : before ≡ c ∷ b = cc in
        let left : after ≡ a = cc in
        elim (cut-IsCut mark s b a g) [
          | cut_here whole free ↦
              rw (nothing, left) (cut_here (ap (λ t. c ∷ t) whole) (ground (arith, f, free)))
        ]
  ]
]

pub all-append :
    (p : ℕ → Bool) (s t : Bytes) → all p (s ++ t) ≡ true → (all p s ≡ true) × (all p t ≡ true)
all-append p [] t h = (refl, h)
all-append p (c ∷ s) t h =
    let (one, rest) = &&-true (p c) (all p (s ++ t)) h in
    let (left, right) = all-append p s t rest in (rw (one, left) refl, right)

-- A header that may be handed to a handler.
pub record IsHeader (h : Header) : Type 0 where
  pub named : is_empty h.0 ≡ false
  pub name_bytes : all is_field_byte h.0 ≡ true
  pub name_ascii : is_ascii h.0 ≡ true
  pub name_free : all (λ c. not (c == b':')) h.0 ≡ true
  pub name_front : starts_blank h.0 ≡ false
  pub name_back : ends_blank h.0 ≡ false
  pub value_bytes : all is_field_byte h.1 ≡ true
  pub value_text : valid_utf8 h.1 ≡ true

pub starts_blank-append :
    (s t : Bytes) → is_empty s ≡ false → starts_blank (s ++ t) ≡ starts_blank s
unfolding starts_blank
starts_blank-append [] t e = cc
starts_blank-append (c ∷ s) t e = refl

name_value-IsHeader :
    (name after : Bytes) (h : Header)
    → all is_field_byte name ≡ true
    → all (λ c. not (c == b':')) name ≡ true
    → all is_field_byte after ≡ true
    → (is_empty name ≡ false → starts_blank name ≡ false)
    → name_value name after ≡ some h
    → IsHeader h
unfolding name_value
name_value-IsHeader name after h nb nf ab front e = elim (Bool-cases (is_empty name)) [
  | inl a ↦ let clash = rw (a, name_value) at e in cc
  | inr a ↦ elim (Bool-cases (ends_blank name)) [
    | inl b ↦ let clash = rw (a, b, name_value) at e in cc
    | inr b ↦ elim (Bool-cases (valid_utf8 (trim after))) [
      | inr c ↦ let clash = rw (a, b, c, name_value) at e in cc
      | inl c ↦ elim (Bool-cases (is_ascii name)) [
        | inr d ↦ let clash = rw (a, b, c, d, name_value) at e in cc
        | inl d ↦
            let same : ◌≡◌ {A = Option Header} (some (name, trim after)) (some h) =
              rw (a, b, c, d, name_value) at e in
            let is : ◌≡◌ {A = Header} (name, trim after) h = cc in
            subst IsHeader is (record {
              named = a;
              name_bytes = nb;
              name_ascii = d;
              name_free = nf;
              name_front = front a;
              name_back = b;
              value_bytes = all-trim is_field_byte after ab;
              value_text = c;
            })
      ]
    ]
  ]
]

pub parse_field-IsHeader : (line : Bytes) (h : Header) → parse_field line ≡ some h → IsHeader h
unfolding parse_field
parse_field-IsHeader line h e = elim (Bool-cases (all is_field_byte line)) [
  | inr a ↦ let clash = rw (a, parse_field) at e in cc
  | inl a ↦ elim (Bool-cases (starts_blank line)) [
    | inl b ↦ let clash = rw (a, b, parse_field) at e in cc
    | inr b ↦ elim (Option-cases (cut b':' line)) [
      | inl c ↦ let clash = rw (a, b, c, parse_field) at e in cc
      | inr ((name, after), c) ↦ elim (cut-IsCut b':' line name after c) [
        | cut_here whole free ↦
            let (nb, ab) = all-append is_field_byte name (b':' ∷ after) (rw whole at a) in
            name_value-IsHeader name after h nb free (&&-true _ _ ab).1
              (λ n. sym (starts_blank-append name (b':' ∷ after) n) ∙ rw whole at b)
              (rw (a, b, c, parse_field) at e)
      ]
    ]
  ]
]
