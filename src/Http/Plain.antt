-- ===== src/Http/Plain.antt =====
-- Texts within one line: what the checks of src/engine/UvReactor.cpp on field names and values let
-- through, numbers and reason phrases.
use nitro_server.Base.{
  ℕ, ◌^◌, ◌<◌, ◌≡◌, refl, sym, ◌∙◌, Bool, true, false, ◌&&◌, not, List, [], ◌∷◌, ◌++◌, ◌==◌, leb,
  all, All, arith, Bool-cases, inl, inr,
}
use nitro_server.Base.Text.{Bytes}
use nitro_server.Json.{int_text}
use nitro_server.Json.Integer.{IsDigit, int_text-IsDecimalOf}
use nitro_server.Http.Reason.{reason_in}
use nitro_server.Http.{is_token_byte, is_token, is_safe_byte, is_safe_value}

-- A byte that ends no line, and a text within one line.
abbrev plain_byte : ℕ → Bool
plain_byte c = not (c == 0x0d) && not (c == 0x0a)

abbrev pub plain : Bytes → Bool
plain s = all plain_byte s

pub plain-append : (s t : Bytes) → plain s ≡ true → plain t ≡ true → plain (s ++ t) ≡ true
plain-append [] t h k = k
plain-append (c ∷ s) t h k = ground (arith, plain-append s t)

pub safe-plain : (s : Bytes) → is_safe_value s ≡ true → plain s ≡ true
unfolding is_safe_value is_safe_byte
safe-plain [] h = refl
safe-plain (c ∷ s) h = ground (arith, safe-plain s)

token_byte-plain : (c : ℕ) → is_token_byte c ≡ true → plain_byte c ≡ true
token_byte-plain c h =
    let no_cr : is_token_byte 0x0d ≡ false = unfold is_token_byte in refl in
    let no_lf : is_token_byte 0x0a ≡ false = unfold is_token_byte in refl in
    elim (Bool-cases (c == 0x0d)) [
      | inl e ↦
          let cr : c ≡ 0x0d = ground arith in
          let clash : true ≡ false = sym (rw cr at h) ∙ no_cr in cc
      | inr e ↦ elim (Bool-cases (c == 0x0a)) [
        | inl f ↦
            let lf : c ≡ 0x0a = ground arith in
            let clash : true ≡ false = sym (rw lf at h) ∙ no_lf in cc
        | inr f ↦ rw (e, f) refl
      ]
    ]

token_bytes-plain : (s : Bytes) → all is_token_byte s ≡ true → plain s ≡ true
token_bytes-plain [] h = refl
token_bytes-plain (c ∷ s) h = ground (arith, token_byte-plain c, token_bytes-plain s)

pub token-plain : (s : Bytes) → is_token s ≡ true → plain s ≡ true
unfolding is_token
token-plain [] h = cc
token-plain (c ∷ s) h = token_bytes-plain (c ∷ s) h

digits-plain : (s : Bytes) → All IsDigit s → plain s ≡ true
digits-plain [] h = refl
digits-plain (c ∷ s) (d, h) = ground (arith, d, digits-plain s h)

pub int_text-plain : (v : ℕ) → v < 2 ^ 63 → plain (int_text v) ≡ true
int_text-plain v h =
    let d = int_text-IsDecimalOf v (omega (arith, h)) in
    rw d.signed (elim (Bool-cases (leb (2 ^ 63) v)) [
      | inl e ↦ rw e (digits-plain d.digits d.only_digits)
      | inr e ↦ rw e (digits-plain d.digits d.only_digits)
    ])

pub reason-plain :
    (m : List (ℕ × Bytes)) (status : ℕ)
    → all (λ e. plain e.1) m ≡ true
    → plain (reason_in m status) ≡ true
unfolding reason_in
reason-plain [] status h = ground arith
reason-plain ((code, phrase) ∷ m) status h = elim (Bool-cases (status == code)) [
  | inl e ↦ rw (reason_in, e) (ground arith)
  | inr e ↦ rw (reason_in, e) (reason-plain m status (ground arith))
]
