-- ===== src/Proxy/Stable.antt =====
-- What `uvParseProxyHeader` of src/engine/UvReactor.cpp decides does not depend on how the bytes arrive.
use nitro_server.Base.{
  ℕ, zero, suc, ◌+◌, ◌≤◌, ◌≡◌, inl, inr, refl, sym, ap, ◌∙◌, Bool, true, false, ◌&&◌, not, Option,
  none, some, [], ◌∷◌, ◌++◌, ltb, leb, ◌==◌, bytes_eq, bytes_eq_iff, length, take, drop, get_or,
  bit_and, length-append, take-append_le, drop-append_le, get_or-append_lt, length-drop, take_all,
  arith, Bool-cases, Option-cases,
}
use nitro_server.Base.Text.{Bytes}
use nitro_server.Http.Crlf.{find_crlf, find_crlf-append, starts_crlf}
use nitro_server.Proxy.{
  Parsed, more, Family, signature, v1_start, v2_length, parse_v2, v1_line, parse_v1, parse_proxy,
}

-- A CRLF that only more bytes complete stands at the end of those that were there.
find_crlf-late :
    (s t line after : Bytes)
    → find_crlf s ≡ none
    → find_crlf (s ++ t) ≡ some (line, after)
    → length s ≤ length line + 1
unfolding find_crlf starts_crlf
find_crlf-late [] t line after h k = omega arith
find_crlf-late (c ∷ []) t line after h k = omega arith
find_crlf-late (c ∷ d ∷ s) t line after h k = elim (Option-cases (find_crlf ((d ∷ s) ++ t))) [
  | inl e ↦ ground (arith, e, h, k)
  | inr ((l, a), e) ↦ let ih = find_crlf-late (d ∷ s) t l a in ground (arith, e, h, k, ih)
]

-- Texts that agree as far as both go agree before more bytes came.
agree-append :
    (p s t : Bytes)
    → take (length p) (s ++ t) ≡ take (length (s ++ t)) p
    → take (length p) s ≡ take (length s) p
agree-append [] [] t h = refl
agree-append [] (c ∷ s) t h = refl
agree-append (d ∷ p) [] t h = refl
agree-append (d ∷ p) (c ∷ s) t h =
    let first : c ≡ d = cc in
    let rest : take (length p) (s ++ t) ≡ take (length (s ++ t)) p = cc in
    rw (first, agree-append p s t rest) refl

prefix-append : (p s t : Bytes) → s ++ t ≡ take (length (s ++ t)) p → s ≡ take (length s) p
prefix-append p [] t h = refl
prefix-append [] (c ∷ s) t h = cc
prefix-append (d ∷ p) (c ∷ s) t h =
    let first : c ≡ d = cc in
    let rest : s ++ t ≡ take (length (s ++ t)) p = cc in rw (first, ← prefix-append p s t rest) refl

start_has_no_crlf : (n : ℕ) → find_crlf (take n v1_start) ≡ none
unfolding find_crlf starts_crlf
start_has_no_crlf zero = refl
start_has_no_crlf (suc zero) = refl
start_has_no_crlf (suc (suc zero)) = refl
start_has_no_crlf (suc (suc (suc zero))) = refl
start_has_no_crlf (suc (suc (suc (suc zero)))) = refl
start_has_no_crlf (suc (suc (suc (suc (suc zero))))) = refl
start_has_no_crlf (suc (suc (suc (suc (suc (suc zero)))))) = refl
start_has_no_crlf (suc (suc (suc (suc (suc (suc (suc n))))))) = refl

whole_start : (n : ℕ) → 6 ≤ n → take n v1_start ≡ v1_start
whole_start n h = take_all n v1_start h

abbrev pub is_more : Parsed → Bool
is_more more = true
is_more p = false

module _ (ntop : Family → Bytes → Option Bytes) (pton : Family → Bytes → Bool) where
  parse_v2-append :
      (buf t : Bytes)
      → is_more (parse_v2 ntop pton buf) ≡ false
      → parse_v2 ntop pton (buf ++ t) ≡ parse_v2 ntop pton buf
  unfolding parse_v2 v2_length
  parse_v2-append buf t h = elim (Bool-cases (ltb (length buf) 16)) [
    | inl short ↦ let clash = rw (parse_v2, short) at h in cc
    | inr long ↦
        let enough : 16 ≤ length buf = ground (arith, long) in
        let whole = length-append buf t in
        let long_too : ltb (length (buf ++ t)) 16 ≡ false = ground (arith, enough, whole) in
        let at12 = get_or-append_lt buf t 12 0 (omega (arith, enough)) in
        let at13 = get_or-append_lt buf t 13 0 (omega (arith, enough)) in
        let at14 = get_or-append_lt buf t 14 0 (omega (arith, enough)) in
        let at15 = get_or-append_lt buf t 15 0 (omega (arith, enough)) in
        elim (Bool-cases (not (bit_and (get_or buf 12 0) 0xf0 == 0x20))) [
          | inl bad ↦ simp (parse_v2, long, long_too, at12, bad)
          | inr good ↦
              let len = v2_length buf in
              elim (Bool-cases (ltb (length buf) (16 + len))) [
                | inl waits ↦ let clash = rw (parse_v2, long, good, waits) at h in cc
                | inr there ↦
                    let body_there : len ≤ length (drop 16 buf) =
                      ground (arith, there, length-drop 16 buf) in
                    let there_too : ltb (length (buf ++ t)) (16 + len) ≡ false =
                      ground (arith, there, whole) in
                    let same : take len (drop 16 (buf ++ t)) ≡ take len (drop 16 buf) =
                      rw (drop-append_le 16 buf t enough)
                        (take-append_le len (drop 16 buf) t body_there) in
                    simp (
                      parse_v2, v2_length, long, long_too, at12, at13, at14, at15, good, there,
                      there_too, same,
                    )
              ]
        ]
  ]

  -- The bytes are not the start of a version 1.
  parse_v1-other :
      (buf t : Bytes)
      → not (bytes_eq (take 6 buf) (take (length buf) v1_start)) ≡ true
      → is_more (parse_v1 ntop pton buf) ≡ false
      → parse_v1 ntop pton (buf ++ t) ≡ parse_v1 ntop pton buf
  unfolding parse_v1
  parse_v1-other buf t other h =
      let sign = λ (s : Bytes). ltb (length s) 12 && bytes_eq s (take (length s) signature) in
      elim (Bool-cases (not (bytes_eq (take 6 (buf ++ t)) (take (length (buf ++ t)) v1_start)))) [
        | inr start ↦
            let agreed = agree-append v1_start buf t (
              (bytes_eq_iff (take 6 (buf ++ t)) (take (length (buf ++ t)) v1_start)).0
                (ground (arith, start))) in
            let same = (bytes_eq_iff (take 6 buf) (take (length buf) v1_start)).1 agreed in
            let clash = rw same at other in cc
        | inl other_too ↦ elim (Bool-cases (sign buf)) [
          | inl early ↦ let clash = rw (parse_v1, other, early) at h in cc
          | inr late ↦ elim (Bool-cases (sign (buf ++ t))) [
            | inr late_too ↦ rw (parse_v1, other, other_too, late, late_too) refl
            | inl early ↦
                let whole = length-append buf t in
                let is = prefix-append signature buf t (
                  (bytes_eq_iff (buf ++ t) (take (length (buf ++ t)) signature)).0
                    (ground (arith, early))) in
                let eq = (bytes_eq_iff buf (take (length buf) signature)).1 is in
                let short : ltb (length buf) 12 ≡ true = ground (arith, early, whole) in
                let clash = rw (short, eq) at late in cc
          ]
        ]
      ]

  parse_v1-start :
      (buf t : Bytes)
      → take 6 buf ≡ take (length buf) v1_start
      → not (bytes_eq (take 6 buf) (take (length buf) v1_start)) ≡ false
      → is_more (parse_v1 ntop pton buf) ≡ false
      → parse_v1 ntop pton (buf ++ t) ≡ parse_v1 ntop pton buf
  unfolding parse_v1 v1_line
  parse_v1-start buf t same start h = elim (Bool-cases (ltb (length buf) 6)) [
    | inl short ↦
        let is : buf ≡ take (length buf) v1_start =
          sym (take_all 6 buf (ground (arith, short))) ∙ same in
        let nowhere : find_crlf buf ≡ none =
          ap (λ s. find_crlf s) is ∙ start_has_no_crlf (length buf) in
        let low : leb 108 (length buf) ≡ false = ground (arith, short) in
        let clash = rw (parse_v1, start, nowhere, low) at h in cc
    | inr long ↦
        let enough : 6 ≤ length buf = ground (arith, long) in
        let whole = length-append buf t in
        let start_too : not (bytes_eq (take 6 (buf ++ t)) (take (length (buf ++ t)) v1_start))
            ≡ false =
          rw
            (
              take-append_le 6 buf t enough,
              whole_start (length (buf ++ t)) (omega (arith, whole, enough)),
              ← whole_start (length buf) enough,
            )
            start in
        elim (Option-cases (find_crlf buf)) [
          | inr ((line, after), found) ↦
              rw (parse_v1, start, start_too, found, find_crlf-append buf t line after found) refl
          | inl nowhere ↦ elim (Bool-cases (leb 108 (length buf))) [
            | inr low ↦ let clash = rw (parse_v1, start, nowhere, low) at h in cc
            | inl high ↦
                let high_too : leb 108 (length (buf ++ t)) ≡ true = ground (arith, high, whole) in
                elim (Option-cases (find_crlf (buf ++ t))) [
                  | inl still ↦ rw (parse_v1, start, start_too, nowhere, still, high, high_too) refl
                  | inr ((line, after), found) ↦
                      let far = find_crlf-late buf t line after nowhere found in
                      let long_line : ltb 106 (length line) ≡ true = ground (arith, far, high) in
                      rw (parse_v1, start, start_too, nowhere, found, high, v1_line, long_line) refl
                ]
          ]
        ]
  ]

  parse_v1-append :
      (buf t : Bytes)
      → is_more (parse_v1 ntop pton buf) ≡ false
      → parse_v1 ntop pton (buf ++ t) ≡ parse_v1 ntop pton buf
  unfolding parse_v1
  parse_v1-append buf t h =
      elim (Bool-cases (not (bytes_eq (take 6 buf) (take (length buf) v1_start)))) [
        | inl other ↦ parse_v1-other buf t other h
        | inr start ↦
            let same =
              (bytes_eq_iff (take 6 buf) (take (length buf) v1_start)).0 (ground (arith, start)) in
            parse_v1-start buf t same start h
      ]

  -- The first bytes of a signature wait for more.
  signature_waits :
      (buf : Bytes)
      → ltb (length buf) 12 ≡ true
      → buf ≡ take (length buf) signature
      → is_more (parse_v1 ntop pton buf) ≡ true
  unfolding parse_v1 find_crlf starts_crlf bytes_eq
  signature_waits [] short is = refl
  signature_waits (c ∷ s) short is =
      let first : c ≡ 0x0d = cc in
      let eq = (bytes_eq_iff (c ∷ s) (take (length (c ∷ s)) signature)).1 is in
      elim (Bool-cases (not (bytes_eq (take 6 (c ∷ s)) (take (length (c ∷ s)) v1_start)))) [
        | inl other ↦ rw (parse_v1, other, short, eq) refl
        | inr start ↦
            let same =
              (bytes_eq_iff (take 6 (c ∷ s)) (take (length (c ∷ s)) v1_start)).0
                (ground (arith, start)) in
            let clash : c ≡ b'P' = cc in absurd (omega (arith, first, clash))
      ]

  -- Once the bytes that have come make a header or are refused, the bytes that follow do not change the
  -- result: the client's address and the length of the header do not depend on how the reads are split.
  pub parse_proxy-append :
      (buf t : Bytes)
      → is_more (parse_proxy ntop pton buf) ≡ false
      → parse_proxy ntop pton (buf ++ t) ≡ parse_proxy ntop pton buf
  unfolding parse_proxy
  parse_proxy-append buf t h =
      let whole = length-append buf t in
      let v2 = λ (s : Bytes). leb 12 (length s) && bytes_eq (take 12 s) signature in
      elim (Bool-cases (leb 12 (length buf))) [
        | inl long ↦
            let same : v2 (buf ++ t) ≡ v2 buf =
              rw (take-append_le 12 buf t (ground (arith, long))) (ground (arith, long, whole)) in
            elim (Bool-cases (v2 buf)) [
              | inl two ↦ rw (same, two) (parse_v2-append buf t (rw two at h))
              | inr one ↦ rw (same, one) (parse_v1-append buf t (rw one at h))
            ]
        | inr short ↦
            let one : v2 buf ≡ false = ground (arith, short) in
            let decided = rw one at h in
            elim (Bool-cases (v2 (buf ++ t))) [
              | inr one_too ↦ rw (one, one_too) (parse_v1-append buf t decided)
              | inl two ↦
                  let sign =
                    (bytes_eq_iff (take 12 (buf ++ t)) signature).0 (ground (arith, two)) in
                  let long : 12 ≤ length (buf ++ t) = ground (arith, two) in
                  let agreed =
                    agree-append signature buf t
                      (sign ∙ sym (take_all (length (buf ++ t)) signature long)) in
                  let is : buf ≡ take (length buf) signature =
                    sym (take_all 12 buf (ground (arith, short))) ∙ agreed in
                  let clash = sym (signature_waits buf (ground (arith, short)) is) ∙ decided in cc
            ]
      ]
