-- ===== src/Proxy/Written.antt =====
-- A PROXY header of version 1, as a proxy writes it, and as `uvParseProxyHeader` of
-- src/engine/UvReactor.cpp reads it.
use nitro_server.Base.{
  ℕ, zero, suc, ◌+◌, ◌≤◌, ◌≡◌, inl, inr, refl, sym, ap, ◌∙◌, Bool, true, false, ◌&&◌, not, Option,
  none, some, List, [], ◌∷◌, ◌++◌, ltb, leb, ◌==◌, bytes_eq, bytes_eq_iff, length, take, all,
  append_assoc, append-nil, arith, Bool-cases,
}
use nitro_server.Base.Text.{Bytes, codes}
use nitro_server.Http.Crlf.{find_crlf, find_crlf_back, no_cr}
use nitro_server.Proxy.{
  parsed, Family, family_of, v1_address, v1_line, split_spaces, parse_v1, parse_proxy, is_port,
  c_str,
}

-- A piece of the line: no space and no CR.
abbrev pub is_word : Bytes → Bool
is_word t = all (λ c. not (c == b' ') && not (c == 0x0d)) t

abbrev pub words_text : Bytes → List Bytes → Bytes
words_text first [] = first
words_text first (w ∷ ws) = first ++ (b' ' ∷ words_text w ws)

abbrev pub proxy_line : Bytes → List Bytes → Bytes
proxy_line name words = b'P' ∷ b'R' ∷ b'O' ∷ b'X' ∷ b'Y' ∷ b' ' ∷ words_text name words

split_spaces-word :
    (cur t s : Bytes)
    → is_word t ≡ true
    → split_spaces cur (t ++ (b' ' ∷ s)) ≡ (cur ++ t) ∷ split_spaces [] s
unfolding split_spaces
split_spaces-word cur [] s h = rw (append-nil cur) refl
split_spaces-word cur (c ∷ t) s h =
    let other : (c == b' ') ≡ false = ground (arith, h) in
    let rest : is_word t ≡ true = ground (arith, h) in
    let ih = split_spaces-word (cur ++ (c ∷ [])) t s rest in
    rw (split_spaces, other) (ih ∙ rw (append_assoc cur (c ∷ []) t) refl)

split_spaces_last : (cur t : Bytes) → is_word t ≡ true → split_spaces cur t ≡ (cur ++ t) ∷ []
unfolding split_spaces
split_spaces_last cur [] h = rw (append-nil cur) refl
split_spaces_last cur (c ∷ t) h =
    let other : (c == b' ') ≡ false = ground (arith, h) in
    let rest : is_word t ≡ true = ground (arith, h) in
    let ih = split_spaces_last (cur ++ (c ∷ [])) t rest in
    rw (split_spaces, other) (ih ∙ rw (append_assoc cur (c ∷ []) t) refl)

-- All of them are words.
abbrev pub all_words : List Bytes → Bool
all_words [] = true
all_words (w ∷ ws) = is_word w && all_words ws

split_spaces-words_text :
    (w : Bytes) (ws : List Bytes)
    → is_word w ≡ true
    → all_words ws ≡ true
    → split_spaces [] (words_text w ws) ≡ w ∷ ws
split_spaces-words_text w [] h hs = split_spaces_last [] w h
split_spaces-words_text w (v ∷ ws) h hs =
    let here : is_word v ≡ true = ground (arith, hs) in
    let rest : all_words ws ≡ true = ground (arith, hs) in
    split_spaces-word [] w (words_text v ws) h
    ∙ ap (λ l. w ∷ l) (split_spaces-words_text v ws here rest)

no_cr-append : (s t : Bytes) → no_cr s ≡ true → no_cr t ≡ true → no_cr (s ++ t) ≡ true
no_cr-append [] t h k = k
no_cr-append (c ∷ s) t h k = ground (arith, h, no_cr-append s t)

no_cr-is_word : (t : Bytes) → is_word t ≡ true → no_cr t ≡ true
no_cr-is_word [] h = refl
no_cr-is_word (c ∷ t) h = ground (arith, h, no_cr-is_word t)

no_cr-words_text :
    (w : Bytes) (ws : List Bytes)
    → is_word w ≡ true
    → all_words ws ≡ true
    → no_cr (words_text w ws) ≡ true
no_cr-words_text w [] h hs = no_cr-is_word w h
no_cr-words_text w (v ∷ ws) h hs =
    let here : is_word v ≡ true = ground (arith, hs) in
    let rest : all_words ws ≡ true = ground (arith, hs) in
    no_cr-append w (b' ' ∷ words_text v ws) (no_cr-is_word w h) (no_cr-words_text v ws here rest)

abbrev nothing : Bytes
nothing = []

take_nil : (n : ℕ) → take n nothing ≡ nothing
take_nil zero = refl
take_nil (suc n) = refl

family_of-known :
    (name : Bytes) (family : Family)
    → family_of name ≡ some family
    → bytes_eq name (codes "UNKNOWN") ≡ false
unfolding bytes_eq
family_of-known name family h = elim (Bool-cases (bytes_eq name (codes "UNKNOWN"))) [
  | inr e ↦ e
  | inl e ↦
      let is = (bytes_eq_iff name (codes "UNKNOWN")).0 e in
      let clash : none ≡ some family = sym (ap (λ n. family_of n) is) ∙ h in cc
]

module _ (ntop : Family → Bytes → Option Bytes) (pton : Family → Bytes → Bool) where
  parse_v1-proxy_line :
      (name : Bytes) (words : List Bytes) (rest : Bytes)
      → no_cr (proxy_line name words) ≡ true
      → parse_proxy ntop pton (proxy_line name words ++ (0x0d ∷ 0x0a ∷ rest))
        ≡ v1_line ntop pton (proxy_line name words)
  unfolding parse_proxy parse_v1 bytes_eq
  parse_v1-proxy_line name words rest h =
      let line = proxy_line name words in
      let buf = line ++ (0x0d ∷ 0x0a ∷ rest) in
      let found : find_crlf buf ≡ some (line, rest) = find_crlf_back line rest h in
      elim (Bool-cases (leb 12 (length buf))) [
        | inl a ↦ simp (
          parse_proxy,
          parse_v1,
          a,
          found,
          take_nil (length (words_text name words ++ (0x0d ∷ 0x0a ∷ rest))),
        )
        | inr a ↦ simp (
          parse_proxy,
          parse_v1,
          a,
          found,
          take_nil (length (words_text name words ++ (0x0d ∷ 0x0a ∷ rest))),
        )
      ]

  -- A version 1 header, written with a family, two addresses that `inet_pton` accepts for it, two ports
  -- and one space between any two of them, and followed by any bytes, is read as the first address and
  -- the length of the line with its CRLF, when the line has at most 106 bytes without it.
  pub parse_proxy-proxy_line :
      (family : Family) (name src dst sport dport rest : Bytes)
      → family_of name ≡ some family
      → is_word name ≡ true
      → all_words (src ∷ dst ∷ sport ∷ dport ∷ []) ≡ true
      → pton family (c_str src) ≡ true
      → pton family (c_str dst) ≡ true
      → is_port sport ≡ true
      → is_port dport ≡ true
      → length (proxy_line name (src ∷ dst ∷ sport ∷ dport ∷ [])) ≤ 106
      → parse_proxy ntop pton
          (proxy_line name (src ∷ dst ∷ sport ∷ dport ∷ []) ++ (0x0d ∷ 0x0a ∷ rest))
        ≡ parsed src (length (proxy_line name (src ∷ dst ∷ sport ∷ dport ∷ [])) + 2)
  unfolding v1_line v1_address
  parse_proxy-proxy_line family name src dst sport dport rest is h hs at_src at_dst from to fits =
      let words = src ∷ dst ∷ sport ∷ dport ∷ [] in
      let line = proxy_line name words in
      let short : ltb 106 (length line) ≡ false = ground (arith, fits) in
      let pieces = split_spaces-words_text name words h hs in
      let named : bytes_eq name (codes "UNKNOWN") ≡ false = family_of-known name family is in
      parse_v1-proxy_line name words rest (no_cr-words_text name words h hs)
      ∙ simp (v1_line, short, pieces, named, is, v1_address, at_src, at_dst, from, to)
