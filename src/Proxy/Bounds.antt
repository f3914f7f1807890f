-- ===== src/Proxy/Bounds.antt =====
-- How many bytes `uvParseProxyHeader` of src/engine/UvReactor.cpp waits for and takes.
use nitro_server.Base.{
  ℕ, zero, suc, ◌+◌, ◌/◌, ◌≤◌, ◌<◌, inl, inr, ap, Bool, ◌&&◌, ◌||◌, not, Option, List, [], ◌∷◌,
  if◌then◌else◌, ltb, leb, ◌==◌, bytes_eq, length, take, drop, get_or, bit_and, length-append,
  arith, Bool-cases, Option-cases, All, &&-true, ◌≡◌, refl,
}
use nitro_server.Base.Text.{Bytes, codes}
use nitro_server.Http.Crlf.{find_crlf, find_crlf_whole}
use nitro_server.Proxy.{
  Parsed, more, malformed, parsed, Family, inet, inet6, signature, v1_start, v2_length, v2_address,
  parse_v2, family_of, v1_address, v1_tokens, v1_line, split_spaces, parse_v1, parse_proxy, is_port,
  c_str,
}

-- The most bytes a header can take: that of version 2, whose lengths end at 65535, behind its
-- signature, and else that of version 1, whose CRLF counts.
unfoldable pub header_limit : Bytes → ℕ
header_limit buf = if bytes_eq (take 12 buf) signature then 16 + 65535 else 106 + 2

-- What was taken is at most what is there and at most `bound`, and a wait is for fewer bytes than it.
abbrev pub Within : ℕ → ℕ → Parsed → Type 0
Within bound len more = len < bound
Within bound len malformed = Unit
Within bound len (parsed ip used) = (used ≤ len) × (used ≤ bound)

module _ (ntop : Family → Bytes → Option Bytes) (pton : Family → Bytes → Bool) where
  v2_address-Within :
      (bound n af len used : ℕ) (body : Bytes)
      → used ≤ n
      → used ≤ bound
      → Within bound n (v2_address ntop pton af len body used)
  unfolding v2_address
  v2_address-Within bound n af len used body h k = elim (Bool-cases (af == 1)) [
    | inl a ↦ elim (Bool-cases (ltb len 12)) [
      | inl b ↦ rw (v2_address, a, b) tt
      | inr b ↦ elim (Option-cases (ntop inet (take 4 body))) [
        | inl c ↦ rw (v2_address, a, b, c) tt
        | inr (text, c) ↦ rw (v2_address, a, b, c) (h, k)
      ]
    ]
    | inr a ↦ elim (Bool-cases (af == 2)) [
      | inl b ↦ elim (Bool-cases (ltb len 36)) [
        | inl c ↦ rw (v2_address, a, b, c) tt
        | inr c ↦ elim (Option-cases (ntop inet6 (take 16 body))) [
          | inl d ↦ rw (v2_address, a, b, c, d) tt
          | inr (text, d) ↦ rw (v2_address, a, b, c, d) (h, k)
        ]
      ]
      | inr b ↦ elim (Bool-cases (not (af == 0))) [
        | inl c ↦ rw (v2_address, a, b, c) tt
        | inr c ↦ rw (v2_address, a, b, c) (h, k)
      ]
    ]
  ]

  parse_v2-Within :
      (buf : Bytes) → v2_length buf < 65536 → Within 65551 (length buf) (parse_v2 ntop pton buf)
  unfolding parse_v2
  parse_v2-Within buf h =
      let len = v2_length buf in
      let cmd = bit_and (get_or buf 12 0) 0x0f in
      elim (Bool-cases (ltb (length buf) 16)) [
        | inl a ↦ rw (parse_v2, a) (ground (arith, a))
        | inr a ↦ elim (Bool-cases (not (bit_and (get_or buf 12 0) 0xf0 == 0x20))) [
          | inl b ↦ rw (parse_v2, a, b) tt
          | inr b ↦ elim (Bool-cases (ltb (length buf) (16 + len))) [
            | inl c ↦ rw (parse_v2, a, b, c) (ground (arith, c, h))
            | inr c ↦
                let there : 16 + len ≤ length buf = ground (arith, c) in
                elim (Bool-cases (cmd == 0)) [
                  | inl d ↦ rw (parse_v2, a, b, c, d) (there, omega (arith, h))
                  | inr d ↦ elim (Bool-cases (not (cmd == 1))) [
                    | inl e ↦ rw (parse_v2, a, b, c, d, e) tt
                    | inr e ↦
                        rw (parse_v2, a, b, c, d, e)
                          (v2_address-Within 65551 (length buf) (get_or buf 13 0 / 16) len
                            (16 + len) (take len (drop 16 buf)) there (omega (arith, h)))
                  ]
                ]
          ]
        ]
      ]

  v1_address-Within :
      (bound n used : ℕ) (family : Family) (src dst sport dport : Bytes)
      → used ≤ n
      → used ≤ bound
      → Within bound n (v1_address ntop pton family src dst sport dport used)
  unfolding v1_address
  v1_address-Within bound n used family src dst sport dport h k =
      elim (Bool-cases (not (pton family (c_str src)) || not (pton family (c_str dst)))) [
        | inl a ↦ rw (v1_address, a) tt
        | inr a ↦ elim (Bool-cases (not (is_port sport) || not (is_port dport))) [
          | inl b ↦ rw (v1_address, a, b) tt
          | inr b ↦ rw (v1_address, a, b) (h, k)
        ]
      ]

  unknown-Within :
      (bound n used : ℕ) (name : Bytes)
      → used ≤ n
      → used ≤ bound
      → Within bound n (if bytes_eq name (codes "UNKNOWN") then parsed [] used else malformed)
  unknown-Within bound n used name h k = elim (Bool-cases (bytes_eq name (codes "UNKNOWN"))) [
    | inl a ↦ rw a (h, k)
    | inr a ↦ rw a tt
  ]

  v1_tokens-Within :
      (bound n used : ℕ) (tokens : List Bytes)
      → used ≤ n
      → used ≤ bound
      → Within bound n (v1_tokens ntop pton tokens used)
  v1_tokens-Within bound n used [] h k = tt
  v1_tokens-Within bound n used (name ∷ []) h k = unknown-Within bound n used name h k
  v1_tokens-Within bound n used (name ∷ a ∷ []) h k = unknown-Within bound n used name h k
  v1_tokens-Within bound n used (name ∷ a ∷ b ∷ []) h k = unknown-Within bound n used name h k
  v1_tokens-Within bound n used (name ∷ a ∷ b ∷ c ∷ []) h k = unknown-Within bound n used name h k
  v1_tokens-Within bound n used (name ∷ a ∷ b ∷ c ∷ d ∷ e ∷ others) h k =
      unknown-Within bound n used name h k
  v1_tokens-Within bound n used (name ∷ src ∷ dst ∷ sport ∷ dport ∷ []) h k =
      elim (Bool-cases (bytes_eq name (codes "UNKNOWN"))) [
        | inl a ↦ rw a (h, k)
        | inr a ↦ elim (Option-cases (family_of name)) [
          | inl b ↦ rw (a, b) tt
          | inr (family, b) ↦
              rw (a, b) (v1_address-Within bound n used family src dst sport dport h k)
        ]
      ]

  v1_line-Within :
      (bound n : ℕ) (line : Bytes)
      → length line + 2 ≤ n
      → 108 ≤ bound
      → Within bound n (v1_line ntop pton line)
  unfolding v1_line
  v1_line-Within bound n line h k = elim (Bool-cases (ltb 106 (length line))) [
    | inl a ↦ rw (v1_line, a) tt
    | inr a ↦
        rw (v1_line, a)
          (v1_tokens-Within bound n (length line + 2) (split_spaces [] (drop 6 line)) h
            (ground (arith, a, k)))
  ]

  parse_v1-Within :
      (bound : ℕ) (buf : Bytes) → 108 ≤ bound → Within bound (length buf) (parse_v1 ntop pton buf)
  unfolding parse_v1
  parse_v1-Within bound buf low =
      let early = ltb (length buf) 12 && bytes_eq buf (take (length buf) signature) in
      elim (Bool-cases (not (bytes_eq (take 6 buf) (take (length buf) v1_start)))) [
        | inl a ↦ elim (Bool-cases early) [
          | inl b ↦ rw (parse_v1, a, b) (ground (arith, b, low))
          | inr b ↦ rw (parse_v1, a, b) tt
        ]
        | inr a ↦ elim (Option-cases (find_crlf buf)) [
          | inr ((line, after), found) ↦
              let whole = ap (λ (s : Bytes). length s) (find_crlf_whole buf line after found) in
              let split = length-append line (0x0d ∷ 0x0a ∷ after) in
              rw (parse_v1, a, found)
                (v1_line-Within bound (length buf) line (omega (arith, whole, split)) low)
          | inl nowhere ↦ elim (Bool-cases (leb 108 (length buf))) [
            | inl c ↦ rw (parse_v1, a, nowhere, c) tt
            | inr c ↦ rw (parse_v1, a, nowhere, c) (ground (arith, c, low))
          ]
        ]
      ]

  get_or_byte : (i : ℕ) (s : Bytes) → All (λ c. c < 256) s → get_or s i 0 < 256
  get_or_byte i [] h = omega arith
  get_or_byte zero (c ∷ s) (small, h) = small
  get_or_byte (suc i) (c ∷ s) (small, h) = get_or_byte i s h

  low_limit : (buf : Bytes) → 108 ≤ header_limit buf
  unfolding header_limit
  low_limit buf = ground arith

  -- A header that is found lies within the bytes that have come, and takes at most as many as its
  -- limit, and the parser waits for more only while fewer than the limit have come. The limit is 108
  -- bytes, a version 1 line with its CRLF, unless the buffer starts with the signature of version 2:
  -- then it is 16 and the 65535 that its two length bytes can name.
  pub parse_proxy-Within :
      (buf : Bytes)
      → All (λ c. c < 256) buf
      → Within (header_limit buf) (length buf) (parse_proxy ntop pton buf)
  unfolding parse_proxy
  parse_proxy-Within buf bytes =
      elim (Bool-cases (leb 12 (length buf) && bytes_eq (take 12 buf) signature)) [
        | inl two ↦
            let high = get_or_byte 14 buf bytes in
            let low = get_or_byte 15 buf bytes in
            let (there, is) =
              &&-true (leb 12 (length buf)) (bytes_eq (take 12 buf) signature) two in
            let limit : header_limit buf ≡ 65551 = unfold header_limit in rw is refl in
            rw (limit, parse_proxy, two)
              (parse_v2-Within buf (unfold v2_length in omega (arith, high, low)))
        | inr one ↦ rw (parse_proxy, one) (parse_v1-Within (header_limit buf) buf (low_limit buf))
      ]
