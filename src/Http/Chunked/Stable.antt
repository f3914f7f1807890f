-- ===== src/Http/Chunked/Stable.antt =====
-- Bytes behind a chunked body do not change what `decodeChunked` of src/engine/UvReactor.cpp reads.
use nitro_server.Base.{
  ℕ, zero, suc, ◌+◌, ◌≤◌, ◌≡◌, ◌⊎◌, inl, inr, refl, sym, ap, ◌∙◌, Bool, true, false, [], ◌++◌,
  if◌then◌else◌, ltb, ◌==◌, length, take, drop, arith, Bool-cases, Option-cases, length-append,
  take-append_le, drop-append_le,
}
use nitro_server.Base.Text.{Bytes}
use nitro_server.Http.Fields.{is_empty}
use nitro_server.Http.Crlf.{starts_crlf, starts_crlf-append, find_crlf, find_crlf-append}
use nitro_server.Http.Chunk.{chunk_size}
use nitro_server.Http.Chunked.{
  Decoded, complete, need_more, malformed, over_cap, out_of_fuel, waiting, trailers, Chunk, chunk,
  stop, read_chunk, decode_loop, decode_chunked, max_trailer_lines, max_trailer_bytes,
}
use nitro_server.Http.Chunked.Total.{Chunk-cases}

abbrev IsWait : Decoded → Type 0
IsWait d = (d ≡ over_cap) ⊎ (d ≡ need_more)

waiting-IsWait : (size max_body : ℕ) → IsWait (waiting size max_body)
waiting-IsWait size max_body = elim (Bool-cases (ltb (max_body + 1024) size)) [
  | inl e ↦ rw e (inl refl)
  | inr e ↦ rw e (inr refl)
]

malformed_incomplete : (b rest : Bytes) → malformed ≡ complete b rest → ⊥
malformed_incomplete b rest e = absurd cc

wait_incomplete : (d : Decoded) (b rest : Bytes) → IsWait d → d ≡ complete b rest → ⊥
wait_incomplete d b rest (inl o) e = let clash = sym o ∙ e in absurd cc
wait_incomplete d b rest (inr o) e = let clash = sym o ∙ e in absurd cc

if_malformed_incomplete :
    (c : Bool) (d : Decoded) (b rest : Bytes)
    → IsWait d
    → (if c then malformed else d) ≡ complete b rest
    → ⊥
if_malformed_incomplete true d b rest w e = malformed_incomplete b rest e
if_malformed_incomplete false d b rest w e = wait_incomplete d b rest w e

complete_parts : (a c b d : Bytes) → complete a b ≡ complete c d → (c ≡ a) × (d ≡ b)
complete_parts a c b d e = (cc, cc)

module _ (wait wait' : Decoded) (w : IsWait wait) (t body b rest : Bytes) (size size' : ℕ) where
  trailers-append :
      (lines used : ℕ) (s : Bytes)
      → trailers lines used size wait body s ≡ complete b rest
      → trailers lines used size' wait' body (s ++ t) ≡ complete b (rest ++ t)
  unfolding trailers
  trailers-append zero used s e = elim (Option-cases (find_crlf s)) [
    | inl f ↦
        absurd (
          if_malformed_incomplete (ltb max_trailer_bytes size) wait b rest w
            (rw (f, trailers) at e))
    | inr ((line, after), f) ↦ elim (Bool-cases (is_empty line)) [
      | inl g ↦
          let (same, left) = complete_parts body b after rest (rw (f, g, trailers) at e) in
          rw (trailers, find_crlf-append s t line after f, g, same, left) refl
      | inr g ↦ absurd (malformed_incomplete b rest (rw (f, g, trailers) at e))
    ]
  ]
  trailers-append (suc lines) used s e = elim (Option-cases (find_crlf s)) [
    | inl f ↦
        absurd (
          if_malformed_incomplete (ltb max_trailer_bytes size) wait b rest w
            (rw (f, trailers) at e))
    | inr ((line, after), f) ↦ elim (Bool-cases (is_empty line)) [
      | inl g ↦
          let (same, left) = complete_parts body b after rest (rw (f, g, trailers) at e) in
          rw (trailers, find_crlf-append s t line after f, g, same, left) refl
      | inr g ↦ elim (Bool-cases (ltb max_trailer_bytes (used + length line))) [
        | inl h ↦ absurd (malformed_incomplete b rest (rw (f, g, h, trailers) at e))
        | inr h ↦
            rw (trailers, find_crlf-append s t line after f, g, h)
              (trailers-append lines (used + length line + 2) after (rw (f, g, h, trailers) at e))
      ]
    ]
  ]

read_chunk_halts :
    (max_body size sofar : ℕ) (wait : Decoded) (s b rest : Bytes)
    → IsWait wait
    → read_chunk max_body wait size sofar s ≡ stop (complete b rest)
    → ⊥
unfolding read_chunk
read_chunk_halts max_body size sofar wait s b rest w e =
    elim (Bool-cases (ltb max_body (sofar + size))) [
      | inl a ↦ let clash = rw (a, read_chunk) at e in absurd cc
      | inr a ↦ elim (Bool-cases (ltb (length s) (size + 2))) [
        | inl c ↦
            let same : stop wait ≡ stop (complete b rest) = rw (a, c, read_chunk) at e in
            wait_incomplete wait b rest w cc
        | inr c ↦ elim (Bool-cases (starts_crlf (drop size s))) [
          | inr d ↦ let clash = rw (a, c, d, read_chunk) at e in absurd cc
          | inl d ↦ let clash = rw (a, c, d, read_chunk) at e in absurd cc
        ]
      ]
    ]

-- A chunk that is read is read alike with more bytes behind it.
read_chunk-append :
    (max_body size sofar : ℕ) (wait wait' : Decoded) (s t part rest : Bytes)
    → read_chunk max_body wait size sofar s ≡ chunk part rest
    → read_chunk max_body wait' size sofar (s ++ t) ≡ chunk part (rest ++ t)
unfolding read_chunk
read_chunk-append max_body size sofar wait wait' s t part rest e =
    elim (Bool-cases (ltb max_body (sofar + size))) [
      | inl a ↦ let clash = rw (a, read_chunk) at e in cc
      | inr a ↦ elim (Bool-cases (ltb (length s) (size + 2))) [
        | inl b ↦ let clash = rw (a, b, read_chunk) at e in cc
        | inr b ↦ elim (Bool-cases (starts_crlf (drop size s))) [
          | inr c ↦ let clash = rw (a, b, c, read_chunk) at e in cc
          | inl c ↦
              let same : ◌≡◌ {A = Chunk} (chunk (take size s) (drop (size + 2) s))
                  (chunk part rest) =
                rw (a, b, c, read_chunk) at e in
              let first : part ≡ take size s = cc in
              let left : rest ≡ drop (size + 2) s = cc in
              let fits : ltb (length (s ++ t)) (size + 2) ≡ false =
                (ground (arith, b, length-append s t)) in
              rw
                (
                  read_chunk,
                  a,
                  fits,
                  drop-append_le size s t (ground (arith, b)),
                  starts_crlf-append (drop size s) t c,
                  take-append_le size s t (ground (arith, b)),
                  drop-append_le (size + 2) s t (ground (arith, b)),
                  first,
                  left,
                )
                refl
        ]
      ]
    ]

module _ (max_body : ℕ) (wait wait' : Decoded) (w : IsWait wait) (t b rest : Bytes) where
  decode_loop-append :
      (f g : ℕ) (body s : Bytes)
      → f ≤ g
      → decode_loop f max_body wait body s ≡ complete b rest
      → decode_loop g max_body wait' body (s ++ t) ≡ complete b (rest ++ t)
  unfolding decode_loop
  decode_loop-append zero g body s l e =
      absurd (let clash : out_of_fuel ≡ complete b rest = e in cc)
  decode_loop-append (suc f) zero body s l e = absurd (omega arith)
  decode_loop-append (suc f) (suc g) body s l e = elim (Option-cases (find_crlf s)) [
    | inl i ↦ absurd (wait_incomplete wait b rest w (rw (i, decode_loop) at e))
    | inr ((line, after), i) ↦
        let there = find_crlf-append s t line after i in
        elim (Option-cases (chunk_size line)) [
          | inl j ↦ absurd (malformed_incomplete b rest (rw (i, j, decode_loop) at e))
          | inr (size, j) ↦ elim (Bool-cases (size == 0)) [
            | inl k ↦
                rw (decode_loop, there, j, k)
                  (trailers-append wait wait' w t body b rest (length after) (length (after ++ t))
                    max_trailer_lines 0 after (rw (i, j, k, decode_loop) at e))
            | inr k ↦ elim (Chunk-cases (read_chunk max_body wait size (length body) after)) [
              | inl (d, m) ↦
                  let done : d ≡ complete b rest = rw (i, j, k, m, decode_loop) at e in
                  absurd (
                    read_chunk_halts max_body size (length body) wait after b rest w
                      (m ∙ ap stop done))
              | inr (part, left, m) ↦
                  rw
                    (
                      decode_loop,
                      there,
                      j,
                      k,
                      read_chunk-append max_body size (length body) wait wait' after t part left m,
                    )
                    (decode_loop-append f g (body ++ part) left (omega arith)
                      (rw (i, j, k, m, decode_loop) at e))
            ]
          ]
        ]
  ]

-- A body that is complete is complete with the same bytes whatever follows it, and what follows
-- stays behind it: a pipelined request is not touched.
pub decode_chunked-append :
    (max_body : ℕ) (s t b rest : Bytes)
    → decode_chunked max_body s ≡ complete b rest
    → decode_chunked max_body (s ++ t) ≡ complete b (rest ++ t)
unfolding decode_chunked
decode_chunked-append max_body s t b rest e =
    decode_loop-append max_body (waiting (length s) max_body) (waiting (length (s ++ t)) max_body)
      (waiting-IsWait (length s) max_body) t b rest (length s + 1) (length (s ++ t) + 1) [] s
      (omega (arith, length-append s t)) e
