-- ===== src/Http/Chunked/Total.antt =====
-- `decodeChunked` of src/engine/UvReactor.cpp ends, keeps to the cap, and is not changed by more bytes.
use nitro_server.Base.{
  ℕ, zero, suc, ◌+◌, ◌≤◌, ◌<◌, ◌≡◌, ◌⊎◌, inl, inr, refl, ap, Bool, true, false, some, [], ◌++◌,
  if◌then◌else◌, ltb, ◌==◌, length, drop, arith, Bool-cases, Option-cases, length-append,
  length-take, length-drop,
}
use nitro_server.Base.Text.{Bytes}
use nitro_server.Http.{crlf}
use nitro_server.Http.Fields.{is_empty}
use nitro_server.Http.Crlf.{starts_crlf, find_crlf, find_crlf_whole}
use nitro_server.Http.Chunk.{chunk_size}
use nitro_server.Http.Chunked.{
  Decoded, complete, need_more, malformed, over_cap, out_of_fuel, waiting, trailers, Chunk, chunk,
  stop, read_chunk, decode_loop, decode_chunked, max_trailer_lines,
}

find_crlf-length :
    (s line after : Bytes) → find_crlf s ≡ some (line, after) → length after + 2 ≤ length s
find_crlf-length s line after h =
    let whole = ap (λ (t : Bytes). length t) (find_crlf_whole s line after h) in
    omega (arith, whole, length-append line (crlf ++ after))

pub Chunk-cases :
    (c : Chunk)
    → ((d : Decoded) × (c ≡ stop d)) ⊎ ((part : Bytes) × (rest : Bytes) × (c ≡ chunk part rest))
Chunk-cases (stop d) = inl (d, refl)
Chunk-cases (chunk part rest) = inr (part, rest, refl)

-- An answer of the decoder: a body within the cap, or one of its three other codes.
abbrev pub IsAnswer : ℕ → Decoded → Type 0
IsAnswer max_body (complete body rest) = length body ≤ max_body
IsAnswer max_body need_more = Unit
IsAnswer max_body malformed = Unit
IsAnswer max_body over_cap = Unit
IsAnswer max_body out_of_fuel = ⊥

if-IsAnswer :
    (max_body : ℕ) (b : Bool) (d e : Decoded)
    → IsAnswer max_body d
    → IsAnswer max_body e
    → IsAnswer max_body (if b then d else e)
if-IsAnswer max_body true d e x y = x
if-IsAnswer max_body false d e x y = y

module _ (max_body : ℕ) (wait : Decoded) (w : IsAnswer max_body wait) where
  trailers-IsAnswer :
      (lines used size : ℕ) (body s : Bytes)
      → length body ≤ max_body
      → IsAnswer max_body (trailers lines used size wait body s)
  unfolding trailers
  trailers-IsAnswer zero used size body s h = elim (Option-cases (find_crlf s)) [
    | inl e ↦ rw (e, trailers) (if-IsAnswer max_body (ltb 8192 size) malformed wait tt w)
    | inr (r, e) ↦
        rw (e, trailers) (if-IsAnswer max_body (is_empty r.0) (complete body r.1) malformed h tt)
  ]
  trailers-IsAnswer (suc lines) used size body s h = elim (Option-cases (find_crlf s)) [
    | inl e ↦ rw (e, trailers) (if-IsAnswer max_body (ltb 8192 size) malformed wait tt w)
    | inr (r, e) ↦
        let more = trailers-IsAnswer lines (used + length r.0 + 2) size body r.1 h in
        rw (e, trailers)
          (if-IsAnswer max_body (is_empty r.0) (complete body r.1) _ h
            (if-IsAnswer max_body (ltb 8192 (used + length r.0)) malformed _ tt more))
  ]

  -- A chunk that is read lies in what was buffered and keeps to the cap.
  abbrev IsPart : ℕ → Bytes → Chunk → Type 0
  IsPart sofar s (stop d) = IsAnswer max_body d
  IsPart sofar s (chunk part rest) = (sofar + length part ≤ max_body) × (length rest < length s)

  read_chunk-IsPart :
      (size sofar : ℕ) (s : Bytes) → IsPart sofar s (read_chunk max_body wait size sofar s)
  unfolding read_chunk
  read_chunk-IsPart size sofar s = elim (Bool-cases (ltb max_body (sofar + size))) [
    | inl e ↦ rw e tt
    | inr e ↦ elim (Bool-cases (ltb (length s) (size + 2))) [
      | inl f ↦ rw (e, f) w
      | inr f ↦ elim (Bool-cases (starts_crlf (drop size s))) [
        | inl g ↦
            rw (e, f, g)
              (ground (arith, e, length-take size s), ground (arith, f, length-drop (size + 2) s))
        | inr g ↦ rw (e, f, g) tt
      ]
    ]
  ]

  decode_loop-IsAnswer :
      (fuel : ℕ) (body s : Bytes)
      → length s < fuel
      → length body ≤ max_body
      → IsAnswer max_body (decode_loop fuel max_body wait body s)
  unfolding decode_loop
  decode_loop-IsAnswer zero body s l h = absurd (omega (arith, l))
  decode_loop-IsAnswer (suc fuel) body s l h = elim (Option-cases (find_crlf s)) [
    | inl e ↦ rw (e, decode_loop) w
    | inr (r, e) ↦
        let shorter = find_crlf-length s r.0 r.1 e in
        elim (Option-cases (chunk_size r.0)) [
          | inl f ↦ rw (e, decode_loop, f) tt
          | inr (size, f) ↦ elim (Bool-cases (size == 0)) [
            | inl g ↦
                rw (e, decode_loop, f, g)
                  (trailers-IsAnswer max_trailer_lines 0 (length r.1) body r.1 h)
            | inr g ↦ elim (Chunk-cases (read_chunk max_body wait size (length body) r.1)) [
              | inl (d, c) ↦
                  let part = rw c at (read_chunk-IsPart size (length body) r.1) in
                  rw (e, decode_loop, f, g, c) part
              | inr (part, rest, c) ↦
                  let (fits, less) = rw c at (read_chunk-IsPart size (length body) r.1) in
                  let more =
                    decode_loop-IsAnswer fuel (body ++ part) rest (omega (arith, l, less, shorter))
                      (omega (arith, fits, length-append body part)) in
                  rw (e, decode_loop, f, g, c) more
            ]
          ]
        ]
  ]

waiting-IsAnswer : (size max_body : ℕ) → IsAnswer max_body (waiting size max_body)
waiting-IsAnswer size max_body =
    if-IsAnswer max_body (ltb (max_body + 1024) size) over_cap need_more tt tt

-- On every buffer the decoder ends with one of its four codes, its loop never out of rounds, and a body
-- that it answers is within the cap.
pub decode_chunked-IsAnswer :
    (max_body : ℕ) (s : Bytes) → IsAnswer max_body (decode_chunked max_body s)
unfolding decode_chunked
decode_chunked-IsAnswer max_body s =
    decode_loop-IsAnswer max_body (waiting (length s) max_body)
      (waiting-IsAnswer (length s) max_body) (length s + 1) [] s (omega arith) (omega arith)
