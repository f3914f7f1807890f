-- ===== src/Http/Chunked/RoundTrip.antt =====
-- What `sendStreamChunk` of src/engine/UvReactor.cpp writes, `decodeChunked` reads back.
use nitro_server.Base.{
  ℕ, zero, suc, ◌+◌, ◌-◌, ◌^◌, ◌≤◌, ◌<◌, ◌≡◌, inl, inr, refl, sym, ap, ◌∙◌, true, false, List, [],
  ◌∷◌, ◌++◌, if◌then◌else◌, ltb, ◌==◌, length, drop, arith, Bool-cases, length-append, append_assoc,
  append-nil, drop-append, take-append,
}
use nitro_server.Base.Text.{Bytes, codes}
use nitro_server.Http.{crlf}
use nitro_server.Http.Fields.{is_empty}
use nitro_server.Http.Crlf.{starts_crlf, find_crlf, find_crlf_back}
use nitro_server.Http.Chunk.{chunk_digits, chunk_extensions, hex_digit, chunk_size}
use nitro_server.Http.Chunked.Hex.{hex_text-no_cr, chunk_size-hex_text}
use nitro_server.Http.Chunked.{
  Decoded, complete, waiting, trailers, chunk, read_chunk, decode_loop, decode_chunked, hex_text,
  stream_chunk,
}

-- The size of an HTTP/1.1 stream's parts together.
unfoldable pub total : List Bytes → ℕ
total [] = 0
total (p ∷ ps) = length p + total ps

pub joined : List Bytes → Bytes
joined [] = []
joined (p ∷ ps) = p ++ joined ps

-- What the calls `sendStreamChunk(part, false)` for each part and then `sendStreamChunk(end, true)`
-- write.
pub stream_body : List Bytes → Bytes → Bytes
stream_body [] end = stream_chunk end true
stream_body (p ∷ ps) end = stream_chunk p false ++ stream_body ps end

drop_behind :
    (k : ℕ) (part tail : Bytes) → k ≡ length part + 2 → drop k (part ++ (crlf ++ tail)) ≡ tail
drop_behind k [] tail e = let two : k ≡ 2 = omega (arith, e) in rw two refl
drop_behind zero (c ∷ part) tail e = absurd (omega (arith, e))
drop_behind (suc k) (c ∷ part) tail e = drop_behind k part tail (omega (arith, e))

read_chunk_back :
    (max_body sofar : ℕ) (wait : Decoded) (part tail : Bytes)
    → sofar + length part ≤ max_body
    → read_chunk max_body wait (length part) sofar (part ++ (crlf ++ tail)) ≡ chunk part tail
unfolding read_chunk starts_crlf
read_chunk_back max_body sofar wait part tail h =
    let fits : ltb max_body (sofar + length part) ≡ false = ground (arith, h) in
    let long : ltb (length (part ++ (crlf ++ tail))) (length part + 2) ≡ false =
      ground (arith, length-append part (crlf ++ tail)) in
    let behind : drop (length part + 2) (part ++ (crlf ++ tail)) ≡ tail =
      drop_behind (length part + 2) part tail refl in
    rw (fits, long, drop-append part (crlf ++ tail), take-append part (crlf ++ tail), behind) refl

frame_text :
    (part tail : Bytes)
    → is_empty part ≡ false
    → stream_chunk part false ++ tail ≡ hex_text (length part) ++ (crlf ++ (part ++ (crlf ++ tail)))
unfolding stream_chunk
frame_text part tail e =
    rw
      (
        e,
        append-nil (hex_text (length part) ++ (crlf ++ (part ++ crlf))),
        append_assoc (hex_text (length part)) (crlf ++ (part ++ crlf)) tail,
        append_assoc part crlf tail,
      )
      refl

nonempty : (part : Bytes) → is_empty part ≡ false → (length part == 0) ≡ false
nonempty [] e = cc
nonempty (c ∷ part) e = ground arith

-- One frame is one round of the loop.
decode_loop-frame :
    (fuel max_body : ℕ) (wait : Decoded) (body part tail : Bytes)
    → is_empty part ≡ false
    → length part < 16 ^ 15
    → length body + length part ≤ max_body
    → decode_loop (suc fuel) max_body wait body (stream_chunk part false ++ tail)
      ≡ decode_loop fuel max_body wait (body ++ part) tail
unfolding decode_loop
decode_loop-frame fuel max_body wait body part tail e short fits =
    rw
      (
        frame_text part tail e,
        decode_loop,
        find_crlf_back (hex_text (length part)) (part ++ (crlf ++ tail))
            (hex_text-no_cr (length part) short),
        chunk_size-hex_text (length part) short,
        nonempty part e,
        read_chunk_back max_body (length body) wait part tail fits,
      )
      refl

terminal : Bytes
terminal = codes "0" ++ (crlf ++ crlf)

-- The terminal chunk ends the body.
decode_loop-terminal :
    (fuel max_body : ℕ) (wait : Decoded) (body tail : Bytes)
    → decode_loop (suc fuel) max_body wait body (terminal ++ tail) ≡ complete body tail
unfolding terminal decode_loop find_crlf starts_crlf chunk_size chunk_digits hex_digit
    chunk_extensions trailers
decode_loop-terminal fuel max_body wait body tail = refl

-- How many rounds a stream takes: one for each part that is not empty, and one for the terminal chunk.
rounds : List Bytes → Bytes → ℕ
rounds [] end = if is_empty end then 1 else 2
rounds (p ∷ ps) end = if is_empty p then rounds ps end else suc (rounds ps end)

stream_chunk_last : (end : Bytes) → stream_chunk end true ≡ stream_chunk end false ++ terminal
unfolding stream_chunk terminal
stream_chunk_last end = ap (λ t. t ++ (codes "0" ++ (crlf ++ crlf))) (sym (append-nil _))

stream_chunk_empty :
    (part : Bytes) → is_empty part ≡ true → (part ≡ []) × (stream_chunk part false ≡ [])
unfolding stream_chunk
stream_chunk_empty [] e = (refl, refl)
stream_chunk_empty (c ∷ part) e = cc

length-stream_chunk : (part : Bytes) → is_empty part ≡ false → 1 ≤ length (stream_chunk part false)
length-stream_chunk part e =
    let whole = ap (λ (t : Bytes). length t) (append-nil (stream_chunk part false)) in
    let text = ap (λ (t : Bytes). length t) (frame_text part [] e) in
    omega
      (arith, whole, text, length-append (hex_text (length part)) (crlf ++ (part ++ (crlf ++ []))))

decode_loop-end :
    (end rest body : Bytes) (fuel max_body : ℕ) (wait : Decoded)
    → length body + length end ≤ max_body
    → max_body < 16 ^ 15
    → rounds [] end ≤ fuel
    → decode_loop fuel max_body wait body (stream_body [] end ++ rest) ≡ complete (body ++ end) rest
unfolding rounds stream_body
decode_loop-end end rest body fuel max_body wait fits short enough =
    ap (λ t. decode_loop fuel max_body wait body (t ++ rest)) (stream_chunk_last end)
    ∙ ap (decode_loop fuel max_body wait body) (append_assoc (stream_chunk end false) terminal rest)
    ∙ elim (Bool-cases (is_empty end)) [
      | inl e ↦
          let (none_left, nothing) = stream_chunk_empty end e in
          let k : fuel ≡ suc (fuel - 1) = ground (arith, e, enough) in
          rw (k, nothing, none_left)
            (decode_loop-terminal (fuel - 1) max_body wait body rest
              ∙ ap (λ b. complete b rest) (sym (append-nil body)))
      | inr e ↦
          let k : fuel ≡ suc (suc (fuel - 2)) = ground (arith, e, enough) in
          rw k (
            decode_loop-frame (suc (fuel - 2)) max_body wait body end (terminal ++ rest) e
              (omega (arith, fits, short)) fits
            ∙ decode_loop-terminal (fuel - 2) max_body wait (body ++ end) rest)
    ]

decode_loop-stream :
    (ps : List Bytes) (end rest body : Bytes) (fuel max_body : ℕ) (wait : Decoded)
    → length body + (total ps + length end) ≤ max_body
    → max_body < 16 ^ 15
    → rounds ps end ≤ fuel
    → decode_loop fuel max_body wait body (stream_body ps end ++ rest)
      ≡ complete (body ++ (joined ps ++ end)) rest
unfolding stream_body joined total
decode_loop-stream [] end rest body fuel max_body wait fits short enough =
    decode_loop-end end rest body fuel max_body wait (omega (arith, fits)) short enough
decode_loop-stream (p ∷ ps) end rest body fuel max_body wait fits short enough =
    ap (decode_loop fuel max_body wait body)
      (append_assoc (stream_chunk p false) (stream_body ps end) rest)
    ∙ elim (Bool-cases (is_empty p)) [
      | inl e ↦
          let (none_left, nothing) = stream_chunk_empty p e in
          let more =
            decode_loop-stream ps end rest body fuel max_body wait (omega (arith, fits)) short
              (unfold rounds in ground (arith, e, enough)) in
          rw (nothing, none_left) more
      | inr e ↦
          let k : fuel ≡ suc (fuel - 1) = unfold rounds in ground (arith, e, enough) in
          let more =
            decode_loop-stream ps end rest (body ++ p) (fuel - 1) max_body wait
              (omega (arith, fits, length-append body p)) short
              (unfold rounds in ground (arith, e, enough)) in
          rw k (
            decode_loop-frame (fuel - 1) max_body wait body p (stream_body ps end ++ rest) e
              (omega (arith, fits, short)) (omega (arith, fits))
            ∙ rw (append_assoc p (joined ps) end, ← append_assoc body p (joined ps ++ end)) more)
    ]

rounds-le : (ps : List Bytes) (end : Bytes) → rounds ps end ≤ length (stream_body ps end) + 1
unfolding rounds stream_body
rounds-le [] end =
    let whole = ap (λ (t : Bytes). length t) (stream_chunk_last end) in
    let five : length terminal ≡ 5 = unfold terminal in refl in
    ground (arith, whole, length-append (stream_chunk end false) terminal, five)
rounds-le (p ∷ ps) end =
    let whole = length-append (stream_chunk p false) (stream_body ps end) in
    elim (Bool-cases (is_empty p)) [
      | inl e ↦ rw e (omega (arith, whole, rounds-le ps end))
      | inr e ↦ rw e (omega (arith, whole, length-stream_chunk p e, rounds-le ps end))
    ]

-- Whatever parts `sendStreamChunk` is called with, the last of them as the last: if they fit in the cap
-- of a body, below 2^60, the decoder answers them together, up to the bytes that follow the stream.
pub decode_chunked-stream_body :
    (max_body : ℕ) (ps : List Bytes) (end rest : Bytes)
    → total ps + length end ≤ max_body
    → max_body < 2 ^ 60
    → decode_chunked max_body (stream_body ps end ++ rest) ≡ complete (joined ps ++ end) rest
unfolding decode_chunked
decode_chunked-stream_body max_body ps end rest fits short =
    decode_loop-stream ps end rest [] (length (stream_body ps end ++ rest) + 1) max_body
      (waiting (length (stream_body ps end ++ rest)) max_body) (omega (arith, fits))
      (omega (arith, short))
      (omega (arith, rounds-le ps end, length-append (stream_body ps end) rest))
