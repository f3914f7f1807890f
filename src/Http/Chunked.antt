-- ===== src/Http/Chunked.antt =====
-- `decodeChunked` of src/engine/UvReactor.cpp, and the chunks that `sendStreamChunk` writes on HTTP/1.1.
--
-- The decoder reads the buffer from `start` on; a position is the bytes from there to the buffer's end.
pub mod Hex
pub mod RoundTrip
pub mod Total
pub mod Stable
mod Examples
use nitro_server.Base.{
  ℕ, zero, suc, ◌+◌, ◌-◌, ◌/◌, ◌%◌, Bool, true, false, ◌||◌, not, Option, none, some, List, [], ◌∷◌,
  ◌++◌, if◌then◌else◌, ltb, ◌==◌, ◌*◌, length, take, drop, get_or,
}
use nitro_server.Base.Text.{Bytes, codes}
use nitro_server.Json.{hex}
use nitro_server.Http.{crlf}
use nitro_server.Http.Fields.{is_empty}
use nitro_server.Http.Crlf.{starts_crlf, find_crlf}
use nitro_server.Http.Chunk.{chunk_size}

-- 1 with the body and the bytes behind it, 0, -1 and -2; the fuel of the model runs out nowhere.
pub data Decoded : Type 0 where
  complete : Bytes → Bytes → Decoded
  need_more malformed over_cap out_of_fuel : Decoded

abbrev pub max_trailer_bytes : ℕ
max_trailer_bytes = 8 * 1024

abbrev pub max_trailer_lines : ℕ
max_trailer_lines = 32

-- `overCap() ? -2 : 0`
abbrev pub waiting : ℕ → ℕ → Decoded
waiting size max_body = if ltb (max_body + 1024) size then over_cap else need_more

-- The trailers, with the lines that are still allowed, the bytes of the section that are used, the bytes
-- of it that are buffered, and what to answer when a line is not complete.
pub trailers : ℕ → ℕ → ℕ → Decoded → Bytes → Bytes → Decoded
trailers zero used size wait body s = elim (find_crlf s) [
  | none ↦ if ltb max_trailer_bytes size then malformed else wait
  | some r ↦ if is_empty r.0 then complete body r.1 else malformed
]
trailers (suc lines) used size wait body s = elim (find_crlf s) [
  | none ↦ if ltb max_trailer_bytes size then malformed else wait
  | some r ↦
      let more = trailers lines (used + length r.0 + 2) size wait body r.1 in
      if is_empty r.0
      then complete body r.1
      else if ltb max_trailer_bytes (used + length r.0)
      then malformed
      else more
]

-- One chunk behind its size line: its data and the rest, or what the decoder answers.
pub data Chunk : Type 0 where
  chunk : Bytes → Bytes → Chunk
  stop : Decoded → Chunk

pub read_chunk : ℕ → Decoded → ℕ → ℕ → Bytes → Chunk
read_chunk max_body wait size sofar s =
    if ltb max_body (sofar + size)
    then stop over_cap
    else if ltb (length s) (size + 2)
    then stop wait
    else if not (starts_crlf (drop size s))
    then stop malformed
    else chunk (take size s) (drop (size + 2) s)

-- The loop; `wait` is what is answered when bytes are missing.
pub decode_loop : ℕ → ℕ → Decoded → Bytes → Bytes → Decoded
decode_loop zero max_body wait body s = out_of_fuel
decode_loop (suc fuel) max_body wait body s = elim (find_crlf s) [
  | none ↦ wait
  | some r ↦ elim (chunk_size r.0) [
    | none ↦ malformed
    | some size ↦ elim (size == 0) [
      | true ↦ trailers max_trailer_lines 0 (length r.1) wait body r.1
      | false ↦ elim (read_chunk max_body wait size (length body) r.1) [
        | stop d ↦ d
        | chunk part rest ↦ decode_loop fuel max_body wait (body ++ part) rest
      ]
    ]
  ]
]

pub decode_chunked : ℕ → Bytes → Decoded
decode_chunked max_body s = decode_loop (length s + 1) max_body (waiting (length s) max_body) [] s

-- `%zx`
pub hex_digits : ℕ → ℕ → Bytes → Bytes
hex_digits zero n acc = acc
hex_digits (suc fuel) n acc =
    let rest = hex_digits fuel (n / 16) (get_or hex (n % 16) 0 ∷ acc) in
    if n == 0 then acc else rest

pub hex_text : ℕ → Bytes
hex_text n = if n == 0 then b'0' ∷ [] else hex_digits 16 n []

-- What `sendStreamChunk` writes for a chunk, with the terminal chunk behind it where it is the last; an
-- empty chunk that is not the last writes nothing.
pub stream_chunk : Bytes → Bool → Bytes
stream_chunk part last =
    (if is_empty part then [] else hex_text (length part) ++ (crlf ++ (part ++ crlf)))
    ++ (if last then codes "0" ++ (crlf ++ crlf) else [])
