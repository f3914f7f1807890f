-- ===== src/Http/Upload.antt =====
-- `emitStreamBytes` and `emitStreamChunked` of src/engine/UvReactor.cpp: a streamed upload, one read
-- after the other. `c->buf` is passed beside the fields of the connection that the decoders keep; the
-- allocation of a payload is taken to succeed. `stream_max` is `none` where it is negative.
pub mod Bounded
mod Examples
pub mod Loop
use nitro_server.Base.{
  ℕ, zero, suc, ◌+◌, ◌-◌, min, Bool, true, false, ◌&&◌, not, Option, none, some, List, [], ◌∷◌,
  ◌++◌, if◌then◌else◌, ltb, ◌==◌, length, take, drop,
}
use nitro_server.Base.Text.{Bytes}
use nitro_server.Http.Fields.{is_empty}
use nitro_server.Http.Crlf.{starts_crlf, find_crlf}
use nitro_server.Http.Chunk.{chunk_size}
use nitro_server.Http.Chunked.{max_trailer_bytes, max_trailer_lines}

pub record Upload : Type 0 where
  pub chunk_remaining : ℕ
  pub need_crlf : Bool
  pub total : ℕ
  pub stream_max : Option ℕ
  pub has_sink : Bool
  pub streaming : Bool
  pub closing : Bool
  pub body_remaining : ℕ

-- `trackPayload` and `emitBodyData` of a payload, `emitBodyEnd`, and `abortStreamTooLarge`.
pub data Emission : Type 0 where
  track data_of : Bytes → Emission
  body_end too_large : Emission

abbrev pub end_of : Bool → List Emission
end_of true = body_end ∷ []
end_of false = []

-- A payload, where there is a sink and something to hand over.
abbrev pub payload_of : Bool → Bytes → List Emission
payload_of false bytes = []
payload_of true bytes = if is_empty bytes then [] else track bytes ∷ data_of bytes ∷ []

-- Without a sink the buffer is left as it is.
pub emit_bytes : Upload → Bytes → Bytes × (Upload × List Emission)
emit_bytes u buf =
    let n = min (length buf) u.body_remaining in
    let took = u.has_sink && ltb 0 n in
    let left = if took then u.body_remaining - n else u.body_remaining in
    let rest = if took then drop n buf else buf in
    let parts = if took then payload_of true (take n buf) else [] in
    if left == 0
    then (rest, (record u { body_remaining = 0; streaming = false }, parts ++ end_of u.has_sink))
    else (rest, (record u { body_remaining = left }, parts))

-- How the loop ends: it waits for more bytes, the terminal chunk was read, the framing is malformed,
-- or the cap is passed. The model's loop has fuel; it is never out of it.
pub data Ending : Type 0 where
  pause finished malformed over_cap out_of_fuel : Ending

-- The bytes left, the fields, the data taken so far and how it ended.
pub record Pass : Type 0 where
  pub left : Bytes
  pub upload : Upload
  pub out : Bytes
  pub ending : Ending

-- The lines behind the terminal chunk: `some` is what is left behind the blank line. `size` is what of
-- them is buffered.
unfoldable pub end_lines : ℕ → ℕ → Bytes → Option Bytes × Bool
end_lines zero size s = elim (find_crlf s) [
  | none ↦ (none, ltb max_trailer_bytes size)
  | some (line, after) ↦ if is_empty line then (some after, false) else (none, true)
]
end_lines (suc lines) size s = elim (find_crlf s) [
  | none ↦ (none, ltb max_trailer_bytes size)
  | some (line, after) ↦
      let more = end_lines lines size after in if is_empty line then (some after, false) else more
]

abbrev pub ended : Bytes → Upload → Bytes → Option Bytes × Bool → Pass
ended buf u out (none, bad) = record {
  left = buf;
  upload = u;
  out = out;
  ending = (if bad then malformed else pause);
}
ended buf u out (some rest, bad) = record { left = rest; upload = u; out = out; ending = finished }

-- The state behind the CRLF of a chunk and the size line of the next one.
pub data Sized : Type 0 where
  stop : Pass → Sized
  go : Upload → Bytes → Sized

unfoldable pub next_size : Upload → Bytes → Bytes → Sized
next_size u buf out = elim (u.chunk_remaining == 0) [
  | false ↦ go u buf
  | true ↦ elim (find_crlf buf) [
    | none ↦ stop (record {
      left = buf;
      upload = u;
      out = out;
      ending = (if ltb max_trailer_bytes (length buf) then malformed else pause);
    })
    | some (line, after) ↦ elim (chunk_size line) [
      | none ↦ stop (record { left = buf; upload = u; out = out; ending = malformed })
      | some size ↦
          if size == 0
          then stop (ended buf u out (end_lines max_trailer_lines (length after) after))
          else go (record u { chunk_remaining = size }) after
    ]
  ]
]

unfoldable pub next_chunk : Upload → Bytes → Bytes → Sized
next_chunk u buf out =
    if not u.need_crlf
    then next_size u buf out
    else if ltb (length buf) 2
    then stop (record { left = buf; upload = u; out = out; ending = pause })
    else if not (starts_crlf buf)
    then stop (record { left = buf; upload = u; out = out; ending = malformed })
    else next_size (record u { need_crlf = false }) (drop 2 buf) out

-- The fields after `n` bytes of a chunk are taken.
unfoldable pub taken : Upload → ℕ → Upload
taken u n = record u {
  chunk_remaining = u.chunk_remaining - n;
  need_crlf = (if u.chunk_remaining - n == 0 then true else u.need_crlf);
  total = u.total + n;
}

abbrev pub passes_cap : Option ℕ → ℕ → Bool
passes_cap none total = false
passes_cap (some cap) total = ltb cap total

unfoldable pub upload_loop : ℕ → Upload → Bytes → Bytes → Pass
upload_loop zero u buf out = record { left = buf; upload = u; out = out; ending = out_of_fuel }
upload_loop (suc fuel) u buf out = elim (next_chunk u buf out) [
  | stop p ↦ p
  | go v rest ↦
      let n = min (length rest) v.chunk_remaining in
      let more = upload_loop fuel (taken v n) (drop n rest) (out ++ take n rest) in
      if n == 0
      then record { left = rest; upload = v; out = out; ending = pause }
      else if passes_cap v.stream_max (v.total + n)
      then record {
        left = drop n rest;
        upload = taken v n;
        out = out ++ take n rest;
        ending = over_cap;
      }
      else more
]

-- Behind the loop.
unfoldable pub settle : Pass → Bytes × (Upload × List Emission)
settle p = elim p.ending [
  | pause ↦ (p.left, (p.upload, payload_of p.upload.has_sink p.out))
  | finished ↦ (
    p.left,
    (
      record p.upload { streaming = false },
      payload_of p.upload.has_sink p.out ++ end_of p.upload.has_sink,
    ),
  )
  | malformed ↦ (p.left, (record p.upload { streaming = false; closing = true }, []))
  | over_cap ↦ (p.left, (record p.upload { streaming = false }, too_large ∷ []))
  | out_of_fuel ↦ (p.left, (p.upload, []))
]

-- Every round that goes on takes at least a byte.
unfoldable pub upload_pass : Upload → Bytes → Pass
upload_pass u buf = upload_loop (suc (length buf)) u buf []

unfoldable pub emit_chunked : Upload → Bytes → Bytes × (Upload × List Emission)
emit_chunked u buf = settle (upload_pass u buf)
