-- ===== src/Http/Upload/Loop.antt =====
-- One pass of the loop of `emitStreamChunked` in src/engine/UvReactor.cpp.
use nitro_server.Base.{
  ℕ, zero, suc, ◌+◌, ◌≤◌, ◌<◌, ◌≡◌, min, refl, sym, ap, ◌∙◌, subst, Bool, true, false, Option, none,
  some, ◌++◌, if◌then◌else◌, ltb, ◌==◌, length, take, drop, arith, ◌⊎◌, inl, inr, Bool-cases,
  Option-cases, length-append, length-take, length-drop,
}
use nitro_server.Base.Text.{Bytes}
use nitro_server.Http.{crlf}
use nitro_server.Http.Crlf.{starts_crlf, find_crlf, find_crlf_whole}
use nitro_server.Http.Chunk.{chunk_size}
use nitro_server.Http.Chunked.{max_trailer_bytes}
use nitro_server.Http.Upload.{
  Upload, Ending, pause, finished, malformed, over_cap, out_of_fuel, Pass, ended, Sized, stop, go,
  next_size, next_chunk, taken, passes_cap, upload_loop,
}

-- The endings that a round can have before it takes data.
abbrev pub IsEarly : Ending → Type 0
IsEarly pause = Unit
IsEarly finished = Unit
IsEarly malformed = Unit
IsEarly over_cap = ⊥
IsEarly out_of_fuel = ⊥

pub Sized-cases :
    (r : Sized) → ((p : Pass) × (r ≡ stop p)) ⊎ ((v : Upload) × (rest : Bytes) × (r ≡ go v rest))
Sized-cases (stop p) = inl (p, refl)
Sized-cases (go v rest) = inr (v, rest, refl)

-- The fields that a size line does not touch.
pub record IsSame (u v : Upload) : Type 0 where
  pub total : v.total ≡ u.total
  pub cap : v.stream_max ≡ u.stream_max

abbrev pub IsNext : Upload → ℕ → Bytes → Sized → Type 0
IsNext u size out (stop p) = IsSame u p.upload × ((p.out ≡ out) × IsEarly p.ending)
IsNext u size out (go v rest) = IsSame u v × (length rest ≤ size)

pub after-length :
    (s line after : Bytes) → find_crlf s ≡ some (line, after) → length after ≤ length s
after-length s line after e =
    let whole = ap (λ (t : Bytes). length t) (find_crlf_whole s line after e) in
    omega (arith, whole, length-append line (crlf ++ after))

pub bad_or_pause : (b : Bool) → IsEarly (if b then malformed else pause)
bad_or_pause true = tt
bad_or_pause false = tt

pub ended-IsNext :
    (u v : Upload) (size : ℕ) (buf out : Bytes) (r : Option Bytes × Bool)
    → IsSame u v
    → IsNext u size out (stop (ended buf v out r))
ended-IsNext u v size buf out (none, bad) same = (same, (refl, bad_or_pause bad))
ended-IsNext u v size buf out (some rest, bad) same = (same, (refl, tt))

pub next_size-IsNext :
    (u v : Upload) (size : ℕ) (buf out : Bytes)
    → IsSame u v
    → length buf ≤ size
    → IsNext u size out (next_size v buf out)
unfolding next_size
next_size-IsNext u v size buf out same l = elim (Bool-cases (v.chunk_remaining == 0)) [
  | inr a ↦ rw (next_size, a) (same, l)
  | inl a ↦ elim (Option-cases (find_crlf buf)) [
    | inl b ↦ rw (next_size, a, b) (same, (refl, bad_or_pause (ltb max_trailer_bytes (length buf))))
    | inr ((line, after), b) ↦ elim (Option-cases (chunk_size line)) [
      | inl c ↦ rw (next_size, a, b, c) (same, (refl, tt))
      | inr (n, c) ↦ elim (Bool-cases (n == 0)) [
        | inl d ↦ rw (next_size, a, b, c, d) (ended-IsNext u v size buf out _ same)
        | inr d ↦
            rw (next_size, a, b, c, d)
              (
                record { total = same.total; cap = same.cap },
                omega (arith, l, after-length buf line after b),
              )
      ]
    ]
  ]
]

pub next_chunk-IsNext :
    (u : Upload) (buf out : Bytes) → IsNext u (length buf) out (next_chunk u buf out)
unfolding next_chunk
next_chunk-IsNext u buf out = elim (Bool-cases u.need_crlf) [
  | inr a ↦
      let is : next_chunk u buf out ≡ next_size u buf out = simp (next_chunk, a) in
      subst (IsNext u (length buf) out) (sym is) (
        next_size-IsNext u u (length buf) buf out (record { total = refl; cap = refl })
          (omega arith))
  | inl a ↦ elim (Bool-cases (ltb (length buf) 2)) [
    | inl b ↦ rw (next_chunk, a, b) (record { total = refl; cap = refl }, (refl, tt))
    | inr b ↦ elim (Bool-cases (starts_crlf buf)) [
      | inr c ↦ rw (next_chunk, a, b, c) (record { total = refl; cap = refl }, (refl, tt))
      | inl c ↦
          let is : next_chunk u buf out
              ≡ next_size (record u { need_crlf = false }) (drop 2 buf) out =
            simp (next_chunk, a, b, c) in
          subst (IsNext u (length buf) out) (sym is) (
            next_size-IsNext u _ (length buf) (drop 2 buf) out (record { total = refl; cap = refl })
              (omega (arith, length-drop 2 buf)))
    ]
  ]
]

abbrev pub IsWithin : Option ℕ → ℕ → Type 0
IsWithin none n = Unit
IsWithin (some cap) n = n ≤ cap

pub passes_cap-IsWithin : (cap : Option ℕ) (n : ℕ) → passes_cap cap n ≡ false → IsWithin cap n
passes_cap-IsWithin none n e = tt
passes_cap-IsWithin (some cap) n e = ground (arith, e)

-- What the loop leaves, from its fields and the data taken so far.
pub record IsPass (u : Upload) (out : Bytes) (p : Pass) : Type 0 where
  pub ends : p.ending ≡ out_of_fuel → ⊥
  pub cap : p.upload.stream_max ≡ u.stream_max
  pub counted : p.upload.total + length out ≡ u.total + length p.out
  pub within :
      (p.ending ≡ over_cap → ⊥)
      → IsWithin u.stream_max u.total
      → IsWithin u.stream_max p.upload.total

pub early_ends : (e : Ending) → IsEarly e → e ≡ out_of_fuel → ⊥
early_ends e h out = subst IsEarly out h

pub same-IsPass :
    (u : Upload) (out : Bytes) (p : Pass)
    → IsSame u p.upload
    → p.out ≡ out
    → (p.ending ≡ out_of_fuel → ⊥)
    → IsPass u out p
same-IsPass u out p same o e = record {
  ends = e;
  cap = same.cap;
  counted = omega (arith, same.total, ap (λ (t : Bytes). length t) o);
  within = λ n w. subst (IsWithin u.stream_max) (sym same.total) w;
}

-- From a later round to the first one.
pub later-IsPass :
    (u v : Upload) (n : ℕ) (out part : Bytes) (p : Pass)
    → IsSame u v
    → length part ≡ n
    → IsWithin u.stream_max (v.total + n)
    → IsPass (taken v n) (out ++ part) p
    → IsPass u out p
unfolding taken
later-IsPass u v n out part p same l w h = record {
  ends = h.ends;
  cap = h.cap ∙ same.cap;
  counted = omega (arith, h.counted, same.total, length-append out part);
  within = λ e k.
      subst (λ m. IsWithin m p.upload.total) same.cap
        (h.within e (subst (λ m. IsWithin m (v.total + n)) (sym same.cap) w));
}

pub over_cap-IsPass :
    (u v : Upload) (n : ℕ) (out rest : Bytes)
    → IsSame u v
    → n ≡ min (length rest) v.chunk_remaining
    → IsPass u out (record {
      left = drop n rest;
      upload = taken v n;
      out = out ++ take n rest;
      ending = over_cap;
    })
unfolding taken
over_cap-IsPass u v n out rest same l = record {
  ends = λ e. absurd cc;
  cap = same.cap;
  counted = omega (arith, same.total, length-append out (take n rest), length-take n rest, l);
  within = λ e w. absurd (e refl);
}

pub upload_loop-IsPass :
    (fuel : ℕ) (u : Upload) (buf out : Bytes)
    → length buf < fuel
    → IsPass u out (upload_loop fuel u buf out)
unfolding upload_loop
upload_loop-IsPass zero u buf out l = absurd (omega arith)
upload_loop-IsPass (suc fuel) u buf out l = elim (Sized-cases (next_chunk u buf out)) [
  | inl (p, a) ↦
      let next = subst (IsNext u (length buf) out) a (next_chunk-IsNext u buf out) in
      rw (upload_loop, a) (same-IsPass u out p next.0 next.1.0 (early_ends p.ending next.1.1))
  | inr (v, rest, a) ↦
      let (same, fewer) = subst (IsNext u (length buf) out) a (next_chunk-IsNext u buf out) in
      let n = min (length rest) v.chunk_remaining in
      elim (Bool-cases (n == 0)) [
        | inl b ↦ rw (upload_loop, a, b) (same-IsPass u out _ same refl (λ e. absurd cc))
        | inr b ↦ elim (Bool-cases (passes_cap v.stream_max (v.total + n))) [
          | inl c ↦ rw (upload_loop, a, b, c) (over_cap-IsPass u v n out rest same refl)
          | inr c ↦
              rw (upload_loop, a, b, c)
                (later-IsPass u v n out (take n rest) _ same (length-take n rest ∙ omega arith)
                  (subst (λ m. IsWithin m (v.total + n)) same.cap
                    (passes_cap-IsWithin v.stream_max (v.total + n) c))
                  (upload_loop-IsPass fuel (taken v n) (drop n rest) (out ++ take n rest)
                    (ground (arith, b, fewer, l, length-drop n rest))))
        ]
      ]
]
