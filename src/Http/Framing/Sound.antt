-- ===== src/Http/Framing/Sound.antt =====
-- What a request whose framing `uvFraming` of src/engine/UvReactor.cpp accepts looks like.
use nitro_server.Base.{
  ℕ, ◌+◌, ◌≤◌, ◌≡◌, refl, sym, ap, ◌∙◌, Bool, true, false, ◌&&◌, Option, none, some, List, [], ◌∷◌,
  if◌then◌else◌, bytes_eq, bytes_eq_iff, length, all, All, arith, Bool-cases, Option-cases, inl,
  inr,
}
use nitro_server.Base.Text.{Bytes, codes}
use nitro_server.Http.{iequals}
use nitro_server.Http.Fields.{RequestFields, is_empty, tokens}
use nitro_server.Http.Framing.{
  refused, framed, Seen, nothing_seen, is_some, see_all, codings_refused, is_digit, length_refused,
  te_refused, verdict, framing,
}
use nitro_server.Http.Framing.Loop.{named, as_list, as_number, see_all-IsSeen}

-- A list without its empty members.
pub words : List Bytes → List Bytes
words [] = []
words (t ∷ ts) = if is_empty t then words ts else t ∷ words ts

-- A transfer coding that is `chunked` and nothing else.
abbrev pub IsChunkedOnly : Bytes → Type 0
IsChunkedOnly v = (w : Bytes) × (words (tokens v) ≡ w ∷ []) × (iequals w (codes "chunked") ≡ true)

abbrev pub IsLength : Bytes → Type 0
IsLength v = (1 ≤ length v) × (length v ≤ 18) × (all is_digit v ≡ true)

-- A framing that leaves no doubt where the body ends.
pub record IsFramed (head : RequestFields) (chunked : Bool) : Type 0 where
  pub one_framing :
      length (named (codes "content-length") head.headers)
        + length (named (codes "transfer-encoding") head.headers)
      ≤ 1
  pub coded :
      chunked ≡ true
      → (v : Bytes) × (named (codes "transfer-encoding") head.headers ≡ v ∷ [])
        × IsChunkedOnly v
        × (bytes_eq head.version (codes "HTTP/1.0") ≡ false)
  pub uncoded : chunked ≡ false → named (codes "transfer-encoding") head.headers ≡ []
  pub sized : All IsLength (named (codes "content-length") head.headers)
  pub hosted : head.version ≡ codes "HTTP/1.1" → length (named (codes "host") head.headers) ≡ 1

-- After `chunked` no coding may follow.
coded_rest : (ts : List Bytes) (n : ℕ) → codings_refused ts n true ≡ none → words ts ≡ []
unfolding codings_refused words
coded_rest [] n h = refl
coded_rest (t ∷ ts) n h = elim (Bool-cases (is_empty t)) [
  | inl e ↦ rw (e, words) (coded_rest ts n (rw (e, codings_refused) at h))
  | inr e ↦ elim (Bool-cases (iequals t (codes "chunked"))) [
    | inl f ↦
        let clash : some (400, codes "repeated chunked coding") ≡ none =
          rw (e, f, codings_refused) at h in
        cc
    | inr f ↦
        let clash : some (501, codes "unsupported transfer coding") ≡ none =
          rw (e, f, codings_refused) at h in
        cc
  ]
]

coded_first :
    (ts : List Bytes)
    → codings_refused ts 0 false ≡ none
    → (w : Bytes) × (words ts ≡ w ∷ []) × (iequals w (codes "chunked") ≡ true)
unfolding codings_refused words
coded_first [] h = cc
coded_first (t ∷ ts) h = elim (Bool-cases (is_empty t)) [
  | inl e ↦
      let (w, only, chunked) = coded_first ts (rw (e, codings_refused) at h) in
      (w, rw (e, words) only, chunked)
  | inr e ↦ elim (Bool-cases (iequals t (codes "chunked"))) [
    | inl f ↦
        let none_left = coded_rest ts 1 (rw (e, f, codings_refused) at h) in
        (t, rw (e, words, none_left) refl, f)
    | inr f ↦
        let clash : some (501, codes "unsupported transfer coding") ≡ none =
          rw (e, f, codings_refused) at h in
        cc
  ]
]

digits_sound : (o : Option Bytes) → length_refused o ≡ false → All IsLength (as_list o)
unfolding length_refused
digits_sound none h = tt
digits_sound (some []) h = cc
digits_sound (some (c ∷ v)) h = (ground (arith, h), tt)

-- The checks behind the loop, when they pass.
record IsPassed (version : Bytes) (s : Seen) (chunked : Bool) : Type 0 where
  single_cl : s.dup_cl ≡ false
  single_te : s.dup_te ≡ false
  not_both : (is_some s.cl && is_some s.te) ≡ false
  te_ok : te_refused version s.te ≡ none
  cl_ok : length_refused s.cl ≡ false
  host_ok : version ≡ codes "HTTP/1.1" → (s.has_host ≡ true) × (s.dup_host ≡ false)
  is_chunked : chunked ≡ is_some s.te

verdict-IsPassed :
    (version : Bytes) (s : Seen) (chunked : Bool)
    → verdict version s ≡ framed chunked
    → IsPassed version s chunked
unfolding verdict
verdict-IsPassed version s chunked h =
    let is_eleven = bytes_eq_iff version (codes "HTTP/1.1") in
    elim (Option-cases (te_refused version s.te)) [
      | inl e ↦ ground (arith, e, h, is_eleven)
      | inr (r, e) ↦ ground (arith, e, h)
    ]

as_list_few :
    (c t : Option Bytes)
    → (is_some c && is_some t) ≡ false
    → length (as_list c) + length (as_list t) ≤ 1
as_list_few none none h = omega arith
as_list_few none (some t) h = omega arith
as_list_few (some c) none h = omega arith
as_list_few (some c) (some t) h = cc

te_IsChunkedOnly :
    (version : Bytes) (o : Option Bytes)
    → te_refused version o ≡ none
    → is_some o ≡ true
    → (v : Bytes) × (as_list o ≡ v ∷ [])
      × IsChunkedOnly v
      × (bytes_eq version (codes "HTTP/1.0") ≡ false)
unfolding te_refused
te_IsChunkedOnly version none h e = cc
te_IsChunkedOnly version (some v) h e = elim (Bool-cases (bytes_eq version (codes "HTTP/1.0"))) [
  | inl f ↦ let clash : some (400, codes "transfer-encoding on http/1.0") ≡ none = rw f at h in cc
  | inr f ↦ (v, refl, coded_first (tokens v) (rw f at h), f)
]

is_some-false : (o : Option Bytes) → is_some o ≡ false → as_list o ≡ []
is_some-false none h = refl
is_some-false (some v) h = cc

-- A request whose framing is accepted has at most one of content length and transfer encoding, and at
-- most one such field. Its body is chunked exactly where a transfer encoding is there, on another
-- version than HTTP/1.0, and names the coding `chunked` and no other. A content length is 1 to 18 digits.
-- On HTTP/1.1 there is exactly one host.
pub framing-IsFramed :
    (head : RequestFields) (chunked : Bool) → framing head ≡ framed chunked → IsFramed head chunked
unfolding framing
framing-IsFramed head chunked h = elim (Option-cases (see_all head.headers nothing_seen)) [
  | inl e ↦
      let clash : refused 400 (codes "conflicting content-length") ≡ framed chunked =
        rw (e, framing) at h in
      cc
  | inr (s, e) ↦
      let seen = see_all-IsSeen head.headers nothing_seen s e in
      let ok = verdict-IsPassed head.version s chunked (rw (e, framing) at h) in
      let cls = seen.cl_all ok.single_cl in
      let tes = seen.te_all ok.single_te in
      record {
        one_framing = rw (← cls, ← tes) (as_list_few s.cl s.te ok.not_both);
        coded =
            λ f. rw (← tes) (te_IsChunkedOnly head.version s.te ok.te_ok (sym ok.is_chunked ∙ f));
        uncoded = λ f. sym tes ∙ is_some-false s.te (sym ok.is_chunked ∙ f);
        sized = rw (← cls) (digits_sound s.cl ok.cl_ok);
        hosted = λ f.
            let (there, single) = ok.host_ok f in
            omega (arith, seen.host_all single, ap as_number there);
      }
]
