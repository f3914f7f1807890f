-- ===== src/Http/Framing.antt =====
-- `uvFraming` of src/engine/UvReactor.cpp: the request framings that are refused.
pub mod Sound
mod Examples
pub mod Loop
use nitro_server.Base.{
  ℕ, ◌+◌, Bool, true, false, ◌&&◌, ◌||◌, not, Option, none, some, List, [], ◌∷◌, if◌then◌else◌, leb,
  ltb, ◌==◌, bytes_eq, length, all,
}
use nitro_server.Base.Text.{Bytes, codes}
use nitro_server.Http.{iequals}
use nitro_server.Http.Fields.{Header, RequestFields, is_empty, trim, tokens}

-- A refusal with its status and reason, or a sound framing and whether the body is chunked.
pub data Verdict : Type 0 where
  refused : ℕ → Bytes → Verdict
  framed : Bool → Verdict

-- What the loop over the headers has seen.
pub record Seen : Type 0 where
  pub cl : Option Bytes
  pub te : Option Bytes
  pub has_host : Bool
  pub dup_host : Bool
  pub dup_cl : Bool
  pub dup_te : Bool

abbrev pub nothing_seen : Seen
nothing_seen = record {
  cl = none;
  te = none;
  has_host = false;
  dup_host = false;
  dup_cl = false;
  dup_te = false;
}

abbrev pub is_some {ℓ} : {A : Type ℓ} → Option A → Bool
is_some none = false
is_some (some a) = true

abbrev pub conflicts : Option Bytes → Bytes → Bool
conflicts none value = false
conflicts (some v) value = not (bytes_eq (trim v) (trim value))

-- One header: `none` is the early return on conflicting lengths.
unfoldable pub see : Header → Seen → Option Seen
see (name, value) s =
    if iequals name (codes "content-length")
    then if conflicts s.cl value
      then none
      else some (record s { cl = some value; dup_cl = s.dup_cl || is_some s.cl })
    else if iequals name (codes "transfer-encoding")
    then some (record s { te = some value; dup_te = s.dup_te || is_some s.te })
    else if iequals name (codes "host")
    then some (record s { dup_host = s.dup_host || s.has_host; has_host = true })
    else some s

unfoldable pub see_all : List Header → Seen → Option Seen
see_all [] s = some s
see_all (h ∷ hs) s = elim (see h s) [ none ↦ none | some s' ↦ see_all hs s' ]

-- The loop over the transfer codings; `none` is a sound list.
unfoldable pub codings_refused : List Bytes → ℕ → Bool → Option (ℕ × Bytes)
codings_refused [] codings chunked =
    if codings == 0 then some (400, codes "empty transfer-encoding") else none
codings_refused (token ∷ more) codings chunked = elim (is_empty token) [
  | true ↦ codings_refused more codings chunked
  | false ↦ elim (iequals token (codes "chunked")) [
    | true ↦ elim chunked [
      | true ↦ some (400, codes "repeated chunked coding")
      | false ↦ codings_refused more (codings + 1) true
    ]
    | false ↦ some (501, codes "unsupported transfer coding")
  ]
]

abbrev pub is_digit : ℕ → Bool
is_digit c = not (ltb c b'0' || ltb b'9' c)

-- The content length is refused.
unfoldable pub length_refused : Option Bytes → Bool
length_refused none = false
length_refused (some v) = is_empty v || ltb 18 (length v) || not (all is_digit v)

unfoldable pub te_refused : Bytes → Option Bytes → Option (ℕ × Bytes)
te_refused version none = none
te_refused version (some te) =
    if bytes_eq version (codes "HTTP/1.0")
    then some (400, codes "transfer-encoding on http/1.0")
    else codings_refused (tokens te) 0 false

-- The checks behind the loop.
unfoldable pub verdict : Bytes → Seen → Verdict
verdict version s =
    if s.dup_cl
    then refused 400 (codes "duplicate content-length")
    else if s.dup_te
    then refused 400 (codes "duplicate transfer-encoding")
    else if is_some s.cl && is_some s.te
    then refused 400 (codes "content-length with transfer-encoding")
    else elim (te_refused version s.te) [
      | some r ↦ refused r.0 r.1
      | none ↦
          if length_refused s.cl
          then refused 400 (codes "bad content-length")
          else if bytes_eq version (codes "HTTP/1.1") && not s.has_host
          then refused 400 (codes "missing host header")
          else if bytes_eq version (codes "HTTP/1.1") && s.dup_host
          then refused 400 (codes "duplicate host header")
          else framed (is_some s.te)
    ]

unfoldable pub framing : RequestFields → Verdict
framing head = elim (see_all head.headers nothing_seen) [
  | none ↦ refused 400 (codes "conflicting content-length")
  | some s ↦ verdict head.version s
]
