-- ===== src/Http/Fields.antt =====
-- `uvFindHeader`, `uvTrim`, `uvIsWebSocketUpgrade` and `uvClientWantsKeepAlive` of
-- src/engine/UvReactor.cpp, and the loops that walk a comma-separated list.
use nitro_server.Base.{
  ℕ, Bool, true, false, ◌&&◌, ◌||◌, not, Option, none, some, List, [], ◌∷◌, if◌then◌else◌, ◌==◌,
  bytes_eq, map, length, take,
}
use nitro_server.Base.Text.{Bytes, codes}
use nitro_server.Http.{lower, iequals}

abbrev pub Header : Type 0
Header = Bytes × Bytes

-- The fields of `ParsedHead` that the checks on a request read.
pub record RequestFields : Type 0 where
  pub version : Bytes
  pub headers : List Header

abbrev pub is_empty : Bytes → Bool
is_empty [] = true
is_empty (c ∷ s) = false

unfoldable pub find_header : List Header → Bytes → Option Bytes
find_header [] name = none
find_header (h ∷ hs) name =
    let rest = find_header hs name in if iequals h.0 name then some h.1 else rest

abbrev pub is_blank : ℕ → Bool
is_blank c = c == b' ' || c == b'\t'

unfoldable pub trim_front : Bytes → Bytes
trim_front [] = []
trim_front (c ∷ s) = if is_blank c then trim_front s else c ∷ s

unfoldable pub trim_back : Bytes → Bytes
trim_back [] = []
trim_back (c ∷ s) = let rest = trim_back s in if is_empty rest && is_blank c then [] else c ∷ rest

unfoldable pub trim : Bytes → Bytes
trim s = trim_back (trim_front s)

abbrev pub in_front : ℕ → List Bytes → List Bytes
in_front c [] = (c ∷ []) ∷ []
in_front c (p ∷ ps) = (c ∷ p) ∷ ps

-- The pieces between the separators: the loop over `find(sep, pos)`, whose last piece ends with the text.
unfoldable pub pieces : ℕ → Bytes → List Bytes
pieces separator [] = [] ∷ []
pieces separator (c ∷ s) =
    let rest = pieces separator s in if c == separator then [] ∷ rest else in_front c rest

abbrev pub tokens : Bytes → List Bytes
tokens s = map trim (pieces b',' s)

abbrev pub any_token : Bytes → List Bytes → Bool
any_token word [] = false
any_token word (t ∷ ts) = iequals t word || any_token word ts

abbrev pub any_keep : List Bytes → Bool
any_keep [] = false
any_keep (t ∷ ts) =
    (not (iequals t (codes "close")) && iequals t (codes "keep-alive")) || any_keep ts

unfoldable pub client_wants_keep_alive : RequestFields → Bool
client_wants_keep_alive head =
    let otherwise = not (bytes_eq head.version (codes "HTTP/1.0")) in
    elim (find_header head.headers (codes "connection")) [
      | none ↦ otherwise
      | some v ↦
          if any_token (codes "close") (tokens v)
          then false
          else if any_keep (tokens v)
          then true
          else otherwise
    ]

-- `ls.find(needle) != npos` on the lowered text.
unfoldable pub contains : Bytes → Bytes → Bool
contains [] needle = is_empty needle
contains (c ∷ s) needle =
    let rest = contains s needle in bytes_eq (take (length needle) (c ∷ s)) needle || rest

abbrev pub icontains : Bytes → Bytes → Bool
icontains s needle = contains (map lower s) needle

unfoldable pub is_web_socket_upgrade : RequestFields → Bool
is_web_socket_upgrade head = elim (find_header head.headers (codes "upgrade")) [
  | none ↦ false
  | some up ↦ elim (find_header head.headers (codes "connection")) [
    | none ↦ false
    | some cn ↦ icontains up (codes "websocket") && icontains cn (codes "upgrade")
  ]
]
