-- ===== src/Router/Register.antt =====
-- `UvReactor::registerRoute` and `unregisterRoute` of src/engine/UvReactor.cpp, with the list of
-- WebSocket protocols that a route is given as one text.
use nitro_server.Base.{
  ℕ, ◌≡◌, ◌⊎◌, inl, inr, refl, Bool, true, false, ◌&&◌, Option, none, List, [], ◌∷◌, ◌++◌,
  if◌then◌else◌, ◌==◌, Bool-cases,
}
use nitro_server.Base.Text.{Bytes}
use nitro_server.Common.{Method}
use nitro_server.Router.{Router, is_nil, add, remove}

-- The blanks in front, and those at the end.
unfoldable pub skip_spaces : Bytes → Bytes
skip_spaces [] = []
skip_spaces (c ∷ s) = let rest = skip_spaces s in if c == b' ' then rest else c ∷ s

unfoldable pub drop_spaces : Bytes → Bytes
drop_spaces [] = []
drop_spaces (c ∷ s) = let rest = drop_spaces s in if is_nil rest && c == b' ' then [] else c ∷ rest

-- A piece between two commas, left out where nothing but blanks is in it.
unfoldable pub keep_piece : Bytes → List Bytes
keep_piece piece =
    let text = drop_spaces (skip_spaces piece) in if is_nil text then [] else text ∷ []

-- `piece` is what has been read since the last comma.
unfoldable pub split_protocols : Bytes → Bytes → List Bytes
split_protocols piece [] = keep_piece piece
split_protocols piece (c ∷ s) = elim (c == b',') [
  | true ↦ keep_piece piece ++ split_protocols [] s
  | false ↦ split_protocols (piece ++ (c ∷ [])) s
]

-- `none` is a timeout or a cap that is negative. False is `BadRequest`.
unfoldable pub register_route :
    Method → Bytes → Bytes → Option ℕ → Bool → Bool → Option ℕ → Bytes → Router → Router × Bool
register_route method token pattern timeout_ms is_web_socket stream_body max_body_bytes protocols
      r =
    add
      (record {
        method = method;
        custom_method = token;
        pattern = pattern;
        timeout_ms = timeout_ms;
        is_web_socket = is_web_socket;
        stream_body = stream_body;
        max_body_bytes = max_body_bytes;
        ws_protocols = split_protocols [] protocols;
        static_response = none;
      })
      r

-- False is `RouteNotFound`.
unfoldable pub unregister_route : Method → Bytes → Bytes → Router → Router × Bool
unregister_route method token pattern r = remove method token pattern r

-- A protocol as it may stand in a list: not empty, and no blank at either end.
abbrev pub starts_space : Bytes → Bool
starts_space [] = true
starts_space (c ∷ s) = c == b' '

unfoldable pub ends_space : Bytes → Bool
ends_space [] = true
ends_space (c ∷ []) = c == b' '
ends_space (c ∷ d ∷ s) = ends_space (d ∷ s)

-- Every protocol that is kept is trimmed.
abbrev pub IsTrimmed : List Bytes → Type 0
IsTrimmed [] = Unit
IsTrimmed (p ∷ ps) = (starts_space p ≡ false) × (ends_space p ≡ false) × IsTrimmed ps

IsTrimmed-append : (ps qs : List Bytes) → IsTrimmed ps → IsTrimmed qs → IsTrimmed (ps ++ qs)
IsTrimmed-append [] qs h k = k
IsTrimmed-append (p ∷ ps) qs (starts, ends, h) k = (starts, ends, IsTrimmed-append ps qs h k)

skip_spaces-starts_space :
    (s : Bytes) → (skip_spaces s ≡ []) ⊎ (starts_space (skip_spaces s) ≡ false)
unfolding skip_spaces
skip_spaces-starts_space [] = inl refl
skip_spaces-starts_space (c ∷ s) = elim (Bool-cases (c == b' ')) [
  | inl e ↦ rw (skip_spaces, e) (skip_spaces-starts_space s)
  | inr e ↦ inr (rw (skip_spaces, e) e)
]

ends_space-cons :
    (c : ℕ) (rest : Bytes)
    → ends_space rest ≡ false
    → ends_space (if is_nil rest && c == b' ' then [] else c ∷ rest) ≡ false
unfolding ends_space
ends_space-cons c [] h = cc
ends_space-cons c (d ∷ s) h = h

drop_spaces-ends_space : (s : Bytes) → (drop_spaces s ≡ []) ⊎ (ends_space (drop_spaces s) ≡ false)
unfolding drop_spaces ends_space
drop_spaces-ends_space [] = inl refl
drop_spaces-ends_space (c ∷ s) = elim (drop_spaces-ends_space s) [
  | inl e ↦ elim (Bool-cases (c == b' ')) [
    | inl f ↦ inl (rw (drop_spaces, e, f) refl)
    | inr f ↦ inr (rw (drop_spaces, e, f, ends_space) f)
  ]
  | inr e ↦ inr (ends_space-cons c (drop_spaces s) e)
]

drop_spaces-starts_space :
    (s : Bytes) → starts_space s ≡ false → starts_space (drop_spaces s) ≡ false
unfolding drop_spaces
drop_spaces-starts_space [] h = cc
drop_spaces-starts_space (c ∷ s) h = elim (Bool-cases (is_nil (drop_spaces s))) [
  | inl e ↦ rw (drop_spaces, e, h) h
  | inr e ↦ rw (drop_spaces, e) h
]

keep_nonempty :
    (text : Bytes)
    → (text ≡ []) ⊎ ((starts_space text ≡ false) × (ends_space text ≡ false))
    → IsTrimmed (if is_nil text then [] else text ∷ [])
keep_nonempty [] h = tt
keep_nonempty (c ∷ s) (inl e) = cc
keep_nonempty (c ∷ s) (inr (starts, ends)) = (starts, ends, tt)

keep_piece-IsTrimmed : (piece : Bytes) → IsTrimmed (keep_piece piece)
unfolding keep_piece
keep_piece-IsTrimmed piece =
    keep_nonempty (drop_spaces (skip_spaces piece)) (elim (skip_spaces-starts_space piece) [
      | inl e ↦ inl (rw e (unfold drop_spaces in refl))
      | inr starts ↦ elim (drop_spaces-ends_space (skip_spaces piece)) [
        | inl e ↦ inl e
        | inr ends ↦ inr (drop_spaces-starts_space (skip_spaces piece) starts, ends)
      ]
    ])

split_protocols_lem : (piece s : Bytes) → IsTrimmed (split_protocols piece s)
unfolding split_protocols
split_protocols_lem piece [] = keep_piece-IsTrimmed piece
split_protocols_lem piece (c ∷ s) = elim (Bool-cases (c == b',')) [
  | inl e ↦
      rw (split_protocols, e)
        (IsTrimmed-append (keep_piece piece) (split_protocols [] s) (keep_piece-IsTrimmed piece)
          (split_protocols_lem [] s))
  | inr e ↦ rw (split_protocols, e) (split_protocols_lem (piece ++ (c ∷ [])) s)
]

-- No protocol that a route is registered with is empty or has a blank at either end.
pub split_protocols-IsTrimmed : (protocols : Bytes) → IsTrimmed (split_protocols [] protocols)
split_protocols-IsTrimmed protocols = split_protocols_lem [] protocols
