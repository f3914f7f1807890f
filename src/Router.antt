-- ===== src/Router.antt =====
-- src/engine/Router.h and src/engine/Router.cpp: the segment trie of the routes.
--
-- A node's children, its `:param` child and its `*` child are owned pointers, so that the trie is a
-- tree; a null pointer is `no_node`. `std::map` is an association list: only `allowedMethods`, which
-- sorts its answer, walks one.
pub mod Trie
pub mod Match
pub mod Allowed
pub mod Register
mod Examples
use nitro_server.Base.{
  ℕ, zero, suc, ◌+◌, ◌-◌, Bool, true, false, ◌&&◌, ◌||◌, not, Option, none, some, List, [], ◌∷◌,
  ◌++◌, if◌then◌else◌, ◌==◌, bytes_eq, drop,
}
use nitro_server.Base.Text.{Bytes, codes}
use nitro_server.Base.Assoc.{bytes_key, lookup, insert, erase}
use nitro_server.Common.{Method, all, custom, method_index}

pub record StaticResponse : Type 0 where
  pub status : ℕ
  pub headers : List (Bytes × Bytes)
  pub body : Bytes

-- `none` is the -1 that inherits the server's value; a null `staticResponse` is `none` too.
pub record RouteEntry : Type 0 where
  pub method : Method
  pub custom_method : Bytes
  pub pattern : Bytes
  pub timeout_ms : Option ℕ
  pub is_web_socket : Bool
  pub stream_body : Bool
  pub max_body_bytes : Option ℕ
  pub ws_protocols : List Bytes
  pub static_response : Option StaticResponse

abbrev pub Entries : Type 0
Entries = List (Bytes × RouteEntry)

mutual
  -- The static children, the `:param` child and its name, the `*` child, and the routes that end here.
  pub data Node : Type 0 where
    node : Children → MaybeNode → Bytes → MaybeNode → Entries → Node

  pub data Children : Type 0 where
    no_child : Children
    child : Bytes → Node → Children → Children

  pub data MaybeNode : Type 0 where
    no_node : MaybeNode
    a_node : Node → MaybeNode

pub record Router : Type 0 where
  pub root : Node
  pub size : ℕ

abbrev pub fresh_node : Node
fresh_node = node no_child no_node [] no_node []

abbrev pub empty_router : Router
empty_router = record { root = fresh_node; size = 0 }

unfoldable pub method_key : Method → Bytes → Bytes
method_key custom token = b'C' ∷ b':' ∷ token
method_key all token = b'A' ∷ []
method_key m token = b'M' ∷ b':' ∷ (b'0' + method_index m) ∷ []

abbrev pub is_nil : Bytes → Bool
is_nil [] = true
is_nil (c ∷ s) = false

-- The two inner loops of `splitInto` at once: `cur` is the segment begun, empty while slashes are
-- skipped.
unfoldable pub split_from : Bytes → Bytes → List Bytes
split_from cur [] = if is_nil cur then [] else cur ∷ []
split_from cur (c ∷ path) = elim (c == b'/') [
  | true ↦ (if is_nil cur then [] else cur ∷ []) ++ split_from [] path
  | false ↦ split_from (cur ++ (c ∷ [])) path
]

unfoldable pub split : Bytes → List Bytes
split path = split_from [] path

-- `s.find('*') != npos`
pub has_star : Bytes → Bool
has_star [] = false
has_star (c ∷ s) = c == b'*' || has_star s

-- `i == segs.size() - 1`
abbrev pub no_segment : List Bytes → Bool
no_segment [] = true
no_segment (r ∷ rs) = false

pub valid_segments : List Bytes → Bool
valid_segments [] = true
valid_segments (s ∷ rest) =
    if is_nil s || bytes_eq s (b':' ∷ [])
    then false
    else if has_star s && not (bytes_eq s (b'*' ∷ []) && no_segment rest)
    then false
    else valid_segments rest

pub valid_pattern : Bytes → Bool
valid_pattern [] = false
valid_pattern (c ∷ pattern) =
    if not (c == b'/') then false else valid_segments (split (c ∷ pattern))

-- The pointer that a segment of a pattern follows: `*`, a `:param`, or a static child.
pub data Kind : Type 0 where
  star_kind param_kind static_kind : Kind

unfoldable pub kind : Bytes → Kind
kind s =
    if bytes_eq s (b'*' ∷ [])
    then star_kind
    else elim s [ [] ↦ static_kind | c ∷ r ↦ if c == b':' then param_kind else static_kind ]

-- `statik.find(s)` and the write of a static child, at the end where it is new.
unfoldable pub find_child : Bytes → Children → MaybeNode
find_child s no_child = no_node
find_child s (child j n kids) = if bytes_eq j s then a_node n else find_child s kids

pub put_child : Bytes → Node → Children → Children
put_child s n no_child = child s n no_child
put_child s n (child j m kids) =
    if bytes_eq j s then child j n kids else child j m (put_child s n kids)

pub get_step : Bytes → Node → MaybeNode
get_step s (node statik param name wildcard entries) = elim (kind s) [
  | star_kind ↦ wildcard
  | param_kind ↦ param
  | static_kind ↦ find_child s statik
]

-- The name of a param child is the one that it was made with.
abbrev pub param_name : Bytes → MaybeNode → Bytes → Bytes
param_name s no_node name = drop 1 s
param_name s (a_node n) name = name

pub put_step : Bytes → Node → Node → Node
put_step s n (node statik param name wildcard entries) = elim (kind s) [
  | star_kind ↦ node statik param name (a_node n) entries
  | param_kind ↦ node statik (a_node n) (param_name s param name) wildcard entries
  | static_kind ↦ node (put_child s n statik) param name wildcard entries
]

-- The child that the loop of `add` goes on with, made where it is missing.
abbrev pub or_fresh : MaybeNode → Node
or_fresh no_node = fresh_node
or_fresh (a_node n) = n

abbrev pub entries_of : Node → Entries
entries_of (node statik param name wildcard entries) = entries

abbrev pub with_entries : Entries → Node → Node
with_entries e (node statik param name wildcard entries) = node statik param name wildcard e

-- Writes the entries of the node at the end of a path, whose nodes are made where they are missing.
pub write_entries : (Entries → Entries) → List Bytes → Node → Node
write_entries f [] n = with_entries (f (entries_of n)) n
write_entries f (s ∷ segs) n = put_step s (write_entries f segs (or_fresh (get_step s n))) n

pub find_node : List Bytes → Node → MaybeNode
find_node [] n = a_node n
find_node (s ∷ segs) n = elim (get_step s n) [ no_node ↦ no_node | a_node m ↦ find_node segs m ]

-- The route that is registered under a key at the end of a path.
abbrev pub entries_at : MaybeNode → Entries
entries_at no_node = []
entries_at (a_node n) = entries_of n

pub entry_at : List Bytes → Bytes → Node → Option RouteEntry
entry_at segs key n = lookup key (entries_at (find_node segs n))

abbrev pub is_none {ℓ} : {A : Type ℓ} → Option A → Bool
is_none none = true
is_none (some a) = false

pub add : RouteEntry → Router → Router × Bool
add route r =
    let segs = split route.pattern in
    let key = method_key route.method route.custom_method in
    let grown = if is_none (entry_at segs key r.root) then r.size + 1 else r.size in
    if not (valid_pattern route.pattern)
    then (r, false)
    else (record { root = write_entries (insert key route) segs r.root; size = grown }, true)

pub remove : Method → Bytes → Bytes → Router → Router × Bool
remove method custom_method pattern r =
    let segs = split pattern in
    let key = method_key method custom_method in
    if is_none (entry_at segs key r.root)
    then (r, false)
    else (record { root = write_entries (erase key) segs r.root; size = r.size - 1 }, true)
