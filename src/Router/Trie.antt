-- ===== src/Router/Trie.antt =====
-- The trie as a map from paths and methods to routes: what `add` and `remove` change.
use nitro_server.Base.{
  ◌+◌, ◌-◌, ◌≡◌, inl, inr, refl, sym, ap, ◌∙◌, Bool, true, false, ◌&&◌, none, some, List, [], ◌∷◌,
  if◌then◌else◌, bytes_eq, bytes_eq_iff, arith, Bool-cases,
}
use nitro_server.Base.Text.{Bytes}
use nitro_server.Base.Assoc.{
  bytes_key, lookup, insert, erase, lookup-insert, lookup-erase, IsUnique, insert-IsUnique,
  erase-IsUnique,
}
use nitro_server.Common.{Method}
use nitro_server.Router.{
  RouteEntry, Entries, Node, node, Children, no_child, child, MaybeNode, no_node, a_node, Router,
  fresh_node, method_key, split, valid_pattern, star_kind, param_kind, static_kind, kind,
  find_child, put_child, get_step, put_step, or_fresh, entries_of, with_entries, write_entries,
  find_node, entries_at, entry_at, is_none, add, remove,
}

-- Two pattern segments lead to the same child: both `*`, both a param, or the same static text.
unfoldable pub same_step : Bytes → Bytes → Bool
same_step s r = elim (kind s) [
  | star_kind ↦ elim (kind r) [ star_kind ↦ true | _ ↦ false ]
  | param_kind ↦ elim (kind r) [ param_kind ↦ true | _ ↦ false ]
  | static_kind ↦ elim (kind r) [ static_kind ↦ bytes_eq s r | _ ↦ false ]
]

-- Two patterns end at the same node.
unfoldable pub same_path : List Bytes → List Bytes → Bool
same_path [] [] = true
same_path [] (r ∷ rs) = false
same_path (s ∷ ss) [] = false
same_path (s ∷ ss) (r ∷ rs) = same_step s r && same_path ss rs

find_child-put_child :
    (s r : Bytes) (n : Node) (kids : Children)
    → find_child r (put_child s n kids) ≡ (if bytes_eq s r then a_node n else find_child r kids)
unfolding find_child put_child
find_child-put_child s r n no_child = refl
find_child-put_child s r n (child j m kids) =
    ground
      (arith, bytes_eq_iff s r, bytes_eq_iff j s, bytes_eq_iff j r, find_child-put_child s r n kids)

get_step-put_step :
    (s r : Bytes) (m n : Node)
    → get_step r (put_step s m n) ≡ (if same_step s r then a_node m else get_step r n)
unfolding get_step put_step same_step
get_step-put_step s r m (node statik param name wildcard entries) =
    ground (arith, find_child-put_child s r m statik)

entries_of-put_step : (s : Bytes) (m n : Node) → entries_of (put_step s m n) ≡ entries_of n
unfolding put_step
entries_of-put_step s m (node statik param name wildcard entries) = ground arith

get_step_same : (s r : Bytes) (n : Node) → same_step s r ≡ true → get_step s n ≡ get_step r n
unfolding get_step same_step
get_step_same s r (node statik param name wildcard entries) h = ground (arith, bytes_eq_iff s r)

-- The entries at the end of a path, with none where no node is.
pub entries_on : List Bytes → Node → Entries
entries_on segs n = entries_at (find_node segs n)

find_node-fresh : (segs : List Bytes) → entries_on segs fresh_node ≡ []
unfolding entries_on find_node get_step find_child
find_node-fresh [] = refl
find_node-fresh (s ∷ segs) = ground arith

entries_on-cons :
    (s : Bytes) (segs : List Bytes) (n : Node)
    → entries_on (s ∷ segs) n ≡ entries_on segs (or_fresh (get_step s n))
unfolding entries_on find_node
entries_on-cons s segs n =
    elim (get_step s n)
      as (λ (o : MaybeNode).
        entries_at (elim o [ no_node ↦ no_node | a_node m ↦ find_node segs m ])
        ≡ entries_at (find_node segs (or_fresh o))) [
          | no_node ↦ sym (find_node-fresh segs)
          | a_node m ↦ refl
        ]

get_step-with_entries :
    (r : Bytes) (e : Entries) (n : Node) → get_step r (with_entries e n) ≡ get_step r n
unfolding get_step
get_step-with_entries r e (node statik param name wildcard entries) = refl

entries_of-with_entries : (e : Entries) (n : Node) → entries_of (with_entries e n) ≡ e
entries_of-with_entries e (node statik param name wildcard entries) = refl

-- Writing the entries at the end of one path leaves those at the end of every other path alone.
entries_on-write_entries :
    (f : Entries → Entries) (qs ps : List Bytes) (n : Node)
    → entries_on ps (write_entries f qs n)
      ≡ (if same_path qs ps then f (entries_on qs n) else entries_on ps n)
unfolding write_entries same_path
entries_on-write_entries f [] [] n =
    unfold entries_on find_node in entries_of-with_entries (f (entries_of n)) n
entries_on-write_entries f [] (r ∷ rs) n =
    entries_on-cons r rs (with_entries (f (entries_of n)) n)
    ∙ ap (λ o. entries_on rs (or_fresh o)) (get_step-with_entries r (f (entries_of n)) n)
    ∙ sym (entries_on-cons r rs n)
entries_on-write_entries f (s ∷ ss) [] n =
    unfold entries_on find_node in
    entries_of-put_step s (write_entries f ss (or_fresh (get_step s n))) n
entries_on-write_entries f (s ∷ ss) (r ∷ rs) n =
    let below = or_fresh (get_step s n) in
    let written = write_entries f ss below in
    let ih = entries_on-write_entries f ss rs below in
    entries_on-cons r rs (put_step s written n)
    ∙ ap (λ o. entries_on rs (or_fresh o)) (get_step-put_step s r written n)
    ∙ elim (Bool-cases (same_step s r)) [
      | inl same ↦
          rw (same, ih, entries_on-cons s ss n, entries_on-cons r rs n, ← get_step_same s r n same)
      | inr other ↦ rw (other, entries_on-cons r rs n)
    ]

entries_on_same :
    (qs ps : List Bytes) (n : Node) → same_path qs ps ≡ true → entries_on qs n ≡ entries_on ps n
unfolding same_path
entries_on_same [] [] n h = refl
entries_on_same [] (r ∷ rs) n h = cc
entries_on_same (s ∷ ss) [] n h = cc
entries_on_same (s ∷ ss) (r ∷ rs) n h =
    entries_on-cons s ss n
    ∙ entries_on_same ss rs (or_fresh (get_step s n)) (ground arith)
    ∙ ap (λ o. entries_on rs (or_fresh o)) (get_step_same s r n (ground arith))
    ∙ sym (entries_on-cons r rs n)

-- The empty trie and every trie made from it hold a key once at a node.
abbrev pub IsTrie : Node → Type 0
IsTrie n = (ps : List Bytes) → IsUnique (entries_on ps n)

pub fresh_node-IsTrie : IsTrie fresh_node
fresh_node-IsTrie ps = rw (find_node-fresh ps) tt

write_entries-IsTrie :
    (f : Entries → Entries) (qs : List Bytes) (n : Node)
    → ((e : Entries) → IsUnique e → IsUnique (f e))
    → IsTrie n
    → IsTrie (write_entries f qs n)
write_entries-IsTrie f qs n keeps h ps = elim (Bool-cases (same_path qs ps)) [
  | inl same ↦ rw (entries_on-write_entries f qs ps n) (rw same (keeps (entries_on qs n) (h qs)))
  | inr other ↦ rw (entries_on-write_entries f qs ps n) (rw other (h ps))
]

pub add-IsTrie : (route : RouteEntry) (r : Router) → IsTrie r.root → IsTrie (add route r).0.root
unfolding add
add-IsTrie route r h = elim (Bool-cases (valid_pattern route.pattern)) [
  | inl valid ↦ rw valid (
      write_entries-IsTrie (insert _ route) (split route.pattern) r.root
        (λ e u. insert-IsUnique _ route e u) h)
  | inr malformed ↦ rw malformed h
]

pub remove-IsTrie :
    (m : Method) (token pattern : Bytes) (r : Router)
    → IsTrie r.root
    → IsTrie (remove m token pattern r).0.root
unfolding remove
remove-IsTrie m token pattern r h =
    elim (Bool-cases (is_none (entry_at (split pattern) (method_key m token) r.root))) [
      | inl missing ↦ rw missing h
      | inr found ↦ rw found (
          write_entries-IsTrie (erase (method_key m token)) (split pattern) r.root
            (λ e u. erase-IsUnique (method_key m token) e u) h)
    ]

entry_at_on :
    (ps : List Bytes) (key : Bytes) (n : Node) → entry_at ps key n ≡ lookup key (entries_on ps n)
unfolding entry_at entries_on
entry_at_on ps key n = refl

-- Adding a route with a valid pattern: its method at its node answers the route, every other method
-- and every other node answer what they did, and the route is counted unless it replaces one.
pub entry_at-add :
    (route : RouteEntry) (r : Router) (ps : List Bytes) (key : Bytes)
    → valid_pattern route.pattern ≡ true
    → ((add route r).1 ≡ true)
      × (entry_at ps key (add route r).0.root ≡ (
          if same_path (split route.pattern) ps
            && bytes_eq (method_key route.method route.custom_method) key
          then some route
          else entry_at ps key r.root))
      × ((add route r).0.size ≡ (
          if is_none
            (entry_at (split route.pattern) (method_key route.method route.custom_method) r.root)
          then r.size + 1
          else r.size))
unfolding add
entry_at-add route r ps key valid =
    let k = method_key route.method route.custom_method in
    let qs = split route.pattern in
    rw valid (
      refl,
      rw (entry_at_on, entry_at_on, entries_on-write_entries (insert k route) qs ps r.root)
          (elim (Bool-cases (same_path qs ps)) [
            | inl same ↦ rw (
              same,
              lookup-insert k key route (entries_on qs r.root),
              entries_on_same qs ps r.root same,
            )
            | inr other ↦ rw other
          ]),
      refl,
    )

-- Removing a route that is registered: its method at its node answers nothing any more, every other
-- method and node answer what they did, and the count falls by one.
pub entry_at-remove :
    (m : Method) (token pattern : Bytes) (r : Router) (ps : List Bytes) (key : Bytes)
    → IsTrie r.root
    → is_none (entry_at (split pattern) (method_key m token) r.root) ≡ false
    → ((remove m token pattern r).1 ≡ true)
      × (entry_at ps key (remove m token pattern r).0.root ≡ (
          if same_path (split pattern) ps && bytes_eq (method_key m token) key
          then none
          else entry_at ps key r.root))
      × ((remove m token pattern r).0.size ≡ r.size - 1)
unfolding remove
entry_at-remove m token pattern r ps key h found =
    let k = method_key m token in
    let qs = split pattern in
    rw found (
      refl,
      rw (entry_at_on, entry_at_on, entries_on-write_entries (erase k) qs ps r.root)
          (elim (Bool-cases (same_path qs ps)) [
            | inl same ↦
                rw (same, entries_on_same qs ps r.root same)
                  (lookup-erase k key (entries_on ps r.root) (h ps))
            | inr other ↦ rw other
          ]),
      refl,
    )
