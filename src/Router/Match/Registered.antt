-- ===== src/Router/Match/Registered.antt =====
-- A route that `Router::add` of src/engine/Router.cpp registers, seen by `Router::match`.
use nitro_server.Base.{
  ◌≤◌, ◌≡◌, ◌⊎◌, inl, inr, refl, ◌∙◌, bytes_eq_refl, arith, true, some, List, [], ◌∷◌, map,
}
use nitro_server.Base.Text.{Bytes}
use nitro_server.Base.Assoc.{bytes_key, lookup}
use nitro_server.Common.{Method}
use nitro_server.Router.{
  RouteEntry, Node, node, MaybeNode, no_node, a_node, Router, split, get_step, find_node,
  entries_at, entry_at, method_key, add,
}
use nitro_server.Router.{valid_pattern}
use nitro_server.Router.Trie.{same_step, same_path, entry_at-add}
use nitro_server.Router.Match.{Best, pick, match_route}
use nitro_server.Router.Match.Steps.{child_at, follow, step_of, steps_match, specificity}
use nitro_server.Router.Match.Precedence.{match_route-greatest}

child_at-step_of : (s : Bytes) (n : Node) → child_at (step_of s) n ≡ get_step s n
unfolding child_at step_of get_step
child_at-step_of s (node statik param_node name wildcard entries) = ground arith

MaybeNode-cases : (o : MaybeNode) → (o ≡ no_node) ⊎ ((m : Node) × (o ≡ a_node m))
MaybeNode-cases no_node = inl refl
MaybeNode-cases (a_node m) = inr (m, refl)

-- The steps of a pattern lead to the node that `add` and `remove` find.
follow-find_node : (segs : List Bytes) (n : Node) → follow (map step_of segs) n ≡ find_node segs n
unfolding follow find_node
follow-find_node [] n = refl
follow-find_node (s ∷ segs) n = elim (MaybeNode-cases (get_step s n)) [
  | inl e ↦ rw (child_at-step_of s n, e, follow, find_node, map) refl
  | inr (m, e) ↦ rw (child_at-step_of s n, e, follow, find_node, map) (follow-find_node segs m)
]

entry_at-pick :
    (method : Method) (token : Bytes) (o : MaybeNode) (e : RouteEntry)
    → lookup (method_key method token) (entries_at o) ≡ some e
    → (m : Node) × (o ≡ a_node m) × (pick method token m ≡ some e)
unfolding pick lookup
entry_at-pick method token no_node e h = cc
entry_at-pick method token (a_node m) e h = (m, refl, rw h refl)

same_step_refl : (s : Bytes) → same_step s s ≡ true
unfolding same_step
same_step_refl s = ground (arith, bytes_eq_refl s)

same_path_refl : (segs : List Bytes) → same_path segs segs ≡ true
unfolding same_path
same_path_refl [] = refl
same_path_refl (s ∷ segs) = rw (same_step_refl s) (same_path_refl segs)

-- After `add` of a route with a valid pattern, `match` answers a route for the route's own method and
-- for every path that the pattern matches, and the specificity of its answer is at least that of the
-- pattern.
pub match_route-add :
    (route : RouteEntry) (r : Router) (path : Bytes)
    → valid_pattern route.pattern ≡ true
    → steps_match (map step_of (split route.pattern)) (split path) ≡ true
    → (b : Best) × (match_route route.method route.custom_method path (add route r).0 ≡ some b)
      × (specificity (map step_of (split route.pattern)) ≤ b.spec)
match_route-add route r path valid matches =
    let segs = split route.pattern in
    let key = method_key route.method route.custom_method in
    let s = (add route r).0 in
    let (added, entry, counted) = entry_at-add route r segs key valid in
    let there : entry_at segs key s.root ≡ some route =
      entry ∙ rw (same_path_refl segs, bytes_eq_refl key) refl in
    let (m, found, picked) =
      entry_at-pick route.method route.custom_method (find_node segs s.root) route
        (unfold entry_at in there) in
    match_route-greatest route.method route.custom_method path s (map step_of segs) m route
      (follow-find_node segs s.root ∙ found) picked matches
