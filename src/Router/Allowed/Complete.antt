-- ===== src/Router/Allowed/Complete.antt =====
-- What `Router::allowedMethods` of src/engine/Router.cpp lists, against what `Router::match` answers.
use nitro_server.Base.{
  ◌≡◌, ◌⊎◌, refl, sym, ◌∙◌, subst, true, none, some, List, [], ◌∷◌, Bool-cases, Option-cases, inl,
  inr, arith, bytes_eq, bytes_eq_iff, InList, InList-append_left, InList-append_right,
}
use nitro_server.Base.Text.{Bytes}
use nitro_server.Base.Assoc.{bytes_key, lookup}
use nitro_server.Common.{Method, all, custom, get}
use nitro_server.Router.{
  RouteEntry, Entries, Node, node, MaybeNode, no_node, a_node, Router, entries_of, split,
  method_key, find_child,
}
use nitro_server.Router.Match.{Best, wildcard_of, pick, is_head, allows_all, match_route}
use nitro_server.Router.Match.Steps.{Step, star, param, lit, child_at, follow, steps_match}
use nitro_server.Router.Match.Precedence.{match_route-Answers}
use nitro_server.Router.Allowed.{
  tokens_of, entries_tokens, take_tokens, collect_allowed, text_lt, put_sorted, sort, unique_from,
  unique, allowed_methods,
}

entries_tokens-lookup :
    (key : Bytes) (t : Bytes) (entries : Entries) (e : RouteEntry)
    → lookup key entries ≡ some e
    → InList t (tokens_of e.method e.custom_method)
    → InList t (entries_tokens entries)
unfolding entries_tokens lookup
entries_tokens-lookup key t [] e h listed = cc
entries_tokens-lookup key t ((k, d) ∷ entries) e h listed = elim (Bool-cases (bytes_eq k key)) [
  | inl same ↦
      let is : d ≡ e = cc in
      InList-append_left t (tokens_of d.method d.custom_method) _ (rw is listed)
  | inr other ↦
      InList-append_right t (tokens_of d.method d.custom_method) _
        (entries_tokens-lookup key t entries e (rw other at h) listed)
]

pick-lookup :
    (method : Method) (token : Bytes) (n : Node) (e : RouteEntry)
    → pick method token n ≡ some e
    → (key : Bytes) × (lookup key (entries_of n) ≡ some e)
unfolding pick
pick-lookup method token n e h =
    elim (Option-cases (lookup (method_key method token) (entries_of n))) [
      | inr (d, own) ↦ (method_key method token, own ∙ rw own at h)
      | inl none_own ↦ elim (Bool-cases (is_head method)) [
        | inl h1 ↦ elim (Option-cases (lookup (method_key get []) (entries_of n))) [
          | inr (d, as_get) ↦ (method_key get [], as_get ∙ rw (none_own, h1, as_get) at h)
          | inl none_get ↦ elim (Bool-cases (allows_all method)) [
            | inl h2 ↦ (method_key all [], rw (none_own, h1, none_get, h2) at h)
            | inr h2 ↦ let clash = rw (none_own, h1, none_get, h2) at h in cc
          ]
        ]
        | inr h1 ↦ elim (Bool-cases (allows_all method)) [
          | inl h2 ↦ (method_key all [], rw (none_own, h1, h2) at h)
          | inr h2 ↦ let clash = rw (none_own, h1, h2) at h in cc
        ]
      ]
    ]

entries_tokens-pick :
    (method : Method) (token t : Bytes) (n : Node) (e : RouteEntry)
    → pick method token n ≡ some e
    → InList t (tokens_of e.method e.custom_method)
    → InList t (take_tokens (a_node n))
unfolding take_tokens
entries_tokens-pick method token t n e h listed =
    let (key, found) = pick-lookup method token n e h in
    entries_tokens-lookup key t (entries_of n) e found listed

follow_split :
    (p : Step) (ps : List Step) (n at : Node)
    → follow (p ∷ ps) n ≡ a_node at
    → (m : Node) × (child_at p n ≡ a_node m) × (follow ps m ≡ a_node at)
unfolding follow
follow_split p ps n at h =
    elim (child_at p n)
        as (λ (o : MaybeNode).
          elim o as (λ o. MaybeNode) [ no_node ↦ no_node | a_node k ↦ follow ps k ] ≡ a_node at
          → (m : Node) × (o ≡ a_node m) × (follow ps m ≡ a_node at)) [
            | no_node ↦ λ g. cc
            | a_node k ↦ λ g. (k, refl, g)
          ]
      h

collect_allowed-star :
    (t : Bytes) (rest : List Bytes) (n m : Node)
    → child_at star n ≡ a_node m
    → InList t (take_tokens (a_node m))
    → InList t (collect_allowed rest n)
unfolding collect_allowed child_at
collect_allowed-star t [] (node statik param_node name wildcard entries) m h listed =
    InList-append_left t (take_tokens wildcard) _ (rw h listed)
collect_allowed-star t (s ∷ rest) (node statik param_node name wildcard entries) m h listed =
    InList-append_left t (take_tokens wildcard) _ (rw h listed)

collect_allowed-lit :
    (t s : Bytes) (rest : List Bytes) (n m : Node)
    → child_at (lit s) n ≡ a_node m
    → InList t (collect_allowed rest m)
    → InList t (collect_allowed (s ∷ rest) n)
unfolding collect_allowed child_at
collect_allowed-lit t s rest (node statik param_node name wildcard entries) m h listed =
    InList-append_right t (take_tokens wildcard) _
      (rw h (InList-append_left t (collect_allowed rest m) _ listed))

collect_allowed-param :
    (t s : Bytes) (rest : List Bytes) (n m : Node)
    → child_at param n ≡ a_node m
    → InList t (collect_allowed rest m)
    → InList t (collect_allowed (s ∷ rest) n)
unfolding collect_allowed child_at
collect_allowed-param t s rest (node statik param_node name wildcard entries) m h listed =
    InList-append_right t (take_tokens wildcard) _ (
      InList-append_right t
        (elim (find_child s statik) as (λ o. List Bytes) [
          | no_node ↦ []
          | a_node k ↦ collect_allowed rest k
        ])
        _ (rw h listed))

-- The tokens of every node at the end of a path that matches are collected.
collect_allowed-follow :
    (t : Bytes) (ps : List Step) (rest : List Bytes) (n at : Node)
    → follow ps n ≡ a_node at
    → steps_match ps rest ≡ true
    → InList t (take_tokens (a_node at))
    → InList t (collect_allowed rest n)
unfolding steps_match
collect_allowed-follow t [] [] n at f h listed =
    let same : n ≡ at = unfold follow in cc in
    unfold collect_allowed in InList-append_right t (take_tokens (wildcard_of n)) _ (rw same listed)
collect_allowed-follow t [] (s ∷ rest) n at f h listed = cc
collect_allowed-follow t (star ∷ []) rest n at f h listed =
    let (m, here, end) = follow_split star [] n at f in
    let same : m ≡ at = unfold follow in cc in collect_allowed-star t rest n m here (rw same listed)
collect_allowed-follow t (star ∷ q ∷ ps) rest n at f h listed = cc
collect_allowed-follow t (param ∷ ps) [] n at f h listed = cc
collect_allowed-follow t (param ∷ ps) (s ∷ rest) n at f h listed =
    let (m, here, end) = follow_split param ps n at f in
    collect_allowed-param t s rest n m here (collect_allowed-follow t ps rest m at end h listed)
collect_allowed-follow t (lit r ∷ ps) [] n at f h listed = cc
collect_allowed-follow t (lit r ∷ ps) (s ∷ rest) n at f h listed =
    let (m, here, end) = follow_split (lit r) ps n at f in
    let same : r ≡ s = ground (arith, bytes_eq_iff r s) in
    let more : steps_match ps rest ≡ true = ground arith in
    collect_allowed-lit t s rest n m (rw same at here)
      (collect_allowed-follow t ps rest m at end more listed)

put_sorted-InList :
    (t s : Bytes) (ts : List Bytes) → (s ≡ t) ⊎ InList t ts → InList t (put_sorted s ts)
unfolding put_sorted
put_sorted-InList t s [] h = h
put_sorted-InList t s (u ∷ ts) h = elim (Bool-cases (text_lt u s)) [
  | inr e ↦ rw e h
  | inl e ↦ rw e (elim h [
    | inl is ↦ inr (put_sorted-InList t s ts (inl is))
    | inr (inl is) ↦ inl is
    | inr (inr more) ↦ inr (put_sorted-InList t s ts (inr more))
  ])
]

sort-InList : (t : Bytes) (ts : List Bytes) → InList t ts → InList t (sort ts)
unfolding sort
sort-InList t [] h = h
sort-InList t (s ∷ ts) (inl e) = put_sorted-InList t s (sort ts) (inl e)
sort-InList t (s ∷ ts) (inr h) = put_sorted-InList t s (sort ts) (inr (sort-InList t ts h))

unique_from-InList :
    (t s : Bytes) (ts : List Bytes) → (s ≡ t) ⊎ InList t ts → InList t (unique_from s ts)
unfolding unique_from
unique_from-InList t s [] h = h
unique_from-InList t s (u ∷ ts) h = elim (Bool-cases (bytes_eq s u)) [
  | inl e ↦
      let same : s ≡ u = (bytes_eq_iff s u).0 e in
      rw e (unique_from-InList t u ts (elim h [ inl is ↦ inl (sym same ∙ is) | inr more ↦ more ]))
  | inr e ↦ rw e (elim h [ inl is ↦ inl is | inr more ↦ inr (unique_from-InList t u ts more) ])
]

unique-InList : (t : Bytes) (ts : List Bytes) → InList t ts → InList t (unique ts)
unfolding unique
unique-InList t [] h = h
unique-InList t (s ∷ ts) h = unique_from-InList t s ts h

-- Whatever the request's method, every token that the route which `match` answers is listed under is
-- among the allowed methods of the path.
pub allowed_methods-match_route :
    (method : Method) (token path t : Bytes) (r : Router) (b : Best)
    → match_route method token path r ≡ some b
    → InList t (tokens_of b.route.method b.route.custom_method)
    → InList t (allowed_methods path r)
unfolding allowed_methods
allowed_methods-match_route method token path t r b h listed =
    let a = match_route-Answers method token path r b h in
    unique-InList t (sort (collect_allowed (split path) r.root)) (
      sort-InList t (collect_allowed (split path) r.root) (
        collect_allowed-follow t a.steps (split path) r.root a.at a.reached a.matches
          (entries_tokens-pick method token t a.at b.route a.picked listed)))

first_token : (m : Method) (token : Bytes) → (t : Bytes) × InList t (tokens_of m token)
unfolding tokens_of
first_token custom token = (token, inl refl)
first_token m token = (_, inl refl)

-- A path with no allowed method has no route for any method: an empty `Allow` list is a 404.
pub allowed_methods-none :
    (method : Method) (token path : Bytes) (r : Router)
    → allowed_methods path r ≡ []
    → match_route method token path r ≡ none
allowed_methods-none method token path r h = elim (Option-cases (match_route method token path r)) [
  | inl absent ↦ absent
  | inr (b, e) ↦
      let (t, listed) = first_token b.route.method b.route.custom_method in
      absurd
        (subst (λ l. InList t l) h (allowed_methods-match_route method token path t r b e listed))
]
