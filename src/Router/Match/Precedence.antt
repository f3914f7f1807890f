-- ===== src/Router/Match/Precedence.antt =====
-- Which route `Router::match` of src/engine/Router.cpp answers: one that matches the path, of the
-- greatest specificity.
use nitro_server.Base.{
  ℕ, suc, ◌+◌, ◌≤◌, ◌≡◌, ◌⊎◌, refl, sym, ap, ◌∙◌, true, ◌&&◌, ◌||◌, not, Option, none, some, List,
  [], ◌∷◌, ◌++◌, if◌then◌else◌, append-nil, Bool-cases, Option-cases, inl, inr, ◌<◌, arith,
  bytes_eq_iff, ltb, ◌==◌, InList, InList-append_left, InList-append_right,
}
use nitro_server.Base.Text.{Bytes}
use nitro_server.Common.{Method}
use nitro_server.Router.{RouteEntry, Node, node, MaybeNode, no_node, a_node, Router, split}
use nitro_server.Router.Match.{
  Captures, Best, no_rest, pick, pick_maybe, consider, wildcard_of, param_frames, static_frames,
  child_of, pushed_on, match_route, is_all_method,
}
use nitro_server.Router.Match.Search.{
  Candidate, candidate, consider_all, visited, under, candidates, match_route_lem, under-append,
}
use nitro_server.Router.Match.Steps.{
  Step, star, param, lit, child_at, follow, steps_match, specificity, candidates-IsFound,
}

add_nil : (n : ℕ) → n + 0 ≡ n
add_nil n = omega arith

module _ (method : Method) (token : Bytes) where
  -- A candidate with a given route and specificity.
  pub record Stands (e : RouteEntry) (spec : ℕ) (cs : List Candidate) : Type 0 where
    pub found : Candidate
    pub among : InList found cs
    pub its_route : found.route ≡ e
    pub its_spec : found.spec ≡ spec

  Stands-append_left :
      (e : RouteEntry) (k : ℕ) (xs ys : List Candidate) → Stands e k xs → Stands e k (xs ++ ys)
  Stands-append_left e k xs ys s = record {
    found = s.found;
    among = InList-append_left s.found xs ys s.among;
    its_route = s.its_route;
    its_spec = s.its_spec;
  }

  Stands-append_right :
      (e : RouteEntry) (k : ℕ) (xs ys : List Candidate) → Stands e k ys → Stands e k (xs ++ ys)
  Stands-append_right e k xs ys s = record {
    found = s.found;
    among = InList-append_right s.found xs ys s.among;
    its_route = s.its_route;
    its_spec = s.its_spec;
  }

  candidate-Stands :
      (o : Option RouteEntry) (captures : Captures) (spec : ℕ) (e : RouteEntry)
      → o ≡ some e
      → Stands e spec (candidate method token o captures spec)
  candidate-Stands none captures spec e h = cc
  candidate-Stands (some r) captures spec e h = record {
    found = record { route = r; captures = captures; spec = spec };
    among = inl refl;
    its_route = cc;
    its_spec = refl;
  }

  follow_nil : (n m : Node) → follow [] n ≡ a_node m → n ≡ m
  unfolding follow
  follow_nil n m h = cc

  follow_cons :
      (p : Step) (ps : List Step) (n m : Node)
      → follow (p ∷ ps) n ≡ a_node m
      → (k : Node) × (child_at p n ≡ a_node k) × (follow ps k ≡ a_node m)
  unfolding follow
  follow_cons p ps n m h =
      elim (child_at p n)
          as (λ (o : MaybeNode).
            elim o as (λ o. MaybeNode) [ no_node ↦ no_node | a_node k ↦ follow ps k ] ≡ a_node m
            → (k : Node) × (o ≡ a_node k) × (follow ps k ≡ a_node m)) [
              | no_node ↦ λ g. cc
              | a_node k ↦ λ g. (k, refl, g)
            ]
        h

  child_at-star : (n : Node) → child_at star n ≡ wildcard_of n
  unfolding child_at
  child_at-star (node statik param_node name wildcard entries) = refl

  child_at-lit : (s : Bytes) (n : Node) → child_at (lit s) n ≡ child_of s n
  unfolding child_at
  child_at-lit s (node statik param_node name wildcard entries) = refl

  visited-here :
      (n : Node) (captures : Captures) (spec : ℕ) (e : RouteEntry)
      → pick method token n ≡ some e
      → Stands e spec (visited method token n [] captures spec)
  unfolding visited
  visited-here n captures spec e h =
      Stands-append_left e spec (candidate method token (pick method token n) captures spec) _
        (candidate-Stands (pick method token n) captures spec e h)

  visited-star :
      (rest : List Bytes) (n m : Node) (captures : Captures) (spec : ℕ) (e : RouteEntry)
      → wildcard_of n ≡ a_node m
      → pick method token m ≡ some e
      → Stands e spec (visited method token n rest captures spec)
  unfolding visited
  visited-star rest n m captures spec e w h =
      Stands-append_right e spec
        (if no_rest rest then candidate method token (pick method token n) captures spec else [])
        (candidate method token (pick_maybe method token (wildcard_of n)) captures spec)
        (candidate-Stands (pick_maybe method token (wildcard_of n)) captures spec e
          (rw w (unfold pick_maybe in h)))

  candidates-visited :
      (rest : List Bytes) (n : Node) (captures : Captures) (spec : ℕ) (e : RouteEntry) (k : ℕ)
      → Stands e k (visited method token n rest captures spec)
      → Stands e k (candidates method token rest n captures spec)
  unfolding candidates
  candidates-visited [] n captures spec e k h = h
  candidates-visited (s ∷ rest) n captures spec e k h = Stands-append_left e k _ _ h

  candidates-static :
      (s : Bytes) (rest : List Bytes) (n m : Node) (captures : Captures) (spec : ℕ) (e : RouteEntry)
      (k : ℕ)
      → child_of s n ≡ a_node m
      → Stands e k (candidates method token rest m captures (spec + 2))
      → Stands e k (candidates method token (s ∷ rest) n captures spec)
  unfolding candidates pushed_on
  candidates-static s rest n m captures spec e k w h =
      Stands-append_right e k (visited method token n (s ∷ rest) captures spec) _ (
        rw
          (under-append method token (candidates method token rest)
            (static_frames (child_of s n) rest captures spec) (param_frames n s rest captures spec))
          (Stands-append_left e k
            (under method token (candidates method token rest)
              (static_frames (child_of s n) rest captures spec))
            _ (rw (w, append-nil (candidates method token rest m captures (spec + 2))) h)))

  under-param_frames :
      (s : Bytes) (rest : List Bytes) (n m : Node) (captures : Captures) (spec : ℕ) (e : RouteEntry)
      (k : ℕ)
      → child_at param n ≡ a_node m
      → ((c : Captures) → Stands e k (candidates method token rest m c (spec + 1)))
      → Stands e k
          (under method token (candidates method token rest) (param_frames n s rest captures spec))
  unfolding child_at
  under-param_frames s rest (node statik no_node name wildcard entries) m captures spec e k w h = cc
  under-param_frames s rest (node statik (a_node p) name wildcard entries) m captures spec e k w h =
      let same : p ≡ m = cc in rw (append-nil, same) (h _)

  candidates-param :
      (s : Bytes) (rest : List Bytes) (n m : Node) (captures : Captures) (spec : ℕ) (e : RouteEntry)
      (k : ℕ)
      → child_at param n ≡ a_node m
      → ((c : Captures) → Stands e k (candidates method token rest m c (spec + 1)))
      → Stands e k (candidates method token (s ∷ rest) n captures spec)
  unfolding candidates pushed_on
  candidates-param s rest n m captures spec e k w h =
      Stands-append_right e k (visited method token n (s ∷ rest) captures spec) _ (
        rw
          (under-append method token (candidates method token rest)
            (static_frames (child_of s n) rest captures spec) (param_frames n s rest captures spec))
          (Stands-append_right e k
            (under method token (candidates method token rest)
              (static_frames (child_of s n) rest captures spec))
            _ (under-param_frames s rest n m captures spec e k w h)))

  -- The walk considers the end of every path that matches.
  pub candidates_complete :
      (ps : List Step) (rest : List Bytes) (n m : Node) (captures : Captures) (spec k : ℕ)
      (e : RouteEntry)
      → follow ps n ≡ a_node m
      → pick method token m ≡ some e
      → steps_match ps rest ≡ true
      → k ≡ spec + specificity ps
      → Stands e k (candidates method token rest n captures spec)
  unfolding steps_match specificity
  candidates_complete [] [] n m captures spec k e f p h w =
      candidates-visited [] n captures spec e k
        (rw (w, add_nil spec) (visited-here n captures spec e (rw (follow_nil n m f) p)))
  candidates_complete [] (s ∷ rest) n m captures spec k e f p h w = cc
  candidates_complete (star ∷ []) rest n m captures spec k e f p h w =
      let (j, at, end) = follow_cons star [] n m f in
      candidates-visited rest n captures spec e k (
        rw (w, add_nil spec)
          (visited-star rest n j captures spec e (sym (child_at-star n) ∙ at)
            (rw (follow_nil j m end) p)))
  candidates_complete (star ∷ q ∷ ps) rest n m captures spec k e f p h w = cc
  candidates_complete (param ∷ ps) [] n m captures spec k e f p h w = cc
  candidates_complete (param ∷ ps) (s ∷ rest) n m captures spec k e f p h w =
      let (j, at, end) = follow_cons param ps n m f in
      candidates-param s rest n j captures spec e k at
        (λ c. candidates_complete ps rest j m c (spec + 1) k e end p h (omega (arith, w)))
  candidates_complete (lit t ∷ ps) [] n m captures spec k e f p h w = cc
  candidates_complete (lit t ∷ ps) (s ∷ rest) n m captures spec k e f p h w =
      let (j, at, end) = follow_cons (lit t) ps n m f in
      let same : t ≡ s = ground (arith, bytes_eq_iff t s) in
      let more : steps_match ps rest ≡ true = ground arith in
      candidates-static s rest n j captures spec e k (sym (child_at-lit s n) ∙ rw same at at)
        (candidates_complete ps rest j m captures (spec + 2) k e end p more (omega (arith, w)))

  -- One more than the specificity of the best so far, and 0 where there is none.
  height : Option Best → ℕ
  height none = 0
  height (some b) = suc b.spec

  consider-height :
      (e : RouteEntry) (captures : Captures) (spec : ℕ) (best : Option Best)
      → (height best ≤ height (consider method token (some e) captures spec best))
        × (spec < height (consider method token (some e) captures spec best))
  unfolding height consider
  consider-height e captures spec none = (omega arith, omega arith)
  consider-height e captures spec (some b) = (ground arith, ground arith)

  consider_all-height :
      (cs : List Candidate) (best : Option Best)
      → height best ≤ height (consider_all method token cs best)
  unfolding consider_all
  consider_all-height [] best = omega arith
  consider_all-height (c ∷ cs) best =
      let (grown, above) = consider-height c.route c.captures c.spec best in
      omega (
        arith,
        grown,
        consider_all-height cs (consider method token (some c.route) c.captures c.spec best),
      )

  -- Every candidate is at most as specific as the result.
  consider_all-bound :
      (cs : List Candidate) (best : Option Best) (c : Candidate)
      → InList c cs
      → c.spec < height (consider_all method token cs best)
  unfolding consider_all
  consider_all-bound [] best c h = absurd h
  consider_all-bound (x ∷ cs) best c (inl same) =
      let next = consider method token (some x.route) x.captures x.spec best in
      let (grown, above) = consider-height x.route x.captures x.spec best in
      let level : x.spec ≡ c.spec = ap (λ (y : Candidate). y.spec) same in
      omega (arith, level, above, consider_all-height cs next)
  consider_all-bound (x ∷ cs) best c (inr h) = consider_all-bound cs _ c h

  -- The result is the best so far or one of the candidates.
  abbrev IsFrom : Best → List Candidate → Option Best → Type 0
  IsFrom b cs best = (best ≡ some b) ⊎ Stands b.route b.spec cs

  consider_one :
      (x : Candidate) (best : Option Best) (b : Best)
      → consider method token (some x.route) x.captures x.spec best ≡ some b
      → (best ≡ some b) ⊎ ((x.route ≡ b.route) × (x.spec ≡ b.spec))
  unfolding consider
  consider_one x none b h = inr (cc, cc)
  consider_one x (some a) b h =
      elim (Bool-cases (
        ltb a.spec x.spec
        || (x.spec == a.spec && a.is_all && not (is_all_method x.route.method)))) [
          | inl e ↦ inr (ground (arith, e, h), ground (arith, e, h))
          | inr e ↦ inl (ground (arith, e, h))
        ]

  consider_all-IsFrom :
      (cs : List Candidate) (best : Option Best) (b : Best)
      → consider_all method token cs best ≡ some b
      → IsFrom b cs best
  unfolding consider_all
  consider_all-IsFrom [] best b h = inl h
  consider_all-IsFrom (x ∷ cs) best b h =
      elim (consider_all-IsFrom cs (consider method token (some x.route) x.captures x.spec best) b
        h) [
          | inl e ↦ elim (consider_one x best b e) [
            | inl same ↦ inl same
            | inr (r, k) ↦ inr (record { found = x; among = inl refl; its_route = r; its_spec = k })
          ]
          | inr s ↦ inr (record {
            found = s.found;
            among = inr s.among;
            its_route = s.its_route;
            its_spec = s.its_spec;
          })
        ]

  -- What `match` answers: a route at the end of matching steps, whose weight is the answer's.
  pub record Answers (b : Best) (segs : List Bytes) (root : Node) : Type 0 where
    pub steps : List Step
    pub at : Node
    pub reached : follow steps root ≡ a_node at
    pub picked : pick method token at ≡ some b.route
    pub matches : steps_match steps segs ≡ true
    pub weight : b.spec ≡ specificity steps

  -- The route that `match` answers stands at the end of a path of the trie that matches the request
  -- path, under the key that the node's choice of method takes first.
  pub match_route-Answers :
      (path : Bytes) (r : Router) (b : Best)
      → match_route method token path r ≡ some b
      → Answers b (split path) r.root
  match_route-Answers path r b h =
      elim (consider_all-IsFrom (candidates method token (split path) r.root [] 0) none b
        (sym (match_route_lem method token path r) ∙ h)) [
          | inl e ↦ cc
          | inr s ↦
              let f = candidates-IsFound method token (split path) r.root [] 0 s.found s.among in
              record {
                steps = f.steps;
                at = f.at;
                reached = f.reached;
                picked = rw s.its_route at f.picked;
                matches = f.matches;
                weight = omega (arith, f.weight, s.its_spec);
              }
        ]

  -- Where a path of the trie matches the request path and ends at a node with a route for the method,
  -- `match` answers a route, and its specificity, two for each static segment and one for each param, is
  -- at least that of the path.
  pub match_route-greatest :
      (path : Bytes) (r : Router) (steps : List Step) (at : Node) (e : RouteEntry)
      → follow steps r.root ≡ a_node at
      → pick method token at ≡ some e
      → steps_match steps (split path) ≡ true
      → (b : Best) × (match_route method token path r ≡ some b) × (specificity steps ≤ b.spec)
  match_route-greatest path r steps at e f p h =
      let cs = candidates method token (split path) r.root [] 0 in
      let s =
        candidates_complete steps (split path) r.root at [] 0 (specificity steps) e f p h
          (omega arith) in
      let bound = consider_all-bound cs none s.found s.among in
      let answer = sym (match_route_lem method token path r) in
      elim (Option-cases (consider_all method token cs none)) [
        | inl absent ↦ absurd (unfold height in omega (arith, rw absent at bound))
        | inr (b, same) ↦
            (b, sym answer ∙ same, unfold height in omega (arith, s.its_spec, rw same at bound))
      ]
