-- ===== src/Router/Match/Steps.antt =====
-- Paths in the trie, when they match a request path, and their specificity.
use nitro_server.Base.{
  ℕ, ◌+◌, ◌≡◌, refl, sym, ap, Bool, true, false, ◌&&◌, Option, none, some, List, [], ◌∷◌, ◌++◌,
  if◌then◌else◌, append-nil, inl, inr, arith, bytes_eq, InList, InList-append_split, bytes_eq_refl,
}
use nitro_server.Base.Text.{Bytes}
use nitro_server.Common.{Method}
use nitro_server.Router.{
  RouteEntry, Node, node, MaybeNode, no_node, a_node, find_child, star_kind, param_kind,
  static_kind, kind,
}
use nitro_server.Router.Match.{
  Captures, no_rest, pick, pick_maybe, wildcard_of, param_frames, static_frames, child_of,
  pushed_on,
}
use nitro_server.Router.Match.Search.{
  Candidate, candidate, visited, under, candidates, under-append,
}

-- A step from a node of the trie to a child.
pub data Step : Type 0 where
  star param : Step
  lit : Bytes → Step

unfoldable pub child_at : Step → Node → MaybeNode
child_at star (node statik param_node name wildcard entries) = wildcard
child_at param (node statik param_node name wildcard entries) = param_node
child_at (lit s) (node statik param_node name wildcard entries) = find_child s statik

unfoldable pub follow : List Step → Node → MaybeNode
follow [] n = a_node n
follow (p ∷ ps) n = elim (child_at p n) [ no_node ↦ no_node | a_node m ↦ follow ps m ]

-- The steps that a pattern takes.
unfoldable pub step_of : Bytes → Step
step_of s = elim (kind s) [ star_kind ↦ star | param_kind ↦ param | static_kind ↦ lit s ]

-- Whether steps match the segments of a path: `*` takes all that is left, a param takes any segment,
-- and a static step takes its own.
unfoldable pub steps_match : List Step → List Bytes → Bool
steps_match [] rest = no_rest rest
steps_match (star ∷ []) rest = true
steps_match (star ∷ p ∷ ps) rest = false
steps_match (param ∷ ps) [] = false
steps_match (param ∷ ps) (s ∷ rest) = steps_match ps rest
steps_match (lit t ∷ ps) [] = false
steps_match (lit t ∷ ps) (s ∷ rest) = bytes_eq t s && steps_match ps rest

-- Two for a static segment, one for a param, none for `*`.
unfoldable pub specificity : List Step → ℕ
specificity [] = 0
specificity (star ∷ ps) = specificity ps
specificity (param ∷ ps) = 1 + specificity ps
specificity (lit t ∷ ps) = 2 + specificity ps

module _ (method : Method) (token : Bytes) where
  -- A candidate stands at the end of a path that matches, and its specificity is the path's.
  pub record IsFound (c : Candidate) (rest : List Bytes) (n : Node) (base : ℕ) : Type 0 where
    pub steps : List Step
    pub at : Node
    pub reached : follow steps n ≡ a_node at
    pub picked : pick method token at ≡ some c.route
    pub matches : steps_match steps rest ≡ true
    pub weight : c.spec ≡ base + specificity steps

  candidate-InList :
      (o : Option RouteEntry) (captures : Captures) (spec : ℕ) (c : Candidate)
      → InList c (candidate method token o captures spec)
      → (o ≡ some c.route) × (c.spec ≡ spec)
  candidate-InList none captures spec c h = absurd h
  candidate-InList (some e) captures spec c (inl same) =
      (ap (λ (x : Candidate). some x.route) same, ap (λ (x : Candidate). x.spec) (sym same))
  candidate-InList (some e) captures spec c (inr h) = absurd h

  wildcard-IsFound :
      (o : MaybeNode) (c : Candidate)
      → pick_maybe method token o ≡ some c.route
      → (m : Node) × (o ≡ a_node m) × (pick method token m ≡ some c.route)
  unfolding pick_maybe
  wildcard-IsFound no_node c h = cc
  wildcard-IsFound (a_node m) c h = (m, refl, h)

  follow-star : (n m : Node) → wildcard_of n ≡ a_node m → follow (star ∷ []) n ≡ a_node m
  unfolding follow child_at
  follow-star (node statik param_node name wildcard entries) m h = rw h

  here-IsFound :
      (rest : List Bytes) (n : Node) (captures : Captures) (spec : ℕ) (c : Candidate)
      → InList c
          (if no_rest rest then candidate method token (pick method token n) captures spec else [])
      → IsFound c rest n spec
  unfolding follow steps_match specificity
  here-IsFound [] n captures spec c h =
      let (picked, weight) = candidate-InList (pick method token n) captures spec c h in
      record {
        steps = [];
        at = n;
        reached = refl;
        picked = picked;
        matches = refl;
        weight = omega (arith, weight);
      }
  here-IsFound (s ∷ rest) n captures spec c h = absurd h

  beyond-IsFound :
      (rest : List Bytes) (n : Node) (captures : Captures) (spec : ℕ) (c : Candidate)
      → InList c (candidate method token (pick_maybe method token (wildcard_of n)) captures spec)
      → IsFound c rest n spec
  unfolding steps_match specificity
  beyond-IsFound rest n captures spec c h =
      let (o, weight) =
        candidate-InList (pick_maybe method token (wildcard_of n)) captures spec c h in
      let (m, same, picked) = wildcard-IsFound (wildcard_of n) c o in
      record {
        steps = star ∷ [];
        at = m;
        reached = follow-star n m same;
        picked = picked;
        matches = refl;
        weight = omega (arith, weight);
      }

  visited-IsFound :
      (rest : List Bytes) (n : Node) (captures : Captures) (spec : ℕ) (c : Candidate)
      → InList c (visited method token n rest captures spec)
      → IsFound c rest n spec
  unfolding visited
  visited-IsFound rest n captures spec c h =
      elim (InList-append_split c
        (if no_rest rest then candidate method token (pick method token n) captures spec else [])
        (candidate method token (pick_maybe method token (wildcard_of n)) captures spec) h) [
          | inl here ↦ here-IsFound rest n captures spec c here
          | inr beyond ↦ beyond-IsFound rest n captures spec c beyond
        ]

  -- A path found below a child, seen from the node.
  static-IsFound :
      (s : Bytes) (rest : List Bytes) (n m : Node) (spec : ℕ) (c : Candidate)
      → child_at (lit s) n ≡ a_node m
      → IsFound c rest m (spec + 2)
      → IsFound c (s ∷ rest) n spec
  unfolding follow steps_match specificity
  static-IsFound s rest n m spec c e f = record {
    steps = lit s ∷ f.steps;
    at = f.at;
    reached = rw (e, follow) f.reached;
    picked = f.picked;
    matches = rw (bytes_eq_refl s) f.matches;
    weight = omega (arith, f.weight);
  }

  param-IsFound :
      (s : Bytes) (rest : List Bytes) (n m : Node) (spec : ℕ) (c : Candidate)
      → child_at param n ≡ a_node m
      → IsFound c rest m (spec + 1)
      → IsFound c (s ∷ rest) n spec
  unfolding follow steps_match specificity
  param-IsFound s rest n m spec c e f = record {
    steps = param ∷ f.steps;
    at = f.at;
    reached = rw (e, follow) f.reached;
    picked = f.picked;
    matches = f.matches;
    weight = omega (arith, f.weight);
  }

  -- The frames below a node, taken apart; `ih` is the claim for the segments that are left.
  under-static :
      (s : Bytes) (rest : List Bytes) (n : Node) (captures : Captures) (spec : ℕ) (c : Candidate)
      → ((m : Node) (k : Captures) (b : ℕ)
          → InList c (candidates method token rest m k b)
          → IsFound c rest m b)
      → (o : MaybeNode) → child_at (lit s) n ≡ o
      → InList c
          (under method token (candidates method token rest) (static_frames o rest captures spec))
      → IsFound c (s ∷ rest) n spec
  under-static s rest n captures spec c ih no_node e h = absurd h
  under-static s rest n captures spec c ih (a_node m) e h =
      static-IsFound s rest n m spec c e (ih m captures (spec + 2) (rw append-nil at h))

  under-param :
      (s : Bytes) (rest : List Bytes) (n : Node) (captures : Captures) (spec : ℕ) (c : Candidate)
      → ((m : Node) (k : Captures) (b : ℕ)
          → InList c (candidates method token rest m k b)
          → IsFound c rest m b)
      → InList c
          (under method token (candidates method token rest) (param_frames n s rest captures spec))
      → IsFound c (s ∷ rest) n spec
  unfolding child_at
  under-param s rest (node statik no_node name wildcard entries) captures spec c ih h = absurd h
  under-param s rest (node statik (a_node m) name wildcard entries) captures spec c ih h =
      param-IsFound s rest _ m spec c refl (ih m _ (spec + 1) (rw append-nil at h))

  child_of-child_at : (s : Bytes) (n : Node) → child_at (lit s) n ≡ child_of s n
  unfolding child_at
  child_of-child_at s (node statik param_node name wildcard entries) = refl

  -- Everything that the walk considers is found at the end of a path that matches.
  pub candidates-IsFound :
      (rest : List Bytes) (n : Node) (captures : Captures) (spec : ℕ) (c : Candidate)
      → InList c (candidates method token rest n captures spec)
      → IsFound c rest n spec
  unfolding candidates pushed_on
  candidates-IsFound [] n captures spec c h = visited-IsFound [] n captures spec c h
  candidates-IsFound (s ∷ rest) n captures spec c h =
      let ih = λ (m : Node) (k : Captures) (b : ℕ). candidates-IsFound rest m k b c in
      let xs = static_frames (child_of s n) rest captures spec in
      let ys = param_frames n s rest captures spec in
      elim (InList-append_split c (visited method token n (s ∷ rest) captures spec)
        (under method token (candidates method token rest) (xs ++ ys)) h) [
          | inl here ↦ visited-IsFound (s ∷ rest) n captures spec c here
          | inr below ↦
              elim (InList-append_split c (under method token (candidates method token rest) xs)
                (under method token (candidates method token rest) ys)
                (rw (under-append method token (candidates method token rest) xs ys) at below)) [
                  | inl left ↦
                      under-static s rest n captures spec c ih (child_of s n)
                        (child_of-child_at s n) left
                  | inr right ↦ under-param s rest n captures spec c ih right
                ]
        ]
