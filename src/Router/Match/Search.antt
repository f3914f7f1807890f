-- ===== src/Router/Match/Search.antt =====
-- The loop over the stack of frames is a depth-first walk: what it considers, as one list.
use nitro_server.Base.{
  ℕ, zero, suc, ◌+◌, ◌≤◌, ◌≡◌, refl, sym, ap, ◌∙◌, Option, none, some, List, [], ◌∷◌, ◌++◌,
  if◌then◌else◌, append_assoc, append-nil, Bool-cases, inl, inr, ◌<◌, arith,
}
use nitro_server.Base.Text.{Bytes}
use nitro_server.Common.{Method}
use nitro_server.Router.{RouteEntry, Node, node, MaybeNode, no_node, a_node, Router, split}
use nitro_server.Router.Match.{
  Captures, Frame, Best, no_rest, match_fuel, pick, pick_maybe, consider, wildcard_of, visit,
  param_frames, static_frames, child_of, pushed, pushed_on, match_loop, match_route,
}

-- A route that a round considers, with what it was found at.
pub record Candidate : Type 0 where
  pub route : RouteEntry
  pub captures : Captures
  pub spec : ℕ

module _ (method : Method) (token : Bytes) where
  abbrev pub candidate : Option RouteEntry → Captures → ℕ → List Candidate
  candidate none captures spec = []
  candidate (some e) captures spec = record { route = e; captures = captures; spec = spec } ∷ []

  unfoldable pub consider_all : List Candidate → Option Best → Option Best
  consider_all [] best = best
  consider_all (c ∷ cs) best =
      consider_all cs (consider method token (some c.route) c.captures c.spec best)

  -- What the visit of one node considers.
  unfoldable pub visited : Node → List Bytes → Captures → ℕ → List Candidate
  visited n rest captures spec =
      (if no_rest rest then candidate (pick method token n) captures spec else [])
      ++ candidate (pick_maybe method token (wildcard_of n)) captures spec

  abbrev pub under : (Node → Captures → ℕ → List Candidate) → List Frame → List Candidate
  under f [] = []
  under f (fr ∷ frs) = f fr.at fr.captures fr.specificity ++ under f frs

  -- What the walk from a node considers, in the order of the walk.
  unfoldable pub candidates : List Bytes → Node → Captures → ℕ → List Candidate
  candidates [] n captures spec = visited n [] captures spec
  candidates (s ∷ rest) n captures spec =
      visited n (s ∷ rest) captures spec
      ++ under (candidates rest) (pushed_on n (s ∷ rest) captures spec)

  -- What the frames on a stack still lead to, and how many rounds that takes at most.
  pub ahead : List Frame → List Candidate
  ahead [] = []
  ahead (fr ∷ frs) = candidates fr.rest fr.at fr.captures fr.specificity ++ ahead frs

  pub rounds_of : List Frame → ℕ
  rounds_of [] = 0
  rounds_of (fr ∷ frs) = match_fuel fr.rest + rounds_of frs

  consider_all-append :
      (xs ys : List Candidate) (best : Option Best)
      → consider_all (xs ++ ys) best ≡ consider_all ys (consider_all xs best)
  unfolding consider_all
  consider_all-append [] ys best = refl
  consider_all-append (x ∷ xs) ys best = consider_all-append xs ys _

  consider_all-candidate :
      (o : Option RouteEntry) (captures : Captures) (spec : ℕ) (best : Option Best)
      → consider_all (candidate o captures spec) best ≡ consider method token o captures spec best
  unfolding consider_all consider
  consider_all-candidate none captures spec best = refl
  consider_all-candidate (some e) captures spec best = refl

  visit_lem :
      (fr : Frame) (best : Option Best)
      → visit method token fr best
        ≡ consider_all (visited fr.at fr.rest fr.captures fr.specificity) best
  unfolding visit visited
  visit_lem fr best =
      let rest =
        candidate (pick_maybe method token (wildcard_of fr.at)) fr.captures fr.specificity in
      elim (Bool-cases (no_rest fr.rest)) [
        | inl done ↦
            rw
              (
                done,
                consider_all-append (candidate (pick method token fr.at) fr.captures fr.specificity)
                    rest best,
                consider_all-candidate (pick method token fr.at) fr.captures fr.specificity best,
              )
              (sym (consider_all-candidate _ fr.captures fr.specificity _))
        | inr more ↦ rw more (sym (consider_all-candidate _ fr.captures fr.specificity best))
      ]

  ahead-append : (xs ys : List Frame) → ahead (xs ++ ys) ≡ ahead xs ++ ahead ys
  unfolding ahead
  ahead-append [] ys = refl
  ahead-append (x ∷ xs) ys =
      ap (λ t. candidates x.rest x.at x.captures x.specificity ++ t) (ahead-append xs ys)
      ∙ sym (append_assoc (candidates x.rest x.at x.captures x.specificity) (ahead xs) (ahead ys))

  rounds_of-append : (xs ys : List Frame) → rounds_of (xs ++ ys) ≡ rounds_of xs + rounds_of ys
  unfolding rounds_of
  rounds_of-append [] ys = omega arith
  rounds_of-append (x ∷ xs) ys = omega (arith, rounds_of-append xs ys)

  pub under-append :
      (f : Node → Captures → ℕ → List Candidate) (xs ys : List Frame)
      → under f (xs ++ ys) ≡ under f xs ++ under f ys
  under-append f [] ys = refl
  under-append f (x ∷ xs) ys =
      ap (λ t. f x.at x.captures x.specificity ++ t) (under-append f xs ys)
      ∙ sym (append_assoc (f x.at x.captures x.specificity) (under f xs) (under f ys))

  -- A child's frames lead to what the walk considers from the child.
  ahead-static_frames :
      (o : MaybeNode) (rest : List Bytes) (captures : Captures) (spec : ℕ)
      → (ahead (static_frames o rest captures spec)
          ≡ under (candidates rest) (static_frames o rest captures spec))
        × (rounds_of (static_frames o rest captures spec) ≤ match_fuel rest)
  unfolding ahead rounds_of
  ahead-static_frames no_node rest captures spec = (refl, omega arith)
  ahead-static_frames (a_node n) rest captures spec = (refl, omega arith)

  ahead-param_frames :
      (n : Node) (s : Bytes) (rest : List Bytes) (captures : Captures) (spec : ℕ)
      → (ahead (param_frames n s rest captures spec)
          ≡ under (candidates rest) (param_frames n s rest captures spec))
        × (rounds_of (param_frames n s rest captures spec) ≤ match_fuel rest)
  unfolding ahead rounds_of
  ahead-param_frames (node statik no_node name wildcard entries) s rest captures spec =
      (refl, omega arith)
  ahead-param_frames (node statik (a_node n) name wildcard entries) s rest captures spec =
      (refl, omega arith)

  candidates-split :
      (rest : List Bytes) (n : Node) (captures : Captures) (spec : ℕ)
      → (candidates rest n captures spec
          ≡ visited n rest captures spec ++ ahead (pushed_on n rest captures spec))
        × (rounds_of (pushed_on n rest captures spec) < match_fuel rest)
  unfolding pushed_on candidates match_fuel ahead
  candidates-split [] n captures spec = (sym (append-nil _), unfold rounds_of in omega arith)
  candidates-split (s ∷ rest) n captures spec =
      let xs = static_frames (child_of s n) rest captures spec in
      let ys = param_frames n s rest captures spec in
      let (sx, rx) = ahead-static_frames (child_of s n) rest captures spec in
      let (sy, ry) = ahead-param_frames n s rest captures spec in
      (
        rw (ahead-append xs ys, under-append (candidates rest) xs ys, sx, sy),
        omega (arith, rounds_of-append xs ys, rx, ry),
      )

  rounds_of-cons :
      (fr : Frame) (frs : List Frame) → rounds_of (fr ∷ frs) ≡ match_fuel fr.rest + rounds_of frs
  unfolding rounds_of
  rounds_of-cons fr frs = refl

  match_fuel_pos : (rest : List Bytes) → 1 ≤ match_fuel rest
  unfolding match_fuel
  match_fuel_pos [] = omega arith
  match_fuel_pos (s ∷ rest) = omega arith

  -- With enough rounds the loop considers what its stack leads to, in order.
  match_loop_lem :
      (fuel : ℕ) (stack : List Frame) (best : Option Best)
      → rounds_of stack ≤ fuel
      → match_loop method token fuel stack best ≡ consider_all (ahead stack) best
  unfolding match_loop pushed
  match_loop_lem zero [] best h = unfold ahead consider_all in refl
  match_loop_lem zero (fr ∷ stack) best h =
      absurd (unfold rounds_of in omega (arith, match_fuel_pos fr.rest))
  match_loop_lem (suc fuel) [] best h = unfold ahead consider_all in refl
  match_loop_lem (suc fuel) (fr ∷ stack) best h =
      let below = pushed_on fr.at fr.rest fr.captures fr.specificity in
      let (parts, fewer) = candidates-split fr.rest fr.at fr.captures fr.specificity in
      let seen = visited fr.at fr.rest fr.captures fr.specificity in
      match_loop_lem fuel (below ++ stack) (visit method token fr best)
        (omega (arith, rounds_of-append below stack, fewer, rounds_of-cons fr stack))
      ∙ rw
          (
            visit_lem fr best,
            ahead-append below stack,
            ← consider_all-append seen (ahead below ++ ahead stack) best,
            ← append_assoc seen (ahead below) (ahead stack),
            ← parts,
          )
          (unfold ahead in refl)

  -- `match` considers every candidate of the walk from the root, in order, and its loop never runs out
  -- of rounds.
  pub match_route_lem :
      (path : Bytes) (r : Router)
      → match_route method token path r ≡ consider_all (candidates (split path) r.root [] 0) none
  unfolding match_route
  match_route_lem path r =
      let first : Frame = record {
        at = r.root;
        rest = split path;
        captures = [];
        specificity = 0;
      } in
      match_loop_lem (match_fuel (split path)) (first ∷ []) none (unfold rounds_of in omega arith)
      ∙ ap (λ cs. consider_all cs none) (unfold ahead in append-nil _)
