-- ===== src/Router/Match.antt =====
-- `Router::match` of src/engine/Router.cpp.
--
-- A frame carries the segments that are left, and the parameters captured on the way to it, where the
-- source keeps an index into the path and into the arena of frames, and collects the parameters along
-- the parents of the best frame. The stack has its top at the head.
pub mod Search
pub mod Steps
pub mod Precedence
pub mod Registered
use nitro_server.Base.{
  ℕ, zero, suc, ◌+◌, ◌*◌, Bool, true, false, ◌&&◌, ◌||◌, not, Option, none, some, List, [], ◌∷◌,
  ◌++◌, if◌then◌else◌, ◌==◌, ltb,
}
use nitro_server.Base.Text.{Bytes}
use nitro_server.Base.Assoc.{bytes_key, lookup}
use nitro_server.Common.{Method, get, head, all, custom}
use nitro_server.Router.{
  RouteEntry, Node, node, MaybeNode, no_node, a_node, Router, method_key, split, find_child,
  entries_of, is_nil,
}

abbrev pub Captures : Type 0
Captures = List (Bytes × Bytes)

pub record Frame : Type 0 where
  pub at : Node
  pub rest : List Bytes
  pub captures : Captures
  pub specificity : ℕ

-- The best route so far; `none` is `best == nullptr`, with `bestSpec` -1.
pub record Best : Type 0 where
  pub route : RouteEntry
  pub captures : Captures
  pub spec : ℕ
  pub is_all : Bool

abbrev pub is_all_method : Method → Bool
is_all_method all = true
is_all_method m = false

abbrev pub is_head : Method → Bool
is_head head = true
is_head m = false

-- `method != All && method != Custom`
abbrev pub allows_all : Method → Bool
allows_all all = false
allows_all custom = false
allows_all m = true

abbrev pub or_else {ℓ} : {A : Type ℓ} → Option A → Option A → Option A
or_else none o = o
or_else (some a) o = some a

-- `idx == segs.size()`
abbrev pub no_rest : List Bytes → Bool
no_rest [] = true
no_rest (s ∷ rest) = false

-- At most two frames are pushed for each segment: as many rounds as this are enough.
unfoldable pub match_fuel : List Bytes → ℕ
match_fuel [] = 1
match_fuel (s ∷ rest) = 1 + 2 * match_fuel rest

abbrev pub wildcard_of : Node → MaybeNode
wildcard_of (node statik param name wildcard entries) = wildcard

-- A param child captures the segment under the name that it was made with.
abbrev pub param_frames : Node → Bytes → List Bytes → Captures → ℕ → List Frame
param_frames (node statik no_node name wildcard entries) s rest captures spec = []
param_frames (node statik (a_node n) name wildcard entries) s rest captures spec =
    record {
      at = n;
      rest = rest;
      captures = (if is_nil name then captures else captures ++ ((name, s) ∷ []));
      specificity = spec + 1;
    }
    ∷ []

abbrev pub static_frames : MaybeNode → List Bytes → Captures → ℕ → List Frame
static_frames no_node rest captures spec = []
static_frames (a_node n) rest captures spec =
    record { at = n; rest = rest; captures = captures; specificity = spec + 2 } ∷ []

abbrev pub child_of : Bytes → Node → MaybeNode
child_of s (node statik param name wildcard entries) = find_child s statik

-- The frames that one round pushes, the last pushed first.
unfoldable pub pushed_on : Node → List Bytes → Captures → ℕ → List Frame
pushed_on n [] captures spec = []
pushed_on n (s ∷ rest) captures spec =
    static_frames (child_of s n) rest captures spec ++ param_frames n s rest captures spec

unfoldable pub pushed : Frame → List Frame
pushed fr = pushed_on fr.at fr.rest fr.captures fr.specificity

module _ (method : Method) (token : Bytes) where
  unfoldable pub pick : Node → Option RouteEntry
  pick n =
      let entries = entries_of n in
      or_else (lookup (method_key method token) entries) (
        or_else (if is_head method then lookup (method_key get []) entries else none)
          (if allows_all method then lookup (method_key all []) entries else none))

  unfoldable pub pick_maybe : MaybeNode → Option RouteEntry
  pick_maybe no_node = none
  pick_maybe (a_node n) = pick n

  unfoldable pub consider : Option RouteEntry → Captures → ℕ → Option Best → Option Best
  consider none captures spec best = best
  consider (some e) captures spec none =
      some (record { route = e; captures = captures; spec = spec; is_all = is_all_method e.method })
  consider (some e) captures spec (some b) =
      if ltb b.spec spec || (spec == b.spec && b.is_all && not (is_all_method e.method))
      then some
          (record { route = e; captures = captures; spec = spec; is_all = is_all_method e.method })
      else some b

  -- What one round considers: the node itself where the path ends, and its wildcard child.
  unfoldable pub visit : Frame → Option Best → Option Best
  visit fr best =
      let here =
        (if no_rest fr.rest then consider (pick fr.at) fr.captures fr.specificity best else best) in
      consider (pick_maybe (wildcard_of fr.at)) fr.captures fr.specificity here

  unfoldable pub match_loop : ℕ → List Frame → Option Best → Option Best
  match_loop zero stack best = best
  match_loop (suc fuel) [] best = best
  match_loop (suc fuel) (fr ∷ stack) best = match_loop fuel (pushed fr ++ stack) (visit fr best)

  unfoldable pub match_route : Bytes → Router → Option Best
  match_route path r =
      let segs = split path in
      match_loop (match_fuel segs)
        (record { at = r.root; rest = segs; captures = []; specificity = 0 } ∷ []) none
