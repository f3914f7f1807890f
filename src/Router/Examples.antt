-- ===== src/Router/Examples.antt =====
-- The router of src/engine/Router.cpp on concrete routes.
use nitro_server.Base.{
  ◌≤◌, ◌≡◌, refl, true, false, none, some, List, [], ◌∷◌, map, bytes_eq, inl, inr, InList,
}
use nitro_server.Base.Text.{Bytes, codes}
use nitro_server.Base.Assoc.{bytes_key, lookup, insert}
use nitro_server.Common.{get, method_index}
use nitro_server.Router.{
  RouteEntry, Router, Node, node, a_node, no_node, no_child, child, empty_router, add, entry_at,
  method_key, split, split_from, valid_pattern, valid_segments, has_star, kind, is_none, find_node,
  get_step, find_child, put_child, put_step, write_entries,
}
use nitro_server.Router.Match.{
  Best, pick, pick_maybe, consider, visit, pushed, pushed_on, match_fuel, match_loop, match_route,
}
use nitro_server.Router.Match.Steps.{
  Step, param, lit, follow, child_at, step_of, steps_match, specificity,
}
use nitro_server.Router.Match.Precedence.{Answers, match_route-Answers, match_route-greatest}
use nitro_server.Router.Match.Registered.{match_route-add}
use nitro_server.Router.Allowed.{tokens_of, allowed_methods}
use nitro_server.Router.Allowed.Complete.{allowed_methods-match_route}

abbrev route_of : Bytes → RouteEntry
route_of pattern = record {
  method = get;
  custom_method = [];
  pattern = pattern;
  timeout_ms = none;
  is_web_socket = false;
  stream_body = false;
  max_body_bytes = none;
  ws_protocols = [];
  static_response = none;
}

abbrev user_pattern : Bytes
user_pattern = codes "/users/:id"

abbrev user_route : RouteEntry
user_route = route_of user_pattern

abbrev users : Router
users = (add user_route empty_router).0

user_pattern_valid : valid_pattern user_pattern ≡ true
unfolding valid_pattern valid_segments split split_from has_star bytes_eq
user_pattern_valid = refl

users_registered : is_none (entry_at (split user_pattern) (method_key get []) users.root) ≡ false
unfolding add valid_pattern valid_segments split split_from has_star bytes_eq entry_at find_node
    get_step put_step kind find_child put_child write_entries lookup insert method_key method_index
users_registered = refl

abbrev user_path : Bytes
user_path = codes "/users/42"

user_path_matches : steps_match (map step_of (split user_pattern)) (split user_path) ≡ true
unfolding steps_match step_of kind split split_from bytes_eq
user_path_matches = refl

match_route-add_example :
    (b : Best) × (match_route get [] user_path (add user_route empty_router).0 ≡ some b)
    × (specificity (map step_of (split user_pattern)) ≤ b.spec)
match_route-add_example =
    match_route-add user_route empty_router user_path user_pattern_valid user_path_matches

abbrev user_steps : List Step
user_steps = lit (codes "users") ∷ param ∷ []

-- A router with `/users/:id`, its trie written out.
abbrev user_node : Node
user_node = node no_child no_node [] no_node ((method_key get [], user_route) ∷ [])

abbrev user_router : Router
user_router = record {
  root =
      node
        (child (codes "users") (node no_child (a_node user_node) (codes "id") no_node []) no_child)
        no_node [] no_node [];
  size = 1;
}

user_steps_lead : follow user_steps user_router.root ≡ a_node user_node
unfolding follow child_at find_child bytes_eq
user_steps_lead = refl

user_node-pick : pick get [] user_node ≡ some user_route
unfolding pick lookup bytes_eq method_key method_index
user_node-pick = refl

user_steps_match : steps_match user_steps (split user_path) ≡ true
unfolding steps_match split split_from bytes_eq
user_steps_match = refl

match_route-greatest_example :
    (b : Best) × (match_route get [] user_path user_router ≡ some b)
    × (specificity user_steps ≤ b.spec)
match_route-greatest_example =
    match_route-greatest get [] user_path user_router user_steps user_node user_route
      user_steps_lead user_node-pick user_steps_match

abbrev user_answer : Best
user_answer = record {
  route = user_route;
  captures = (codes "id", codes "42") ∷ [];
  spec = 3;
  is_all = false;
}

user_answered : match_route get [] user_path user_router ≡ some user_answer
unfolding match_route match_loop match_fuel visit pushed pushed_on consider pick pick_maybe lookup
    bytes_eq method_key method_index split split_from find_child
user_answered = refl

match_route-Answers_example : Answers get [] user_answer (split user_path) user_router.root
match_route-Answers_example =
    match_route-Answers get [] user_path user_router user_answer user_answered

head_listed : InList (codes "HEAD") (tokens_of get [])
unfolding tokens_of
head_listed = inr (inl refl)

allowed_methods-match_route_example : InList (codes "HEAD") (allowed_methods user_path user_router)
allowed_methods-match_route_example =
    allowed_methods-match_route get [] user_path (codes "HEAD") user_router user_answer
      user_answered head_listed
