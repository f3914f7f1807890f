-- ===== src/Router/Allowed.antt =====
-- `Router::allowedMethods` of src/engine/Router.cpp: the tokens of the `Allow` header of a path.
pub mod Complete
use nitro_server.Base.{
  ℕ, ◌<◌, Bool, true, false, ◌&&◌, ◌||◌, List, [], ◌∷◌, ◌++◌, if◌then◌else◌, ltb, ◌==◌, bytes_eq,
}
use nitro_server.Base.Text.{Bytes, codes}
use nitro_server.Common.{
  Method, get, head, post, put, delete, patch, options, trace, all, custom, method_token,
}
use nitro_server.Router.{
  RouteEntry, Entries, Node, node, MaybeNode, no_node, a_node, Router, entries_of, split,
}
use nitro_server.Router.Match.{wildcard_of, child_of}

-- The methods that a route for all of them is listed under.
abbrev pub listed : List Method
listed = get ∷ head ∷ post ∷ put ∷ delete ∷ patch ∷ options ∷ trace ∷ []

abbrev pub tokens : List Method → List Bytes
tokens [] = []
tokens (m ∷ ms) = method_token m ∷ tokens ms

-- What the loop of `take` writes for one entry.
unfoldable pub tokens_of : Method → Bytes → List Bytes
tokens_of all token = tokens listed
tokens_of custom token = token ∷ []
tokens_of get token = method_token get ∷ codes "HEAD" ∷ []
tokens_of m token = method_token m ∷ []

unfoldable pub entries_tokens : Entries → List Bytes
entries_tokens [] = []
entries_tokens ((k, e) ∷ entries) = tokens_of e.method e.custom_method ++ entries_tokens entries

-- `take`
unfoldable pub take_tokens : MaybeNode → List Bytes
take_tokens no_node = []
take_tokens (a_node n) = entries_tokens (entries_of n)

abbrev pub param_of : Node → MaybeNode
param_of (node statik param name wildcard entries) = param

-- `collectAllowed`
unfoldable pub collect_allowed : List Bytes → Node → List Bytes
collect_allowed [] n = take_tokens (wildcard_of n) ++ take_tokens (a_node n)
collect_allowed (s ∷ rest) n =
    take_tokens (wildcard_of n)
    ++ (elim (child_of s n) [ no_node ↦ [] | a_node m ↦ collect_allowed rest m ]
        ++ elim (param_of n) [ no_node ↦ [] | a_node m ↦ collect_allowed rest m ])

-- `operator<` of two strings
unfoldable pub text_lt : Bytes → Bytes → Bool
text_lt s [] = false
text_lt [] (d ∷ t) = true
text_lt (c ∷ s) (d ∷ t) = ltb c d || (c == d && text_lt s t)

-- `std::sort`
unfoldable pub put_sorted : Bytes → List Bytes → List Bytes
put_sorted s [] = s ∷ []
put_sorted s (t ∷ ts) = if text_lt t s then t ∷ put_sorted s ts else s ∷ t ∷ ts

unfoldable pub sort : List Bytes → List Bytes
sort [] = []
sort (s ∷ ss) = put_sorted s (sort ss)

-- `std::unique` and the `erase` of what it leaves behind.
unfoldable pub unique_from : Bytes → List Bytes → List Bytes
unique_from s [] = s ∷ []
unique_from s (t ∷ ts) = let rest = unique_from t ts in if bytes_eq s t then rest else s ∷ rest

unfoldable pub unique : List Bytes → List Bytes
unique [] = []
unique (s ∷ ss) = unique_from s ss

unfoldable pub allowed_methods : Bytes → Router → List Bytes
allowed_methods path r = unique (sort (collect_allowed (split path) r.root))

-- The `Allow` header's value, as the loops of its writers make it.
unfoldable pub join_after : Bytes → List Bytes → Bytes
join_after text [] = text
join_after text (m ∷ ms) =
    join_after (elim text [ [] ↦ m | c ∷ s ↦ (c ∷ s) ++ (codes ", " ++ m) ]) ms

pub joined_methods : List Bytes → Bytes
joined_methods ms = join_after [] ms
