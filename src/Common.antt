-- ===== src/Common.antt =====
-- src/engine/Common.h: methods, their tokens and the reason phrases.
pub mod Laws
use nitro_server.Base.{ℕ, Bool, List, [], ◌∷◌, ◌++◌, if◌then◌else◌, ltb, leb, ◌==◌, bytes_eq}
use nitro_server.Base.Text.{Bytes, codes}

pub data Method : Type 0 where
  get head post put delete patch options trace all custom : Method

-- The method, and the bytes written to `customOut` (none of them for a known token).
unfoldable pub parse_method : Bytes → Method × Bytes
parse_method token =
    if bytes_eq token (codes "GET")
    then (get, [])
    else if bytes_eq token (codes "HEAD")
    then (head, [])
    else if bytes_eq token (codes "POST")
    then (post, [])
    else if bytes_eq token (codes "PUT")
    then (put, [])
    else if bytes_eq token (codes "DELETE")
    then (delete, [])
    else if bytes_eq token (codes "PATCH")
    then (patch, [])
    else if bytes_eq token (codes "OPTIONS")
    then (options, [])
    else if bytes_eq token (codes "TRACE")
    then (trace, [])
    else (custom, token)

unfoldable pub method_token : Method → Bytes
method_token get = codes "GET"
method_token head = codes "HEAD"
method_token post = codes "POST"
method_token put = codes "PUT"
method_token delete = codes "DELETE"
method_token patch = codes "PATCH"
method_token options = codes "OPTIONS"
method_token trace = codes "TRACE"
method_token all = codes "*"
method_token custom = []

-- The value of the enumeration.
unfoldable pub method_index : Method → ℕ
method_index get = 0
method_index head = 1
method_index post = 2
method_index put = 3
method_index delete = 4
method_index patch = 5
method_index options = 6
method_index trace = 7
method_index all = 8
method_index custom = 9

-- `parseUnregisterMethod` of src/engine/Wire.h: `*` names the All-routes.
pub parse_unregister_method : Bytes → Method × Bytes
parse_unregister_method token = if bytes_eq token (codes "*") then (all, []) else parse_method token
