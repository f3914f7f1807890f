-- ===== src/Common/Laws.antt =====
-- Method tokens read and written.
use nitro_server.Base.{◌≡◌, bytes_eq_iff, arith}
use nitro_server.Base.Text.{Bytes, codes}
use nitro_server.Common.{Method, custom, parse_method, method_token, parse_unregister_method}

-- A method with its custom token, as a route carries them.
pub wire_token : Method × Bytes → Bytes
wire_token (custom, token) = token
wire_token (m, _) = method_token m

-- Whatever the token, the method that is read from it writes the same token back.
pub wire_token-parse_method : (token : Bytes) → (wire_token (parse_unregister_method token) ≡ token)
unfolding wire_token parse_unregister_method parse_method method_token
wire_token-parse_method token = ground (
  arith,
  bytes_eq_iff token (codes "*"),
  bytes_eq_iff token (codes "GET"),
  bytes_eq_iff token (codes "HEAD"),
  bytes_eq_iff token (codes "POST"),
  bytes_eq_iff token (codes "PUT"),
  bytes_eq_iff token (codes "DELETE"),
  bytes_eq_iff token (codes "PATCH"),
  bytes_eq_iff token (codes "OPTIONS"),
  bytes_eq_iff token (codes "TRACE"),
)
