-- ===== src/Http/Answer.antt =====
-- What `UvReactor::processConn` of src/engine/UvReactor.cpp does with a request that is complete: an
-- answer of the engine's own, a WebSocket handshake, or the hand-over to a handler.
--
-- The allocation of a payload is taken to succeed. A limit, a timeout or a period that is not positive
-- is 0.
pub mod Honest
pub mod Dispatched
mod Examples
use nitro_server.Base.{
  ℕ, suc, ◌+◌, Bool, true, false, ◌&&◌, ◌||◌, not, Option, none, some, List, [], ◌∷◌, ◌++◌,
  if◌then◌else◌, ltb, ◌==◌, length,
}
use nitro_server.Base.Text.{Bytes, codes}
use nitro_server.Common.{Method, head}
use nitro_server.Router.{Router, RouteEntry, StaticResponse}
use nitro_server.Router.Match.{Best, is_head}
use nitro_server.Router.Allowed.{allowed_methods, joined_methods}
use nitro_server.Http.{build_head}
use nitro_server.Http.Fields.{
  Header, RequestFields, is_empty, client_wants_keep_alive, is_web_socket_upgrade,
}
use nitro_server.Http.Head.{ParsedHead}
use nitro_server.Http.Request.{Request, request_fields}
use nitro_server.Http.Upgrade.{error_response}

-- What is read of the settings, the connection and the reactor, and the clock.
pub record Terms : Type 0 where
  pub routes : Router
  pub keep_alive_timeout_ms : ℕ
  pub max_requests_per_conn : ℕ
  pub default_timeout_ms : ℕ
  pub draining : Bool
  pub served : ℕ
  pub age_expired : Bool
  pub over_budget : Bool
  pub next_id : ℕ
  pub now : ℕ
  pub has_emitter : Bool

unfoldable pub keeps_alive : Terms → RequestFields → Bool
keeps_alive t fields =
    client_wants_keep_alive fields
    && ltb 0 t.keep_alive_timeout_ms
    && not t.draining
    && (t.max_requests_per_conn == 0 || ltb (t.served + 1) t.max_requests_per_conn)
    && not t.age_expired

-- The calls of the emitter and of the pending table.
pub data Emission : Type 0 where
  head_out : ℕ → Request → Best → ℕ → Bool → Emission
  tracked data_out : ℕ → Bytes → Emission
  end_out : ℕ → Emission

-- The write of `uvBuildHead`, of `uvErrorResponse` and of a static response, each with whether the
-- connection stays, the early return of the 400, `wsHandshake`, and the hand-over under an id, with the
-- entry of `reqLoc_` and the deadline.
pub data Answer : Type 0 where
  head_answer : ℕ → List Header → Bool → Answer
  error_answer : ℕ → Bytes → List Header → Answer
  static_answer : StaticResponse → Bool → Bool → Answer
  framing_error : Answer
  shakes : Best → Answer
  dispatches : ℕ → Bool → Bool → Option ℕ → List Emission → Answer

abbrev pub upgrade_required : Answer
upgrade_required =
    error_answer 426 (codes "websocket not supported")
      ((codes "Sec-WebSocket-Version", codes "13") ∷ [])

-- `clen`: the decoded length of a chunked body.
unfoldable pub reported_length : Request → Bytes → ℕ
reported_length r body = if r.chunked then length body else r.content_length

unfoldable pub emissions : ℕ → Request → Best → Bytes → List Emission
emissions id r b body =
    let n = reported_length r body in
    if ltb 0 n
    then head_out id r b n false ∷ tracked id body ∷ data_out id body ∷ end_out id ∷ []
    else head_out id r b n true ∷ []

abbrev pub or_inherited : Option ℕ → ℕ → ℕ
or_inherited none inherited = inherited
or_inherited (some own) inherited = own

unfoldable pub deadline_of : Terms → RouteEntry → Option ℕ
deadline_of t e =
    let timeout = or_inherited e.timeout_ms t.default_timeout_ms in
    if ltb 0 timeout then some (t.now + timeout) else none

unfoldable pub dispatch : Terms → Request → Best → Bytes → Answer
dispatch t r b body =
    dispatches t.next_id (is_head r.head.method) (keeps_alive t (request_fields r.head))
      (deadline_of t b.route) (if t.has_emitter then emissions t.next_id r b body else [])

abbrev pub is_nil_tokens : List Bytes → Bool
is_nil_tokens [] = true
is_nil_tokens (m ∷ ms) = false

-- A path that no route of the method matches.
unfoldable pub unmatched : Terms → Request → Answer
unmatched t r =
    let keep_alive = keeps_alive t (request_fields r.head) in
    let allowed = allowed_methods r.path t.routes in
    if is_web_socket_upgrade (request_fields r.head)
    then upgrade_required
    else if is_nil_tokens allowed
    then head_answer 404 [] keep_alive
    else head_answer 405 ((codes "Allow", joined_methods allowed) ∷ []) keep_alive

-- A route that is not for WebSockets.
unfoldable pub plain_route : Terms → Request → Best → Bytes → Answer
plain_route t r b body = elim b.route.static_response [
  | some fixed ↦
      static_answer fixed (keeps_alive t (request_fields r.head) && is_empty body)
        (not (is_head r.head.method))
  | none ↦
      if t.over_budget
      then error_answer 503 (codes "server busy") ((codes "Retry-After", codes "1") ∷ [])
      else dispatch t r b body
]

-- `rest` is what the buffer holds behind the request.
unfoldable pub matched_route : Terms → Request → Best → Bytes → Bytes → Answer
matched_route t r b body rest =
    let upgrade = is_web_socket_upgrade (request_fields r.head) in
    if b.route.is_web_socket
    then (if not upgrade
        then upgrade_required
        else if not (is_empty body) || not (is_empty rest)
        then framing_error
        else shakes b)
    else if upgrade
    then upgrade_required
    else plain_route t r b body

unfoldable pub answer_request : Terms → Request → Bytes → Bytes → Answer
answer_request t r body rest = elim r.matched [
  | none ↦ unmatched t r
  | some b ↦ matched_route t r b body rest
]

-- The bytes that an answer writes, with whether the connection stays for another request.
unfoldable pub written : Bytes → Option ℕ → Answer → Option (Bytes × Bool)
written date secs (head_answer status headers keep) =
    some (build_head date status headers 0 keep secs, keep)
written date secs (error_answer status msg headers) =
    some (error_response date status msg headers, false)
written date secs (static_answer fixed keep with_body) = some (
  build_head date fixed.status fixed.headers (length fixed.body) keep secs
      ++ (if with_body then fixed.body else []),
  keep,
)
written date secs framing_error = some (build_head date 400 [] 0 false (some 0), false)
written date secs (shakes b) = none
written date secs (dispatches id for_head keep deadline out) = none
