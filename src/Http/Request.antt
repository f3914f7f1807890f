-- ===== src/Http/Request.antt =====
-- The reading of one request in `UvReactor::processConn` of src/engine/UvReactor.cpp: the head, its
-- framing, the route's body cap and the body, up to where the request leaves the buffer.
--
-- The buffer is `c->buf`. An answer that refuses a request also ends the connection. A cap of 0 in
-- the settings stands for one that is not positive. The loop around the rounds, the answers to a
-- request that is complete and the times that the sweep reads are not part of it.
pub mod End
pub mod Accepted
pub mod Pipelined
mod Examples
pub mod Parts
use nitro_server.Base.{
  ℕ, ◌+◌, ◌-◌, ◌*◌, ◌^◌, Bool, true, false, ◌&&◌, ◌||◌, not, Option, none, some, List, [], ◌∷◌,
  if◌then◌else◌, ltb, leb, ◌==◌, bytes_eq, length, take, drop, all,
}
use nitro_server.Base.Text.{Bytes, codes}
use nitro_server.Router.{Router, RouteEntry}
use nitro_server.Router.Match.{Best, match_route}
use nitro_server.Http.Fields.{RequestFields, find_header, is_empty, contains}
use nitro_server.Http.Framing.{framing, Verdict, refused, framed}
use nitro_server.Http.Chunked.{
  Decoded, complete, need_more, malformed, over_cap, out_of_fuel, decode_chunked,
}
use nitro_server.Http.Head.{ParsedHead, parse_head}
use nitro_server.Http.Head.Field.{cut}
use nitro_server.Http.Request.End.{find_end}

pub record Settings : Type 0 where
  pub max_body_bytes : ℕ
  pub routes : Router

pub record Request : Type 0 where
  pub head : ParsedHead
  pub chunked : Bool
  pub content_length : ℕ
  pub path : Bytes
  pub query : Bytes
  pub matched : Option Best
  pub max_body : ℕ

-- `strtoll` on the value of the field, which the framing lets through with at most 18 digits.
unfoldable pub digits_value : ℕ → Bytes → ℕ
digits_value acc [] = acc
digits_value acc (c ∷ s) = digits_value (acc * 10 + (c - b'0')) s

unfoldable pub declared_length : ParsedHead → ℕ
declared_length head = elim (find_header head.headers (codes "content-length")) [
  | none ↦ 0
  | some v ↦ digits_value 0 v
]

abbrev pub or_slash : Bytes → Bytes
or_slash path = if is_empty path then codes "/" else path

-- The path and the query of a target.
unfoldable pub split_query : Bytes → Bytes × Bytes
split_query target = elim (cut b'?' target) [
  | none ↦ (or_slash target, [])
  | some (path, query) ↦ (or_slash path, query)
]

unfoldable pub server_max : Settings → ℕ
server_max settings = if ltb 0 settings.max_body_bytes then settings.max_body_bytes else 10 * 2 ^ 20

abbrev pub route_max : Option Best → Option ℕ
route_max none = none
route_max (some b) = b.route.max_body_bytes

abbrev pub body_cap : Option ℕ → ℕ → ℕ
body_cap none otherwise = otherwise
body_cap (some cap) otherwise = cap

abbrev pub request_fields : ParsedHead → RequestFields
request_fields head = record { version = head.version; headers = head.headers }

-- The request of a head that is parsed and framed.
unfoldable pub make_request : Settings → ParsedHead → Bool → Request
make_request settings head chunked =
    let (path, query) = split_query head.target in
    let matched = match_route head.method head.custom_method path settings.routes in
    record {
      head = head;
      chunked = chunked;
      content_length = declared_length head;
      path = path;
      query = query;
      matched = matched;
      max_body = body_cap (route_max matched) (server_max settings);
    }

-- Waiting for the rest of a head, a head that is too long, a refusal with its status, or the request
-- and the bytes behind its head.
pub data HeadRead : Type 0 where
  await_head flooded : HeadRead
  refuse : ℕ → HeadRead
  request : Request → Bytes → HeadRead

-- A body that the route and the server allow.
unfoldable pub check_length : Request → Bytes → HeadRead
check_length r after =
    if not r.chunked && ltb r.max_body r.content_length then refuse 413 else request r after

unfoldable pub with_verdict : Settings → ParsedHead → Bytes → Verdict → HeadRead
with_verdict settings head after (refused status reason) = refuse status
with_verdict settings head after (framed chunked) =
    check_length (make_request settings head chunked) after

unfoldable pub with_head : Settings → ParsedHead → Bytes → HeadRead
with_head settings head after =
    if not head.ok
    then refuse (if head.bad_version then 505 else 400)
    else with_verdict settings head after (framing (request_fields head))

unfoldable pub read_head : Settings → Bytes → HeadRead
read_head settings buf = elim (find_end buf) [
  | none ↦ if ltb (64 * 1024) (length buf) then flooded else await_head
  | some (head, after) ↦ with_head settings (parse_head head) after
]

-- Whether `100 Continue` is written, where `sent` is `c->continueSent`.
pub writes_continue : Request → Bool → Bool
writes_continue r sent =
    (ltb 0 r.content_length || r.chunked)
    && not sent
    && elim (find_header r.head.headers (codes "expect")) [
      | none ↦ false
      | some v ↦ contains v (codes "100-continue") || contains v (codes "100-Continue")
    ]

abbrev pub exceeds : Option ℕ → ℕ → Bool
exceeds none n = false
exceeds (some cap) n = ltb cap n

-- The body goes to the handler as it arrives.
unfoldable pub is_streamed : Request → Bool
is_streamed r = (ltb 0 r.content_length || r.chunked) && elim r.matched [
  | none ↦ false
  | some b ↦ b.route.stream_body && not (exceeds b.route.max_body_bytes r.content_length)
]

pub data BodyRead : Type 0 where
  await_body streamed : BodyRead
  refuse_body : ℕ → BodyRead
  whole : Bytes → Bytes → BodyRead

abbrev pub from_chunks : Decoded → BodyRead
from_chunks (complete body rest) = whole body rest
from_chunks need_more = await_body
from_chunks malformed = refuse_body 400
from_chunks over_cap = refuse_body 413
from_chunks out_of_fuel = refuse_body 400

unfoldable pub read_body : Request → Bytes → BodyRead
read_body r after =
    let decoded = from_chunks (decode_chunked r.max_body after) in
    if is_streamed r
    then streamed
    else if r.chunked
    then decoded
    else if ltb (length after) r.content_length
    then await_body
    else whole (take r.content_length after) (drop r.content_length after)

-- One round of the loop: it returns to wait, closes without an answer, answers with a status and
-- ends the connection, starts a streamed upload with the bytes behind the head, or goes on with a
-- request, its body and the bytes behind it.
pub data Round : Type 0 where
  waits drops : Round
  refuses : ℕ → Round
  streams : Request → Bytes → Round
  serves : Request → Bytes → Bytes → Round

unfoldable pub with_body : Request → Bytes → BodyRead → Round
with_body r after await_body = waits
with_body r after streamed = streams r after
with_body r after (refuse_body status) = refuses status
with_body r after (whole body rest) = serves r body rest

unfoldable pub with_request : HeadRead → Round
with_request await_head = waits
with_request flooded = drops
with_request (refuse status) = refuses status
with_request (request r after) = with_body r after (read_body r after)

unfoldable pub round : Settings → Bytes → Round
round settings buf = with_request (read_head settings buf)
