-- ===== src/Http/Request/Accepted.antt =====
-- What `processConn` of src/engine/UvReactor.cpp goes on with.
use nitro_server.Base.{
  ℕ, ◌<◌, ◌≤◌, ◌≡◌, none, some, refl, sym, ap, subst, ◌∙◌, false, ◌++◌, length, arith, ◌⊎◌, inl,
  inr, length-take, take-append-drop,
}
use nitro_server.Base.Text.{Bytes}
use nitro_server.Router.Match.{Best, match_route}
use nitro_server.Http.{crlf}
use nitro_server.Http.Framing.Sound.{IsFramed, framing-IsFramed}
use nitro_server.Http.Chunked.Total.{IsAnswer, decode_chunked-IsAnswer}
use nitro_server.Http.Head.{parse_head}
use nitro_server.Http.Head.Sound.{IsAccepted, parse_head-IsAccepted}
use nitro_server.Http.Request.{
  Settings, Request, request_fields, body_cap, route_max, server_max, make_request, serves, round,
}
use nitro_server.Http.Request.End.{find_end_whole}
use nitro_server.Http.Request.Parts.{
  IsHeadOf, read_head-IsHeadOf, IsChunkedBody, IsCountedBody, round-parts, read_body-cases,
}

pub record IsServed (settings : Settings) (buf : Bytes) (r : Request) (body rest : Bytes)
    : Type 0 where
  pub accepted : IsAccepted r.head
  pub sound : IsFramed (request_fields r.head) r.chunked
  pub routed : r.matched ≡ match_route r.head.method r.head.custom_method r.path settings.routes
  pub route_cap :
      (b : Best) (cap : ℕ)
      → r.matched ≡ some b
      → b.route.max_body_bytes ≡ some cap
      → r.max_body ≡ cap
  pub server_cap :
      (r.matched ≡ none) ⊎ ((b : Best) × ((r.matched ≡ some b) × (b.route.max_body_bytes ≡ none)))
      → ((0 < settings.max_body_bytes) × (r.max_body ≡ settings.max_body_bytes))
        ⊎ ((settings.max_body_bytes ≡ 0) × (r.max_body ≡ 10485760))
  pub capped : length body ≤ r.max_body
  pub counted :
      r.chunked ≡ false
      → (length body ≡ r.content_length)
        × ((head : Bytes) × (buf ≡ head ++ (crlf ++ (crlf ++ (body ++ rest)))))

module _ (settings : Settings) (buf : Bytes) (r : Request) (body rest after : Bytes)
    (at : IsHeadOf settings buf r after) where
  head_is : r.head ≡ parse_head at.text
  unfolding make_request
  head_is = ap (λ q. q.head) at.made

  head-IsAccepted : IsAccepted r.head
  head-IsAccepted = subst IsAccepted (sym head_is) (parse_head-IsAccepted at.text at.parsed)

  sound_is : IsFramed (request_fields r.head) r.chunked
  sound_is =
      subst (λ h. IsFramed (request_fields h) r.chunked) (sym head_is)
        (framing-IsFramed (request_fields (parse_head at.text)) r.chunked at.framing_ok)

  routed_is : r.matched ≡ match_route r.head.method r.head.custom_method r.path settings.routes
  unfolding make_request
  routed_is =
      subst (λ q. q.matched ≡ match_route q.head.method q.head.custom_method q.path settings.routes)
        (sym at.made) refl

  cap_is : r.max_body ≡ body_cap (route_max r.matched) (server_max settings)
  unfolding make_request
  cap_is =
      subst (λ q. q.max_body ≡ body_cap (route_max q.matched) (server_max settings)) (sym at.made)
        refl

  route_cap_is :
      (b : Best) (cap : ℕ)
      → r.matched ≡ some b
      → b.route.max_body_bytes ≡ some cap
      → r.max_body ≡ cap
  route_cap_is b cap found own = cap_is ∙ rw (found, own) refl

  server_cap_is :
      (r.matched ≡ none) ⊎ ((b : Best) × ((r.matched ≡ some b) × (b.route.max_body_bytes ≡ none)))
      → ((0 < settings.max_body_bytes) × (r.max_body ≡ settings.max_body_bytes))
        ⊎ ((settings.max_body_bytes ≡ 0) × (r.max_body ≡ 10485760))
  unfolding server_max
  server_cap_is (inl missed) =
      let is : r.max_body ≡ server_max settings = cap_is ∙ rw missed refl in ground arith
  server_cap_is (inr (b, (found, bare))) =
      let is : r.max_body ≡ server_max settings = cap_is ∙ rw (found, bare) refl in ground arith

  served :
      IsChunkedBody r after body rest ⊎ IsCountedBody r after body rest
      → IsServed settings buf r body rest
  served (inl (chunked, decoded)) = record {
    accepted = head-IsAccepted;
    sound = sound_is;
    routed = routed_is;
    route_cap = route_cap_is;
    server_cap = server_cap_is;
    capped = subst (IsAnswer r.max_body) decoded (decode_chunked-IsAnswer r.max_body after);
    counted = λ plain. absurd (let clash = sym chunked ∙ plain in cc);
  }
  served (inr (plain, long, first, left)) =
      let size : length body ≡ r.content_length =
        (ap (λ (t : Bytes). length t) first
          ∙ (length-take r.content_length after ∙ omega (arith, long))) in
      record {
        accepted = head-IsAccepted;
        sound = sound_is;
        routed = routed_is;
        route_cap = route_cap_is;
        server_cap = server_cap_is;
        capped = ground (arith, size, at.fits, plain);
        counted = λ p. (
          size,
          (
            at.text,
            find_end_whole buf at.text after at.found
                ∙ ap (λ t. at.text ++ (crlf ++ (crlf ++ t)))
                    (sym (take-append-drop r.content_length after) ∙ rw (first, left) refl),
          ),
        );
      }

-- A request that the loop goes on with has a head and a framing that are accepted, and the route that
-- the router finds for its method and path; its body is within the route's own cap, or where there is
-- no route or it has none, within the server's, 10 MiB for a server whose own is 0; and unless it is
-- chunked, the body has the declared length and the buffer is the head, an empty line, the body and
-- the bytes that are left.
pub round-IsServed :
    (settings : Settings) (buf : Bytes) (r : Request) (body rest : Bytes)
    → round settings buf ≡ serves r body rest
    → IsServed settings buf r body rest
round-IsServed settings buf r body rest e =
    let (after, head, body_read) = round-parts settings buf r body rest e in
    let (waits_not, how) = read_body-cases r after body rest body_read in
    served settings buf r body rest after (read_head-IsHeadOf settings buf r after head) how
