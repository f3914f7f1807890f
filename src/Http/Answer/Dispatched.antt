-- ===== src/Http/Answer/Dispatched.antt =====
-- What src/engine/UvReactor.cpp hands over to a handler, of a request that it has read.
use nitro_server.Base.{
  ℕ, ◌≡◌, inl, inr, refl, sym, ap, ◌∙◌, Bool, true, false, ◌||◌, not, Option, some, List, [], ◌∷◌,
  ◌++◌, if◌then◌else◌, ltb, length, arith, Bool-cases, Option-cases, append-nil,
}
use nitro_server.Base.Text.{Bytes}
use nitro_server.Router.Match.{Best, match_route}
use nitro_server.Http.Fields.{is_web_socket_upgrade, is_empty}
use nitro_server.Http.Request.{Settings, Request, request_fields, round, serves}
use nitro_server.Http.Answer.{
  Terms, Emission, data_out, Answer, dispatches, reported_length, emissions, dispatch, unmatched,
  plain_route, matched_route, answer_request,
}
use nitro_server.Http.Request.Accepted.{IsServed, round-IsServed}

-- The body bytes that the emitter is given.
unfoldable pub carried : List Emission → Bytes
carried [] = []
carried (data_out id bytes ∷ out) = bytes ++ carried out
carried (e ∷ out) = carried out

carried-emissions :
    (id : ℕ) (r : Request) (b : Best) (body : Bytes)
    → length body ≡ reported_length r body
    → carried (emissions id r b body) ≡ body
unfolding carried emissions
carried-emissions id r b [] h = elim (Bool-cases (ltb 0 (reported_length r []))) [
  | inl e ↦ rw (emissions, e) refl
  | inr e ↦ rw (emissions, e) refl
]
carried-emissions id r b (c ∷ body) h =
    let some_body : ltb 0 (reported_length r (c ∷ body)) ≡ true = ground (arith, h) in
    rw (emissions, some_body) (append-nil (c ∷ body))

-- A hand-over: for which route, and what of it.
record HandedOver (t : Terms) (r : Request) (body : Bytes) (b : Best) (a : Answer) : Type 0 where
  pub plain : b.route.is_web_socket ≡ false
  pub admitted : t.over_budget ≡ false
  pub made : a ≡ dispatch t r b body

abbrev is_dispatch : Answer → Bool
is_dispatch (dispatches id for_head keep deadline out) = true
is_dispatch a = false

plain_route-HandedOver :
    (t : Terms) (r : Request) (b : Best) (body : Bytes)
    → b.route.is_web_socket ≡ false
    → is_dispatch (plain_route t r b body) ≡ true
    → HandedOver t r body b (plain_route t r b body)
unfolding plain_route
plain_route-HandedOver t r b body plain h = elim (Option-cases b.route.static_response) [
  | inr (fixed, e) ↦ let clash = rw (plain_route, e) at h in cc
  | inl e ↦ elim (Bool-cases t.over_budget) [
    | inl f ↦ let clash = rw (plain_route, e, f) at h in cc
    | inr f ↦ record { plain = plain; admitted = f; made = simp (plain_route, e, f) }
  ]
]

matched_route-HandedOver :
    (t : Terms) (r : Request) (b : Best) (body rest : Bytes)
    → is_dispatch (matched_route t r b body rest) ≡ true
    → HandedOver t r body b (matched_route t r b body rest)
unfolding matched_route
matched_route-HandedOver t r b body rest h =
    let up = is_web_socket_upgrade (request_fields r.head) in
    elim (Bool-cases b.route.is_web_socket) [
      | inl e ↦ elim (Bool-cases (not up)) [
        | inl f ↦ let clash = rw (matched_route, e, f) at h in cc
        | inr f ↦ elim (Bool-cases (not (is_empty body) || not (is_empty rest))) [
          | inl g ↦ let clash = rw (matched_route, e, f, g) at h in cc
          | inr g ↦ let clash = rw (matched_route, e, f, g) at h in cc
        ]
      ]
      | inr e ↦ elim (Bool-cases up) [
        | inl f ↦ let clash = rw (matched_route, e, f) at h in cc
        | inr f ↦
            let step : matched_route t r b body rest ≡ plain_route t r b body =
              simp (matched_route, e, f) in
            rw step (plain_route-HandedOver t r b body e (sym (ap (λ a. is_dispatch a) step) ∙ h))
      ]
    ]

unmatched-is_dispatch : (t : Terms) (r : Request) → is_dispatch (unmatched t r) ≡ false
unfolding unmatched
unmatched-is_dispatch t r = ground arith

reported-served :
    (settings : Settings) (buf : Bytes) (r : Request) (body rest : Bytes)
    → IsServed settings buf r body rest
    → length body ≡ reported_length r body
unfolding reported_length
reported-served settings buf r body rest s = elim (Bool-cases r.chunked) [
  | inl e ↦ rw (reported_length, e) refl
  | inr e ↦ rw (reported_length, e) ((s.counted e).0)
]

abbrev pub out_of : Answer → List Emission
out_of (dispatches id for_head keep deadline out) = out
out_of a = []

-- What a hand-over emits where there is an emitter.
dispatch_with :
    (t : Terms) (r : Request) (b : Best) (body : Bytes)
    → t.has_emitter ≡ true
    → emissions t.next_id r b body ≡ out_of (dispatch t r b body)
unfolding dispatch
dispatch_with t r b body h = sym (ap (λ e. if e then emissions t.next_id r b body else []) h)

-- A request that was read from the buffer and that is handed over has a route of its own method, which
-- is not for WebSockets; the budget for requests in flight is not spent; and the emitter, where there is
-- one, is given the body as it was read.
pub round-dispatches :
    (settings : Settings) (t : Terms) (buf : Bytes) (r : Request) (body rest : Bytes) (id : ℕ)
    (for_head keep : Bool) (deadline : Option ℕ) (out : List Emission)
    → round settings buf ≡ serves r body rest
    → t.has_emitter ≡ true
    → answer_request t r body rest ≡ dispatches id for_head keep deadline out
    → (b : Best) × (match_route r.head.method r.head.custom_method r.path settings.routes ≡ some b)
      × (b.route.is_web_socket ≡ false)
      × (t.over_budget ≡ false)
      × (carried out ≡ body)
unfolding answer_request dispatch
round-dispatches settings t buf r body rest id for_head keep deadline out read emitter h =
    let s = round-IsServed settings buf r body rest read in
    let dispatched : is_dispatch (answer_request t r body rest) ≡ true =
      ap (λ a. is_dispatch a) h in
    elim (Option-cases r.matched) [
      | inl e ↦
          let step : answer_request t r body rest ≡ unmatched t r = simp (answer_request, e) in
          let clash =
            sym (unmatched-is_dispatch t r) ∙ sym (ap (λ a. is_dispatch a) step) ∙ dispatched in
          cc
      | inr (b, e) ↦
          let step : answer_request t r body rest ≡ matched_route t r b body rest =
            simp (answer_request, e) in
          let over =
            matched_route-HandedOver t r b body rest
              (sym (ap (λ a. is_dispatch a) step) ∙ dispatched) in
          let made : dispatch t r b body ≡ dispatches id for_head keep deadline out =
            sym over.made ∙ sym step ∙ h in
          let sent : emissions t.next_id r b body ≡ out =
            dispatch_with t r b body emitter ∙ ap (λ a. out_of a) made in
          (
            b,
            sym s.routed ∙ e,
            over.plain,
            over.admitted,
            rw (← sent)
                (carried-emissions t.next_id r b body (reported-served settings buf r body rest s)),
          )
    ]
