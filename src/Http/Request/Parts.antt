-- ===== src/Http/Request/Parts.antt =====
-- The ways of a request through `processConn` of src/engine/UvReactor.cpp.
use nitro_server.Base.{
  ℕ, ◌*◌, ◌≤◌, ◌≡◌, refl, sym, ap, subst, ◌∙◌, Bool, true, false, ◌&&◌, not, some, ltb, length,
  take, drop, arith, ◌⊎◌, inl, inr, Bool-cases, Option-cases,
}
use nitro_server.Base.Text.{Bytes}
use nitro_server.Http.Framing.{framing, Verdict, refused, framed}
use nitro_server.Http.Chunked.{
  Decoded, complete, need_more, malformed, over_cap, out_of_fuel, decode_chunked,
}
use nitro_server.Http.Head.{parse_head}
use nitro_server.Http.Request.{
  Settings, Request, request_fields, make_request, HeadRead, await_head, flooded, refuse, request,
  check_length, with_verdict, with_head, read_head, is_streamed, BodyRead, await_body, streamed,
  refuse_body, whole, from_chunks, read_body, serves, with_body, with_request, round,
}
use nitro_server.Http.Request.End.{find_end}

pub Verdict-cases :
    (v : Verdict)
    → ((status : ℕ) × (reason : Bytes) × (v ≡ refused status reason))
      ⊎ ((chunked : Bool) × (v ≡ framed chunked))
Verdict-cases (refused status reason) = inl (status, reason, refl)
Verdict-cases (framed chunked) = inr (chunked, refl)

pub HeadRead-cases :
    (h : HeadRead)
    → ((r : Request) × (after : Bytes) × (h ≡ request r after))
      ⊎ ((r : Request) → (body rest : Bytes) → with_request h ≡ serves r body rest → ⊥)
unfolding with_request
HeadRead-cases await_head = inr (λ r body rest e. absurd cc)
HeadRead-cases flooded = inr (λ r body rest e. absurd cc)
HeadRead-cases (refuse status) = inr (λ r body rest e. absurd cc)
HeadRead-cases (request r after) = inl (r, after, refl)

-- The way of a head to a request.
pub record IsHeadOf (settings : Settings) (buf : Bytes) (r : Request) (after : Bytes) : Type 0 where
  pub text : Bytes
  pub found : find_end buf ≡ some (text, after)
  pub parsed : (parse_head text).ok ≡ true
  pub framing_ok : framing (request_fields (parse_head text)) ≡ framed r.chunked
  pub made : r ≡ make_request settings (parse_head text) r.chunked
  pub fits : (not r.chunked && ltb r.max_body r.content_length) ≡ false

pub check_length-request :
    (q r : Request) (after rest : Bytes)
    → check_length q after ≡ request r rest
    → (q ≡ r) × (after ≡ rest) × ((not q.chunked && ltb q.max_body q.content_length) ≡ false)
unfolding check_length
check_length-request q r after rest e =
    elim (Bool-cases (not q.chunked && ltb q.max_body q.content_length)) [
      | inl a ↦ let clash = rw (check_length, a) at e in absurd cc
      | inr a ↦
          let same : request q after ≡ request r rest = rw (check_length, a) at e in (cc, cc, a)
    ]

pub read_head-IsHeadOf :
    (settings : Settings) (buf : Bytes) (r : Request) (after : Bytes)
    → read_head settings buf ≡ request r after
    → IsHeadOf settings buf r after
unfolding read_head with_head with_verdict make_request
read_head-IsHeadOf settings buf r after e = elim (Option-cases (find_end buf)) [
  | inl a ↦ elim (Bool-cases (ltb (64 * 1024) (length buf))) [
    | inl b ↦ let clash = rw (read_head, a, b) at e in absurd cc
    | inr b ↦ let clash = rw (read_head, a, b) at e in absurd cc
  ]
  | inr ((text, left), a) ↦ elim (Bool-cases (parse_head text).ok) [
    | inr b ↦ let clash = rw (read_head, a, with_head, b) at e in absurd cc
    | inl b ↦ elim (Verdict-cases (framing (request_fields (parse_head text)))) [
      | inl (status, reason, c) ↦
          let clash = rw (read_head, a, with_head, b, c, with_verdict) at e in absurd cc
      | inr (chunked, c) ↦
          let (same, left_same, fits) =
            check_length-request (make_request settings (parse_head text) chunked) r left after
              (rw (read_head, a, with_head, b, c, with_verdict) at e) in
          let chunks : r.chunked ≡ chunked = ap (λ q. q.chunked) (sym same) in
          record {
            text = text;
            found = a ∙ ap (λ t. some (text, t)) left_same;
            parsed = b;
            framing_ok = c ∙ ap framed (sym chunks);
            made = sym same ∙ ap (λ k. make_request settings (parse_head text) k) (sym chunks);
            fits =
                subst (λ q. (not q.chunked && ltb q.max_body q.content_length) ≡ false) same fits;
          }
    ]
  ]
]

pub Decoded-cases :
    (d : Decoded)
    → ((body : Bytes) × (rest : Bytes) × (d ≡ complete body rest))
      ⊎ ((body rest : Bytes) → from_chunks d ≡ whole body rest → ⊥)
Decoded-cases (complete body rest) = inl (body, rest, refl)
Decoded-cases need_more = inr (λ body rest e. absurd cc)
Decoded-cases malformed = inr (λ body rest e. absurd cc)
Decoded-cases over_cap = inr (λ body rest e. absurd cc)
Decoded-cases out_of_fuel = inr (λ body rest e. absurd cc)

-- How a body was read.
abbrev pub IsChunkedBody : Request → Bytes → Bytes → Bytes → Type 0
IsChunkedBody r after body rest =
    (r.chunked ≡ true) × (decode_chunked r.max_body after ≡ complete body rest)

abbrev pub IsCountedBody : Request → Bytes → Bytes → Bytes → Type 0
IsCountedBody r after body rest =
    (r.chunked ≡ false)
    × (r.content_length ≤ length after)
    × (body ≡ take r.content_length after)
    × (rest ≡ drop r.content_length after)

module _ (r : Request) (after body rest : Bytes) where
  pub read_body-cases :
      read_body r after ≡ whole body rest
      → (is_streamed r ≡ false)
        × (IsChunkedBody r after body rest ⊎ IsCountedBody r after body rest)
  unfolding read_body
  read_body-cases e = elim (Bool-cases (is_streamed r)) [
    | inl a ↦ let clash = rw (read_body, a) at e in absurd cc
    | inr a ↦ elim (Bool-cases r.chunked) [
      | inl b ↦
          let same : from_chunks (decode_chunked r.max_body after) ≡ whole body rest =
            simp (read_body, a, b) at e in
          elim (Decoded-cases (decode_chunked r.max_body after)) [
            | inl (got, left, d) ↦
                let parts : whole got left ≡ whole body rest = (ap from_chunks (sym d) ∙ same) in
                let one : got ≡ body = cc in
                let two : left ≡ rest = cc in (a, inl (b, d ∙ rw (one, two) refl))
            | inr not_whole ↦ absurd (not_whole body rest same)
          ]
      | inr b ↦ elim (Bool-cases (ltb (length after) r.content_length)) [
        | inl c ↦
            let clash : await_body ≡ whole body rest = simp (read_body, a, b, c) at e in absurd cc
        | inr c ↦
            let parts : whole (take r.content_length after) (drop r.content_length after)
                ≡ whole body rest =
              simp (read_body, a, b, c) at e in
            (a, inr (b, ground (arith, c), cc, cc))
      ]
    ]
  ]

-- A request that is served.
pub BodyRead-cases :
    (b : BodyRead)
    → ((body : Bytes) × (rest : Bytes) × (b ≡ whole body rest))
      ⊎ ((q r : Request) → (after body rest : Bytes) → with_body q after b ≡ serves r body rest → ⊥)
unfolding with_body
BodyRead-cases await_body = inr (λ q r after body rest e. absurd cc)
BodyRead-cases streamed = inr (λ q r after body rest e. absurd cc)
BodyRead-cases (refuse_body status) = inr (λ q r after body rest e. absurd cc)
BodyRead-cases (whole body rest) = inl (body, rest, refl)

-- A served request comes from a head that was read and a body that was whole.
pub round-parts :
    (settings : Settings) (buf : Bytes) (r : Request) (body rest : Bytes)
    → round settings buf ≡ serves r body rest
    → (after : Bytes) × (read_head settings buf ≡ request r after)
      × (read_body r after ≡ whole body rest)
unfolding round with_request with_body
round-parts settings buf r body rest e = elim (HeadRead-cases (read_head settings buf)) [
  | inr not_served ↦ absurd (not_served r body rest e)
  | inl (q, after, a) ↦ elim (BodyRead-cases (read_body q after)) [
    | inr not_whole ↦ absurd (not_whole q r after body rest (rw (round, a) at e))
    | inl (got, left, b) ↦
        let same : serves q got left ≡ serves r body rest = rw (round, a, b) at e in
        let one : q ≡ r = cc in
        let two : got ≡ body = cc in
        let three : left ≡ rest = cc in
        (
          after,
          a ∙ ap (λ q. request q after) one,
          ap (λ q. read_body q after) (sym one) ∙ (b ∙ rw (two, three) refl),
        )
  ]
]
