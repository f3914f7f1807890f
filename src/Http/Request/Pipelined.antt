-- ===== src/Http/Request/Pipelined.antt =====
-- The requests behind a complete one do not change what `processConn` of src/engine/UvReactor.cpp reads.
use nitro_server.Base.{
  ◌≡◌, sym, ap, ◌∙◌, false, ◌&&◌, not, ◌++◌, ltb, length, arith, refl, inl, inr, length-append,
  take-append_le, drop-append_le,
}
use nitro_server.Base.Text.{Bytes}
use nitro_server.Http.Chunked.Stable.{decode_chunked-append}
use nitro_server.Http.Request.{
  Settings, Request, request, check_length, with_verdict, with_head, read_head, whole, read_body,
  serves, with_body, with_request, round,
}
use nitro_server.Http.Request.End.{find_end-append}
use nitro_server.Http.Request.Parts.{read_head-IsHeadOf, read_body-cases, round-parts}

check_length_passes :
    (r : Request) (after : Bytes)
    → (not r.chunked && ltb r.max_body r.content_length) ≡ false
    → check_length r after ≡ request r after
unfolding check_length
check_length_passes r after e = simp (check_length, e)

read_head-append :
    (settings : Settings) (buf more : Bytes) (r : Request) (after : Bytes)
    → read_head settings buf ≡ request r after
    → read_head settings (buf ++ more) ≡ request r (after ++ more)
unfolding read_head with_head with_verdict
read_head-append settings buf more r after e =
    let at = read_head-IsHeadOf settings buf r after e in
    rw
      (
        read_head,
        find_end-append buf more at.text after at.found,
        with_head,
        at.parsed,
        at.framing_ok,
        with_verdict,
      )
      (ap (λ q. check_length q (after ++ more)) (sym at.made)
        ∙ check_length_passes r (after ++ more) at.fits)

read_body-append :
    (r : Request) (after more body rest : Bytes)
    → read_body r after ≡ whole body rest
    → read_body r (after ++ more) ≡ whole body (rest ++ more)
unfolding read_body
read_body-append r after more body rest e =
    let (plain, how) = read_body-cases r after body rest e in
    elim how [
      | inl (chunked, decoded) ↦
          simp (
            read_body,
            plain,
            chunked,
            decode_chunked-append r.max_body after more body rest decoded,
          )
      | inr (counted, long, first, left) ↦
          let fits : ltb (length (after ++ more)) r.content_length ≡ false =
            (ground (arith, long, length-append after more)) in
          simp (
            read_body,
            plain,
            counted,
            fits,
            take-append_le r.content_length after more long,
            drop-append_le r.content_length after more long,
            first,
            left,
          )
    ]

-- When a request is complete in the buffer, bytes that arrive behind it change neither the request nor
-- its body, and stand behind what is left: a pipelined request is read from where the first ends.
pub round-append :
    (settings : Settings) (buf more : Bytes) (r : Request) (body rest : Bytes)
    → round settings buf ≡ serves r body rest
    → round settings (buf ++ more) ≡ serves r body (rest ++ more)
unfolding round with_request with_body
round-append settings buf more r body rest e =
    let (after, head, got) = round-parts settings buf r body rest e in
    rw
      (
        round,
        read_head-append settings buf more r after head,
        read_body-append r after more body rest got,
      )
      refl
