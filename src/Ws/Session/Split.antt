-- ===== src/Ws/Session/Split.antt =====
-- How the bytes of a WebSocket connection are split into reads makes no difference to `wsProcess` of
-- src/engine/UvReactor.cpp.
use nitro_server.Base.{
  ℕ, zero, suc, ◌+◌, ◌≤◌, ◌<◌, ◌≡◌, refl, sym, ap, ◌∙◌, false, not, ◌&&◌, some, List, ◌++◌, length,
  get_or, drop, ltb, arith, inl, inr, Bool-cases, Option-cases, length-drop, length-append,
  take-append_le, drop-append_le, get_or-append_lt, append_assoc,
}
use nitro_server.Base.Text.{Bytes}
use nitro_server.Ws.Frame.{FrameHeader, parse_header, is_control}
use nitro_server.Ws.Frame.Sound.{parse_header-append}
use nitro_server.Ws.Session.{
  Session, Action, Limits, Processed, max_msg, is_broken, with_header, turn, after, process_loop,
  process,
}
use nitro_server.Ws.Session.Rest.{
  turn-IsProgress, turn_fewer, loop_stopped, loop_waits, loop_goes, closed-is_stopped, is_stopped,
  process_enough, some_pair,
}

module _ (limits : Limits) (s : Session) (buf more rest : Bytes) (r : Session × List Action) where
  with_header-append :
      (h : FrameHeader)
      → with_header limits s buf (some h) ≡ some (rest, r)
      → with_header limits s (buf ++ more) (some h) ≡ some (rest ++ more, r)
  unfolding with_header
  with_header-append h e =
      elim (Bool-cases (not (is_control h.opcode) && ltb (max_msg limits) h.payload_length)) [
        | inl a ↦ let (same, did) = some_pair _ rest _ r (rw a at e) in rw (a, same, did) refl
        | inr a ↦ elim (Bool-cases (ltb (length buf) (h.header_size + h.payload_length))) [
          | inl b ↦ let clash = rw (a, b) at e in cc
          | inr b ↦
              let (same, did) = some_pair _ rest _ r (rw (a, b) at e) in
              let header_in : h.header_size ≤ length buf = (ground (arith, b)) in
              let frame_in : h.payload_length ≤ length (drop h.header_size buf) =
                ground (arith, b, length-drop h.header_size buf) in
              let enough : ltb (length (buf ++ more)) (h.header_size + h.payload_length) ≡ false =
                ground (arith, b, length-append buf more) in
              rw
                (
                  a,
                  enough,
                  drop-append_le (h.header_size + h.payload_length) buf more (ground (arith, b)),
                  drop-append_le h.header_size buf more header_in,
                  take-append_le h.payload_length (drop h.header_size buf) more frame_in,
                  same,
                  did,
                )
                refl
        ]
      ]

  turn-append :
      turn limits s buf ≡ some (rest, r) → turn limits s (buf ++ more) ≡ some (rest ++ more, r)
  unfolding turn with_header
  turn-append e = elim (Bool-cases (ltb (length buf) 2)) [
    | inl a ↦ let clash = rw a at e in cc
    | inr a ↦
        let long : ltb (length (buf ++ more)) 2 ≡ false =
          (ground (arith, length-append buf more)) in
        let b0 = get_or-append_lt buf more 0 0 (ground arith) in
        let b1 = get_or-append_lt buf more 1 0 (ground arith) in
        elim (Bool-cases (is_broken s.deflate (get_or buf 0 0) (get_or buf 1 0))) [
          | inl b ↦
              let (same, did) = some_pair _ rest _ r (rw (a, b) at e) in
              rw (turn, long, b0, b1, b, same, did) refl
          | inr b ↦ elim (Option-cases (parse_header buf s.deflate)) [
            | inl c ↦ let clash = rw (a, b, c, with_header) at e in cc
            | inr (h, c) ↦
                rw (turn, long, b0, b1, b, parse_header-append buf more s.deflate h c)
                  (with_header-append h (rw (a, b, c) at e))
          ]
        ]
  ]

after-after : (a b : List Action) (p : Processed) → after a (after b p) ≡ after (a ++ b) p
after-after a b p =
    ap (λ (t : List Action). record p { actions = t }) (sym (append_assoc a b p.actions))

left_fewer :
    (limits : Limits) (fuel : ℕ) (s : Session) (buf : Bytes)
    → length (process_loop limits fuel s buf).left ≤ length buf
left_fewer limits zero s buf = unfold process_loop in omega arith
left_fewer limits (suc fuel) s buf = elim (Bool-cases (is_stopped s)) [
  | inl c ↦ rw (loop_stopped limits (suc fuel) s buf c) (omega arith)
  | inr c ↦ elim (Option-cases (turn limits s buf)) [
    | inl e ↦ rw (loop_waits limits (suc fuel) s buf e) (omega arith)
    | inr ((rest, (next, done)), e) ↦
        let fewer = turn_fewer limits s buf rest (next, done) e in
        let less = left_fewer limits fuel next rest in
        rw (loop_goes limits fuel s next buf rest done c e) (omega arith)
  ]
]

-- What the loop does with all of the bytes, from what it did with the first ones.
module _ (limits : Limits) (more : Bytes) where
  resumed : ℕ → Processed → Processed
  resumed k p = after p.actions (process_loop limits k p.session (p.left ++ more))

  loop_split :
      (f k : ℕ) (s : Session) (buf : Bytes)
      → length buf < f
      → length (buf ++ more) < k
      → process_loop limits k s (buf ++ more) ≡ resumed k (process_loop limits f s buf)
  unfolding resumed
  loop_split zero k s buf p q = absurd (omega arith)
  loop_split (suc f) zero s buf p q = absurd (omega arith)
  loop_split (suc f) (suc k) s buf p q = elim (Bool-cases (is_stopped s)) [
    | inl c ↦ rw (loop_stopped limits (suc f) s buf c) refl
    | inr c ↦ elim (Option-cases (turn limits s buf)) [
      | inl e ↦ rw (loop_waits limits (suc f) s buf e) refl
      | inr ((rest, (next, done)), e) ↦
          let goes = loop_goes limits f s next buf rest done c e in
          let goes_on =
            loop_goes limits k s next (buf ++ more) (rest ++ more) done c
              (turn-append limits s buf more rest (next, done) e) in
          let first = process_loop limits f next rest in
          let rest_of : process_loop limits k next (rest ++ more) ≡ resumed (suc k) first =
            elim (turn-IsProgress limits s next buf rest done e) [
              | inl closed ↦
                  let stopped = closed-is_stopped next closed in
                  loop_stopped limits k next (rest ++ more) stopped
                  ∙ sym (
                      rw
                        (
                          loop_stopped limits f next rest stopped,
                          loop_stopped limits (suc k) next (rest ++ more) stopped,
                        )
                        refl)
              | inr fewer ↦
                  let shorter : length (rest ++ more) < k =
                    (omega (arith, length-append rest more, length-append buf more)) in
                  let still : length (first.left ++ more) < k =
                    (omega (
                      arith,
                      left_fewer limits f next rest,
                      length-append first.left more,
                      length-append rest more,
                    )) in
                  loop_split f k next rest (omega arith) shorter
                  ∙ ap (λ t. after first.actions t)
                      (process_enough limits k (suc k) first.session (first.left ++ more) still
                        (omega arith))
            ] in
          goes_on
          ∙ (ap (λ t. after done t) rest_of
              ∙ (after-after done first.actions _ ∙ sym (ap (λ t. resumed (suc k) t) goes)))
    ]
  ]

-- Bytes that arrive in two reads, with the frames between handled as soon as they are complete,
-- lead to the same actions, the same session and the same bytes left over as one read of all of
-- them, when no write completes and no timer runs in between.
pub process-append :
    (limits : Limits) (s : Session) (buf more : Bytes)
    → let p = process limits s buf in
      process limits s (buf ++ more) ≡ after p.actions (process limits p.session (p.left ++ more))
unfolding process resumed
process-append limits s buf more =
    let p = process_loop limits (suc (length buf)) s buf in
    loop_split limits more (suc (length buf)) (suc (length (buf ++ more))) s buf (omega arith)
      (omega arith)
    ∙ ap (λ t. after p.actions t)
        (process_enough limits (suc (length (buf ++ more))) (suc (length (p.left ++ more)))
          p.session (p.left ++ more)
          (omega (
            arith,
            left_fewer limits (suc (length buf)) s buf,
            length-append buf more,
            length-append p.left more,
          ))
          (omega arith))
