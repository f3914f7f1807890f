-- ===== src/Ws/Session/Rest.antt =====
-- `wsProcess` of src/engine/UvReactor.cpp goes on for as long as there is a frame to act on.
use nitro_server.Base.{
  ℕ, zero, suc, ◌+◌, ◌≤◌, ◌<◌, ◌≡◌, refl, sym, ap, subst, ◌∙◌, Bool, true, false, not, ◌&&◌, ◌||◌,
  Option, none, some, List, [], length, get_or, ltb, arith, ◌⊎◌, inl, inr, bit_and, Bool-cases,
  Option-cases, length-drop,
}
use nitro_server.Base.Text.{Bytes}
use nitro_server.Ws.Frame.{FrameHeader, parse_header, read_length, read_mask, is_set, is_control}
use nitro_server.Ws.Session.{
  Session, Action, Limits, Processed, max_msg, close_conn, on_frame, is_broken, with_header, turn,
  after, process_loop, process,
}

read_length_size :
    (bytes : Bytes) (short len pos : ℕ) → read_length bytes short ≡ some (len, pos) → 2 ≤ pos
unfolding read_length
read_length_size bytes short len pos e = ground arith

read_mask_size :
    (bytes key : Bytes) (masked : Bool) (pos end : ℕ)
    → read_mask bytes masked pos ≡ some (key, end)
    → pos ≤ end
unfolding read_mask
read_mask_size bytes key masked pos end e = ground arith

pub parse_header_size :
    (bytes : Bytes) (allow : Bool) (h : FrameHeader)
    → parse_header bytes allow ≡ some h
    → 2 ≤ h.header_size
unfolding parse_header
parse_header_size bytes allow h e =
    elim (Option-cases (read_length bytes (bit_and (get_or bytes 1 0) 0x7f))) [
      | inl short ↦ ground (arith, short)
      | inr ((len, pos), read) ↦
          let low = read_length_size bytes _ len pos read in
          elim (Option-cases (read_mask bytes (is_set (bit_and (get_or bytes 1 0) 0x80)) pos)) [
            | inl short ↦ ground (arith, read, short)
            | inr ((key, end), got) ↦
                let high = read_mask_size bytes key _ pos end got in ground (arith, read, got)
          ]
    ]

pub close_conn_closes : (code : ℕ) (s : Session) → (close_conn code s).0.ws_closing ≡ true
unfolding close_conn
close_conn_closes code s = elim (Bool-cases s.ws_closing) [
  | inl e ↦ simp (e, close_conn)
  | inr e ↦ rw (e, close_conn) refl
]

-- A round ends the session or takes bytes.
abbrev pub IsProgress : Bytes → Bytes → Session → Type 0
IsProgress buf rest next = (next.ws_closing ≡ true) ⊎ (length rest < length buf)

pub some_pair :
    {A B : Type 0} (a c : A) (b d : B)
    → ◌≡◌ {A = Option (A × B)} (some (a, b)) (some (c, d))
    → (c ≡ a) × (d ≡ b)
some_pair a c b d e = (cc, cc)

-- What a round that does not wait has done: closed the session, or acted on a frame it took.
abbrev pub IsClose : Session → Bytes → Bytes → Session × List Action → Type 0
IsClose s buf rest r = (rest ≡ buf) × ((code : ℕ) × (r ≡ close_conn code s))

abbrev pub IsFrame : Limits → Session → Bytes → Bytes → Session × List Action → Type 0
IsFrame limits s buf rest r =
    (length rest < length buf)
    × ((h : FrameHeader) × ((payload : Bytes) × (r ≡ on_frame limits h payload s)))

module _ (limits : Limits) (s : Session) (buf rest : Bytes) (r : Session × List Action) where
  with_header-cases :
      (h : FrameHeader)
      → 2 ≤ h.header_size
      → with_header limits s buf (some h) ≡ some (rest, r)
      → IsClose s buf rest r ⊎ IsFrame limits s buf rest r
  unfolding with_header
  with_header-cases h low e =
      elim (Bool-cases (not (is_control h.opcode) && ltb (max_msg limits) h.payload_length)) [
        | inl a ↦ let (same, did) = some_pair _ rest _ r (rw a at e) in inl (same, (1009, did))
        | inr a ↦ elim (Bool-cases (ltb (length buf) (h.header_size + h.payload_length))) [
          | inl b ↦ let clash = rw (a, b) at e in cc
          | inr b ↦
              let (same, did) = some_pair _ rest _ r (rw (a, b) at e) in
              inr (
                rw same (ground (arith, b, length-drop (h.header_size + h.payload_length) buf)),
                (h, (_, did)),
              )
        ]
      ]

  pub turn-cases :
      turn limits s buf ≡ some (rest, r) → IsClose s buf rest r ⊎ IsFrame limits s buf rest r
  unfolding turn with_header
  turn-cases e = elim (Bool-cases (ltb (length buf) 2)) [
    | inl a ↦ let clash = rw a at e in cc
    | inr a ↦ elim (Bool-cases (is_broken s.deflate (get_or buf 0 0) (get_or buf 1 0))) [
      | inl b ↦ let (same, did) = some_pair _ rest _ r (rw (a, b) at e) in inl (same, (1002, did))
      | inr b ↦ elim (Option-cases (parse_header buf s.deflate)) [
        | inl c ↦ let clash = rw (a, b, c, with_header) at e in cc
        | inr (h, c) ↦ with_header-cases h (parse_header_size buf s.deflate h c) (rw (a, b, c) at e)
      ]
    ]
  ]

pub turn-IsProgress :
    (limits : Limits) (s next : Session) (buf rest : Bytes) (done : List Action)
    → turn limits s buf ≡ some (rest, (next, done))
    → IsProgress buf rest next
turn-IsProgress limits s next buf rest done e = elim (turn-cases limits s buf rest (next, done) e) [
  | inl (same, (code, did)) ↦
      inl (ap (λ (r : Session × List Action). r.0.ws_closing) did ∙ close_conn_closes code s)
  | inr (fewer, frame) ↦ inr fewer
]

pub turn_fewer :
    (limits : Limits) (s : Session) (buf rest : Bytes) (r : Session × List Action)
    → turn limits s buf ≡ some (rest, r)
    → length rest ≤ length buf
turn_fewer limits s buf rest r e = elim (turn-cases limits s buf rest r e) [
  | inl (same, close) ↦ omega (arith, ap (λ (b : Bytes). length b) same)
  | inr (fewer, frame) ↦ omega (arith, fewer)
]

abbrev pub is_stopped : Session → Bool
is_stopped s = s.closing || s.ws_closing

-- The three ways of a round.
pub loop_stopped :
    (limits : Limits) (fuel : ℕ) (s : Session) (buf : Bytes)
    → is_stopped s ≡ true
    → process_loop limits fuel s buf ≡ record { left = buf; session = s; actions = [] }
unfolding process_loop
loop_stopped limits zero s buf c = refl
loop_stopped limits (suc fuel) s buf c = rw (process_loop, c) refl

pub loop_waits :
    (limits : Limits) (fuel : ℕ) (s : Session) (buf : Bytes)
    → turn limits s buf ≡ none
    → process_loop limits fuel s buf ≡ record { left = buf; session = s; actions = [] }
unfolding process_loop
loop_waits limits zero s buf e = refl
loop_waits limits (suc fuel) s buf e = elim (Bool-cases (is_stopped s)) [
  | inl c ↦ rw (process_loop, c) refl
  | inr c ↦ rw (process_loop, c, e) refl
]

pub loop_goes :
    (limits : Limits) (fuel : ℕ) (s next : Session) (buf rest : Bytes) (done : List Action)
    → is_stopped s ≡ false
    → turn limits s buf ≡ some (rest, (next, done))
    → process_loop limits (suc fuel) s buf ≡ after done (process_loop limits fuel next rest)
unfolding process_loop
loop_goes limits fuel s next buf rest done c e = rw (process_loop, c, e) refl

pub closed-is_stopped : (s : Session) → s.ws_closing ≡ true → is_stopped s ≡ true
closed-is_stopped s h = ground arith

-- Fuel beyond the length of the buffer makes no difference.
pub process_enough :
    (limits : Limits) (f g : ℕ) (s : Session) (buf : Bytes)
    → length buf < f
    → length buf < g
    → process_loop limits f s buf ≡ process_loop limits g s buf
process_enough limits zero g s buf p q = absurd (omega arith)
process_enough limits (suc f) zero s buf p q = absurd (omega arith)
process_enough limits (suc f) (suc g) s buf p q = elim (Bool-cases (is_stopped s)) [
  | inl c ↦ loop_stopped limits (suc f) s buf c ∙ sym (loop_stopped limits (suc g) s buf c)
  | inr c ↦ elim (Option-cases (turn limits s buf)) [
    | inl e ↦ loop_waits limits (suc f) s buf e ∙ sym (loop_waits limits (suc g) s buf e)
    | inr ((rest, (next, done)), e) ↦
        loop_goes limits f s next buf rest done c e
        ∙ (ap (λ p. after done p)
              (elim (turn-IsProgress limits s next buf rest done e) [
                | inl closed ↦
                    let stopped = closed-is_stopped next closed in
                    loop_stopped limits f next rest stopped
                    ∙ sym (loop_stopped limits g next rest stopped)
                | inr fewer ↦ process_enough limits f g next rest (omega arith) (omega arith)
              ])
            ∙ sym (loop_goes limits g s next buf rest done c e))
  ]
]

-- Nothing is left to do.
abbrev pub IsAtRest : Limits → Processed → Type 0
IsAtRest limits p = (is_stopped p.session ≡ true) ⊎ (turn limits p.session p.left ≡ none)

process_loop-IsAtRest :
    (limits : Limits) (fuel : ℕ) (s : Session) (buf : Bytes)
    → length buf < fuel
    → IsAtRest limits (process_loop limits fuel s buf)
process_loop-IsAtRest limits zero s buf h = absurd (omega arith)
process_loop-IsAtRest limits (suc fuel) s buf h = elim (Bool-cases (is_stopped s)) [
  | inl c ↦ subst (IsAtRest limits) (sym (loop_stopped limits (suc fuel) s buf c)) (inl c)
  | inr c ↦ elim (Option-cases (turn limits s buf)) [
    | inl e ↦ subst (IsAtRest limits) (sym (loop_waits limits (suc fuel) s buf e)) (inr e)
    | inr ((rest, (next, done)), e) ↦
        subst (IsAtRest limits) (sym (loop_goes limits fuel s next buf rest done c e))
          (elim (turn-IsProgress limits s next buf rest done e) [
            | inl closed ↦
                let stopped = closed-is_stopped next closed in
                subst (IsAtRest limits) (sym (loop_stopped limits fuel next rest stopped))
                  (inl stopped)
            | inr fewer ↦ process_loop-IsAtRest limits fuel next rest (omega arith)
          ])
  ]
]

-- `wsProcess` returns only when the connection is being closed, by it or by others, or when the
-- bytes that are left call for no action: its rounds are no more than the bytes in the buffer
-- and one.
pub process-IsAtRest :
    (limits : Limits) (s : Session) (buf : Bytes) → IsAtRest limits (process limits s buf)
unfolding process
process-IsAtRest limits s buf = process_loop-IsAtRest limits (suc (length buf)) s buf (omega arith)
