-- ===== src/Ws/Session/Deliver.antt =====
-- What `wsProcess` of src/engine/UvReactor.cpp hands to the runner, and what a session keeps in memory.
use nitro_server.Base.{
  ℕ, zero, suc, ◌+◌, ◌≤◌, ◌≡◌, refl, sym, subst, Bool, true, false, not, ◌&&◌, ◌||◌, Option, none,
  some, List, [], ◌∷◌, ◌++◌, length, ltb, ◌==◌, if◌then◌else◌, arith, ◌⊎◌, inl, inr, All,
  All-append, append-nil, ◌∙◌, Bool-cases, Option-cases,
}
use nitro_server.Base.Text.{Bytes}
use nitro_server.Ws.Frame.{FrameHeader, text, binary, close, ping, pong}
use nitro_server.Ws.Utf8.{valid_utf8}
use nitro_server.Ws.Session.{
  Session, Action, write, message, track, forget, Limits, Processed, max_msg, emit, close_frame,
  close_conn, write_more, is_bad_text, close_code, deliver, grown, on_data, on_frame, turn,
  process_loop, process,
}
use nitro_server.Ws.Session.Rest.{turn-cases, loop_stopped, loop_waits, loop_goes, is_stopped}

-- A data opcode.
abbrev pub IsData : ℕ → Type 0
IsData opcode = (opcode ≡ text) ⊎ (opcode ≡ binary)

-- What may be handed over: the notice of the close, which carries no bytes, and text or binary
-- messages within the cap, text that is not compressed only where it passes `valid_utf8`.
abbrev pub IsDelivered : ℕ → Action → Type 0
IsDelivered cap (write bytes keep_alive finish) = Unit
IsDelivered cap (message payload opcode code) =
    ((opcode ≡ close) × (payload ≡ []))
    ⊎ (IsData opcode
        × ((length payload ≤ cap) × (opcode ≡ text → code ≡ 0 → valid_utf8 payload ≡ true)))
IsDelivered cap (track payload) = length payload ≤ cap
IsDelivered cap forget = Unit

abbrev IsDataOption : Option ℕ → Type 0
IsDataOption none = Unit
IsDataOption (some opcode) = IsData opcode

-- What an open session keeps: a message in parts within the cap.
abbrev pub IsKept : ℕ → Session → Type 0
IsKept cap s = IsDataOption s.msg_opcode × (s.ws_closing ≡ false → length s.msg ≤ cap)

abbrev IsGood : ℕ → Session × List Action → Type 0
IsGood cap r = IsKept cap r.0 × All (IsDelivered cap) r.1

closing_conn : (code : ℕ) (s : Session) → s.ws_closing ≡ true → close_conn code s ≡ (s, [])
unfolding close_conn
closing_conn code s e = simp (close_conn, e)

open_conn :
    (code : ℕ) (s : Session)
    → s.ws_closing ≡ false
    → close_conn code s ≡ (
      record s { ws_closing = true; write_pending = s.write_pending + length (close_frame code) },
      forget ∷ emit s.has_sink [] close code ++ (write (close_frame code) false true ∷ []),
    )
unfolding close_conn
open_conn code s e = simp (close_conn, e)

good_text :
    (s : Session) (opcode : ℕ)
    → is_bad_text s opcode ≡ false
    → opcode ≡ text
    → ◌≡◌ {A = ℕ} (if s.msg_compressed then 1 else 0) 0
    → valid_utf8 s.msg ≡ true
unfolding is_bad_text
good_text s opcode e t c = ground arith

module _ (cap : ℕ) where
  emit-IsDelivered :
      (sink : Bool) (payload : Bytes) (opcode code : ℕ) (more : List Action)
      → IsDelivered cap (message payload opcode code)
      → All (IsDelivered cap) more
      → All (IsDelivered cap) (emit sink payload opcode code ++ more)
  emit-IsDelivered true payload opcode code more d m = (d, m)
  emit-IsDelivered false payload opcode code more d m = m

  close_conn-IsGood :
      (code : ℕ) (s : Session) → IsDataOption s.msg_opcode → IsGood cap (close_conn code s)
  close_conn-IsGood code s d = elim (Bool-cases s.ws_closing) [
    | inl e ↦
        subst (IsGood cap) (sym (closing_conn code s e))
          ((d, λ o. absurd (let clash = sym e ∙ o in cc)), tt)
    | inr e ↦ subst (IsGood cap) (sym (open_conn code s e)) (
      (d, λ o. absurd cc),
      (tt, emit-IsDelivered s.has_sink [] close code _ (inl (refl, refl)) (tt, tt)),
    )
  ]

  deliver-IsGood :
      (s : Session) (opcode : ℕ)
      → IsDataOption s.msg_opcode
      → IsData opcode
      → length s.msg ≤ cap
      → IsGood cap (deliver s opcode)
  unfolding deliver
  deliver-IsGood s opcode d o l = elim (Bool-cases (is_bad_text s opcode)) [
    | inl e ↦ rw (deliver, e) (close_conn-IsGood 1007 s d)
    | inr e ↦
        let fit =
          emit-IsDelivered s.has_sink s.msg opcode (if s.msg_compressed then 1 else 0) []
            (inr (o, (l, good_text s opcode e))) tt in
        rw (deliver, e)
          ((tt, λ c. omega arith), (l, subst (All (IsDelivered cap)) (append-nil _) fit))
  ]

  grown-IsGood :
      (fin : Bool) (s : Session) (opcode : ℕ)
      → IsDataOption s.msg_opcode
      → IsData opcode
      → IsGood cap (grown cap fin s opcode)
  unfolding grown
  grown-IsGood fin s opcode d o = elim (Bool-cases (ltb cap (length s.msg))) [
    | inl e ↦ rw (grown, e) (close_conn-IsGood 1009 s d)
    | inr e ↦ elim (Bool-cases fin) [
      | inl f ↦ rw (grown, e, f) (deliver-IsGood s opcode d o (ground arith))
      | inr f ↦ rw (grown, e, f) ((d, λ c. ground arith), tt)
    ]
  ]

  on_data-IsGood :
      (h : FrameHeader) (payload : Bytes) (s : Session) (o : Option ℕ)
      → s.msg_opcode ≡ o
      → IsDataOption s.msg_opcode
      → IsGood cap (on_data cap h payload s o)
  unfolding on_data
  on_data-IsGood h payload s none e d = elim (Bool-cases (h.opcode == text || h.opcode == binary)) [
    | inl f ↦
        let known : IsData h.opcode = (ground arith) in
        rw (on_data, f) (grown-IsGood h.fin _ h.opcode known known)
    | inr f ↦ rw (on_data, f) (close_conn-IsGood 1002 s d)
  ]
  on_data-IsGood h payload s (some opcode) e d =
      elim (Bool-cases (h.opcode == text || h.opcode == binary)) [
        | inl f ↦ rw (on_data, f) (close_conn-IsGood 1002 s d)
        | inr f ↦ rw (on_data, f) (grown-IsGood h.fin _ opcode d (subst IsDataOption e d))
      ]

  write_more-IsGood :
      (limits : Limits) (bytes : Bytes) (s : Session)
      → IsKept cap s
      → IsGood cap (write_more limits bytes s)
  unfolding write_more
  write_more-IsGood limits bytes s k =
      elim (Bool-cases (
        not s.ws_closing
        && ltb 0 limits.ws_max_buffer_bytes
        && ltb limits.ws_max_buffer_bytes (s.write_pending + length bytes))) [
          | inl e ↦
              let (kept, delivered) =
                close_conn-IsGood 1009 (record s { write_pending = s.write_pending + length bytes })
                  k.0 in
              rw (write_more, e) (kept, (tt, delivered))
          | inr e ↦ rw (write_more, e) (k, (tt, tt))
        ]

pub on_frame-IsGood :
    (limits : Limits) (h : FrameHeader) (payload : Bytes) (s : Session)
    → IsKept (max_msg limits) s
    → IsGood (max_msg limits) (on_frame limits h payload s)
unfolding on_frame
on_frame-IsGood limits h payload s k = elim (Bool-cases (h.opcode == ping)) [
  | inl a ↦ rw (on_frame, a) (write_more-IsGood (max_msg limits) limits _ s k)
  | inr a ↦ elim (Bool-cases (h.opcode == pong)) [
    | inl b ↦ rw (on_frame, a, b) (k, tt)
    | inr b ↦ elim (Bool-cases (h.opcode == close)) [
      | inl c ↦
          rw (on_frame, a, b, c) (close_conn-IsGood (max_msg limits) (close_code payload) s k.0)
      | inr c ↦
          rw (on_frame, a, b, c) (on_data-IsGood (max_msg limits) h payload s s.msg_opcode refl k.0)
    ]
  ]
]

abbrev IsGoodRun : ℕ → Processed → Type 0
IsGoodRun cap p = IsKept cap p.session × All (IsDelivered cap) p.actions

process_loop-IsGoodRun :
    (limits : Limits) (fuel : ℕ) (s : Session) (buf : Bytes)
    → IsKept (max_msg limits) s
    → IsGoodRun (max_msg limits) (process_loop limits fuel s buf)
process_loop-IsGoodRun limits zero s buf k = unfold process_loop in (k, tt)
process_loop-IsGoodRun limits (suc fuel) s buf k = elim (Bool-cases (is_stopped s)) [
  | inl c ↦
      subst (IsGoodRun (max_msg limits)) (sym (loop_stopped limits (suc fuel) s buf c)) (k, tt)
  | inr c ↦ elim (Option-cases (turn limits s buf)) [
    | inl e ↦
        subst (IsGoodRun (max_msg limits)) (sym (loop_waits limits (suc fuel) s buf e)) (k, tt)
    | inr ((rest, r), e) ↦
        let good : IsGood (max_msg limits) r = elim (turn-cases limits s buf rest r e) [
          | inl (same, (code, did)) ↦
              subst (IsGood (max_msg limits)) (sym did)
                (close_conn-IsGood (max_msg limits) code s k.0)
          | inr (fewer, (h, (payload, did))) ↦
              subst (IsGood (max_msg limits)) (sym did) (on_frame-IsGood limits h payload s k)
        ] in
        let more = process_loop-IsGoodRun limits fuel r.0 rest good.0 in
        subst (IsGoodRun (max_msg limits)) (sym (loop_goes limits fuel s r.0 buf rest r.1 c e))
          (more.0, All-append (IsDelivered (max_msg limits)) r.1 _ good.1 more.1)
  ]
]

-- From a session whose message in parts is within the cap, whatever bytes are in the buffer: every
-- message handed to the runner is text or binary, or the notice of a close without a payload; it is
-- within the cap, as is every payload given to the table of pending requests; text that is not marked
-- compressed passes the engine's UTF-8 check `valid_utf8`; and the message in parts that the session
-- keeps is within the cap again unless the session is being closed.
pub process-IsDelivered :
    (limits : Limits) (s : Session) (buf : Bytes)
    → IsKept (max_msg limits) s
    → IsKept (max_msg limits) (process limits s buf).session
      × All (IsDelivered (max_msg limits)) (process limits s buf).actions
unfolding process
process-IsDelivered limits s buf k = process_loop-IsGoodRun limits (suc (length buf)) s buf k
