-- ===== src/Http2/Budget/Streams.antt =====
-- What the callbacks of src/engine/Http2Session.cpp do to the budget, one at a time.
use nitro_server.Base.{
  ℕ, ◌≡◌, inl, inr, refl, ◌∙◌, subst, ◌||◌, not, none, some, List, [], arith, Bool-cases,
  Option-cases,
}
use nitro_server.Base.Text.{Bytes}
use nitro_server.Base.Assoc.{nat_eq, lookup}
use nitro_server.Ws.Utf8.{valid_utf8}
use nitro_server.Http.Head.Field.{cut, is_ascii}
use nitro_server.Http2.State.{Stream, fresh_stream, Session, rejected_stream, reject_stream}
use nitro_server.Http2.Callbacks.{
  FrameKind, request_headers, is_request_head, on_begin_headers, on_header, store_header,
}
use nitro_server.Http2.Order.{opening, ended, Phases, set_phase}
use nitro_server.Http2.Budget.{
  Kept, IsKeptBy, IsKept-phase, rejected_stream-Kept, IsKept-put, IsKept-update, IsKept-begin,
}

-- A stream that is answered by the engine.
pub reject_stream-IsKept :
    (ph : Phases) (id : ℕ) (st next : Stream) (status : ℕ) (extra : List (Bytes × Bytes))
    (s : Session)
    → IsKeptBy ph s
    → lookup id s.streams ≡ some st
    → next.reserved ≡ st.reserved
    → IsKeptBy ph (reject_stream id next status extra s).0
unfolding reject_stream
reject_stream-IsKept ph id st next status extra s h found same =
    let (q, is, kept) = IsKept-phase ph s.body_budget s.reserved id s.streams st h found in
    IsKept-update ph s.body_budget s.reserved id s.streams q st (rejected_stream next) h found is
      same (rejected_stream-Kept s.body_budget q st next kept same)

-- The same, as the stream's phase ends.
pub reject_stream-ended :
    (ph : Phases) (id : ℕ) (st next : Stream) (status : ℕ) (extra : List (Bytes × Bytes))
    (s : Session)
    → IsKeptBy ph s
    → lookup id s.streams ≡ some st
    → next.reserved ≡ st.reserved
    → IsKeptBy (set_phase id (some ended) ph) (reject_stream id next status extra s).0
unfolding reject_stream
reject_stream-ended ph id st next status extra s h found same =
    IsKept-put ph s.body_budget s.reserved id s.streams ended st (rejected_stream next) h found same
      refl

pub on_begin_headers-IsKept :
    (ph : Phases) (now id : ℕ) (s : Session)
    → IsKeptBy ph s
    → ph id ≡ none
    → IsKeptBy (set_phase id (some opening) ph) (on_begin_headers request_headers now id s).0
unfolding on_begin_headers
on_begin_headers-IsKept ph now id s h idle =
    IsKept-begin ph s.body_budget s.reserved id s.streams opening
      (fresh_stream s.max_body_bytes now) h idle refl (refl, refl)

store_header_lem :
    (n v : Bytes) (st : Stream)
    → ((store_header n v st).reserved ≡ st.reserved) × ((store_header n v st).body ≡ st.body)
unfolding store_header
store_header_lem n v st = elim (Option-cases (cut b'?' v)) [
  | inl e ↦ (ground (arith, e), ground (arith, e))
  | inr (p, e) ↦ (ground (arith, e), ground (arith, e))
]

pub on_header-IsKept :
    (ph : Phases) (kind : FrameKind) (id : ℕ) (name value : Bytes) (s : Session)
    → IsKeptBy ph s
    → ph id ≡ some opening
    → IsKeptBy ph (on_header kind id name value s).0
unfolding on_header
on_header-IsKept ph kind id name value s h is = elim (Option-cases (lookup id s.streams)) [
  | inl e ↦ rw (e, on_header) h
  | inr (st, e) ↦
      let (reserved, body) = store_header_lem name value st in
      let (q, was, kept) = IsKept-phase ph s.body_budget s.reserved id s.streams st h e in
      let same : q ≡ opening = cc in
      let (zero_reserved, no_body) = subst (λ p. Kept s.body_budget p st) same kept in
      elim (Bool-cases (not (is_request_head kind) || st.rejected)) [
        | inl b ↦ rw (e, on_header, b) h
        | inr b ↦ elim (Bool-cases (not (valid_utf8 value) || not (is_ascii name))) [
          | inl c ↦ rw (e, on_header, b, c) (reject_stream-IsKept ph id st st 400 [] s h e refl)
          | inr c ↦
              rw (e, on_header, b, c)
                (IsKept-update ph s.body_budget s.reserved id s.streams opening st
                  (store_header name value st) h e is reserved
                  (reserved ∙ zero_reserved, body ∙ no_body))
        ]
      ]
]
