-- ===== src/Http2/Budget/Data.antt =====
-- The data of a request in src/engine/Http2Session.cpp stays within its reservation.
use nitro_server.Base.{
  ℕ, ◌+◌, ◌≤◌, ◌≡◌, inl, inr, refl, sym, subst, Bool, true, false, ◌&&◌, Option, none, some, [],
  ◌++◌, ltb, leb, length, length-append, arith, Bool-cases, Option-cases,
}
use nitro_server.Base.Text.{Bytes}
use nitro_server.Base.Assoc.{nat_eq, lookup}
use nitro_server.Http2.State.{Stream, Session, put_stream, reject_stream}
use nitro_server.Http2.Callbacks.{on_data_chunk}
use nitro_server.Http2.Order.{arriving, Phases}
use nitro_server.Http2.Budget.{Kept, Room, Declared, IsKeptBy, IsKept-phase, IsKept-update}
use nitro_server.Http2.Session.{data_chunk}
use nitro_server.Http2.Order.{within}
use nitro_server.Http2.Budget.Streams.{reject_stream-IsKept}

-- One more part of the body fits the reservation.
append-Room :
    (budget : ℕ) (bytes : Bytes) (declared : Option ℕ) (st : Stream)
    → st.content_length ≡ declared
    → length st.body ≤ st.reserved
    → Declared declared st.max_body st.reserved
    → (ltb 0 st.max_body && ltb st.max_body (length st.body + length bytes)) ≡ false
    → elim declared as (λ o. Bool) [ none ↦ true | some n ↦ leb (length st.body + length bytes) n ]
      ≡ true
    → length (st.body ++ bytes) ≤ st.reserved
append-Room budget bytes none st e fits (capped, same) below tt_ =
    rw (length-append st.body bytes) (ground (arith, capped, same, below))
append-Room budget bytes (some n) st e fits same below within_n =
    rw (length-append st.body bytes) (ground (arith, same, within_n))

arriving-Kept :
    (budget : ℕ) (st : Stream) → Kept budget arriving st → st.rejected ≡ false → Room budget st
arriving-Kept budget st (inl (refused, e)) h = cc
arriving-Kept budget st (inr (e, room)) h = room

pub on_data_chunk-IsKept :
    (ph : Phases) (now id : ℕ) (bytes : Bytes) (s : Session)
    → IsKeptBy ph s
    → ph id ≡ some arriving
    → within (data_chunk now id bytes) s ≡ true
    → IsKeptBy ph (on_data_chunk now id bytes s).0
unfolding on_data_chunk within
on_data_chunk-IsKept ph now id bytes s h is bound = elim (Option-cases (lookup id s.streams)) [
  | inl e ↦ rw (e, on_data_chunk) h
  | inr (st, e) ↦
      let (q, was, kept) = IsKept-phase ph s.body_budget s.reserved id s.streams st h e in
      let same : q ≡ arriving = cc in
      let kept_here = subst (λ p. Kept s.body_budget p st) same kept in
      elim (Bool-cases st.rejected) [
        | inl b ↦ rw (e, on_data_chunk, b) h
        | inr b ↦
            let touched : Stream = record st { last_progress = now } in
            let longer : Stream = record touched { body = st.body ++ bytes } in
            let over = ltb 0 st.max_body && ltb st.max_body (length st.body + length bytes) in
            elim (Bool-cases over) [
              | inl c ↦
                  let step : on_data_chunk now id bytes s ≡ reject_stream id touched 413 [] s =
                    simp (on_data_chunk, e, b, c) in
                  subst (λ r. IsKeptBy ph r.0) (sym step)
                    (reject_stream-IsKept ph id st touched 413 [] s h e refl)
              | inr c ↦
                  let step : on_data_chunk now id bytes s ≡ (put_stream id longer s, []) =
                    simp (on_data_chunk, e, b, c) in
                  subst (λ r. IsKeptBy ph r.0) (sym step)
                    (IsKept-update ph s.body_budget s.reserved id s.streams arriving st longer h e
                      is refl
                      (inr (
                        b,
                        elim (arriving-Kept s.body_budget st kept_here b) [
                          | inl unlimited ↦ inl unlimited
                          | inr (fits, declared) ↦ inr (
                            append-Room s.body_budget bytes st.content_length st refl fits declared
                                c (rw (within, e) at bound),
                            declared,
                          )
                        ],
                      )))
            ]
      ]
]
