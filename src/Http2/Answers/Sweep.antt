-- ===== src/Http2/Answers/Sweep.antt =====
-- `sweep` of src/engine/Http2Session.cpp retires the ids of the streams that it answers.
use nitro_server.Base.{
  ℕ, ◌≡◌, inl, inr, refl, sym, ap, ◌∙◌, subst, ◌&&◌, not, some, List, [], ◌∷◌, ◌++◌, if◌then◌else◌,
  ◌==◌, ==_iff, arith, Bool-cases, Option-cases, InList, InList-append_left, InList-append_right,
}
use mathlib.Core.Option.{some-injective}
use nitro_server.Base.Assoc.{nat_eq, lookup, erase, lookup-erase, IsUnique, erase-IsUnique}
use nitro_server.Http2.State.{Stream, Session}
use nitro_server.Http2.Session.{sweep_streams, swept, erase_all, is_expired}
use nitro_server.Http2.Order.{Phases}
use nitro_server.Http2.Budget.Sweep.{
  is_hit, swept_stream, sweep_streams_lem, swept_streams-none, swept_streams-some,
  swept_streams-IsUnique,
}
use nitro_server.Http2.Answers.{Serves, IsServedBy}

erase_all-IsUnique : (xs : List ℕ) (ids : List (ℕ × ℕ)) → IsUnique ids → IsUnique (erase_all xs ids)
unfolding erase_all
erase_all-IsUnique [] ids h = h
erase_all-IsUnique (x ∷ xs) ids h = erase_all-IsUnique xs (erase x ids) (erase-IsUnique x ids h)

-- What is left after the erasures was there before, and is none of them.
erase_all-lookup :
    (xs : List ℕ) (ids : List (ℕ × ℕ)) (r id : ℕ)
    → IsUnique ids
    → lookup r (erase_all xs ids) ≡ some id
    → (lookup r ids ≡ some id) × (InList r xs → ⊥)
unfolding erase_all
erase_all-lookup [] ids r id h at = (at, λ e. e)
erase_all-lookup (x ∷ xs) ids r id h at =
    let (before, others) = erase_all-lookup xs (erase x ids) r id (erase-IsUnique x ids h) at in
    elim (Bool-cases (x == r)) [
      | inl same ↦ let clash = rw (lookup-erase x r ids h, same) at before in cc
      | inr differs ↦ (
        rw (lookup-erase x r ids h, differs) at before,
        λ e. elim e [
          | inl is ↦ let clash = sym differs ∙ (==_iff x r).1 is in cc
          | inr more ↦ others more
        ],
      )
    ]

module _ (now stall : ℕ) where
  -- The ids that one stream adds to `expired`.
  unfoldable expired_of : Stream → List ℕ
  expired_of st =
      if not st.rejected && (st.emitted && is_expired now st) then st.request_id ∷ [] else []

  sweep_streams-expired :
      (id : ℕ) (st : Stream) (m : List (ℕ × Stream))
      → (sweep_streams now stall ((id, st) ∷ m)).expired
        ≡ expired_of st ++ (sweep_streams now stall m).expired
  unfolding sweep_streams expired_of
  sweep_streams-expired id st m = ground arith

  sweep_streams-InList :
      (j : ℕ) (st : Stream) (m : List (ℕ × Stream))
      → lookup j m ≡ some st
      → InList st.request_id (expired_of st)
      → InList st.request_id (sweep_streams now stall m).expired
  unfolding lookup
  sweep_streams-InList j st [] found h = cc
  sweep_streams-InList j st ((id, other) ∷ m) found h =
      rw (sweep_streams-expired id other m) (elim (Bool-cases (id == j)) [
        | inl same ↦
            let is : other ≡ st = some-injective other st (rw same at found) in
            InList-append_left st.request_id (expired_of other) _ (rw is h)
        | inr differs ↦
            InList-append_right st.request_id (expired_of other) _
              (sweep_streams-InList j st m (rw differs at found) h)
      ])

  -- A stream that is handed over and whose id is not in `expired` is left as it is.
  swept_stream_kept :
      (r : ℕ) (st : Stream)
      → Serves r st
      → (InList st.request_id (expired_of st) → ⊥)
      → swept_stream now stall st ≡ st
  unfolding swept_stream is_hit expired_of is_expired
  swept_stream_kept r st (own, sent, alive) h = elim (Bool-cases (is_expired now st)) [
    | inl late ↦
        let hit : InList st.request_id (expired_of st) =
          rw (expired_of, alive, sent, late) (inl refl) in
        absurd (h hit)
    | inr early ↦ simp (swept_stream, is_hit, alive, sent, early)
  ]

  swept_stream-emitted : (st : Stream) → (swept_stream now stall st).emitted ≡ st.emitted
  unfolding swept_stream
  swept_stream-emitted st = ground arith

  pub swept-IsServed :
      (ph : Phases) (s : Session)
      → IsServedBy ph s
      → IsServedBy ph (swept (sweep_streams now stall s.streams) s)
  unfolding swept
  swept-IsServed ph s h =
      let w = sweep_streams now stall s.streams in
      rw (sweep_streams_lem now stall s.streams) (record {
        unique = swept_streams-IsUnique now stall s.streams h.unique;
        ids_unique = erase_all-IsUnique w.expired s.req_to_stream h.ids_unique;
        served = λ r j at.
            let (before, others) = erase_all-lookup w.expired s.req_to_stream r j h.ids_unique at in
            let (st, there, serves) = h.served r j before in
            let kept = swept_stream_kept r st serves (λ late. others (
              subst (λ x. InList x w.expired) serves.0
                (sweep_streams-InList j st s.streams there late))) in
            (
              st,
              swept_streams-some now stall j st s.streams there ∙ ap (λ (t : Stream). some t) kept,
              serves,
            );
        waiting = λ j t at sent. elim (Option-cases (lookup j s.streams)) [
          | inl e ↦ let clash = sym (swept_streams-none now stall j s.streams e) ∙ at in cc
          | inr (st, e) ↦
              let is =
                some-injective (swept_stream now stall st) t
                  (sym (swept_streams-some now stall j st s.streams e) ∙ at) in
              h.waiting j st e
                (sym (swept_stream-emitted st) ∙ ap (λ (x : Stream). x.emitted) is ∙ sent)
        ];
      })
