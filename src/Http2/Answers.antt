-- ===== src/Http2/Answers.antt =====
-- The request ids of src/engine/Http2Session.cpp: which stream an answer of the handler reaches.
pub mod Callbacks
pub mod Requests
pub mod Frames
pub mod Sweep
pub mod Run
use nitro_server.Base.{
  ℕ, ◌≡◌, ◌⊎◌, inl, inr, refl, sym, ap, ◌∙◌, subst, Bool, true, false, Option, none, some, List, [],
  ◌∷◌, if◌then◌else◌, ◌==◌, ==_iff, ==_refl, arith, Bool-cases, Option-cases,
}
use mathlib.Core.Option.{some-injective}
use nitro_server.Base.Assoc.{
  nat_eq, lookup, insert, erase, lookup-insert, lookup-erase, IsUnique, insert-IsUnique,
  erase-IsUnique,
}
use nitro_server.Http2.State.{Stream, Session}
use nitro_server.Http2.Order.{Phase, opening, arriving, ended, Phases, set_phase}

-- A stream that was handed over under an id, and that the engine has not answered itself.
abbrev pub Serves : ℕ → Stream → Type 0
Serves request_id st = (st.request_id ≡ request_id) × (st.emitted ≡ true) × (st.rejected ≡ false)

-- Every id that is mapped is that of an open stream, and only half-closed streams are handed over.
pub record IsServed (ph : Phases) (streams : List (ℕ × Stream)) (ids : List (ℕ × ℕ)) : Type 0 where
  pub unique : IsUnique streams
  pub ids_unique : IsUnique ids
  pub served :
      (request_id id : ℕ)
      → lookup request_id ids ≡ some id
      → (st : Stream) × (lookup id streams ≡ some st) × Serves request_id st
  pub waiting :
      (id : ℕ) (st : Stream) → lookup id streams ≡ some st → st.emitted ≡ true → ph id ≡ some ended

abbrev pub IsServedBy : Phases → Session → Type 0
IsServedBy ph s = IsServed ph s.streams s.req_to_stream

pub IsServed-put :
    (ph : Phases) (id : ℕ) (q : Option Phase) (streams : List (ℕ × Stream)) (ids : List (ℕ × ℕ))
    (st next : Stream)
    → IsServed ph streams ids
    → lookup id streams ≡ some st
    → ((request_id : ℕ) → Serves request_id st → Serves request_id next)
    → (next.emitted ≡ true → q ≡ some ended)
    → IsServed (set_phase id q ph) (insert id next streams) ids
unfolding set_phase
IsServed-put ph id q streams ids st next h found serves ends = record {
  unique = insert-IsUnique id next streams h.unique;
  ids_unique = h.ids_unique;
  served = λ r j at.
      let (old, there, s) = h.served r j at in
      elim (Bool-cases (id == j)) [
        | inl same ↦
            let is : id ≡ j = (==_iff id j).0 same in
            let both : st ≡ old =
              some-injective st old (sym found ∙ ap (λ k. lookup k streams) is ∙ there) in
            (next, rw (lookup-insert id j next streams, same) refl, serves r (rw both s))
        | inr other ↦ (old, rw (lookup-insert id j next streams, other) there, s)
      ];
  waiting = λ j t at sent. elim (Bool-cases (id == j)) [
    | inl same ↦
        let is : next ≡ t =
          some-injective next t (rw (lookup-insert id j next streams, same) at at) in
        rw same (ends (rw is sent))
    | inr other ↦ rw other (h.waiting j t (rw (lookup-insert id j next streams, other) at at) sent)
  ];
}

pub IsServed-same :
    (ph ph2 : Phases) (streams : List (ℕ × Stream)) (ids : List (ℕ × ℕ))
    → ((j : ℕ) → ph j ≡ ph2 j)
    → IsServed ph streams ids
    → IsServed ph2 streams ids
IsServed-same ph ph2 streams ids same h = record {
  unique = h.unique;
  ids_unique = h.ids_unique;
  served = h.served;
  waiting = λ j t at sent. sym (same j) ∙ h.waiting j t at sent;
}

pub set_phase_same : (ph : Phases) (id : ℕ) (j : ℕ) → set_phase id (ph id) ph j ≡ ph j
unfolding set_phase
set_phase_same ph id j = elim (Bool-cases (id == j)) [
  | inl same ↦ rw same (ap ph ((==_iff id j).0 same))
  | inr other ↦ rw other refl
]

-- A stream that is written, in the phase that it was in.
pub IsServed-update :
    (ph : Phases) (id : ℕ) (streams : List (ℕ × Stream)) (ids : List (ℕ × ℕ)) (st next : Stream)
    → IsServed ph streams ids
    → lookup id streams ≡ some st
    → ((request_id : ℕ) → Serves request_id st → Serves request_id next)
    → next.emitted ≡ st.emitted
    → IsServed ph (insert id next streams) ids
IsServed-update ph id streams ids st next h found serves same =
    IsServed-same (set_phase id (ph id) ph) ph (insert id next streams) ids (set_phase_same ph id) (
      IsServed-put ph id (ph id) streams ids st next h found serves
        (λ e. h.waiting id st found (sym same ∙ e)))

pub IsServed-begin :
    (ph : Phases) (id : ℕ) (q : Option Phase) (streams : List (ℕ × Stream)) (ids : List (ℕ × ℕ))
    (next : Stream)
    → IsServed ph streams ids
    → lookup id streams ≡ none
    → next.emitted ≡ false
    → IsServed (set_phase id q ph) (insert id next streams) ids
unfolding set_phase
IsServed-begin ph id q streams ids next h fresh unsent = record {
  unique = insert-IsUnique id next streams h.unique;
  ids_unique = h.ids_unique;
  served = λ r j at.
      let (old, there, s) = h.served r j at in
      elim (Bool-cases (id == j)) [
        | inl same ↦
            let clash = sym fresh ∙ ap (λ k. lookup k streams) ((==_iff id j).0 same) ∙ there in cc
        | inr other ↦ (old, rw (lookup-insert id j next streams, other) there, s)
      ];
  waiting = λ j t at sent. elim (Bool-cases (id == j)) [
    | inl same ↦
        let is : next ≡ t =
          some-injective next t (rw (lookup-insert id j next streams, same) at at) in
        let clash : next.emitted ≡ true = rw is sent in cc
    | inr other ↦ rw other (h.waiting j t (rw (lookup-insert id j next streams, other) at at) sent)
  ];
}

pub IsServed-close :
    (ph : Phases) (id : ℕ) (streams : List (ℕ × Stream)) (ids : List (ℕ × ℕ)) (st : Stream)
    → IsServed ph streams ids
    → lookup id streams ≡ some st
    → IsServed (set_phase id none ph) (erase id streams) (erase st.request_id ids)
unfolding set_phase
IsServed-close ph id streams ids st h found = record {
  unique = erase-IsUnique id streams h.unique;
  ids_unique = erase-IsUnique st.request_id ids h.ids_unique;
  served = λ r j at. elim (Bool-cases (st.request_id == r)) [
    | inl gone ↦ let clash = rw (lookup-erase st.request_id r ids h.ids_unique, gone) at at in cc
    | inr kept ↦
        let (old, there, s) =
          h.served r j (rw (lookup-erase st.request_id r ids h.ids_unique, kept) at at) in
        elim (Bool-cases (id == j)) [
          | inl same ↦
              let is : id ≡ j = (==_iff id j).0 same in
              let both : st ≡ old =
                some-injective st old (sym found ∙ ap (λ k. lookup k streams) is ∙ there) in
              let own : st.request_id ≡ r = ap (λ (t : Stream). t.request_id) both ∙ s.0 in
              let clash = sym kept ∙ (==_iff st.request_id r).1 own in cc
          | inr other ↦ (old, rw (lookup-erase id j streams h.unique, other) there, s)
        ]
  ];
  waiting = λ j t at sent. elim (Bool-cases (id == j)) [
    | inl same ↦ let clash = rw (lookup-erase id j streams h.unique, same) at at in cc
    | inr other ↦
        rw other (h.waiting j t (rw (lookup-erase id j streams h.unique, other) at at) sent)
  ];
}

-- A stream that is handed over under an id.
pub IsServed-emit :
    (ph : Phases) (id request_id : ℕ) (streams : List (ℕ × Stream)) (ids : List (ℕ × ℕ))
    (st next : Stream)
    → IsServed ph streams ids
    → lookup id streams ≡ some st
    → st.emitted ≡ false
    → Serves request_id next
    → IsServed (set_phase id (some ended) ph) (insert id next streams) (insert request_id id ids)
unfolding set_phase
IsServed-emit ph id request_id streams ids st next h found unsent serves =
    let put =
      IsServed-put ph id (some ended) streams ids st next h found
        (λ r s. let clash : true ≡ false = sym s.1 ∙ unsent in cc) (λ e. refl) in
    record {
      unique = put.unique;
      ids_unique = insert-IsUnique request_id id ids h.ids_unique;
      served = λ r j at. elim (Bool-cases (request_id == r)) [
        | inl same ↦
            let is : id ≡ j =
              some-injective id j (rw (lookup-insert request_id r id ids, same) at at) in
            let own : request_id ≡ r = (==_iff request_id r).0 same in
            (next, rw (← is, lookup-insert id id next streams, ==_refl id) refl, rw (← own) serves)
        | inr other ↦ put.served r j (rw (lookup-insert request_id r id ids, other) at at)
      ];
      waiting = put.waiting;
    }

-- A stream that may still send is not handed over yet.
pub IsServed-unsent :
    (ph : Phases) (id : ℕ) (streams : List (ℕ × Stream)) (ids : List (ℕ × ℕ)) (st : Stream)
    → IsServed ph streams ids
    → lookup id streams ≡ some st
    → (ph id ≡ some ended → ⊥)
    → st.emitted ≡ false
IsServed-unsent ph id streams ids st h found live = elim (Bool-cases st.emitted) [
  | inl sent ↦ absurd (live (h.waiting id st found sent))
  | inr unsent ↦ unsent
]

-- A stream that is not handed over, written as one that is not.
pub IsServed-unsent_put :
    (ph : Phases) (id : ℕ) (q : Option Phase) (streams : List (ℕ × Stream)) (ids : List (ℕ × ℕ))
    (st next : Stream)
    → IsServed ph streams ids
    → lookup id streams ≡ some st
    → st.emitted ≡ false
    → next.emitted ≡ st.emitted
    → IsServed (set_phase id q ph) (insert id next streams) ids
IsServed-unsent_put ph id q streams ids st next h found unsent same =
    IsServed-put ph id q streams ids st next h found
      (λ r s. let clash : true ≡ false = sym s.1 ∙ unsent in cc)
      (λ e. let clash : true ≡ false = sym e ∙ (same ∙ unsent) in cc)

-- Another phase for a stream that is gone, or for one that has sent all.
pub IsServed-enter :
    (ph : Phases) (id : ℕ) (q : Option Phase) (streams : List (ℕ × Stream)) (ids : List (ℕ × ℕ))
    → IsServed ph streams ids
    → (lookup id streams ≡ none) ⊎ (q ≡ some ended)
    → IsServed (set_phase id q ph) streams ids
unfolding set_phase
IsServed-enter ph id q streams ids h why = record {
  unique = h.unique;
  ids_unique = h.ids_unique;
  served = h.served;
  waiting = λ j t at sent. elim (Bool-cases (id == j)) [
    | inr other ↦ rw other (h.waiting j t at sent)
    | inl same ↦ rw same (elim why [
      | inr ends ↦ ends
      | inl gone ↦
          let clash = sym gone ∙ ap (λ k. lookup k streams) ((==_iff id j).0 same) ∙ at in cc
    ])
  ];
}
