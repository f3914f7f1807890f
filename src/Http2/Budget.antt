-- ===== src/Http2/Budget.antt =====
-- The body budget of src/engine/Http2Session.cpp: what the streams of a session reserve and hold.
pub mod Streams
pub mod Data
pub mod Requests
pub mod Calls
pub mod Sweep
pub mod Run
pub mod Constant
pub mod Held
use nitro_server.Base.{
  ℕ, ◌+◌, ◌-◌, ◌≤◌, ◌<◌, ◌≡◌, ◌⊎◌, inl, inr, refl, sym, ap, ◌∙◌, subst, Bool, true, false, ◌&&◌,
  ◌||◌, not, Option, none, some, List, [], ◌∷◌, if◌then◌else◌, ltb, leb, ◌==◌, ==_iff, ==_refl,
  length, arith, Bool-cases, Option-cases,
}
use nitro_server.Base.Assoc.{
  nat_eq, lookup, insert, erase, lookup-insert, lookup-erase, IsUnique, insert-IsUnique,
  erase-IsUnique,
}
use nitro_server.Base.Total.{total, total-insert, total-insert_new, total-erase, total-le}
use nitro_server.Http2.State.{Stream, Session, rejected_stream}
use nitro_server.Http2.Order.{Phase, opening, arriving, ended, Phases, set_phase}

abbrev pub reserved_of : Stream → ℕ
reserved_of st = st.reserved

abbrev pub held_of : Stream → ℕ
held_of st = length st.body

-- What the reservation of a stream with data to come stands for.
abbrev pub Declared : Option ℕ → ℕ → ℕ → Type 0
Declared none cap reserved = (0 < cap) × (reserved ≡ cap)
Declared (some n) cap reserved = reserved ≡ n

abbrev pub Room : ℕ → Stream → Type 0
Room budget st =
    (budget ≡ 0)
    ⊎ ((length st.body ≤ st.reserved) × Declared st.content_length st.max_body st.reserved)

abbrev pub Kept : ℕ → Phase → Stream → Type 0
Kept budget opening st = (st.reserved ≡ 0) × (st.body ≡ [])
Kept budget arriving st =
    ((st.rejected ≡ true) × (st.body ≡ [])) ⊎ ((st.rejected ≡ false) × Room budget st)
Kept budget ended st = st.body ≡ []

abbrev pub Fits : ℕ → Option Phase → Option Stream → Type 0
Fits budget none none = Unit
Fits budget none (some st) = ⊥
Fits budget (some p) none = ⊥
Fits budget (some p) (some st) = Kept budget p st

-- The streams are those with a phase, and `reserved_` is what they reserve, within the budget.
pub record IsKept (ph : Phases) (budget reserved : ℕ) (streams : List (ℕ × Stream)) : Type 0 where
  pub unique : IsUnique streams
  pub fits : (id : ℕ) → Fits budget (ph id) (lookup id streams)
  pub counted : total reserved_of streams ≡ reserved
  pub bounded : reserved ≤ budget

abbrev pub IsKeptBy : Phases → Session → Type 0
IsKeptBy ph s = IsKept ph s.body_budget s.reserved s.streams

pub Fits-some :
    (budget : ℕ) (p : Option Phase) (st : Stream)
    → Fits budget p (some st)
    → (q : Phase) × (p ≡ some q) × Kept budget q st
Fits-some budget none st h = absurd h
Fits-some budget (some q) st h = (q, refl, h)

pub Fits-none : (budget : ℕ) (p : Option Phase) → Fits budget p none → p ≡ none
Fits-none budget none h = refl
Fits-none budget (some q) h = absurd h

-- The phase of a stream that is open.
pub IsKept-phase :
    (ph : Phases) (budget reserved id : ℕ) (streams : List (ℕ × Stream)) (st : Stream)
    → IsKept ph budget reserved streams
    → lookup id streams ≡ some st
    → (q : Phase) × (ph id ≡ some q) × Kept budget q st
IsKept-phase ph budget reserved id streams st h found =
    Fits-some budget (ph id) st (rw found at (h.fits id))

-- The stream of a phase.
pub IsKept-stream :
    (ph : Phases) (budget reserved id : ℕ) (streams : List (ℕ × Stream)) (q : Phase)
    → IsKept ph budget reserved streams
    → ph id ≡ some q
    → (st : Stream) × (lookup id streams ≡ some st)
IsKept-stream ph budget reserved id streams q h is = elim (Option-cases (lookup id streams)) [
  | inr found ↦ found
  | inl e ↦ let idle = Fits-none budget (ph id) (rw e at (h.fits id)) in cc
]

-- A refusal drops the body, which fits any phase.
pub rejected_stream-Kept :
    (budget : ℕ) (q : Phase) (st next : Stream)
    → Kept budget q st
    → next.reserved ≡ st.reserved
    → Kept budget q (rejected_stream next)
rejected_stream-Kept budget opening st next h same = (same ∙ h.0, refl)
rejected_stream-Kept budget arriving st next h same = inl (refl, refl)
rejected_stream-Kept budget ended st next h same = refl

-- Writing a stream that is open, with what it reserves now.
pub IsKept-reserve :
    (ph : Phases) (budget reserved id more : ℕ) (streams : List (ℕ × Stream)) (q : Phase)
    (st next : Stream)
    → IsKept ph budget reserved streams
    → lookup id streams ≡ some st
    → next.reserved ≡ st.reserved + more
    → reserved + more ≤ budget
    → Kept budget q next
    → IsKept (set_phase id (some q) ph) budget (reserved + more) (insert id next streams)
unfolding set_phase
IsKept-reserve ph budget reserved id more streams q st next h found adds below kept = record {
  unique = insert-IsUnique id next streams h.unique;
  fits = λ j. elim (Bool-cases (id == j)) [
    | inl same ↦ rw (lookup-insert id j next streams, same) kept
    | inr other ↦ rw (lookup-insert id j next streams, other) (h.fits j)
  ];
  counted = omega (arith, total-insert reserved_of id next st streams found, h.counted, adds);
  bounded = below;
}

pub IsKept-put :
    (ph : Phases) (budget reserved id : ℕ) (streams : List (ℕ × Stream)) (q : Phase)
    (st next : Stream)
    → IsKept ph budget reserved streams
    → lookup id streams ≡ some st
    → next.reserved ≡ st.reserved
    → Kept budget q next
    → IsKept (set_phase id (some q) ph) budget reserved (insert id next streams)
IsKept-put ph budget reserved id streams q st next h found same kept =
    let zero_more : reserved + 0 ≡ reserved = omega arith in
    subst (λ r. IsKept (set_phase id (some q) ph) budget r (insert id next streams)) zero_more
      (IsKept-reserve ph budget reserved id 0 streams q st next h found (omega (arith, same))
        (omega (arith, h.bounded)) kept)

-- Phases that agree at every stream.
pub IsKept-same :
    (ph ph2 : Phases) (budget reserved : ℕ) (streams : List (ℕ × Stream))
    → ((j : ℕ) → ph j ≡ ph2 j)
    → IsKept ph budget reserved streams
    → IsKept ph2 budget reserved streams
IsKept-same ph ph2 budget reserved streams same h = record {
  unique = h.unique;
  fits = λ j. rw (← same j) (h.fits j);
  counted = h.counted;
  bounded = h.bounded;
}

set_phase_same :
    (ph : Phases) (id : ℕ) (q : Option Phase) → ph id ≡ q → (j : ℕ) → set_phase id q ph j ≡ ph j
unfolding set_phase
set_phase_same ph id q h j = elim (Bool-cases (id == j)) [
  | inl same ↦ let is : id ≡ j = (==_iff id j).0 same in rw (same, ← is, h) refl
  | inr other ↦ rw other refl
]

-- The same where the phase does not change.
pub IsKept-update :
    (ph : Phases) (budget reserved id : ℕ) (streams : List (ℕ × Stream)) (q : Phase)
    (st next : Stream)
    → IsKept ph budget reserved streams
    → lookup id streams ≡ some st
    → ph id ≡ some q
    → next.reserved ≡ st.reserved
    → Kept budget q next
    → IsKept ph budget reserved (insert id next streams)
IsKept-update ph budget reserved id streams q st next h found is same kept =
    IsKept-same (set_phase id (some q) ph) ph budget reserved (insert id next streams)
      (set_phase_same ph id (some q) is)
      (IsKept-put ph budget reserved id streams q st next h found same kept)

pub IsKept-begin :
    (ph : Phases) (budget reserved id : ℕ) (streams : List (ℕ × Stream)) (q : Phase) (next : Stream)
    → IsKept ph budget reserved streams
    → ph id ≡ none
    → next.reserved ≡ 0
    → Kept budget q next
    → IsKept (set_phase id (some q) ph) budget reserved (insert id next streams)
unfolding set_phase
IsKept-begin ph budget reserved id streams q next h idle none_reserved kept =
    let fresh : lookup id streams ≡ none = (elim (Option-cases (lookup id streams)) [
      | inl e ↦ e
      | inr (st, e) ↦ let clash = rw (idle, e) at (h.fits id) in absurd clash
    ]) in
    record {
      unique = insert-IsUnique id next streams h.unique;
      fits = λ j. elim (Bool-cases (id == j)) [
        | inl same ↦ rw (lookup-insert id j next streams, same) kept
        | inr other ↦ rw (lookup-insert id j next streams, other) (h.fits j)
      ];
      counted =
          omega
            (arith, total-insert_new reserved_of id next streams fresh, h.counted, none_reserved);
      bounded = h.bounded;
    }

pub IsKept-close :
    (ph : Phases) (budget reserved id : ℕ) (streams : List (ℕ × Stream)) (st : Stream)
    → IsKept ph budget reserved streams
    → lookup id streams ≡ some st
    → IsKept (set_phase id none ph) budget (reserved - st.reserved) (erase id streams)
unfolding set_phase
IsKept-close ph budget reserved id streams st h found = record {
  unique = erase-IsUnique id streams h.unique;
  fits = λ j. elim (Bool-cases (id == j)) [
    | inl same ↦ rw (lookup-erase id j streams h.unique, same) tt
    | inr other ↦ rw (lookup-erase id j streams h.unique, other) (h.fits j)
  ];
  counted = omega (arith, total-erase reserved_of id st streams found, h.counted);
  bounded = omega (arith, h.bounded);
}

-- A stream that is as it was, in another phase that it fits.
pub IsKept-enter :
    (ph : Phases) (budget reserved id : ℕ) (streams : List (ℕ × Stream)) (q : Phase) (st : Stream)
    → IsKept ph budget reserved streams
    → lookup id streams ≡ some st
    → Kept budget q st
    → IsKept (set_phase id (some q) ph) budget reserved streams
unfolding set_phase
IsKept-enter ph budget reserved id streams q st h found kept = record {
  unique = h.unique;
  fits = λ j. elim (Bool-cases (id == j)) [
    | inl same ↦
        let is : id ≡ j = (==_iff id j).0 same in
        rw same
          (subst (λ o. Fits budget (some q) o) (sym found ∙ ap (λ k. lookup k streams) is) kept)
    | inr other ↦ rw other (h.fits j)
  ];
  counted = h.counted;
  bounded = h.bounded;
}
