-- ===== src/Http2/Budget/Sweep.antt =====
-- The loop of `sweep` of src/engine/Http2Session.cpp, one stream at a time.
use nitro_server.Base.{
  ℕ, ◌≡◌, inl, inr, refl, ap, ◌∙◌, Bool, ◌&&◌, not, Option, none, some, List, [], ◌∷◌,
  if◌then◌else◌, ◌==◌, arith, Bool-cases, Option-cases,
}
use nitro_server.Base.Assoc.{nat_eq, lookup, IsUnique}
use nitro_server.Base.Total.{total}
use nitro_server.Http2.State.{Stream, Session, rejected_stream}
use nitro_server.Http2.Session.{sweep_streams, swept, is_expired, is_stalled}
use nitro_server.Http2.Order.{Phase, Phases}
use nitro_server.Http2.Budget.{Kept, Fits, IsKeptBy, reserved_of, rejected_stream-Kept}

-- Whether `sweep` answers a stream, and the stream that it leaves.
unfoldable pub is_hit : ℕ → ℕ → Stream → Bool
is_hit now stall st =
    not st.rejected && (if st.emitted then is_expired now st else is_stalled now stall st)

unfoldable pub swept_stream : ℕ → ℕ → Stream → Stream
swept_stream now stall st = if is_hit now stall st then rejected_stream st else st

module _ (now stall : ℕ) where
  sweep_streams-cons :
      (id : ℕ) (st : Stream) (m : List (ℕ × Stream))
      → (sweep_streams now stall ((id, st) ∷ m)).streams
        ≡ (id, swept_stream now stall st) ∷ (sweep_streams now stall m).streams
  unfolding sweep_streams swept_stream is_hit
  sweep_streams-cons id st m = ground arith

  pub swept_streams : List (ℕ × Stream) → List (ℕ × Stream)
  swept_streams [] = []
  swept_streams ((id, st) ∷ m) = (id, swept_stream now stall st) ∷ swept_streams m

  pub sweep_streams_lem :
      (m : List (ℕ × Stream)) → (sweep_streams now stall m).streams ≡ swept_streams m
  unfolding swept_streams
  sweep_streams_lem [] = unfold sweep_streams in refl
  sweep_streams_lem ((id, st) ∷ m) =
      sweep_streams-cons id st m
      ∙ ap (λ rest. (id, swept_stream now stall st) ∷ rest) (sweep_streams_lem m)

  pub swept_streams-none :
      (j : ℕ) (m : List (ℕ × Stream)) → lookup j m ≡ none → lookup j (swept_streams m) ≡ none
  unfolding swept_streams lookup
  swept_streams-none j [] h = refl
  swept_streams-none j ((id, st) ∷ m) h = ground (arith, swept_streams-none j m)

  pub swept_streams-some :
      (j : ℕ) (st : Stream) (m : List (ℕ × Stream))
      → lookup j m ≡ some st
      → lookup j (swept_streams m) ≡ some (swept_stream now stall st)
  unfolding swept_streams lookup
  swept_streams-some j st [] h = cc
  swept_streams-some j st ((id, other) ∷ m) h = elim (Bool-cases (id == j)) [
    | inl same ↦
        rw same
          (ap (λ (o : Stream). some (swept_stream now stall o)) (let is : other ≡ st = cc in is))
    | inr differs ↦ rw differs (swept_streams-some j st m (rw differs at h))
  ]

  pub swept_streams-IsUnique : (m : List (ℕ × Stream)) → IsUnique m → IsUnique (swept_streams m)
  unfolding swept_streams
  swept_streams-IsUnique [] h = tt
  swept_streams-IsUnique ((id, st) ∷ m) (fresh, h) =
      (swept_streams-none id m fresh, swept_streams-IsUnique m h)

  swept_stream-reserved : (st : Stream) → (swept_stream now stall st).reserved ≡ st.reserved
  unfolding swept_stream
  swept_stream-reserved st = ground arith

  swept_streams-total :
      (m : List (ℕ × Stream)) → total reserved_of (swept_streams m) ≡ total reserved_of m
  unfolding swept_streams total
  swept_streams-total [] = refl
  swept_streams-total ((id, st) ∷ m) =
      omega (arith, swept_stream-reserved st, swept_streams-total m)

  swept_stream-Kept :
      (budget : ℕ) (q : Phase) (st : Stream)
      → Kept budget q st
      → Kept budget q (swept_stream now stall st)
  unfolding swept_stream
  swept_stream-Kept budget q st h = elim (Bool-cases (is_hit now stall st)) [
    | inl e ↦ rw (swept_stream, e) (rejected_stream-Kept budget q st st h refl)
    | inr e ↦ rw (swept_stream, e) h
  ]

  swept_streams-Fits :
      (budget : ℕ) (q : Option Phase) (j : ℕ) (m : List (ℕ × Stream))
      → Fits budget q (lookup j m)
      → Fits budget q (lookup j (swept_streams m))
  swept_streams-Fits budget q j m h = elim (Option-cases (lookup j m)) [
    | inl e ↦ rw (swept_streams-none j m e) (rw e at h)
    | inr (st, e) ↦ rw (swept_streams-some j st m e) (one q st (rw e at h))
  ]
    where
      one :
          (p : Option Phase) (st : Stream)
          → Fits budget p (some st)
          → Fits budget p (some (swept_stream now stall st))
      one none st k = absurd k
      one (some p) st k = swept_stream-Kept budget p st k

  pub swept-IsKept :
      (ph : Phases) (s : Session)
      → IsKeptBy ph s
      → IsKeptBy ph (swept (sweep_streams now stall s.streams) s)
  unfolding swept
  swept-IsKept ph s h = rw (sweep_streams_lem s.streams) (record {
    unique = swept_streams-IsUnique s.streams h.unique;
    fits = λ j. swept_streams-Fits s.body_budget (ph j) j s.streams (h.fits j);
    counted = swept_streams-total s.streams ∙ h.counted;
    bounded = h.bounded;
  })
