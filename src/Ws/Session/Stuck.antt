-- ===== src/Ws/Session/Stuck.antt =====
-- The frames that `wsProcess` of src/engine/UvReactor.cpp neither handles nor refuses.
use nitro_server.Base.{
  ℕ, ◌≡◌, ◌⊎◌, inl, inr, refl, Bool, true, false, none, [], ◌∷◌, length, get_or, ltb, bit_and,
  arith,
}
use nitro_server.Base.Text.{Bytes}
use nitro_server.Ws.Frame.{parse_header, read_length, is_set, is_control}
use nitro_server.Ws.Session.{Session, Limits, is_broken, with_header, turn, process}
use nitro_server.Ws.Session.Rest.{loop_waits}

-- RSV1 on a control frame of a session with compression, or a 64-bit length of 2^63 and more.
abbrev pub IsMisread : Bool → ℕ → ℕ → Bytes → Type 0
IsMisread deflate b0 b1 more =
    ((is_control (bit_and b0 0x0f) ≡ true) × (is_set (bit_and b0 0x40) ≡ true))
    ⊎ ((bit_and b1 0x7f ≡ 127) × (is_set (bit_and (get_or more 0 0) 0x80) ≡ true))

long_length :
    (b0 b1 : ℕ) (more : Bytes)
    → is_set (bit_and (get_or more 0 0) 0x80) ≡ true
    → read_length (b0 ∷ b1 ∷ more) 127 ≡ none
unfolding read_length
long_length b0 b1 more e = ground (arith, e)

misread :
    (allow : Bool) (b0 b1 : ℕ) (more : Bytes)
    → IsMisread allow b0 b1 more
    → parse_header (b0 ∷ b1 ∷ more) allow ≡ none
unfolding parse_header
misread allow b0 b1 more (inl (c, r)) = ground (arith, c, r)
misread allow b0 b1 more (inr (l, r)) = ground (arith, l, long_length b0 b1 more r)

-- A masked frame with a known opcode whose first two bytes pass the tests, and which is either a
-- control frame with RSV1 set or announces 2^63 bytes or more, is not answered by a close: the
-- loop waits, and goes on waiting whatever bytes follow.
pub process_stuck :
    (limits : Limits) (s : Session) (b0 b1 : ℕ) (more : Bytes)
    → is_broken s.deflate b0 b1 ≡ false
    → IsMisread s.deflate b0 b1 more
    → process limits s (b0 ∷ b1 ∷ more)
      ≡ record { left = b0 ∷ b1 ∷ more; session = s; actions = [] }
unfolding process turn with_header
process_stuck limits s b0 b1 more ok bad =
    let two : ltb (length (b0 ∷ b1 ∷ more)) 2 ≡ false = (ground arith) in
    let waits : turn limits s (b0 ∷ b1 ∷ more) ≡ none =
      rw (turn, two, ok, misread s.deflate b0 b1 more bad) refl in
    loop_waits limits _ s (b0 ∷ b1 ∷ more) waits
