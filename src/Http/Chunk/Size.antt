-- ===== src/Http/Chunk/Size.antt =====
-- The chunk sizes that `uvChunkSize` of src/engine/UvReactor.cpp accepts.
use nitro_server.Base.{
  ℕ, ◌+◌, ◌^◌, ◌<◌, ◌≤◌, ◌≡◌, ◌⊎◌, ◌↔◌, inl, inr, refl, sym, ap, ◌∙◌, true, false, none, some, List,
  [], ◌∷◌, ◌++◌, if◌then◌else◌, ◌==◌, all, All, &&-true, length, arith, Option-cases,
}
use nitro_server.Base.Text.{Bytes}
use nitro_server.Http.Chunk.Digits.{
  hex_number, IsHexText, bound_after, hex_number-lt, chunk_digits-IsRead, chunk_digits_back,
}
use nitro_server.Http.Chunk.{chunk_digits, no_control, chunk_extensions, chunk_size}

-- No byte below 0x20.
abbrev pub IsAboveControl : ℕ → Type 0
IsAboveControl c = 0x20 ≤ c

all-IsAboveControl : (s : Bytes) → all no_control s ≡ true → All IsAboveControl s
all-IsAboveControl [] h = tt
all-IsAboveControl (c ∷ s) h =
    let (one, more) = &&-true (no_control c) (all no_control s) h in
    (ground (arith, one), all-IsAboveControl s more)

IsAboveControl-all : (s : Bytes) → All IsAboveControl s → all no_control s ≡ true
IsAboveControl-all [] h = refl
IsAboveControl-all (c ∷ s) (one, more) =
    let here : no_control c ≡ true = ground (arith, one) in
    rw (here, IsAboveControl-all s more) refl

-- A size line that `uvChunkSize` accepts: one to fifteen hexadecimal digits that stand for the size, and
-- then nothing, or a semicolon and a text without bytes below 0x20.
pub record IsSizeLine (line : Bytes) (size : ℕ) : Type 0 where
  pub text : Bytes
  pub extension : Bytes
  pub ds : List ℕ
  pub whole : line ≡ text ++ extension
  pub hexes : IsHexText text ds
  pub value : size ≡ hex_number 0 ds
  pub some_digits : 1 ≤ length ds
  pub few : length ds ≤ 15
  pub printable : All IsAboveControl extension
  pub marked : (extension ≡ []) ⊎ ((e : Bytes) × (extension ≡ b';' ∷ e))

chunk_extensions_lem :
    (size v : ℕ) (s : Bytes)
    → chunk_extensions size s ≡ some v
    → (size ≡ v) × (all no_control s ≡ true) × ((s ≡ []) ⊎ ((e : Bytes) × (s ≡ b';' ∷ e)))
unfolding chunk_extensions
chunk_extensions_lem size v [] h = (cc, refl, inl refl)
chunk_extensions_lem size v (c ∷ s) h =
    let same : size ≡ v = ground (arith, h) in
    let mark : c ≡ b';' = ground (arith, h) in
    let clean : all no_control (c ∷ s) ≡ true = ground (arith, h) in
    (same, clean, inr (s, ap (λ x. x ∷ s) mark))

chunk_size-IsSizeLine :
    (line : Bytes) (v : ℕ) → chunk_size line ≡ some v → IsSizeLine line v × (v < 2 ^ 60)
unfolding chunk_size
chunk_size-IsSizeLine line v h = elim (Option-cases (chunk_digits 0 0 line)) [
  | inl e ↦ let clash : none ≡ some v = rw (e, chunk_size) at h in cc
  | inr ((size, (digits, rest)), e) ↦
      let r = chunk_digits-IsRead line 0 0 size digits rest (omega arith) e in
      let opened : (if digits == 0 then none else chunk_extensions size rest) ≡ some v =
        rw (e, chunk_size) at h in
      let some_digits : 1 ≤ digits = ground (arith, opened) in
      let closed : chunk_extensions size rest ≡ some v = ground (arith, opened) in
      let (same, clean, mark) = chunk_extensions_lem size v rest closed in
      let below =
        hex_number-lt r.text r.ds 0 1 15 r.hexes (omega arith) (omega (arith, r.few, r.counted)) in
      let top : bound_after 1 15 ≡ 2 ^ 60 = unfold bound_after in refl in
      (
        record {
          text = r.text;
          extension = rest;
          ds = r.ds;
          whole = r.whole;
          hexes = r.hexes;
          value = sym same ∙ r.sized;
          some_digits = omega (arith, some_digits, r.counted);
          few = omega (arith, r.few, r.counted);
          printable = all-IsAboveControl rest clean;
          marked = mark;
        },
        omega (arith, same, r.sized, below, top),
      )
]

chunk_size_back : (line : Bytes) (v : ℕ) → IsSizeLine line v → chunk_size line ≡ some v
unfolding chunk_size chunk_extensions
chunk_size_back line v f =
    let scanned =
      chunk_digits_back f.text f.ds f.extension 0 0 f.hexes (omega (arith, f.few)) f.marked in
    let nonzero : (0 + length f.ds == 0) ≡ false = ground (arith, f.some_digits) in
    rw (f.whole, chunk_size, scanned, nonzero)
      (elim f.marked [
        | inl e ↦ rw (e, f.value) refl
        | inr (t, e) ↦
            let clean = rw e at (IsAboveControl-all f.extension f.printable) in
            rw (e, clean, f.value) refl
      ])

-- `uvChunkSize` accepts a line with a size exactly where the line is one to fifteen hexadecimal digits
-- that stand for that size, and then nothing, or a semicolon and a text without bytes below 0x20.
pub chunk_size_iff : (line : Bytes) (v : ℕ) → (chunk_size line ≡ some v) ↔ IsSizeLine line v
chunk_size_iff line v = (λ h. (chunk_size-IsSizeLine line v h).0, λ f. chunk_size_back line v f)

-- A size that `uvChunkSize` answers lies below 2^60: the shifts of the int64 do not overflow.
pub chunk_size_bound : (line : Bytes) (v : ℕ) → chunk_size line ≡ some v → v < 2 ^ 60
chunk_size_bound line v h = (chunk_size-IsSizeLine line v h).1
