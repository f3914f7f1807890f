-- ===== src/Http/Framing/Loop.antt =====
-- The loop over the headers in `uvFraming` of src/engine/UvReactor.cpp.
use nitro_server.Base.{
  ℕ, ◌+◌, ◌≡◌, refl, sym, ap, ◌∙◌, Bool, true, false, Option, none, some, List, [], ◌∷◌, ◌++◌,
  if◌then◌else◌, ◌==◌, bytes_eq, bytes_eq_iff, length, arith, Bool-cases, Option-cases, inl, inr,
  append-nil, append_assoc, map, ==_iff, &&-true, length-append,
}
use nitro_server.Base.Text.{Bytes, codes}
use nitro_server.Http.{lower, iequals}
use nitro_server.Http.Fields.{Header}
use nitro_server.Http.Framing.{Seen, see, see_all}

-- The values of the headers of a name.
pub named : Bytes → List Header → List Bytes
named name [] = []
named name (h ∷ hs) = if iequals h.0 name then h.1 ∷ named name hs else named name hs

abbrev pub content_length : Bytes
content_length = codes "content-length"

abbrev pub transfer_encoding : Bytes
transfer_encoding = codes "transfer-encoding"

abbrev pub host : Bytes
host = codes "host"

-- What was seen, as lists.
abbrev pub as_list : Option Bytes → List Bytes
as_list none = []
as_list (some v) = v ∷ []

abbrev pub as_number : Bool → ℕ
as_number true = 1
as_number false = 0

-- The loop never forgets: no flag falls, and where it found no duplicate it has every value.
pub record IsSeen (hs : List Header) (s s' : Seen) : Type 0 where
  pub cl_flag : s.dup_cl ≡ true → s'.dup_cl ≡ true
  pub te_flag : s.dup_te ≡ true → s'.dup_te ≡ true
  pub host_flag : s.dup_host ≡ true → s'.dup_host ≡ true
  pub cl_all : s'.dup_cl ≡ false → as_list s'.cl ≡ as_list s.cl ++ named (codes "content-length") hs
  pub te_all :
      s'.dup_te ≡ false → as_list s'.te ≡ as_list s.te ++ named (codes "transfer-encoding") hs
  pub host_all :
      s'.dup_host ≡ false
      → as_number s'.has_host ≡ as_number s.has_host + length (named (codes "host") hs)

pub iequals-lower : (s t : Bytes) → iequals s t ≡ true → map lower s ≡ map lower t
unfolding iequals
iequals-lower [] [] h = refl
iequals-lower [] (d ∷ t) h = cc
iequals-lower (c ∷ s) [] h = cc
iequals-lower (c ∷ s) (d ∷ t) h =
    let first : lower c ≡ lower d =
      (==_iff (lower c) (lower d)).0 (&&-true (lower c == lower d) (iequals s t) h).0 in
    let more = iequals-lower s t (&&-true (lower c == lower d) (iequals s t) h).1 in
    rw (first, more) refl

-- Which of the three names a header has.
pub data Which (name : Bytes) : Type 0 where
  a_length :
      iequals name content_length ≡ true
      → iequals name transfer_encoding ≡ false
      → iequals name host ≡ false
      → Which name
  a_coding :
      iequals name content_length ≡ false
      → iequals name transfer_encoding ≡ true
      → iequals name host ≡ false
      → Which name
  a_host :
      iequals name content_length ≡ false
      → iequals name transfer_encoding ≡ false
      → iequals name host ≡ true
      → Which name
  other_name :
      iequals name content_length ≡ false
      → iequals name transfer_encoding ≡ false
      → iequals name host ≡ false
      → Which name

pub apart :
    (name s t : Bytes)
    → bytes_eq (map lower s) (map lower t) ≡ false
    → iequals name s ≡ true
    → iequals name t ≡ false
apart name s t differ h = elim (Bool-cases (iequals name t)) [
  | inl e ↦
      let same =
        (bytes_eq_iff (map lower s) (map lower t)).1
          (sym (iequals-lower name s h) ∙ iequals-lower name t e) in
      cc
  | inr e ↦ e
]

pub which : (name : Bytes) → Which name
unfolding bytes_eq
which name = elim (Bool-cases (iequals name content_length)) [
  | inl e ↦
      a_length e (apart name content_length transfer_encoding refl e)
        (apart name content_length host refl e)
  | inr e ↦ elim (Bool-cases (iequals name transfer_encoding)) [
    | inl f ↦ a_coding e f (apart name transfer_encoding host refl f)
    | inr f ↦ elim (Bool-cases (iequals name host)) [
      | inl g ↦ a_host e f g
      | inr g ↦ other_name e f g
    ]
  ]
]

pub see-IsSeen : (h : Header) (s s' : Seen) → Which h.0 → see h s ≡ some s' → IsSeen (h ∷ []) s s'
unfolding see named
see-IsSeen h s s' (a_length a b c) e = ground (arith, a, b, c, e)
see-IsSeen h s s' (a_coding a b c) e = ground (arith, a, b, c, e)
see-IsSeen h s s' (a_host a b c) e = ground (arith, a, b, c, e)
see-IsSeen h s s' (other_name a b c) e = ground (arith, a, b, c, e)

pub named-cons :
    (name : Bytes) (h : Header) (hs : List Header)
    → named name (h ∷ hs) ≡ named name (h ∷ []) ++ named name hs
unfolding named
named-cons name h hs = elim (Bool-cases (iequals h.0 name)) [
  | inl e ↦ rw e refl
  | inr e ↦ rw e refl
]

pub unset : (a b : Bool) → (a ≡ true → b ≡ true) → b ≡ false → a ≡ false
unset true b h e = cc (h refl)
unset false b h e = refl

pub joined :
    (name : Bytes) (h : Header) (hs : List Header) (before middle after : List Bytes)
    → middle ≡ before ++ named name (h ∷ [])
    → after ≡ middle ++ named name hs
    → after ≡ before ++ named name (h ∷ hs)
joined name h hs before middle after e f =
    f ∙ rw (e, append_assoc before (named name (h ∷ [])) (named name hs), named-cons name h hs) refl

pub IsSeen-cons :
    (h : Header) (hs : List Header) (s m s' : Seen)
    → IsSeen (h ∷ []) s m
    → IsSeen hs m s'
    → IsSeen (h ∷ hs) s s'
IsSeen-cons h hs s m s' one more = record {
  cl_flag = λ e. more.cl_flag (one.cl_flag e);
  te_flag = λ e. more.te_flag (one.te_flag e);
  host_flag = λ e. more.host_flag (one.host_flag e);
  cl_all = λ e.
      joined _ h hs _ _ _ (one.cl_all (unset m.dup_cl s'.dup_cl more.cl_flag e)) (more.cl_all e);
  te_all = λ e.
      joined _ h hs _ _ _ (one.te_all (unset m.dup_te s'.dup_te more.te_flag e)) (more.te_all e);
  host_all = λ e. omega (
    arith,
    one.host_all (unset m.dup_host s'.dup_host more.host_flag e),
    more.host_all e,
    ap (λ (l : List Bytes). length l) (named-cons (codes "host") h hs),
    length-append (named (codes "host") (h ∷ [])) (named (codes "host") hs),
  );
}

pub see_all-IsSeen : (hs : List Header) (s s' : Seen) → see_all hs s ≡ some s' → IsSeen hs s s'
unfolding see_all
see_all-IsSeen [] s s' e =
    let same : s ≡ s' = cc in
    rw (← same) (record {
      cl_flag = λ f. f;
      te_flag = λ f. f;
      host_flag = λ f. f;
      cl_all = λ f. unfold named in sym (append-nil (as_list s.cl));
      te_all = λ f. unfold named in sym (append-nil (as_list s.te));
      host_all = λ f. unfold named in omega arith;
    })
see_all-IsSeen (h ∷ hs) s s' e = elim (Option-cases (see h s)) [
  | inl f ↦ let clash : none ≡ some s' = rw (f, see_all) at e in cc
  | inr (m, f) ↦
      let rest : see_all hs m ≡ some s' = rw (f, see_all) at e in
      IsSeen-cons h hs s m s' (see-IsSeen h s m (which h.0) f) (see_all-IsSeen hs m s' rest)
]
