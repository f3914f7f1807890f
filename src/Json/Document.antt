-- ===== src/Json/Document.antt =====
-- The calls of src/engine/JsonWriter.cpp that write a whole document, and the text that they write: the
-- one flag for commas frames objects and arrays.
use nitro_server.Base.{
  ℕ, ◌≡◌, refl, sym, ap, ◌∙◌, Bool, true, [], ◌∷◌, ◌++◌, if◌then◌else◌, append_assoc, append-nil,
  Bool-cases, inl, inr,
}
use nitro_server.Base.Text.{Bytes, codes}
use nitro_server.Json.{
  Writer, jw_new, jw_reset, sep, put_n, set_comma, int_text, quoted, jw_begin_object, jw_end_object,
  jw_begin_array, jw_end_array, jw_key, jw_int, jw_string, jw_bool, jw_null, jw_raw,
}

mutual
  pub data Value : Type 0 where
    null_value : Value
    bool_value : Bool → Value
    int_value : ℕ → Value
    string_value : Bytes → Value
    raw_value : Bytes → Value
    array_value : Values → Value
    object_value : Fields → Value

  pub data Values : Type 0 where
    no_value : Values
    a_value : Value → Values → Values

  pub data Fields : Type 0 where
    no_field : Fields
    a_field : Bytes → Value → Fields → Fields

mutual
  -- The calls for a value, as a handler makes them.
  pub emit : Value → Writer → Writer
  emit null_value w = jw_null w
  emit (bool_value b) w = jw_bool w b
  emit (int_value v) w = jw_int w v
  emit (string_value s) w = jw_string w s
  emit (raw_value r) w = jw_raw w r
  emit (array_value vs) w = jw_end_array (emit_values vs (jw_begin_array w))
  emit (object_value fs) w = jw_end_object (emit_fields fs (jw_begin_object w))

  pub emit_values : Values → Writer → Writer
  emit_values no_value w = w
  emit_values (a_value v vs) w = emit_values vs (emit v w)

  pub emit_fields : Fields → Writer → Writer
  emit_fields no_field w = w
  emit_fields (a_field k v fs) w = emit_fields fs (emit v (jw_key w k))

mutual
  -- The text of a value, with a comma between members and nowhere else. The first member of a list is
  -- written without a comma.
  pub print : Value → Bytes
  print null_value = codes "null"
  print (bool_value b) = if b then codes "true" else codes "false"
  print (int_value v) = int_text v
  print (string_value s) = quoted s
  print (raw_value r) = r
  print (array_value vs) = b'[' ∷ (print_values vs ++ (b']' ∷ []))
  print (object_value fs) = b'{' ∷ (print_fields fs ++ (b'}' ∷ []))

  pub print_values : Values → Bytes
  print_values no_value = []
  print_values (a_value v vs) = print v ++ more_values vs

  pub more_values : Values → Bytes
  more_values no_value = []
  more_values (a_value v vs) = b',' ∷ (print v ++ more_values vs)

  pub print_fields : Fields → Bytes
  print_fields no_field = []
  print_fields (a_field k v fs) = quoted k ++ (b':' ∷ (print v ++ more_fields fs))

  pub more_fields : Fields → Bytes
  more_fields no_field = []
  more_fields (a_field k v fs) = b',' ∷ (quoted k ++ (b':' ∷ (print v ++ more_fields fs)))

abbrev comma_if : Bool → Bytes
comma_if b = if b then b',' ∷ [] else []

-- The writer after a value's text.
abbrev pub written : Writer → Bytes → Writer
written w text = record { bytes = w.bytes ++ (comma_if w.need_comma ++ text); need_comma = true }

sep_bytes : (w : Writer) → (sep w).bytes ≡ w.bytes ++ comma_if w.need_comma
sep_bytes w = elim (Bool-cases w.need_comma) [
  | inl e ↦ rw e refl
  | inr e ↦ rw e (sym (append-nil w.bytes))
]

-- A token that is a value of its own.
token_lem : (w : Writer) (text : Bytes) → set_comma true (put_n (sep w) text) ≡ written w text
token_lem w text =
    ap (λ bs. record { bytes = bs; need_comma = true })
      (rw (sep_bytes w, append_assoc w.bytes (comma_if w.need_comma) text) refl)

-- Two brackets around a text.
bracket_lem :
    (w : Writer) (x : Bytes) (o c : ℕ)
    → (((sep w).bytes ++ (o ∷ [])) ++ x) ++ (c ∷ [])
      ≡ w.bytes ++ (comma_if w.need_comma ++ (o ∷ (x ++ (c ∷ []))))
bracket_lem w x o c =
    rw
      (
        sep_bytes w,
        append_assoc ((w.bytes ++ comma_if w.need_comma) ++ (o ∷ [])) x (c ∷ []),
        append_assoc (w.bytes ++ comma_if w.need_comma) (o ∷ []) (x ++ (c ∷ [])),
        append_assoc w.bytes (comma_if w.need_comma) (o ∷ (x ++ (c ∷ []))),
      )
      refl

-- A first and a further member.
member_lem :
    (w : Writer) (x more : Bytes)
    → (w.bytes ++ (comma_if w.need_comma ++ x)) ++ more
      ≡ w.bytes ++ (if w.need_comma then b',' ∷ (x ++ more) else x ++ more)
member_lem w x more =
    append_assoc w.bytes _ more
    ∙ elim (Bool-cases w.need_comma) [ inl e ↦ rw e refl | inr e ↦ rw e refl ]

key_lem :
    (w : Writer) (k x more : Bytes)
    → ((jw_key w k).bytes ++ ([] ++ x)) ++ more
      ≡ w.bytes
        ++ (if w.need_comma
            then b',' ∷ (quoted k ++ (b':' ∷ (x ++ more)))
            else quoted k ++ (b':' ∷ (x ++ more)))
key_lem w k x more =
    rw
      (
        sep_bytes w,
        append_assoc (((w.bytes ++ comma_if w.need_comma) ++ quoted k) ++ (b':' ∷ [])) x more,
        append_assoc ((w.bytes ++ comma_if w.need_comma) ++ quoted k) (b':' ∷ []) (x ++ more),
        append_assoc (w.bytes ++ comma_if w.need_comma) (quoted k) (b':' ∷ (x ++ more)),
        append_assoc w.bytes (comma_if w.need_comma) (quoted k ++ (b':' ∷ (x ++ more))),
      )
      (elim (Bool-cases w.need_comma) [ inl e ↦ rw e refl | inr e ↦ rw e refl ])

mutual
  unfolding emit emit_values emit_fields print print_values more_values print_fields more_fields

  emit_text : (v : Value) (w : Writer) → emit v w ≡ written w (print v)
  emit_text null_value w = token_lem w _
  emit_text (bool_value b) w = token_lem w _
  emit_text (int_value v) w = token_lem w _
  emit_text (string_value s) w = token_lem w _
  emit_text (raw_value r) w = token_lem w _
  emit_text (array_value vs) w =
      ap (λ bs. record { bytes = bs ++ (b']' ∷ []); need_comma = true })
        (emit_values_text vs (jw_begin_array w))
      ∙ ap (λ bs. record { bytes = bs; need_comma = true })
          (bracket_lem w (print_values vs) b'[' b']')
  emit_text (object_value fs) w =
      ap (λ bs. record { bytes = bs ++ (b'}' ∷ []); need_comma = true })
        (emit_fields_text fs (jw_begin_object w))
      ∙ ap (λ bs. record { bytes = bs; need_comma = true })
          (bracket_lem w (print_fields fs) b'{' b'}')

  emit_values_text :
      (vs : Values) (w : Writer)
      → (emit_values vs w).bytes
        ≡ w.bytes ++ (if w.need_comma then more_values vs else print_values vs)
  emit_values_text no_value w = elim (Bool-cases w.need_comma) [
    | inl e ↦ rw e (sym (append-nil w.bytes))
    | inr e ↦ rw e (sym (append-nil w.bytes))
  ]
  emit_values_text (a_value v vs) w =
      emit_values_text vs (emit v w) ∙ rw (emit_text v w) (member_lem w (print v) (more_values vs))

  emit_fields_text :
      (fs : Fields) (w : Writer)
      → (emit_fields fs w).bytes
        ≡ w.bytes ++ (if w.need_comma then more_fields fs else print_fields fs)
  emit_fields_text no_field w = elim (Bool-cases w.need_comma) [
    | inl e ↦ rw e (sym (append-nil w.bytes))
    | inr e ↦ rw e (sym (append-nil w.bytes))
  ]
  emit_fields_text (a_field k v fs) w =
      emit_fields_text fs (emit v (jw_key w k))
      ∙ rw (emit_text v (jw_key w k)) (key_lem w k (print v) (more_fields fs))

-- On a new writer and on a reset one, the calls for a document write its text, nested objects and arrays
-- included: commas stand between members and nowhere else.
pub emit_lem :
    (v : Value) (w : Writer)
    → ((emit v jw_new).bytes ≡ print v) × ((emit v (jw_reset w)).bytes ≡ print v)
emit_lem v w = (
  ap (λ (u : Writer). u.bytes) (emit_text v jw_new),
  ap (λ (u : Writer). u.bytes) (emit_text v (jw_reset w)),
)
