-- ===== src/Http2/Body.antt =====
-- `readBody` of src/engine/Http2Session.cpp, called until it says that the data ends.
use nitro_server.Base.{
  ℕ, zero, suc, ◌+◌, ◌-◌, ◌≤◌, ◌<◌, ◌≡◌, inl, inr, refl, ◌∙◌, Bool, true, false, List, [], ◌∷◌,
  ◌++◌, if◌then◌else◌, ◌==◌, length, min, take, drop, take-append-drop, take_all, length-drop,
  arith, Bool-cases,
}
use nitro_server.Base.Text.{Bytes}
use nitro_server.Http2.State.{Stream}
use nitro_server.Http2.Callbacks.{read_body}

-- The bytes that calls with these sizes put out, and whether the last one ended the data.
unfoldable pub reads : List ℕ → Stream → Bytes × Bool
reads [] st = ([], false)
reads (n ∷ sizes) st =
    let first = read_body n st in
    let rest = reads sizes first.0 in
    if first.1.1 then (first.1.0, true) else (first.1.0 ++ rest.0, rest.1)

abbrev empty_bytes : Bytes
empty_bytes = []

abbrev pub sum : List ℕ → ℕ
sum [] = 0
sum (n ∷ ns) = n + sum ns

add_zero : (n : ℕ) → 0 + n ≡ n
add_zero n = omega arith

add_suc : (m n : ℕ) → suc m + n ≡ suc (m + n)
add_suc m n = omega arith

drop_nil : (n : ℕ) → drop n [] ≡ empty_bytes
drop_nil zero = refl
drop_nil (suc n) = refl

drop_add : (m n : ℕ) (xs : Bytes) → drop (m + n) xs ≡ drop n (drop m xs)
drop_add zero n xs = rw (add_zero n) refl
drop_add (suc m) n [] = rw (drop_nil (suc m + n), drop_nil n) refl
drop_add (suc m) n (x ∷ xs) = rw (add_suc m n) (drop_add m n xs)

-- The call that reaches the end puts out all that was left.
reads_last :
    (n : ℕ) (sizes : List ℕ) (st : Stream)
    → st.resp_off ≤ length st.resp_body
    → (st.resp_off + min n (length st.resp_body - st.resp_off) == length st.resp_body) ≡ true
    → reads (n ∷ sizes) st ≡ (drop st.resp_off st.resp_body, true)
unfolding reads read_body
reads_last n sizes st off e =
    let rem = length st.resp_body - st.resp_off in
    let left : Bytes = drop st.resp_off st.resp_body in
    let all_of : rem ≤ min n rem = ground (arith, e, off) in
    let whole : take (min n rem) left ≡ left =
      take_all (min n rem) left (omega (arith, length-drop st.resp_off st.resp_body, all_of)) in
    simp (reads, read_body, e, whole)

-- A call that does not reach it asks for less than what was left.
short_read :
    (n off len : ℕ)
    → off ≤ len
    → (off + min n (len - off) == len) ≡ false
    → (n < len - off) × (min n (len - off) ≡ n)
short_read n off len below e = (ground (arith, e, below), ground (arith, e, below))

reads-cons :
    (n : ℕ) (sizes : List ℕ) (st : Stream)
    → (st.resp_off + min n (length st.resp_body - st.resp_off) == length st.resp_body) ≡ false
    → reads (n ∷ sizes) st ≡ (
        let m = min n (length st.resp_body - st.resp_off) in
        let rest = reads sizes (record st { resp_off = st.resp_off + m }) in
        (take m (drop st.resp_off st.resp_body) ++ rest.0, rest.1))
unfolding reads read_body
reads-cons n sizes st e = simp (e)

reads_step :
    (n k : ℕ) (ks : List ℕ) (st : Stream)
    → (st.resp_off + min n (length st.resp_body - st.resp_off) == length st.resp_body) ≡ false
    → min n (length st.resp_body - st.resp_off) ≡ n
    → reads (k ∷ ks) (record st { resp_off = st.resp_off + n })
      ≡ (drop (st.resp_off + n) st.resp_body, true)
    → take n (drop st.resp_off st.resp_body) ++ drop (st.resp_off + n) st.resp_body
      ≡ drop st.resp_off st.resp_body
    → reads (n ∷ k ∷ ks) st ≡ (drop st.resp_off st.resp_body, true)
reads_step n k ks st e same ih joined = reads-cons n (k ∷ ks) st e ∙ rw (same, ih, joined) refl

-- From any offset, sizes that are enough give the rest of the body and end it.
reads_from :
    (n : ℕ) (sizes : List ℕ) (st : Stream)
    → st.resp_off ≤ length st.resp_body
    → length st.resp_body ≤ st.resp_off + (n + sum sizes)
    → reads (n ∷ sizes) st ≡ (drop st.resp_off st.resp_body, true)
unfolding reads read_body
reads_from n [] st off enough =
    elim (Bool-cases
      (st.resp_off + min n (length st.resp_body - st.resp_off) == length st.resp_body)) [
        | inl e ↦ reads_last n [] st off e
        | inr e ↦
            let (less, same) = short_read n st.resp_off (length st.resp_body) off e in
            absurd (omega (arith, less, enough))
      ]
reads_from n (k ∷ ks) st off enough =
    elim (Bool-cases
      (st.resp_off + min n (length st.resp_body - st.resp_off) == length st.resp_body)) [
        | inl e ↦ reads_last n (k ∷ ks) st off e
        | inr e ↦
            let (less, same) = short_read n st.resp_off (length st.resp_body) off e in
            let next : Stream = record st { resp_off = st.resp_off + n } in
            let ih = reads_from k ks next (omega (arith, less)) (omega (arith, enough)) in
            let joined : take n (drop st.resp_off st.resp_body)
                  ++ drop (st.resp_off + n) st.resp_body
                ≡ drop st.resp_off st.resp_body =
              rw (drop_add st.resp_off n st.resp_body)
                (take-append-drop n (drop st.resp_off st.resp_body)) in
            reads_step n k ks st e same ih joined
      ]

-- Whatever sizes nghttp2 asks for, the calls of `readBody` put out the body of the answer, in order
-- and once, and the last of them ends the data, as soon as the sizes add up to its length.
pub reads-whole :
    (n : ℕ) (sizes : List ℕ) (st : Stream)
    → st.resp_off ≡ 0
    → length st.resp_body ≤ n + sum sizes
    → reads (n ∷ sizes) st ≡ (st.resp_body, true)
reads-whole n sizes st start enough =
    rw (reads_from n sizes st (omega (arith, start)) (omega (arith, start, enough)), start) refl
