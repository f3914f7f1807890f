-- ===== src/Http/Upload/Bounded.antt =====
-- What `emitStreamChunked` of src/engine/UvReactor.cpp hands over keeps to the cap, and its loop ends.
use nitro_server.Base.{
  ℕ, suc, ◌+◌, ◌≤◌, ◌≡◌, refl, sym, ap, ◌∙◌, subst, Bool, true, false, List, [], ◌∷◌, ◌++◌, length,
  arith, ◌⊎◌, inl, inr, append-nil,
}
use nitro_server.Base.Text.{Bytes}
use nitro_server.Http.Upload.{
  Upload, Emission, track, data_of, body_end, too_large, end_of, payload_of, Ending, pause,
  finished, malformed, over_cap, out_of_fuel, Pass, upload_loop, settle, upload_pass, emit_chunked,
}
use nitro_server.Http.Upload.Loop.{IsWithin, IsPass, upload_loop-IsPass}

-- The bytes handed to the handler.
pub handed : List Emission → ℕ
handed [] = 0
handed (track bytes ∷ es) = handed es
handed (data_of bytes ∷ es) = length bytes + handed es
handed (body_end ∷ es) = handed es
handed (too_large ∷ es) = handed es

handed-payload_of :
    (sink more : Bool) (out : Bytes) → handed (payload_of sink out ++ end_of more) ≤ length out
unfolding handed
handed-payload_of false false out = omega arith
handed-payload_of false true out = omega arith
handed-payload_of true false [] = omega arith
handed-payload_of true true [] = omega arith
handed-payload_of true false (c ∷ out) = omega arith
handed-payload_of true true (c ∷ out) = omega arith

-- What one read of a streamed upload did: `u` before it, `v` after it.
pub record IsRead (u v : Upload) (es : List Emission) : Type 0 where
  pub cap : v.stream_max ≡ u.stream_max
  pub counted : u.total + handed es ≤ v.total
  pub within : IsWithin u.stream_max v.total ⊎ ((es ≡ too_large ∷ []) × (v.streaming ≡ false))

settle-IsRead :
    (u : Upload) (p : Pass)
    → IsWithin u.stream_max u.total
    → IsPass u [] p
    → IsRead u (settle p).1.0 (settle p).1.1
unfolding settle handed
settle-IsRead u p w h = settled p.ending refl
  where
    Parts : Type 0
    Parts = Bytes × (Upload × List Emission)

    kept :
        (parts : Parts)
        → settle p ≡ parts
        → (p.ending ≡ over_cap → ⊥)
        → parts.1.0.stream_max ≡ p.upload.stream_max
        → parts.1.0.total ≡ p.upload.total
        → handed parts.1.1 ≤ length p.out
        → IsRead u (settle p).1.0 (settle p).1.1
    kept parts is n c t l =
        subst (λ (r : Parts). IsRead u r.1.0 r.1.1) (sym is)
          (record {
            cap = c ∙ h.cap;
            counted = omega (arith, h.counted, t, l);
            within = inl (subst (IsWithin u.stream_max) (sym t) (h.within n w));
          })

    settled : (e : Ending) → p.ending ≡ e → IsRead u (settle p).1.0 (settle p).1.1
    settled pause i =
        kept (p.left, (p.upload, payload_of p.upload.has_sink p.out)) (simp (settle, i))
          (λ e. let clash = sym i ∙ e in absurd cc) refl refl
          (omega (
            arith,
            handed-payload_of p.upload.has_sink false p.out,
            ap handed (append-nil (payload_of p.upload.has_sink p.out)),
          ))
    settled finished i =
        kept
          (
            p.left,
            (
              record p.upload { streaming = false },
              payload_of p.upload.has_sink p.out ++ end_of p.upload.has_sink,
            ),
          )
          (simp (settle, i)) (λ e. let clash = sym i ∙ e in absurd cc) refl refl
          (handed-payload_of p.upload.has_sink p.upload.has_sink p.out)
    settled malformed i =
        kept (p.left, (record p.upload { streaming = false; closing = true }, []))
          (simp (settle, i)) (λ e. let clash = sym i ∙ e in absurd cc) refl refl (omega arith)
    settled over_cap i =
        let is : settle p ≡ (p.left, (record p.upload { streaming = false }, too_large ∷ [])) =
          simp (settle, i) in
        subst (λ (r : Parts). IsRead u r.1.0 r.1.1) (sym is)
          (record { cap = h.cap; counted = omega (arith, h.counted); within = inr (refl, refl) })
    settled out_of_fuel i = absurd (h.ends i)

-- Whatever arrives in a read of a chunked upload whose running total is within the cap: the bytes
-- handed to the handler are no more than what the running total grows by, and the running total is
-- within the cap again, or the read hands over nothing but the error that ends the stream.
pub emit_chunked-IsRead :
    (u : Upload) (buf : Bytes)
    → IsWithin u.stream_max u.total
    → IsRead u (emit_chunked u buf).1.0 (emit_chunked u buf).1.1
unfolding emit_chunked upload_pass
emit_chunked-IsRead u buf w =
    settle-IsRead u (upload_loop (suc (length buf)) u buf []) w
      (upload_loop-IsPass (suc (length buf)) u buf [] (omega arith))
