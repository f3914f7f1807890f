-- ===== src/Http2/Budget/Calls.antt =====
-- The body budget over the calls of src/engine/Http2Session.cpp and the callbacks made in them.
use nitro_server.Base.{
  ℕ, ◌≡◌, inl, inr, refl, sym, ap, ◌∙◌, subst, Bool, true, false, Option, none, some, List, [], ◌∷◌,
  ◌==◌, ==_refl, ==_iff, arith, Bool-cases, Option-cases,
}
use nitro_server.Base.Text.{Bytes}
use nitro_server.Base.Assoc.{nat_eq, lookup}
use nitro_server.Http2.State.{Stream, Session}
use nitro_server.Http2.Callbacks.{
  FrameKind, request_headers, trailers, data_frame, other_frame, is_request_head, Moment,
  on_begin_headers, on_header, on_head, on_end, after, on_frame, on_stream_close, read_body,
  on_read,
}
use nitro_server.Http2.Session.{
  Callback, begin_headers, header, data_chunk, frame_recv, stream_close, data_read, on_callback,
  on_callbacks,
}
use nitro_server.Http2.Order.{
  Phase, opening, arriving, ended, Phases, set_phase, is_due, then_phases, within, IsInOrder,
  phases_after, is_opening, is_arriving, is_idle,
}
use nitro_server.Http2.Budget.{
  Kept, IsKeptBy, IsKept-phase, IsKept-update, IsKept-close, IsKept-same, Fits, Fits-none,
}
use nitro_server.Http2.Budget.Streams.{on_begin_headers-IsKept, on_header-IsKept}
use nitro_server.Http2.Budget.Data.{on_data_chunk-IsKept}
use nitro_server.Http2.Budget.Requests.{on_head-IsKept, on_end-IsKept, after_head}

pub is_opening_lem : (p : Option Phase) → is_opening p ≡ true → p ≡ some opening
is_opening_lem none h = cc
is_opening_lem (some opening) h = refl
is_opening_lem (some arriving) h = cc
is_opening_lem (some ended) h = cc

pub is_arriving_lem : (p : Option Phase) → is_arriving p ≡ true → p ≡ some arriving
is_arriving_lem none h = cc
is_arriving_lem (some opening) h = cc
is_arriving_lem (some arriving) h = refl
is_arriving_lem (some ended) h = cc

pub is_idle_lem : (p : Option Phase) → is_idle p ≡ true → p ≡ none
is_idle_lem none h = refl
is_idle_lem (some p) h = cc

pub set_phase_twice :
    (id : ℕ) (p q : Option Phase) (ph : Phases) (j : ℕ)
    → set_phase id q (set_phase id p ph) j ≡ set_phase id q ph j
unfolding set_phase
set_phase_twice id p q ph j = ground arith

on_stream_close-IsKept :
    (ph : Phases) (id : ℕ) (s : Session)
    → IsKeptBy ph s
    → IsKeptBy (set_phase id none ph) (on_stream_close id s).0
unfolding on_stream_close
on_stream_close-IsKept ph id s h = elim (Option-cases (lookup id s.streams)) [
  | inl e ↦
      rw (e, on_stream_close)
        (IsKept-same ph (set_phase id none ph) s.body_budget s.reserved s.streams
          (λ j.
            unfold set_phase in
            elim (Bool-cases (id == j)) [
              | inl same ↦ rw same (
                  Fits-none s.body_budget (ph j) (
                    subst (λ o. Fits s.body_budget (ph j) o)
                      (ap (λ k. lookup k s.streams) (sym ((==_iff id j).0 same)) ∙ e) (h.fits j)))
              | inr other ↦ rw other refl
            ])
          h)
  | inr (st, e) ↦
      rw (e, on_stream_close) (IsKept-close ph s.body_budget s.reserved id s.streams st h e)
]

read_body-Kept :
    (budget : ℕ) (q : Phase) (n : ℕ) (st : Stream)
    → Kept budget q st
    → Kept budget q (read_body n st).0
unfolding read_body
read_body-Kept budget opening n st h = h
read_body-Kept budget arriving n st h = h
read_body-Kept budget ended n st h = h

on_read-IsKept :
    (ph : Phases) (id n : ℕ) (s : Session) → IsKeptBy ph s → IsKeptBy ph (on_read id n s).0
unfolding on_read
on_read-IsKept ph id n s h = elim (Option-cases (lookup id s.streams)) [
  | inl e ↦ rw (e, on_read) h
  | inr (st, e) ↦
      let (q, is, kept) = IsKept-phase ph s.body_budget s.reserved id s.streams st h e in
      rw (e, on_read)
        (IsKept-update ph s.body_budget s.reserved id s.streams q st (read_body n st).0 h e is
          (unfold read_body in refl) (read_body-Kept s.body_budget q n st kept))
]

on_request_headers-IsKept :
    (ph : Phases) (end_stream : Bool) (m : Moment) (id : ℕ) (s : Session)
    → IsKeptBy ph s
    → ph id ≡ some opening
    → IsKeptBy
        (set_phase id (some (after_head end_stream)) ph)
        (on_frame request_headers end_stream m id s).0
unfolding on_frame after
on_request_headers-IsKept ph true m id s h is =
    let headed = on_head-IsKept ph m.now id true s h is in
    IsKept-same (set_phase id (some ended) (set_phase id (some ended) ph))
      (set_phase id (some ended) ph) _ _ _ (set_phase_twice id (some ended) (some ended) ph)
      (on_end-IsKept (set_phase id (some ended) ph) m id ended (on_head m.now true id s).0 headed
        (unfold set_phase in rw (==_refl id) refl))
on_request_headers-IsKept ph false m id s h is = on_head-IsKept ph m.now id false s h is

after_nothing :
    (m : Moment) (id : ℕ) (s : Session) → (after (on_end m id) (s, [])).0 ≡ (on_end m id s).0
unfolding after
after_nothing m id s = refl

pub on_frame-IsKept :
    (ph : Phases) (kind : FrameKind) (end_stream : Bool) (m : Moment) (id : ℕ) (s : Session)
    → IsKeptBy ph s
    → is_due (frame_recv kind end_stream m id) ph ≡ true
    → IsKeptBy
        (then_phases (frame_recv kind end_stream m id) ph)
        (on_frame kind end_stream m id s).0
unfolding is_due then_phases
on_frame-IsKept ph request_headers true m id s h due =
    on_request_headers-IsKept ph true m id s h (is_opening_lem (ph id) due)
on_frame-IsKept ph request_headers false m id s h due =
    on_request_headers-IsKept ph false m id s h (is_opening_lem (ph id) due)
on_frame-IsKept ph trailers true m id s h due =
    unfold on_frame after in on_end-IsKept ph m id arriving s h (is_arriving_lem (ph id) due)
on_frame-IsKept ph trailers false m id s h due = unfold on_frame in h
on_frame-IsKept ph data_frame true m id s h due =
    unfold on_frame after in on_end-IsKept ph m id arriving s h (is_arriving_lem (ph id) due)
on_frame-IsKept ph data_frame false m id s h due = unfold on_frame in h
on_frame-IsKept ph other_frame true m id s h due = unfold on_frame in h
on_frame-IsKept ph other_frame false m id s h due = unfold on_frame in h

pub ignored_kind-IsKept :
    (ph : Phases) (id : ℕ) (name value : Bytes) (kind : FrameKind) (s : Session)
    → is_request_head kind ≡ false
    → (on_header kind id name value s).0 ≡ s
unfolding on_header
ignored_kind-IsKept ph id name value kind s h = elim (Option-cases (lookup id s.streams)) [
  | inl e ↦ rw (e, on_header) refl
  | inr (st, e) ↦ rw (e, on_header, h) refl
]

-- A callback that comes in nghttp2's order keeps the budget.
pub on_callback-IsKept :
    (c : Callback) (ph : Phases) (s : Session)
    → IsKeptBy ph s
    → is_due c ph ≡ true
    → within c s ≡ true
    → IsKeptBy (then_phases c ph) (on_callback c s).0
unfolding on_callback then_phases is_due
on_callback-IsKept (begin_headers request_headers now id) ph s h due bound =
    on_begin_headers-IsKept ph now id s h (is_idle_lem (ph id) due)
on_callback-IsKept (begin_headers trailers now id) ph s h due bound = unfold on_begin_headers in h
on_callback-IsKept (begin_headers data_frame now id) ph s h due bound = unfold on_begin_headers in h
on_callback-IsKept (begin_headers other_frame now id) ph s h due bound =
    unfold on_begin_headers in h
on_callback-IsKept (header kind id name value) ph s h due bound =
    elim (Bool-cases (is_request_head kind)) [
      | inl e ↦ on_header-IsKept ph kind id name value s h (is_opening_lem (ph id) (rw e at due))
      | inr e ↦ subst (λ t. IsKeptBy ph t) (sym (ignored_kind-IsKept ph id name value kind s e)) h
    ]
on_callback-IsKept (data_chunk now id bytes) ph s h due bound =
    on_data_chunk-IsKept ph now id bytes s h (is_arriving_lem (ph id) due) bound
on_callback-IsKept (frame_recv kind end_stream m id) ph s h due bound =
    on_frame-IsKept ph kind end_stream m id s h due
on_callback-IsKept (stream_close id) ph s h due bound = on_stream_close-IsKept ph id s h
on_callback-IsKept (data_read id n) ph s h due bound = on_read-IsKept ph id n s h

pub on_callbacks-IsKept :
    (cs : List Callback) (ph : Phases) (s : Session)
    → IsKeptBy ph s
    → IsInOrder cs ph s
    → IsKeptBy (phases_after cs ph) (on_callbacks cs s).0
unfolding on_callbacks phases_after IsInOrder after
on_callbacks-IsKept [] ph s h ok = h
on_callbacks-IsKept (c ∷ cs) ph s h (due, bound, ok) =
    on_callbacks-IsKept cs (then_phases c ph) (on_callback c s).0
      (on_callback-IsKept c ph s h due bound) ok
