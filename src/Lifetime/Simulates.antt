-- ===== src/Lifetime/Simulates.antt =====
-- What it is for a handle to be in the state that Spec says, and that the user's code keeps it there.
use uvw.Prelude.{
  ℕ, ◌+◌, ◌-◌, ◌≡◌, refl, ap, ◌∙◌, Option, none, some, List, [], ◌∷◌, ◌++◌, map, ℤ, is_zero, ltb,
  ◌>>=◌, arith, Bool-cases, inl, inr,
}
use mathlib.Core.List.{map-append}
use uvw.Emitter.{Emitter, on, reset}
use uvw.Event.{EventType, EventType-discrete}
use uvw.Resource.{Resource, share, release, self_reset, leak_if, set_data, hold_self}
use uvw.Lifetime.{
  closes_reset, close_reset, ReqKind, System, share_stream, release_stream, init, close,
  new_request, release_request, submit, set_emitter, drop_ref_of, Act, take_ref, drop_ref, closes,
  inits, submits, listens, resets, sets_data, act, run_acts,
}
use uvw.Lifetime.Acts.{release-leak_if, held_request}
use uvw.Lifetime.Spec.{Spec, put, spec_act, spec_acts}

-- While the handle is there, its listeners and its data are those of the specification.
abbrev pub Shows : Option (Resource ℕ) → (EventType → Option ℕ) → Option ℕ → Type 0
Shows none table user_data = Unit
Shows (some r) table user_data = (r.emitter.handlers ≡ table) × (r.user_data ≡ user_data)

abbrev pub Agrees : Option (Resource ℕ) → Spec → Type 0
Agrees o x = Shows o x.table x.user_data

abbrev pub Rest : System → Spec → Type 0
Rest s x =
    (s.uv ≡ x.uv) × (s.held ≡ x.held) × (map (λ q. q.kind) s.requests ≡ x.pending) × (s.log ≡ x.log)

abbrev pub Refines : System → Spec → Type 0
Refines s x = Rest s x × Agrees s.stream x

abbrev pub Sim : Spec → Option System → Type 0
Sim x none = Unit
Sim x (some s) = Refines s x

pub Sim-bind :
    (x y : Spec) (m : Option System) (f : System → Option System)
    → Sim x m
    → ((s : System) → Refines s x → Sim y (f s))
    → Sim y (m >>= f)
Sim-bind x y none f h step = tt
Sim-bind x y (some s) f h step = step s h

abbrev pub at : Option (Resource ℕ) → System → System
at o s = record s { stream = o }

-- Taking a pointer to the handle, and giving one up, does not show.
share-at :
    (x : Spec) (s : System) (o : Option (Resource ℕ))
    → Rest s x
    → Agrees o x
    → Sim x (share_stream (at o s))
unfolding share_stream share
share-at x s none h a = tt
share-at x s (some r) h a = (h, a)

share_stream-Sim : (x : Spec) (s : System) → Refines s x → Sim x (share_stream s)
share_stream-Sim x s h = share-at x s s.stream h.0 h.1

release-Agrees : (x : Spec) (r : Resource ℕ) → Agrees (some r) x → Agrees (release r) x
unfolding release
release-Agrees x r a = ground arith

release-at :
    (x : Spec) (s : System) (o : Option (Resource ℕ))
    → Rest s x
    → Agrees o x
    → Sim x (release_stream (at o s))
unfolding release_stream
release-at x s none h a = tt
release-at x s (some r) h a = (h, release-Agrees x r a)

pub release_stream-Sim : (x : Spec) (s : System) → Refines s x → Sim x (release_stream s)
release_stream-Sim x s h = release-at x s s.stream h.0 h.1

leak_if-Agrees :
    (x : Spec) (rc : ℤ) (r : Resource ℕ) → Agrees (some r) x → Agrees (some (leak_if rc r).1) x
unfolding leak_if hold_self share
leak_if-Agrees x rc r a = ground arith

pub self_reset-Agrees : (x : Spec) (r : Resource ℕ) → Agrees (some r) x → Agrees (self_reset r) x
unfolding self_reset
self_reset-Agrees x r a = ground arith

init-at :
    (rc : ℤ) (x : Spec) (s : System) (o : Option (Resource ℕ))
    → Rest s x
    → Agrees o x
    → Sim (spec_act (inits rc) x) (init rc (at o s))
unfolding init spec_act
init-at rc x s none h a = tt
init-at rc x s (some r) h a = ground arith

close-at :
    (x : Spec) (s : System) (o : Option (Resource ℕ))
    → Rest s x
    → Agrees o x
    → Sim (spec_act closes x) (close (at o s))
unfolding close spec_act
close-at x s none h a = tt
close-at x s (some r) h a = ground arith

close_reset-at :
    (rc : ℤ) (x : Spec) (s : System) (o : Option (Resource ℕ))
    → Rest s x
    → Agrees o x
    → Sim (spec_act (closes_reset rc) x) (close_reset rc (at o s))
unfolding close_reset spec_act
close_reset-at rc x s none h a = tt
close_reset-at rc x s (some r) h a = ground arith

set_emitter-at :
    (f : Emitter EventType ℕ → Emitter EventType ℕ) (t : EventType → Option ℕ) (x : Spec)
    (s : System) (o : Option (Resource ℕ))
    → ((e : Emitter EventType ℕ) → e.handlers ≡ x.table → (f e).handlers ≡ t)
    → Rest s x
    → Agrees o x
    → Sim (record x { table = t }) (set_emitter f (at o s))
unfolding set_emitter
set_emitter-at f t x s none maps h a = tt
set_emitter-at f t x s (some r) maps h a = (h, (maps r.emitter a.0, a.1))

handlers-on :
    (t : EventType) (f : ℕ) (x : Spec) (e : Emitter EventType ℕ)
    → e.handlers ≡ x.table
    → (on EventType-discrete t f e).handlers ≡ put t (some f) x.table
unfolding on
handlers-on t f x e p = ap (put t (some f)) p

handlers-reset :
    (t : EventType) (x : Spec) (e : Emitter EventType ℕ)
    → e.handlers ≡ x.table
    → (reset EventType-discrete t e).handlers ≡ put t none x.table
unfolding reset
handlers-reset t x e p = ap (put t none) p

set_data-at :
    (d : Option ℕ) (x : Spec) (s : System) (o : Option (Resource ℕ))
    → Rest s x
    → Agrees o x
    → Sim (spec_act (sets_data d) x) (act (sets_data d) (at o s))
unfolding act spec_act set_data
set_data-at d x s none h a = tt
set_data-at d x s (some r) h a = (h, (a.0, refl))

drop_ref_of-Sim : (x : Spec) (s : System) → Refines s x → Sim (spec_act drop_ref x) (drop_ref_of s)
unfolding drop_ref_of spec_act
drop_ref_of-Sim x s h = elim (Bool-cases (ltb 0 s.held)) [
  | inl has ↦
      rw (has, drop_ref_of)
        (release_stream-Sim (record x { held = x.held - 1 }) (record s { held = s.held - 1 })
          ((h.0.0, ap (λ n. n - 1) h.0.1, h.0.2, h.0.3), h.1))
  | inr none_left ↦
      rw (none_left, drop_ref_of) ((h.0.0, ground (arith, none_left, h.0.1), h.0.2, h.0.3), h.1)
]

pub release_twice-Sim :
    (x : Spec) (s : System) → Refines s x → Sim x (release_stream s >>= release_stream)
release_twice-Sim x s h =
    Sim-bind x x (release_stream s) release_stream (release_stream-Sim x s h) (release_stream-Sim x)

release_new-Sim :
    (k : ReqKind) (rc : ℤ) (x : Spec) (s : System)
    → Refines s x
    → Sim (spec_act (submits k rc) x) (release_request k (leak_if rc (new_request k)).1 s)
unfolding release_request spec_act
release_new-Sim k rc x s h = elim (Bool-cases (is_zero rc)) [
  | inl ok ↦
      rw (release-leak_if rc k, ok, release_request)
        (
          (
            h.0.0,
            h.0.1,
            map-append (λ q. q.kind) s.requests (record { kind = k; base = held_request k } ∷ [])
                ∙ ap (λ l. l ++ k ∷ []) h.0.2,
            h.0.3,
          ),
          h.1,
        )
  | inr err ↦ rw (release-leak_if rc k, err, release_request) (release_twice-Sim x s h)
]

submit-Sim :
    (k : ReqKind) (rc : ℤ) (x : Spec) (s : System)
    → Refines s x
    → Sim (spec_act (submits k rc) x) (submit k rc s)
unfolding submit
submit-Sim k rc x s h = Sim-bind x _ (share_stream s) _ (share_stream-Sim x s h) λ s1 h1.
    Sim-bind x _ (share_stream s1) _ (share_stream-Sim x s1 h1) λ s2 h2.
      Sim-bind x _ (share_stream s2) _ (share_stream-Sim x s2 h2) λ s3 h3.
        Sim-bind x _ (release_stream s3) _ (release_stream-Sim x s3 h3) (release_new-Sim k rc x)

pub act-Sim : (a : Act) (x : Spec) (s : System) → Refines s x → Sim (spec_act a x) (act a s)
unfolding act spec_act
act-Sim take_ref x s h =
    share_stream-Sim (record x { held = x.held + 1 }) (record s { held = s.held + 1 })
      ((h.0.0, ap (λ n. n + 1) h.0.1, h.0.2, h.0.3), h.1)
act-Sim drop_ref x s h = drop_ref_of-Sim x s h
act-Sim closes x s h = close-at x s s.stream h.0 h.1
act-Sim (closes_reset rc) x s h = close_reset-at rc x s s.stream h.0 h.1
act-Sim (inits rc) x s h = init-at rc x s s.stream h.0 h.1
act-Sim (submits k rc) x s h = submit-Sim k rc x s h
act-Sim (listens t f) x s h = set_emitter-at _ _ x s s.stream (handlers-on t f x) h.0 h.1
act-Sim (resets t) x s h = set_emitter-at _ _ x s s.stream (handlers-reset t x) h.0 h.1
act-Sim (sets_data d) x s h = set_data-at d x s s.stream h.0 h.1

pub run_acts-Sim :
    (acts : List Act) (x : Spec) (s : System)
    → Refines s x
    → Sim (spec_acts acts x) (run_acts acts s)
unfolding run_acts spec_acts
run_acts-Sim [] x s h = h
run_acts-Sim (a ∷ acts) x s h =
    Sim-bind (spec_act a x) _ (act a s) (run_acts acts) (act-Sim a x s h)
      (run_acts-Sim acts (spec_act a x))
