-- ===== src/Lifetime/Delivery.antt =====
-- Which listeners are called, and how often.
use uvw.Prelude.{
  ℕ, ◌+◌, ◌≡◌, refl, sym, ◌∙◌, Option, none, some, List, [], ◌∷◌, ◌++◌, ℤ, ◌>>=◌, arith,
  Option-cases, inl, inr,
}
use mathlib.Core.List.{append-nil}
use uvw.Emitter.{Emitter, handler, publish}
use uvw.Event.{EventType, Event, type_of}
use uvw.Resource.{Resource, release}
use uvw.Lifetime.Ledger.{IsPending}
use uvw.Resource.Owners.{self_reset-share}
use uvw.Lifetime.Safety.{event_handler}
use uvw.Lifetime.{
  closes_reset, close_reset, forward, ReqKind, answer, Forward, Request, System, share_stream,
  release_stream, init, close, release_request, submit, set_emitter, drop_ref_of, Act, take_ref,
  drop_ref, closes, inits, submits, listens, resets, sets_data, act, run_acts, call, publish_stream,
  request_callback,
}

-- The user's code itself calls no listener.
abbrev pub Kept : System → Option System → Type 0
Kept s none = Unit
Kept s (some t) = t.log ≡ s.log

Kept-bind :
    (s : System) (m : Option System) (f : System → Option System)
    → Kept s m
    → ((t : System) → Kept t (f t))
    → Kept s (m >>= f)
Kept-bind s none f k step = tt
Kept-bind s (some t) f k step = go (f t) (step t)
  where
    go : (o : Option System) → Kept t o → Kept s o
    go none h = tt
    go (some u) h = h ∙ k

share_stream-Kept : (s : System) → Kept s (share_stream s)
unfolding share_stream
share_stream-Kept s = ground arith

pub release_stream-Kept : (s : System) → Kept s (release_stream s)
unfolding release_stream
release_stream-Kept s = ground arith

init-Kept : (rc : ℤ) (s : System) → Kept s (init rc s)
unfolding init
init-Kept rc s = ground arith

close-Kept : (s : System) → Kept s (close s)
unfolding close
close-Kept s = ground arith

close_reset-Kept : (rc : ℤ) (s : System) → Kept s (close_reset rc s)
unfolding close_reset
close_reset-Kept rc s = ground arith

set_emitter-Kept :
    (f : Emitter EventType ℕ → Emitter EventType ℕ) (s : System) → Kept s (set_emitter f s)
unfolding set_emitter
set_emitter-Kept f s = ground arith

drop_ref_of-Kept : (s : System) → Kept s (drop_ref_of s)
unfolding drop_ref_of
drop_ref_of-Kept s = ground arith

release_request-Kept :
    (k : ReqKind) (r : Resource Forward) (s : System) → Kept s (release_request k r s)
unfolding release_request
release_request-Kept k r s = elim (Option-cases (release r)) [
  | inl last ↦
      rw (last, release_request)
        (Kept-bind s (release_stream s) release_stream (release_stream-Kept s) release_stream-Kept)
  | inr (r', more) ↦ rw (more, release_request) refl
]

submit-Kept : (k : ReqKind) (rc : ℤ) (s : System) → Kept s (submit k rc s)
unfolding submit
submit-Kept k rc s = Kept-bind s (share_stream s) _ (share_stream-Kept s) λ s1.
    Kept-bind s1 (share_stream s1) _ (share_stream-Kept s1) λ s2.
      Kept-bind s2 (share_stream s2) _ (share_stream-Kept s2)
        λ s3. Kept-bind s3 (release_stream s3) _ (release_stream-Kept s3) (release_request-Kept k _)

pub act-Kept : (a : Act) (s : System) → Kept s (act a s)
unfolding act
act-Kept take_ref s = share_stream-Kept (record s { held = s.held + 1 })
act-Kept drop_ref s = drop_ref_of-Kept s
act-Kept closes s = close-Kept s
act-Kept (inits rc) s = init-Kept rc s
act-Kept (closes_reset rc) s = close_reset-Kept rc s
act-Kept (submits k rc) s = submit-Kept k rc s
act-Kept (listens t f) s = set_emitter-Kept _ s
act-Kept (resets t) s = set_emitter-Kept _ s
act-Kept (sets_data d) s = ground arith

pub run_acts-Kept : (acts : List Act) (s : System) → Kept s (run_acts acts s)
unfolding run_acts
run_acts-Kept [] s = refl
run_acts-Kept (a ∷ acts) s =
    Kept-bind s (act a s) (run_acts acts) (act-Kept a s) (run_acts-Kept acts)

-- The calls that publishing `v` makes, by the listener that is registered.
abbrev pub calls : Option ℕ → Event → List (ℕ × Event)
calls none v = []
calls (some f) v = (f, v) ∷ []

-- As `Kept`, after the calls `l` were logged.
abbrev pub Logged : List (ℕ × Event) → System → Option System → Type 0
Logged l s none = Unit
Logged l s (some t) = t.log ≡ s.log ++ l

abbrev pub listener : Event → Option (Resource ℕ) → Option ℕ
listener v o = o >>= λ r. handler (type_of v) r.emitter

pub Logged-bind :
    (l : List (ℕ × Event)) (s : System) (m : Option System) (f : System → Option System)
    → Logged l s m
    → ((t : System) → Kept t (f t))
    → Logged l s (m >>= f)
Logged-bind l s none f k step = tt
Logged-bind l s (some t) f k step = go (f t) (step t)
  where
    go : (o : Option System) → Kept t o → Logged l s o
    go none h = tt
    go (some u) h = h ∙ k

-- A log that is longer before the code of a listener runs.
Logged-call :
    (f : ℕ) (v : Event) (s : System) (o : Option System)
    → Kept (record s { log = s.log ++ (f, v) ∷ [] }) o
    → Logged ((f, v) ∷ []) s o
Logged-call f v s none k = tt
Logged-call f v s (some t) k = k

module _ (body : ℕ → Event → List Act) where
  publish-Logged :
      (v : Event) (e : Emitter EventType ℕ) (s : System)
      → Logged (calls (handler (type_of v) e) v) s (publish (call body) (type_of v) v e (some s))
  unfolding publish call
  publish-Logged v e s = elim (Option-cases (handler (type_of v) e)) [
    | inl h ↦ rw (h, publish) (sym (append-nil s.log))
    | inr (f, h) ↦
        rw (h, publish)
          (Logged-call f v s _ (run_acts-Kept (body f v) (record s { log = s.log ++ (f, v) ∷ [] })))
  ]

  publish_at :
      (v : Event) (s : System) (o : Option (Resource ℕ))
      → Logged
          (calls (listener v o) v)
          (record s { stream = o })
          (publish_stream body v (record s { stream = o }))
  unfolding publish_stream
  publish_at v s none = tt
  publish_at v s (some r) = publish-Logged v r.emitter (record s { stream = some r })

  pub publish_stream-Logged :
      (v : Event) (s : System) → Logged (calls (listener v s.stream) v) s (publish_stream body v s)
  publish_stream-Logged v s = publish_at v s s.stream

  forward-Logged :
      (v : Event) (e : Emitter EventType Forward) (s : System)
      → handler (type_of v) e ≡ some forward
      → Logged
          (calls (listener v s.stream) v)
          s
          (publish (λ f w o. o >>= publish_stream body w) (type_of v) v e (some s))
  unfolding publish
  forward-Logged v e s h = rw (h, publish) (publish_stream-Logged v s)

  -- The callback of a pending request calls the handle's listener for the event that the status
  -- calls for, and no other.
  pub request_callback-Logged :
      (q : Request) (status : ℤ) (s : System)
      → IsPending q
      → let v = answer q.kind status in
        Logged (calls (listener v s.stream) v) s (request_callback body q.kind q.base status s)
  unfolding request_callback
  request_callback-Logged q status s p = rw (self_reset-share q.base 0 p.0 p.1) (
      Logged-bind _ s _ _
        (forward-Logged (answer q.kind status) q.base.emitter s (event_handler q status p))
        (release_request-Kept q.kind _))
