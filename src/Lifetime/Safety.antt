-- ===== src/Lifetime/Safety.antt =====
-- No move of the user or of libuv uses a destroyed object, and a handle is destroyed exactly when
-- nobody owns it.
use uvw.Prelude.{
  ℕ, suc, ◌-◌, ◌≡◌, refl, false, Option, none, some, List, ℤ, is_zero, ◌>>=◌, arith, All,
  Bool-cases, Option-cases, inl, inr,
}
use uvw.Emitter.{Emitter, handler, publish}
use uvw.Event.{EventType, Event, close_event, type_of}
use uvw.Resource.{Resource, share, self_reset}
use uvw.Resource.Owners.{self_reset-share, release_last}
use uvw.Lifetime.{
  ReqKind, Forward, forward, Request, closing, closed, System, share_stream, release_stream,
  release_request, answer, Act, call, publish_stream, close_callback, request_callback,
}
use uvw.Lifetime.Ledger.{
  IsPending, Books, Ledger, Keeps, at, Keeps-bind, release_stream-Keeps, release_twice-Keeps,
}
use uvw.Lifetime.Acts.{run_acts-Keeps}

-- Both listeners of a pending request forward to the handle.
pub event_handler :
    (q : Request) (status : ℤ)
    → IsPending q
    → handler (type_of (answer q.kind status)) q.base.emitter ≡ some forward
unfolding answer
event_handler q status p = elim (Bool-cases (is_zero status)) [
  | inl ok ↦ rw ok p.3
  | inr err ↦ rw err (unfold type_of in p.2)
]

module _ (body : ℕ → Event → List Act) where
  log_at :
      (g : ℕ) (s : System) (l : List (ℕ × Event)) (o : Option (Resource ℕ))
      → Books g s o
      → Books g (record s { log = l; stream = o }) o
  log_at g s l none b = record { unheld = b.unheld; unowed = b.unowed; idle = b.idle }
  log_at g s l (some r) b = record { counted = b.counted; alive = b.alive; owed = b.owed }

  call-Keeps :
      (g f : ℕ) (v : Event) (s : System) → Ledger (suc g) s → Keeps (suc g) (call body f v (some s))
  unfolding call
  call-Keeps g f v s l =
      run_acts-Keeps g (body f v) _
        (record { books = log_at (suc g) s _ s.stream l.books; pending = l.pending })

  publish-Keeps :
      (g : ℕ) (v : Event) (e : Emitter EventType ℕ) (s : System)
      → Ledger (suc g) s
      → Keeps (suc g) (publish (call body) (type_of v) v e (some s))
  unfolding publish
  publish-Keeps g v e s l = elim (Option-cases (handler (type_of v) e)) [
    | inl h ↦ rw (h, publish) l
    | inr (f, h) ↦ rw (h, publish) (call-Keeps g f v s l)
  ]

  publish_at :
      (g : ℕ) (v : Event) (s : System) (o : Option (Resource ℕ))
      → Books (suc g) s o
      → Ledger (suc g) (at o s)
      → Keeps (suc g) (publish_stream body v (at o s))
  unfolding publish_stream
  publish_at g v s none b l = absurd (omega arith)
  publish_at g v s (some r) b l = publish-Keeps g v r.emitter (at (some r) s) l

  publish_stream-Keeps :
      (g : ℕ) (v : Event) (s : System) → Ledger (suc g) s → Keeps (suc g) (publish_stream body v s)
  publish_stream-Keeps g v s l = publish_at g v s s.stream l.books l

  close-at :
      (s : System) (o : Option (Resource ℕ))
      → Books 0 s o
      → All IsPending s.requests
      → s.uv ≡ closing
      → Keeps 0 (close_callback body (at o s))
  unfolding close_callback share_stream
  close-at s none b p e = ground arith
  close-at s (some r) b p e =
      Keeps-bind 1 0
        (publish_stream body close_event (record s { stream = self_reset (share r); uv = closed }))
        release_stream
        (publish_stream-Keeps 0 close_event
          (record s { stream = self_reset (share r); uv = closed })
          (rw (self_reset-share r (r.strong - 1) (omega (arith, b.alive)) (ground arith)) (record {
            books = record { counted = ground arith; alive = b.alive; owed = refl };
            pending = p;
          })))
        (release_stream-Keeps 0)

  pub close_callback-Keeps :
      (s : System) → Ledger 0 s → s.uv ≡ closing → Keeps 0 (close_callback body s)
  close_callback-Keeps s l e = close-at s s.stream l.books l.pending e

  -- The pointers that the answered request captured guard the handle while its event is published.
  forward-Keeps :
      (v : Event) (e : Emitter EventType Forward) (s : System)
      → handler (type_of v) e ≡ some forward
      → Ledger 2 s
      → Keeps 2 (publish (λ f w o. o >>= publish_stream body w) (type_of v) v e (some s))
  unfolding publish
  forward-Keeps v e s h l = rw (h, publish) (publish_stream-Keeps 1 v s l)

  released-Keeps :
      (k : ReqKind) (r : Resource Forward) (s : System)
      → r.strong ≡ 1
      → Ledger 2 s
      → Keeps 0 (release_request k r s)
  unfolding release_request
  released-Keeps k r s e l = rw (release_last r e, release_request) (release_twice-Keeps 0 s l)

  pub request_callback-Keeps :
      (q : Request) (status : ℤ) (s : System)
      → IsPending q
      → Ledger 2 s
      → Keeps 0 (request_callback body q.kind q.base status s)
  unfolding request_callback
  request_callback-Keeps q status s p l = rw (self_reset-share q.base 0 p.0 p.1) (
      Keeps-bind 2 0 _ _
        (forward-Keeps (answer q.kind status) q.base.emitter s (event_handler q status p) l)
        λ s' l'. released-Keeps q.kind (record q.base { self_ptr = false }) s' p.0 l')
