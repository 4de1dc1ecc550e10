-- ===== src/Lifetime/Refine.antt =====
-- The handle with its shared pointers, its own pointer and its request objects refines Spec.
use uvw.Prelude.{
  subst, ◌≢◌, ℕ, zero, suc, ◌≡◌, refl, sym, ap, ◌∙◌, false, Option, none, some, List, [], ◌∷◌, ◌++◌,
  map, ℤ, ltb, ◌>>=◌, Bool-cases, Option-cases, inl, inr,
}
use uvw.Emitter.{quiet, Emitter, handler, publish}
use uvw.Event.{EventType, Event, close_event, type_of}
use uvw.Resource.{Resource, share, self_reset}
use uvw.Lifetime.{
  forward, ReqKind, answer, Forward, Request, UvState, inert, opened, closing, closed, System,
  created, share_stream, release_stream, release_request, Act, call, publish_stream, close_callback,
  request_callback, Move, user, answers, close_done, walked, closes, act, take_request, move, run,
}
use uvw.Resource.Owners.{self_reset-share, release_last}
use uvw.Lifetime.Ledger.{IsPending, Ledger}
use uvw.Lifetime.Safety.{event_handler}
use uvw.Lifetime.Reach.{take_request-Taken, Keeps-some, move-Keeps, run-created, created-Ledger}
use uvw.Lifetime.Spec.{Spec, start, take_kind, spec_publish, spec_move, spec_act, spec_run}
use uvw.Lifetime.Simulates.{
  Rest, Agrees, Refines, Sim, at, Sim-bind, release_stream-Sim, self_reset-Agrees,
  release_twice-Sim, act-Sim, run_acts-Sim,
}

-- Which request is answered is the same.
abbrev kinds : Option (Request × List Request) → Option (ReqKind × List ReqKind)
kinds none = none
kinds (some (q, rest)) = some (q.kind, map (λ p. p.kind) rest)

kinds-cons :
    (q : Request) (o : Option (Request × List Request))
    → kinds (o >>= λ (p, rest). some (p, q ∷ rest))
      ≡ (kinds o >>= λ (k, rest). some (k, q.kind ∷ rest))
kinds-cons q none = refl
kinds-cons q (some (p, rest)) = refl

kinds-take_request :
    (i : ℕ) (qs : List Request) → kinds (take_request i qs) ≡ take_kind i (map (λ q. q.kind) qs)
unfolding take_request take_kind
kinds-take_request i [] = refl
kinds-take_request zero (q ∷ qs) = refl
kinds-take_request (suc i) (q ∷ qs) =
    kinds-cons q (take_request i qs)
    ∙ ap (λ o. o >>= λ (k, rest). some (k, q.kind ∷ rest)) (kinds-take_request i qs)

module _ (body : ℕ → Event → List Act) where
  publish-Sim :
      (v : Event) (r : Resource ℕ) (x : Spec) (s : System)
      → Refines s x
      → r.emitter.handlers ≡ x.table
      → Sim (spec_publish body v x) (publish (call body) (type_of v) v r.emitter (some s))
  unfolding publish call spec_publish
  publish-Sim v r x s h e =
      let same : handler (type_of v) r.emitter ≡ x.table (type_of v) =
        unfold handler in ap (λ t. t (type_of v)) e in
      elim (Option-cases (handler (type_of v) r.emitter)) [
        | inl quiet ↦ rw (quiet, publish, sym same ∙ quiet, spec_publish) h
        | inr (f, loud) ↦
            rw (loud, publish, sym same ∙ loud, spec_publish)
              (run_acts-Sim (body f v) (record x { log = x.log ++ (f, v) ∷ [] })
                (record s { log = s.log ++ (f, v) ∷ [] })
                ((h.0.0, h.0.1, h.0.2, ap (λ l. l ++ (f, v) ∷ []) h.0.3), h.1))
      ]

  publish_at :
      (v : Event) (x : Spec) (s : System) (o : Option (Resource ℕ))
      → Rest s x
      → Agrees o x
      → Sim (spec_publish body v x) (publish_stream body v (at o s))
  unfolding publish_stream
  publish_at v x s none h a = tt
  publish_at v x s (some r) h a = publish-Sim v r x (at (some r) s) (h, a) a.0

  publish_stream-Sim :
      (v : Event) (x : Spec) (s : System)
      → Refines s x
      → Sim (spec_publish body v x) (publish_stream body v s)
  publish_stream-Sim v x s h = publish_at v x s s.stream h.0 h.1

  close_callback-at :
      (x : Spec) (s : System) (o : Option (Resource ℕ))
      → Rest s x
      → Agrees o x
      → Sim
          (spec_publish body close_event (record x { uv = closed }))
          (close_callback body (at o s))
  unfolding close_callback share_stream share
  close_callback-at x s none h a = tt
  close_callback-at x s (some r) h a =
      let y : Spec = record x { uv = closed } in
      let t : System = record s { stream = self_reset (share r); uv = closed } in
      Sim-bind (spec_publish body close_event y) _ (publish_stream body close_event t)
        release_stream
        (publish_stream-Sim close_event y t
          ((refl, h.1, h.2, h.3), self_reset-Agrees y (share r) a))
        (release_stream-Sim (spec_publish body close_event y))

  forward-Sim :
      (v : Event) (e : Emitter EventType Forward) (x : Spec) (s : System)
      → handler (type_of v) e ≡ some forward
      → Refines s x
      → Sim
          (spec_publish body v x)
          (publish (λ f w o. o >>= publish_stream body w) (type_of v) v e (some s))
  unfolding publish
  forward-Sim v e x s h r = rw (h, publish) (publish_stream-Sim v x s r)

  released-Sim :
      (k : ReqKind) (r : Resource Forward) (x : Spec) (s : System)
      → r.strong ≡ 1
      → Refines s x
      → Sim x (release_request k r s)
  unfolding release_request
  released-Sim k r x s e h = rw (release_last r e, release_request) (release_twice-Sim x s h)

  request_callback-Sim :
      (q : Request) (status : ℤ) (x : Spec) (s : System)
      → IsPending q
      → Refines s x
      → Sim
          (spec_publish body (answer q.kind status) x)
          (request_callback body q.kind q.base status s)
  unfolding request_callback
  request_callback-Sim q status x s p h = rw (self_reset-share q.base 0 p.0 p.1) (
      Sim-bind _ _ _ _
        (forward-Sim (answer q.kind status) q.base.emitter x s (event_handler q status p) h)
        (λ s' h'.
          released-Sim q.kind (record q.base { self_ptr = false })
            (spec_publish body (answer q.kind status) x) s' p.0 h'))

  answers-Sim :
      (i : ℕ) (status : ℤ) (x : Spec) (s : System)
      → Ledger 0 s
      → Refines s x
      → Sim (spec_move body (answers i status) x) (move body (answers i status) s)
  unfolding move spec_move
  answers-Sim i status x s l h =
      let same : kinds (take_request i s.requests) ≡ take_kind i x.pending =
        kinds-take_request i s.requests ∙ ap (take_kind i) h.0.2 in
      elim (Option-cases (take_request i s.requests)) [
        | inl gone ↦ rw (gone, move, sym same ∙ ap kinds gone, spec_move) h
        | inr ((q, rest), found) ↦
            let (p, left, n) = rw found at (take_request-Taken i s.requests l.pending) in
            rw (found, move, sym same ∙ ap kinds found, spec_move)
              (request_callback-Sim q status (record x { pending = map (λ p. p.kind) rest })
                (record s { requests = rest }) p ((h.0.0, h.0.1, refl, h.0.3), h.1))
      ]

  done-Sim :
      (u : UvState) (x : Spec) (s : System)
      → s.uv ≡ u
      → Refines s x
      → Sim (spec_move body close_done x) (move body close_done s)
  unfolding move spec_move
  done-Sim inert x s e h = rw (e, move, sym h.0.0 ∙ e, spec_move) h
  done-Sim opened x s e h = rw (e, move, sym h.0.0 ∙ e, spec_move) h
  done-Sim closing x s e h =
      rw (e, move, sym h.0.0 ∙ e, spec_move) (close_callback-at x s s.stream h.0 h.1)
  done-Sim closed x s e h = rw (e, move, sym h.0.0 ∙ e, spec_move) h

  closes_same : (u : UvState) (x : Spec) → x.uv ≡ u → u ≢ opened → spec_act closes x ≡ x
  unfolding spec_act
  closes_same inert x e n = rw (e, spec_act) refl
  closes_same opened x e n = absurd (n refl)
  closes_same closing x e n = rw (e, spec_act) refl
  closes_same closed x e n = rw (e, spec_act) refl

  walked-Sim :
      (u : UvState) (x : Spec) (s : System)
      → s.uv ≡ u
      → Refines s x
      → Sim (spec_move body walked x) (move body walked s)
  unfolding move spec_move act
  walked-Sim inert x s e h =
      rw (e, move) (subst (λ y. Refines s y) (sym (closes_same s.uv x (sym h.0.0) (λ p. cc))) h)
  walked-Sim opened x s e h = rw (e, move) (act-Sim closes x s h)
  walked-Sim closing x s e h = rw (e, move) (act-Sim closes x s h)
  walked-Sim closed x s e h =
      rw (e, move) (subst (λ y. Refines s y) (sym (closes_same s.uv x (sym h.0.0) (λ p. cc))) h)

  move-Sim :
      (m : Move) (x : Spec) (s : System)
      → Ledger 0 s
      → Refines s x
      → Sim (spec_move body m x) (move body m s)
  unfolding move spec_move
  move-Sim (user a) x s l h = elim (Bool-cases (ltb 0 s.held)) [
    | inl has ↦ rw (has, move, ap (ltb 0) (sym h.0.1) ∙ has, spec_move) (act-Sim a x s h)
    | inr unheld ↦ rw (unheld, move, ap (ltb 0) (sym h.0.1) ∙ unheld, spec_move) h
  ]
  move-Sim (answers i status) x s l h = answers-Sim i status x s l h
  move-Sim close_done x s l h = done-Sim s.uv x s refl h
  move-Sim walked x s l h = walked-Sim s.uv x s refl h

  run-Sim :
      (ms : List Move) (x : Spec) (s : System)
      → Ledger 0 s
      → Refines s x
      → Sim (spec_run body ms x) (run body ms s)
  unfolding run spec_run
  run-Sim [] x s l h = h
  run-Sim (m ∷ ms) x s l h =
      let (t, e, l') = Keeps-some (move body m s) (move-Keeps body m s l) in
      rw e (run-Sim ms (spec_move body m x) t l' (rw e at (move-Sim m x s l h)))

  -- The handle refines its specification, whatever its listeners do: after any moves it is in the
  -- specification's state of libuv, with as many pointers of the user, with requests of the same
  -- kinds, after the same calls of listeners, and as long as it is there with the same listeners and
  -- data. The specification knows of no reference count, so counting never shows.
  pub run-Refines :
      (ms : List Move)
      → (s : System) × (run body ms created ≡ some s) × Refines s (spec_run body ms start)
  unfolding created start quiet
  run-Refines ms =
      let (s, e, l) = run-created body ms in
      (
        s,
        e,
        rw e at (run-Sim ms start created created-Ledger ((refl, refl, refl, refl), (refl, refl))),
      )
