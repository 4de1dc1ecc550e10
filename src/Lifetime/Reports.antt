-- ===== src/Lifetime/Reports.antt =====
-- What the user's listeners are told, after any moves of the user and of libuv.
use uvw.Prelude.{
  ℕ, suc, ◌+◌, ◌≡◌, refl, ◌∙◌, Bool, true, false, if◌then◌else◌, is_zero, Option, none, some, List,
  [], ◌∷◌, ◌++◌, ltb, ℤ, arith, Bool-cases, Option-cases, inl, inr, ap,
}
use uvw.Emitter.{handler, to_error_event}
use uvw.Event.{
  Event, type_of, close_event, connect_event, shutdown_event, write_event, send_event, error_event,
}
use uvw.Resource.{Resource, self_reset, share, release}
use uvw.Lifetime.{
  ReqKind, connect_req, shutdown_req, write_req, send_req, success, answer, Request, UvState, inert,
  opened, closing, closed, System, share_stream, release_stream, Act, act, publish_stream,
  close_callback, request_callback, Move, user, answers, close_done, walked, close, closes, act,
  take_request, move, run, created,
}
use uvw.Lifetime.Ledger.{Ledger}
use uvw.Lifetime.Reach.{Ledger-run, move-Keeps, Keeps-some, take_request-Taken}
use uvw.Lifetime.Delivery.{
  Kept, calls, Logged, listener, act-Kept, release_stream-Kept, publish_stream-Logged,
  request_callback-Logged, Logged-bind,
}

-- The calls of listeners for the close event.
unfoldable pub closes_in : List (ℕ × Event) → ℕ
closes_in [] = 0
closes_in ((f, close_event) ∷ l) = suc (closes_in l)
closes_in (_ ∷ l) = closes_in l

closes_in-append : (k l : List (ℕ × Event)) → closes_in (k ++ l) ≡ closes_in k + closes_in l
unfolding closes_in
closes_in-append [] l = omega arith
closes_in-append ((f, v) ∷ k) l = ground (arith, closes_in-append k l)

-- An answered request does not report the closing of the handle.
closes_in-answer :
    (o : Option ℕ) (k : ReqKind) (status : ℤ) → closes_in (calls o (answer k status)) ≡ 0
unfolding closes_in answer success
closes_in-answer none k status = refl
closes_in-answer (some f) k status = ground arith

-- How often a registered listener is called: once, if there is one.
unfoldable pub registered : Option ℕ → ℕ
registered none = 0
registered (some f) = 1

closes_in-close : (o : Option ℕ) → closes_in (calls o close_event) ≡ registered o
unfolding closes_in registered
closes_in-close none = refl
closes_in-close (some f) = refl

-- Whether a move is the close callback of a handle that is closing.
unfoldable pub is_close : Move → UvState → Bool
is_close close_done closing = true
is_close _ _ = false

-- `n` calls more of listeners for the close event.
abbrev Tells : ℕ → System → Option System → Type 0
Tells n s none = Unit
Tells n s (some t) = closes_in t.log ≡ closes_in s.log + n

Kept-Tells : (s : System) (o : Option System) → Kept s o → Tells 0 s o
Kept-Tells s none k = tt
Kept-Tells s (some t) k = omega (arith, ap closes_in k)

Logged-Tells :
    (l : List (ℕ × Event)) (n : ℕ) (s : System) (o : Option System)
    → closes_in l ≡ n
    → Logged l s o
    → Tells n s o
Logged-Tells l n s none h k = tt
Logged-Tells l n s (some t) h k = omega (arith, ap closes_in k, closes_in-append s.log l, h)

self_reset-emitter : (r r' : Resource ℕ) → self_reset r ≡ some r' → r'.emitter ≡ r.emitter
unfolding self_reset release
self_reset-emitter r r' e = ground (arith, e)

module _ (body : ℕ → Event → List Act) where
  close-at :
      (s : System) (o : Option (Resource ℕ))
      → Tells
          (registered (listener close_event o))
          s
          (close_callback body (record s { stream = o }))
  unfolding close_callback share_stream
  close-at s none = tt
  close-at s (some r) =
      let t : System = record s { stream = self_reset (share r); uv = closed } in
      let told = calls (listener close_event t.stream) close_event in
      elim (Option-cases (self_reset (share r))) [
        | inl gone ↦ rw (gone, publish_stream) tt
        | inr (r', there) ↦
            Logged-Tells told _ t _
              (closes_in-close (listener close_event t.stream)
                ∙ ap (λ o. registered (listener close_event o)) there
                ∙ ap (λ e. registered (handler (type_of close_event) e))
                    (self_reset-emitter (share r) r' there))
              (Logged-bind told t (publish_stream body close_event t) release_stream
                (publish_stream-Logged body close_event t) release_stream-Kept)
      ]

  abbrev MoveTells : Move → System → Type 0
  MoveTells m s =
      Tells (if is_close m s.uv then registered (listener close_event s.stream) else 0) s
        (move body m s)

  done-Tells : (u : UvState) (s : System) → s.uv ≡ u → MoveTells close_done s
  unfolding move is_close
  done-Tells inert s e = rw (e, move, is_close) (omega arith)
  done-Tells opened s e = rw (e, move, is_close) (omega arith)
  done-Tells closing s e = rw (e, move, is_close) (close-at s s.stream)
  done-Tells closed s e = rw (e, move, is_close) (omega arith)

  walked-Tells : (u : UvState) (s : System) → s.uv ≡ u → MoveTells walked s
  unfolding move act is_close
  walked-Tells inert s e = rw (e, move) (omega arith)
  walked-Tells opened s e = rw (e, move) (Kept-Tells s (close s) (act-Kept closes s))
  walked-Tells closing s e = rw (e, move) (Kept-Tells s (close s) (act-Kept closes s))
  walked-Tells closed s e = rw (e, move) (omega arith)

  answers-Tells : (i : ℕ) (status : ℤ) (s : System) → Ledger 0 s → MoveTells (answers i status) s
  unfolding move is_close
  answers-Tells i status s l = elim (Option-cases (take_request i s.requests)) [
    | inl gone ↦ rw (gone, move) (omega arith)
    | inr ((q, rest), found) ↦
        let (p, left, n) = rw found at (take_request-Taken i s.requests l.pending) in
        let r = record s { requests = rest } in
        rw (found, move)
          (Logged-Tells _ 0 r (request_callback body q.kind q.base status r)
            (closes_in-answer (listener (answer q.kind status) s.stream) q.kind status)
            (request_callback-Logged body q status r p))
  ]

  move-Tells : (m : Move) (s : System) → Ledger 0 s → MoveTells m s
  unfolding move is_close
  move-Tells (user a) s l = elim (Bool-cases (ltb 0 s.held)) [
    | inl has ↦ rw (has, move) (Kept-Tells s (act a s) (act-Kept a s))
    | inr not ↦ rw (not, move) (omega arith)
  ]
  move-Tells (answers i status) s l = answers-Tells i status s l
  move-Tells close_done s l = done-Tells s.uv s refl
  move-Tells walked s l = walked-Tells s.uv s refl

  -- Whatever moves led to where a handle is, and whatever its listeners do: when libuv calls the
  -- close callback of a handle that is closing, the listener for the close event is called once, if
  -- one is registered then; and no other move of the user or of libuv calls a listener for it.
  pub close_event_once :
      (ms : List Move) (s : System) (m : Move)
      → run body ms created ≡ some s
      → (t : System) × (move body m s ≡ some t)
        × (closes_in t.log
            ≡ closes_in s.log
              + (if is_close m s.uv then registered (listener close_event s.stream) else 0))
  close_event_once ms s m e =
      let l = Ledger-run body ms s e in
      let (t, done, _) = Keeps-some _ (move-Keeps body m s l) in
      (t, done, rw done at (move-Tells m s l))

  -- When libuv answers a request with a status of 0, the handle's listener for the connect, shutdown,
  -- write or send event is called once, as the request's kind has it; with another status its
  -- listener for the error event is, with the error that the status says. Where none is registered
  -- none is called, and no other listener is.
  pub answered_once :
      (ms : List Move) (s : System) (i : ℕ) (status : ℤ) (q : Request) (rest : List Request)
      → run body ms created ≡ some s
      → take_request i s.requests ≡ some (q, rest)
      → let v : Event =
          if is_zero status
          then elim q.kind [
            | connect_req ↦ connect_event
            | shutdown_req ↦ shutdown_event
            | write_req ↦ write_event
            | send_req ↦ send_event
          ]
          else error_event (to_error_event status) in
        (t : System) × (move body (answers i status) s ≡ some t)
        × (t.log ≡ s.log ++ calls (listener v s.stream) v)
  unfolding move answer success
  answered_once ms s i status q rest e found =
      let l = Ledger-run body ms s e in
      let (p, left, n) = rw found at (take_request-Taken i s.requests l.pending) in
      let (t, done, l') = Keeps-some _ (move-Keeps body (answers i status) s l) in
      (
        t,
        done,
        logged t (rw (found, move) at done)
            (request_callback-Logged body q status (record s { requests = rest }) p),
      )
    where
      logged :
          (t : System)
          → request_callback body q.kind q.base status (record s { requests = rest }) ≡ some t
          → Logged
              (calls (listener (answer q.kind status) s.stream) (answer q.kind status))
              (record s { requests = rest })
              (request_callback body q.kind q.base status (record s { requests = rest }))
          → t.log ≡ s.log ++ calls (listener (answer q.kind status) s.stream) (answer q.kind status)
      logged t e h = rw e at h
