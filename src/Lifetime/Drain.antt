-- ===== src/Lifetime/Drain.antt =====
-- A handle that was closed and given up does not stay for ever: once libuv has answered what it owes,
-- the handle is gone.
use uvw.Prelude.{
  ℕ, ◌≡◌, refl, sym, ap, ◌∙◌, Bool, true, false, none, some, List, [], ◌∷◌, ◌++◌, map, ℤ, ◌>>=◌,
  length, length-map, All, arith, Option-cases, inl, inr,
}
use uvw.Event.{Event, close_event, type_of}
use uvw.Lifetime.{
  closes_reset, ReqKind, Request, answer, UvState, inert, opened, closing, closed, System, created,
  Act, take_ref, drop_ref, closes, inits, submits, listens, resets, sets_data, Move, answers,
  close_done, move, run,
}
use uvw.Lifetime.Ledger.{is_active}
use uvw.Lifetime.Reach.{destroyed_iff}
use uvw.Lifetime.Spec.{
  Spec, start, spec_act, spec_acts, take_kind, spec_publish, spec_move, spec_run,
}
use uvw.Lifetime.Simulates.{Refines}
use uvw.Lifetime.Refine.{run-Refines}

-- What a listener may do that gives the handle nothing new to wait for.
unfoldable pub calm : Act → Bool
calm take_ref = false
calm (inits rc) = false
calm (submits k rc) = false
calm drop_ref = true
calm closes = true
calm (closes_reset rc) = true
calm (listens t f) = true
calm (resets t) = true
calm (sets_data d) = true

unfoldable pub is_open : UvState → Bool
is_open opened = true
is_open inert = false
is_open closing = false
is_open closed = false

-- Given up, and closed or never initialised, with the requests `ks` unanswered.
pub record Winds (ks : List ReqKind) (u : UvState) (x : Spec) : Type 0 where
  pub unheld : x.held ≡ 0
  pub shut : is_open u ≡ false
  pub state : x.uv ≡ u
  pub left : x.pending ≡ ks

spec_act-Winds :
    (a : Act) (ks : List ReqKind) (u : UvState) (x : Spec)
    → calm a ≡ true
    → Winds ks u x
    → Winds ks u (spec_act a x)
unfolding spec_act calm is_open
spec_act-Winds take_ref ks u x c w = cc
spec_act-Winds (inits rc) ks u x c w = cc
spec_act-Winds (submits k rc) ks u x c w = cc
spec_act-Winds drop_ref ks u x c w = record {
  unheld = omega (arith, w.unheld);
  shut = w.shut;
  state = w.state;
  left = w.left;
}
spec_act-Winds closes ks u x c w = record {
  unheld = w.unheld;
  shut = w.shut;
  state = ground arith;
  left = w.left;
}
spec_act-Winds (closes_reset rc) ks u x c w = record {
  unheld = w.unheld;
  shut = w.shut;
  state = ground arith;
  left = w.left;
}
spec_act-Winds (listens t f) ks u x c w = record {
  unheld = w.unheld;
  shut = w.shut;
  state = w.state;
  left = w.left;
}
spec_act-Winds (resets t) ks u x c w = record {
  unheld = w.unheld;
  shut = w.shut;
  state = w.state;
  left = w.left;
}
spec_act-Winds (sets_data d) ks u x c w = record {
  unheld = w.unheld;
  shut = w.shut;
  state = w.state;
  left = w.left;
}

spec_acts-Winds :
    (acts : List Act) (ks : List ReqKind) (u : UvState) (x : Spec)
    → All (λ a. calm a ≡ true) acts
    → Winds ks u x
    → Winds ks u (spec_acts acts x)
unfolding spec_acts
spec_acts-Winds [] ks u x c w = w
spec_acts-Winds (a ∷ acts) ks u x c w =
    spec_acts-Winds acts ks u (spec_act a x) c.1 (spec_act-Winds a ks u x c.0 w)

pub run-append :
    (body : ℕ → Event → List Act) (ms ns : List Move) (s : System)
    → run body (ms ++ ns) s ≡ (run body ms s >>= run body ns)
unfolding run
run-append body [] ns s = refl
run-append body (m ∷ ms) ns s = elim (Option-cases (move body m s)) [
  | inl gone ↦ rw gone
  | inr (t, there) ↦ rw there (run-append body ms ns t)
]

pub spec_run-append :
    (body : ℕ → Event → List Act) (ms ns : List Move) (x : Spec)
    → spec_run body (ms ++ ns) x ≡ spec_run body ns (spec_run body ms x)
unfolding spec_run
spec_run-append body [] ns x = refl
spec_run-append body (m ∷ ms) ns x = spec_run-append body ms ns (spec_move body m x)

pub map-eq-nil : (qs : List Request) → map (λ q. q.kind) qs ≡ [] → qs ≡ []
map-eq-nil [] e = refl
map-eq-nil (q ∷ qs) e = cc

-- libuv answers the requests in the order in which they were made, and then the closing.
abbrev pub drain : List ℤ → List Move
drain statuses = map (answers 0) statuses ++ close_done ∷ []

module _ (body : ℕ → Event → List Act)
    (calm_body : (f : ℕ) (v : Event) → All (λ a. calm a ≡ true) (body f v)) where
  pub spec_publish-Winds :
      (v : Event) (ks : List ReqKind) (u : UvState) (x : Spec)
      → Winds ks u x
      → Winds ks u (spec_publish body v x)
  unfolding spec_publish
  spec_publish-Winds v ks u x w = elim (Option-cases (x.table (type_of v))) [
    | inl quiet ↦ rw (quiet, spec_publish) w
    | inr (f, loud) ↦
        rw (loud, spec_publish)
          (spec_acts-Winds (body f v) ks u (record x { log = x.log ++ (f, v) ∷ [] }) (calm_body f v)
            (record { unheld = w.unheld; shut = w.shut; state = w.state; left = w.left }))
  ]

  spec_run-drain :
      (statuses : List ℤ) (ks : List ReqKind) (u : UvState) (x : Spec)
      → length statuses ≡ length ks
      → Winds ks u x
      → (v : UvState) × (is_active v ≡ false) × Winds [] v (spec_run body (drain statuses) x)
  unfolding spec_run spec_move take_kind is_open
  spec_run-drain [] [] inert x n w = (inert, refl, rw (w.state, spec_move) w)
  spec_run-drain [] [] opened x n w = absurd (ground (arith, w.shut))
  spec_run-drain [] [] closing x n w = (
    closed,
    refl,
    rw (w.state, spec_move)
        (spec_publish-Winds close_event [] closed (record x { uv = closed })
          (record { unheld = w.unheld; shut = refl; state = refl; left = w.left })),
  )
  spec_run-drain [] [] closed x n w = (closed, refl, rw (w.state, spec_move) w)
  spec_run-drain [] (k ∷ ks) u x n w = absurd (omega arith)
  spec_run-drain (status ∷ rest) [] u x n w = absurd (omega arith)
  spec_run-drain (status ∷ rest) (k ∷ ks) u x n w =
      rw (w.left, spec_move)
        (spec_run-drain rest ks u (spec_publish body (answer k status) (record x { pending = ks }))
          (omega arith)
          (spec_publish-Winds (answer k status) ks u (record x { pending = ks })
            (record { unheld = w.unheld; shut = w.shut; state = w.state; left = refl })))

  pub seen_at :
      (ms : List Move) (s : System)
      → run body ms created ≡ some s
      → Refines s (spec_run body ms start)
  seen_at ms s e =
      let (s', e', sees) = run-Refines body ms in let same : s' ≡ s = cc in rw same at sees

  pub winds :
      (ms : List Move) (s : System)
      → run body ms created ≡ some s
      → s.held ≡ 0
      → is_open s.uv ≡ false
      → Winds (spec_run body ms start).pending s.uv (spec_run body ms start)
  winds ms s e unheld shut = record {
    unheld = sym (seen_at ms s e).0.1 ∙ unheld;
    shut = shut;
    state = sym (seen_at ms s e).0.0;
    left = refl;
  }

  -- Where no listener submits, initialises or keeps anything, a handle to which the user has no
  -- pointer left, and which is closed, closing or was never opened, is destroyed, with its requests,
  -- once libuv has answered each request, with whatever status, and the closing.
  pub drained :
      (ms : List Move) (s : System) (statuses : List ℤ)
      → run body ms created ≡ some s
      → s.held ≡ 0
      → is_open s.uv ≡ false
      → length statuses ≡ length s.requests
      → (t : System) × (run body (drain statuses) s ≡ some t)
        × (t.stream ≡ none)
        × (t.requests ≡ [])
  unfolding is_open
  drained ms s statuses e unheld shut n =
      let x = spec_run body ms start in
      let (t, done, seen) = run-Refines body (ms ++ drain statuses) in
      let (v, unowed, w) =
        spec_run-drain statuses x.pending s.uv x
          (n ∙ sym (length-map s.requests (λ q. q.kind)) ∙ ap length (seen_at ms s e).0.2)
          (winds ms s e unheld shut) in
      let seen_end : Refines t (spec_run body (drain statuses) x) =
        rw (spec_run-append body ms (drain statuses) start) at seen in
      let gone = destroyed_iff body (ms ++ drain statuses) t done in
      let none_left = map-eq-nil t.requests (seen_end.0.2 ∙ w.left) in
      (
        t,
        rw (run-append body ms (drain statuses) created, e) at done,
        gone.1 (seen_end.0.1 ∙ w.unheld, ap is_active (seen_end.0.0 ∙ w.state) ∙ unowed, none_left),
        none_left,
      )
