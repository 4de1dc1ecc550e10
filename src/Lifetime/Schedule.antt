-- ===== src/Lifetime/Schedule.antt =====
-- libuv may answer what it owes a handle in any order. A handle that was closed and given up is gone
-- after as many answers as libuv owes, whichever comes first.
use uvw.Prelude.{
  false≢true, ℕ, suc, ◌+◌, ◌≡◌, refl, sym, ap, subst, ◌∙◌, ◌↔◌, true, false, Option, none, some,
  List, [], ◌∷◌, ◌++◌, ℤ, to_nat, length, length-map, All, arith, Bool-cases, inl, inr,
}
use mathlib.Core.List.{append-nil, append_assoc}
use uvw.Event.{Event, close_event}
use uvw.Lifetime.{
  ReqKind, answer, UvState, closing, closed, System, created, Act, Move, user, answers, close_done,
  walked, move, run,
}
use uvw.Lifetime.Ledger.{is_active}
use uvw.Lifetime.Reach.{run-created, destroyed_iff}
use uvw.Lifetime.Spec.{Spec, start, take_kind, spec_move, spec_run}
use uvw.Lifetime.Simulates.{Refines}
use uvw.Lifetime.Due.{
  is_closing, due, is_due, all_due, take_kind-map, closing_of_is_closing, due-Refines, due-settled,
}
use uvw.Lifetime.Drain.{
  calm, is_open, Winds, spec_publish-Winds, seen_at, winds, run-append, spec_run-append,
}

-- Given up and shut, with `n` answers to come.
record Ends (n : ℕ) (x : Spec) : Type 0 where
  unheld : x.held ≡ 0
  shut : is_open x.uv ≡ false
  left : n ≡ length x.pending + to_nat (is_closing x.uv)

Winds-Ends :
    (n : ℕ) (ks : List ReqKind) (u : UvState) (x : Spec)
    → n ≡ length ks + to_nat (is_closing u)
    → Winds ks u x
    → Ends n x
Winds-Ends n ks u x e w = record {
  unheld = w.unheld;
  shut = ap is_open w.state ∙ w.shut;
  left =
      e
      ∙ ap (λ l. length l + to_nat (is_closing u)) (sym w.left)
      ∙ ap (λ v. length x.pending + to_nat (is_closing v)) (sym w.state);
}

module _ (body : ℕ → Event → List Act)
    (calm_body : (f : ℕ) (v : Event) → All (λ a. calm a ≡ true) (body f v)) where
  answers-Ends :
      (i : ℕ) (status : ℤ) (n : ℕ) (k : ReqKind) (ks : List ReqKind) (x : Spec)
      → take_kind i x.pending ≡ some (k, ks)
      → length x.pending ≡ suc (length ks)
      → Ends n x
      → Ends (length ks + to_nat (is_closing x.uv)) (spec_move body (answers i status) x)
  unfolding spec_move
  answers-Ends i status n k ks x e l w =
      rw (e, spec_move)
        (Winds-Ends _ ks x.uv _ refl (
          spec_publish-Winds body calm_body (answer k status) ks x.uv (record x { pending = ks })
            (record { unheld = w.unheld; shut = w.shut; state = refl; left = refl })))

  close_done-Ends :
      (n : ℕ) (x : Spec)
      → x.uv ≡ closing
      → Ends n x
      → Ends (length x.pending) (spec_move body close_done x)
  unfolding spec_move is_open is_closing
  close_done-Ends n x e w =
      rw (e, spec_move)
        (Winds-Ends _ x.pending closed _ (omega arith) (
          spec_publish-Winds body calm_body close_event x.pending closed (record x { uv = closed })
            (record { unheld = w.unheld; shut = refl; state = refl; left = refl })))

  -- A move with a reason leaves one answer less.
  move-Ends :
      (m : Move) (n : ℕ) (s : System) (x : Spec)
      → Refines s x
      → is_due m s ≡ true
      → Ends n x
      → (k : ℕ) × (n ≡ suc k) × Ends k (spec_move body m x)
  unfolding is_due
  move-Ends (user a) n s x h d w = cc
  move-Ends walked n s x h d w = cc
  move-Ends (answers i status) n s x h d w =
      let (k, ks, e, l) = take_kind-map i s.requests d in
      let n_pending : length x.pending ≡ suc (length ks) =
        sym (ap length h.0.2) ∙ length-map s.requests (λ q. q.kind) ∙ l in
      (
        length ks + to_nat (is_closing x.uv),
        omega (arith, w.left, n_pending),
        answers-Ends i status n k ks x (sym (ap (take_kind i) h.0.2) ∙ e) n_pending w,
      )
  move-Ends close_done n s x h d w =
      let e : x.uv ≡ closing = sym h.0.0 ∙ closing_of_is_closing s.uv d in
      (length x.pending, w.left ∙ (rw e (omega arith)), close_done-Ends n x e w)

  -- Moves with a reason, from a state that the moves `ms` have led to.
  next_due :
      (m : Move) (ns : List Move) (s : System)
      → all_due body (m ∷ ns) s ≡ true
      → (is_due m s ≡ true) × ((t : System) × (move body m s ≡ some t) × (all_due body ns t ≡ true))
  unfolding all_due
  next_due m ns s h = elim (Bool-cases (is_due m s)) [
    | inl reason ↦ (reason, then_due (move body m s) refl (rw (reason, all_due) at h))
    | inr idle ↦ absurd (false≢true (rw (idle, all_due) at h))
  ]
    where
      then_due :
          (o : Option System)
          → move body m s ≡ o
          → (elim o [ none ↦ false | some t ↦ all_due body ns t ]) ≡ true
          → (t : System) × (move body m s ≡ some t) × (all_due body ns t ≡ true)
      then_due none e k = absurd (false≢true k)
      then_due (some t) e k = (t, e, k)

  run-Ends :
      (ns ms : List Move) (n : ℕ) (s : System)
      → run body ms created ≡ some s
      → Ends n (spec_run body ms start)
      → all_due body ns s ≡ true
      → (k : ℕ) × (k + length ns ≡ n) × Ends k (spec_run body (ms ++ ns) start)
  unfolding all_due run spec_run
  run-Ends [] ms n s e w h = (n, omega arith, rw append-nil w)
  run-Ends (m ∷ ns) ms n s e w h =
      let (reason, (t, there, rest)) = next_due m ns s h in
      let (k, eq, w_next) = move-Ends m n s _ (seen_at body calm_body ms s e) reason w in
      let e_next : run body (ms ++ m ∷ []) created ≡ some t =
        run-append body ms (m ∷ []) created ∙ rw e (rw there refl) in
      let w_seen : Ends k (spec_run body (ms ++ m ∷ []) start) =
        rw (spec_run-append body ms (m ∷ []) start) w_next in
      let (j, eq', w_end) = run-Ends ns (ms ++ m ∷ []) k t e_next w_seen rest in
      (
        j,
        omega (arith, eq, eq'),
        subst (λ l. Ends j (spec_run body l start)) (append_assoc ms (m ∷ []) ns) w_end,
      )

  -- What such answers leave.
  pub record Left (n : ℕ) (s : System) : Type 0 where
    pub counted : due s ≡ n
    pub unheld : s.held ≡ 0
    pub shut : is_open s.uv ≡ false
    pub gone : (s.stream ≡ none) ↔ (due s ≡ 0)
    pub settled_ : (due s ≡ 0) ↔ ((is_active s.uv ≡ false) × (s.requests ≡ []))

  Ends-Left :
      (ms : List Move) (s : System) (n : ℕ)
      → run body ms created ≡ some s
      → Ends n (spec_run body ms start)
      → Left n s
  Ends-Left ms s n e w =
      let seen = seen_at body calm_body ms s e in
      let exact = destroyed_iff body ms s e in
      let shut_s : is_open s.uv ≡ false = ap is_open seen.0.0 ∙ w.shut in
      let settles = due-settled s shut_s in
      record {
        counted = due-Refines s _ seen ∙ sym w.left;
        unheld = seen.0.1 ∙ w.unheld;
        shut = shut_s;
        gone = (
          λ g. let (_, unowed, idle) = exact.0 g in settles.1 (unowed, idle),
          λ none_due.
              let (unowed, idle) = settles.0 none_due in
              exact.1 (seen.0.1 ∙ w.unheld, unowed, idle),
        );
        settled_ = settles;
      }

  pub answers-Left :
      (ms ns : List Move) (s : System)
      → run body ms created ≡ some s
      → s.held ≡ 0
      → is_open s.uv ≡ false
      → all_due body ns s ≡ true
      → (t : System) × (n : ℕ) × (run body ns s ≡ some t)
        × (run body (ms ++ ns) created ≡ some t)
        × (n + length ns ≡ due s)
        × Left n t
  answers-Left ms ns s e unheld shut h =
      let x = spec_run body ms start in
      let w = winds body calm_body ms s e unheld shut in
      let w_due : Ends (due s) x = record {
        unheld = w.unheld;
        shut = ap is_open w.state ∙ w.shut;
        left = due-Refines s x (seen_at body calm_body ms s e);
      } in
      let (k, eq, w_end) = run-Ends ns ms (due s) s e w_due h in
      let (t, done, _) = run-created body (ms ++ ns) in
      (
        t,
        k,
        rw (run-append body ms ns created, e) at done,
        done,
        eq,
        Ends-Left (ms ++ ns) t k done w_end,
      )

  -- Where no listener submits, initialises or keeps anything, and a handle to which the user has no
  -- pointer left is closed, closing or was never opened: whatever answers libuv gives, in whichever
  -- order and with whatever statuses, as long as it owes them, each leaves one less to come, so there
  -- are no more than it owed at first, and the handle is destroyed when none is left, and only then.
  pub answers_end :
      (ms ns : List Move) (s : System)
      → run body ms created ≡ some s
      → s.held ≡ 0
      → is_open s.uv ≡ false
      → all_due body ns s ≡ true
      → (t : System) × (run body ns s ≡ some t)
        × (due t + length ns ≡ due s)
        × ((t.stream ≡ none) ↔ (due t ≡ 0))
  answers_end ms ns s e unheld shut h =
      let (t, n, ran, _, eq, l) = answers-Left ms ns s e unheld shut h in
      (t, ran, omega (arith, l.counted, eq), l.gone)
