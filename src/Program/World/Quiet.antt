-- ===== src/Program/World/Quiet.antt =====
-- What an answer of libuv's leaves of the handles of a program that its user has given up.
use uvw.Prelude.{
  ℕ, zero, suc, ◌+◌, ◌≡◌, refl, sym, ap, subst, ◌∙◌, ◌↔◌, true, false, some, List, [], ◌∷◌, ◌++◌,
  to_nat, All, is_some, arith, Option-cases, inl, inr,
}
use uvw.Event.{Event}
use uvw.Lifetime.{System, Act, Move, move, run}
use uvw.Lifetime.Drain.{calm, is_open}
use uvw.Lifetime.Due.{due, is_due, all_due}
use uvw.Lifetime.Schedule.{Left, answers-Left}
use uvw.Lifetime.Reach.{Ledger-run, Keeps-some, move-Keeps}
use uvw.Program.{update_at, objects, all_objects}
use uvw.Program.Gone.{Reached}
use uvw.Program.World.Answers.{handles_due, due_at}

some_system : (s t : System) → some s ≡ some t → s ≡ t
some_system s t e = cc

-- A handle that some moves have led to, that the user has given up, and that is closed, closing or
-- was never opened.
abbrev pub Quiet : (ℕ → Event → List Act) → System → Type 0
Quiet body s = Reached body s × (s.held ≡ 0) × (is_open s.uv ≡ false)

module _ (body : ℕ → Event → List Act)
    (calm_body : (f : ℕ) (v : Event) → All (λ a. calm a ≡ true) (body f v)) where
  answer_handle :
      (m : Move) (s : System)
      → Quiet body s
      → is_due m s ≡ true
      → (t : System) × (move body m s ≡ some t) × Quiet body t × (due t + 1 ≡ due s)
  unfolding all_due run
  answer_handle m s ((ms, e), unheld, shut) d =
      let (u, there, _) =
        Keeps-some (move body m s) (move-Keeps body m s (Ledger-run body ms s e)) in
      let (t, n, ran, reached, eq, l) =
        answers-Left body calm_body ms (m ∷ []) s e unheld shut (rw (d, there) refl) in
      (
        t,
        there ∙ rw there at ran,
        ((ms ++ m ∷ [], reached), l.unheld, l.shut),
        omega (arith, l.counted, eq),
      )

  pub answer_handle_at :
      (i : ℕ) (m : Move) (ss : List System)
      → All (Quiet body) ss
      → due_at i m ss ≡ true
      → (ts : List System) × (update_at i (move body m) ss ≡ some ts)
        × All (Quiet body) ts
        × (handles_due ts + 1 ≡ handles_due ss)
  unfolding update_at due_at handles_due
  answer_handle_at i m [] h p = cc
  answer_handle_at zero m (s ∷ ss) h p =
      let (t, e, q, d) = answer_handle m s h.0 p in (t ∷ ss, rw e refl, (q, h.1), omega (arith, d))
  answer_handle_at (suc i) m (s ∷ ss) h p =
      let (ts, e, q, d) = answer_handle_at i m ss h.1 p in
      (s ∷ ts, rw e refl, (h.0, q), omega (arith, d))

  objects-Left : (n : ℕ) (t : System) → Left body calm_body n t → (objects t ≡ 0) ↔ (due t ≡ 0)
  unfolding objects
  objects-Left n t l = (
    λ e. elim (Option-cases t.stream) [
      | inl gone ↦ l.gone.0 gone
      | inr (r, there) ↦ absurd (omega (arith, e, ap (λ o. to_nat (is_some o)) there))
    ],
    λ e. rw (l.gone.1 e, (l.settled_.0 e).1) refl,
  )

  objects-due : (s : System) → Quiet body s → (objects s ≡ 0) ↔ (due s ≡ 0)
  unfolding objects all_due run
  objects-due s ((ms, e), unheld, shut) =
      let (t, n, ran, reached, eq, l) = answers-Left body calm_body ms [] s e unheld shut refl in
      subst (λ x. (objects x ≡ 0) ↔ (due x ≡ 0)) (some_system t s (sym ran)) (objects-Left n t l)

  pub all_objects-due :
      (ss : List System) → All (Quiet body) ss → (all_objects ss ≡ 0) ↔ (handles_due ss ≡ 0)
  unfolding all_objects handles_due
  all_objects-due [] h = (λ e. refl, λ e. refl)
  all_objects-due (s ∷ ss) h =
      let one = objects-due s h.0 in
      let rest = all_objects-due ss h.1 in
      (
        λ e. omega (arith, one.0 (omega (arith, e)), rest.0 (omega (arith, e))),
        λ e. omega (arith, one.1 (omega (arith, e)), rest.1 (omega (arith, e))),
      )
