-- ===== src/Program/Gone.antt =====
-- A handle that is gone stays so, and what a move of one handle leaves of all of them.
use uvw.Prelude.{
  ℕ, zero, suc, ◌+◌, ◌≡◌, refl, sym, subst, ◌∙◌, ap, false, none, some, List, [], ◌∷◌, ◌++◌, ltb,
  is_some, All, arith, Option-cases, inl, inr,
}
use uvw.Event.{Event}
use uvw.Lifetime.{
  created, run, System, Act, Move, user, answers, close_done, walked, move, take_request, Request,
  UvState, inert, opened, closing, closed,
}
use uvw.Lifetime.Ledger.{Ledger, Books, Gone, is_active}
use uvw.Lifetime.Drain.{run-append}
use uvw.Lifetime.Reach.{Ledger-run, Keeps-some, move-Keeps}
use uvw.Program.{objects, all_objects, update_at}

some_inj : (t s : System) → some t ≡ some s → t ≡ s
some_inj t s e = cc

module _ (body : ℕ → Event → List Act) where
  -- A handle that is gone with its requests stays so.
  stays_so : (m : Move) (s : System) → Gone 0 s → move body m s ≡ some s
  unfolding move take_request
  stays_so (user a) s b = rw (ltb_unheld s.held b.unheld) refl
    where
      ltb_unheld : (n : ℕ) → 0 + n ≡ 0 → ltb 0 n ≡ false
      ltb_unheld n h = ground arith
  stays_so (answers i status) s b = rw (none_taken s.requests b.idle, move) refl
    where
      none_taken : (qs : List Request) → qs ≡ [] → take_request i qs ≡ none
      none_taken [] e = refl
      none_taken (q ∷ qs) e = cc
  stays_so close_done s b = shut s.uv refl b.unowed
    where
      shut : (u : UvState) → s.uv ≡ u → is_active s.uv ≡ false → move body close_done s ≡ some s
      shut inert e h = simp (e, move) refl
      shut opened e h = simp (e, move) refl
      shut closing e h = absurd (ground (arith, e, h))
      shut closed e h = simp (e, move) refl
  stays_so walked s b = shut s.uv refl b.unowed
    where
      shut : (u : UvState) → s.uv ≡ u → is_active s.uv ≡ false → move body walked s ≡ some s
      shut inert e h = simp (e, move) refl
      shut opened e h = absurd (ground (arith, e, h))
      shut closing e h = absurd (ground (arith, e, h))
      shut closed e h = simp (e, move) refl

  move-gone : (m : Move) (s : System) → Ledger 0 s → objects s ≡ 0 → move body m s ≡ some s
  unfolding objects
  move-gone m s l e = elim (Option-cases s.stream) [
    | inl gone ↦ stays_so m s (subst (λ o. Books 0 s o) gone l.books)
    | inr (r, there) ↦ absurd (ground (arith, ap is_some there))
  ]

  -- A handle that some moves have led to.
  abbrev pub Reached : System → Type 0
  Reached s = (ms : List Move) × (run body ms created ≡ some s)

  pub created-Reached : Reached created
  unfolding run
  created-Reached = ([], refl)

  move-Reached : (m : Move) (s t : System) → Reached s → move body m s ≡ some t → Reached t
  unfolding run
  move-Reached m s t (ms, e) f =
      (ms ++ m ∷ [], run-append body ms (m ∷ []) created ∙ rw e (rw f refl))

  -- What a move of one handle leaves of all of them.
  pub move_at :
      (i : ℕ) (m : Move) (ss : List System)
      → All Reached ss
      → (ts : List System) × (update_at i (move body m) ss ≡ some ts)
        × All Reached ts
        × (all_objects ss ≡ 0 → all_objects ts ≡ 0)
  unfolding update_at all_objects
  move_at i m [] h = ([], refl, tt, λ e. refl)
  move_at zero m (s ∷ ss) h =
      let l = Ledger-run body h.0.0 s h.0.1 in
      let (t, e, _) = Keeps-some (move body m s) (move-Keeps body m s l) in
      (
        t ∷ ss,
        rw e refl,
        (move-Reached m s t h.0 e, h.1),
        λ z.
            let same : t ≡ s = some_inj t s (sym e ∙ move-gone m s l (omega (arith, z))) in
            omega (arith, z, ap objects same),
      )
  move_at (suc i) m (s ∷ ss) h =
      let (ts, e, l, keeps) = move_at i m ss h.1 in
      (s ∷ ts, rw e refl, (h.0, l), λ z. omega (arith, keeps (omega (arith, z)), z))
