-- ===== src/Request/Life.antt =====
-- A request whose call is leaked outlives its callback; one of `fs_req` and `file_req` does not.
use uvw.Prelude.{
  false≢true, ℕ, ◌≡◌, refl, ◌↔◌, pos, true, false, Option, none, some, List, [], ◌∷◌, ◌>>=◌, arith,
  Bool-cases, inl, inr,
}
use uvw.Event.{Event}
use uvw.Resource.{Resource}
use uvw.Request.{UserRequest, leaks, Pending, made, Step, drops, queues, answers, step, run}
use uvw.Request.Accounts.{Accounted, Sound, keeps, keeps_all, step-Sound, made-Accounted}

module _ (k : UserRequest) where
  run-Sound :
      (xs : List Step) (s : Pending)
      → Accounted k s s.request
      → keeps_all k xs s ≡ true
      → Sound k (run k xs s)
  unfolding run keeps_all
  run-Sound [] s a d = a
  run-Sound (x ∷ xs) s a d = elim (Bool-cases (keeps k x s)) [
    | inl kept ↦
        after (step k x s) (step-Sound k x s a kept) (rw (kept, keeps_all) at d)
          (λ t h f. run-Sound xs t h f)
    | inr careless ↦ absurd (false≢true (rw (careless, keeps_all) at d))
  ]
    where
      after :
          (o : Option Pending)
          → Sound k o
          → (elim o [ none ↦ true | some t ↦ keeps_all k xs t ]) ≡ true
          → ((t : Pending)
              → Accounted k t t.request
              → keeps_all k xs t ≡ true
              → Sound k (run k xs t))
          → Sound k (o >>= run k xs)
      after none h f g = absurd h
      after (some t) h f g = g t h f

  exact :
      (s : Pending) (o : Option (Resource ℕ))
      → s.request ≡ o
      → Accounted k s o
      → (s.request ≡ none) ↔ ((s.held ≡ 0) × (s.pending ≡ false))
  exact s none p a = (λ _. a, λ _. p)
  exact s (some r) p a = (λ q. cc, λ q. absurd (ground (arith, a.counted, a.owed)))

  -- Where the user keeps a pending request whose call does not leak it, until it is answered, and
  -- queues no request that is pending, whatever he does otherwise; where no listener makes a call: no callback and no call finds a request
  -- destroyed, and it is destroyed exactly when the user has no pointer left and no answer is due.
  pub run-kept :
      (xs : List Step)
      → keeps_all k xs made ≡ true
      → (s : Pending) × (run k xs made ≡ some s)
        × ((s.request ≡ none) ↔ ((s.held ≡ 0) × (s.pending ≡ false)))
  run-kept xs d = go (run k xs made) refl (run-Sound xs made (made-Accounted k) d)
    where
      go :
          (o : Option Pending)
          → run k xs made ≡ o
          → Sound k o
          → (s : Pending) × (run k xs made ≡ some s)
            × ((s.request ≡ none) ↔ ((s.held ≡ 0) × (s.pending ≡ false)))
      go none p h = absurd h
      go (some s) p h = (s, p, exact s s.request refl h)

-- A file system request that is queued through the only pointer to it, which is then dropped, is
-- destroyed while libuv holds it: its callback uses a destroyed object, whatever the event.
pub forgotten_fault :
    (k : UserRequest) (v : Event) (s : Pending) (r : Resource ℕ)
    → leaks k ≡ false
    → s.request ≡ some r
    → r.strong ≡ 1
    → s.held ≡ 1
    → s.pending ≡ false
    → run k (queues (pos 0) ∷ drops ∷ answers v ∷ []) s ≡ none
unfolding run
forgotten_fault k v s r e q c h p = ground arith
