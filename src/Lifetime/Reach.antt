-- ===== src/Lifetime/Reach.antt =====
-- What holds of a handle after any moves of the user and of libuv.
use uvw.Prelude.{
  ℕ, zero, suc, ◌≡◌, refl, ap, ℤ, ◌↔◌, false, Option, none, some, List, [], ◌∷◌, ltb, length, ◌>>=◌,
  arith, All, Bool-cases, Option-cases, inl, inr,
}
use uvw.Event.{Event}
use uvw.Resource.{Resource}
use uvw.Lifetime.{
  Request, UvState, inert, opened, closing, closed, System, created, Act, Move, user, answers,
  close_done, walked, take_request, move, run,
}
use uvw.Lifetime.Ledger.{close_owed-Keeps, is_active, IsPending, Books, Ledger, Keeps, Keeps-bind}
use uvw.Lifetime.Acts.{act-Keeps}
use uvw.Lifetime.Safety.{close_callback-Keeps, request_callback-Keeps}

-- A request that is taken out of `n` pending ones was pending, and so are those that stay.
abbrev pub Taken : ℕ → Option (Request × List Request) → Type 0
Taken n none = Unit
Taken n (some (q, rest)) = IsPending q × All IsPending rest × (n ≡ suc (length rest))

Taken-cons :
    (n : ℕ) (x : Request) (o : Option (Request × List Request))
    → IsPending x
    → Taken n o
    → Taken (suc n) (o >>= λ (q, rest). some (q, x ∷ rest))
Taken-cons n x none p t = tt
Taken-cons n x (some (q, rest)) p t = (t.0, (p, t.1), omega (arith, t.2))

pub take_request-Taken :
    (i : ℕ) (qs : List Request) → All IsPending qs → Taken (length qs) (take_request i qs)
unfolding take_request
take_request-Taken i [] p = tt
take_request-Taken zero (x ∷ qs) p = (p.0, p.1, refl)
take_request-Taken (suc i) (x ∷ qs) p =
    Taken-cons (length qs) x (take_request i qs) p.0 (take_request-Taken i qs p.1)

taken-Books :
    (s : System) (rest : List Request) (o : Option (Resource ℕ))
    → Books 0 s o
    → length s.requests ≡ suc (length rest)
    → Books 2 (record s { requests = rest; stream = o }) o
taken-Books s rest none b e = absurd (ground (arith, ap length b.idle))
taken-Books s rest (some r) b e = record { counted = omega arith; alive = b.alive; owed = b.owed }

pub created-Ledger : Ledger 0 created
unfolding created
created-Ledger = record { books = ground arith; pending = tt }

pub Keeps-some : (o : Option System) → Keeps 0 o → (s : System) × (o ≡ some s) × Ledger 0 s
Keeps-some none k = absurd k
Keeps-some (some s) k = (s, refl, k)

module _ (body : ℕ → Event → List Act) where
  answered-Keeps :
      (i : ℕ) (status : ℤ) (s : System) → Ledger 0 s → Keeps 0 (move body (answers i status) s)
  unfolding move
  answered-Keeps i status s l = elim (Option-cases (take_request i s.requests)) [
    | inl gone ↦ rw (gone, move) l
    | inr ((q, rest), found) ↦
        let (p, left, n) = rw found at (take_request-Taken i s.requests l.pending) in
        rw (found, move)
          (request_callback-Keeps body q status (record s { requests = rest }) p
            (record { books = taken-Books s rest s.stream l.books n; pending = left }))
  ]

  closed-Keeps :
      (u : UvState) (s : System) → s.uv ≡ u → Ledger 0 s → Keeps 0 (move body close_done s)
  unfolding move
  closed-Keeps inert s e l = rw (e, move) l
  closed-Keeps opened s e l = rw (e, move) l
  closed-Keeps closing s e l = rw (e, move) (close_callback-Keeps body s l e)
  closed-Keeps closed s e l = rw (e, move) l

  walked-Keeps : (u : UvState) (s : System) → s.uv ≡ u → Ledger 0 s → Keeps 0 (move body walked s)
  unfolding move
  walked-Keeps inert s e l = rw (e, move) l
  walked-Keeps opened s e l =
      rw (e, move) (close_owed-Keeps s s.stream (ground (arith, e)) l.books l.pending)
  walked-Keeps closing s e l =
      rw (e, move) (close_owed-Keeps s s.stream (ground (arith, e)) l.books l.pending)
  walked-Keeps closed s e l = rw (e, move) l

  user-Keeps : (a : Act) (s : System) → Ledger 0 s → Keeps 0 (move body (user a) s)
  unfolding move
  user-Keeps a s l = elim (Bool-cases (ltb 0 s.held)) [
    | inl has ↦ rw (has, move) (act-Keeps 0 a s l (ground arith))
    | inr not ↦ rw (not, move) l
  ]

  pub move-Keeps : (m : Move) (s : System) → Ledger 0 s → Keeps 0 (move body m s)
  move-Keeps (user a) s l = user-Keeps a s l
  move-Keeps (answers i status) s l = answered-Keeps i status s l
  move-Keeps close_done s l = closed-Keeps s.uv s refl l
  move-Keeps walked s l = walked-Keeps s.uv s refl l

  run-Keeps : (ms : List Move) (s : System) → Ledger 0 s → Keeps 0 (run body ms s)
  unfolding run
  run-Keeps [] s l = l
  run-Keeps (m ∷ ms) s l =
      Keeps-bind 0 0 (move body m s) (run body ms) (move-Keeps m s l) (run-Keeps ms)

  pub run-created : (ms : List Move) → (s : System) × (run body ms created ≡ some s) × Ledger 0 s
  run-created ms = Keeps-some (run body ms created) (run-Keeps ms created created-Ledger)

  pub Ledger-run : (ms : List Move) (s : System) → run body ms created ≡ some s → Ledger 0 s
  Ledger-run ms s e = rw e at (run-Keeps ms created created-Ledger)

  pub destroyed_iff :
      (ms : List Move) (s : System)
      → run body ms created ≡ some s
      → (s.stream ≡ none) ↔ ((s.held ≡ 0) × (is_active s.uv ≡ false) × (s.requests ≡ []))
  destroyed_iff ms s e = go s.stream refl (Ledger-run ms s e).books
    where
      go :
          (o : Option (Resource ℕ))
          → s.stream ≡ o
          → Books 0 s o
          → (s.stream ≡ none) ↔ ((s.held ≡ 0) × (is_active s.uv ≡ false) × (s.requests ≡ []))
      go none p b = (λ _. (omega (arith, b.unheld), b.unowed, b.idle), λ _. p)
      go (some r) p b = (λ q. cc, λ q. absurd (ground (arith, ap length q.2)))
