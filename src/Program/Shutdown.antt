-- ===== src/Program/Shutdown.antt =====
-- How a program ends.
use uvw.Prelude.{
  ℕ, zero, suc, ◌≡◌, refl, sym, ap, ◌∙◌, subst, Bool, true, false, Option, none, some, List, [],
  ◌∷◌, ◌++◌, ℤ, length, length-replicate, length-append, replicate, ◌>>=◌, All, arith, Option-cases,
  inl, inr, map,
}
use uvw.Event.{Event}
use uvw.Lifetime.{System, Act, Move, move, run}
use uvw.Lifetime.Drain.{calm, is_open, drain, drained}
use uvw.Loop.{uv_loop_init, uv_loop_close, delete_loop}
use uvw.Loop.Shared.{uses_loop}
use uvw.Loop.Outlives.{Kept-finished, Kept-calls}
use uvw.Program.{
  Program, started, objects, all_objects, changes, update_at, ProgramMove, moves, program_move,
  program_run, asks,
}
use uvw.Program.Counts.{changes_counts}
use uvw.Program.Gone.{move_at, Reached}
use uvw.Program.Linked.{Linked, moves-Linked, program_run-Linked, started-Linked}

some_program : (p q : Program) → some p ≡ some q → p ≡ q
some_program p q e = cc

some_inj : (ss ts : List System) → some ss ≡ some ts → ss ≡ ts
some_inj ss ts e = cc

-- libuv answers the requests of every handle with `status`, and closes it, one handle after another.
unfoldable pub drain_from : (status rc : ℤ) → (i : ℕ) → List System → List ProgramMove
drain_from status rc i [] = []
drain_from status rc i (s ∷ ss) =
    map (λ m. moves i m rc) (drain (replicate (length s.requests) status))
    ++ drain_from status rc (suc i) ss

update_same :
    (i : ℕ) (f : System → Option System) (ss : List System)
    → ((s : System) → f s ≡ some s)
    → update_at i f ss ≡ some ss
unfolding update_at
update_same i f [] h = refl
update_same zero f (s ∷ ss) h = rw (h s) refl
update_same (suc i) f (s ∷ ss) h = rw (update_same i f ss h) refl

update_chain :
    (i : ℕ) (f g h : System → Option System) (ss : List System)
    → ((s : System) → h s ≡ (f s >>= g))
    → update_at i h ss ≡ (update_at i f ss >>= update_at i g)
unfolding update_at
update_chain i f g h [] e = refl
update_chain zero f g h (s ∷ ss) e = elim (Option-cases (f s)) [
  | inl gone ↦ rw (e s, gone) refl
  | inr (t, there) ↦ rw (e s, there) refl
]
update_chain (suc i) f g h (s ∷ ss) e = elim (Option-cases (update_at i f ss)) [
  | inl gone ↦ rw (update_chain i f g h ss e, gone) refl
  | inr (ts, there) ↦ rw (update_chain i f g h ss e, there) refl
]

update_middle :
    (f : System → Option System) (done : List System) (s t : System) (rest : List System)
    → f s ≡ some t
    → update_at (length done) f (done ++ s ∷ rest) ≡ some (done ++ t ∷ rest)
unfolding update_at
update_middle f [] s t rest e = rw e refl
update_middle f (d ∷ done) s t rest e = rw (update_middle f done s t rest e) refl

All_middle {ℓ κ} :
    {A : Type ℓ} (P : A → Type κ) (done : List A) (a : A) (rest : List A)
    → All P (done ++ a ∷ rest)
    → P a
All_middle P [] a rest h = h.0
All_middle P (d ∷ done) a rest h = All_middle P done a rest h.1

program_run-append :
    (body : ℕ → Event → List Act) (ms ns : List ProgramMove) (p : Program)
    → program_run body (ms ++ ns) p ≡ (program_run body ms p >>= program_run body ns)
unfolding program_run
program_run-append body [] ns p = refl
program_run-append body (m ∷ ms) ns p = elim (Option-cases (program_move body m p)) [
  | inl gone ↦ rw gone refl
  | inr (q, there) ↦ rw there (program_run-append body ms ns q)
]

-- Given up, and closed, closing or never opened.
abbrev pub GivenUp : System → Type 0
GivenUp s = (s.held ≡ 0) × (is_open s.uv ≡ false)

module _ (body : ℕ → Event → List Act) where
  -- Moves of one handle, as moves of the program.
  run_at :
      (asked : Bool) (rc : ℤ) (i : ℕ) (ds : List Move) (p : Program) (ts : List System)
      → Linked body 0 asked p
      → update_at i (run body ds) p.handles ≡ some ts
      → (q : Program) × (program_run body (map (λ m. moves i m rc) ds) p ≡ some q)
        × Linked body 0 asked q
        × (q.handles ≡ ts)
        × (q.loop.users ≡ p.loop.users)
  unfolding program_run program_move run
  run_at asked rc i [] p ts k e =
      let same : p.handles ≡ ts =
        some_inj _ _ (sym (update_same i some p.handles (λ s. refl)) ∙ e) in
      (p, refl, k, same, refl)
  run_at asked rc i (d ∷ ds) p ts k e =
      let (us, f, l, h) = move_at body i d p.handles k.reached in
      let q : Program = record {
        loop = uses_loop (changes rc (all_objects p.handles) (all_objects us)) p.loop;
        handles = us;
      } in
      let chain =
        update_chain i (move body d) (run body ds) (run body (d ∷ ds)) p.handles (λ s. refl) in
      let (r, g, n, hs, v) =
        run_at asked rc i ds q ts (moves-Linked body 0 asked rc p us k l h)
          (sym (rw f at chain) ∙ e) in
      (
        r,
        rw f g,
        n,
        hs,
        v ∙ (changes_counts rc 0 (all_objects p.handles) (all_objects us) p.loop k.known h).1,
      )

all_objects-snoc :
    (done : List System) (t : System)
    → all_objects done ≡ 0
    → objects t ≡ 0
    → all_objects (done ++ t ∷ []) ≡ 0
unfolding all_objects
all_objects-snoc [] t h e = omega (arith, e)
all_objects-snoc (d ∷ done) t h e = omega (arith, h, all_objects-snoc done t (omega (arith, h)) e)

snoc-append :
    (done : List System) (t : System) (rest : List System)
    → done ++ t ∷ rest ≡ (done ++ t ∷ []) ++ rest
snoc-append [] t rest = refl
snoc-append (d ∷ done) t rest = ap (λ ss. d ∷ ss) (snoc-append done t rest)

no_objects : all_objects [] ≡ 0
unfolding all_objects
no_objects = refl

objects_gone : (t : System) → t.stream ≡ none → t.requests ≡ [] → objects t ≡ 0
unfolding objects
objects_gone t e f = rw (e, f, objects) refl

append-nil : (ss : List System) → ss ++ [] ≡ ss
append-nil [] = refl
append-nil (s ∷ ss) = ap (λ ts. s ∷ ts) (append-nil ss)

length-snoc : (done : List System) (t : System) → length (done ++ t ∷ []) ≡ suc (length done)
length-snoc done t = omega (arith, length-append done (t ∷ []))

module _ (body : ℕ → Event → List Act)
    (calm_body : (f : ℕ) (v : Event) → All (λ a. calm a ≡ true) (body f v)) where
  drain_handles :
      (status rc : ℤ) (asked : Bool) (done rest : List System) (p : Program)
      → Linked body 0 asked p
      → p.handles ≡ done ++ rest
      → all_objects done ≡ 0
      → All GivenUp rest
      → (q : Program) × (program_run body (drain_from status rc (length done) rest) p ≡ some q)
        × Linked body 0 asked q
        × (all_objects q.handles ≡ 0)
        × (q.loop.users ≡ p.loop.users)
  unfolding drain_from program_run
  drain_handles status rc asked done [] p k e z g =
      (p, refl, k, ap all_objects (e ∙ append-nil done) ∙ z, refl)
  drain_handles status rc asked done (s ∷ rest) p k e z g =
      let ((held, shut), others) = g in
      let (ms, reached) =
        All_middle (Reached body) done s rest (subst (λ ss. All (Reached body) ss) e k.reached) in
      let statuses = replicate (length s.requests) status in
      let (t, ran, gone, idle) =
        drained body calm_body ms s statuses reached held shut
          (length-replicate (length s.requests) status) in
      let (q, f, l, hs, u) =
        run_at body asked rc (length done) (drain statuses) p (done ++ t ∷ rest) k (
          ap (update_at (length done) (run body (drain statuses))) e
          ∙ update_middle (run body (drain statuses)) done s t rest ran) in
      let (r, f', l', none_left, u') =
        drain_handles status rc asked (done ++ t ∷ []) rest q l (hs ∙ snoc-append done t rest)
          (all_objects-snoc done t z (objects_gone t gone idle)) others in
      (
        r,
        program_run-append body (map (λ m. moves (length done) m rc) (drain statuses))
              (drain_from status rc (suc (length done)) rest) p
            ∙ rw f (
                subst (λ n. program_run body (drain_from status rc n rest) q ≡ some r)
                  (length-snoc done t) f'),
        l',
        none_left,
        u' ∙ u,
      )

  -- A program whose user has given up every handle and every pointer to the loop, after it closed
  -- the handles, by hand or by `walk`, comes to its end, where no listener submits, initialises or
  -- keeps anything: once libuv has answered every request, with whatever status, and called the
  -- close callbacks, one handle after another, no handle and no request is left, and the loop is
  -- closed, freed and destroyed, each once.
  pub shutdown :
      (address : ℕ) (ms : List ProgramMove) (p : Program) (status rc : ℤ)
      → program_run body ms (started address) ≡ some p
      → p.loop.users ≡ 0
      → All GivenUp p.handles
      → (q : Program) × (program_run body (drain_from status rc 0 p.handles) p ≡ some q)
        × (all_objects q.handles ≡ 0)
        × (q.loop.finished ≡ true)
        × (q.loop.loop.calls ≡ uv_loop_init ∷ uv_loop_close ∷ delete_loop ∷ [])
  shutdown address ms p status rc e u g =
      let (p', e', k') =
        program_run-Linked body 0 false ms (started address) (started-Linked body address) in
      let same : p' ≡ p = some_program p' p (sym e' ∙ e) in
      let k = subst (λ x. Linked body 0 (asks ms false) x) same k' in
      let (q, f, l, z, v) =
        drain_handles status rc (asks ms false) [] p.handles p k refl no_objects g in
      let over = Kept-finished (asks ms false) q.loop l.kept in
      let finished : q.loop.finished ≡ true = ground (arith, over, l.known, z, v, u) in
      (q, f, z, finished, rw finished at (Kept-calls (asks ms false) q.loop l.kept))
