-- ===== src/Program/Linked.antt =====
-- The loop knows of every object of the program.
use uvw.Prelude.{
  ℕ, ◌+◌, ◌<◌, ◌≡◌, refl, subst, ◌∙◌, ap, Bool, true, false, ◌||◌, some, List, [], ◌∷◌, ◌++◌, ℤ,
  ltb, ◌==◌, if◌then◌else◌, All, All-append, arith, Bool-cases, inl, inr,
}
use uvw.Event.{Event}
use uvw.Lifetime.{System, created, Act}
use uvw.Loop.{uv_loop_init, uv_loop_close, delete_loop}
use uvw.Loop.Shared.{
  Shared, created_loop, LoopUse, shares, makes, drops, ends, closes, use_loop, uses_loop, after,
  make_resource, release_loop,
}
use uvw.Loop.Outlives.{
  Kept, use_loop-Kept, uses_loop-Kept, created_loop-Kept, Kept-finished, Kept-calls,
}
use uvw.Program.{
  Program, started, objects, all_objects, changes, ProgramMove, opens, shares_loop, drops_loop,
  closes_loop, moves, program_move, program_run, asks,
}
use uvw.Program.Counts.{use_makes, changes_counts, asks_close-changes}
use uvw.Program.Gone.{move_at, Reached, created-Reached}

is_made : LoopUse → Bool
is_made shares = false
is_made makes = true
is_made (drops rc) = false
is_made (ends rc) = true
is_made (closes rc) = false

use_loop_resources :
    (u : LoopUse) (s : Shared) → is_made u ≡ false → (use_loop u s).resources ≡ s.resources
unfolding use_loop release_loop is_made
use_loop_resources shares s h = ground arith
use_loop_resources makes s h = absurd (ground (arith, h))
use_loop_resources (drops rc) s h = ground arith
use_loop_resources (ends rc) s h = absurd (ground (arith, h))
use_loop_resources (closes rc) s h = ground arith

all_objects-append :
    (ss ts : List System) → all_objects (ss ++ ts) ≡ all_objects ss + all_objects ts
unfolding all_objects
all_objects-append [] ts = omega arith
all_objects-append (s ∷ ss) ts = omega (arith, all_objects-append ss ts)

one_object : all_objects (created ∷ []) ≡ 1
unfolding all_objects objects created
one_object = refl

pub made_one : (s : Shared) → (make_resource s).resources ≡ s.resources + 1
unfolding make_resource
made_one s = refl

asks-cons :
    (m : ProgramMove) (ms : List ProgramMove) (asked : Bool)
    → asks ms (asks (m ∷ []) asked) ≡ asks (m ∷ ms) asked
unfolding asks
asks-cons opens ms asked = refl
asks-cons shares_loop ms asked = refl
asks-cons (drops_loop rc) ms asked = refl
asks-cons (closes_loop rc) ms asked = refl
asks-cons (moves i m rc) ms asked = refl

module _ (body : ℕ → Event → List Act) where
  -- `asked` says whether the loop was closed by hand; the loop knows of `others` objects beside the
  -- handles and their requests.
  pub record Linked (others : ℕ) (asked : Bool) (p : Program) : Type 0 where
    pub kept : Kept asked p.loop
    pub reached : All (Reached body) p.handles
    pub known : p.loop.resources ≡ others + all_objects p.handles

  opens-Linked :
      (others : ℕ) (asked : Bool) (p : Program)
      → Linked others asked p
      → 0 < p.loop.users + p.loop.resources
      → Linked others asked
          (record { loop = use_loop makes p.loop; handles = p.handles ++ created ∷ [] })
  opens-Linked others asked p k h = record {
    kept = use_loop-Kept asked makes p.loop k.kept;
    reached =
        All-append (Reached body) p.handles (created ∷ []) k.reached (created-Reached body, tt);
    known = rw (use_makes p.loop h) (
        omega (
          arith,
          made_one p.loop,
          k.known,
          all_objects-append p.handles (created ∷ []),
          one_object,
        ));
  }

  held_use-Linked :
      (others : ℕ) (asked : Bool) (u : LoopUse) (p : Program)
      → is_made u ≡ false
      → Linked others asked p
      → Linked others (after u asked) (record p { loop = use_loop u p.loop })
  held_use-Linked others asked u p h k = record {
    kept = use_loop-Kept asked u p.loop k.kept;
    reached = k.reached;
    known = use_loop_resources u p.loop h ∙ k.known;
  }

  pub moves-Linked :
      (others : ℕ) (asked : Bool) (rc : ℤ) (p : Program) (ts : List System)
      → Linked others asked p
      → All (Reached body) ts
      → (all_objects p.handles ≡ 0 → all_objects ts ≡ 0)
      → Linked others asked (record {
        loop = uses_loop (changes rc (all_objects p.handles) (all_objects ts)) p.loop;
        handles = ts;
      })
  moves-Linked others asked rc p ts k l h =
      let us = changes rc (all_objects p.handles) (all_objects ts) in
      record {
        kept =
            subst (λ b. Kept b (uses_loop us p.loop))
              (asks_close-changes rc (all_objects p.handles) (all_objects ts) asked)
              (uses_loop-Kept asked us p.loop k.kept);
        reached = l;
        known =
            (changes_counts rc others (all_objects p.handles) (all_objects ts) p.loop k.known h).0;
      }

  pub started-Linked : (address : ℕ) → Linked 0 false (started address)
  unfolding started created_loop all_objects
  started-Linked address = record {
    kept = created_loop-Kept address;
    reached = tt;
    known = omega arith;
  }

  pub program_move-Linked :
      (others : ℕ) (asked : Bool) (m : ProgramMove) (p : Program)
      → Linked others asked p
      → (q : Program) × (program_move body m p ≡ some q) × Linked others (asks (m ∷ []) asked) q
  unfolding program_move asks is_made
  program_move-Linked others asked opens p k =
      elim (Bool-cases (ltb 0 (p.loop.users + p.loop.resources))) [
        | inl held ↦ (_, rw held refl, opens-Linked others asked p k (ground (arith, held)))
        | inr gone ↦ (p, rw gone refl, k)
      ]
  program_move-Linked others asked shares_loop p k =
      (_, refl, held_use-Linked others asked shares p refl k)
  program_move-Linked others asked (drops_loop rc) p k =
      (_, refl, held_use-Linked others asked (drops rc) p refl k)
  program_move-Linked others asked (closes_loop rc) p k =
      (_, refl, held_use-Linked others asked (closes rc) p refl k)
  program_move-Linked others asked (moves i m rc) p k =
      let (ts, e, l, h) = move_at body i m p.handles k.reached in
      (_, rw e refl, moves-Linked others asked rc p ts k l h)

  pub program_run-Linked :
      (others : ℕ) (asked : Bool) (ms : List ProgramMove) (p : Program)
      → Linked others asked p
      → (q : Program) × (program_run body ms p ≡ some q) × Linked others (asks ms asked) q
  unfolding program_run asks
  program_run-Linked others asked [] p k = (p, refl, k)
  program_run-Linked others asked (m ∷ ms) p k =
      let (q, e, l) = program_move-Linked others asked m p k in
      let (r, f, n) = program_run-Linked others (asks (m ∷ []) asked) ms q l in
      (r, rw e f, subst (λ b. Linked others b r) (asks-cons m ms asked) n)

  -- However the handles of a program move and whatever their listeners do: nothing uses a destroyed
  -- handle or request; the loop's object is destroyed exactly when the user has no pointer to it and
  -- no handle and no request of it exists; and libuv closes the loop and uvw frees it, each once,
  -- exactly where the object is destroyed or the program closed the loop by hand.
  pub loop_outlives_handles :
      (address : ℕ) (ms : List ProgramMove)
      → (p : Program) × (program_run body ms (started address) ≡ some p)
        × (p.loop.finished ≡ (p.loop.users + all_objects p.handles == 0))
        × (p.loop.loop.calls ≡ (
            if p.loop.finished || asks ms false
            then uv_loop_init ∷ uv_loop_close ∷ delete_loop ∷ []
            else uv_loop_init ∷ []))
  loop_outlives_handles address ms =
      let (p, e, k) = program_run-Linked 0 false ms (started address) (started-Linked address) in
      let known : p.loop.resources ≡ all_objects p.handles = omega (arith, k.known) in
      (
        p,
        e,
        Kept-finished (asks ms false) p.loop k.kept ∙ ap (λ n. p.loop.users + n == 0) known,
        Kept-calls (asks ms false) p.loop k.kept,
      )
