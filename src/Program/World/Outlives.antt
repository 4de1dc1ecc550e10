-- ===== src/Program/World/Outlives.antt =====
-- The loop outlives the handles and the requests of a whole program.
use uvw.Prelude.{
  false≢true, ℕ, ◌+◌, ◌<◌, ◌≡◌, refl, subst, ◌∙◌, ap, Bool, true, false, ◌||◌, some, List, [], ◌∷◌,
  ◌++◌, ℤ, ltb, ◌==◌, if◌then◌else◌, All, All-append, arith, Bool-cases, inl, inr,
}
use uvw.Event.{Event}
use uvw.Lifetime.{Act}
use uvw.Request.{UserRequest, made}
use uvw.Request.Accounts.{made-Accounted}
use uvw.Loop.{uv_loop_init, uv_loop_close, delete_loop}
use uvw.Loop.Shared.{makes, use_loop, uses_loop}
use uvw.Loop.Outlives.{use_loop-Kept, uses_loop-Kept, Kept, Kept-finished, Kept-calls}
use uvw.Program.{Program, all_objects, changes}
use uvw.Program.Counts.{use_makes, changes_counts, asks_close-changes}
use uvw.Program.Linked.{Linked, started-Linked, program_move-Linked, made_one}
use uvw.Program.World.{
  UserReq, World, world_started, live, WorldMove, within, makes_request, steps, set_loop_of,
  world_move, world_run, world_keeps, world_keeps_all, world_asks,
}
use uvw.Program.World.Requests.{AccountedFor, step_at}

live-append : (qs rs : List UserReq) → live (qs ++ rs) ≡ live qs + live rs
unfolding live
live-append [] rs = omega arith
live-append (q ∷ qs) rs = omega (arith, live-append qs rs)

live_made : (k : UserRequest) → live (record { kind = k; state = made } ∷ []) ≡ 1
unfolding live made
live_made k = refl

asks-cons :
    (m : WorldMove) (ms : List WorldMove) (asked : Bool)
    → world_asks ms (world_asks (m ∷ []) asked) ≡ world_asks (m ∷ ms) asked
unfolding world_asks
asks-cons (within m) ms asked = refl
asks-cons (makes_request k) ms asked = refl
asks-cons (steps i x rc) ms asked = refl

module _ (body : ℕ → Event → List Act) where
  pub record Sound (asked : Bool) (w : World) : Type 0 where
    pub linked : Linked body (live w.requests) asked w.program
    pub accounted : All AccountedFor w.requests

  -- The loop learns of a new request, and of those that end.
  makes-Linked :
      (n : ℕ) (asked : Bool) (p : Program)
      → Linked body n asked p
      → 0 < p.loop.users + p.loop.resources
      → Linked body (n + 1) asked (record p { loop = use_loop makes p.loop })
  makes-Linked n asked p k h = record {
    kept = use_loop-Kept asked makes p.loop k.kept;
    reached = k.reached;
    known = rw (use_makes p.loop h) (omega (arith, made_one p.loop, k.known));
  }

  set_loop-Linked :
      (rc : ℤ) (a b : ℕ) (asked : Bool) (p : Program)
      → Linked body a asked p
      → (a ≡ 0 → b ≡ 0)
      → Linked body b asked (set_loop_of p rc a b)
  unfolding set_loop_of
  set_loop-Linked rc a b asked p k h =
      let us = changes rc a b in
      let counted =
        changes_counts rc (all_objects p.handles) a b p.loop (omega (arith, k.known)) h in
      record {
        kept =
            subst (λ c. Kept c (uses_loop us p.loop)) (asks_close-changes rc a b asked)
              (uses_loop-Kept asked us p.loop k.kept);
        reached = k.reached;
        known = omega (arith, counted);
      }

  made-Sound :
      (k : UserRequest) (asked : Bool) (w : World)
      → Sound asked w
      → 0 < w.program.loop.users + w.program.loop.resources
      → Sound asked (record {
        program = record w.program { loop = use_loop makes w.program.loop };
        requests = w.requests ++ record { kind = k; state = made } ∷ [];
      })
  made-Sound k asked w s h =
      let new : UserReq = record { kind = k; state = made } in
      let p : Program = record w.program { loop = use_loop makes w.program.loop } in
      record {
        linked =
            subst (λ n. Linked body n asked p)
              (omega (arith, live-append w.requests (new ∷ []), live_made k))
              (makes-Linked (live w.requests) asked w.program s.linked h);
        accounted =
            All-append AccountedFor w.requests (new ∷ []) s.accounted (made-Accounted k, tt);
      }

  pub world_move-Sound :
      (asked : Bool) (m : WorldMove) (w : World)
      → Sound asked w
      → world_keeps m w ≡ true
      → (v : World) × (world_move body m w ≡ some v) × Sound (world_asks (m ∷ []) asked) v
  unfolding world_move world_asks world_keeps
  world_move-Sound asked (within m) w s d =
      let (p, e, k) = program_move-Linked body (live w.requests) asked m w.program s.linked in
      (record w { program = p }, rw e refl, record { linked = k; accounted = s.accounted })
  world_move-Sound asked (makes_request k) w s d =
      elim (Bool-cases (ltb 0 (w.program.loop.users + w.program.loop.resources))) [
        | inl held ↦ (_, rw held refl, made-Sound k asked w s (ground (arith, held)))
        | inr gone ↦ (w, rw gone refl, s)
      ]
  world_move-Sound asked (steps i x rc) w s d =
      let (qs, e, a, h) = step_at i x w.requests s.accounted d in
      (
        _,
        rw e refl,
        record {
          linked = set_loop-Linked rc (live w.requests) (live qs) asked w.program s.linked h;
          accounted = a;
        },
      )

  pub world_run-Sound :
      (asked : Bool) (ms : List WorldMove) (w : World)
      → Sound asked w
      → world_keeps_all body ms w ≡ true
      → (v : World) × (world_run body ms w ≡ some v) × Sound (world_asks ms asked) v
  unfolding world_run world_asks world_keeps_all
  world_run-Sound asked [] w s d = (w, refl, s)
  world_run-Sound asked (m ∷ ms) w s d = elim (Bool-cases (world_keeps m w)) [
    | inl kept ↦
        let (v, e, t) = world_move-Sound asked m w s kept in
        let (u, f, r) =
          world_run-Sound (world_asks (m ∷ []) asked) ms v t (rw (kept, world_keeps_all, e) at d) in
        (u, rw e f, subst (λ b. Sound b u) (asks-cons m ms asked) r)
    | inr careless ↦ absurd (false≢true (rw (careless, world_keeps_all) at d))
  ]

  pub started-Sound : (address : ℕ) → Sound false (world_started address)
  unfolding world_started live
  started-Sound address = record { linked = started-Linked body address; accounted = tt }

  -- However handles and requests of a whole program move, where the user keeps the pending file system
  -- requests and queues no request that is pending, and the listeners of requests only write the
  -- event down: no call and no callback reaches a destroyed handle or request; the loop's object is
  -- destroyed exactly when the user has no pointer to it and no handle, no request of a handle and no
  -- request of the user exists; and libuv closes the loop and uvw frees it, each once, exactly where
  -- the object is destroyed or the program closed the loop by hand.
  pub loop_outlives_all :
      (address : ℕ) (ms : List WorldMove)
      → world_keeps_all body ms (world_started address) ≡ true
      → (w : World) × (world_run body ms (world_started address) ≡ some w)
        × (w.program.loop.finished
            ≡ (w.program.loop.users + (live w.requests + all_objects w.program.handles) == 0))
        × (w.program.loop.loop.calls ≡ (
            if w.program.loop.finished || world_asks ms false
            then uv_loop_init ∷ uv_loop_close ∷ delete_loop ∷ []
            else uv_loop_init ∷ []))
  loop_outlives_all address ms d =
      let (w, e, s) = world_run-Sound false ms (world_started address) (started-Sound address) d in
      let k = s.linked in
      (
        w,
        e,
        Kept-finished (world_asks ms false) w.program.loop k.kept
            ∙ ap (λ n. w.program.loop.users + n == 0) k.known,
        Kept-calls (world_asks ms false) w.program.loop k.kept,
      )
