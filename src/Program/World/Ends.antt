-- ===== src/Program/World/Ends.antt =====
-- How a whole program ends, in whichever order libuv answers.
use uvw.Prelude.{
  false≢true, ℕ, zero, suc, ◌+◌, ◌≡◌, refl, sym, subst, ◌∙◌, ap, ◌↔◌, Bool, true, false, ◌||◌, some,
  List, [], ◌∷◌, length, ◌==◌, if◌then◌else◌, All, arith, Bool-cases, inl, inr,
}
use uvw.Event.{Event}
use uvw.Lifetime.{Act, System}
use uvw.Lifetime.Drain.{calm}
use uvw.Request.{takes, drops, cancels, queues, answers as answers_request}
use uvw.Request.Accounts.{keeps}
use uvw.Loop.{uv_loop_init, uv_loop_close, delete_loop}
use uvw.Loop.Shared.{uses_loop}
use uvw.Loop.Outlives.{Kept-finished, Kept-calls}
use uvw.Program.{
  Program, all_objects, opens, shares_loop, drops_loop, closes_loop, moves, program_move, asks,
  changes,
}
use uvw.Program.Gone.{Reached}
use uvw.Program.Shutdown.{GivenUp}
use uvw.Program.Counts.{changes_counts}
use uvw.Program.World.{
  UserReq, World, world_started, live, WorldMove, within, makes_request, steps, set_loop_of,
  world_move, world_run, world_keeps, world_keeps_all, world_asks, keeps_at,
}
use uvw.Program.World.Outlives.{Sound, world_move-Sound, world_run-Sound, started-Sound}
use uvw.Program.World.Answers.{
  Forgotten, world_due, is_answer, all_answers, answer_request_at, live-requests_due,
}
use uvw.Program.World.Quiet.{Quiet, answer_handle_at, all_objects-due}

some_world : (v w : World) → some v ≡ some w → v ≡ w
some_world v w e = cc

keeps-answers : (i : ℕ) (v : Event) (qs : List UserReq) → keeps_at i (answers_request v) qs ≡ true
unfolding keeps_at keeps
keeps-answers i v [] = refl
keeps-answers zero v (q ∷ qs) = refl
keeps-answers (suc i) v (q ∷ qs) = keeps-answers i v qs

same_end : (a b n m : ℕ) → (a ≡ 0 ↔ n ≡ 0) → b ≡ m → (0 + (b + a) == 0) ≡ (n + m == 0)
same_end a b n m h e =
    eqb_same (0 + (b + a)) (n + m) (λ z. omega (arith, h.0 (omega (arith, z)), e, z))
      (λ z. omega (arith, h.1 (omega (arith, z)), e, z))
  where
    eqb_same : (x y : ℕ) → (x ≡ 0 → y ≡ 0) → (y ≡ 0 → x ≡ 0) → (x == 0) ≡ (y == 0)
    eqb_same x y f g = elim (Bool-cases (x == 0)) [
      | inl z ↦ let y_zero = f (ground (arith, z)) in ground (arith, z, y_zero)
      | inr z ↦ elim (Bool-cases (y == 0)) [
        | inl w ↦ let x_zero = g (ground (arith, w)) in ground (arith, w, x_zero)
        | inr w ↦ z ∙ sym w
      ]
    ]

module _ (body : ℕ → Event → List Act)
    (calm_body : (f : ℕ) (v : Event) → All (λ a. calm a ≡ true) (body f v)) where
  -- The user has given everything up.
  record Over (asked : Bool) (w : World) : Type 0 where
    sound : Sound body asked w
    quiet : All (Quiet body) w.program.handles
    forgotten : All Forgotten w.requests
    unused : w.program.loop.users ≡ 0

  Over-finished :
      (asked : Bool) (w : World) → Over asked w → w.program.loop.finished ≡ (world_due w == 0)
  unfolding world_due
  Over-finished asked w o =
      let k = o.sound.linked in
      Kept-finished asked w.program.loop k.kept
      ∙ ap (λ n. n + w.program.loop.resources == 0) o.unused
      ∙ ap (λ n. 0 + n == 0) k.known
      ∙ same_end (all_objects w.program.handles) (live w.requests) _ _
          (all_objects-due body calm_body w.program.handles o.quiet)
          (live-requests_due w.requests o.sound.accounted o.forgotten)

  -- An answer that libuv owes leaves one less to come.
  answer-Over :
      (asked : Bool) (m : WorldMove) (w : World)
      → Over asked w
      → is_answer m w ≡ true
      → (v : World) × (world_move body m w ≡ some v)
        × Over asked v
        × (world_due v + 1 ≡ world_due w)
  unfolding is_answer world_move program_move world_due world_asks asks world_keeps set_loop_of
  answer-Over asked (within (moves i m rc)) w o h =
      let (ts, e, q, d) = answer_handle_at body calm_body i m w.program.handles o.quiet h in
      let p : Program = record {
        loop =
            uses_loop (changes rc (all_objects w.program.handles) (all_objects ts)) w.program.loop;
        handles = ts;
      } in
      let v : World = record w { program = p } in
      let there : world_move body (within (moves i m rc)) w ≡ some v = rw e refl in
      let (u, e', s) = world_move-Sound body asked (within (moves i m rc)) w o.sound refl in
      let some_left : all_objects w.program.handles ≡ 0 → all_objects ts ≡ 0 = λ z.
        absurd (omega (arith, d, (all_objects-due body calm_body w.program.handles o.quiet).0 z)) in
      let counted =
        changes_counts rc (live w.requests) (all_objects w.program.handles) (all_objects ts)
          w.program.loop o.sound.linked.known some_left in
      (
        v,
        there,
        record {
          sound = subst (λ x. Sound body asked x) (some_world u v (sym e' ∙ there)) s;
          quiet = q;
          forgotten = o.forgotten;
          unused = counted.1 ∙ o.unused;
        },
        omega (arith, d),
      )
  answer-Over asked (steps i (answers_request v) rc) w o h =
      let m = steps i (answers_request v) rc in
      let (rs, e, a, f, d) = answer_request_at i v w.requests o.sound.accounted o.forgotten h in
      let x : World = record {
        program = set_loop_of w.program rc (live w.requests) (live rs);
        requests = rs;
      } in
      let there : world_move body m w ≡ some x = rw e refl in
      let (u, e', s) = world_move-Sound body asked m w o.sound (keeps-answers i v w.requests) in
      let some_left : live w.requests ≡ 0 → live rs ≡ 0 = λ z.
        absurd (omega (arith, d, z, live-requests_due w.requests o.sound.accounted o.forgotten)) in
      let counted =
        changes_counts rc (all_objects w.program.handles) (live w.requests) (live rs) w.program.loop
          (omega (arith, o.sound.linked.known)) some_left in
      (
        x,
        there,
        record {
          sound = subst (λ y. Sound body asked y) (some_world u x (sym e' ∙ there)) s;
          quiet = o.quiet;
          forgotten = f;
          unused = counted.1 ∙ o.unused;
        },
        omega (arith, d),
      )
  answer-Over asked (within opens) w o h = cc
  answer-Over asked (within shares_loop) w o h = cc
  answer-Over asked (within (drops_loop rc)) w o h = cc
  answer-Over asked (within (closes_loop rc)) w o h = cc
  answer-Over asked (makes_request k) w o h = cc
  answer-Over asked (steps i takes rc) w o h = cc
  answer-Over asked (steps i drops rc) w o h = cc
  answer-Over asked (steps i (cancels c) rc) w o h = cc
  answer-Over asked (steps i (queues c) rc) w o h = cc

  run-Over :
      (asked : Bool) (ns : List WorldMove) (w : World)
      → Over asked w
      → all_answers body ns w ≡ true
      → (v : World) × (world_run body ns w ≡ some v)
        × Over asked v
        × (world_due v + length ns ≡ world_due w)
  unfolding world_run all_answers
  run-Over asked [] w o h = (w, refl, o, omega arith)
  run-Over asked (m ∷ ns) w o h = elim (Bool-cases (is_answer m w)) [
    | inl owed ↦
        let (v, e, o', d) = answer-Over asked m w o owed in
        let (u, f, o'', d') = run-Over asked ns v o' (rw (owed, all_answers, e) at h) in
        (u, rw e f, o'', omega (arith, d, d'))
    | inr idle ↦ absurd (false≢true (rw (idle, all_answers) at h))
  ]

  Quiet_all : (ss : List System) → All (Reached body) ss → All GivenUp ss → All (Quiet body) ss
  Quiet_all [] r g = tt
  Quiet_all (s ∷ ss) r g = ((r.0, g.0.0, g.0.1), Quiet_all ss r.1 g.1)

  -- A whole program whose user keeps the pending file system requests and queues no request that is
  -- pending, until it is over, and then has
  -- given up every pointer, to the loop, to handles that are closed, closing or were never opened, and
  -- to requests; where no listener of a handle submits, initialises or keeps anything, and the listeners of requests
  -- only write the event down, and so queue nothing again. Whatever
  -- answers libuv gives, in whichever order over the handles and the requests and with whatever
  -- statuses, as long as it owes them: nothing destroyed is used, each leaves one less to come, the
  -- loop's object is destroyed when none is left, and not before, and libuv closes the loop and uvw
  -- frees it, each once, no later than then.
  pub world_ends :
      (address : ℕ) (ms ns : List WorldMove) (w : World)
      → world_run body ms (world_started address) ≡ some w
      → world_keeps_all body ms (world_started address) ≡ true
      → w.program.loop.users ≡ 0
      → All GivenUp w.program.handles
      → All Forgotten w.requests
      → all_answers body ns w ≡ true
      → (v : World) × (world_run body ns w ≡ some v)
        × (world_due v + length ns ≡ world_due w)
        × (v.program.loop.finished ≡ (world_due v == 0))
        × (v.program.loop.loop.calls ≡ (
            if v.program.loop.finished || world_asks ms false
            then uv_loop_init ∷ uv_loop_close ∷ delete_loop ∷ []
            else uv_loop_init ∷ []))
  world_ends address ms ns w e d unused given_up forgotten h =
      let (x, e', s') =
        world_run-Sound body false ms (world_started address) (started-Sound body address) d in
      let asked = world_asks ms false in
      let s = subst (λ y. Sound body asked y) (some_world x w (sym e' ∙ e)) s' in
      let o : Over asked w = record {
        sound = s;
        quiet = Quiet_all w.program.handles s.linked.reached given_up;
        forgotten = forgotten;
        unused = unused;
      } in
      let (v, f, o', left) = run-Over asked ns w o h in
      (v, f, left, Over-finished asked v o', Kept-calls asked v.program.loop o'.sound.linked.kept)
