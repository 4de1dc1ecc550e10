-- ===== src/Tests/Programs.antt =====
-- Whole programs, at concrete inputs.
use uvw.Prelude.{
  ◌+◌, ◌≡◌, refl, true, false, ◌||◌, Option, none, some, List, [], ◌∷◌, pos, negsuc, ◌==◌, length,
  if◌then◌else◌,
}
use uvw.Lifetime.{
  created, user, drop_ref, move, act, submits, write_req, inits, walked, answers, close_done,
  close_callback, request_callback, answer,
}
use uvw.Lifetime.Drain.{is_open}
use uvw.Loop.{uv_loop_init, uv_loop_close, delete_loop}
use uvw.Loop.Shared.{created_loop}
use uvw.Program.{
  Program, started, objects, all_objects, ProgramMove, opens, moves, drops_loop, program_run,
}
use uvw.Program.Shutdown.{drain_from, shutdown}
use uvw.Tests.Handles.{idle_body}
use uvw.Event.{work_event, fs_event}
use uvw.Request.{work_req, fs_req, queues, drops as drops_request, answers as answers_request}
use uvw.Program.World.{
  World, world_started, live, WorldMove, within, makes_request, steps, world_run, world_keeps_all,
  world_asks,
}
use uvw.Program.World.Outlives.{loop_outlives_all}
use uvw.Program.World.Answers.{world_due, all_answers}
use uvw.Program.World.Ends.{world_ends}

-- A program with two handles, one of which has a write unanswered, that walks its loop and gives up
-- everything.
abbrev ending : List ProgramMove
ending =
    opens
    ∷ opens
    ∷ moves 0 (user (inits (pos 0))) (pos 0)
    ∷ moves 0 (user (submits write_req (pos 0))) (pos 0)
    ∷ moves 1 (user (inits (negsuc 4))) (pos 0)
    ∷ moves 0 walked (pos 0)
    ∷ moves 1 walked (pos 0)
    ∷ moves 0 (user drop_ref) (pos 0)
    ∷ moves 1 (user drop_ref) (pos 0)
    ∷ drops_loop (pos 0)
    ∷ []

abbrev or_started : Option Program → Program
or_started none = started 5
or_started (some p) = p

unfoldable ended_program : Program
unfolding program_run
ended_program = or_started (program_run idle_body ending (started 5))

ran_ending : program_run idle_body ending (started 5) ≡ some ended_program
unfolding program_run ended_program started created_loop objects all_objects move created act
ran_ending = refl

shutdown_example :
    (q : Program) × (program_run idle_body
        (drain_from (negsuc 3) (pos 0) 0 ended_program.handles)
        ended_program
      ≡ some q)
    × (all_objects q.handles ≡ 0)
    × (q.loop.finished ≡ true)
    × (q.loop.loop.calls ≡ uv_loop_init ∷ uv_loop_close ∷ delete_loop ∷ [])
unfolding ended_program program_run started created_loop objects all_objects is_open move created
    act
shutdown_example =
    shutdown idle_body (λ f v. tt) 5 ending ended_program (negsuc 3) (pos 0) ran_ending refl
      ((refl, refl), ((refl, refl), tt))

-- The user forgets a queued `work_req` and the loop, but keeps a file system request until it is
-- answered.
abbrev working : List WorldMove
working =
    makes_request work_req
    ∷ steps 0 (queues (pos 0)) (pos 0)
    ∷ within opens
    ∷ makes_request fs_req
    ∷ steps 1 (queues (pos 0)) (pos 0)
    ∷ steps 0 drops_request (pos 0)
    ∷ within (moves 0 (user drop_ref) (pos 0))
    ∷ within (drops_loop (pos 0))
    ∷ steps 0 (answers_request work_event) (pos 0)
    ∷ steps 1 (answers_request (fs_event 0)) (pos 0)
    ∷ steps 1 drops_request (pos 0)
    ∷ []

keeps_working : world_keeps_all idle_body working (world_started 5) ≡ true
unfolding world_keeps_all world_started created_loop objects all_objects move created act
keeps_working = refl

loop_outlives_all_example :
    (w : World) × (world_run idle_body working (world_started 5) ≡ some w)
    × (w.program.loop.finished
        ≡ (w.program.loop.users + (live w.requests + all_objects w.program.handles) == 0))
    × (w.program.loop.loop.calls ≡ (
        if w.program.loop.finished || world_asks working false
        then uv_loop_init ∷ uv_loop_close ∷ delete_loop ∷ []
        else uv_loop_init ∷ []))
loop_outlives_all_example = loop_outlives_all idle_body 5 working keeps_working

abbrev or_world : Option World → World
or_world none = world_started 5
or_world (some w) = w

-- With the last request the loop goes.
worked : (or_world (world_run idle_body working (world_started 5))).program.loop.finished ≡ true
unfolding world_run world_started created_loop objects all_objects move created act
worked = refl

-- The user forgets a queued `work_req`, a handle with a write unanswered that `walk` closes, and the
-- loop. libuv then closes the handle, answers the `work_req`, and answers the write last.
abbrev forgetting : List WorldMove
forgetting =
    makes_request work_req
    ∷ steps 0 (queues (pos 0)) (pos 0)
    ∷ steps 0 drops_request (pos 0)
    ∷ within opens
    ∷ within (moves 0 (user (inits (pos 0))) (pos 0))
    ∷ within (moves 0 (user (submits write_req (pos 0))) (pos 0))
    ∷ within (moves 0 walked (pos 0))
    ∷ within (moves 0 (user drop_ref) (pos 0))
    ∷ within (drops_loop (pos 0))
    ∷ []

abbrev answering : List WorldMove
answering =
    within (moves 0 close_done (pos 0))
    ∷ steps 0 (answers_request work_event) (pos 0)
    ∷ within (moves 0 (answers 0 (negsuc 3)) (pos 0))
    ∷ []

unfoldable forgotten_world : World
unfolding world_run
forgotten_world = or_world (world_run idle_body forgetting (world_started 5))

ran_forgetting : world_run idle_body forgetting (world_started 5) ≡ some forgotten_world
unfolding forgotten_world world_run world_started created_loop objects all_objects move created act
ran_forgetting = refl

keeps_forgetting : world_keeps_all idle_body forgetting (world_started 5) ≡ true
unfolding world_keeps_all world_started created_loop objects all_objects move created act
keeps_forgetting = refl

answered_all : all_answers idle_body answering forgotten_world ≡ true
unfolding all_answers forgotten_world world_run world_started created_loop objects all_objects move
    created act close_callback request_callback answer
answered_all = refl

world_ends_example :
    (v : World) × (world_run idle_body answering forgotten_world ≡ some v)
    × (world_due v + length answering ≡ world_due forgotten_world)
    × (v.program.loop.finished ≡ (world_due v == 0))
    × (v.program.loop.loop.calls ≡ (
        if v.program.loop.finished || world_asks forgetting false
        then uv_loop_init ∷ uv_loop_close ∷ delete_loop ∷ []
        else uv_loop_init ∷ []))
unfolding forgotten_world world_run world_started created_loop objects all_objects is_open move
    created act
world_ends_example =
    world_ends idle_body (λ f v. tt) 5 forgetting answering forgotten_world ran_forgetting
      keeps_forgetting refl ((refl, refl), tt) (refl, tt) answered_all
