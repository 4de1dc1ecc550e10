-- ===== src/Tests/Lifetimes.antt =====
-- The life of handles, of written data and of loops over whole runs, at concrete inputs.
use uvw.Prelude.{
  ◌+◌, ◌≡◌, refl, true, false, Option, none, some, List, [], ◌∷◌, ◌++◌, pos, negsuc, length, ◌↔◌,
}
use uvw.Lifetime.{
  System, created, user, closes, drop_ref, Move, run, move, act, close_done, answers, take_request,
  close_callback, request_callback, answer,
}
use uvw.Lifetime.Spec.{start, spec_run}
use uvw.Lifetime.Simulates.{Refines}
use uvw.Lifetime.Refine.{run-Refines}
use uvw.Lifetime.Drain.{is_open}
use uvw.Lifetime.Due.{due, is_due, all_due}
use uvw.Lifetime.Schedule.{answers_end}
use uvw.Resource.{self_reset}
use uvw.Buffers.{Buffers, Op, writes_owned, writes_borrowed, sends_owned, tries, answered, reads}
use uvw.Loop.{uv_loop_init, uv_loop_close, delete_loop}
use uvw.Loop.Shared.{created_loop, LoopUse, makes, drops, ends, uses_loop}
use uvw.Tests.Handles.{idle_body, writing}

run-Refines_example :
    (s : System) × (run idle_body writing created ≡ some s)
    × Refines s (spec_run idle_body writing start)
run-Refines_example = run-Refines idle_body writing

-- The handle writes, is closed, and is given up, while libuv holds the request.
abbrev giving_up : List Move
giving_up = writing ++ user closes ∷ user drop_ref ∷ []

abbrev or_new : Option System → System
or_new none = created
or_new (some s) = s

unfoldable given_up : System
unfolding run move
given_up = or_new (run idle_body giving_up created)

ran_giving_up : run idle_body giving_up created ≡ some given_up
unfolding run move given_up created act
ran_giving_up = refl

-- The closing is answered first, and then the request.
abbrev closing_first : List Move
closing_first = close_done ∷ answers 0 (negsuc 3) ∷ []

due_closing_first : all_due idle_body closing_first given_up ≡ true
unfolding given_up run move created act all_due is_due take_request close_callback self_reset
    request_callback answer
due_closing_first = refl

answers_end_example :
    (t : System) × (run idle_body closing_first given_up ≡ some t)
    × (due t + length closing_first ≡ due given_up)
    × ((t.stream ≡ none) ↔ (due t ≡ 0))
unfolding given_up run move created act is_open
answers_end_example =
    answers_end idle_body (λ f v. tt) giving_up closing_first given_up ran_giving_up refl refl
      due_closing_first

-- Two writes of one buffer that is owned once and lent once, a refused send, a read, and an answer.
abbrev traffic : List Op
traffic =
    writes_owned 7 4 (pos 0)
    ∷ writes_borrowed 7 4 (pos 0)
    ∷ sends_owned 8 4 (negsuc 3)
    ∷ reads (pos 5) 9 true
    ∷ answered 1
    ∷ tries 10
    ∷ []

abbrev loop_uses : List LoopUse
loop_uses = makes ∷ drops (pos 0) ∷ ends (pos 0) ∷ []

-- A resource keeps the loop after its last user, and the end of the resource closes it.
kept_by_resource : (uses_loop (makes ∷ drops (pos 0) ∷ []) (created_loop 5)).finished ≡ false
unfolding uses_loop created_loop
kept_by_resource = refl

closed_at_the_end :
    (uses_loop loop_uses (created_loop 5)).loop.calls
    ≡ uv_loop_init ∷ uv_loop_close ∷ delete_loop ∷ []
unfolding uses_loop created_loop
closed_at_the_end = refl
