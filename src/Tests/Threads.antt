-- ===== src/Tests/Threads.antt =====
-- Thread objects and the threads that they start, at concrete inputs.
use uvw.Prelude.{◌≡◌, refl, true, false, ◌||◌, none, some, List, [], ◌∷◌, pos, length}
use uvw.Thread.Running.{
  Threads, new_thread, ThreadMove, runs, joins, destroys, wakes, works, finishes, thread_moves,
  runs_once, all_ended, may_call,
}
use uvw.Thread.Running.Joined.{started_once, started_again}

-- The destructor waits for the thread that still runs.
abbrev in_turns : List ThreadMove
in_turns = runs (pos 0) ∷ works 0 ∷ destroys ∷ wakes ∷ works 0 ∷ finishes 0 ∷ wakes ∷ works 0 ∷ []

started_once_example :
    (t : Threads) × (thread_moves in_turns new_thread ≡ some t)
    × (t.object || all_ended t.running ≡ true)
unfolding runs_once
started_once_example = started_once in_turns refl

-- An object whose thread was started, has ended and was joined.
abbrev joined : Threads
joined = record {
  object = true;
  joinable = false;
  handle = some 0;
  running = false ∷ [];
  waits = none;
}

reaches_joined :
    thread_moves (runs (pos 0) ∷ joins ∷ finishes 0 ∷ wakes ∷ []) new_thread ≡ some joined
unfolding thread_moves new_thread
reaches_joined = refl

started_again_example :
    thread_moves (runs (pos 0) ∷ destroys ∷ works (length joined.running) ∷ []) joined ≡ none
unfolding may_call
started_again_example = started_again joined refl refl
