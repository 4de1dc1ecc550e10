-- ===== src/Tests/Handles.antt =====
-- The emitter, the life of handles and requests, loops, processes and threads at concrete inputs.
use uvw.Prelude.{
  if◌then◌else◌, to_word, is_neg, ◌^◌, ◌≢◌, ℕ, ◌+◌, ◌≡◌, ◌≤◌, ◌↔◌, refl, true, false, Option, none,
  some, List, [], ◌∷◌, ◌++◌, pos, negsuc, arith, All,
}
use uvw.Emitter.{Emitter, quiet, publish, code, to_error_event, is_error}
use uvw.Emitter.History.{Change, registers, resets, change_all, latest, publish-change_all}
use uvw.Emitter.Listeners.{IsInt, code-to_error_event}
use uvw.Event.{close_event, EventType, Event, EventType-discrete, write_event, fs_event}
use uvw.Resource.{make_shared}
use uvw.Lifetime.{
  act, request_callback, System, created, Act, inits, submits, write_req, listens, Move, user,
  answers, run, move, closes, close_done, take_request, answer, Request,
}
use uvw.Lifetime.Ledger.{Ledger}
use uvw.Lifetime.Delivery.{calls, listener}
use uvw.Lifetime.Reports.{close_event_once, answered_once, closes_in, is_close, registered}
use uvw.Request.{
  leaks, run as run_request, answers as answers_request, fs_req, Pending, made, drops, takes,
  cancels, Step, queues,
}
use uvw.Request.Accounts.{keeps_all}
use uvw.Request.Life.{run-kept, forgotten_fault}
use uvw.Loop.{create, uv_loop_init, uv_loop_close, delete_loop}
use uvw.Loop.{create_from, created_life, lived, life_calls}
use uvw.Loop.Default.{Static, asks, gives_up, uses, made_once}
use uvw.Process.{new, options, configure_all, Setting, stdio_fd, stdio_stream}
use uvw.Process.Stdio.{stdio-last, fd_flags, fd_count, streams_of, asked, asked_streams}

-- Listeners that write down their number and the number of the event.
abbrev note : ℕ → ℕ → List ℕ → List ℕ
note f v s = f ∷ v ∷ s

abbrev no_listeners : Emitter EventType ℕ
no_listeners = quiet

abbrev history : List (Change EventType ℕ)
history =
    registers EventType.write 7
    ∷ registers EventType.end 8
    ∷ registers EventType.write 9
    ∷ resets EventType.end
    ∷ []

publish-change_all_example :
    publish note EventType.write 5
      (change_all EventType-discrete EventType.error (EventType.write ∷ []) history no_listeners)
      []
    ≡ 9 ∷ 5 ∷ []
unfolding latest EventType-discrete
publish-change_all_example =
    publish-change_all EventType-discrete EventType.error (EventType.write ∷ []) note
      EventType.write 5 history no_listeners []

code-to_error_event_example :
    IsInt (code (to_error_event (pos 4294967292)))
    × (to_word (2 ^ 32) (code (to_error_event (pos 4294967292)))
        ≡ to_word (2 ^ 32) (pos 4294967292))
    × ((code (to_error_event (pos 4294967292)) ≡ pos 4294967292) ↔ IsInt (pos 4294967292))
    × (IsInt (pos 4294967292)
        → is_error (to_error_event (pos 4294967292)) ≡ is_neg (pos 4294967292))
code-to_error_event_example = code-to_error_event (pos 4294967292)

-- A listener that does nothing, and a handle that writes once.
abbrev pub idle_body : ℕ → Event → List Act
idle_body f v = []

abbrev pub writing : List Move
writing =
    user (inits (pos 0)) ∷ user (listens EventType.write 3) ∷ user (submits write_req (pos 0)) ∷ []

abbrev or_created : Option System → System
or_created none = created
or_created (some s) = s

unfoldable after_writing : System
unfolding run move
after_writing = or_created (run idle_body writing created)

unfoldable taken : Request × List Request
unfolding take_request after_writing
taken = elim (take_request 0 after_writing.requests) [
  | none ↦ (record { kind = write_req; base = make_shared }, [])
  | some p ↦ p
]

ran_writing : run idle_body writing created ≡ some after_writing
unfolding run move after_writing created act
ran_writing = refl

-- The handle is closed, while it has a listener for that.
abbrev closing_run : List Move
closing_run = writing ++ user (listens EventType.close 4) ∷ user closes ∷ []

unfoldable before_end : System
unfolding run move
before_end = or_created (run idle_body closing_run created)

ran_closing : run idle_body closing_run created ≡ some before_end
unfolding run move before_end created act
ran_closing = refl

close_event_once_example :
    (t : System) × (move idle_body close_done before_end ≡ some t)
    × (closes_in t.log
        ≡ closes_in before_end.log
          + (if is_close close_done before_end.uv
              then registered (listener close_event before_end.stream)
              else 0))
close_event_once_example = close_event_once idle_body closing_run before_end close_done ran_closing

found_taken : take_request 0 after_writing.requests ≡ some taken
unfolding take_request taken after_writing created act
found_taken = refl

answered_once_example :
    (t : System) × (move idle_body (answers 0 (pos 0)) after_writing ≡ some t)
    × (t.log ≡ after_writing.log ++ calls (listener write_event after_writing.stream) write_event)
unfolding taken after_writing created act
answered_once_example =
    answered_once idle_body writing after_writing 0 (pos 0) taken.0 taken.1 ran_writing found_taken

-- The listener 3 is told of the write.
abbrev log_of : Option System → List (ℕ × Event)
log_of none = []
log_of (some s) = s.log

told_write : log_of (move idle_body (answers 0 (pos 0)) after_writing) ≡ (3, write_event) ∷ []
unfolding move after_writing created act request_callback answer
told_write = refl

-- A file system request that is used twice, the second time forgotten once it is answered.
abbrev fs_steps : List Step
fs_steps =
    queues (pos 0)
    ∷ cancels (negsuc 15)
    ∷ answers_request (fs_event 0)
    ∷ queues (pos 0)
    ∷ takes
    ∷ drops
    ∷ answers_request (fs_event 0)
    ∷ drops
    ∷ []

keeps_fs_steps : keeps_all fs_req fs_steps made ≡ true
unfolding keeps_all made
keeps_fs_steps = refl

run-kept_example :
    (s : Pending) × (run_request fs_req fs_steps made ≡ some s)
    × ((s.request ≡ none) ↔ ((s.held ≡ 0) × (s.pending ≡ false)))
run-kept_example = run-kept fs_req fs_steps keeps_fs_steps

forgotten_fault_example :
    run_request fs_req (queues (pos 0) ∷ drops ∷ answers_request (fs_event 0) ∷ []) made ≡ none
unfolding leaks made
forgotten_fault_example =
    forgotten_fault fs_req (fs_event 0) made make_shared refl refl refl refl refl

life_calls_example :
    (created_life (pos 0) (pos 0) 8 (negsuc 15 ∷ pos 0 ∷ []) (pos 0)
      ≡ uv_loop_init ∷ uv_loop_close ∷ delete_loop ∷ [])
    × (((create (pos 0) (pos 0) 8).0 ≡ none) ↔ (pos 0 ≢ pos 0))
    × (lived (negsuc 15 ∷ pos 0 ∷ []) (pos 0) (create_from 8) ≡ uv_loop_close ∷ [])
life_calls_example = life_calls (pos 0) (pos 0) 8 (negsuc 15 ∷ pos 0 ∷ []) (pos 0)

abbrev shared_loop : Static
shared_loop = record { ref = 0; use_count = 0; made = 3 }

made_once_example :
    All (λ r. r ≡ some 3) (uses (asks true ∷ asks false ∷ gives_up ∷ asks true ∷ []) shared_loop)
made_once_example =
    made_once (asks false ∷ gives_up ∷ asks true ∷ []) shared_loop refl (ground arith, tt)

abbrev settings : List Setting
settings = stdio_fd 1 2 ∷ stdio_stream 9 4 ∷ stdio_fd 1 6 ∷ []

stdio-last_example :
    (fd_flags 1 (options (configure_all new settings)).stdio ≡ asked 1 settings none)
    × (fd_count 1 (options (configure_all new settings)).stdio ≤ 1)
    × (streams_of (options (configure_all new settings)).stdio ≡ asked_streams settings)
stdio-last_example = stdio-last 1 settings

asked_last : asked 1 settings none ≡ some 6
unfolding asked
asked_last = refl
