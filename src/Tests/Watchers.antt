-- ===== src/Tests/Watchers.antt =====
-- Watching handles, addresses and functions that run once, at concrete inputs.
use uvw.Prelude.{
  ℕ, ◌≡◌, refl, Bool, true, false, not, none, some, List, [], ◌∷◌, ℤ, pos, negsuc, All,
  if◌then◌else◌, ◌>>=◌,
}
use uvw.Watch.{Report, dispatch, Method, poll_handle, poll_inits, poll_starts, poll_stop, socket}
use uvw.Watch.Events.{passed, told, watch_events}
use uvw.Watch.Created.{
  new_tcp, new_process, InitCall, create_handle, drop_handle, accepts, accepted, init_call,
  held_by_itself, init_owned,
}
use uvw.Process.{ProcessOptions, new, spawn}
use uvw.Thread.Once.{UvOnce, OnceLaws, guard, runs, runs_first}

abbrev failed_poll : Report
failed_poll = record {
  status = negsuc 8;
  signum = pos 0;
  events = 1;
  filename = [];
  prev = 0;
  curr = 0;
  exit_status = pos 0;
  term_signal = pos 0;
}

abbrev polling : List (Method poll_handle)
polling = poll_inits (socket 4) ∷ poll_starts 1 ∷ poll_stop ∷ poll_starts 3 ∷ []

watch_events_example :
    All (λ cb. dispatch cb failed_poll ≡ told poll_handle failed_poll ∷ []) (passed polling)
watch_events_example = watch_events poll_handle polling failed_poll

abbrev refusing : InitCall → ℤ
refusing call = negsuc 11

abbrev no_program : ProcessOptions → ℤ
no_program options = negsuc 1

init_owned_example :
    ((create_handle {L = ℕ} refusing (new_tcp 2)).0 ≡ accepts refusing (init_call (new_tcp 2)))
    × (drop_handle {L = ℕ} refusing (create_handle refusing (new_tcp 2)) ≡ (
        if accepted refusing (init_call (new_tcp 2)) then some (held_by_itself refusing) else none))
    × (drop_handle {L = ℕ} refusing (create_handle refusing new_process) ≡ none)
    × (drop_handle {L = ℕ} refusing
          (true, (do r ← (create_handle refusing new_process).1; some (spawn no_program new r).1))
        ≡ some (held_by_itself refusing))
init_owned_example = init_owned refusing (new_tcp 2) no_program new

abbrev bool_once : UvOnce
bool_once = record {
  Guard = Bool;
  uv_once_init = false;
  uv_once = λ g. (true, not g);
  is_used = λ g. g;
}

bool_once-OnceLaws : OnceLaws bool_once
bool_once-OnceLaws = record { starts = refl; calls_first = λ g. refl; uses_guard = λ g. refl }

runs_first_example : runs bool_once {F = ℕ} (3 ∷ 4 ∷ 3 ∷ []) (guard bool_once) ≡ 3 ∷ []
runs_first_example = runs_first bool_once bool_once-OnceLaws 3 (4 ∷ 3 ∷ [])
