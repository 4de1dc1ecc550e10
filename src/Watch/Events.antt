-- ===== src/Watch/Events.antt =====
-- Which events a watching handle publishes.
use uvw.Prelude.{
  ◌≡◌, refl, Option, none, some, List, [], ◌∷◌, ◌++◌, ℤ, is_zero, if◌then◌else◌, All, All-append,
  arith,
}
use uvw.Emitter.{to_error_event}
use uvw.Event.{
  Event, error_event, timer_event, async_event, idle_event, check_event, prepare_event,
  signal_event, poll_event, fs_event_event, fs_poll_event, exit_event,
}
use uvw.Stream.{
  timer_callback, send_callback, idle_callback, check_callback, prepare_callback, signal_callback,
  exit_callback, poll_callback, fs_event_callback, fs_poll_callback,
}
use uvw.Watch.{
  timer_call, idle_call, check_call, prepare_call, async_call, signal_call, poll_call,
  fs_event_call, fs_poll_call, process_call, file_desc, socket, timer_handle, idle_handle,
  check_handle, prepare_handle, async_handle, signal_handle, poll_handle, fs_event_handle,
  fs_poll_handle, process_handle, timer_start_callback, idle_start_callback, check_start_callback,
  prepare_start_callback, async_send_callback, signal_start_callback, poll_start_callback,
  fs_event_start_callback, fs_poll_start_callback, process_exit_callback, uv_async_init,
  uv_timer_start, uv_idle_start, uv_check_start, uv_prepare_start, uv_signal_start,
  uv_signal_start_oneshot, uv_poll_start, uv_fs_event_start, uv_fs_poll_start, uv_spawn, timer_init,
  timer_stop, timer_again, timer_starts, timer_repeats, idle_init, idle_starts, idle_stop,
  check_init, check_starts, check_stop, prepare_init, prepare_starts, prepare_stop, async_inits,
  async_send, signal_init, signal_stop, signal_starts, signal_one_shots, poll_inits, poll_starts,
  poll_stop, fs_event_init, fs_event_stop, fs_event_starts, fs_poll_init, fs_poll_stop,
  fs_poll_starts, process_init, process_spawns, process_kill, Watcher, Callback, Report, UvCall,
  Method, dispatch, call_of, timer_start, idle_start, check_start, prepare_start, async_init,
  signal_start, one_shot, poll_start, fs_event_start, fs_poll_start, process_spawn, poll_init,
}

-- The callbacks that libuv gets in a call.
unfoldable pub passed_in : Option UvCall → List Callback
passed_in none = []
passed_in (some (uv_async_init cb)) = cb ∷ []
passed_in (some (uv_timer_start cb t r)) = cb ∷ []
passed_in (some (uv_idle_start cb)) = cb ∷ []
passed_in (some (uv_check_start cb)) = cb ∷ []
passed_in (some (uv_prepare_start cb)) = cb ∷ []
passed_in (some (uv_signal_start cb n)) = cb ∷ []
passed_in (some (uv_signal_start_oneshot cb n)) = cb ∷ []
passed_in (some (uv_poll_start flags cb)) = cb ∷ []
passed_in (some (uv_fs_event_start cb path flags)) = cb ∷ []
passed_in (some (uv_fs_poll_start cb path interval)) = cb ∷ []
passed_in (some (uv_spawn cb)) = cb ∷ []
passed_in (some _) = []

unfoldable pub passed : {w : Watcher} → List (Method w) → List Callback
unfolding passed_in call_of
passed {w} [] = []
passed {w} (m ∷ ms) = passed_in (call_of w m) ++ passed ms

unless_failed : ℤ → Event → Event
unless_failed status v = if is_zero status then v else error_event (to_error_event status)

-- The one event that a class stands for, by what libuv reports.
unfoldable pub told : Watcher → Report → Event
unfolding unless_failed
told timer_handle r = timer_event
told idle_handle r = idle_event
told check_handle r = check_event
told prepare_handle r = prepare_event
told async_handle r = async_event
told signal_handle r = signal_event r.signum
told poll_handle r = unless_failed r.status (poll_event r.events)
told fs_event_handle r = unless_failed r.status (fs_event_event r.filename r.events)
told fs_poll_handle r = unless_failed r.status (fs_poll_event r.prev r.curr)
told process_handle r = exit_event r.exit_status r.term_signal

-- A callback of the class `w`.
abbrev IsOwn : Watcher → Report → Callback → Type 0
IsOwn w r cb = dispatch cb r ≡ told w r ∷ []

unfoldable own_callback : Watcher → Callback
own_callback timer_handle = timer_start_callback
own_callback idle_handle = idle_start_callback
own_callback check_handle = check_start_callback
own_callback prepare_handle = prepare_start_callback
own_callback async_handle = async_send_callback
own_callback signal_handle = signal_start_callback
own_callback poll_handle = poll_start_callback
own_callback fs_event_handle = fs_event_start_callback
own_callback fs_poll_handle = fs_poll_start_callback
own_callback process_handle = process_exit_callback

own_callback-IsOwn : (w : Watcher) (r : Report) → IsOwn w r (own_callback w)
unfolding own_callback dispatch told unless_failed timer_callback send_callback idle_callback
    check_callback prepare_callback signal_callback exit_callback poll_callback fs_event_callback
    fs_poll_callback
own_callback-IsOwn timer_handle r = refl
own_callback-IsOwn idle_handle r = refl
own_callback-IsOwn check_handle r = refl
own_callback-IsOwn prepare_handle r = refl
own_callback-IsOwn async_handle r = refl
own_callback-IsOwn signal_handle r = refl
own_callback-IsOwn poll_handle r = ground arith
own_callback-IsOwn fs_event_handle r = ground arith
own_callback-IsOwn fs_poll_handle r = ground arith
own_callback-IsOwn process_handle r = refl

call_of-IsOwn :
    (w : Watcher) (r : Report) (m : Method w) → All (IsOwn w r) (passed_in (call_of w m))
unfolding passed_in call_of timer_call idle_call check_call prepare_call async_call signal_call
    poll_call fs_event_call fs_poll_call process_call own_callback timer_start idle_start
    check_start prepare_start async_init signal_start one_shot poll_start fs_event_start
    fs_poll_start process_spawn poll_init
call_of-IsOwn w r timer_init = tt
call_of-IsOwn w r timer_stop = tt
call_of-IsOwn w r timer_again = tt
call_of-IsOwn w r (timer_starts t rep) = (own_callback-IsOwn w r, tt)
call_of-IsOwn w r (timer_repeats rep) = tt
call_of-IsOwn w r idle_init = tt
call_of-IsOwn w r idle_starts = (own_callback-IsOwn w r, tt)
call_of-IsOwn w r idle_stop = tt
call_of-IsOwn w r check_init = tt
call_of-IsOwn w r check_starts = (own_callback-IsOwn w r, tt)
call_of-IsOwn w r check_stop = tt
call_of-IsOwn w r prepare_init = tt
call_of-IsOwn w r prepare_starts = (own_callback-IsOwn w r, tt)
call_of-IsOwn w r prepare_stop = tt
call_of-IsOwn w r async_inits = (own_callback-IsOwn w r, tt)
call_of-IsOwn w r async_send = tt
call_of-IsOwn w r signal_init = tt
call_of-IsOwn w r signal_stop = tt
call_of-IsOwn w r (signal_starts n) = (own_callback-IsOwn w r, tt)
call_of-IsOwn w r (signal_one_shots n) = (own_callback-IsOwn w r, tt)
call_of-IsOwn w r (poll_inits (file_desc fd)) = tt
call_of-IsOwn w r (poll_inits (socket s)) = tt
call_of-IsOwn w r (poll_starts flags) = (own_callback-IsOwn w r, tt)
call_of-IsOwn w r poll_stop = tt
call_of-IsOwn w r fs_event_init = tt
call_of-IsOwn w r fs_event_stop = tt
call_of-IsOwn w r (fs_event_starts path flags) = (own_callback-IsOwn w r, tt)
call_of-IsOwn w r fs_poll_init = tt
call_of-IsOwn w r fs_poll_stop = tt
call_of-IsOwn w r (fs_poll_starts file interval) = (own_callback-IsOwn w r, tt)
call_of-IsOwn w r process_init = tt
call_of-IsOwn w r process_spawns = (own_callback-IsOwn w r, tt)
call_of-IsOwn w r (process_kill n) = tt

-- Whatever a program calls on a watching handle, and in whichever order: each callback that libuv gets
-- for it publishes, whenever libuv calls it, exactly one event, that of the handle's own class with
-- what libuv reports, or the error event with the status where a polling handle's is not 0.
pub watch_events :
    (w : Watcher) (ms : List (Method w)) (r : Report)
    → All (λ cb. dispatch cb r ≡ told w r ∷ []) (passed ms)
unfolding passed
watch_events w [] r = tt
watch_events w (m ∷ ms) r =
    All-append (IsOwn w r) (passed_in (call_of w m)) (passed ms) (call_of-IsOwn w r m)
      (watch_events w ms r)
