-- ===== src/Watch.antt =====
-- The handles that watch something: timer.ipp, idle.ipp, check.ipp, prepare.ipp, async.ipp,
-- signal.ipp, poll.ipp, fs_event.ipp, fs_poll.ipp, and process.ipp where it passes a callback (all in
-- src/uvw/). Each member is the call of libuv that it makes; libuv's answer is what it returns.
pub mod Events
pub mod Created
use uvw.Prelude.{ℕ, Bool, true, false, Option, none, some, List, [], ◌∷◌, ◌++◌, ℤ}
use uvw.Event.{Event}
use uvw.Stream.{
  timer_callback, send_callback, idle_callback, check_callback, prepare_callback, signal_callback,
  exit_callback, poll_callback, fs_event_callback, fs_poll_callback,
}

pub data Watcher : Type 0 where
  timer_handle idle_handle check_handle prepare_handle async_handle signal_handle : Watcher
  poll_handle fs_event_handle fs_poll_handle process_handle : Watcher

-- The static members that libuv gets a pointer to.
pub data Callback : Type 0 where
  timer_start_callback idle_start_callback check_start_callback prepare_start_callback : Callback
  async_send_callback signal_start_callback poll_start_callback : Callback
  fs_event_start_callback fs_poll_start_callback process_exit_callback : Callback

-- What libuv may pass to a callback; each reads its own arguments.
pub record Report : Type 0 where
  pub status : ℤ
  pub signum : ℤ
  pub events : ℕ
  pub filename : List ℕ
  pub prev : ℕ
  pub curr : ℕ
  pub exit_status : ℤ
  pub term_signal : ℤ

unfoldable pub dispatch : Callback → Report → List Event
unfolding timer_callback send_callback idle_callback check_callback prepare_callback signal_callback
    exit_callback poll_callback fs_event_callback fs_poll_callback
dispatch timer_start_callback r = timer_callback
dispatch idle_start_callback r = idle_callback
dispatch check_start_callback r = check_callback
dispatch prepare_start_callback r = prepare_callback
dispatch async_send_callback r = send_callback
dispatch signal_start_callback r = signal_callback r.signum
dispatch poll_start_callback r = poll_callback r.status r.events
dispatch fs_event_start_callback r = fs_event_callback r.filename r.events r.status
dispatch fs_poll_start_callback r = fs_poll_callback r.status r.prev r.curr
dispatch process_exit_callback r = exit_callback r.exit_status r.term_signal

-- A poll handle is made from a descriptor or from a socket: `tag` and the union.
pub data PollTag : Type 0 where
  file_desc socket : ℕ → PollTag

-- The calls of libuv, without the loop and the handle.
pub data UvCall : Type 0 where
  uv_timer_init uv_idle_init uv_check_init uv_prepare_init uv_signal_init : UvCall
  uv_fs_event_init uv_fs_poll_init : UvCall
  uv_async_init : Callback → UvCall
  uv_poll_init uv_poll_init_socket : ℕ → UvCall
  uv_timer_start : Callback → (timeout repeat : ℕ) → UvCall
  uv_timer_stop uv_timer_again : UvCall
  uv_timer_set_repeat : ℕ → UvCall
  uv_idle_start uv_check_start uv_prepare_start : Callback → UvCall
  uv_idle_stop uv_check_stop uv_prepare_stop uv_async_send : UvCall
  uv_signal_start uv_signal_start_oneshot : Callback → ℤ → UvCall
  uv_signal_stop : UvCall
  uv_poll_start : ℕ → Callback → UvCall
  uv_poll_stop : UvCall
  uv_fs_event_start : Callback → (path : List ℕ) → (flags : ℕ) → UvCall
  uv_fs_event_stop : UvCall
  uv_fs_poll_start : Callback → (path : List ℕ) → (interval : ℕ) → UvCall
  uv_fs_poll_stop : UvCall
  uv_spawn : (exit_cb : Callback) → UvCall
  uv_process_kill : ℤ → UvCall

-- `poll_handle::init`.
unfoldable pub poll_init : PollTag → UvCall
poll_init (file_desc fd) = uv_poll_init fd
poll_init (socket s) = uv_poll_init_socket s

unfoldable pub timer_start : (timeout repeat : ℕ) → UvCall
timer_start timeout repeat = uv_timer_start timer_start_callback timeout repeat

unfoldable pub idle_start : UvCall
idle_start = uv_idle_start idle_start_callback

unfoldable pub check_start : UvCall
check_start = uv_check_start check_start_callback

unfoldable pub prepare_start : UvCall
prepare_start = uv_prepare_start prepare_start_callback

unfoldable pub async_init : UvCall
async_init = uv_async_init async_send_callback

unfoldable pub signal_start : ℤ → UvCall
signal_start signum = uv_signal_start signal_start_callback signum

unfoldable pub one_shot : ℤ → UvCall
one_shot signum = uv_signal_start_oneshot signal_start_callback signum

unfoldable pub poll_start : ℕ → UvCall
poll_start flags = uv_poll_start flags poll_start_callback

unfoldable pub fs_event_start : (path : List ℕ) → (flags : ℕ) → UvCall
fs_event_start path flags = uv_fs_event_start fs_event_start_callback path flags

unfoldable pub fs_poll_start : (file : List ℕ) → (interval : ℕ) → UvCall
fs_poll_start file interval = uv_fs_poll_start fs_poll_start_callback file interval

unfoldable pub process_spawn : UvCall
process_spawn = uv_spawn process_exit_callback

-- The public members of each class that call libuv for the handle, after its construction.
pub data Method : Watcher → Type 0 where
  timer_init timer_stop timer_again : Method timer_handle
  timer_starts : (timeout repeat : ℕ) → Method timer_handle
  timer_repeats : ℕ → Method timer_handle
  idle_init idle_starts idle_stop : Method idle_handle
  check_init check_starts check_stop : Method check_handle
  prepare_init prepare_starts prepare_stop : Method prepare_handle
  async_inits async_send : Method async_handle
  signal_init signal_stop : Method signal_handle
  signal_starts signal_one_shots : ℤ → Method signal_handle
  poll_inits : PollTag → Method poll_handle
  poll_starts : ℕ → Method poll_handle
  poll_stop : Method poll_handle
  fs_event_init fs_event_stop : Method fs_event_handle
  fs_event_starts : (path : List ℕ) → (flags : ℕ) → Method fs_event_handle
  fs_poll_init fs_poll_stop : Method fs_poll_handle
  fs_poll_starts : (file : List ℕ) → (interval : ℕ) → Method fs_poll_handle
  process_init process_spawns : Method process_handle
  process_kill : ℤ → Method process_handle

unfoldable pub timer_call : Method timer_handle → UvCall
unfolding timer_start
timer_call timer_init = uv_timer_init
timer_call timer_stop = uv_timer_stop
timer_call timer_again = uv_timer_again
timer_call (timer_starts t r) = (timer_start t r)
timer_call (timer_repeats r) = (uv_timer_set_repeat r)

unfoldable pub idle_call : Method idle_handle → UvCall
unfolding idle_start
idle_call idle_init = uv_idle_init
idle_call idle_starts = idle_start
idle_call idle_stop = uv_idle_stop

unfoldable pub check_call : Method check_handle → UvCall
unfolding check_start
check_call check_init = uv_check_init
check_call check_starts = check_start
check_call check_stop = uv_check_stop

unfoldable pub prepare_call : Method prepare_handle → UvCall
unfolding prepare_start
prepare_call prepare_init = uv_prepare_init
prepare_call prepare_starts = prepare_start
prepare_call prepare_stop = uv_prepare_stop

unfoldable pub async_call : Method async_handle → UvCall
unfolding async_init
async_call async_inits = async_init
async_call async_send = uv_async_send

unfoldable pub signal_call : Method signal_handle → UvCall
unfolding signal_start one_shot
signal_call signal_init = uv_signal_init
signal_call signal_stop = uv_signal_stop
signal_call (signal_starts n) = (signal_start n)
signal_call (signal_one_shots n) = (one_shot n)

unfoldable pub poll_call : Method poll_handle → UvCall
unfolding poll_start poll_init
poll_call (poll_inits tag) = (poll_init tag)
poll_call (poll_starts flags) = (poll_start flags)
poll_call poll_stop = uv_poll_stop

unfoldable pub fs_event_call : Method fs_event_handle → UvCall
unfolding fs_event_start
fs_event_call fs_event_init = uv_fs_event_init
fs_event_call fs_event_stop = uv_fs_event_stop
fs_event_call (fs_event_starts path flags) = (fs_event_start path flags)

unfoldable pub fs_poll_call : Method fs_poll_handle → UvCall
unfolding fs_poll_start
fs_poll_call fs_poll_init = uv_fs_poll_init
fs_poll_call fs_poll_stop = uv_fs_poll_stop
fs_poll_call (fs_poll_starts file interval) = (fs_poll_start file interval)

-- `process_handle::init` calls nothing and returns 0.
unfoldable pub process_call : Method process_handle → Option UvCall
unfolding process_spawn
process_call process_init = none
process_call process_spawns = some process_spawn
process_call (process_kill n) = some (uv_process_kill n)

unfoldable pub call_of : (w : Watcher) → Method w → Option UvCall
unfolding timer_call idle_call check_call prepare_call async_call signal_call poll_call
    fs_event_call fs_poll_call process_call
call_of timer_handle m = some (timer_call m)
call_of idle_handle m = some (idle_call m)
call_of check_handle m = some (check_call m)
call_of prepare_handle m = some (prepare_call m)
call_of async_handle m = some (async_call m)
call_of signal_handle m = some (signal_call m)
call_of poll_handle m = some (poll_call m)
call_of fs_event_handle m = some (fs_event_call m)
call_of fs_poll_handle m = some (fs_poll_call m)
call_of process_handle m = process_call m
