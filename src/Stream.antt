-- ===== src/Stream.antt =====
-- src/uvw/stream.h, and the callbacks of the handles that watch something: timer.ipp, async.ipp,
-- idle.ipp, check.ipp, prepare.ipp, signal.ipp, poll.ipp, fs_event.ipp, fs_poll.ipp, process.ipp.
-- Each callback is the events that it publishes, in order. `uv_eof` is `UV_EOF`.
pub mod Reads
pub mod Calls
use uvw.Prelude.{
  ℕ, Bool, true, false, List, [], ◌∷◌, ◌++◌, ℤ, is_zero, is_neg, is_pos, pos_part, eqb_ℤ,
  if◌then◌else◌,
}
use uvw.Emitter.{to_error_event}
use uvw.Event.{
  Event, error_event, end_event, data_event, listen_event, timer_event, async_event, idle_event,
  check_event, prepare_event, signal_event, poll_event, fs_event_event, fs_poll_event, exit_event,
}

unfoldable pub read_callback : (uv_eof nread : ℤ) → (buf : List ℕ) → List Event
unfolding to_error_event
read_callback uv_eof nread buf =
    if eqb_ℤ nread uv_eof
    then end_event ∷ []
    else (if is_pos nread
        then data_event buf (pos_part nread) ∷ []
        else (if is_neg nread then error_event (to_error_event nread) ∷ [] else []))

unfoldable pub listen_callback : (status : ℤ) → List Event
unfolding to_error_event
listen_callback status =
    if is_zero status then listen_event ∷ [] else error_event (to_error_event status) ∷ []

unfoldable pub poll_callback : (status : ℤ) → (events : ℕ) → List Event
unfolding to_error_event
poll_callback status events =
    if is_zero status then poll_event events ∷ [] else error_event (to_error_event status) ∷ []

unfoldable pub fs_event_callback : (filename : List ℕ) → (events : ℕ) → (status : ℤ) → List Event
unfolding to_error_event
fs_event_callback filename events status =
    if is_zero status
    then fs_event_event filename events ∷ []
    else error_event (to_error_event status) ∷ []

-- A structure of the file system is named by its address.
unfoldable pub fs_poll_callback : (status : ℤ) → (prev curr : ℕ) → List Event
unfolding to_error_event
fs_poll_callback status prev curr =
    if is_zero status
    then fs_poll_event prev curr ∷ []
    else error_event (to_error_event status) ∷ []

-- The callbacks without a status.
unfoldable pub timer_callback : List Event
timer_callback = timer_event ∷ []

unfoldable pub send_callback : List Event
send_callback = async_event ∷ []

unfoldable pub idle_callback : List Event
idle_callback = idle_event ∷ []

unfoldable pub check_callback : List Event
check_callback = check_event ∷ []

unfoldable pub prepare_callback : List Event
prepare_callback = prepare_event ∷ []

unfoldable pub signal_callback : (signum : ℤ) → List Event
signal_callback signum = signal_event signum ∷ []

unfoldable pub exit_callback : (exit_status term_signal : ℤ) → List Event
exit_callback exit_status term_signal = exit_event exit_status term_signal ∷ []
