-- ===== src/Watch/Created.antt =====
-- `loop::resource` of every handle class (src/uvw/loop.h), with the `init` that the class has.
use uvw.Prelude.{
  ℕ, ◌≡◌, refl, Bool, true, false, Option, none, some, ℤ, pos, is_zero, if◌then◌else◌, ◌>>=◌, inl,
  inr, Bool-cases,
}
use uvw.Resource.{Resource, make_shared, leak_if, release}
use uvw.Udp.{SocketInit, tcp_init, udp_init}
use uvw.Process.{Process, ProcessOptions, spawn}
use uvw.Watch.{
  UvCall, uv_timer_init, uv_idle_init, uv_check_init, uv_prepare_init, uv_signal_init,
  uv_fs_event_init, uv_fs_poll_init, async_init, PollTag, poll_init,
}

-- What `resource` is called with: a class, and the arguments of its constructor.
pub data Creation : Type 0 where
  new_timer new_idle new_check new_prepare new_async new_signal : Creation
  new_fs_event new_fs_poll new_process : Creation
  new_poll : PollTag → Creation
  new_pipe : (ipc : Bool) → Creation
  new_tcp new_udp : (flags : ℕ) → Creation
  new_tty : (fd : ℕ) → (readable : Bool) → Creation

pub data InitCall : Type 0 where
  watch_call : UvCall → InitCall
  socket_call : SocketInit → InitCall
  uv_pipe_init : (ipc : Bool) → InitCall
  uv_tty_init : (fd : ℕ) → (readable : Bool) → InitCall

unfoldable pub pipe_init : (ipc : Bool) → InitCall
pipe_init ipc = uv_pipe_init ipc

unfoldable pub tty_init : (fd : ℕ) → (readable : Bool) → InitCall
tty_init fd readable = uv_tty_init fd readable

-- What `init` calls, whose result `leak_if` gets. That of a process handle calls nothing, and
-- returns 0.
unfoldable pub init_call : Creation → Option InitCall
unfolding async_init poll_init tcp_init udp_init pipe_init tty_init
init_call new_timer = some (watch_call uv_timer_init)
init_call new_idle = some (watch_call uv_idle_init)
init_call new_check = some (watch_call uv_check_init)
init_call new_prepare = some (watch_call uv_prepare_init)
init_call new_async = some (watch_call async_init)
init_call new_signal = some (watch_call uv_signal_init)
init_call new_fs_event = some (watch_call uv_fs_event_init)
init_call new_fs_poll = some (watch_call uv_fs_poll_init)
init_call new_process = none
init_call (new_poll tag) = some (watch_call (poll_init tag))
init_call (new_pipe ipc) = some (pipe_init ipc)
init_call (new_tcp flags) = some (socket_call (tcp_init flags))
init_call (new_udp flags) = some (socket_call (udp_init flags))
init_call (new_tty fd readable) = some (tty_init fd readable)

-- Whether `init` succeeds, and whether it asked libuv for that.
unfoldable pub accepts : (libuv : InitCall → ℤ) → Option InitCall → Bool
accepts libuv none = true
accepts libuv (some call) = is_zero (libuv call)

unfoldable pub accepted : (libuv : InitCall → ℤ) → Option InitCall → Bool
accepted libuv none = false
accepted libuv (some call) = is_zero (libuv call)

module _ {ℓ} {L : Type ℓ} (libuv : InitCall → ℤ) where
  unfoldable pub init : Creation → Resource L → ℤ × Resource L
  unfolding init_call leak_if
  init c r = elim (init_call c) [ none ↦ (pos 0, r) | some call ↦ leak_if (libuv call) r ]

  -- Whether the caller gets the pointer, and the object, which the local pointer's end destroys
  -- where nothing else holds it.
  unfoldable pub create_handle : Creation → Bool × Option (Resource L)
  unfolding init make_shared release
  create_handle c =
      let (err, ptr) = init c make_shared in
      if is_zero err then (true, some ptr) else (false, release ptr)

  -- The caller, who got a pointer, drops it.
  unfoldable pub drop_handle : Bool × Option (Resource L) → Option (Resource L)
  unfolding release
  drop_handle (true, o) = o >>= release
  drop_handle (false, o) = o

  abbrev pub held_by_itself : Resource L
  held_by_itself = record make_shared { self_ptr = true }

  creation_at :
      (c : Creation) (o : Option InitCall)
      → init_call c ≡ o
      → ((create_handle c).0 ≡ accepts libuv o)
        × (drop_handle (create_handle c) ≡ (if accepted libuv o then some held_by_itself else none))
  unfolding create_handle drop_handle accepts accepted init make_shared
  creation_at c none e = rw (e, create_handle, init) (refl, refl)
  creation_at c (some call) e = elim (Bool-cases (is_zero (libuv call))) [
    | inl good ↦ rw (e, good, create_handle, init) (refl, refl)
    | inr bad ↦ rw (e, bad, create_handle, init) (refl, refl)
  ]

  -- `loop::resource` hands out a handle of any class where libuv accepts its initialisation, and a
  -- process handle always. Once the caller has dropped what it got, the handle lives on if libuv
  -- accepted it, by its own pointer alone; a refused one leaves nothing behind, nor does a process
  -- handle, unless it was spawned, whatever libuv then answered.
  pub init_owned :
      (c : Creation) (uv_spawn : ProcessOptions → ℤ) (p : Process)
      → ((create_handle c).0 ≡ accepts libuv (init_call c))
        × (drop_handle (create_handle c)
            ≡ (if accepted libuv (init_call c) then some held_by_itself else none))
        × (drop_handle (create_handle new_process) ≡ none)
        × (drop_handle (true, do r ← (create_handle new_process).1; some (spawn uv_spawn p r).1)
            ≡ some held_by_itself)
  unfolding spawn leak_if make_shared create_handle drop_handle init init_call accepted accepts
  init_owned c uv_spawn p =
      let (a, b) = creation_at c (init_call c) refl in
      let (d, e) = creation_at new_process none refl in (a, b, e, refl)
