-- ===== src/Lifetime.antt =====
-- The life of a handle and of the requests that its methods make: resource.hpp, request.hpp, the
-- closing part of handle.hpp, and stream.h, tcp.ipp, pipe.ipp and udp.ipp where they make requests
-- (all in src/uvw/).
-- One handle is modelled, with the requests that forward to it, and what libuv owes: the close
-- callback of a handle, and the callback of each request that was accepted. `none` for a whole
-- system is a use of a destroyed object.
pub mod Ledger
pub mod Acts
pub mod Safety
pub mod Reach
pub mod Delivery
pub mod Reports
pub mod Spec
pub mod Simulates
pub mod Refine
pub mod Drain
pub mod Due
pub mod Schedule
use uvw.Prelude.{
  ℕ, zero, suc, ◌+◌, ◌-◌, Option, none, some, List, [], ◌∷◌, ◌++◌, ℤ, is_zero, ltb, if◌then◌else◌,
  ◌>>=◌,
}
use uvw.Emitter.{Emitter, publish, quiet, on, reset, to_error_event}
use uvw.Event.{
  EventType, Event, error_event, close_event, connect_event, shutdown_event, write_event,
  send_event, type_of, EventType-discrete,
}
use uvw.Resource.{Resource, make_shared, share, release, leak_if, self_reset, set_data}

-- `connect_req`, `shutdown_req`, `write_req` and `send_req`.
pub data ReqKind : Type 0 where
  connect_req shutdown_req write_req send_req : ReqKind

-- The event that a request publishes where it succeeds.
unfoldable pub success : ReqKind → Event
success connect_req = connect_event
success shutdown_req = shutdown_event
success write_req = write_event
success send_req = send_event

-- What the callback of a request publishes, by the status that libuv gives it.
unfoldable pub answer : ReqKind → ℤ → Event
answer k status = if is_zero status then success k else error_event (to_error_event status)

-- The lambda `[ptr = shared_from_this()](const auto &event, const auto &) { ptr->publish(event); }`.
pub data Forward : Type 0 where
  forward : Forward

pub record Request : Type 0 where
  pub kind : ReqKind
  pub base : Resource Forward

-- What libuv knows of the handle: not initialised, initialised, `uv_close` was called, closed.
pub data UvState : Type 0 where
  inert opened closing closed : UvState

-- `held` counts the shared pointers to the handle that the user's code keeps, `log` holds the calls
-- of the user's listeners, in order. `requests` are those that libuv has accepted and not answered.
pub record System : Type 0 where
  pub stream : Option (Resource ℕ)
  pub requests : List Request
  pub held : ℕ
  pub uv : UvState
  pub log : List (ℕ × Event)

-- `loop.uninitialized_resource<T>()`: the user has the only pointer.
unfoldable pub created : System
unfolding make_shared
created = record { stream = some make_shared; requests = []; held = 1; uv = inert; log = [] }

unfoldable pub share_stream : System → Option System
unfolding share
share_stream s = do r ← s.stream; some (record s { stream = some (share r) })

unfoldable pub release_stream : System → Option System
unfolding release
release_stream s = do r ← s.stream; some (record s { stream = release r })

-- What libuv knows after it was asked to initialise a handle. One that is open or closing is not
-- there to be initialised, by libuv's rules: it stays what it is.
unfoldable pub initialised : ℤ → UvState → UvState
initialised rc inert = if is_zero rc then opened else inert
initialised rc opened = opened
initialised rc closing = closing
initialised rc closed = if is_zero rc then opened else closed

-- `T::init()`, with what libuv returns; a closed handle may be initialised again.
unfoldable pub init : ℤ → System → Option System
unfolding leak_if initialised
init rc s = do
  r ← s.stream
  some (record s { stream = some (leak_if rc r).1; uv = initialised rc s.uv })

-- `if(!closing()) { uv_close(...); }`. Closing a handle that was not initialised breaks libuv's
-- rules, and is not modelled.
unfoldable pub close : System → Option System
close s = do r ← s.stream; some (elim s.uv [ opened ↦ record s { uv = closing } | _ ↦ s ])

-- `tcp_handle::close_reset`, with what `uv_tcp_close_reset` returns. libuv does not allow it on a
-- handle that is closing.
unfoldable pub close_reset : ℤ → System → Option System
close_reset rc s = do
  r ← s.stream
  some (elim s.uv [ opened ↦ if is_zero rc then record s { uv = closing } else s | _ ↦ s ])

-- A new request with its two listeners.
unfoldable pub new_request : ReqKind → Resource Forward
unfolding make_shared on quiet success type_of EventType-discrete
new_request k = record make_shared {
  emitter =
      on EventType-discrete (type_of (success k)) forward
        (on EventType-discrete EventType.error forward quiet);
}

-- The end of a request's life releases the pointer that each of its two listeners captured.
unfoldable pub release_request : ReqKind → Resource Forward → System → Option System
release_request k r s = elim (release r) [
  | none ↦ (do s' ← release_stream s; release_stream s')
  | some r' ↦ some (record s { requests = s.requests ++ record { kind = k; base = r' } ∷ [] })
]

-- `stream_handle::shutdown`, `stream_handle::write`, `tcp_handle::connect`, `pipe_handle::connect`
-- and `udp_handle::send`: a request is made, its listeners copy the lambda `listener`, libuv answers
-- `rc`, and the two local variables end.
unfoldable pub submit : ReqKind → ℤ → System → Option System
unfolding share_stream release_stream release_request new_request leak_if
submit k rc s = do
  listener ← share_stream s
  on_error ← share_stream listener
  on_success ← share_stream on_error
  s' ← release_stream on_success
  release_request k (leak_if rc (new_request k)).1 s'

-- What the user's code may do with the handle.
pub data Act : Type 0 where
  take_ref drop_ref closes : Act
  inits closes_reset : ℤ → Act
  submits : ReqKind → ℤ → Act
  listens : EventType → ℕ → Act
  resets : EventType → Act
  sets_data : Option ℕ → Act

unfoldable pub set_emitter : (Emitter EventType ℕ → Emitter EventType ℕ) → System → Option System
set_emitter f s = do
  r ← s.stream
  some (record s { stream = some (record r { emitter = f r.emitter }) })

-- A pointer that the user does not have cannot be dropped.
unfoldable pub drop_ref_of : System → Option System
unfolding release_stream
drop_ref_of s = if ltb 0 s.held then release_stream (record s { held = s.held - 1 }) else some s

unfoldable pub act : Act → System → Option System
unfolding share_stream drop_ref_of close close_reset init submit set_emitter
act take_ref s = share_stream (record s { held = s.held + 1 })
act drop_ref s = drop_ref_of s
act closes s = close s
act (inits rc) s = init rc s
act (closes_reset rc) s = close_reset rc s
act (submits k rc) s = submit k rc s
act (listens t f) s = set_emitter (on EventType-discrete t f) s
act (resets t) s = set_emitter (reset EventType-discrete t) s
act (sets_data d) s = do r ← s.stream; some (record s { stream = some (set_data d r) })

unfoldable pub run_acts : List Act → System → Option System
unfolding act
run_acts [] s = some s
run_acts (a ∷ as_) s = act a s >>= run_acts as_

-- `body f v` is what the user's listener `f` does when it is called with the event `v`.
module _ (body : ℕ → Event → List Act) where
  unfoldable pub call : ℕ → Event → Option System → Option System
  unfolding run_acts
  call f v o = do s ← o; run_acts (body f v) (record s { log = s.log ++ (f, v) ∷ [] })

  unfoldable pub publish_stream : Event → System → Option System
  unfolding call publish
  publish_stream v s = do r ← s.stream; publish call (type_of v) v r.emitter (some s)

  -- `handle::close_callback`.
  unfoldable pub close_callback : System → Option System
  unfolding share_stream publish_stream release_stream
  close_callback s = do
    ptr ← share_stream (record s { uv = closed })
    r ← ptr.stream
    s' ← publish_stream close_event (record ptr { stream = self_reset r })
    release_stream s'

  -- `connect_callback`, `shoutdown_callback`, `write_callback` and `udp_send_callback`: `reserve`,
  -- the event, and the end of `ptr`. The request is not among those in `s`.
  unfoldable pub request_callback : ReqKind → Resource Forward → ℤ → System → Option System
  unfolding share self_reset publish_stream publish release_request
  request_callback k req status s = do
    ptr ← self_reset (share req)
    let event = answer k status
    s' ← publish (λ f v o. o >>= publish_stream v) (type_of event) event ptr.emitter (some s)
    release_request k ptr s'

-- What drives a system: the user's code, and libuv, which answers one of the requests that it holds
-- or calls the close callback of a handle that is closing. `walked` is a `loop::walk` with a function
-- that closes what it gets: `uv_walk` visits the handles between `uv_*_init` and the close callback.
pub data Move : Type 0 where
  user : Act → Move
  answers : (i : ℕ) → (status : ℤ) → Move
  close_done walked : Move

unfoldable pub take_request : ℕ → List Request → Option (Request × List Request)
take_request i [] = none
take_request zero (q ∷ qs) = some (q, qs)
take_request (suc i) (q ∷ qs) = do (p, rest) ← take_request i qs; some (p, q ∷ rest)

module _ (body : ℕ → Event → List Act) where
  -- A move that libuv or a user without a pointer cannot make changes nothing.
  unfoldable pub move : Move → System → Option System
  unfolding take_request close
  move (user a) s = if ltb 0 s.held then act a s else some s
  move (answers i status) s = elim (take_request i s.requests) [
    | none ↦ some s
    | some (q, rest) ↦ request_callback body q.kind q.base status (record s { requests = rest })
  ]
  move close_done s = elim s.uv [ closing ↦ close_callback body s | _ ↦ some s ]
  move walked s = elim s.uv [ opened ↦ close s | closing ↦ close s | _ ↦ some s ]

  unfoldable pub run : List Move → System → Option System
  run [] s = some s
  run (m ∷ ms) s = move m s >>= run ms
