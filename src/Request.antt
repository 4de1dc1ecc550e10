-- ===== src/Request.antt =====
-- The requests that the user's code makes itself: src/uvw/request.hpp, work.ipp, dns.ipp and the
-- asynchronous operations of fs.h and fs.ipp, as far as their life goes.
-- `none` for a whole state is a use of a destroyed request, or of one that libuv works on for another
-- call. A listener only records the event here: it makes no call.
pub mod Accounts
pub mod Life
pub mod Work
use uvw.Prelude.{
  ℕ, ◌+◌, ◌-◌, Bool, true, false, Option, none, some, List, [], ◌∷◌, ◌++◌, ℤ, is_zero, ltb,
  if◌then◌else◌, ◌>>=◌,
}
use uvw.Emitter.{publish}
use uvw.Event.{Event, type_of}
use uvw.Resource.{Resource, make_shared, share, release, leak_if, self_reset}

pub data UserRequest : Type 0 where
  work_req get_addr_info_req get_name_info_req fs_req file_req : UserRequest

-- `work_req::queue`, `get_addr_info_req::node_addr_info` and `get_name_info_req::name_info` hand what
-- libuv returns to `leak_if`. The operations of `fs_req` and `file_req` do not.
abbrev pub fs_leaks : Bool
fs_leaks = false

unfoldable pub leaks : UserRequest → Bool
leaks fs_req = fs_leaks
leaks file_req = fs_leaks
leaks _ = true

-- `held` counts the user's pointers, `pending` says that libuv owes the callback.
pub record Pending : Type 0 where
  pub request : Option (Resource ℕ)
  pub held : ℕ
  pub pending : Bool
  pub told : List (ℕ × Event)

-- `loop.resource<T>()`, for a request.
unfoldable pub made : Pending
unfolding make_shared
made = record { request = some make_shared; held = 1; pending = false; told = [] }

-- An asynchronous call, with what libuv returns.
unfoldable pub queue : UserRequest → ℤ → Pending → Option Pending
unfolding leaks leak_if
queue k rc s = do
  r ← s.request
  some (record s { request = some (if leaks k then (leak_if rc r).1 else r); pending = is_zero rc })

unfoldable pub take : Pending → Option Pending
unfolding share
take s = do r ← s.request; some (record s { request = some (share r); held = s.held + 1 })

unfoldable pub drop : Pending → Option Pending
unfolding release
drop s = do r ← s.request; some (record s { request = release r; held = s.held - 1 })

-- `request::reserve`: `shared_from_this`, then `self_reset`.
unfoldable pub reserve : Resource ℕ → Option (Resource ℕ)
unfolding share self_reset
reserve r = self_reset (share r)

-- `after_work_callback`, `addr_info_callback`, `name_info_callback`, `fs_request_callback`: the event
-- `v` is published between `reserve` and the end of `ptr`.
unfoldable pub callback : Event → Pending → Option Pending
unfolding reserve publish release
callback v s = do
  r ← s.request
  ptr ← reserve r
  let told = publish (λ f w l. l ++ (f, w) ∷ []) (type_of v) v ptr.emitter s.told
  some (record s { request = release ptr; pending = false; told = told })

-- `request::cancel`, with what `uv_cancel` returns. A request that libuv does cancel is answered
-- like any other, with an error.
unfoldable pub cancel : ℤ → Pending → Option (ℤ × Pending)
cancel rc s = do r ← s.request; some (rc, s)

pub data Step : Type 0 where
  takes drops : Step
  cancels : ℤ → Step
  queues : ℤ → Step
  answers : Event → Step

-- The user acts through a pointer, and libuv answers pending requests only. Nothing keeps the user
-- from queueing a request that is pending, which libuv does not allow.
unfoldable pub step : UserRequest → Step → Pending → Option Pending
unfolding take drop queue callback cancel
step k takes s = if ltb 0 s.held then take s else some s
step k drops s = if ltb 0 s.held then drop s else some s
step k (queues rc) s = if ltb 0 s.held then (if s.pending then none else queue k rc s) else some s
step k (cancels rc) s = if ltb 0 s.held then (do (_, t) ← cancel rc s; some t) else some s
step k (answers v) s = if s.pending then callback v s else some s

unfoldable pub run : UserRequest → List Step → Pending → Option Pending
unfolding step
run k [] s = some s
run k (x ∷ xs) s = step k x s >>= run k xs
