-- ===== src/Thread/Running.antt =====
-- A thread object of src/uvw/thread.ipp beside the threads that it has started: what a started thread
-- runs, `create_callback`, reads the object, so the object has to be there until the thread ends.
-- `none` is a read of a destroyed object. The user and the threads take turns in any order.
pub mod Invariant
pub mod Joined
use uvw.Prelude.{
  ℕ, zero, suc, Bool, true, false, ◌&&◌, not, Option, none, some, List, [], ◌∷◌, ◌++◌, ℤ, is_zero,
  length, if◌then◌else◌,
}

-- `handle` is the thread in `raw()`, the last that was created, and `running` tells of each thread
-- that was created whether it still runs. `waits` is the thread that a `join` of the user waits for,
-- and whether the destructor made that call.
pub record Threads : Type 0 where
  pub object : Bool
  pub joinable : Bool
  pub handle : Option ℕ
  pub running : List Bool
  pub waits : Option (ℕ × Bool)

-- The constructor.
unfoldable pub new_thread : Threads
new_thread = record { object = true; joinable = true; handle = none; running = []; waits = none }

-- `thread::run`, with what `uv_thread_create` or `uv_thread_create_ex` returns.
unfoldable pub run : ℤ → Threads → Threads
run rc t =
    if is_zero rc
    then record t { handle = some (length t.running); running = t.running ++ true ∷ [] }
    else t

-- `join` returns, and after that the destructor, if it made the call, ends the object.
unfoldable pub end_join : Bool → Threads → Threads
end_join destructor t = record t { waits = none; object = if destructor then false else t.object }

-- `thread::join` up to the wait in `uv_thread_join`. Where no thread was created, libuv is taken to
-- return at once.
unfoldable pub start_join : Bool → Threads → Threads
unfolding end_join
start_join destructor t =
    if t.joinable
    then (elim t.handle [
      | none ↦ end_join destructor (record t { joinable = false })
      | some i ↦ record t { joinable = false; waits = some (i, destructor) }
    ])
    else end_join destructor t

unfoldable pub is_running : ℕ → List Bool → Bool
is_running i [] = false
is_running zero (b ∷ bs) = b
is_running (suc i) (b ∷ bs) = is_running i bs

unfoldable pub stop : ℕ → List Bool → List Bool
stop i [] = []
stop zero (b ∷ bs) = false ∷ bs
stop (suc i) (b ∷ bs) = b ∷ stop i bs

-- `create_callback` on the thread `i`: a step of the function, which stands in the object, and its
-- end.
unfoldable pub callback_step : ℕ → Threads → Option Threads
unfolding is_running
callback_step i t = if is_running i t.running && not t.object then none else some t

unfoldable pub callback_end : ℕ → Threads → Option Threads
unfolding is_running stop
callback_end i t =
    if is_running i t.running && not t.object
    then none
    else some (record t { running = stop i t.running })

pub data ThreadMove : Type 0 where
  runs : ℤ → ThreadMove
  joins destroys wakes : ThreadMove
  works finishes : ℕ → ThreadMove

-- The user calls nothing on an object that is destroyed, nor while a call has not returned. `wakes`
-- is the end of the wait, for which the thread must have ended.
unfoldable pub may_call : Threads → Bool
may_call t = t.object && (elim t.waits [ none ↦ true | some w ↦ false ])

unfoldable pub thread_move : ThreadMove → Threads → Option Threads
unfolding run start_join end_join callback_step callback_end may_call is_running
thread_move (runs rc) t = some (if may_call t then run rc t else t)
thread_move joins t = some (if may_call t then start_join false t else t)
thread_move destroys t = some (if may_call t then start_join true t else t)
thread_move wakes t = elim t.waits [
  | none ↦ some t
  | some (i, destructor) ↦ some (if is_running i t.running then t else end_join destructor t)
]
thread_move (works i) t = callback_step i t
thread_move (finishes i) t = callback_end i t

unfoldable pub thread_moves : List ThreadMove → Threads → Option Threads
unfolding thread_move
thread_moves [] t = some t
thread_moves (m ∷ ms) t = elim (thread_move m t) [ none ↦ none | some u ↦ thread_moves ms u ]

-- The program starts the thread once at most, and not after it has joined.
unfoldable pub runs_once : List ThreadMove → (fresh : Bool) → Bool
runs_once [] fresh = true
runs_once (runs rc ∷ ms) fresh =
    runs_once ms (if is_zero rc then false else fresh) && (if is_zero rc then fresh else true)
runs_once (joins ∷ ms) fresh = runs_once ms false
runs_once (destroys ∷ ms) fresh = runs_once ms false
runs_once (wakes ∷ ms) fresh = runs_once ms fresh
runs_once (works i ∷ ms) fresh = runs_once ms fresh
runs_once (finishes i ∷ ms) fresh = runs_once ms fresh

unfoldable pub all_ended : List Bool → Bool
all_ended [] = true
all_ended (b ∷ bs) = not b && all_ended bs
