-- ===== src/Thread.antt =====
-- src/uvw/thread.h and thread.ipp: the thread object, which calls of libuv its functions issue, and
-- the locks' tests.
-- A life of a thread object is a list of calls and then its destructor. `uv_thread_create` and
-- `uv_thread_join` are arguments: the number that each returns.
pub mod Joins
pub mod Once
pub mod Locks
pub mod Running
use uvw.Prelude.{ℕ, Bool, true, false, List, [], ◌∷◌, ◌++◌, ℤ, pos, is_zero, not, if◌then◌else◌}

pub record Thread : Type 0 where
  pub joinable : Bool

-- What is called of libuv: `uv_thread_create`, `uv_thread_create_ex` with the flags and the stack
-- size of its options, and `uv_thread_join`.
pub data ThreadCall : Type 0 where
  thread_create : ThreadCall
  thread_create_ex : (flags stack_size : ℕ) → ThreadCall
  thread_join : ThreadCall

unfoldable pub made_thread : Thread
made_thread = record { joinable = true }

-- A function's result, the object after it, and what it called.
pub record Outcome : Type 0 where
  pub value : Bool
  pub object : Thread
  pub calls : List ThreadCall

unfoldable pub run_thread : (uv_thread_create : ℤ) → Thread → Outcome
run_thread uv_thread_create t = record {
  value = is_zero uv_thread_create;
  object = t;
  calls = thread_create ∷ [];
}

unfoldable pub run_with : (uv_thread_create_ex : ℤ) → (opts stack : ℕ) → Thread → Outcome
run_with uv_thread_create_ex opts stack t = record {
  value = is_zero uv_thread_create_ex;
  object = t;
  calls = thread_create_ex opts stack ∷ [];
}

-- `std::exchange(joinable, false)`.
unfoldable pub join : (uv_thread_join : ℤ) → Thread → Outcome
join uv_thread_join t = record {
  value = if t.joinable then is_zero uv_thread_join else true;
  object = record { joinable = false };
  calls = if t.joinable then thread_join ∷ [] else [];
}

-- The calls that a program makes on the object, each with libuv's answer.
pub data ThreadUse : Type 0 where
  use_run use_join : ℤ → ThreadUse
  use_run_with : ℤ → (opts stack : ℕ) → ThreadUse

unfoldable pub use_thread : ThreadUse → Thread → Outcome
unfolding run_thread run_with join
use_thread (use_run res) t = run_thread res t
use_thread (use_join res) t = join res t
use_thread (use_run_with res opts stack) t = run_with res opts stack t

-- The uses in turn, and the destructor, which joins.
unfoldable pub life : (at_exit : ℤ) → List ThreadUse → Thread → List ThreadCall
unfolding use_thread join
life at_exit [] t = (join at_exit t).calls
life at_exit (u ∷ us) t = (use_thread u t).calls ++ life at_exit us (use_thread u t).object

-- `thread::equal`, and the tests of the results: `name`, `priority`, `mutex::try_lock`,
-- `rwlock::try_rdlock`, `rwlock::try_wrlock`, `semaphore::try_wait`, `condition::timed_wait` and
-- `barrier::wait`.
unfoldable pub equal : (uv_thread_equal : ℤ) → Bool
equal uv_thread_equal = not (is_zero uv_thread_equal)

unfoldable pub succeeded : (res : ℤ) → Bool
succeeded res = is_zero res

-- A mutex's constructor picks the kind of lock.
pub data MutexCall : Type 0 where
  mutex_init mutex_init_recursive : MutexCall

unfoldable pub made_mutex : (recursive : Bool) → MutexCall
made_mutex recursive = if recursive then mutex_init_recursive else mutex_init
