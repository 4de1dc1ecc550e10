-- ===== src/Thread/Locks.antt =====
-- The locks of src/uvw/thread.h and thread.ipp, thread-local storage, and the other members of
-- `thread`: what each calls of libuv for the object that it holds.
use uvw.Prelude.{ℕ, Bool, List, [], ◌∷◌, ℤ, is_zero, if◌then◌else◌}
use uvw.Util.Text.{c_string}

-- The classes that hold a structure of libuv, with what their constructor is given.
pub data Lock : Type 0 where
  thread_local_storage rwlock condition : Lock
  mutex : (recursive : Bool) → Lock
  semaphore barrier : ℕ → Lock

-- The calls on the structure of the object; a condition's `wait` also takes a mutex, by its address.
pub data LockCall : Type 0 where
  uv_key_create uv_key_delete uv_key_get : LockCall
  uv_key_set : (value : ℕ) → LockCall
  uv_mutex_init uv_mutex_init_recursive uv_mutex_destroy : LockCall
  uv_mutex_lock uv_mutex_trylock uv_mutex_unlock : LockCall
  uv_rwlock_init uv_rwlock_destroy uv_rwlock_rdlock uv_rwlock_tryrdlock uv_rwlock_rdunlock :
      LockCall
  uv_rwlock_wrlock uv_rwlock_trywrlock uv_rwlock_wrunlock : LockCall
  uv_sem_init : ℕ → LockCall
  uv_sem_destroy uv_sem_post uv_sem_wait uv_sem_trywait : LockCall
  uv_cond_init uv_cond_destroy uv_cond_signal uv_cond_broadcast : LockCall
  uv_cond_wait : (mtx : ℕ) → LockCall
  uv_cond_timedwait : (mtx timeout : ℕ) → LockCall
  uv_barrier_init : ℕ → LockCall
  uv_barrier_destroy uv_barrier_wait : LockCall

-- The constructors, none of which looks at what libuv returns.
unfoldable pub construct : Lock → LockCall
construct thread_local_storage = uv_key_create
construct (mutex recursive) = if recursive then uv_mutex_init_recursive else uv_mutex_init
construct rwlock = uv_rwlock_init
construct (semaphore value) = uv_sem_init value
construct condition = uv_cond_init
construct (barrier count) = uv_barrier_init count

-- The destructors.
unfoldable pub destruct : Lock → LockCall
destruct thread_local_storage = uv_key_delete
destruct (mutex recursive) = uv_mutex_destroy
destruct rwlock = uv_rwlock_destroy
destruct (semaphore value) = uv_sem_destroy
destruct condition = uv_cond_destroy
destruct (barrier count) = uv_barrier_destroy

-- The members of each class.
pub data LockUse : Lock → Type 0 where
  get : LockUse thread_local_storage
  set : (value : ℕ) → LockUse thread_local_storage
  lock try_lock unlock : {recursive : Bool} → LockUse (mutex recursive)
  rdlock try_rdlock rdunlock wrlock try_wrlock wrunlock : LockUse rwlock
  post sem_wait sem_try_wait : {value : ℕ} → LockUse (semaphore value)
  signal broadcast : LockUse condition
  cond_wait : (mtx : ℕ) → LockUse condition
  timed_wait : (mtx timeout : ℕ) → LockUse condition
  barrier_wait : {count : ℕ} → LockUse (barrier count)

unfoldable pub lock_call : {l : Lock} → LockUse l → LockCall
lock_call get = uv_key_get
lock_call (set value) = uv_key_set value
lock_call lock = uv_mutex_lock
lock_call try_lock = uv_mutex_trylock
lock_call unlock = uv_mutex_unlock
lock_call rdlock = uv_rwlock_rdlock
lock_call try_rdlock = uv_rwlock_tryrdlock
lock_call rdunlock = uv_rwlock_rdunlock
lock_call wrlock = uv_rwlock_wrlock
lock_call try_wrlock = uv_rwlock_trywrlock
lock_call wrunlock = uv_rwlock_wrunlock
lock_call post = uv_sem_post
lock_call sem_wait = uv_sem_wait
lock_call sem_try_wait = uv_sem_trywait
lock_call signal = uv_cond_signal
lock_call broadcast = uv_cond_broadcast
lock_call (cond_wait mtx) = uv_cond_wait mtx
lock_call (timed_wait mtx timeout) = uv_cond_timedwait mtx timeout
lock_call barrier_wait = uv_barrier_wait

-- The members that return a `bool`: `0 ==` what libuv returns.
unfoldable pub try_result : (libuv : LockCall → ℤ) → {l : Lock} → LockUse l → Bool
unfolding lock_call
try_result libuv u = is_zero (libuv (lock_call u))

-- All the calls for an object's structure, from its construction to its end.
unfoldable pub lock_life : {l : Lock} → List (LockUse l) → List LockCall
unfolding construct destruct lock_call
lock_life {l} us = construct l ∷ uses us
  where
    uses : List (LockUse l) → List LockCall
    uses [] = destruct l ∷ []
    uses (u ∷ us) = lock_call u ∷ uses us

-- `thread::priority(tl)`, with what `prio` holds after the call; it is 0 before.
unfoldable pub get_priority : (res : ℤ) → (prio : ℤ) → Bool × ℤ
get_priority res prio = (is_zero res, prio)

-- `thread::name(tl)`: the buffer that `uv_thread_getname` was given.
unfoldable pub get_name : (buf : List ℕ) → List ℕ
unfolding c_string
get_name buf = c_string buf
