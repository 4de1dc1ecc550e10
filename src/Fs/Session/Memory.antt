-- ===== src/Fs/Session/Memory.antt =====
-- What each operation of a file request, and each callback, does with the block that it owns.
use uvw.Prelude.{ℕ, ◌+◌, ◌≡◌, refl, Option, none, some, is_neg, inl, inr, Bool-cases, occurs, arith}
use uvw.Fs.{
  Libuv, FsCall, FsCallback, open_callback, close_callback, read_callback, request_callback,
  fs_request_callback, fs_event_of, call, clean, issued,
}
use uvw.Fs.File.{
  FileReq, complete, fs_open_callback, fs_close_callback, fs_read_callback, close, file_open, read,
  write_owned, stat, sync, datasync, truncate, sendfile, chmod, futime, chown, close_sync,
  open_sync, read_sync, write_sync, stat_sync, sync_sync, datasync_sync, truncate_sync,
  sendfile_sync, chmod_sync, futime_sync, chown_sync,
}
use uvw.Fs.FileOps.{
  FileOp, start, run_sync, op_close, op_open, op_read, op_write, op_stat, op_sync, op_datasync,
  op_truncate, op_sendfile, op_chmod, op_futime, op_chown,
}
use uvw.Fs.Session.{listed, launched, block_of, new_block, assigned, dropped, returned, event_block}

-- An assignment to a `std::unique_ptr` frees what it does not keep.
pub assigned-dropped :
    (a : ℕ) (new old : Option ℕ)
    → occurs a (dropped new old) + occurs a (listed (assigned new old))
      ≡ occurs a (listed new) + occurs a (listed old)
unfolding occurs dropped assigned
assigned-dropped a none old = omega arith
assigned-dropped a (some b) old = omega arith

module _ (libuv : Libuv) where
  -- libuv gets the block that the operation leaves in the request.
  pub start-current :
      (op : FileOp) (r : FileReq)
      → (c : FsCall) × (cb : FsCallback) × (launched (start libuv op r).base.log ≡ some (c, cb))
        × (block_of c ≡ new_block op)
        × ((start libuv op r).current ≡ assigned (new_block op) r.current)
  unfolding start close file_open read write_owned stat sync datasync truncate sendfile chmod futime
      chown call clean issued launched block_of new_block assigned
  start-current op_close r = (_, _, refl, refl, refl)
  start-current (op_open path flags mode) r = (_, _, refl, refl, refl)
  start-current (op_read fresh offset len) r = (_, _, refl, refl, refl)
  start-current (op_write buf len offset) r = (_, _, refl, refl, refl)
  start-current op_stat r = (_, _, refl, refl, refl)
  start-current op_sync r = (_, _, refl, refl, refl)
  start-current op_datasync r = (_, _, refl, refl, refl)
  start-current (op_truncate offset) r = (_, _, refl, refl, refl)
  start-current (op_sendfile out offset length) r = (_, _, refl, refl, refl)
  start-current (op_chmod mode) r = (_, _, refl, refl, refl)
  start-current (op_futime atime mtime) r = (_, _, refl, refl, refl)
  start-current (op_chown uid gid) r = (_, _, refl, refl, refl)

  pub run_sync-current :
      (a : ℕ) (op : FileOp) (r : FileReq)
      → occurs a (returned (run_sync libuv op r).0)
          + occurs a (listed (run_sync libuv op r).1.current)
        ≡ occurs a (listed (assigned (new_block op) r.current))
  unfolding run_sync close_sync open_sync read_sync write_sync stat_sync sync_sync datasync_sync
      truncate_sync sendfile_sync chmod_sync futime_sync chown_sync returned new_block assigned
      occurs
  run_sync-current a op_close r = omega arith
  run_sync-current a (op_open path flags mode) r = omega arith
  run_sync-current a (op_read fresh offset len) r = omega arith
  run_sync-current a (op_write buf len offset) r = omega arith
  run_sync-current a op_stat r = omega arith
  run_sync-current a op_sync r = omega arith
  run_sync-current a op_datasync r = omega arith
  run_sync-current a (op_truncate offset) r = omega arith
  run_sync-current a (op_sendfile out offset length) r = omega arith
  run_sync-current a (op_chmod mode) r = omega arith
  run_sync-current a (op_futime atime mtime) r = omega arith
  run_sync-current a (op_chown uid gid) r = omega arith

  -- A callback moves the block to the event, or leaves it in the request.
  pub complete-current :
      (a : ℕ) (cb : FsCallback) (r : FileReq)
      → occurs a (event_block (complete libuv cb r).0)
          + occurs a (listed (complete libuv cb r).1.current)
        ≡ occurs a (listed r.current)
  unfolding complete fs_open_callback fs_close_callback fs_read_callback fs_request_callback
      fs_event_of event_block occurs
  complete-current a open_callback r = elim (Bool-cases (is_neg r.base.raw.result)) [
    | inl bad ↦ rw bad omega arith
    | inr good ↦ rw good omega arith
  ]
  complete-current a close_callback r = elim (Bool-cases (is_neg r.base.raw.result)) [
    | inl bad ↦ rw bad omega arith
    | inr good ↦ rw good omega arith
  ]
  complete-current a read_callback r = elim (Bool-cases (is_neg r.base.raw.result)) [
    | inl bad ↦ rw bad omega arith
    | inr good ↦ rw good omega arith
  ]
  complete-current a request_callback r = elim (Bool-cases (is_neg r.base.raw.result)) [
    | inl bad ↦ rw bad omega arith
    | inr good ↦ rw good omega arith
  ]
