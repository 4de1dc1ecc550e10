-- ===== src/Fs/FileOps.antt =====
-- That the asynchronous and the synchronous function of every operation on files agree.
use uvw.Prelude.{ℕ, ◌≡◌, refl, none, some, List, ◌∷◌, ℤ, arith}
use uvw.Fs.{
  Libuv, FsCall, FsCallback, Answer, answer_ok, call, clean, issued, arrive, fs_request_callback,
  report_ok, cleanup, issue,
}
use uvw.Fs.File.{
  FileReq, complete, fs_open_callback, fs_close_callback, fs_read_callback, close, file_open, read,
  write_owned, stat, sync, datasync, truncate, sendfile, chmod, futime, chown, close_sync,
  open_sync, read_sync, write_sync, stat_sync, sync_sync, datasync_sync, truncate_sync,
  sendfile_sync, chmod_sync, futime_sync, chown_sync,
}

-- An operation of `file_req`; a write is one of memory that the request takes over.
pub data FileOp : Type 0 where
  op_close : FileOp
  op_open : (path : List ℕ) → (flags : ℕ) → (mode : ℕ) → FileOp
  op_read : (fresh : ℕ) → (offset : ℤ) → (len : ℕ) → FileOp
  op_write : (buf : ℕ) → (len : ℕ) → (offset : ℤ) → FileOp
  op_stat : FileOp
  op_sync : FileOp
  op_datasync : FileOp
  op_truncate : (offset : ℤ) → FileOp
  op_sendfile : (out : ℤ) → (offset : ℤ) → (length : ℕ) → FileOp
  op_chmod : (mode : ℕ) → FileOp
  op_futime : (atime : ℕ) → (mtime : ℕ) → FileOp
  op_chown : (uid : ℕ) → (gid : ℕ) → FileOp

module _ (libuv : Libuv) where
  unfoldable pub start : FileOp → FileReq → FileReq
  unfolding close file_open read write_owned stat sync datasync truncate sendfile chmod futime chown
  start op_close r = close libuv r
  start (op_open path flags mode) r = file_open libuv path flags mode r
  start (op_read fresh offset len) r = read libuv fresh offset len r
  start (op_write buf len offset) r = write_owned libuv buf len offset r
  start op_stat r = stat libuv r
  start op_sync r = sync libuv r
  start op_datasync r = datasync libuv r
  start (op_truncate offset) r = truncate libuv offset r
  start (op_sendfile out offset length) r = sendfile libuv out offset length r
  start (op_chmod mode) r = chmod libuv mode r
  start (op_futime atime mtime) r = futime libuv atime mtime r
  start (op_chown uid gid) r = chown libuv uid gid r

  unfoldable pub run_sync : FileOp → FileReq → Answer × FileReq
  unfolding close_sync open_sync read_sync write_sync stat_sync sync_sync datasync_sync
      truncate_sync sendfile_sync chmod_sync futime_sync chown_sync
  run_sync op_close r = close_sync libuv r
  run_sync (op_open path flags mode) r = open_sync libuv path flags mode r
  run_sync (op_read fresh offset len) r = read_sync libuv fresh offset len r
  run_sync (op_write buf len offset) r = write_sync libuv buf len offset r
  run_sync op_stat r = stat_sync libuv r
  run_sync op_sync r = sync_sync libuv r
  run_sync op_datasync r = datasync_sync libuv r
  run_sync (op_truncate offset) r = truncate_sync libuv offset r
  run_sync (op_sendfile out offset length) r = sendfile_sync libuv out offset length r
  run_sync (op_chmod mode) r = chmod_sync libuv mode r
  run_sync (op_futime atime mtime) r = futime_sync libuv atime mtime r
  run_sync (op_chown uid gid) r = chown_sync libuv uid gid r

  -- The two functions of an operation issue the same call of libuv on the same descriptor, after one
  -- cleanup; and where libuv answers both alike, the callback reports an error if and only if the
  -- synchronous function returns `false`, and both leave the same descriptor in the request.
  pub file_start-run_sync :
      (op : FileOp) (r : FileReq)
      → (c : FsCall) × (cb : FsCallback) × ((start op r).base.log
          ≡ issue c (some cb) ∷ cleanup ∷ r.base.log)
        × ((run_sync op r).1.base.log ≡ issue c none ∷ cleanup ∷ r.base.log)
        × ((report_ok
              (complete libuv cb
                (record (start op r) { base = arrive libuv c (start op r).base })).0)
            ≡ answer_ok (run_sync op r).0)
        × ((complete libuv cb
              (record (start op r) { base = arrive libuv c (start op r).base })).1.file
            ≡ (run_sync op r).1.file)
  unfolding start run_sync close file_open read write_owned stat sync datasync truncate sendfile
      chmod futime chown close_sync open_sync read_sync write_sync stat_sync sync_sync datasync_sync
      truncate_sync sendfile_sync chmod_sync futime_sync chown_sync call clean issued arrive
      complete fs_open_callback fs_close_callback fs_read_callback fs_request_callback report_ok
      answer_ok
  file_start-run_sync op_close r = (_, _, refl, refl, ground arith, ground arith)
  file_start-run_sync (op_open path flags mode) r = (_, _, refl, refl, ground arith, ground arith)
  file_start-run_sync (op_read fresh offset len) r = (_, _, refl, refl, ground arith, ground arith)
  file_start-run_sync (op_write buf len offset) r = (_, _, refl, refl, ground arith, ground arith)
  file_start-run_sync op_stat r = (_, _, refl, refl, ground arith, ground arith)
  file_start-run_sync op_sync r = (_, _, refl, refl, ground arith, ground arith)
  file_start-run_sync op_datasync r = (_, _, refl, refl, ground arith, ground arith)
  file_start-run_sync (op_truncate offset) r = (_, _, refl, refl, ground arith, ground arith)
  file_start-run_sync (op_sendfile out offset length) r =
      (_, _, refl, refl, ground arith, ground arith)
  file_start-run_sync (op_chmod mode) r = (_, _, refl, refl, ground arith, ground arith)
  file_start-run_sync (op_futime atime mtime) r = (_, _, refl, refl, ground arith, ground arith)
  file_start-run_sync (op_chown uid gid) r = (_, _, refl, refl, ground arith, ground arith)
