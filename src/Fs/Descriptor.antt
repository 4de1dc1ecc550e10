-- ===== src/Fs/Descriptor.antt =====
-- Which descriptor the operations of a file request use.
pub mod Opened
use uvw.Prelude.{
  false≢true, ℕ, ◌≡◌, refl, sym, ap, subst, ◌∙◌, Bool, true, false, not, ◌&&◌, Option, none, some,
  List, [], ◌∷◌, ◌++◌, ℤ, to_int, is_neg, is_some, All, arith, Bool-cases, Option-cases, inl, inr,
}
use uvw.Fs.{
  Libuv, FsCall, FsCallback, FsEffect, open_callback, close_callback, read_callback,
  request_callback, fs_request_callback, cleanup, issue, call, clean, issued, arrive, uv_fs_open,
  uv_fs_close, uv_fs_read, uv_fs_write, uv_fs_fstat, uv_fs_fsync, uv_fs_fdatasync, uv_fs_ftruncate,
  uv_fs_sendfile, uv_fs_fchmod, uv_fs_futime, uv_fs_fchown,
}
use uvw.Fs.File.{
  FileReq, complete, fs_open_callback, fs_read_callback, write_plain, close, file_open, read,
  write_owned, stat, sync, datasync, truncate, sendfile, chmod, futime, chown, close_sync,
  open_sync, read_sync, write_sync, stat_sync, sync_sync, datasync_sync, truncate_sync,
  sendfile_sync, chmod_sync, futime_sync, chown_sync,
}
use uvw.Fs.FileOps.{
  FileOp, start, run_sync, op_close, op_open, op_read, op_write, op_stat, op_sync, op_datasync,
  op_truncate, op_sendfile, op_chmod, op_futime, op_chown,
}
use uvw.Fs.Session.{Session, launched, Move, starts, lends, syncs, arrives, answered, move, moves}
use uvw.Fs.Session.Cleanups.{complete-log}

unfoldable pub opens : FileOp → Bool
opens (op_open path flags mode) = true
opens _ = false

unfoldable pub closes : FileOp → Bool
closes op_close = true
closes _ = false

unfoldable pub is_steady : Move → Bool
unfolding opens closes
is_steady (starts op) = not (opens op) && not (closes op)
is_steady (syncs op) = not (opens op) && not (closes op)
is_steady (lends buf len offset) = true
is_steady (arrives takes) = true

-- None of the operations opens or closes.
unfoldable pub steady : List Move → Bool
unfolding is_steady
steady [] = true
steady (m ∷ ms) = is_steady m && steady ms

-- The descriptor that a call of libuv works on.
unfoldable pub descriptor : FsCall → Option ℤ
descriptor (uv_fs_close file) = some file
descriptor (uv_fs_read file block len offset) = some file
descriptor (uv_fs_write file block len offset) = some file
descriptor (uv_fs_fstat file) = some file
descriptor (uv_fs_fsync file) = some file
descriptor (uv_fs_fdatasync file) = some file
descriptor (uv_fs_ftruncate file offset) = some file
descriptor (uv_fs_sendfile out file offset length) = some file
descriptor (uv_fs_fchmod file mode) = some file
descriptor (uv_fs_futime file atime mtime) = some file
descriptor (uv_fs_fchown file uid gid) = some file
descriptor _ = none

-- A cleanup, or a call on the descriptor `fd`.
abbrev pub IsOn : ℤ → FsEffect → Type 0
IsOn fd cleanup = Unit
IsOn fd (issue c cb) = descriptor c ≡ some fd

-- The callback leaves the descriptor as it is.
abbrev pub Leaves : Option (FsCall × FsCallback) → Type 0
Leaves none = Unit
Leaves (some (c, open_callback)) = ⊥
Leaves (some (c, close_callback)) = ⊥
Leaves (some (c, read_callback)) = Unit
Leaves (some (c, request_callback)) = Unit

module _ (libuv : Libuv) where
  pub start-on :
      (op : FileOp) (r : FileReq)
      → opens op ≡ false
      → closes op ≡ false
      → (c : FsCall) × (cb : FsCallback) × ((start libuv op r).base.log
          ≡ issue c (some cb) ∷ cleanup ∷ r.base.log)
        × Leaves (launched (start libuv op r).base.log)
        × (descriptor c ≡ some r.file)
        × ((start libuv op r).file ≡ r.file)
  unfolding opens closes start close file_open read write_owned stat sync datasync truncate sendfile
      chmod futime chown call clean issued launched descriptor
  start-on op_close r h k = cc
  start-on (op_open path flags mode) r h k = cc
  start-on (op_read fresh offset len) r h k = (_, _, refl, tt, refl, refl)
  start-on (op_write buf len offset) r h k = (_, _, refl, tt, refl, refl)
  start-on op_stat r h k = (_, _, refl, tt, refl, refl)
  start-on op_sync r h k = (_, _, refl, tt, refl, refl)
  start-on op_datasync r h k = (_, _, refl, tt, refl, refl)
  start-on (op_truncate offset) r h k = (_, _, refl, tt, refl, refl)
  start-on (op_sendfile out offset length) r h k = (_, _, refl, tt, refl, refl)
  start-on (op_chmod mode) r h k = (_, _, refl, tt, refl, refl)
  start-on (op_futime atime mtime) r h k = (_, _, refl, tt, refl, refl)
  start-on (op_chown uid gid) r h k = (_, _, refl, tt, refl, refl)

  pub run_sync-on :
      (op : FileOp) (r : FileReq)
      → opens op ≡ false
      → closes op ≡ false
      → (c : FsCall) × ((run_sync libuv op r).1.base.log ≡ issue c none ∷ cleanup ∷ r.base.log)
        × (descriptor c ≡ some r.file)
        × ((run_sync libuv op r).1.file ≡ r.file)
  unfolding opens closes run_sync close_sync open_sync read_sync write_sync stat_sync sync_sync
      datasync_sync truncate_sync sendfile_sync chmod_sync futime_sync chown_sync call clean issued
      descriptor
  run_sync-on op_close r h k = cc
  run_sync-on (op_open path flags mode) r h k = cc
  run_sync-on (op_read fresh offset len) r h k = (_, refl, refl, refl)
  run_sync-on (op_write buf len offset) r h k = (_, refl, refl, refl)
  run_sync-on op_stat r h k = (_, refl, refl, refl)
  run_sync-on op_sync r h k = (_, refl, refl, refl)
  run_sync-on op_datasync r h k = (_, refl, refl, refl)
  run_sync-on (op_truncate offset) r h k = (_, refl, refl, refl)
  run_sync-on (op_sendfile out offset length) r h k = (_, refl, refl, refl)
  run_sync-on (op_chmod mode) r h k = (_, refl, refl, refl)
  run_sync-on (op_futime atime mtime) r h k = (_, refl, refl, refl)
  run_sync-on (op_chown uid gid) r h k = (_, refl, refl, refl)

  pub lent-on :
      (buf len : ℕ) (offset : ℤ) (r : FileReq)
      → (c : FsCall) × ((write_plain libuv buf len offset r).base.log
          ≡ issue c (some request_callback) ∷ cleanup ∷ r.base.log)
        × Leaves (launched (write_plain libuv buf len offset r).base.log)
        × (descriptor c ≡ some r.file)
  unfolding write_plain call clean issued launched descriptor
  lent-on buf len offset r = (_, refl, tt, refl)

  pub complete-file :
      (c : FsCall) (cb : FsCallback) (r : FileReq)
      → Leaves (some (c, cb))
      → (complete libuv cb r).1.file ≡ r.file
  unfolding complete fs_read_callback fs_request_callback
  complete-file c open_callback r h = absurd h
  complete-file c close_callback r h = absurd h
  complete-file c read_callback r h = elim (Bool-cases (is_neg r.base.raw.result)) [
    | inl bad ↦ rw bad refl
    | inr good ↦ rw good refl
  ]
  complete-file c request_callback r h = refl
