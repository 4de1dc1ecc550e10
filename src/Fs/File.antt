-- ===== src/Fs/File.antt =====
-- src/uvw/fs.ipp: `file_req`, its descriptor and its operations.
use uvw.Prelude.{ℕ, not, Option, none, some, List, ℤ, negsuc, is_neg, to_int, if◌then◌else◌}
use uvw.Emitter.{to_error_event}
use uvw.Fs.{
  Base, Libuv, Answer, flag, info, count, block, call, ok, size_of, FsCall, FsReport, failed,
  finished, FsCallback, open_callback, close_callback, read_callback, request_callback, fs_event_of,
  fs_request_callback, uv_fs_close, uv_fs_open, uv_fs_read, uv_fs_write, uv_fs_fstat, uv_fs_fsync,
  uv_fs_fdatasync, uv_fs_ftruncate, uv_fs_sendfile, uv_fs_fchmod, uv_fs_futime, uv_fs_fchown,
}

abbrev pub bad_fd : ℤ
bad_fd = negsuc 0

-- `current` is the block of memory that the request owns.
pub record FileReq : Type 0 where
  pub base : Base
  pub file : ℤ
  pub current : Option ℕ

module _ (libuv : Libuv) where
  -- An asynchronous operation that changes nothing but the request, and the base of a synchronous one.
  abbrev async : FsCall → FileReq → FileReq
  async c r = record r { base = call libuv c (some request_callback) r.base }

  abbrev answered : FsCall → FileReq → Base
  answered c r = call libuv c none r.base

  unfoldable pub close : FileReq → FileReq
  unfolding call
  close r = record r { base = call libuv (uv_fs_close r.file) (some close_callback) r.base }

  unfoldable pub close_sync : FileReq → Answer × FileReq
  unfolding call
  close_sync r =
      let b = answered (uv_fs_close r.file) r in
      (
        flag (ok b),
        record r { base = b; file = if not (is_neg b.raw.result) then bad_fd else r.file },
      )

  unfoldable pub file_open : List ℕ → (flags mode : ℕ) → FileReq → FileReq
  unfolding call
  file_open path flags mode r = record r {
    base = call libuv (uv_fs_open path flags mode) (some open_callback) r.base;
  }

  unfoldable pub open_sync : List ℕ → (flags mode : ℕ) → FileReq → Answer × FileReq
  unfolding call
  open_sync path flags mode r =
      let b = answered (uv_fs_open path flags mode) r in
      (
        flag (ok b),
        record r {
          base = b;
          file = if not (is_neg b.raw.result) then to_int b.raw.result else r.file;
        },
      )

  -- `fresh` is what `std::make_unique` returns.
  unfoldable pub read : (fresh : ℕ) → (offset : ℤ) → (len : ℕ) → FileReq → FileReq
  unfolding call
  read fresh offset len r = record r {
    base = call libuv (uv_fs_read r.file fresh len offset) (some read_callback) r.base;
    current = some fresh;
  }

  unfoldable pub read_sync : (fresh : ℕ) → (offset : ℤ) → (len : ℕ) → FileReq → Answer × FileReq
  unfolding call
  read_sync fresh offset len r =
      let b = answered (uv_fs_read r.file fresh len offset) r in
      (block (ok b) (some fresh) (size_of b), record r { base = b; current = none })

  -- `write` is overloaded: with a `std::unique_ptr`, and with a plain pointer.
  unfoldable pub write_owned : (buf len : ℕ) → (offset : ℤ) → FileReq → FileReq
  unfolding call
  write_owned buf len offset r = record (async (uv_fs_write r.file buf len offset) r) {
    current = some buf;
  }

  unfoldable pub write_plain : (buf len : ℕ) → (offset : ℤ) → FileReq → FileReq
  unfolding call
  write_plain buf len offset r = async (uv_fs_write r.file buf len offset) r

  unfoldable pub write_sync : (buf len : ℕ) → (offset : ℤ) → FileReq → Answer × FileReq
  unfolding call
  write_sync buf len offset r =
      let b = answered (uv_fs_write r.file buf len offset) r in
      (count (ok b) (size_of b), record r { base = b; current = some buf })

  unfoldable pub stat : FileReq → FileReq
  unfolding call
  stat r = async (uv_fs_fstat r.file) r

  unfoldable pub stat_sync : FileReq → Answer × FileReq
  unfolding call
  stat_sync r =
      let b = answered (uv_fs_fstat r.file) r in
      (info (ok b) (some b.raw.statbuf), record r { base = b })

  unfoldable pub sync : FileReq → FileReq
  unfolding call
  sync r = async (uv_fs_fsync r.file) r

  unfoldable pub sync_sync : FileReq → Answer × FileReq
  unfolding call
  sync_sync r = let b = answered (uv_fs_fsync r.file) r in (flag (ok b), record r { base = b })

  unfoldable pub datasync : FileReq → FileReq
  unfolding call
  datasync r = async (uv_fs_fdatasync r.file) r

  unfoldable pub datasync_sync : FileReq → Answer × FileReq
  unfolding call
  datasync_sync r =
      let b = answered (uv_fs_fdatasync r.file) r in (flag (ok b), record r { base = b })

  unfoldable pub truncate : ℤ → FileReq → FileReq
  unfolding call
  truncate offset r = async (uv_fs_ftruncate r.file offset) r

  unfoldable pub truncate_sync : ℤ → FileReq → Answer × FileReq
  unfolding call
  truncate_sync offset r =
      let b = answered (uv_fs_ftruncate r.file offset) r in (flag (ok b), record r { base = b })

  unfoldable pub sendfile : ℤ → ℤ → ℕ → FileReq → FileReq
  unfolding call
  sendfile out offset length r = async (uv_fs_sendfile out r.file offset length) r

  unfoldable pub sendfile_sync : ℤ → ℤ → ℕ → FileReq → Answer × FileReq
  unfolding call
  sendfile_sync out offset length r =
      let b = answered (uv_fs_sendfile out r.file offset length) r in
      (count (ok b) (size_of b), record r { base = b })

  unfoldable pub chmod : ℕ → FileReq → FileReq
  unfolding call
  chmod mode r = async (uv_fs_fchmod r.file mode) r

  unfoldable pub chmod_sync : ℕ → FileReq → Answer × FileReq
  unfolding call
  chmod_sync mode r =
      let b = answered (uv_fs_fchmod r.file mode) r in (flag (ok b), record r { base = b })

  unfoldable pub futime : ℕ → ℕ → FileReq → FileReq
  unfolding call
  futime atime mtime r = async (uv_fs_futime r.file atime mtime) r

  unfoldable pub futime_sync : ℕ → ℕ → FileReq → Answer × FileReq
  unfolding call
  futime_sync atime mtime r =
      let b = answered (uv_fs_futime r.file atime mtime) r in (flag (ok b), record r { base = b })

  unfoldable pub chown : ℕ → ℕ → FileReq → FileReq
  unfolding call
  chown uid gid r = async (uv_fs_fchown r.file uid gid) r

  unfoldable pub chown_sync : ℕ → ℕ → FileReq → Answer × FileReq
  unfolding call
  chown_sync uid gid r =
      let b = answered (uv_fs_fchown r.file uid gid) r in (flag (ok b), record r { base = b })

  -- The callbacks, once libuv has answered: what each publishes, and the request after it.
  unfoldable pub fs_open_callback : FileReq → FsReport × FileReq
  unfolding to_error_event fs_event_of
  fs_open_callback r =
      if is_neg r.base.raw.result
      then (failed (to_error_event r.base.raw.result), r)
      else (finished (fs_event_of libuv r.base.raw), record r { file = to_int r.base.raw.result })

  unfoldable pub fs_close_callback : FileReq → FsReport × FileReq
  unfolding to_error_event fs_event_of
  fs_close_callback r =
      if is_neg r.base.raw.result
      then (failed (to_error_event r.base.raw.result), r)
      else (finished (fs_event_of libuv r.base.raw), record r { file = bad_fd })

  unfoldable pub fs_read_callback : FileReq → FsReport × FileReq
  unfolding to_error_event fs_event_of
  fs_read_callback r =
      if is_neg r.base.raw.result then (failed (to_error_event r.base.raw.result), r) else (
        finished (record (fs_event_of libuv r.base.raw) { read = r.current }),
        record r { current = none },
      )

  unfoldable pub complete : FsCallback → FileReq → FsReport × FileReq
  unfolding fs_open_callback fs_close_callback fs_read_callback fs_request_callback
  complete open_callback r = fs_open_callback r
  complete close_callback r = fs_close_callback r
  complete read_callback r = fs_read_callback r
  complete request_callback r = (fs_request_callback libuv r.base, r)
