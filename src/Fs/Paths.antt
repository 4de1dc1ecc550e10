-- ===== src/Fs/Paths.antt =====
-- src/uvw/fs.ipp: the operations of `fs_req` on paths, each as its asynchronous and its synchronous
-- function.
use uvw.Prelude.{ℕ, true, false, none, some, List}
use uvw.Prelude.{to_size, if◌then◌else◌}
use uvw.Fs.{
  Base, Entry, Libuv, Answer, flag, count, info, text, made, linked, call, ok, size_of,
  request_callback,
}
use uvw.Fs.{
  uv_fs_unlink, uv_fs_mkdir, uv_fs_mkdtemp, uv_fs_mkstemp, uv_fs_lutime, uv_fs_rmdir, uv_fs_scandir,
  uv_fs_stat, uv_fs_lstat, uv_fs_statfs,
}

-- `dirents` is the entry that `scandir_next` and `readdir` have libuv fill.
pub record FsReq : Type 0 where
  pub base : Base
  pub dirents : Entry

abbrev pub flag_of : Base → Answer
flag_of b = flag (ok b)

abbrev pub path_of : Base → Answer
path_of b = text (ok b) b.raw.path

abbrev pub count_of : Base → Answer
count_of b = count (ok b) (size_of b)

abbrev pub made_of : Base → Answer
made_of b = if ok b then made true b.raw.path (to_size b.raw.result) else made false none 0

abbrev pub stat_of : Base → Answer
stat_of b = info (ok b) (some b.raw.statbuf)

abbrev pub ptr_of : Base → Answer
ptr_of b = info (ok b) b.raw.ptr

abbrev pub link_of : Base → Answer
link_of b = linked (ok b) b.raw.ptr (size_of b)

module _ (libuv : Libuv) where
  unfoldable pub unlink : List ℕ → FsReq → FsReq
  unfolding call
  unlink path r = record r { base = call libuv (uv_fs_unlink path) (some request_callback) r.base }

  unfoldable pub unlink_sync : List ℕ → FsReq → Answer × FsReq
  unfolding call
  unlink_sync path r =
      let b = call libuv (uv_fs_unlink path) none r.base in (flag_of b, record r { base = b })

  unfoldable pub mkdir : List ℕ → ℕ → FsReq → FsReq
  unfolding call
  mkdir path mode r = record r {
    base = call libuv (uv_fs_mkdir path mode) (some request_callback) r.base;
  }

  unfoldable pub mkdir_sync : List ℕ → ℕ → FsReq → Answer × FsReq
  unfolding call
  mkdir_sync path mode r =
      let b = call libuv (uv_fs_mkdir path mode) none r.base in (flag_of b, record r { base = b })

  unfoldable pub mkdtemp : List ℕ → FsReq → FsReq
  unfolding call
  mkdtemp tpl r = record r { base = call libuv (uv_fs_mkdtemp tpl) (some request_callback) r.base }

  unfoldable pub mkdtemp_sync : List ℕ → FsReq → Answer × FsReq
  unfolding call
  mkdtemp_sync tpl r =
      let b = call libuv (uv_fs_mkdtemp tpl) none r.base in (path_of b, record r { base = b })

  unfoldable pub mkstemp : List ℕ → FsReq → FsReq
  unfolding call
  mkstemp tpl r = record r { base = call libuv (uv_fs_mkstemp tpl) (some request_callback) r.base }

  unfoldable pub mkstemp_sync : List ℕ → FsReq → Answer × FsReq
  unfolding call
  mkstemp_sync tpl r =
      let b = call libuv (uv_fs_mkstemp tpl) none r.base in (made_of b, record r { base = b })

  unfoldable pub lutime : List ℕ → ℕ → ℕ → FsReq → FsReq
  unfolding call
  lutime path atime mtime r = record r {
    base = call libuv (uv_fs_lutime path atime mtime) (some request_callback) r.base;
  }

  unfoldable pub lutime_sync : List ℕ → ℕ → ℕ → FsReq → Answer × FsReq
  unfolding call
  lutime_sync path atime mtime r =
      let b = call libuv (uv_fs_lutime path atime mtime) none r.base in
      (flag_of b, record r { base = b })

  unfoldable pub rmdir : List ℕ → FsReq → FsReq
  unfolding call
  rmdir path r = record r { base = call libuv (uv_fs_rmdir path) (some request_callback) r.base }

  unfoldable pub rmdir_sync : List ℕ → FsReq → Answer × FsReq
  unfolding call
  rmdir_sync path r =
      let b = call libuv (uv_fs_rmdir path) none r.base in (flag_of b, record r { base = b })

  unfoldable pub scandir : List ℕ → ℕ → FsReq → FsReq
  unfolding call
  scandir path flags r = record r {
    base = call libuv (uv_fs_scandir path flags) (some request_callback) r.base;
  }

  unfoldable pub scandir_sync : List ℕ → ℕ → FsReq → Answer × FsReq
  unfolding call
  scandir_sync path flags r =
      let b = call libuv (uv_fs_scandir path flags) none r.base in
      (count_of b, record r { base = b })

  unfoldable pub stat : List ℕ → FsReq → FsReq
  unfolding call
  stat path r = record r { base = call libuv (uv_fs_stat path) (some request_callback) r.base }

  unfoldable pub stat_sync : List ℕ → FsReq → Answer × FsReq
  unfolding call
  stat_sync path r =
      let b = call libuv (uv_fs_stat path) none r.base in (stat_of b, record r { base = b })

  unfoldable pub lstat : List ℕ → FsReq → FsReq
  unfolding call
  lstat path r = record r { base = call libuv (uv_fs_lstat path) (some request_callback) r.base }

  unfoldable pub lstat_sync : List ℕ → FsReq → Answer × FsReq
  unfolding call
  lstat_sync path r =
      let b = call libuv (uv_fs_lstat path) none r.base in (stat_of b, record r { base = b })

  unfoldable pub statfs : List ℕ → FsReq → FsReq
  unfolding call
  statfs path r = record r { base = call libuv (uv_fs_statfs path) (some request_callback) r.base }

  unfoldable pub statfs_sync : List ℕ → FsReq → Answer × FsReq
  unfolding call
  statfs_sync path r =
      let b = call libuv (uv_fs_statfs path) none r.base in (ptr_of b, record r { base = b })
