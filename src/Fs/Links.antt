-- ===== src/Fs/Links.antt =====
-- src/uvw/fs.ipp: the operations of `fs_req` from `rename` on, as those of Fs/Paths.
use uvw.Prelude.{ℕ, none, some, List}
use uvw.Fs.{Libuv, Answer, call, request_callback}
use uvw.Fs.{
  uv_fs_rename, uv_fs_copyfile, uv_fs_access, uv_fs_chmod, uv_fs_utime, uv_fs_link, uv_fs_symlink,
  uv_fs_readlink, uv_fs_realpath, uv_fs_chown, uv_fs_lchown, uv_fs_opendir,
}
use uvw.Fs.Paths.{FsReq, flag_of, path_of, link_of}

module _ (libuv : Libuv) where
  unfoldable pub rename : List ℕ → List ℕ → FsReq → FsReq
  unfolding call
  rename old path r = record r {
    base = call libuv (uv_fs_rename old path) (some request_callback) r.base;
  }

  unfoldable pub rename_sync : List ℕ → List ℕ → FsReq → Answer × FsReq
  unfolding call
  rename_sync old path r =
      let b = call libuv (uv_fs_rename old path) none r.base in (flag_of b, record r { base = b })

  unfoldable pub copyfile : List ℕ → List ℕ → ℕ → FsReq → FsReq
  unfolding call
  copyfile old path flags r = record r {
    base = call libuv (uv_fs_copyfile old path flags) (some request_callback) r.base;
  }

  unfoldable pub copyfile_sync : List ℕ → List ℕ → ℕ → FsReq → Answer × FsReq
  unfolding call
  copyfile_sync old path flags r =
      let b = call libuv (uv_fs_copyfile old path flags) none r.base in
      (flag_of b, record r { base = b })

  unfoldable pub access : List ℕ → ℕ → FsReq → FsReq
  unfolding call
  access path mode r = record r {
    base = call libuv (uv_fs_access path mode) (some request_callback) r.base;
  }

  unfoldable pub access_sync : List ℕ → ℕ → FsReq → Answer × FsReq
  unfolding call
  access_sync path mode r =
      let b = call libuv (uv_fs_access path mode) none r.base in (flag_of b, record r { base = b })

  unfoldable pub chmod : List ℕ → ℕ → FsReq → FsReq
  unfolding call
  chmod path mode r = record r {
    base = call libuv (uv_fs_chmod path mode) (some request_callback) r.base;
  }

  unfoldable pub chmod_sync : List ℕ → ℕ → FsReq → Answer × FsReq
  unfolding call
  chmod_sync path mode r =
      let b = call libuv (uv_fs_chmod path mode) none r.base in (flag_of b, record r { base = b })

  unfoldable pub utime : List ℕ → ℕ → ℕ → FsReq → FsReq
  unfolding call
  utime path atime mtime r = record r {
    base = call libuv (uv_fs_utime path atime mtime) (some request_callback) r.base;
  }

  unfoldable pub utime_sync : List ℕ → ℕ → ℕ → FsReq → Answer × FsReq
  unfolding call
  utime_sync path atime mtime r =
      let b = call libuv (uv_fs_utime path atime mtime) none r.base in
      (flag_of b, record r { base = b })

  unfoldable pub link : List ℕ → List ℕ → FsReq → FsReq
  unfolding call
  link old path r = record r {
    base = call libuv (uv_fs_link old path) (some request_callback) r.base;
  }

  unfoldable pub link_sync : List ℕ → List ℕ → FsReq → Answer × FsReq
  unfolding call
  link_sync old path r =
      let b = call libuv (uv_fs_link old path) none r.base in (flag_of b, record r { base = b })

  unfoldable pub symlink : List ℕ → List ℕ → ℕ → FsReq → FsReq
  unfolding call
  symlink old path flags r = record r {
    base = call libuv (uv_fs_symlink old path flags) (some request_callback) r.base;
  }

  unfoldable pub symlink_sync : List ℕ → List ℕ → ℕ → FsReq → Answer × FsReq
  unfolding call
  symlink_sync old path flags r =
      let b = call libuv (uv_fs_symlink old path flags) none r.base in
      (flag_of b, record r { base = b })

  unfoldable pub readlink : List ℕ → FsReq → FsReq
  unfolding call
  readlink path r = record r {
    base = call libuv (uv_fs_readlink path) (some request_callback) r.base;
  }

  unfoldable pub readlink_sync : List ℕ → FsReq → Answer × FsReq
  unfolding call
  readlink_sync path r =
      let b = call libuv (uv_fs_readlink path) none r.base in (link_of b, record r { base = b })

  unfoldable pub realpath : List ℕ → FsReq → FsReq
  unfolding call
  realpath path r = record r {
    base = call libuv (uv_fs_realpath path) (some request_callback) r.base;
  }

  unfoldable pub realpath_sync : List ℕ → FsReq → Answer × FsReq
  unfolding call
  realpath_sync path r =
      let b = call libuv (uv_fs_realpath path) none r.base in (path_of b, record r { base = b })

  unfoldable pub chown : List ℕ → ℕ → ℕ → FsReq → FsReq
  unfolding call
  chown path uid gid r = record r {
    base = call libuv (uv_fs_chown path uid gid) (some request_callback) r.base;
  }

  unfoldable pub chown_sync : List ℕ → ℕ → ℕ → FsReq → Answer × FsReq
  unfolding call
  chown_sync path uid gid r =
      let b = call libuv (uv_fs_chown path uid gid) none r.base in
      (flag_of b, record r { base = b })

  unfoldable pub lchown : List ℕ → ℕ → ℕ → FsReq → FsReq
  unfolding call
  lchown path uid gid r = record r {
    base = call libuv (uv_fs_lchown path uid gid) (some request_callback) r.base;
  }

  unfoldable pub lchown_sync : List ℕ → ℕ → ℕ → FsReq → Answer × FsReq
  unfolding call
  lchown_sync path uid gid r =
      let b = call libuv (uv_fs_lchown path uid gid) none r.base in
      (flag_of b, record r { base = b })

  unfoldable pub opendir : List ℕ → FsReq → FsReq
  unfolding call
  opendir path r = record r {
    base = call libuv (uv_fs_opendir path) (some request_callback) r.base;
  }

  unfoldable pub opendir_sync : List ℕ → FsReq → Answer × FsReq
  unfolding call
  opendir_sync path r =
      let b = call libuv (uv_fs_opendir path) none r.base in (flag_of b, record r { base = b })
