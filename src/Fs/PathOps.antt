-- ===== src/Fs/PathOps.antt =====
-- That the asynchronous and the synchronous function of the operations of `fs_req` agree, `readdir`
-- excepted.
use uvw.Prelude.{ℕ, List}
use uvw.Fs.{Libuv, Answer}
use uvw.Fs.Paths.{
  FsReq, unlink, mkdir, mkdtemp, mkstemp, lutime, rmdir, scandir, stat, lstat, statfs, unlink_sync,
  mkdir_sync, mkdtemp_sync, mkstemp_sync, lutime_sync, rmdir_sync, scandir_sync, stat_sync,
  lstat_sync, statfs_sync,
}
use uvw.Fs.Links.{
  rename, copyfile, access, chmod, utime, link, symlink, readlink, realpath, chown, lchown, opendir,
  rename_sync, copyfile_sync, access_sync, chmod_sync, utime_sync, link_sync, symlink_sync,
  readlink_sync, realpath_sync, chown_sync, lchown_sync, opendir_sync,
}
use uvw.Fs.Directory.{closedir, closedir_sync}

-- An operation of `fs_req` other than `readdir`, whose synchronous function tests its result otherwise.
pub data PathOp : Type 0 where
  op_unlink : (path : List ℕ) → PathOp
  op_mkdir : (path : List ℕ) → (mode : ℕ) → PathOp
  op_mkdtemp : (tpl : List ℕ) → PathOp
  op_mkstemp : (tpl : List ℕ) → PathOp
  op_lutime : (path : List ℕ) → (atime : ℕ) → (mtime : ℕ) → PathOp
  op_rmdir : (path : List ℕ) → PathOp
  op_scandir : (path : List ℕ) → (flags : ℕ) → PathOp
  op_stat : (path : List ℕ) → PathOp
  op_lstat : (path : List ℕ) → PathOp
  op_statfs : (path : List ℕ) → PathOp
  op_rename : (old : List ℕ) → (path : List ℕ) → PathOp
  op_copyfile : (old : List ℕ) → (path : List ℕ) → (flags : ℕ) → PathOp
  op_access : (path : List ℕ) → (mode : ℕ) → PathOp
  op_chmod : (path : List ℕ) → (mode : ℕ) → PathOp
  op_utime : (path : List ℕ) → (atime : ℕ) → (mtime : ℕ) → PathOp
  op_link : (old : List ℕ) → (path : List ℕ) → PathOp
  op_symlink : (old : List ℕ) → (path : List ℕ) → (flags : ℕ) → PathOp
  op_readlink : (path : List ℕ) → PathOp
  op_realpath : (path : List ℕ) → PathOp
  op_chown : (path : List ℕ) → (uid : ℕ) → (gid : ℕ) → PathOp
  op_lchown : (path : List ℕ) → (uid : ℕ) → (gid : ℕ) → PathOp
  op_opendir : (path : List ℕ) → PathOp
  op_closedir : PathOp

module _ (libuv : Libuv) where
  -- The asynchronous function, and the synchronous one.
  unfoldable pub start : PathOp → FsReq → FsReq
  unfolding unlink mkdir mkdtemp mkstemp lutime rmdir scandir stat lstat statfs rename copyfile
      access chmod utime link symlink readlink realpath chown lchown opendir closedir
  start (op_unlink path) r = unlink libuv path r
  start (op_mkdir path mode) r = mkdir libuv path mode r
  start (op_mkdtemp tpl) r = mkdtemp libuv tpl r
  start (op_mkstemp tpl) r = mkstemp libuv tpl r
  start (op_lutime path atime mtime) r = lutime libuv path atime mtime r
  start (op_rmdir path) r = rmdir libuv path r
  start (op_scandir path flags) r = scandir libuv path flags r
  start (op_stat path) r = stat libuv path r
  start (op_lstat path) r = lstat libuv path r
  start (op_statfs path) r = statfs libuv path r
  start (op_rename old path) r = rename libuv old path r
  start (op_copyfile old path flags) r = copyfile libuv old path flags r
  start (op_access path mode) r = access libuv path mode r
  start (op_chmod path mode) r = chmod libuv path mode r
  start (op_utime path atime mtime) r = utime libuv path atime mtime r
  start (op_link old path) r = link libuv old path r
  start (op_symlink old path flags) r = symlink libuv old path flags r
  start (op_readlink path) r = readlink libuv path r
  start (op_realpath path) r = realpath libuv path r
  start (op_chown path uid gid) r = chown libuv path uid gid r
  start (op_lchown path uid gid) r = lchown libuv path uid gid r
  start (op_opendir path) r = opendir libuv path r
  start op_closedir r = closedir libuv r

  unfoldable pub run_sync : PathOp → FsReq → Answer × FsReq
  unfolding unlink_sync mkdir_sync mkdtemp_sync mkstemp_sync lutime_sync rmdir_sync scandir_sync
      stat_sync lstat_sync statfs_sync rename_sync copyfile_sync access_sync chmod_sync utime_sync
      link_sync symlink_sync readlink_sync realpath_sync chown_sync lchown_sync opendir_sync
      closedir_sync
  run_sync (op_unlink path) r = unlink_sync libuv path r
  run_sync (op_mkdir path mode) r = mkdir_sync libuv path mode r
  run_sync (op_mkdtemp tpl) r = mkdtemp_sync libuv tpl r
  run_sync (op_mkstemp tpl) r = mkstemp_sync libuv tpl r
  run_sync (op_lutime path atime mtime) r = lutime_sync libuv path atime mtime r
  run_sync (op_rmdir path) r = rmdir_sync libuv path r
  run_sync (op_scandir path flags) r = scandir_sync libuv path flags r
  run_sync (op_stat path) r = stat_sync libuv path r
  run_sync (op_lstat path) r = lstat_sync libuv path r
  run_sync (op_statfs path) r = statfs_sync libuv path r
  run_sync (op_rename old path) r = rename_sync libuv old path r
  run_sync (op_copyfile old path flags) r = copyfile_sync libuv old path flags r
  run_sync (op_access path mode) r = access_sync libuv path mode r
  run_sync (op_chmod path mode) r = chmod_sync libuv path mode r
  run_sync (op_utime path atime mtime) r = utime_sync libuv path atime mtime r
  run_sync (op_link old path) r = link_sync libuv old path r
  run_sync (op_symlink old path flags) r = symlink_sync libuv old path flags r
  run_sync (op_readlink path) r = readlink_sync libuv path r
  run_sync (op_realpath path) r = realpath_sync libuv path r
  run_sync (op_chown path uid gid) r = chown_sync libuv path uid gid r
  run_sync (op_lchown path uid gid) r = lchown_sync libuv path uid gid r
  run_sync (op_opendir path) r = opendir_sync libuv path r
  run_sync op_closedir r = closedir_sync libuv r
