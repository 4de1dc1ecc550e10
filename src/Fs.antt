-- ===== src/Fs.antt =====
-- src/uvw/fs.h and fs.ipp: a filesystem request, what its operations share, and their callbacks.
-- `Libuv` is what libuv does to a `uv_fs_t`. A request keeps a log of its calls of libuv, the latest
-- first. A pointer is `none` where it is null; a structure is named by its address,
-- and times, modes and flags are the numbers that libuv gets.
pub mod File
pub mod Paths
pub mod Links
pub mod Directory
pub mod FileOps
pub mod PathOps
pub mod Descriptor
pub mod Session
use uvw.Prelude.{
  ℕ, Bool, true, false, not, Option, none, some, List, [], ◌∷◌, ℤ, pos, negsuc, is_neg, is_zero,
  to_size, if◌then◌else◌,
}
use uvw.Emitter.{ErrorEvent, to_error_event}

-- `uvw_fs_type`.
pub data FsType : Type 0 where
  fs_unknown fs_custom fs_open fs_close fs_read fs_write fs_sendfile fs_stat fs_lstat : FsType
  fs_fstat fs_ftruncate fs_utime fs_futime fs_access fs_chmod fs_fchmod fs_fsync : FsType
  fs_fdatasync fs_unlink fs_rmdir fs_mkdir fs_mkdtemp fs_rename fs_scandir fs_link : FsType
  fs_symlink fs_readlink fs_chown fs_fchown fs_realpath fs_copyfile fs_lchown fs_opendir : FsType
  fs_readdir fs_closedir fs_statfs fs_mkstemp fs_lutime : FsType

-- The fields of `uv_fs_t` that the library reads.
pub record FsRaw : Type 0 where
  pub fs_type : FsType
  pub result : ℤ
  pub path : Option (List ℕ)
  pub ptr : Option ℕ
  pub statbuf : ℕ

-- A `uv_dirent_t`.
pub record Entry : Type 0 where
  pub type : ℕ
  pub name : Option (List ℕ)

-- The calls, without the loop, the request and the callback, which all of them take.
pub data FsCall : Type 0 where
  uv_fs_close : (file : ℤ) → FsCall
  uv_fs_open : (path : List ℕ) → (flags : ℕ) → (mode : ℕ) → FsCall
  uv_fs_read : (file : ℤ) → (block : ℕ) → (len : ℕ) → (offset : ℤ) → FsCall
  uv_fs_write : (file : ℤ) → (block : ℕ) → (len : ℕ) → (offset : ℤ) → FsCall
  uv_fs_fstat : (file : ℤ) → FsCall
  uv_fs_fsync : (file : ℤ) → FsCall
  uv_fs_fdatasync : (file : ℤ) → FsCall
  uv_fs_ftruncate : (file : ℤ) → (offset : ℤ) → FsCall
  uv_fs_sendfile : (out : ℤ) → (file : ℤ) → (offset : ℤ) → (length : ℕ) → FsCall
  uv_fs_fchmod : (file : ℤ) → (mode : ℕ) → FsCall
  uv_fs_futime : (file : ℤ) → (atime : ℕ) → (mtime : ℕ) → FsCall
  uv_fs_fchown : (file : ℤ) → (uid : ℕ) → (gid : ℕ) → FsCall
  uv_fs_unlink : (path : List ℕ) → FsCall
  uv_fs_mkdir : (path : List ℕ) → (mode : ℕ) → FsCall
  uv_fs_mkdtemp : (tpl : List ℕ) → FsCall
  uv_fs_mkstemp : (tpl : List ℕ) → FsCall
  uv_fs_lutime : (path : List ℕ) → (atime : ℕ) → (mtime : ℕ) → FsCall
  uv_fs_rmdir : (path : List ℕ) → FsCall
  uv_fs_scandir : (path : List ℕ) → (flags : ℕ) → FsCall
  uv_fs_stat : (path : List ℕ) → FsCall
  uv_fs_lstat : (path : List ℕ) → FsCall
  uv_fs_statfs : (path : List ℕ) → FsCall
  uv_fs_rename : (old : List ℕ) → (path : List ℕ) → FsCall
  uv_fs_copyfile : (old : List ℕ) → (path : List ℕ) → (flags : ℕ) → FsCall
  uv_fs_access : (path : List ℕ) → (mode : ℕ) → FsCall
  uv_fs_chmod : (path : List ℕ) → (mode : ℕ) → FsCall
  uv_fs_utime : (path : List ℕ) → (atime : ℕ) → (mtime : ℕ) → FsCall
  uv_fs_link : (old : List ℕ) → (path : List ℕ) → FsCall
  uv_fs_symlink : (old : List ℕ) → (path : List ℕ) → (flags : ℕ) → FsCall
  uv_fs_readlink : (path : List ℕ) → FsCall
  uv_fs_realpath : (path : List ℕ) → FsCall
  uv_fs_chown : (path : List ℕ) → (uid : ℕ) → (gid : ℕ) → FsCall
  uv_fs_lchown : (path : List ℕ) → (uid : ℕ) → (gid : ℕ) → FsCall
  uv_fs_opendir : (path : List ℕ) → FsCall
  uv_fs_closedir uv_fs_readdir : (dir : Option ℕ) → FsCall

pub data FsCallback : Type 0 where
  open_callback close_callback read_callback request_callback : FsCallback

pub data FsEffect : Type 0 where
  cleanup : FsEffect
  issue : FsCall → Option FsCallback → FsEffect

-- `cleaned` is `uv_fs_req_cleanup`, and `answer` what a call leaves in the request. `scandir_next`
-- is `uv_fs_scandir_next`, with the entry that it is given; `filled` is what `uv_fs_readdir` leaves
-- in the entry of the directory.
pub record Libuv : Type 0 where
  pub cleaned : FsRaw → FsRaw
  pub answer : FsCall → FsRaw → FsRaw
  pub scandir_next : FsRaw → Entry → ℤ × Entry
  pub filled : FsCall → FsRaw → Entry → Entry
  pub directory_entry : (dir : ℕ) → Entry

pub record Base : Type 0 where
  pub raw : FsRaw
  pub log : List FsEffect

unfoldable pub clean : Libuv → Base → Base
clean libuv b = record { raw = libuv.cleaned b.raw; log = cleanup ∷ b.log }

-- `~file_req` and `~fs_req`.
unfoldable pub end_request : Libuv → Base → Base
unfolding clean
end_request libuv b = clean libuv b

-- Without a callback libuv answers before it returns. With one it answers later, on the loop.
unfoldable pub issued : Libuv → FsCall → Option FsCallback → Base → Base
issued libuv c none b = record { raw = libuv.answer c b.raw; log = issue c none ∷ b.log }
issued libuv c (some cb) b = record b { log = issue c (some cb) ∷ b.log }

unfoldable pub arrive : Libuv → FsCall → Base → Base
arrive libuv c b = record b { raw = libuv.answer c b.raw }

-- What every operation begins with: the cleanup of the request's last use, and the call.
unfoldable pub call : Libuv → FsCall → Option FsCallback → Base → Base
unfolding clean issued
call libuv c cb b = issued libuv c cb (clean libuv b)

-- The results of the `_sync` functions. In `info` the structure is `none` where it was read through
-- a null pointer, which is undefined.
pub data Answer : Type 0 where
  flag : Bool → Answer
  count : Bool → (size : ℕ) → Answer
  info : Bool → Option ℕ → Answer
  text : Bool → Option (List ℕ) → Answer
  made : Bool → Option (List ℕ) → (file : ℕ) → Answer
  linked : Bool → (data_ : Option ℕ) → (size : ℕ) → Answer
  block : Bool → (data_ : Option ℕ) → (size : ℕ) → Answer

unfoldable pub answer_ok : Answer → Bool
answer_ok (flag b) = b
answer_ok (count b n) = b
answer_ok (info b i) = b
answer_ok (text b t) = b
answer_ok (made b p n) = b
answer_ok (linked b p n) = b
answer_ok (block b p n) = b

-- `!(req->result < 0)`, and `err ? 0 : std::size_t(req->result)`.
abbrev pub ok : Base → Bool
ok b = not (is_neg b.raw.result)

abbrev pub size_of : Base → ℕ
size_of b = if is_neg b.raw.result then 0 else to_size b.raw.result

-- The part of an `fs_event` that its constructor fills by the type of the operation.
pub data Details : Type 0 where
  nothing : Details
  stat_details : Option ℕ → Details
  link_details : Option ℕ → Details
  entry_details : Option Entry → (eos : Bool) → Details
  statfs_details : Option ℕ → Details

pub record FsEvent : Type 0 where
  pub type : FsType
  pub path : Option (List ℕ)
  pub result : ℕ
  pub details : Details
  pub read : Option ℕ

unfoldable pub fs_event_of : Libuv → FsRaw → FsEvent
fs_event_of libuv r = record {
  type = r.fs_type;
  path = r.path;
  result = to_size r.result;
  details = elim r.fs_type [
    | fs_stat ↦ stat_details r.ptr
    | fs_lstat ↦ stat_details r.ptr
    | fs_fstat ↦ stat_details r.ptr
    | fs_readlink ↦ link_details r.ptr
    | fs_readdir ↦
        entry_details (elim r.ptr [ none ↦ none | some d ↦ some (libuv.directory_entry d) ])
          (is_zero r.result)
    | fs_statfs ↦ statfs_details r.ptr
    | _ ↦ nothing
  ];
  read = none;
}

pub data FsReport : Type 0 where
  failed : ErrorEvent → FsReport
  finished : FsEvent → FsReport

unfoldable pub report_ok : FsReport → Bool
report_ok (failed e) = false
report_ok (finished e) = true

-- `fs_request::fs_request_callback`, as far as what it publishes.
unfoldable pub fs_request_callback : Libuv → Base → FsReport
unfolding to_error_event fs_event_of
fs_request_callback libuv b =
    if is_neg b.raw.result
    then failed (to_error_event b.raw.result)
    else finished (fs_event_of libuv b.raw)
