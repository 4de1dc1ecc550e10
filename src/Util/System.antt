-- ===== src/Util/System.antt =====
-- What the system tells: `uts_name`, `passwd_info` and the members of `utilities` in src/uvw/util.ipp
-- that judge one answer of libuv, which is an argument here.
use uvw.Prelude.{ℕ, Bool, true, false, Option, none, some, List, [], ℤ, is_zero}
use uvw.Util.Os.{Passwd, or_default}
use uvw.Util.Text.{c_string}
use uvw.Util.HandleType.{HandleType, guess_handle}

-- `uv_utsname_t`: arrays of bytes.
pub record Utsname : Type 0 where
  pub sysname : List ℕ
  pub release : List ℕ
  pub version : List ℕ
  pub machine : List ℕ

-- `uts_name`, whose pointer may be null.
unfoldable pub sysname : Option Utsname → List ℕ
unfolding c_string
sysname none = []
sysname (some u) = c_string u.sysname

unfoldable pub release : Option Utsname → List ℕ
unfolding c_string
release none = []
release (some u) = c_string u.release

unfoldable pub version : Option Utsname → List ℕ
unfolding c_string
version none = []
version (some u) = c_string u.version

unfoldable pub machine : Option Utsname → List ℕ
unfolding c_string
machine none = []
machine (some u) = c_string u.machine

-- `os::uname`: the structure that `make_shared` set to zero, or what libuv made of it.
unfoldable pub uname : (after : Utsname → Utsname) → Option Utsname
uname after = some (after (record { sysname = []; release = []; version = []; machine = [] }))

-- `passwd_info::operator bool`.
unfoldable pub has_passwd : Option Passwd → Bool
has_passwd none = false
has_passwd (some p) = true

-- `utilities::uptime`, and `gettime`, with the value that libuv writes and 0, or zeros.
unfoldable pub uptime {ℓ} : {A : Type ℓ} → (zero_value : A) → (err : ℤ) → (ret : A) → A
unfolding or_default
uptime zero_value err ret = or_default zero_value err ret

unfoldable pub gettime {ℓ} : {A : Type ℓ} → (zero_value : A) → (err : ℤ) → (ts : A) → A
unfolding or_default
gettime zero_value err ts = or_default zero_value err ts

-- The calls of libuv whose result is compared with 0: `os::priority(pid, prio)`,
-- `process_title(title)`, `chdir` and `process_handle::kill(pid, signum)`.
pub data SystemCall : Type 0 where
  uv_os_setpriority : (pid prio : ℤ) → SystemCall
  uv_set_process_title uv_chdir : List ℕ → SystemCall
  uv_kill : (pid signum : ℤ) → SystemCall

unfoldable pub set_priority : (SystemCall → ℤ) → (pid prio : ℤ) → Bool
set_priority uv pid prio = is_zero (uv (uv_os_setpriority pid prio))

unfoldable pub set_process_title : (SystemCall → ℤ) → (title : List ℕ) → Bool
unfolding c_string
set_process_title uv title = is_zero (uv (uv_set_process_title (c_string title)))

unfoldable pub chdir : (SystemCall → ℤ) → (dir : List ℕ) → Bool
unfolding c_string
chdir uv dir = is_zero (uv (uv_chdir (c_string dir)))

unfoldable pub kill : (SystemCall → ℤ) → (pid signum : ℤ) → Bool
kill uv pid signum = is_zero (uv (uv_kill pid signum))

-- `guess_handle(file)`, with the category that `uv_guess_handle` returns.
unfoldable pub guess_file :
    (value : HandleType → ℕ) → (uv_guess_handle : ℕ → ℕ) → (file : ℕ) → HandleType
unfolding guess_handle
guess_file value uv_guess_handle file = guess_handle value (uv_guess_handle file)
