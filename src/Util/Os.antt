-- ===== src/Util/Os.antt =====
-- src/uvw/util.ipp: the operations that interpret what one function of libuv returns, which is an
-- argument here.
use uvw.Prelude.{
  ℕ, ◌+◌, ◌≤◌, ◌<◌, ◌^◌, ◌≡◌, Bool, true, false, Option, none, some, List, [], ◌∷◌, ℤ, pos, negsuc,
  is_zero, is_neg, is_pos, pos_part, ◌-◌, ◌>>=◌, if◌then◌else◌, arith, leb, ltb,
}
use uvw.Util.Text.{c_string}

-- `uv_passwd_t`: `none` is a null pointer.
pub record Passwd : Type 0 where
  pub username : Option (List ℕ)
  pub uid : ℕ
  pub gid : ℕ
  pub shell : Option (List ℕ)
  pub homedir : Option (List ℕ)

-- `((value && value->field) ? value->field : "")`.
unfoldable pub text_or_empty : Option (List ℕ) → List ℕ
unfolding c_string
text_or_empty none = []
text_or_empty (some s) = c_string s

-- `passwd_info`, whose pointer may be null.
unfoldable pub username : Option Passwd → List ℕ
unfolding text_or_empty
username value = text_or_empty (do p ← value; p.username)

unfoldable pub shell : Option Passwd → List ℕ
unfolding text_or_empty
shell value = text_or_empty (do p ← value; p.shell)

unfoldable pub homedir : Option Passwd → List ℕ
unfolding text_or_empty
homedir value = text_or_empty (do p ← value; p.homedir)

unfoldable pub uid : Option Passwd → ℕ
uid value = elim value [ none ↦ 0 | some p ↦ p.uid ]

unfoldable pub gid : Option Passwd → ℕ
gid value = elim value [ none ↦ 0 | some p ↦ p.gid ]

-- The calls of libuv by which `os::env(name, value)` changes the environment.
pub data EnvCall : Type 0 where
  uv_os_unsetenv : (name : List ℕ) → EnvCall
  uv_os_setenv : (name value : List ℕ) → EnvCall

abbrev is_empty : List ℕ → Bool
is_empty [] = true
is_empty (c ∷ cs) = false

unfoldable pub env_call : List ℕ → List ℕ → EnvCall
unfolding c_string
env_call name value =
    if is_empty value
    then uv_os_unsetenv (c_string name)
    else uv_os_setenv (c_string name) (c_string value)

unfoldable pub set_env : (EnvCall → ℤ) → List ℕ → List ℕ → Bool
unfolding env_call
set_env uv name value = is_zero (uv (env_call name value))

-- `os::priority(pid)`, with `UV_PRIORITY_LOW`, what `uv_os_getpriority` returns, and what it writes.
unfoldable pub priority : (uv_priority_low : ℕ) → ℤ → ℤ → ℤ
priority uv_priority_low err prio = if is_zero err then prio else pos (uv_priority_low + 1)

-- `static_cast<int64_t>` of a `size_t`.
unfoldable pub to_int64 : ℕ → ℤ
to_int64 n = if ltb n (2 ^ 63) then pos n else negsuc (2 ^ 64 - 1 - n)

unfoldable pub resident_set_memory : (err : ℤ) → (res : ℕ) → ℤ
unfolding to_int64
resident_set_memory err res = if is_zero err then to_int64 res else err

-- `rusage` and `gettime`: a structure, or a default one.
unfoldable pub or_default {ℓ} : {A : Type ℓ} → A → ℤ → A → A
or_default zero_value err value = if is_zero err then value else zero_value

-- The priority that stands for an error is above the lowest that there is, so the caller sees from
-- the result alone whether libuv succeeded.
pub priority-le_iff :
    (uv_priority_low : ℕ) (err : ℤ) (p : ℕ)
    → p ≤ uv_priority_low
    → leb (pos_part (priority uv_priority_low err (pos p))) uv_priority_low ≡ is_zero err
unfolding priority
priority-le_iff uv_priority_low err p h = ground arith

-- The result is negative exactly where libuv fails, whose errors are negative, and is otherwise the
-- size that it reports, for sizes below 2 ^ 63.
pub resident_set_memory_sign :
    (res : ℕ) (err : ℤ)
    → is_pos err ≡ false
    → res < 2 ^ 63
    → (is_neg (resident_set_memory err res) ≡ is_neg err)
      × (resident_set_memory err res ≡ (if is_neg err then err else pos res))
unfolding resident_set_memory
resident_set_memory_sign res err e h = ground arith
