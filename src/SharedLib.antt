-- ===== src/SharedLib.antt =====
-- src/uvw/lib.h and lib.ipp: a shared library, which is opened by the constructor and closed by the
-- destructor. What `uv_dlopen` and `uv_dlsym` do is an argument.
use uvw.Prelude.{ℕ, Bool, Option, none, some, List, [], ◌∷◌, ◌++◌, ℤ, is_zero, if◌then◌else◌}
use uvw.Util.Text.{c_string}

pub data LibCall : Type 0 where
  uv_dlopen uv_dlsym : (text : List ℕ) → LibCall
  uv_dlclose : LibCall

pub record SharedLib : Type 0 where
  pub opened : Bool
  pub calls : List LibCall

-- The constructor, by what `uv_dlopen` returns.
unfoldable pub open_lib : (uv_dlopen_rc : ℤ) → (filename : List ℕ) → SharedLib
unfolding c_string
open_lib uv_dlopen_rc filename = record {
  opened = is_zero uv_dlopen_rc;
  calls = uv_dlopen (c_string filename) ∷ [];
}

-- `operator bool`.
unfoldable pub is_open : SharedLib → Bool
is_open l = l.opened

-- `sym`: the function at the address that `uv_dlsym` writes, or null.
unfoldable pub lib_sym : (err : ℤ) → (func : ℕ) → Option ℕ
lib_sym err func = if is_zero err then some func else none

unfoldable pub look_up : (err : ℤ) → (func : ℕ) → (name : List ℕ) → SharedLib → Option ℕ × SharedLib
unfolding c_string lib_sym
look_up err func name l =
    (lib_sym err func, record l { calls = l.calls ++ uv_dlsym (c_string name) ∷ [] })

-- The destructor, whether or not the library was opened.
unfoldable pub close_lib : SharedLib → SharedLib
close_lib l = record l { calls = l.calls ++ uv_dlclose ∷ [] }
