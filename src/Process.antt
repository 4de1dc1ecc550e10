-- ===== src/Process.antt =====
-- src/uvw/process.h and process.ipp: the options that a process handle gathers for `uv_spawn`.
pub mod Stdio
use uvw.Prelude.{
  ℕ, zero, suc, ◌+◌, ◌%◌, ◌^◌, Bool, true, false, Option, none, some, List, [], ◌∷◌, ◌++◌, ℤ, pos,
  signed32, ◌==◌, if◌then◌else◌, length, is_zero,
}
use uvw.Resource.{Resource, leak_if}

-- `uv_stdio_container_t`, whose `data` is a union.
pub data Channel : Type 0 where
  fd stream : ℕ → Channel

pub record Container : Type 0 where
  pub flags : ℕ
  pub data_ : Channel

-- The members of `process_handle`. The constructor sets none of `po_flags`, `po_uid` and `po_gid`:
-- `none` is a member whose value is indeterminate.
pub record Process : Type 0 where
  pub po_cwd : List ℕ
  pub po_flags : Option ℕ
  pub po_fd_stdio : List Container
  pub po_stream_stdio : List Container
  pub po_uid : Option ℕ
  pub po_gid : Option ℕ

unfoldable pub new : Process
new = record {
  po_cwd = [];
  po_flags = none;
  po_fd_stdio = [];
  po_stream_stdio = [];
  po_uid = none;
  po_gid = none;
}

abbrev pub is_fd : ℕ → Channel → Bool
is_fd n (fd m) = m == n
is_fd n (stream m) = false

-- `std::find_if` with the update of what it finds, or `push_back`.
unfoldable pub set_fd : ℕ → ℕ → List Container → List Container
set_fd n flags [] = record { flags = flags; data_ = fd n } ∷ []
set_fd n flags (c ∷ cs) =
    if is_fd n c.data_ then record { flags = flags; data_ = fd n } ∷ cs else c ∷ set_fd n flags cs

-- The setters, in the source's order; `stdio` is overloaded.
pub data Setting : Type 0 where
  cwd : (path : List ℕ) → Setting
  flags : ℕ → Setting
  stdio_stream : (stream flags : ℕ) → Setting
  stdio_fd : (fd flags : ℕ) → Setting
  uid gid : ℕ → Setting

unfoldable pub configure : Process → Setting → Process
unfolding set_fd
configure p (cwd path) = record p { po_cwd = path }
configure p (flags f) = record p { po_flags = some f }
configure p (stdio_stream s f) = record p {
  po_stream_stdio = p.po_stream_stdio ++ record { flags = f; data_ = stream s } ∷ [];
}
configure p (stdio_fd n f) = record p { po_fd_stdio = set_fd n f p.po_fd_stdio }
configure p (uid id) = record p { po_uid = some id }
configure p (gid id) = record p { po_gid = some id }

unfoldable pub configure_all : Process → List Setting → Process
unfolding configure
configure_all p [] = p
configure_all p (s ∷ ss) = configure_all (configure p s) ss

-- `uv_process_options_t` as `spawn` fills it. A null `cwd` is `none`.
pub record ProcessOptions : Type 0 where
  pub cwd : Option (List ℕ)
  pub flags : Option ℕ
  pub uid : Option ℕ
  pub gid : Option ℕ
  pub stdio : List Container
  pub stdio_count : ℤ

abbrev null_if_empty : List ℕ → Option (List ℕ)
null_if_empty [] = none
null_if_empty (c ∷ cs) = some (c ∷ cs)

unfoldable pub options : Process → ProcessOptions
options p = record {
  cwd = null_if_empty p.po_cwd;
  flags = p.po_flags;
  uid = p.po_uid;
  gid = p.po_gid;
  stdio = p.po_fd_stdio ++ p.po_stream_stdio;
  stdio_count = signed32 (length (p.po_fd_stdio ++ p.po_stream_stdio) % 2 ^ 32);
}

-- `process_handle::spawn`: the handle owns itself from here on, whatever `uv_spawn` returns.
unfoldable pub spawn {ℓ} :
    {L : Type ℓ} → (uv_spawn : ProcessOptions → ℤ) → Process → Resource L → ℤ × Resource L
unfolding options leak_if
spawn uv_spawn p r = (uv_spawn (options p), (leak_if (pos 0) r).1)
