-- ===== src/Util/Getters.antt =====
-- The members that read a text through `try_read` (Util/Text): src/uvw/util.ipp, pipe.ipp,
-- fs_event.ipp and fs_poll.ipp.
use uvw.Prelude.{ℕ, ◌≡◌, ◌≢◌, refl, ◌∙◌, List, ℤ, All}
use uvw.Util.Text.{c_string, Reads, try_read, ReadsText, FitsText, try_read_whole, try_read_short}

-- The functions of libuv, with the arguments that precede the buffer. A handle is the member's own.
pub data TextCall : Type 0 where
  uv_os_homedir uv_os_tmpdir uv_os_gethostname uv_exepath uv_cwd : TextCall
  uv_os_getenv : (name : List ℕ) → TextCall
  uv_if_indextoname uv_if_indextoiid : (index : ℕ) → TextCall
  uv_pipe_getsockname uv_pipe_getpeername uv_fs_event_getpath uv_fs_poll_getpath : TextCall

module _ (uv_enobufs : ℤ) (libuv : TextCall → Reads) where
  unfoldable pub os_homedir : List ℕ
  os_homedir = try_read uv_enobufs (libuv uv_os_homedir)

  unfoldable pub os_tmpdir : List ℕ
  os_tmpdir = try_read uv_enobufs (libuv uv_os_tmpdir)

  unfoldable pub os_env : (name : List ℕ) → List ℕ
  unfolding c_string
  os_env name = try_read uv_enobufs (libuv (uv_os_getenv (c_string name)))

  unfoldable pub os_hostname : List ℕ
  os_hostname = try_read uv_enobufs (libuv uv_os_gethostname)

  unfoldable pub index_to_name : (index : ℕ) → List ℕ
  index_to_name index = try_read uv_enobufs (libuv (uv_if_indextoname index))

  unfoldable pub index_to_iid : (index : ℕ) → List ℕ
  index_to_iid index = try_read uv_enobufs (libuv (uv_if_indextoiid index))

  unfoldable pub exe_path : List ℕ
  exe_path = try_read uv_enobufs (libuv uv_exepath)

  unfoldable pub cwd : List ℕ
  cwd = try_read uv_enobufs (libuv uv_cwd)

  unfoldable pub pipe_sock : List ℕ
  pipe_sock = try_read uv_enobufs (libuv uv_pipe_getsockname)

  unfoldable pub pipe_peer : List ℕ
  pipe_peer = try_read uv_enobufs (libuv uv_pipe_getpeername)

  unfoldable pub fs_event_path : List ℕ
  fs_event_path = try_read uv_enobufs (libuv uv_fs_event_getpath)

  unfoldable pub fs_poll_path : List ℕ
  fs_poll_path = try_read uv_enobufs (libuv uv_fs_poll_getpath)

-- The members, and the function of libuv that each is documented to stand for.
pub data Getter : Type 0 where
  homedirs tmpdirs hostnames paths cwds socks peers event_paths poll_paths : Getter
  envs : (name : List ℕ) → Getter
  names iids : (index : ℕ) → Getter

unfoldable pub reads_from : Getter → TextCall
unfolding c_string
reads_from homedirs = uv_os_homedir
reads_from tmpdirs = uv_os_tmpdir
reads_from hostnames = uv_os_gethostname
reads_from paths = uv_exepath
reads_from cwds = uv_cwd
reads_from socks = uv_pipe_getsockname
reads_from peers = uv_pipe_getpeername
reads_from event_paths = uv_fs_event_getpath
reads_from poll_paths = uv_fs_poll_getpath
reads_from (envs name) = uv_os_getenv (c_string name)
reads_from (names index) = uv_if_indextoname index
reads_from (iids index) = uv_if_indextoiid index

module _ (uv_enobufs : ℤ) (libuv : TextCall → Reads) where
  unfoldable pub get_text : Getter → List ℕ
  unfolding os_homedir os_tmpdir os_env os_hostname index_to_name index_to_iid exe_path cwd
      pipe_sock pipe_peer fs_event_path fs_poll_path
  get_text homedirs = os_homedir uv_enobufs libuv
  get_text tmpdirs = os_tmpdir uv_enobufs libuv
  get_text hostnames = os_hostname uv_enobufs libuv
  get_text paths = exe_path uv_enobufs libuv
  get_text cwds = cwd uv_enobufs libuv
  get_text socks = pipe_sock uv_enobufs libuv
  get_text peers = pipe_peer uv_enobufs libuv
  get_text event_paths = fs_event_path uv_enobufs libuv
  get_text poll_paths = fs_poll_path uv_enobufs libuv
  get_text (envs name) = os_env uv_enobufs libuv name
  get_text (names index) = index_to_name uv_enobufs libuv index
  get_text (iids index) = index_to_iid uv_enobufs libuv index

  get_text-reads_from : (g : Getter) → get_text g ≡ try_read uv_enobufs (libuv (reads_from g))
  unfolding get_text reads_from
  get_text-reads_from homedirs = refl
  get_text-reads_from tmpdirs = refl
  get_text-reads_from hostnames = refl
  get_text-reads_from paths = refl
  get_text-reads_from cwds = refl
  get_text-reads_from socks = refl
  get_text-reads_from peers = refl
  get_text-reads_from event_paths = refl
  get_text-reads_from poll_paths = refl
  get_text-reads_from (envs name) = refl
  get_text-reads_from (names index) = refl
  get_text-reads_from (iids index) = refl

  -- `uv_pipe_getsockname` and `uv_pipe_getpeername` write no zero byte, and `uv_exepath` cuts the text
  -- off where it does not fit.
  abbrev pub Documented : Getter → Reads → List ℕ → Type 0
  Documented paths f s = FitsText uv_enobufs f s
  Documented socks f s = FitsText uv_enobufs f s
  Documented peers f s = FitsText uv_enobufs f s
  Documented _ f s = ReadsText uv_enobufs f s

  reads-Documented :
      (g : Getter) (f : Reads) (s : List ℕ)
      → Documented g f s
      → All (λ c. c ≢ 0) s
      → try_read uv_enobufs f ≡ s
  reads-Documented homedirs f s d h = try_read_whole uv_enobufs f s d h
  reads-Documented tmpdirs f s d h = try_read_whole uv_enobufs f s d h
  reads-Documented hostnames f s d h = try_read_whole uv_enobufs f s d h
  reads-Documented paths f s d h = try_read_short uv_enobufs f s d
  reads-Documented cwds f s d h = try_read_whole uv_enobufs f s d h
  reads-Documented socks f s d h = try_read_short uv_enobufs f s d
  reads-Documented peers f s d h = try_read_short uv_enobufs f s d
  reads-Documented event_paths f s d h = try_read_whole uv_enobufs f s d h
  reads-Documented poll_paths f s d h = try_read_whole uv_enobufs f s d h
  reads-Documented (envs name) f s d h = try_read_whole uv_enobufs f s d h
  reads-Documented (names index) f s d h = try_read_whole uv_enobufs f s d h
  reads-Documented (iids index) f s d h = try_read_whole uv_enobufs f s d h

  -- Every member that reads a text returns the whole text, whatever its length, where libuv's
  -- function for it does what its documentation says and the text has no zero byte; of `path()` and of
  -- a pipe's `sock()` and `peer()` that is said of texts that fit the first buffer only.
  pub get_text_whole :
      (g : Getter) (s : List ℕ)
      → Documented g (libuv (reads_from g)) s
      → All (λ c. c ≢ 0) s
      → get_text g ≡ s
  get_text_whole g s r h = get_text-reads_from g ∙ reads-Documented g (libuv (reads_from g)) s r h
