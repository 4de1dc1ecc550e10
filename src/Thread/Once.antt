-- ===== src/Thread/Once.antt =====
-- `once` of src/uvw/thread.h and thread.ipp: `run` gives libuv the one static guard that `guard`
-- returns, whatever the function.
use uvw.Prelude.{◌≡◌, refl, Bool, true, false, not, List, [], ◌∷◌, ◌++◌, if◌then◌else◌}

-- `uv_once_t` and `uv_once`: the guard after the call, and whether the function was called.
pub record UvOnce : Type 1 where
  pub Guard : Type 0
  pub uv_once_init : Guard
  pub uv_once : Guard → Guard × Bool
  pub is_used : Guard → Bool

-- What libuv documents: only the first call for a guard calls its function.
pub record OnceLaws (libuv : UvOnce) : Type 0 where
  pub starts : libuv.is_used libuv.uv_once_init ≡ false
  pub calls_first : (g : libuv.Guard) → (libuv.uv_once g).1 ≡ not (libuv.is_used g)
  pub uses_guard : (g : libuv.Guard) → libuv.is_used (libuv.uv_once g).0 ≡ true

module _ (libuv : UvOnce) where
  open libuv use {Guard, uv_once, uv_once_init}

  -- `static uv_once_t once = UV_ONCE_INIT`, a local of `guard()`.
  unfoldable pub guard : Guard
  guard = uv_once_init

  -- `once::run` of the function `f`: the static guard after it, and the functions that were called.
  unfoldable pub run_once {ℓ} : {F : Type ℓ} → F → Guard → Guard × List F
  run_once f once = let (once', called) = uv_once once in (once', if called then f ∷ [] else [])

  -- The functions that a program's calls of `run` call.
  unfoldable pub runs {ℓ} : {F : Type ℓ} → List F → Guard → List F
  unfolding run_once
  runs [] once = []
  runs (f ∷ fs) once = (run_once f once).1 ++ runs fs (run_once f once).0

  runs-used {ℓ} :
      {F : Type ℓ} (laws : OnceLaws libuv) (fs : List F) (g : Guard)
      → libuv.is_used g ≡ true
      → runs fs g ≡ []
  unfolding runs run_once
  runs-used laws [] g h = refl
  runs-used laws (f ∷ fs) g h =
      rw (laws.calls_first g, h) (runs-used laws fs (uv_once g).0 (laws.uses_guard g))

  -- Of all the functions that a program runs once, only the first is ever called: the others share
  -- its guard, be they different functions.
  pub runs_first {ℓ} :
      {F : Type ℓ} (laws : OnceLaws libuv) (f : F) (fs : List F) → runs (f ∷ fs) guard ≡ f ∷ []
  unfolding runs run_once guard
  runs_first laws f fs =
      rw
        (
          laws.calls_first uv_once_init,
          laws.starts,
          runs-used laws fs (uv_once uv_once_init).0 (laws.uses_guard uv_once_init),
        )
        refl
