-- ===== src/Resource.antt =====
-- src/uvw/resource.hpp: a resource and the shared pointers to it, its own one included.
-- A resource is an object on the heap with `strong` shared pointers to it. An operation that may
-- release the last one returns an `Option`: `none` is a resource that was destroyed.
pub mod Owners
use uvw.Prelude.{ℕ, ◌+◌, ◌-◌, Bool, true, false, Option, none, some, ℤ, is_zero, leb, if◌then◌else◌}
use uvw.Emitter.{Emitter, quiet}
use uvw.Event.{EventType}

-- `user_data` is the pointer set by `data`, `none` where it is null.
pub record Resource {ℓ} (L : Type ℓ) : Type ℓ where
  pub strong : ℕ
  pub self_ptr : Bool
  pub user_data : Option ℕ
  pub emitter : Emitter EventType L

module _ {ℓ} {L : Type ℓ} where
  -- `std::make_shared<R>(...)`.
  unfoldable pub make_shared : Resource L
  unfolding quiet
  make_shared = record { strong = 1; self_ptr = false; user_data = none; emitter = quiet }

  -- A copy of a `std::shared_ptr`, and its release.
  unfoldable pub share : Resource L → Resource L
  share r = record r { strong = r.strong + 1 }

  unfoldable pub release : Resource L → Option (Resource L)
  release r = if leb r.strong 1 then none else some (record r { strong = r.strong - 1 })

  -- `self_ptr = this->shared_from_this()`: the pointer that it held before, if any, is released.
  unfoldable pub hold_self : Resource L → Resource L
  unfolding share
  hold_self r = if r.self_ptr then r else record (share r) { self_ptr = true }

  unfoldable pub leak_if : ℤ → Resource L → ℤ × Resource L
  unfolding hold_self
  leak_if err r = (err, if is_zero err then hold_self r else r)

  unfoldable pub self_reset : Resource L → Option (Resource L)
  unfolding release
  self_reset r = if r.self_ptr then release (record r { self_ptr = false }) else some r

  unfoldable pub has_self : Resource L → Bool
  has_self r = r.self_ptr

  unfoldable pub set_data : Option ℕ → Resource L → Resource L
  set_data udata r = record r { user_data = udata }

  unfoldable pub get_data : Resource L → Option ℕ
  get_data r = r.user_data
