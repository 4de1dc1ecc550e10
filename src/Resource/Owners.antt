-- ===== src/Resource/Owners.antt =====
-- The end of the pointer that a resource of src/uvw/resource.hpp keeps to itself.
use uvw.Prelude.{ℕ, suc, ◌≡◌, true, false, none, some, arith}
use uvw.Resource.{Resource, share, release, self_reset}

-- Under the guard `ptr` the object's own pointer is not the last one.
pub self_reset-share {ℓ} :
    {L : Type ℓ} (r : Resource L) (n : ℕ)
    → r.strong ≡ suc n
    → r.self_ptr ≡ true
    → self_reset (share r) ≡ some (record r { self_ptr = false })
unfolding self_reset share
self_reset-share r n e h = ground arith

pub self_reset-unowned {ℓ} :
    {L : Type ℓ} (r : Resource L) → r.self_ptr ≡ false → self_reset (share r) ≡ some (share r)
unfolding self_reset share
self_reset-unowned r h = ground arith

pub release_last {ℓ} : {L : Type ℓ} (r : Resource L) → r.strong ≡ 1 → release r ≡ none
unfolding release
release_last r e = ground arith
