-- ===== src/Loop.antt =====
-- src/uvw/loop.h and loop.ipp: the loop object, what it owns, and `loop::resource`.
pub mod Default
pub mod Shared
pub mod Outlives
pub mod Running
use uvw.Prelude.{
  ℕ, ◌+◌, ◌-◌, ◌^◌, ◌≡◌, refl, Bool, true, false, not, Option, none, some, List, [], ◌∷◌, ◌++◌, ℤ,
  pos, negsuc, is_zero, eqb_ℤ, to_word, if◌then◌else◌, ◌>>=◌, arith, ◌∙◌, ◌↔◌, ◌≢◌, suc, zero,
}
use uvw.Resource.{Resource, make_shared, leak_if, release}

-- The calls of libuv that the life of a loop makes, and the end of a `uv_loop_t` of uvw's own.
pub data Call : Type 0 where
  uv_loop_init uv_loop_close delete_loop : Call

-- `uv_loop`: `none` once it was reset; `owns` is the deleter, which frees the structure or does
-- nothing. `calls` is what was called so far.
pub record Loop : Type 0 where
  pub uv_loop : Option ℕ
  pub owns : Bool
  pub calls : List Call

abbrev log_call : Call → Loop → Loop
log_call c l = record l { calls = l.calls ++ c ∷ [] }

-- `uv_loop.reset()`: the deleter runs.
unfoldable pub reset_loop : Loop → Loop
reset_loop l = record l {
  uv_loop = none;
  calls = if l.owns then l.calls ++ delete_loop ∷ [] else l.calls;
}

-- `loop::close`, with what `uv_loop_close` returns.
unfoldable pub close : ℤ → Loop → ℤ × Loop
unfolding reset_loop
close rc l = elim l.uv_loop [
  | none ↦ (pos 0, l)
  | some p ↦ (rc, reset_loop (log_call uv_loop_close l))
]

-- `~loop`.
unfoldable pub destroy : ℤ → Loop → Loop
unfolding close
destroy rc l = elim l.uv_loop [ none ↦ l | some p ↦ (close rc l).1 ]

-- `loop::create()`: the structure `p` is new, and `init_rc` is what `uv_loop_init` returns. On a
-- failure `curr = nullptr` destroys the loop, with `close_rc` for what its `close` gets.
unfoldable pub create : (init_rc close_rc : ℤ) → (p : ℕ) → Option Loop × List Call
unfolding destroy
create init_rc close_rc p =
    let curr : Loop = record { uv_loop = some p; owns = true; calls = uv_loop_init ∷ [] } in
    if is_zero init_rc then (some curr, curr.calls) else (none, (destroy close_rc curr).calls)

-- `loop::create(uv_loop_t *)`: the structure is the user's.
unfoldable pub create_from : ℕ → Loop
create_from res = record { uv_loop = some res; owns = false; calls = [] }

-- `loop::timeout`, by what `uv_backend_timeout` returns: `time` is a 64-bit count.
unfoldable pub timeout : ℤ → Bool × ℕ
timeout to = (eqb_ℤ to (negsuc 0), to_word (2 ^ 64) to)

-- `loop::resource` of a class with an `init`, whose `leak_if` gets `rc`: the pointer that the caller
-- gets, and the object once the local pointer is gone.
unfoldable pub resource {ℓ} : {L : Type ℓ} → ℤ → Bool × Option (Resource L)
unfolding make_shared leak_if release
resource rc =
    let (err, ptr) = leak_if rc make_shared in
    if is_zero err then (true, some ptr) else (false, release ptr)

-- `loop::resource` of a class that has no `init`.
unfoldable pub resource_no_init {ℓ} : {L : Type ℓ} → Bool × Option (Resource L)
unfolding make_shared
resource_no_init = (true, some make_shared)

-- Closing a loop twice, or closing and destroying it, closes it in libuv and frees it once: the
-- second call finds no loop, reports success and calls nothing.
pub close-close :
    (rc rc' : ℤ) (l : Loop)
    → let l' = (close rc l).1 in
      (close rc' l' ≡ (pos 0, l')) × (destroy rc' l' ≡ l') × (l'.uv_loop ≡ none)
unfolding close destroy
close-close rc rc' l = ground arith

-- What is called over the life of a loop object: the calls of `close`, as often as the user likes,
-- each with what `uv_loop_close` would return, and then the destructor.
abbrev pub closes : List ℤ → Loop → Loop
closes [] l = l
closes (rc ∷ rcs) l = closes rcs (close rc l).1

abbrev pub lived : (rcs : List ℤ) → (rc : ℤ) → Loop → List Call
lived rcs rc l = (destroy rc (closes rcs l)).calls

-- The same from `create` on, where it hands out a loop.
abbrev pub created_life : (init_rc close_rc : ℤ) (p : ℕ) (rcs : List ℤ) (rc : ℤ) → List Call
created_life init_rc close_rc p rcs rc = elim (create init_rc close_rc p).0 [
  | none ↦ (create init_rc close_rc p).1
  | some l ↦ lived rcs rc l
]

closed_life : (rcs : List ℤ) (rc : ℤ) (l : Loop) → l.uv_loop ≡ none → lived rcs rc l ≡ l.calls
unfolding close destroy
closed_life [] rc l h = ground arith
closed_life (c ∷ rcs) rc l h =
    let (e, d, gone) = close-close c rc l in closed_life rcs rc (close c l).1 gone ∙ ground arith

open_life :
    (rcs : List ℤ) (rc : ℤ) (l : Loop) (p : ℕ)
    → l.uv_loop ≡ some p
    → lived rcs rc l ≡ (reset_loop (log_call uv_loop_close l)).calls
unfolding close destroy
open_life [] rc l p h = ground arith
open_life (c ∷ rcs) rc l p h =
    let (e, d, gone) = close-close c rc l in closed_life rcs rc (close c l).1 gone ∙ ground arith

-- However often the user closes a loop before its object is destroyed, and whatever libuv returns:
-- a loop of uvw's own is initialised, closed and freed, each once and in this order; a loop that
-- `uv_loop_init` refused gets the same three calls, though nobody is handed it; and a loop whose
-- structure is the user's is closed once and never freed.
pub life_calls :
    (init_rc close_rc : ℤ) (p : ℕ) (rcs : List ℤ) (rc : ℤ)
    → (created_life init_rc close_rc p rcs rc ≡ uv_loop_init ∷ uv_loop_close ∷ delete_loop ∷ [])
      × (((create init_rc close_rc p).0 ≡ none) ↔ (init_rc ≢ pos 0))
      × (lived rcs rc (create_from p) ≡ uv_loop_close ∷ [])
unfolding create create_from reset_loop
life_calls (pos zero) close_rc p rcs rc =
    let own =
      open_life rcs rc (record { uv_loop = some p; owns = true; calls = uv_loop_init ∷ [] }) p
        refl in
    let theirs = open_life rcs rc (create_from p) p refl in (own, ground arith, theirs)
life_calls (pos (suc n)) close_rc p rcs rc =
    (refl, ground arith, open_life rcs rc (create_from p) p refl)
life_calls (negsuc n) close_rc p rcs rc =
    (refl, ground arith, open_life rcs rc (create_from p) p refl)

-- `resource` hands out a handle that owns itself, beside the caller's pointer, if its `init`
-- succeeds, and otherwise hands out nothing and leaves no object behind.
pub resource_owned {ℓ} :
    {L : Type ℓ} (rc : ℤ)
    → resource {L = L} rc ≡ (
        if is_zero rc
        then (true, some (record make_shared { strong = 2; self_ptr = true }))
        else (false, none))
unfolding resource
resource_owned rc = ground arith
