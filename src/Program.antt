-- ===== src/Program.antt =====
-- A whole program: one loop of src/uvw/loop.h and all the handles that were made of it, with the
-- requests of each. Handles are those of Lifetime, the loop is that of Loop/Shared; every object that
-- `uv_type` stands in (uv_type.hpp) holds a pointer to the loop.
pub mod Counts
pub mod Gone
pub mod Linked
pub mod Shutdown
pub mod World
use uvw.Prelude.{
  ℕ, Bool, true, zero, suc, ◌+◌, ◌-◌, Option, none, some, List, [], ◌∷◌, ◌++◌, ℤ, ltb, is_some,
  to_nat, length, replicate, if◌then◌else◌, ◌>>=◌,
}
use uvw.Event.{Event}
use uvw.Lifetime.{System, created, Act, Move, move}
use uvw.Loop.Shared.{
  Shared, created_loop, LoopUse, shares, makes, drops, ends, closes, use_loop, uses_loop,
}

pub record Program : Type 0 where
  pub loop : Shared
  pub handles : List System

-- A program that has made a loop.
unfoldable pub started : ℕ → Program
started p = record { loop = created_loop p; handles = [] }

-- The objects that a handle and its requests are, while they exist.
unfoldable pub objects : System → ℕ
objects s = to_nat (is_some s.stream) + length s.requests

unfoldable pub all_objects : List System → ℕ
unfolding objects
all_objects [] = 0
all_objects (s ∷ ss) = objects s + all_objects ss

-- What the loop sees where `before` objects have become `after`.
unfoldable pub changes : (rc : ℤ) → (before after : ℕ) → List LoopUse
changes rc before after = replicate (after - before) makes ++ replicate (before - after) (ends rc)

unfoldable pub update_at {ℓ} : {A : Type ℓ} → ℕ → (A → Option A) → List A → Option (List A)
update_at i f [] = some []
update_at zero f (x ∷ xs) = do y ← f x; some (y ∷ xs)
update_at (suc i) f (x ∷ xs) = do ys ← update_at i f xs; some (x ∷ ys)

-- The user copies, drops or closes the loop, a handle is made, or the handle `i` moves. `rc` is what
-- `uv_loop_close` returns if the loop is closed then.
pub data ProgramMove : Type 0 where
  opens shares_loop : ProgramMove
  drops_loop closes_loop : (rc : ℤ) → ProgramMove
  moves : (i : ℕ) → (m : Move) → (rc : ℤ) → ProgramMove

module _ (body : ℕ → Event → List Act) where
  unfoldable pub program_move : ProgramMove → Program → Option Program
  unfolding all_objects changes update_at use_loop uses_loop
  program_move opens p = some (
      if ltb 0 (p.loop.users + p.loop.resources)
      then record { loop = use_loop makes p.loop; handles = p.handles ++ created ∷ [] }
      else p)
  program_move shares_loop p = some (record p { loop = use_loop shares p.loop })
  program_move (drops_loop rc) p = some (record p { loop = use_loop (drops rc) p.loop })
  program_move (closes_loop rc) p = some (record p { loop = use_loop (closes rc) p.loop })
  program_move (moves i m rc) p = do
    hs ← update_at i (move body m) p.handles
    some (record {
      loop = uses_loop (changes rc (all_objects p.handles) (all_objects hs)) p.loop;
      handles = hs;
    })

  unfoldable pub program_run : List ProgramMove → Program → Option Program
  unfolding program_move
  program_run [] p = some p
  program_run (m ∷ ms) p = program_move m p >>= program_run ms

-- Whether the program has closed its loop by hand, by whether it had before.
unfoldable pub asks : List ProgramMove → Bool → Bool
asks [] asked = asked
asks (closes_loop rc ∷ ms) asked = asks ms true
asks (_ ∷ ms) asked = asks ms asked
