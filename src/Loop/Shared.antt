-- ===== src/Loop/Shared.antt =====
-- Who keeps a loop: the shared pointers to it of the user, and `owner` of every handle, request,
-- thread or lock (src/uvw/uv_type.hpp, loop.h).
use uvw.Prelude.{ℕ, ◌+◌, ◌-◌, Bool, true, false, some, List, [], ◌∷◌, ℤ, ltb, if◌then◌else◌}
use uvw.Loop.{Loop, uv_loop_init, close, destroy}

-- `strong` is the count of the loop's shared pointers, `users` and `resources` those that the user
-- and the resources hold; `finished` says whether `~loop` has run.
pub record Shared : Type 0 where
  pub loop : Loop
  pub strong : ℕ
  pub users : ℕ
  pub resources : ℕ
  pub finished : Bool

-- What `loop::create()` gives where libuv accepts the loop.
unfoldable pub created_loop : ℕ → Shared
created_loop p = record {
  loop = record { uv_loop = some p; owns = true; calls = uv_loop_init ∷ [] };
  strong = 1;
  users = 1;
  resources = 0;
  finished = false;
}

-- The end of a shared pointer; `rc` is what `uv_loop_close` returns if it is the last one.
unfoldable pub release_loop : ℤ → Shared → Shared
unfolding destroy
release_loop rc s =
    if ltb 1 s.strong
    then record s { strong = s.strong - 1 }
    else record s { strong = 0; loop = destroy rc s.loop; finished = true }

-- `loop::uninitialized_resource`: `uv_type` keeps the pointer that `shared_from_this` makes.
unfoldable pub make_resource : Shared → Shared
make_resource s = record s { strong = s.strong + 1; resources = s.resources + 1 }

-- `~uv_type`.
unfoldable pub end_resource : ℤ → Shared → Shared
unfolding release_loop
end_resource rc s = release_loop rc (record s { resources = s.resources - 1 })

pub data LoopUse : Type 0 where
  shares makes : LoopUse
  drops ends closes : ℤ → LoopUse

-- Code that reaches the loop holds a pointer to it, or has it from `parent()` of a resource.
unfoldable pub use_loop : LoopUse → Shared → Shared
unfolding release_loop make_resource end_resource close
use_loop shares s =
    if ltb 0 (s.users + s.resources)
    then record s { strong = s.strong + 1; users = s.users + 1 }
    else s
use_loop makes s = if ltb 0 (s.users + s.resources) then make_resource s else s
use_loop (drops rc) s =
    if ltb 0 s.users then release_loop rc (record s { users = s.users - 1 }) else s
use_loop (ends rc) s = if ltb 0 s.resources then end_resource rc s else s
use_loop (closes rc) s =
    if ltb 0 (s.users + s.resources) then record s { loop = (close rc s.loop).1 } else s

unfoldable pub uses_loop : List LoopUse → Shared → Shared
unfolding use_loop
uses_loop [] s = s
uses_loop (u ∷ us) s = uses_loop us (use_loop u s)

-- Whether somebody has called `loop::close`, by whether it was so before.
abbrev pub after : LoopUse → Bool → Bool
after shares asked = asked
after makes asked = asked
after (drops rc) asked = asked
after (ends rc) asked = asked
after (closes rc) asked = true

unfoldable pub asks_close : List LoopUse → Bool → Bool
asks_close [] asked = asked
asks_close (u ∷ us) asked = asks_close us (after u asked)
