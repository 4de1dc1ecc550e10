-- ===== src/Program/World.antt =====
-- A program with the requests that its user makes: src/uvw/work.ipp, dns.ipp and fs.ipp beside the
-- handles. They are those of Request, where a listener only writes the event down, and each holds a
-- pointer to the loop (uv_type.hpp) like a handle does.
pub mod Requests
pub mod Outlives
pub mod Answers
pub mod Quiet
pub mod Ends
use uvw.Prelude.{
  ℕ, zero, suc, ◌+◌, Bool, true, false, ◌&&◌, Option, none, some, List, [], ◌∷◌, ◌++◌, ℤ, ltb,
  is_some, to_nat, if◌then◌else◌, ◌>>=◌,
}
use uvw.Event.{Event}
use uvw.Lifetime.{Act}
use uvw.Request.{UserRequest, Pending, made, Step, step}
use uvw.Request.Accounts.{keeps}
use uvw.Loop.Shared.{makes, use_loop, uses_loop}
use uvw.Program.{Program, started, changes, update_at, ProgramMove, program_move, asks}

pub record UserReq : Type 0 where
  pub kind : UserRequest
  pub state : Pending

pub record World : Type 0 where
  pub program : Program
  pub requests : List UserReq

unfoldable pub world_started : ℕ → World
unfolding started
world_started p = record { program = started p; requests = [] }

-- How many of the requests exist.
unfoldable pub live : List UserReq → ℕ
live [] = 0
live (q ∷ qs) = to_nat (is_some q.state.request) + live qs

-- The program moves as before, the user makes a request, or a step of the request `i` is taken, by
-- the user or by libuv. `rc` is what `uv_loop_close` returns if the loop is closed then.
pub data WorldMove : Type 0 where
  within : ProgramMove → WorldMove
  makes_request : UserRequest → WorldMove
  steps : (i : ℕ) → (x : Step) → (rc : ℤ) → WorldMove

unfoldable pub step_request : Step → UserReq → Option UserReq
unfolding step
step_request x q = do s ← step q.kind x q.state; some (record q { state = s })

unfoldable pub set_loop_of : Program → ℤ → (before after : ℕ) → Program
unfolding uses_loop changes
set_loop_of p rc before after = record p { loop = uses_loop (changes rc before after) p.loop }

module _ (body : ℕ → Event → List Act) where
  unfoldable pub world_move : WorldMove → World → Option World
  unfolding program_move use_loop step_request update_at live set_loop_of made
  world_move (within m) w = do p ← program_move body m w.program; some (record w { program = p })
  world_move (makes_request k) w = some (
      if ltb 0 (w.program.loop.users + w.program.loop.resources)
      then record {
        program = record w.program { loop = use_loop makes w.program.loop };
        requests = w.requests ++ record { kind = k; state = made } ∷ [];
      }
      else w)
  world_move (steps i x rc) w = do
    qs ← update_at i (step_request x) w.requests
    some (record { program = set_loop_of w.program rc (live w.requests) (live qs); requests = qs })

  unfoldable pub world_run : List WorldMove → World → Option World
  unfolding world_move
  world_run [] w = some w
  world_run (m ∷ ms) w = world_move m w >>= world_run ms

-- The user keeps the pending requests whose calls do not leak them, and queues no pending request
-- (`keeps`).
unfoldable pub keeps_at : ℕ → Step → List UserReq → Bool
unfolding keeps
keeps_at i x [] = true
keeps_at zero x (q ∷ qs) = keeps q.kind x q.state
keeps_at (suc i) x (q ∷ qs) = keeps_at i x qs

unfoldable pub world_keeps : WorldMove → World → Bool
unfolding keeps_at
world_keeps (within m) w = true
world_keeps (makes_request k) w = true
world_keeps (steps i x rc) w = keeps_at i x w.requests

unfoldable pub world_keeps_all : (ℕ → Event → List Act) → List WorldMove → World → Bool
unfolding world_keeps world_move
world_keeps_all body [] w = true
world_keeps_all body (m ∷ ms) w =
    world_keeps m w
    && (elim (world_move body m w) [ none ↦ true | some v ↦ world_keeps_all body ms v ])

unfoldable pub world_asks : List WorldMove → Bool → Bool
unfolding asks
world_asks [] asked = asked
world_asks (within m ∷ ms) asked = world_asks ms (asks (m ∷ []) asked)
world_asks (makes_request k ∷ ms) asked = world_asks ms asked
world_asks (steps i x rc ∷ ms) asked = world_asks ms asked
