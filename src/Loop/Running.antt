-- ===== src/Loop/Running.antt =====
-- The members of a loop (src/uvw/loop.h, loop.ipp) that call libuv for the structure that it holds.
use uvw.Prelude.{ℕ, Bool, not, Option, ℤ, is_zero}
use uvw.Loop.{Loop}

-- `loop::run_mode`, with the value of libuv that each stands for.
pub data RunMode : Type 0 where
  default_ once nowait : RunMode

pub data LoopOption : Type 0 where
  block_signal idle_time_option : LoopOption

-- The calls, with the structure, which is null in a closed loop. `args` stands for what `configure`
-- forwards.
pub data LoopCall : Type 0 where
  uv_run : Option ℕ → RunMode → LoopCall
  uv_loop_alive uv_stop uv_backend_fd uv_update_time uv_loop_fork : Option ℕ → LoopCall
  uv_loop_configure : Option ℕ → LoopOption → (args : ℕ) → LoopCall

unfoldable pub run : RunMode → Loop → LoopCall
run mode l = uv_run l.uv_loop mode

unfoldable pub alive_call : Loop → LoopCall
alive_call l = uv_loop_alive l.uv_loop

-- `!!` of what libuv returns.
unfoldable pub alive : (libuv : LoopCall → ℤ) → Loop → Bool
unfolding alive_call
alive libuv l = not (is_zero (libuv (alive_call l)))

unfoldable pub stop_loop : Loop → LoopCall
stop_loop l = uv_stop l.uv_loop

unfoldable pub descriptor : Loop → LoopCall
descriptor l = uv_backend_fd l.uv_loop

unfoldable pub update : Loop → LoopCall
update l = uv_update_time l.uv_loop

unfoldable pub fork : Loop → LoopCall
fork l = uv_loop_fork l.uv_loop

unfoldable pub configure_loop : LoopOption → (args : ℕ) → Loop → LoopCall
configure_loop flag args l = uv_loop_configure l.uv_loop flag args
