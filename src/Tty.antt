-- ===== src/Tty.antt =====
-- src/uvw/tty.ipp: the terminal's mode, which is reset when the last terminal handle is gone, and the
-- size of its window.
use uvw.Prelude.{
  not, ◌||◌, ℕ, ◌+◌, ◌-◌, ◌≡◌, refl, ap, Bool, true, false, Option, none, some, List, [], ◌∷◌, ℤ,
  negsuc, is_zero, ltb, ◌==◌, if◌then◌else◌, arith,
}

pub data TtyMode : Type 0 where
  normal raw io : TtyMode

-- The calls of libuv that are about the terminal's mode.
pub data ModeCall : Type 0 where
  uv_tty_set_mode : TtyMode → ModeCall
  uv_tty_reset_mode : ModeCall

-- The static `weak` pointer of `mode_memo_handler`, as the count of shared pointers to its object,
-- `none` where there is no object; the handles that there are; how often `uv_tty_reset_mode` was
-- called by the object's destructor; and all calls about the mode, the latest first.
pub record Terminals : Type 0 where
  pub weak : Option ℕ
  pub handles : ℕ
  pub reset_calls : ℕ
  pub mode_calls : List ModeCall

unfoldable pub no_terminals : Terminals
no_terminals = record { weak = none; handles = 0; reset_calls = 0; mode_calls = [] }

unfoldable pub mode_memo_handler : Option ℕ → Option ℕ
mode_memo_handler none = some 1
mode_memo_handler (some n) = some (n + 1)

-- The constructor.
unfoldable pub new_tty : Terminals → Terminals
unfolding mode_memo_handler
new_tty t = record t { weak = mode_memo_handler t.weak; handles = t.handles + 1 }

-- The release of one `std::shared_ptr<reset_mode_memo>`: what is left, and whether the object's
-- destructor runs.
unfoldable pub release_memo : Option ℕ → Option ℕ × Bool
release_memo none = (none, false)
release_memo (some n) = if ltb 1 n then (some (n - 1), false) else (none, true)

-- The destructor of a handle, if there is one.
unfoldable pub end_tty : Terminals → Terminals
unfolding release_memo
end_tty t = if t.handles == 0 then t else record {
  weak = (release_memo t.weak).0;
  handles = t.handles - 1;
  reset_calls = if (release_memo t.weak).1 then t.reset_calls + 1 else t.reset_calls;
  mode_calls = if (release_memo t.weak).1 then uv_tty_reset_mode ∷ t.mode_calls else t.mode_calls;
}

-- `tty_handle::mode` and `reset_mode`, by what libuv returns.
unfoldable pub mode : (rc : ℤ) → TtyMode → Terminals → Bool × Terminals
mode rc m t = (is_zero rc, record t { mode_calls = uv_tty_set_mode m ∷ t.mode_calls })

unfoldable pub reset_mode : (rc : ℤ) → Terminals → Bool × Terminals
reset_mode rc t = (is_zero rc, record t { mode_calls = uv_tty_reset_mode ∷ t.mode_calls })

-- What a program does with its terminal handles; the mode needs one to be called on.
pub data TtyUse : Type 0 where
  makes ends : TtyUse
  sets_mode : (rc : ℤ) → TtyMode → TtyUse
  resets_mode : (rc : ℤ) → TtyUse

unfoldable pub use_ttys : List TtyUse → Terminals → Terminals
unfolding new_tty end_tty mode reset_mode
use_ttys [] t = t
use_ttys (makes ∷ us) t = use_ttys us (new_tty t)
use_ttys (ends ∷ us) t = use_ttys us (end_tty t)
use_ttys (sets_mode rc m ∷ us) t = use_ttys us (if t.handles == 0 then t else (mode rc m t).1)
use_ttys (resets_mode rc ∷ us) t = use_ttys us (if t.handles == 0 then t else (reset_mode rc t).1)

-- `get_win_size`, by what `uv_tty_get_winsize` returns and writes.
pub record WinSize : Type 0 where
  pub width : ℤ
  pub height : ℤ

unfoldable pub get_win_size : (err width height : ℤ) → WinSize
get_win_size err width height =
    if is_zero err
    then record { width = width; height = height }
    else record { width = negsuc 0; height = negsuc 0 }

-- How often the number of handles falls to 0, where there are `n`.
unfoldable pub falls : List TtyUse → ℕ → ℕ
falls [] n = 0
falls (makes ∷ us) n = falls us (n + 1)
falls (ends ∷ us) n = (if n == 1 then 1 else 0) + falls us (n - 1)
falls (sets_mode rc m ∷ us) n = falls us n
falls (resets_mode rc ∷ us) n = falls us n

-- The terminal's mode is not one that a handle set: the latest call reset it, or there was none.
unfoldable pub is_reset : List ModeCall → Bool
is_reset [] = true
is_reset (uv_tty_set_mode m ∷ cs) = false
is_reset (uv_tty_reset_mode ∷ cs) = true

abbrev Shared : Terminals → Type 0
Shared t =
    (t.weak ≡ (if t.handles == 0 then none else some t.handles))
    × (not (t.handles == 0) || is_reset t.mode_calls ≡ true)

new_tty-Shared : (t : Terminals) → Shared t → Shared (new_tty t)
unfolding new_tty mode_memo_handler
new_tty-Shared t (h, k) = (ground arith, ground arith)

end_tty-Shared :
    (t : Terminals)
    → Shared t
    → Shared (end_tty t)
      × ((end_tty t).handles ≡ t.handles - 1)
      × ((end_tty t).reset_calls ≡ t.reset_calls + (if t.handles == 1 then 1 else 0))
unfolding end_tty release_memo is_reset
end_tty-Shared t (h, k) = ((ground arith, ground arith), ground arith, ground arith)

mode_call-Shared :
    (c : ModeCall) (t : Terminals)
    → Shared t
    → let t' = if t.handles == 0 then t else record t { mode_calls = c ∷ t.mode_calls } in
      Shared t' × (t'.handles ≡ t.handles) × (t'.reset_calls ≡ t.reset_calls)
mode_call-Shared c t (h, k) = ((ground arith, ground arith), ground arith, ground arith)

use_ttys-Shared :
    (us : List TtyUse) (t : Terminals)
    → Shared t
    → Shared (use_ttys us t) × ((use_ttys us t).reset_calls ≡ t.reset_calls + falls us t.handles)
unfolding use_ttys falls new_tty mode reset_mode
use_ttys-Shared [] t h = (h, omega arith)
use_ttys-Shared (makes ∷ us) t h = use_ttys-Shared us (new_tty t) (new_tty-Shared t h)
use_ttys-Shared (ends ∷ us) t h =
    let (a, b, c) = end_tty-Shared t h in
    let (d, e) = use_ttys-Shared us (end_tty t) a in (d, omega (arith, e, c, ap (falls us) b))
use_ttys-Shared (sets_mode rc m ∷ us) t h =
    let (a, b, c) = mode_call-Shared (uv_tty_set_mode m) t h in
    let (d, e) = use_ttys-Shared us _ a in (d, omega (arith, e, c, ap (falls us) b))
use_ttys-Shared (resets_mode rc ∷ us) t h =
    let (a, b, c) = mode_call-Shared uv_tty_reset_mode t h in
    let (d, e) = use_ttys-Shared us _ a in (d, omega (arith, e, c, ap (falls us) b))

-- Over any making and ending of terminal handles, and whatever modes they set: handles that end
-- reset the mode each time that the last of them is gone, and at no other time; in between, they all
-- share one object; and where there is no handle, the mode is not one that a handle set, since the
-- latest call about it, if there was any, reset it.
pub use_ttys_resets :
    (us : List TtyUse)
    → ((use_ttys us no_terminals).reset_calls ≡ falls us 0)
      × ((use_ttys us no_terminals).weak ≡ (
          if (use_ttys us no_terminals).handles == 0
          then none
          else some (use_ttys us no_terminals).handles))
      × (not ((use_ttys us no_terminals).handles == 0)
            || is_reset (use_ttys us no_terminals).mode_calls
          ≡ true)
unfolding no_terminals is_reset
use_ttys_resets us =
    let ((a, c), b) = use_ttys-Shared us no_terminals (refl, refl) in (omega (arith, b), a, c)
