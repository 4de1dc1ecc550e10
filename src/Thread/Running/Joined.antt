-- ===== src/Thread/Running/Joined.antt =====
-- A thread that is started once is over before its object is destroyed; one that is started again is
-- not.
use uvw.Prelude.{
  ◌≡◌, refl, Bool, true, false, ◌||◌, Option, none, some, List, [], ◌∷◌, ◌++◌, pos, is_zero, length,
  if◌then◌else◌, arith,
}
use uvw.Thread.Running.{
  Threads, new_thread, run, end_join, start_join, is_running, callback_step, callback_end,
  ThreadMove, runs, joins, destroys, wakes, works, finishes, may_call, thread_move, thread_moves,
  runs_once, all_ended,
}
use uvw.Thread.Running.Invariant.{
  Sane, SaneAfter, SaneOf-cases, join-Sane, run-Sane, wakes-Sane, reads_live, stop-Sane,
}

-- The flag after a move, and whether the discipline allows the move.
abbrev fresh_after : ThreadMove → Bool → Bool
fresh_after (runs rc) fresh = if is_zero rc then false else fresh
fresh_after joins fresh = false
fresh_after destroys fresh = false
fresh_after wakes fresh = fresh
fresh_after (works i) fresh = fresh
fresh_after (finishes i) fresh = fresh

abbrev allows : ThreadMove → Bool → Bool
allows (runs rc) fresh = if is_zero rc then fresh else true
allows _ fresh = true

move-Sane :
    (m : ThreadMove) (fresh : Bool) (t : Threads)
    → Sane fresh t
    → allows m fresh ≡ true
    → SaneAfter (fresh_after m fresh) (thread_move m t)
unfolding thread_move callback_step callback_end
move-Sane (runs rc) fresh t s once = run-Sane rc fresh t s once
move-Sane joins fresh t s once = join-Sane false fresh t s
move-Sane destroys fresh t s once = join-Sane true fresh t s
move-Sane wakes fresh t s once = wakes-Sane fresh t s
move-Sane (works i) fresh t s once = rw (reads_live i fresh t s, callback_step) s
move-Sane (finishes i) fresh t s once =
    rw (reads_live i fresh t s, callback_end) (stop-Sane i fresh t s)

runs_once-cons :
    (m : ThreadMove) (ms : List ThreadMove) (fresh : Bool)
    → runs_once (m ∷ ms) fresh ≡ true
    → (runs_once ms (fresh_after m fresh) ≡ true) × (allows m fresh ≡ true)
unfolding runs_once
runs_once-cons (runs rc) ms fresh h = ground arith
runs_once-cons joins ms fresh h = (h, refl)
runs_once-cons destroys ms fresh h = (h, refl)
runs_once-cons wakes ms fresh h = (h, refl)
runs_once-cons (works i) ms fresh h = (h, refl)
runs_once-cons (finishes i) ms fresh h = (h, refl)

moves-Sane :
    (ms : List ThreadMove) (fresh : Bool) (t : Threads)
    → Sane fresh t
    → runs_once ms fresh ≡ true
    → (u : Threads) × (end_flag : Bool) × (thread_moves ms t ≡ some u) × Sane end_flag u
unfolding thread_moves
moves-Sane [] fresh t s h = (t, fresh, refl, s)
moves-Sane (m ∷ ms) fresh t s h =
    let (rest, once) = runs_once-cons m ms fresh h in
    go (thread_move m t) (move-Sane m fresh t s once)
      (λ u s'. moves-Sane ms (fresh_after m fresh) u s' rest)
  where
    go :
        (o : Option Threads)
        → SaneAfter (fresh_after m fresh) o
        → ((u : Threads)
            → Sane (fresh_after m fresh) u
            → (v : Threads) × (end_flag : Bool) × (thread_moves ms u ≡ some v) × Sane end_flag v)
        → (v : Threads) × (end_flag : Bool) × ((elim o [ none ↦ none | some u ↦ thread_moves ms u ])
            ≡ some v)
          × Sane end_flag v
    go none s' f = absurd s'
    go (some u) s' f = f u s'

Sane-ended : (fresh : Bool) (t : Threads) → Sane fresh t → t.object || all_ended t.running ≡ true
unfolding all_ended
Sane-ended fresh t s =
    let o = t.object in
    let j = t.joinable in
    SaneOf-cases fresh o j (λ h rs w. o || all_ended rs ≡ true) (λ s. ground arith)
      (λ h b s. ground arith) (λ h b k d s. ground arith) t s

-- A program that starts the thread once, before any `join`: in whichever order the program and the
-- thread proceed, the thread reads the object only while it is there, and when the object has been
-- destroyed the thread is over.
pub started_once :
    (ms : List ThreadMove)
    → runs_once ms true ≡ true
    → (t : Threads) × (thread_moves ms new_thread ≡ some t)
      × (t.object || all_ended t.running ≡ true)
unfolding new_thread
started_once ms h =
    let (t, flag, e, s) = moves-Sane ms true new_thread (refl, refl) h in
    (t, e, Sane-ended flag t s)

is_running_last : (bs : List Bool) → is_running (length bs) (bs ++ true ∷ []) ≡ true
unfolding is_running
is_running_last [] = refl
is_running_last (b ∷ bs) = is_running_last bs

-- A thread that was joined is not joinable again when it is started again: the destructor does not
-- wait for it, and its next step reads the destroyed object.
pub started_again :
    (t : Threads)
    → may_call t ≡ true
    → t.joinable ≡ false
    → thread_moves (runs (pos 0) ∷ destroys ∷ works (length t.running) ∷ []) t ≡ none
unfolding thread_moves thread_move run start_join end_join callback_step may_call
started_again t h j = ground (arith, is_running_last t.running)
