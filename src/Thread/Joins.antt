-- ===== src/Thread/Joins.antt =====
-- How often a thread object is joined, over its whole life.
use uvw.Prelude.{ℕ, ◌+◌, ◌≡◌, refl, true, false, List, [], ◌∷◌, ℤ, if◌then◌else◌, arith}
use uvw.Thread.{
  Thread, ThreadCall, thread_create, thread_create_ex, thread_join, made_thread, run_thread,
  run_with, join, ThreadUse, use_run, use_join, use_run_with, use_thread, life,
}

unfoldable pub joins_in : List ThreadCall → ℕ
joins_in [] = 0
joins_in (thread_join ∷ cs) = 1 + joins_in cs
joins_in (thread_create ∷ cs) = joins_in cs
joins_in (thread_create_ex f s ∷ cs) = joins_in cs

joins_in-life :
    (at_exit : ℤ) (us : List ThreadUse) (t : Thread)
    → joins_in (life at_exit us t) ≡ (if t.joinable then 1 else 0)
unfolding joins_in life use_thread join run_thread run_with
joins_in-life at_exit [] t = ground arith
joins_in-life at_exit (use_run r ∷ us) t = joins_in-life at_exit us t
joins_in-life at_exit (use_run_with r o s ∷ us) t = joins_in-life at_exit us t
joins_in-life at_exit (use_join r ∷ us) t =
    ground (arith, joins_in-life at_exit us (record { joinable = false }))

-- Whatever is called on a thread object, its life, destructor included, joins exactly once: also
-- where the program joined it more often, and also where `run` was never called or failed. A
-- `join` after another returns `true` and calls nothing.
pub joined_once :
    (at_exit res res' : ℤ) (us : List ThreadUse) (t : Thread)
    → (joins_in (life at_exit us made_thread) ≡ 1)
      × ((join res' (join res t).object).value ≡ true)
      × ((join res' (join res t).object).calls ≡ [])
unfolding made_thread join
joined_once at_exit res res' us t = (joins_in-life at_exit us made_thread, refl, refl)
