-- ===== src/Request/Work.antt =====
-- src/uvw/work.ipp: the task of a `work_req`, and what it publishes.
use uvw.Prelude.{◌≡◌, ◌≢◌, refl, none, some, [], ◌∷◌, ℤ, pos, is_zero, if◌then◌else◌}
use uvw.Emitter.{to_error_event}
use uvw.Event.{Event, error_event, work_event}
use uvw.Resource.{leak_if, release, self_reset, share}
use uvw.Request.{
  Pending, made, work_req, queues, drops, answers, run, step, queue, drop, callback, reserve, leaks,
}

-- `S` is what the task works on, in a thread of libuv's.
unfoldable pub work_callback {ℓ} : {S : Type ℓ} → (func : S → S) → S → S
work_callback func s = func s

unfoldable pub after_work_callback : (status : ℤ) → Event
unfolding to_error_event
after_work_callback status =
    if is_zero status then work_event else error_event (to_error_event status)

-- A request that is queued and forgotten is there until libuv answers it, whatever the status, and
-- then gone.
forgotten_work :
    (status : ℤ)
    → (s : Pending) × (t : Pending) × (run work_req (queues (pos 0) ∷ drops ∷ []) made ≡ some s)
      × (s.held ≡ 0)
      × (s.request ≢ none)
      × (run work_req (answers (after_work_callback status) ∷ []) s ≡ some t)
      × (t.request ≡ none)
unfolding run step queue drop callback reserve made leaks leak_if release self_reset share
forgotten_work status = (_, _, refl, refl, λ e. cc, refl, refl)
