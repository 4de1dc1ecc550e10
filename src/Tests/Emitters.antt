-- ===== src/Tests/Emitters.antt =====
-- Listeners that replace listeners while they run, at concrete inputs.
use uvw.Prelude.{ℕ, zero, suc, ◌≡◌, refl, none, some, List, [], ◌∷◌, ◌>>=◌}
use uvw.Emitter.{handler, quiet}
use uvw.Event.{EventType, EventType-discrete}
use uvw.Emitter.History.{Change, registers, resets, change_all, latest}
use uvw.Emitter.Running.{
  Deed, changes, uses_captures, publish_each, promised, publish_each-promised,
}

-- Listener 0 uses its captures and then registers 1 in its place, which resets itself first.
abbrev replacing : ℕ → ℕ → List (Deed EventType ℕ)
replacing zero v = uses_captures ∷ changes (registers EventType.write 1) ∷ []
replacing (suc f) v = changes (resets EventType.write) ∷ uses_captures ∷ []

abbrev once_written : List (EventType × ℕ)
once_written = (EventType.write, 5) ∷ (EventType.end, 6) ∷ []

abbrev listening : List (Change EventType ℕ)
listening = registers EventType.write 0 ∷ []

publish_each-promised_example :
    publish_each EventType-discrete EventType.error [] replacing once_written
      (change_all EventType-discrete EventType.error [] listening quiet)
    ≡ (promised EventType-discrete EventType.error [] replacing quiet once_written listening
        >>= λ cs. some (change_all EventType-discrete EventType.error [] cs quiet))
publish_each-promised_example =
    publish_each-promised EventType-discrete EventType.error [] replacing once_written listening
      quiet

-- The second event of the type runs the listener that destroys itself.
destroyed_captures :
    publish_each EventType-discrete EventType.error [] replacing
      ((EventType.write, 5) ∷ (EventType.write, 6) ∷ [])
      (change_all EventType-discrete EventType.error [] listening quiet)
    ≡ none
unfolding publish_each change_all quiet EventType-discrete
destroyed_captures = refl

promised_changes :
    promised EventType-discrete EventType.error [] replacing quiet once_written listening
    ≡ some (registers EventType.write 0 ∷ registers EventType.write 1 ∷ [])
unfolding promised latest handler quiet EventType-discrete
promised_changes = refl
