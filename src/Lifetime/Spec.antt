-- ===== src/Lifetime/Spec.antt =====
-- What a handle promises, with no pointer, no reference count and no request object: a state of
-- libuv, the pointers that the user keeps, the kinds of the unanswered requests, and the listeners.
use uvw.Prelude.{
  ℕ, zero, suc, ◌+◌, ◌-◌, Option, none, some, List, [], ◌∷◌, ◌++◌, ite, is_zero, ltb, if◌then◌else◌,
  ◌>>=◌,
}
use uvw.Event.{EventType, Event, close_event, type_of, EventType-discrete}
use uvw.Lifetime.{
  closes_reset, initialised, ReqKind, answer, UvState, inert, opened, closing, closed, Act,
  take_ref, drop_ref, closes, inits, submits, listens, resets, sets_data, Move, user, answers,
  close_done, walked,
}

pub record Spec : Type 0 where
  pub uv : UvState
  pub held : ℕ
  pub pending : List ReqKind
  pub table : EventType → Option ℕ
  pub user_data : Option ℕ
  pub log : List (ℕ × Event)

unfoldable pub start : Spec
start = record { uv = inert; held = 1; pending = []; table = λ t. none; user_data = none; log = [] }

abbrev pub put : EventType → Option ℕ → (EventType → Option ℕ) → EventType → Option ℕ
put t f table u = ite (EventType-discrete u t) f (table u)

unfoldable pub spec_act : Act → Spec → Spec
unfolding initialised
spec_act take_ref x = record x { held = x.held + 1 }
spec_act drop_ref x = record x { held = x.held - 1 }
spec_act closes x = record x { uv = elim x.uv [ opened ↦ closing | u ↦ u ] }
spec_act (inits rc) x = record x { uv = initialised rc x.uv }
spec_act (closes_reset rc) x = record x {
  uv = elim x.uv [ opened ↦ if is_zero rc then closing else opened | u ↦ u ];
}
spec_act (submits k rc) x = record x {
  pending = if is_zero rc then x.pending ++ k ∷ [] else x.pending;
}
spec_act (listens t f) x = record x { table = put t (some f) x.table }
spec_act (resets t) x = record x { table = put t none x.table }
spec_act (sets_data d) x = record x { user_data = d }

unfoldable pub spec_acts : List Act → Spec → Spec
unfolding spec_act
spec_acts [] x = x
spec_acts (a ∷ acts) x = spec_acts acts (spec_act a x)

unfoldable pub take_kind : ℕ → List ReqKind → Option (ReqKind × List ReqKind)
take_kind i [] = none
take_kind zero (k ∷ ks) = some (k, ks)
take_kind (suc i) (k ∷ ks) = do (p, rest) ← take_kind i ks; some (p, k ∷ rest)

module _ (body : ℕ → Event → List Act) where
  -- An event runs the listener of its type, if there is one.
  unfoldable pub spec_publish : Event → Spec → Spec
  unfolding spec_acts
  spec_publish v x = elim (x.table (type_of v)) [
    | none ↦ x
    | some f ↦ spec_acts (body f v) (record x { log = x.log ++ (f, v) ∷ [] })
  ]

  unfoldable pub spec_move : Move → Spec → Spec
  unfolding spec_act spec_publish
  spec_move (user a) x = if ltb 0 x.held then spec_act a x else x
  spec_move (answers i status) x = elim (take_kind i x.pending) [
    | none ↦ x
    | some (k, rest) ↦ spec_publish (answer k status) (record x { pending = rest })
  ]
  spec_move close_done x = elim x.uv [
    | closing ↦ spec_publish close_event (record x { uv = closed })
    | _ ↦ x
  ]
  spec_move walked x = spec_act closes x

  unfoldable pub spec_run : List Move → Spec → Spec
  unfolding spec_move
  spec_run [] x = x
  spec_run (m ∷ ms) x = spec_run ms (spec_move m x)
