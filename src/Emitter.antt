-- ===== src/Emitter.antt =====
-- src/uvw/emitter.h and emitter.ipp: the error event, and the table of listeners that every
-- resource inherits.
-- `E` stands for the event types of the template's parameter pack, `error_event` among them, `L`
-- for the listeners, and `V` for the events' values.
pub mod Listeners
pub mod History
pub mod Running
use uvw.Prelude.{Bool, Option, none, some, List, [], ◌∷◌, ite, is_some}
use uvw.Prelude.{ℤ, is_neg, to_int}

pub record ErrorEvent : Type 0 where
  pub ec : ℤ

-- The constructor narrows any integral type to `int`.
unfoldable pub to_error_event : ℤ → ErrorEvent
to_error_event val = record { ec = to_int val }

unfoldable pub code : ErrorEvent → ℤ
code e = e.ec

-- `explicit operator bool`.
unfoldable pub is_error : ErrorEvent → Bool
is_error e = is_neg e.ec

-- `std::tuple<listener_t<error_event>, listener_t<Event>...> handlers`, by event type.
pub record Emitter {ℓ κ} (E : Type ℓ) (L : Type κ) : Type (ℓ ⊔ κ) where
  pub handlers : E → Option L

module _ {ℓ κ} {E : Type ℓ} {L : Type κ} where
  -- An emitter with empty `std::function`s.
  unfoldable pub quiet : Emitter E L
  quiet = record { handlers = λ t. none }

  unfoldable pub handler : E → Emitter E L → Option L
  handler t e = e.handlers t

  unfoldable pub has : E → Emitter E L → Bool
  has t e = is_some (handler t e)

  -- `invoke f v s` is the effect of calling `f` with the event `v` where the program's state is `s`.
  unfoldable pub publish {μ ν} :
      {V : Type μ} {S : Type ν} → (L → V → S → S) → E → V → Emitter E L → S → S
  unfolding handler
  publish invoke t v e s = elim (handler t e) [ none ↦ s | some f ↦ invoke f v s ]

module _ {ℓ κ} {E : Type ℓ} {L : Type κ} (same : Discrete E) where
  unfoldable pub on : E → L → Emitter E L → Emitter E L
  on t f e = record { handlers = λ u. ite (same u t) (some f) (e.handlers u) }

  unfoldable pub reset : E → Emitter E L → Emitter E L
  reset t e = record { handlers = λ u. ite (same u t) none (e.handlers u) }

  unfoldable pub reset_each : List E → Emitter E L → Emitter E L
  reset_each [] e = e
  reset_each (t ∷ ts) e = reset_each ts (reset t e)

  -- `reset<error_event>(); (reset<Event>(), ...);`
  unfoldable pub reset_all : E → List E → Emitter E L → Emitter E L
  reset_all error events e = reset_each events (reset error e)
