-- ===== src/Emitter/History.antt =====
-- Which listener an event runs after any history of `on` and `reset` (src/uvw/emitter.h).
use uvw.Prelude.{
  ◌≡◌, refl, ◌∙◌, ite, Bool, true, false, Option, none, some, List, [], ◌∷◌, if◌then◌else◌,
}
use uvw.Emitter.{Emitter, handler, publish, on, reset, reset_each, reset_all}

pub data Change {ℓ κ} (E : Type ℓ) (L : Type κ) : Type (ℓ ⊔ κ) where
  registers : (t : E) → (f : L) → Change E L
  resets : (t : E) → Change E L
  resets_every : Change E L

module _ {ℓ} {E : Type ℓ} (same : Discrete E) where
  unfoldable pub is_in : E → List E → Bool
  is_in u [] = false
  is_in u (t ∷ ts) = ite (same u t) true (is_in u ts)

abbrev pub or_else {κ} : {L : Type κ} → Option (Option L) → Option L → Option L
or_else none o = o
or_else (some x) o = x

-- `error` is the type of the error event, `events` the parameter pack.
module _ {ℓ κ} {E : Type ℓ} {L : Type κ} (same : Discrete E) (error : E) (events : List E) where
  unfoldable pub change : Change E L → Emitter E L → Emitter E L
  unfolding on reset reset_all
  change (registers t f) e = on same t f e
  change (resets t) e = reset same t e
  change resets_every e = reset_all same error events e

  unfoldable pub change_all : List (Change E L) → Emitter E L → Emitter E L
  unfolding change
  change_all [] e = e
  change_all (c ∷ cs) e = change_all cs (change c e)

  -- What a change says of the listeners of a type, if it says anything.
  unfoldable pub says : E → Change E L → Option (Option L)
  unfolding is_in
  says u (registers t f) = ite (same u t) (some (some f)) none
  says u (resets t) = ite (same u t) (some none) none
  says u resets_every = if is_in same u (error ∷ events) then some none else none

  -- The last change that says something of the type, looked up from the end of the history.
  unfoldable pub latest : E → List (Change E L) → Option (Option L)
  unfolding says
  latest u [] = none
  latest u (c ∷ cs) = elim (latest u cs) [ none ↦ says u c | some x ↦ some x ]

  handler-reset :
      (u t : E) (e : Emitter E L) → handler u (reset same t e) ≡ ite (same u t) none (handler u e)
  unfolding handler reset
  handler-reset u t e = refl

  handler-reset_each :
      (u : E) (ts : List E) (e : Emitter E L)
      → handler u (reset_each same ts e) ≡ (if is_in same u ts then none else handler u e)
  unfolding reset_each is_in
  handler-reset_each u [] e = refl
  handler-reset_each u (t ∷ ts) e =
      handler-reset_each u ts (reset same t e)
      ∙ rw (handler-reset u t e) (cases (is_in same u ts) (same u t))
    where
      cases :
          (b : Bool) (d : Dec (u ≡ t))
          → (if b then none else ite d none (handler u e))
            ≡ (if ite d true b then none else handler u e)
      cases true (yes p) = refl
      cases true (no n) = refl
      cases false (yes p) = refl
      cases false (no n) = refl

  handler-change :
      (u : E) (c : Change E L) (e : Emitter E L)
      → handler u (change c e) ≡ or_else (says u c) (handler u e)
  unfolding change handler on says reset_each
  handler-change u (registers t f) e = cases (same u t)
    where
      cases :
          (d : Dec (u ≡ t))
          → ite d (some f) (e.handlers u) ≡ or_else (ite d (some (some f)) none) (e.handlers u)
      cases (yes p) = refl
      cases (no n) = refl
  handler-change u (resets t) e = handler-reset u t e ∙ cases (same u t)
    where
      cases :
          (d : Dec (u ≡ t))
          → ite d none (handler u e) ≡ or_else (ite d (some none) none) (handler u e)
      cases (yes p) = refl
      cases (no n) = refl
  handler-change u resets_every e =
      handler-reset_each u (error ∷ events) e ∙ cases (is_in same u (error ∷ events))
    where
      cases :
          (b : Bool)
          → (if b then none else handler u e)
            ≡ or_else (if b then some none else none) (handler u e)
      cases true = refl
      cases false = refl

  pub handler-change_all :
      (u : E) (cs : List (Change E L)) (e : Emitter E L)
      → handler u (change_all cs e) ≡ or_else (latest u cs) (handler u e)
  unfolding change_all latest
  handler-change_all u [] e = refl
  handler-change_all u (c ∷ cs) e =
      handler-change_all u cs (change c e) ∙ rw (handler-change u c e) (cases (latest u cs))
    where
      cases :
          (o : Option (Option L))
          → or_else o (or_else (says u c) (handler u e))
            ≡ or_else (elim o [ none ↦ says u c | some x ↦ some x ]) (handler u e)
      cases none = refl
      cases (some x) = refl

  -- After any history of `on`, `reset` and `reset` for every type, an event runs the listener that
  -- the last call which was about its type has registered, once, and none where that call was a
  -- reset; without such a call it runs what it ran before the history.
  pub publish-change_all {μ ν} :
      {V : Type μ} {S : Type ν} (invoke : L → V → S → S) (u : E) (v : V) (cs : List (Change E L))
      (e : Emitter E L) (s : S)
      → publish invoke u v (change_all cs e) s
        ≡ (elim (or_else (latest u cs) (handler u e)) [ none ↦ s | some f ↦ invoke f v s ])
  unfolding publish
  publish-change_all invoke u v cs e s = rw (publish, handler-change_all u cs e) refl
