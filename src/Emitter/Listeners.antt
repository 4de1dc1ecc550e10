-- ===== src/Emitter/Listeners.antt =====
-- What `on`, `reset` and `publish` of src/uvw/emitter.h do to the listeners of every event type,
-- and which codes an `error_event` carries.
use mathlib.Core.List.{Memᴰ}
use mathlib.Core.Logic.{if_pos, if_neg}
use uvw.Prelude.{
  to_word, is_neg, ◌↔◌, ℤ, ◌<◌, ◌^◌, ◌≡◌, ◌≢◌, refl, ◌∙◌, ◌⊎◌, inl, inr, false, none, some,
}
use uvw.Prelude.{List, [], ◌∷◌, arith, pos, negsuc}
use uvw.Emitter.{Emitter, handler, has, publish, on, reset, reset_each, reset_all}
use uvw.Emitter.{to_error_event, code, is_error}

module _ {ℓ κ} {E : Type ℓ} {L : Type κ} where
  publish-none {μ ν} :
      {V : Type μ} {S : Type ν} (invoke : L → V → S → S) (t : E) (v : V) (e : Emitter E L) (s : S)
      → handler t e ≡ none
      → publish invoke t v e s ≡ s
  unfolding publish
  publish-none invoke t v e s h = rw (h, publish)

  publish-some {μ ν} :
      {V : Type μ} {S : Type ν} (invoke : L → V → S → S) (t : E) (f : L) (v : V) (e : Emitter E L)
      (s : S)
      → handler t e ≡ some f
      → publish invoke t v e s ≡ invoke f v s
  unfolding publish
  publish-some invoke t f v e s h = rw (h, publish)

  publish_same {μ ν} :
      {V : Type μ} {S : Type ν} (invoke : L → V → S → S) (t : E) (v : V) (e e' : Emitter E L)
      (s : S)
      → handler t e ≡ handler t e'
      → publish invoke t v e s ≡ publish invoke t v e' s
  unfolding publish
  publish_same invoke t v e e' s h = rw (h, publish)

module _ {ℓ κ} {E : Type ℓ} {L : Type κ} (same : Discrete E) where
  handler-on_self : (t : E) (f : L) (e : Emitter E L) → handler t (on same t f e) ≡ some f
  unfolding handler on
  handler-on_self t f e = if_pos (same t t) refl _ _

  handler-on_ne :
      (t u : E) (f : L) (e : Emitter E L) → u ≢ t → handler u (on same t f e) ≡ handler u e
  unfolding handler on
  handler-on_ne t u f e ne = if_neg (same u t) ne _ _

  handler-reset_self : (t : E) (e : Emitter E L) → handler t (reset same t e) ≡ none
  unfolding handler reset
  handler-reset_self t e = if_pos (same t t) refl _ _

  handler-reset-none :
      (t u : E) (e : Emitter E L) → handler u e ≡ none → handler u (reset same t e) ≡ none
  unfolding handler reset
  handler-reset-none t u e h = elim (same u t) [
    | yes p ↦ if_pos (same u t) p _ _
    | no p ↦ if_neg (same u t) p _ _ ∙ h
  ]

  handler-reset_each-none :
      (ts : List E) (u : E) (e : Emitter E L)
      → handler u e ≡ none
      → handler u (reset_each same ts e) ≡ none
  unfolding reset_each
  handler-reset_each-none [] u e h = h
  handler-reset_each-none (t ∷ ts) u e h =
      handler-reset_each-none ts u (reset same t e) (handler-reset-none t u e h)

  handler-reset_each :
      (ts : List E) (u : E) (e : Emitter E L) → Memᴰ u ts → handler u (reset_each same ts e) ≡ none
  unfolding reset_each
  handler-reset_each [] u e m = elim m [ ]
  handler-reset_each (t ∷ ts) u e (Memᴰ.head p) =
      handler-reset_each-none ts u (reset same t e) (rw p (handler-reset_self t e))
  handler-reset_each (t ∷ ts) u e (Memᴰ.tail m) = handler-reset_each ts u (reset same t e) m

  handler-reset_all :
      (error : E) (events : List E) (u : E) (e : Emitter E L)
      → (u ≡ error) ⊎ Memᴰ u events
      → handler u (reset_all same error events e) ≡ none
  unfolding reset_all
  handler-reset_all error events u e (inl p) =
      handler-reset_each-none events u (reset same error e) (rw p (handler-reset_self error e))
  handler-reset_all error events u e (inr m) = handler-reset_each events u (reset same error e) m

module _ {ℓ κ μ ν} {E : Type ℓ} {L : Type κ} {V : Type μ} {S : Type ν} where
  -- Registering a listener replaces the one for that event type and leaves every other type as it
  -- was: an event of that type runs the new listener once, one of another type runs what it ran.
  pub publish-on :
      (same : Discrete E) (invoke : L → V → S → S) (t u : E) (f : L) (v : V) (e : Emitter E L)
      (s : S)
      → u ≢ t
      → (publish invoke t v (on same t f e) s ≡ invoke f v s)
        × (publish invoke u v (on same t f e) s ≡ publish invoke u v e s)
  publish-on same invoke t u f v e s ne = (
    publish-some invoke t f v (on same t f e) s (handler-on_self same t f e),
    publish_same invoke u v (on same t f e) e s (handler-on_ne same t u f e ne),
  )

  -- After `reset()` no event of a type of the parameter pack, `error_event` included, has a
  -- listener, and publishing one changes nothing.
  pub publish-reset_all :
      (same : Discrete E) (error : E) (events : List E) (invoke : L → V → S → S) (u : E) (v : V)
      (e : Emitter E L) (s : S)
      → (u ≡ error) ⊎ Memᴰ u events
      → (has u (reset_all same error events e) ≡ false)
        × (publish invoke u v (reset_all same error events e) s ≡ s)
  unfolding has
  publish-reset_all same error events invoke u v e s m =
      let gone = handler-reset_all same error events u e m in
      (rw gone, publish-none invoke u v (reset_all same error events e) s gone)

-- The values of `int`.
abbrev pub IsInt : ℤ → Type 0
IsInt (pos n) = n < 2 ^ 31
IsInt (negsuc n) = n < 2 ^ 31

-- The code of an error event is an `int`, equal modulo 2 ^ 32 to the number it is built from, and so
-- it is that number just where that is an `int`; the event then tells an error by its sign.
pub code-to_error_event :
    (v : ℤ)
    → IsInt (code (to_error_event v))
      × (to_word (2 ^ 32) (code (to_error_event v)) ≡ to_word (2 ^ 32) v)
      × ((code (to_error_event v) ≡ v) ↔ IsInt v)
      × (IsInt v → is_error (to_error_event v) ≡ is_neg v)
unfolding code to_error_event is_error
code-to_error_event (pos n) =
    (ground arith, ground arith, (ground arith, ground arith), ground arith)
code-to_error_event (negsuc n) =
    (ground arith, ground arith, (ground arith, ground arith), ground arith)
