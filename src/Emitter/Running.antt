-- ===== src/Emitter/Running.antt =====
-- A listener that changes the emitter's listeners while it runs (src/uvw/emitter.h). `publish` calls
-- the `std::function` in place, so one that is assigned to is destroyed with what it captured, also
-- where it is running. `none` is a use of a captured object after that.
use uvw.Prelude.{
  ◌≡◌, refl, ◌∙◌, Bool, true, false, not, ◌&&◌, Option, none, some, List, [], ◌∷◌, ◌++◌, is_some,
  if◌then◌else◌, Bool-cases, Option-cases, inl, inr, ◌>>=◌,
}
use uvw.Emitter.{Emitter, handler}
use uvw.Emitter.History.{Change, change, change_all, says, or_else, latest, handler-change_all}

-- What a listener does: it changes a listener, or it uses what it has captured.
pub data Deed {ℓ κ} (E : Type ℓ) (L : Type κ) : Type (ℓ ⊔ κ) where
  changes : Change E L → Deed E L
  uses_captures : Deed E L

module _ {ℓ κ} {E : Type ℓ} {L : Type κ} (same : Discrete E) (error : E) (events : List E) where
  -- The listener for `u` runs; `alive` says that its `std::function` has not been assigned to.
  unfoldable pub do_deeds : E → List (Deed E L) → Bool → Emitter E L → Option (Emitter E L)
  unfolding change says
  do_deeds u [] alive e = some e
  do_deeds u (changes c ∷ ds) alive e =
      do_deeds u ds (alive && not (is_some (says same error events u c)))
        (change same error events c e)
  do_deeds u (uses_captures ∷ ds) alive e =
      let rest = do_deeds u ds alive e in if alive then rest else none

  -- `publish`, where `body f v` is what the listener `f` does with the event `v`.
  unfoldable pub publish_running {μ} :
      {V : Type μ} → (L → V → List (Deed E L)) → E → V → Emitter E L → Option (Emitter E L)
  unfolding handler do_deeds
  publish_running body u v e = elim (handler u e) [
    | none ↦ some e
    | some f ↦ do_deeds u (body f v) true e
  ]

  unfoldable pub publish_each {μ} :
      {V : Type μ} → (L → V → List (Deed E L)) → List (E × V) → Emitter E L → Option (Emitter E L)
  unfolding publish_running
  publish_each body [] e = some e
  publish_each body ((u, v) ∷ vs) e = publish_running body u v e >>= publish_each body vs

-- What the emitter promises, with no slot and no `std::function` in it: a listener may change every
-- listener, its own too, if it has no use for its captures from then on.
module _ {ℓ κ} {E : Type ℓ} {L : Type κ} where
  unfoldable pub has_uses : List (Deed E L) → Bool
  has_uses [] = false
  has_uses (changes c ∷ ds) = has_uses ds
  has_uses (uses_captures ∷ ds) = true

  unfoldable pub changes_of : List (Deed E L) → List (Change E L)
  changes_of [] = []
  changes_of (changes c ∷ ds) = c ∷ changes_of ds
  changes_of (uses_captures ∷ ds) = changes_of ds

module _ {ℓ κ} {E : Type ℓ} {L : Type κ} (same : Discrete E) (error : E) (events : List E) where
  -- The listener for `u` uses nothing once it has changed the listener for `u`.
  unfoldable pub is_careful : E → List (Deed E L) → Bool
  unfolding has_uses
  is_careful u [] = true
  is_careful u (changes c ∷ ds) =
      let rest = is_careful u ds in
      if is_some (says same error events u c) then not (has_uses ds) else rest
  is_careful u (uses_captures ∷ ds) = is_careful u ds

  do_deeds-dead :
      (u : E) (ds : List (Deed E L)) (e : Emitter E L)
      → do_deeds same error events u ds false e
        ≡ (if has_uses ds then none else some (change_all same error events (changes_of ds) e))
  unfolding do_deeds has_uses changes_of change_all
  do_deeds-dead u [] e = refl
  do_deeds-dead u (changes c ∷ ds) e = do_deeds-dead u ds (change same error events c e)
  do_deeds-dead u (uses_captures ∷ ds) e = refl

  do_deeds-alive :
      (u : E) (ds : List (Deed E L)) (e : Emitter E L)
      → do_deeds same error events u ds true e
        ≡ (if is_careful u ds then some (change_all same error events (changes_of ds) e) else none)
  unfolding do_deeds is_careful changes_of change_all
  do_deeds-alive u [] e = refl
  do_deeds-alive u (changes c ∷ ds) e = elim (Bool-cases (is_some (says same error events u c))) [
    | inl own ↦
        rw (own, do_deeds)
          (do_deeds-dead u ds (change same error events c e) ∙ flip (has_uses ds) _)
    | inr other ↦ rw (other, do_deeds) (do_deeds-alive u ds (change same error events c e))
  ]
    where
      flip :
          (b : Bool) (o : Option (Emitter E L))
          → (if b then none else o) ≡ (if not b then o else none)
      flip true o = refl
      flip false o = refl
  do_deeds-alive u (uses_captures ∷ ds) e = do_deeds-alive u ds e

  change_all-append :
      (cs ds : List (Change E L)) (e : Emitter E L)
      → change_all same error events (cs ++ ds) e
        ≡ change_all same error events ds (change_all same error events cs e)
  unfolding change_all
  change_all-append [] ds e = refl
  change_all-append (c ∷ cs) ds e = change_all-append cs ds (change same error events c e)

  module _ {μ} {V : Type μ} (body : L → V → List (Deed E L)) where
    -- All changes that a run of events makes, after those of `cs`, if no listener is careless.
    unfoldable pub promised :
        Emitter E L → List (E × V) → List (Change E L) → Option (List (Change E L))
    unfolding changes_of is_careful
    promised e [] cs = some cs
    promised e ((u, v) ∷ vs) cs = elim (or_else (latest same error events u cs) (handler u e)) [
      | none ↦ promised e vs cs
      | some f ↦ elim (is_careful u (body f v)) [
        | true ↦ promised e vs (cs ++ changes_of (body f v))
        | false ↦ none
      ]
    ]

    stepped :
        (ds : List (Change E L)) (vs : List (E × V)) (cs : List (Change E L)) (e : Emitter E L)
        (b : Bool)
        → publish_each same error events body vs (change_all same error events (cs ++ ds) e)
          ≡ (promised e vs (cs ++ ds) >>= λ xs. some (change_all same error events xs e))
        → ((if b
              then some (change_all same error events ds (change_all same error events cs e))
              else none)
            >>= publish_each same error events body vs)
          ≡ ((elim b [ true ↦ promised e vs (cs ++ ds) | false ↦ none ]) >>= λ xs.
              some (change_all same error events xs e))
    stepped ds vs cs e true ih = rw (← change_all-append cs ds e) ih
    stepped ds vs cs e false ih = refl

    -- Whatever listeners do while they run: a run of events uses destroyed captures exactly where the
    -- promise is broken by a careless listener, and otherwise leaves the listeners that all changes
    -- together, in their order, make of those before.
    pub publish_each-promised :
        (vs : List (E × V)) (cs : List (Change E L)) (e : Emitter E L)
        → publish_each same error events body vs (change_all same error events cs e)
          ≡ (promised e vs cs >>= λ ds. some (change_all same error events ds e))
    unfolding publish_each publish_running promised
    publish_each-promised [] cs e = refl
    publish_each-promised ((u, v) ∷ vs) cs e =
        let seen = handler-change_all same error events u cs e in
        elim (Option-cases (or_else (latest same error events u cs) (handler u e))) [
          | inl quiet ↦
              rw (seen ∙ quiet, publish_running, quiet, promised) (publish_each-promised vs cs e)
          | inr (f, loud) ↦
              rw (seen ∙ loud, publish_running, loud, promised, do_deeds-alive u (body f v))
                (stepped (changes_of (body f v)) vs cs e (is_careful u (body f v))
                  (publish_each-promised vs (cs ++ changes_of (body f v)) e))
        ]
