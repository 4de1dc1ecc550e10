-- ===== src/Util/HandleType.antt =====
-- The types of handles: `uvw_handle_type` and `guess_handle` of src/uvw/util.h and util.ipp, and
-- `loop::walk` of loop.h, which dispatches on them.
-- A category is a number of libuv's `uv_handle_type`; `value t` is the one that the type `t` stands
-- for.
use uvw.Prelude.{
  ℕ, zero, suc, ◌≡◌, ◌≢◌, refl, sym, ◌⊎◌, inl, inr, Bool, true, false, Option, none, some, List, [],
  ◌∷◌, ◌++◌, ◌==◌, ==_iff, if◌then◌else◌, get_elem?, arith, Bool-cases,
}

pub data HandleType : Type 0 where
  unknown async check fs_event fs_poll handle idle pipe poll : HandleType
  prepare process stream tcp timer tty udp signal file : HandleType

-- The labels of the `switch` in `utilities::guess_handle`, in its order.
abbrev pub labels : List HandleType
labels =
    async ∷ check ∷ fs_event ∷ fs_poll ∷ handle ∷ idle ∷ pipe ∷ poll ∷ prepare ∷ process ∷ stream
    ∷ tcp ∷ timer ∷ tty ∷ udp ∷ signal ∷ file ∷ []

-- The types that `loop::walk` knows a class for; every other goes to its `default`.
unfoldable pub has_class : HandleType → Bool
has_class unknown = false
has_class handle = false
has_class stream = false
has_class file = false
has_class _ = true

-- A handle of a loop: its type, and `data`, which is its maker's; uvw sets it to the object's address.
pub record RawHandle : Type 0 where
  pub category : ℕ
  pub data_ : Option ℕ

module _ (value : HandleType → ℕ) where
  unfoldable pub switch : ℕ → List HandleType → HandleType
  switch category [] = unknown
  switch category (t ∷ ts) = if category == value t then t else switch category ts

  unfoldable pub guess_handle : ℕ → HandleType
  unfolding switch
  guess_handle category = switch category labels

  -- The call of the user's function that the lambda in `walk` makes for one handle.
  unfoldable pub visit : RawHandle → List (HandleType × ℕ)
  visit h = elim h.data_ [
    | none ↦ []
    | some d ↦ let t = guess_handle h.category in if has_class t then (t, d) ∷ [] else []
  ]

  -- `uv_walk` calls the lambda for each handle of the loop.
  unfoldable pub walk : List RawHandle → List (HandleType × ℕ)
  unfolding visit
  walk [] = []
  walk (h ∷ hs) = visit h ++ walk hs

-- The enumerators of libuv are distinct.
abbrev pub IsEnum : (HandleType → ℕ) → Type 0
IsEnum value = (t u : HandleType) → value t ≡ value u → t ≡ u

abbrev position : HandleType → ℕ
position unknown = 17
position async = 0
position check = 1
position fs_event = 2
position fs_poll = 3
position handle = 4
position idle = 5
position pipe = 6
position poll = 7
position prepare = 8
position process = 9
position stream = 10
position tcp = 11
position timer = 12
position tty = 13
position udp = 14
position signal = 15
position file = 16

labels-position : (t : HandleType) → t ≢ unknown → get_elem? labels (position t) ≡ some t
labels-position unknown ne = absurd (ne refl)
labels-position async ne = refl
labels-position _ ne = refl

module _ (value : HandleType → ℕ) (enum : IsEnum value) where
  label-matches : (t u : HandleType) → ((value t == value u) ≡ true) → t ≡ u
  label-matches t u h = enum t u ((==_iff _ _).0 h)

  switch-value :
      (t : HandleType) (ts : List HandleType) (i : ℕ)
      → get_elem? ts i ≡ some t
      → switch value (value t) ts ≡ t
  unfolding switch
  switch-value t [] i e = cc
  switch-value t (u ∷ ts) zero e = ground (arith, (==_iff (value t) (value u)).1)
  switch-value t (u ∷ ts) (suc i) e = elim (Bool-cases (value t == value u)) [
    | inl hit ↦ rw hit (sym (label-matches t u hit))
    | inr miss ↦ rw miss (switch-value t ts i e)
  ]

  -- No other category is taken for a type that has a label.
  switch_sound :
      (c : ℕ) (ts : List HandleType)
      → (switch value c ts ≡ unknown) ⊎ (value (switch value c ts) ≡ c)
  unfolding switch
  switch_sound c [] = inl refl
  switch_sound c (u ∷ ts) = elim (Bool-cases (c == value u)) [
    | inl hit ↦ rw hit (inr (sym ((==_iff _ _).0 hit)))
    | inr miss ↦ rw miss (switch_sound c ts)
  ]

  switch-labels : (t : HandleType) → switch value (value t) labels ≡ t
  switch-labels unknown = elim (switch_sound (value unknown) labels) [
    | inl e ↦ e
    | inr e ↦ enum _ _ e
  ]
  switch-labels async = switch-value async labels 0 refl
  switch-labels t = switch-value t labels (position t) (labels-position t (λ e. cc))

  -- Every type is guessed from its own category, and a category from which a type other than
  -- `UNKNOWN` is guessed is that type's own: `guess_handle` inverts the enumeration.
  pub guess_handle-value :
      (t : HandleType) (c : ℕ)
      → (guess_handle value (value t) ≡ t)
        × ((guess_handle value c ≡ unknown) ⊎ (value (guess_handle value c) ≡ c))
  unfolding guess_handle
  guess_handle-value t c = (switch-labels t, switch_sound c labels)

-- A handle of a loop as its maker knows it: one of uvw's, with its address, or one that other code
-- made, whose `data` is its maker's.
pub data Registered : Type 0 where
  ours : HandleType → ℕ → Registered
  foreign : HandleType → Option ℕ → Registered

abbrev pub raw : (HandleType → ℕ) → Registered → RawHandle
raw value (ours t d) = record { category = value t; data_ = some d }
raw value (foreign t d) = record { category = value t; data_ = d }

-- Every handle of uvw is of a type that has a class.
abbrev pub Classed : Registered → Type 0
Classed (ours t d) = has_class t ≡ true
Classed (foreign t d) = Unit

-- The handles that are objects of uvw, or are taken for such.
unfoldable pub taken_for_ours : List Registered → List (HandleType × ℕ)
unfolding has_class
taken_for_ours [] = []
taken_for_ours (ours t d ∷ hs) = (t, d) ∷ taken_for_ours hs
taken_for_ours (foreign t none ∷ hs) = taken_for_ours hs
taken_for_ours (foreign t (some d) ∷ hs) =
    let rest = taken_for_ours hs in if has_class t then (t, d) ∷ rest else rest
