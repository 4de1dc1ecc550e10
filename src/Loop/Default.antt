-- ===== src/Loop/Default.antt =====
-- `loop::get_default` of src/uvw/loop.ipp, with its static weak pointer.
use uvw.Prelude.{
  ℕ, ◌+◌, ◌-◌, ◌<◌, ◌≡◌, refl, Bool, true, Option, none, some, List, [], ◌∷◌, All, ltb,
  if◌then◌else◌, arith,
}

-- `static std::weak_ptr<loop> ref`: the number of the loop object that it was set to, and how many
-- shared pointers there are to that object. `made` counts the objects made so far.
pub record Static : Type 0 where
  pub ref : ℕ
  pub use_count : ℕ
  pub made : ℕ

-- `found` says whether `uv_default_loop` gives a loop. The result is the number of the object.
unfoldable pub get_default : (found : Bool) → Static → Option ℕ × Static
get_default found s =
    if ltb 0 s.use_count
    then (some s.ref, record s { use_count = s.use_count + 1 })
    else (if found
        then (some s.made, record { ref = s.made; use_count = 1; made = s.made + 1 })
        else (none, record s { use_count = 0 }))

-- A caller asks for the default loop, or gives up a pointer to it.
pub data Use : Type 0 where
  asks : (found : Bool) → Use
  gives_up : Use

unfoldable pub uses : List Use → Static → List (Option ℕ)
unfolding get_default
uses [] s = []
uses (asks found ∷ us) s = let (r, s') = get_default found s in r ∷ uses us s'
uses (gives_up ∷ us) s = uses us (record s { use_count = s.use_count - 1 })

-- `n` pointers are there, and one is left after every use.
abbrev pub Holds : ℕ → List Use → Type 0
Holds n [] = Unit
Holds n (asks found ∷ us) = Holds (n + 1) us
Holds n (gives_up ∷ us) = (1 < n) × Holds (n - 1) us

get_default_held :
    (found : Bool) (s : Static)
    → 0 < s.use_count
    → get_default found s ≡ (some s.ref, record s { use_count = s.use_count + 1 })
unfolding get_default
get_default_held found s h = ground arith

get_default_free :
    (s : Static)
    → s.use_count ≡ 0
    → get_default true s ≡ (some s.made, record { ref = s.made; use_count = 1; made = s.made + 1 })
unfolding get_default
get_default_free s h = ground arith

-- As long as somebody holds the default loop, everyone who asks gets that object, also where
-- `uv_default_loop` gives none.
pub uses_same :
    (us : List Use) (s : Static)
    → 0 < s.use_count
    → Holds s.use_count us
    → All (λ r. r ≡ some s.ref) (uses us s)
unfolding uses
uses_same [] s h k = tt
uses_same (asks found ∷ us) s h k =
    rw (get_default_held found s h)
      (refl, uses_same us (record s { use_count = s.use_count + 1 }) (omega arith) k)
uses_same (gives_up ∷ us) s h k =
    uses_same us (record s { use_count = s.use_count - 1 }) (omega arith) k.1

-- Where nobody holds the default loop, and `uv_default_loop` gives one, the first who asks gets a new
-- object; and as long as somebody holds that, everyone who asks gets it, also where
-- `uv_default_loop` gives none.
pub made_once :
    (us : List Use) (s : Static)
    → s.use_count ≡ 0
    → Holds 1 us
    → All (λ r. r ≡ some s.made) (uses (asks true ∷ us) s)
unfolding uses
made_once us s free h =
    rw (get_default_free s free) (
      refl,
      uses_same us (record { ref = s.made; use_count = 1; made = s.made + 1 }) (omega arith) h,
    )
