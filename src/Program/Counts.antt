-- ===== src/Program/Counts.antt =====
-- How many resources a loop knows of, over the changes that a handle's move makes.
use uvw.Prelude.{
  ℕ, zero, suc, ◌+◌, ◌-◌, ◌<◌, ◌≤◌, ◌≡◌, refl, ◌∙◌, Bool, true, List, [], ◌∷◌, ◌++◌, ℤ, ltb,
  replicate, arith,
}
use uvw.Loop.Shared.{
  Shared, LoopUse, makes, ends, use_loop, uses_loop, asks_close, make_resource, end_resource,
  release_loop,
}
use uvw.Program.{changes}

-- One use of a loop that is held.
pub use_makes : (s : Shared) → 0 < s.users + s.resources → use_loop makes s ≡ make_resource s
unfolding use_loop
use_makes s h = rw (ltb_held _ h) refl
  where
    ltb_held : (n : ℕ) → 0 < n → ltb 0 n ≡ true
    ltb_held n h = ground arith

end_resource_counts :
    (rc : ℤ) (s : Shared)
    → ((end_resource rc s).resources ≡ s.resources - 1) × ((end_resource rc s).users ≡ s.users)
unfolding end_resource release_loop
end_resource_counts rc s = ground arith

use_ends : (rc : ℤ) (s : Shared) → 0 < s.resources → use_loop (ends rc) s ≡ end_resource rc s
unfolding use_loop
use_ends rc s h = rw (ltb_held _ h) refl
  where
    ltb_held : (n : ℕ) → 0 < n → ltb 0 n ≡ true
    ltb_held n h = ground arith

-- A number of resources that are made, and a number that end.
uses_makes :
    (n : ℕ) (s : Shared)
    → 0 < s.users + s.resources
    → ((uses_loop (replicate n makes) s).resources ≡ s.resources + n)
      × ((uses_loop (replicate n makes) s).users ≡ s.users)
unfolding uses_loop make_resource
uses_makes zero s h = (omega arith, refl)
uses_makes (suc n) s h =
    let (a, b) = uses_makes n (make_resource s) (omega arith) in
    rw (uses_loop, use_makes s h) (omega (arith, a), b)

uses_ends :
    (rc : ℤ) (n : ℕ) (s : Shared)
    → n ≤ s.resources
    → ((uses_loop (replicate n (ends rc)) s).resources ≡ s.resources - n)
      × ((uses_loop (replicate n (ends rc)) s).users ≡ s.users)
unfolding uses_loop
uses_ends rc zero s h = (omega arith, refl)
uses_ends rc (suc n) s h =
    let (c, d) = end_resource_counts rc s in
    let (a, b) = uses_ends rc n (end_resource rc s) (omega (arith, c)) in
    rw (uses_loop, use_ends rc s (omega arith)) (omega (arith, a, c), b ∙ d)

uses_loop-append :
    (us vs : List LoopUse) (s : Shared) → uses_loop (us ++ vs) s ≡ uses_loop vs (uses_loop us s)
unfolding uses_loop
uses_loop-append [] vs s = refl
uses_loop-append (u ∷ us) vs s = uses_loop-append us vs (use_loop u s)

-- The loop knows of `b` objects where it knew of `a`, beside `n` others.
pub changes_counts :
    (rc : ℤ) (n a b : ℕ) (s : Shared)
    → s.resources ≡ n + a
    → (a ≡ 0 → b ≡ 0)
    → ((uses_loop (changes rc a b) s).resources ≡ n + b)
      × ((uses_loop (changes rc a b) s).users ≡ s.users)
unfolding changes uses_loop
changes_counts rc n zero b s e h = rw (h refl, uses_loop) (e, refl)
changes_counts rc n (suc a) b s e h =
    let (m, v) = uses_makes (b - suc a) s (omega arith) in
    let (l, w) =
      uses_ends rc (suc a - b) (uses_loop (replicate (b - suc a) makes) s) (omega (arith, m)) in
    rw (uses_loop-append (replicate (b - suc a) makes) (replicate (suc a - b) (ends rc)) s)
      (omega (arith, l, m, e), w ∙ v)

-- None of that closes the loop by hand.
asks_close-makes :
    (n : ℕ) (us : List LoopUse) (asked : Bool)
    → asks_close (replicate n makes ++ us) asked ≡ asks_close us asked
unfolding asks_close
asks_close-makes zero us asked = refl
asks_close-makes (suc n) us asked = asks_close-makes n us asked

asks_close-ends : (rc : ℤ) (n : ℕ) (asked : Bool) → asks_close (replicate n (ends rc)) asked ≡ asked
unfolding asks_close
asks_close-ends rc zero asked = refl
asks_close-ends rc (suc n) asked = asks_close-ends rc n asked

pub asks_close-changes :
    (rc : ℤ) (a b : ℕ) (asked : Bool) → asks_close (changes rc a b) asked ≡ asked
unfolding changes
asks_close-changes rc a b asked =
    asks_close-makes (b - a) (replicate (a - b) (ends rc)) asked ∙ asks_close-ends rc (a - b) asked
