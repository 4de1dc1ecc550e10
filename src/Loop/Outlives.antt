-- ===== src/Loop/Outlives.antt =====
-- The loop is there as long as somebody holds it, and is closed once.
use uvw.Prelude.{
  ℕ, ◌+◌, ◌-◌, ◌<◌, ◌≡◌, refl, Bool, true, false, ◌||◌, Option, none, some, List, [], ◌∷◌, ◌⊎◌, inl,
  inr, suc, Bool-cases, Option-cases, ℤ, ltb, ◌==◌, if◌then◌else◌, arith,
}
use uvw.Loop.{Loop, Call, uv_loop_init, uv_loop_close, delete_loop, close, destroy, reset_loop}
use uvw.Loop.Shared.{
  Shared, created_loop, release_loop, make_resource, end_resource, LoopUse, shares, makes, drops,
  ends, closes, use_loop, uses_loop, after, asks_close,
}

-- The calls of a loop's life, until it is closed and after that.
abbrev calls_of : Option ℕ → List Call
calls_of none = uv_loop_init ∷ uv_loop_close ∷ delete_loop ∷ []
calls_of (some p) = uv_loop_init ∷ []

abbrev Whole : Loop → Type 0
Whole l = (l.owns ≡ true) × (l.calls ≡ calls_of l.uv_loop)

close-Whole : (rc : ℤ) (l : Loop) → Whole l → Whole (close rc l).1 × ((close rc l).1.uv_loop ≡ none)
unfolding close reset_loop
close-Whole rc l h = elim (Option-cases l.uv_loop) [
  | inl gone ↦ rw gone ((h.0, rw gone at h.1), refl)
  | inr (p, there) ↦ rw there ((h.0, rw (h.0, rw there at h.1) refl), refl)
]

destroy-Whole :
    (rc : ℤ) (l : Loop) → Whole l → Whole (destroy rc l) × ((destroy rc l).uv_loop ≡ none)
unfolding destroy
destroy-Whole rc l h = elim (Option-cases l.uv_loop) [
  | inl gone ↦ rw gone ((h.0, rw gone at h.1), refl)
  | inr (p, there) ↦ rw there (rw there at (close-Whole rc l h))
]

-- `asked` says whether somebody has called `loop::close`.
pub record Kept (asked : Bool) (s : Shared) : Type 0 where
  whole : Whole s.loop
  counted : s.strong ≡ s.users + s.resources
  finishes : (s.finished ≡ true) → (s.strong ≡ 0) × (s.loop.uv_loop ≡ none)
  lives : (s.finished ≡ false) → 0 < s.strong
  closes_it : (asked ≡ true) → s.loop.uv_loop ≡ none
  stays : (s.loop.uv_loop ≡ none) → (s.finished ≡ true) ⊎ (asked ≡ true)

release_loop-Kept :
    (rc : ℤ) (asked : Bool) (s : Shared)
    → Whole s.loop
    → s.strong ≡ suc (s.users + s.resources)
    → (s.finished ≡ false)
    → ((asked ≡ true) → s.loop.uv_loop ≡ none)
    → ((s.loop.uv_loop ≡ none) → (s.finished ≡ true) ⊎ (asked ≡ true))
    → Kept asked (release_loop rc s)
unfolding release_loop
release_loop-Kept rc asked s w n open_ c h = elim (Bool-cases (ltb 1 s.strong)) [
  | inl more ↦ rw more (record {
    whole = w;
    counted = omega (arith, n);
    finishes = λ e. absurd (ground (arith, e, open_));
    lives = λ e. ground (arith, more);
    closes_it = c;
    stays = h;
  })
  | inr last ↦
      let (w', e) = destroy-Whole rc s.loop w in
      rw last (record {
        whole = w';
        counted = ground (arith, n, last);
        finishes = λ f. (refl, e);
        lives = λ f. absurd (ground (arith, f));
        closes_it = λ f. e;
        stays = λ f. inl refl;
      })
]

Kept-open :
    (asked : Bool) (s : Shared) → Kept asked s → 0 < s.users + s.resources → s.finished ≡ false
Kept-open asked s k h = elim (Bool-cases s.finished) [
  | inl ended ↦ absurd (omega (arith, (k.finishes ended).0, k.counted))
  | inr open_ ↦ open_
]

Kept-ended :
    (asked : Bool) (s : Shared)
    → Kept asked s
    → ltb 0 (s.users + s.resources) ≡ false
    → s.finished ≡ true
Kept-ended asked s k h = elim (Bool-cases s.finished) [
  | inl ended ↦ ended
  | inr open_ ↦ absurd (ground (arith, h, k.lives open_, k.counted))
]

pub use_loop-Kept :
    (asked : Bool) (u : LoopUse) (s : Shared) → Kept asked s → Kept (after u asked) (use_loop u s)
unfolding use_loop make_resource end_resource
use_loop-Kept asked shares s k = elim (Bool-cases (ltb 0 (s.users + s.resources))) [
  | inl held ↦ rw held (record {
    whole = k.whole;
    counted = omega (arith, k.counted);
    finishes = λ f. absurd (ground (arith, k.finishes f, k.counted, held));
    lives = λ f. omega arith;
    closes_it = k.closes_it;
    stays = k.stays;
  })
  | inr gone ↦ rw gone k
]
use_loop-Kept asked makes s k = elim (Bool-cases (ltb 0 (s.users + s.resources))) [
  | inl held ↦ rw held (record {
    whole = k.whole;
    counted = omega (arith, k.counted);
    finishes = λ f. absurd (ground (arith, k.finishes f, k.counted, held));
    lives = λ f. omega arith;
    closes_it = k.closes_it;
    stays = k.stays;
  })
  | inr gone ↦ rw gone k
]
use_loop-Kept asked (drops rc) s k = elim (Bool-cases (ltb 0 s.users)) [
  | inl held ↦ rw held (
      release_loop-Kept rc asked (record s { users = s.users - 1 }) k.whole
        (ground (arith, k.counted, held)) (Kept-open asked s k (ground (arith, held))) k.closes_it
        k.stays)
  | inr gone ↦ rw gone k
]
use_loop-Kept asked (ends rc) s k = elim (Bool-cases (ltb 0 s.resources)) [
  | inl held ↦ rw held (
      release_loop-Kept rc asked (record s { resources = s.resources - 1 }) k.whole
        (ground (arith, k.counted, held)) (Kept-open asked s k (ground (arith, held))) k.closes_it
        k.stays)
  | inr gone ↦ rw gone k
]
use_loop-Kept asked (closes rc) s k = elim (Bool-cases (ltb 0 (s.users + s.resources))) [
  | inl held ↦
      let (w, e) = close-Whole rc s.loop k.whole in
      rw held (record {
        whole = w;
        counted = k.counted;
        finishes = λ f. ((k.finishes f).0, e);
        closes_it = λ f. e;
        lives = k.lives;
        stays = λ f. inr refl;
      })
  | inr gone ↦ rw gone (record {
    whole = k.whole;
    counted = k.counted;
    finishes = k.finishes;
    closes_it = λ f. (k.finishes (Kept-ended asked s k gone)).1;
    lives = k.lives;
    stays = λ f. inr refl;
  })
]

or-true : (b : Bool) → (b || true) ≡ true
or-true true = refl
or-true false = refl

Kept-neither :
    (asked : Bool) (s : Shared)
    → Kept asked s
    → (p : ℕ) → s.loop.uv_loop ≡ some p
    → (s.finished || asked) ≡ false
Kept-neither asked s k p there = elim (Bool-cases s.finished) [
  | inl ended ↦ absurd (ground (arith, there, (k.finishes ended).1))
  | inr open_ ↦ elim (Bool-cases asked) [
    | inl closed ↦ absurd (ground (arith, there, k.closes_it closed))
    | inr never ↦ rw (open_, never) refl
  ]
]

pub Kept-finished :
    (asked : Bool) (s : Shared) → Kept asked s → s.finished ≡ (s.users + s.resources == 0)
Kept-finished asked s k = elim (Bool-cases s.finished) [
  | inl ended ↦ ground (arith, ended, (k.finishes ended).0, k.counted)
  | inr open_ ↦ ground (arith, open_, k.lives open_, k.counted)
]

pub Kept-calls :
    (asked : Bool) (s : Shared)
    → Kept asked s
    → s.loop.calls ≡ (
        if s.finished || asked
        then uv_loop_init ∷ uv_loop_close ∷ delete_loop ∷ []
        else uv_loop_init ∷ [])
Kept-calls asked s k = elim (Option-cases s.loop.uv_loop) [
  | inl gone ↦ elim (k.stays gone) [
    | inl ended ↦ rw ended (rw gone at k.whole.1)
    | inr closed ↦ rw (closed, or-true s.finished) (rw gone at k.whole.1)
  ]
  | inr (p, there) ↦ rw (Kept-neither asked s k p there) (rw there at k.whole.1)
]

pub uses_loop-Kept :
    (asked : Bool) (us : List LoopUse) (s : Shared)
    → Kept asked s
    → Kept (asks_close us asked) (uses_loop us s)
unfolding uses_loop asks_close
uses_loop-Kept asked [] s k = k
uses_loop-Kept asked (u ∷ us) s k =
    uses_loop-Kept (after u asked) us (use_loop u s) (use_loop-Kept asked u s k)

pub created_loop-Kept : (p : ℕ) → Kept false (created_loop p)
unfolding created_loop
created_loop-Kept p = record {
  whole = (refl, refl);
  counted = refl;
  finishes = λ f. absurd (ground (arith, f));
  lives = λ f. omega arith;
  closes_it = λ f. absurd (ground (arith, f));
  stays = λ f. absurd (ground (arith, f));
}

-- However pointers are copied and dropped, resources are made and destroyed and the loop is closed by
-- hand: the loop's object is destroyed where nobody holds it, neither the user nor a resource, and only
-- there; and libuv has initialised the loop, and has closed it and uvw freed it, each once and in this
-- order, where the object is destroyed or somebody has called `close`, and only there.
pub loop_outlives :
    (p : ℕ) (us : List LoopUse)
    → let s = uses_loop us (created_loop p) in
      (s.finished ≡ (s.users + s.resources == 0))
      × (s.loop.calls ≡ (
          if s.finished || asks_close us false
          then uv_loop_init ∷ uv_loop_close ∷ delete_loop ∷ []
          else uv_loop_init ∷ []))
loop_outlives p us =
    let k = uses_loop-Kept false us (created_loop p) (created_loop-Kept p) in
    (Kept-finished _ _ k, Kept-calls _ _ k)
