-- ===== src/Request/Accounts.antt =====
-- What a request of the user (src/uvw/request.hpp, work.ipp, dns.ipp, fs.ipp) owes and owns, and that
-- every step keeps it.
use uvw.Prelude.{
  ◌&&◌, ◌||◌, not, ℕ, ◌+◌, ◌-◌, ◌<◌, ◌≡◌, refl, ◌∙◌, Bool, true, false, Option, none, some, List,
  [], ◌∷◌, ℤ, ltb, leb, if◌then◌else◌, to_nat, ◌>>=◌, arith, Bool-cases, inl, inr,
}
use uvw.Event.{Event}
use uvw.Resource.{Resource, share, release}
use uvw.Resource.Owners.{self_reset-share, self_reset-unowned}
use uvw.Request.{
  UserRequest, leaks, Pending, made, queue, take, drop, reserve, callback, cancel, Step, takes,
  drops, cancels, queues, answers, step,
}

-- A request owns itself while it is pending, if its call leaks it.
pub record Owned (k : UserRequest) (s : Pending) (r : Resource ℕ) : Type 0 where
  pub counted : r.strong ≡ s.held + to_nat r.self_ptr
  pub alive : 0 < r.strong
  pub owed : r.self_ptr ≡ (leaks k && s.pending)

abbrev pub Accounted : UserRequest → Pending → Option (Resource ℕ) → Type 0
Accounted k s none = (s.held ≡ 0) × (s.pending ≡ false)
Accounted k s (some r) = Owned k s r

abbrev pub Sound : UserRequest → Option Pending → Type 0
Sound k none = ⊥
Sound k (some s) = Accounted k s s.request

-- The user does not drop the last pointer to a pending request whose call does not leak it, and does
-- not queue a pending request.
unfoldable pub keeps : UserRequest → Step → Pending → Bool
keeps k drops s = leaks k || not s.pending || ltb 1 s.held
keeps k takes s = true
keeps k (cancels rc) s = true
keeps k (queues rc) s = not s.pending
keeps k (answers v) s = true

unfoldable pub keeps_all : UserRequest → List Step → Pending → Bool
unfolding keeps step
keeps_all k [] s = true
keeps_all k (x ∷ xs) s =
    keeps k x s && (elim (step k x s) [ none ↦ true | some t ↦ keeps_all k xs t ])

module _ (k : UserRequest) where
  take_at :
      (s : Pending) (o : Option (Resource ℕ))
      → Accounted k s o
      → 0 < s.held
      → Sound k (take (record s { request = o }))
  unfolding take
  take_at s none a h = absurd (omega arith)
  take_at s (some r) a h = record { counted = omega arith; alive = omega arith; owed = a.owed }

  drop_at :
      (s : Pending) (o : Option (Resource ℕ))
      → Accounted k s o
      → 0 < s.held
      → keeps k drops s ≡ true
      → Sound k (drop (record s { request = o }))
  unfolding drop keeps
  drop_at s none a h d = absurd (omega arith)
  drop_at s (some r) a h d = elim (Bool-cases (leb r.strong 1)) [
    | inl last ↦ rw (last, release) (ground arith, ground arith)
    | inr more ↦
        rw (more, release) (record { counted = ground arith; alive = ground arith; owed = a.owed })
  ]

  queue_at :
      (rc : ℤ) (s : Pending) (o : Option (Resource ℕ))
      → Accounted k s o
      → 0 < s.held
      → s.pending ≡ false
      → Sound k (queue k rc (record s { request = o }))
  unfolding queue
  queue_at rc s none a h p = absurd (omega arith)
  queue_at rc s (some r) a h p = elim (Bool-cases (leaks k)) [
    | inl leaky ↦ rw (leaky, queue) (ground arith)
    | inr lent ↦ rw (lent, queue) (ground arith)
  ]

  cancel_at :
      (rc : ℤ) (s : Pending) (o : Option (Resource ℕ))
      → Accounted k s o
      → 0 < s.held
      → Sound k (cancel rc (record s { request = o }) >>= λ (_, t). some t)
  unfolding cancel
  cancel_at rc s none a h = absurd (omega arith)
  cancel_at rc s (some r) a h = record { counted = a.counted; alive = a.alive; owed = a.owed }

  reserved :
      (r : Resource ℕ) (s : Pending)
      → Owned k s r
      → s.pending ≡ true
      → (q : Resource ℕ) × (reserve r ≡ some q) × (q.strong ≡ s.held + 1) × (q.self_ptr ≡ false)
  unfolding reserve
  reserved r s a p = elim (Bool-cases (leaks k)) [
    | inl leaky ↦
        let own : r.self_ptr ≡ true = a.owed ∙ rw (leaky, p) refl in
        (
          record r { self_ptr = false },
          self_reset-share r (r.strong - 1) (omega (arith, a.alive)) own,
          a.counted ∙ rw own refl,
          refl,
        )
    | inr lent ↦
        let unowned : r.self_ptr ≡ false = a.owed ∙ rw lent refl in
        (share r, self_reset-unowned r unowned, ground (arith, a.counted, unowned), unowned)
  ]

  answered_at :
      (q : Resource ℕ) (s : Pending) (l : List (ℕ × Event))
      → q.strong ≡ s.held + 1
      → q.self_ptr ≡ false
      → let o = release q in Accounted k (record s { request = o; pending = false; told = l }) o
  unfolding release
  answered_at q s l e f = elim (Bool-cases (leb q.strong 1)) [
    | inl last ↦ rw (last, release) (ground arith, refl)
    | inr more ↦
        rw (more, release)
          (record { counted = ground arith; alive = ground arith; owed = f ∙ no_longer (leaks k) })
  ]
    where
      no_longer : (b : Bool) → false ≡ (b && false)
      no_longer true = refl
      no_longer false = refl

  callback_at :
      (v : Event) (s : Pending) (o : Option (Resource ℕ))
      → Accounted k s o
      → s.pending ≡ true
      → Sound k (callback v (record s { request = o }))
  unfolding callback
  callback_at v s none a p = cc
  callback_at v s (some r) a p = let (q, e, n, f) = reserved r s a p in rw e (answered_at q s _ n f)

  if-Sound :
      (b : Bool) (x y : Option Pending)
      → (b ≡ true → Sound k x)
      → (b ≡ false → Sound k y)
      → Sound k (if b then x else y)
  if-Sound true x y f g = f refl
  if-Sound false x y f g = g refl

  not_both : (b : Bool) → b ≡ true → not b ≡ true → ⊥
  not_both b p q = ground arith

  pub step-Sound :
      (x : Step) (s : Pending) → Accounted k s s.request → keeps k x s ≡ true → Sound k (step k x s)
  unfolding step keeps
  step-Sound takes s a d =
      if-Sound (ltb 0 s.held) _ _ (λ h. take_at s s.request a (ground arith)) (λ h. a)
  step-Sound drops s a d =
      if-Sound (ltb 0 s.held) _ _ (λ h. drop_at s s.request a (ground arith) d) (λ h. a)
  step-Sound (queues rc) s a d =
      if-Sound (ltb 0 s.held) _ _
        (λ h.
          if-Sound s.pending _ _ (λ p. absurd (not_both s.pending p d))
            (λ p. queue_at rc s s.request a (ground arith) p))
        (λ h. a)
  step-Sound (cancels rc) s a d =
      if-Sound (ltb 0 s.held) _ _ (λ h. cancel_at rc s s.request a (ground arith)) (λ h. a)
  step-Sound (answers v) s a d =
      if-Sound s.pending _ _ (λ p. callback_at v s s.request a p) (λ p. a)

  pub made-Accounted : Accounted k made made.request
  unfolding made
  made-Accounted = record { counted = refl; alive = omega arith; owed = no_longer (leaks k) }
    where
      no_longer : (b : Bool) → false ≡ (b && false)
      no_longer true = refl
      no_longer false = refl
