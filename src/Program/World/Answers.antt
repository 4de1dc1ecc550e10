-- ===== src/Program/World/Answers.antt =====
-- What libuv owes a whole program: the answers of each handle and of each request of the user, and
-- what one of them leaves.
use uvw.Prelude.{
  ℕ, zero, suc, ◌+◌, ◌≡◌, refl, sym, ap, ◌∙◌, if◌then◌else◌, ◌>>=◌, Bool, true, false, ◌&&◌, Option,
  none, some, List, [], ◌∷◌, to_nat, All, is_some, arith, Bool-cases, Option-cases, inl, inr,
}
use uvw.Event.{Event}
use uvw.Lifetime.{System, Act, Move}
use uvw.Lifetime.Due.{due, is_due}
use uvw.Resource.{Resource}
use uvw.Request.{UserRequest, Pending, answers, step, reserve, callback}
use uvw.Request.Accounts.{Accounted, Sound, keeps, step-Sound}
use uvw.Program.{moves, update_at}
use uvw.Program.World.{UserReq, World, WorldMove, within, steps, live, step_request, world_move}
use uvw.Program.World.Requests.{AccountedFor}

unfoldable pub handles_due : List System → ℕ
unfolding due
handles_due [] = 0
handles_due (s ∷ ss) = due s + handles_due ss

unfoldable pub requests_due : List UserReq → ℕ
requests_due [] = 0
requests_due (q ∷ qs) = to_nat q.state.pending + requests_due qs

-- How many answers libuv owes the program.
unfoldable pub world_due : World → ℕ
unfolding handles_due requests_due
world_due w = handles_due w.program.handles + requests_due w.requests

unfoldable pub due_at : ℕ → Move → List System → Bool
unfolding is_due
due_at i m [] = false
due_at zero m (s ∷ ss) = is_due m s
due_at (suc i) m (s ∷ ss) = due_at i m ss

unfoldable pub pending_at : ℕ → List UserReq → Bool
pending_at i [] = false
pending_at zero (q ∷ qs) = q.state.pending
pending_at (suc i) (q ∷ qs) = pending_at i qs

-- An answer of libuv's that it owes.
unfoldable pub is_answer : WorldMove → World → Bool
unfolding due_at pending_at
is_answer (within (moves i m rc)) w = due_at i m w.program.handles
is_answer (steps i (answers v) rc) w = pending_at i w.requests
is_answer _ w = false

-- All moves are libuv's, each owed when its turn comes.
unfoldable pub all_answers : (ℕ → Event → List Act) → List WorldMove → World → Bool
unfolding is_answer world_move
all_answers body [] w = true
all_answers body (m ∷ ms) w =
    is_answer m w && (elim (world_move body m w) [ none ↦ false | some v ↦ all_answers body ms v ])

-- A request that the user has given up.
abbrev pub Forgotten : UserReq → Type 0
Forgotten q = q.state.held ≡ 0

-- A forgotten request is there while it is pending.
live_pending :
    (k : UserRequest) (s : Pending) (o : Option (Resource ℕ))
    → Accounted k s o
    → s.held ≡ 0
    → to_nat (is_some o) ≡ to_nat s.pending
live_pending k s none a h = rw a.1 refl
live_pending k s (some r) a h = elim (Bool-cases s.pending) [
  | inl p ↦ rw p refl
  | inr p ↦ ground (arith, a.counted, a.alive, a.owed, p, h)
]

pub live-requests_due :
    (qs : List UserReq) → All AccountedFor qs → All Forgotten qs → live qs ≡ requests_due qs
unfolding live requests_due
live-requests_due [] a h = refl
live-requests_due (q ∷ qs) a h =
    omega (arith, live_pending q.kind q.state q.state.request a.0 h.0, live-requests_due qs a.1 h.1)

some_pending : (s t : Pending) → some s ≡ some t → s ≡ t
some_pending s t e = cc

callback-held :
    (v : Event) (s t : Pending) → callback v s ≡ some t → (t.held ≡ s.held) × (t.pending ≡ false)
unfolding callback
callback-held v s t e = elim (Option-cases s.request) [
  | inl gone ↦ let e' = rw gone at e in cc
  | inr (r, there) ↦ elim (Option-cases (reserve r)) [
    | inl gone ↦ let e' = rw (there, gone) at e in cc
    | inr (ptr, held) ↦
        let same = some_pending _ t (rw (there, held) at e) in
        (ap (λ x. x.held) (sym same), ap (λ x. x.pending) (sym same))
  ]
]

answer_request :
    (v : Event) (q : UserReq)
    → AccountedFor q
    → Forgotten q
    → q.state.pending ≡ true
    → (r : UserReq) × (step_request (answers v) q ≡ some r)
      × AccountedFor r
      × Forgotten r
      × (r.state.pending ≡ false)
unfolding step_request step keeps
answer_request v q a h p =
    go (callback v q.state) refl (rw (p, step) at (step-Sound q.kind (answers v) q.state a refl))
  where
    go :
        (o : Option Pending)
        → callback v q.state ≡ o
        → Sound q.kind o
        → (r : UserReq) × (((if q.state.pending then callback v q.state else some q.state) >>= λ s.
              some (record q { state = s }))
            ≡ some r)
          × AccountedFor r
          × Forgotten r
          × (r.state.pending ≡ false)
    go none e b = absurd b
    go (some t) e b =
        let (same, done) = callback-held v q.state t e in
        (record q { state = t }, rw (p, e) refl, b, same ∙ h, done)

pub answer_request_at :
    (i : ℕ) (v : Event) (qs : List UserReq)
    → All AccountedFor qs
    → All Forgotten qs
    → pending_at i qs ≡ true
    → (rs : List UserReq) × (update_at i (step_request (answers v)) qs ≡ some rs)
      × All AccountedFor rs
      × All Forgotten rs
      × (requests_due rs + 1 ≡ requests_due qs)
unfolding update_at pending_at requests_due
answer_request_at i v [] a h p = cc
answer_request_at zero v (q ∷ qs) a h p =
    let (r, e, b, g, d) = answer_request v q a.0 h.0 p in
    (r ∷ qs, rw e refl, (b, a.1), (g, h.1), rw (d, p) (omega arith))
answer_request_at (suc i) v (q ∷ qs) a h p =
    let (rs, e, b, g, d) = answer_request_at i v qs a.1 h.1 p in
    (q ∷ rs, rw e refl, (a.0, b), (h.0, g), omega (arith, d))
