-- ===== src/Program/World/Requests.antt =====
-- What a step of one request leaves of all of them.
use uvw.Prelude.{
  ℕ, zero, suc, ◌≡◌, refl, true, false, Option, none, some, List, [], ◌∷◌, is_some, to_nat, All,
  arith, ◌>>=◌,
}
use uvw.Resource.{Resource}
use uvw.Request.{UserRequest, Pending, Step, takes, drops, cancels, queues, answers, step}
use uvw.Request.Accounts.{Accounted, Sound, keeps, step-Sound}
use uvw.Program.{update_at}
use uvw.Program.World.{UserReq, live, step_request, keeps_at}

abbrev pub AccountedFor : UserReq → Type 0
AccountedFor q = Accounted q.kind q.state q.state.request

-- A request that is gone stays so.
step-gone :
    (k : UserRequest) (x : Step) (s : Pending)
    → s.held ≡ 0
    → s.pending ≡ false
    → step k x s ≡ some s
unfolding step
step-gone k takes s h p = ground arith
step-gone k drops s h p = ground arith
step-gone k (cancels rc) s h p = ground arith
step-gone k (queues rc) s h p = ground arith
step-gone k (answers v) s h p = ground arith

step_request-lem :
    (x : Step) (q : UserReq)
    → AccountedFor q
    → keeps q.kind x q.state ≡ true
    → (r : UserReq) × (step_request x q ≡ some r)
      × AccountedFor r
      × (q.state.request ≡ none → r.state.request ≡ none)
unfolding step_request
step_request-lem x q a d = go (step q.kind x q.state) refl (step-Sound q.kind x q.state a d)
  where
    stays_gone :
        (o : Option (Resource ℕ)) (t : Pending)
        → Accounted q.kind q.state o
        → step q.kind x q.state ≡ some t
        → o ≡ none
        → q.state.request ≡ o
        → t.request ≡ none
    stays_gone none t b e _ f = let same = step-gone q.kind x q.state b.0 b.1 in cc
    stays_gone (some r) t b e g f = cc

    go :
        (o : Option Pending)
        → step q.kind x q.state ≡ o
        → Sound q.kind o
        → (r : UserReq) × ((o >>= λ s. some (record q { state = s })) ≡ some r)
          × AccountedFor r
          × (q.state.request ≡ none → r.state.request ≡ none)
    go none e h = absurd h
    go (some t) e h =
        (record q { state = t }, refl, h, λ g. stays_gone q.state.request t a e g refl)

pub step_at :
    (i : ℕ) (x : Step) (qs : List UserReq)
    → All AccountedFor qs
    → keeps_at i x qs ≡ true
    → (rs : List UserReq) × (update_at i (step_request x) qs ≡ some rs)
      × All AccountedFor rs
      × (live qs ≡ 0 → live rs ≡ 0)
unfolding update_at live keeps_at
step_at i x [] h d = ([], refl, tt, λ e. refl)
step_at zero x (q ∷ qs) h d =
    let (r, e, a, gone) = step_request-lem x q h.0 d in
    (
      r ∷ qs,
      rw e refl,
      (a, h.1),
      λ z.
          let none_left : q.state.request ≡ none = no_request q.state.request (omega (arith, z)) in
          rw (gone none_left) (omega (arith, z)),
    )
  where
    no_request : (o : Option (Resource ℕ)) → to_nat (is_some o) ≡ 0 → o ≡ none
    no_request none e = refl
    no_request (some r) e = absurd (omega arith)
step_at (suc i) x (q ∷ qs) h d =
    let (rs, e, a, keep) = step_at i x qs h.1 d in
    (q ∷ rs, rw e refl, (h.0, a), λ z. omega (arith, keep (omega (arith, z)), z))
