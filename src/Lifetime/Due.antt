-- ===== src/Lifetime/Due.antt =====
-- What libuv owes a handle: its answers, and the moves by which it gives them.
use uvw.Prelude.{
  ℕ, zero, suc, ◌+◌, ◌≡◌, refl, sym, ap, ◌∙◌, ◌↔◌, Bool, true, false, ◌&&◌, Option, none, some,
  List, [], ◌∷◌, map, is_some, to_nat, length, length-map, ◌>>=◌, arith,
}
use uvw.Event.{Event}
use uvw.Lifetime.{
  ReqKind, Request, UvState, inert, opened, closing, closed, System, Act, Move, user, answers,
  close_done, walked, take_request, move,
}
use uvw.Lifetime.Ledger.{is_active}
use uvw.Lifetime.Spec.{Spec, take_kind}
use uvw.Lifetime.Simulates.{Refines}
use uvw.Lifetime.Drain.{is_open}

unfoldable pub is_closing : UvState → Bool
is_closing inert = false
is_closing opened = false
is_closing closing = true
is_closing closed = false

-- How many answers libuv owes the handle: one for each request, and one for its closing.
unfoldable pub due : System → ℕ
unfolding is_closing
due s = length s.requests + to_nat (is_closing s.uv)

-- A move that libuv makes, and for which there is a reason.
unfoldable pub is_due : Move → System → Bool
unfolding is_closing take_request
is_due (user a) s = false
is_due (answers i status) s = is_some (take_request i s.requests)
is_due close_done s = is_closing s.uv
is_due walked s = false

module _ (body : ℕ → Event → List Act) where
  -- All moves are libuv's, each with a reason when its turn comes.
  unfoldable pub all_due : List Move → System → Bool
  unfolding is_due move
  all_due [] s = true
  all_due (m ∷ ms) s = is_due m s && (elim (move body m s) [ none ↦ false | some t ↦ all_due ms t ])

pub take_kind-map :
    (i : ℕ) (qs : List Request)
    → is_some (take_request i qs) ≡ true
    → (k : ReqKind) × (ks : List ReqKind) × (take_kind i (map (λ q. q.kind) qs) ≡ some (k, ks))
      × (length qs ≡ suc (length ks))
unfolding take_request take_kind
take_kind-map i [] h = cc
take_kind-map zero (q ∷ qs) h =
    (q.kind, map (λ q. q.kind) qs, refl, ap suc (sym (length-map qs (λ q. q.kind))))
take_kind-map (suc i) (q ∷ qs) h =
    let (k, ks, e, n) = take_kind-map i qs (is_some-bind (take_request i qs) h) in
    (k, q.kind ∷ ks, rw e refl, omega (arith, n))
  where
    is_some-bind :
        (o : Option (Request × List Request))
        → is_some {A = Request × List Request} (o >>= λ (p, rest). some (p, q ∷ rest)) ≡ true
        → is_some o ≡ true
    is_some-bind none h = h
    is_some-bind (some p) h = refl

pub closing_of_is_closing : (u : UvState) → is_closing u ≡ true → u ≡ closing
unfolding is_closing
closing_of_is_closing inert h = cc
closing_of_is_closing opened h = cc
closing_of_is_closing closing h = refl
closing_of_is_closing closed h = cc

pub due-Refines :
    (s : System) (x : Spec) → Refines s x → due s ≡ length x.pending + to_nat (is_closing x.uv)
unfolding due
due-Refines s x h =
    let same_length : length s.requests ≡ length x.pending =
      sym (length-map s.requests (λ q. q.kind)) ∙ ap length h.0.2 in
    let same_uv : to_nat (is_closing s.uv) ≡ to_nat (is_closing x.uv) =
      ap (λ u. to_nat (is_closing u)) h.0.0 in
    omega (arith, same_length, same_uv)

-- Nothing is due where there is no request and no close callback to wait for.
settled :
    (u : UvState) (qs : List Request)
    → is_open u ≡ false
    → (length qs + to_nat (is_closing u) ≡ 0) ↔ ((is_active u ≡ false) × (qs ≡ []))
unfolding is_closing is_open
settled u (q ∷ qs) h = (λ e. absurd (omega arith), λ e. absurd (not_nil e.1))
  where
    not_nil : q ∷ qs ≡ [] → ⊥
    not_nil e = cc
settled inert [] h = (λ e. (refl, refl), λ e. omega arith)
settled opened [] h = cc
settled closing [] h = (λ e. absurd (omega arith), λ e. cc)
settled closed [] h = (λ e. (refl, refl), λ e. omega arith)

pub due-settled :
    (s : System)
    → is_open s.uv ≡ false
    → (due s ≡ 0) ↔ ((is_active s.uv ≡ false) × (s.requests ≡ []))
unfolding due
due-settled s h = settled s.uv s.requests h
