-- ===== src/Thread/Running/Invariant.antt =====
-- What holds of a thread object that is started once, whoever takes the next turn.
use uvw.Prelude.{
  ℕ, zero, suc, ◌≡◌, refl, Bool, true, false, ◌&&◌, ◌||◌, not, Option, none, some, List, [], ◌∷◌, ℤ,
  is_zero, if◌then◌else◌, arith,
}
use uvw.Thread.Running.{
  Threads, run, end_join, start_join, is_running, stop, wakes, may_call, thread_move,
}

-- At most one thread was created. The object is there while it may run, and while the program may
-- join it.
abbrev pub SaneOf :
    (fresh object joinable : Bool) → Option ℕ → List Bool → Option (ℕ × Bool) → Type 0
SaneOf fresh o j none [] none = (not j || o ≡ true) × (not fresh || j ≡ true)
SaneOf fresh o j (some i) (b ∷ []) none =
    (i ≡ 0) × (fresh ≡ false) × (not j || o ≡ true) × (j || not b ≡ true)
SaneOf fresh o j (some i) (b ∷ []) (some (k, d)) =
    (i ≡ 0) × (k ≡ 0) × (fresh ≡ false) × (o ≡ true) × (j ≡ false)
SaneOf fresh o j _ _ _ = ⊥

abbrev pub Sane : Bool → Threads → Type 0
Sane fresh t = SaneOf fresh t.object t.joinable t.handle t.running t.waits

abbrev pub SaneAfter : Bool → Option Threads → Type 0
SaneAfter fresh none = ⊥
SaneAfter fresh (some t) = Sane fresh t

abbrev pub threads : Bool → Bool → Option ℕ → List Bool → Option (ℕ × Bool) → Threads
threads o j h rs w = record { object = o; joinable = j; handle = h; running = rs; waits = w }

-- No thread, one, or one that is waited for.
pub SaneOf-cases :
    (fresh o j : Bool) (P : Option ℕ → List Bool → Option (ℕ × Bool) → Type 0)
    → (SaneOf fresh o j none [] none → P none [] none)
    → ((i : ℕ) (b : Bool) → SaneOf fresh o j (some i) (b ∷ []) none → P (some i) (b ∷ []) none)
    → ((i : ℕ) (b : Bool) (k : ℕ) (d : Bool)
        → SaneOf fresh o j (some i) (b ∷ []) (some (k, d))
        → P (some i) (b ∷ []) (some (k, d)))
    → (t : Threads) → SaneOf fresh o j t.handle t.running t.waits
    → P t.handle t.running t.waits
SaneOf-cases fresh o j P no_thread one waited t s = go t.handle t.running t.waits s
  where
    go :
        (h : Option ℕ) (rs : List Bool) (w : Option (ℕ × Bool)) → SaneOf fresh o j h rs w → P h rs w
    go none [] none s = no_thread s
    go (some i) (b ∷ []) none s = one i b s
    go (some i) (b ∷ []) (some (k, d)) s = waited i b k d s
    go none [] (some w) s = absurd s
    go none (b ∷ bs) w s = absurd s
    go (some i) [] w s = absurd s
    go (some i) (b ∷ c ∷ bs) w s = absurd s

pub join-Sane :
    (destructor fresh : Bool) (t : Threads)
    → Sane fresh t
    → Sane false (if may_call t then start_join destructor t else t)
unfolding may_call start_join end_join
join-Sane destructor fresh t s =
    let o = t.object in
    let j = t.joinable in
    SaneOf-cases fresh o j
      (λ h rs w.
        let u = threads o j h rs w in
        Sane false (if may_call u then start_join destructor u else u))
      (λ s. ground arith) (λ i b s. ground arith) (λ i b k d s. ground arith) t s

pub run-Sane :
    (rc : ℤ) (fresh : Bool) (t : Threads)
    → Sane fresh t
    → (if is_zero rc then fresh else true) ≡ true
    → Sane (if is_zero rc then false else fresh) (if may_call t then run rc t else t)
unfolding may_call run
run-Sane rc fresh t s once =
    let o = t.object in
    let j = t.joinable in
    SaneOf-cases fresh o j
      (λ h rs w.
        let u = threads o j h rs w in
        Sane (if is_zero rc then false else fresh) (if may_call u then run rc u else u))
      (λ s. ground arith) (λ i b s. ground arith) (λ i b k d s. ground arith) t s

pub wakes-Sane : (fresh : Bool) (t : Threads) → Sane fresh t → SaneAfter fresh (thread_move wakes t)
unfolding thread_move is_running end_join
wakes-Sane fresh t s =
    let o = t.object in
    let j = t.joinable in
    SaneOf-cases fresh o j (λ h rs w. SaneAfter fresh (thread_move wakes (threads o j h rs w)))
      (λ s. s) (λ i b s. s) (λ i b k d s. ground arith) t s

-- A thread that runs finds the object.
pub reads_live :
    (i : ℕ) (fresh : Bool) (t : Threads)
    → Sane fresh t
    → is_running i t.running && not t.object ≡ false
unfolding is_running
reads_live i fresh t s =
    let o = t.object in
    let j = t.joinable in
    SaneOf-cases fresh o j (λ h rs w. is_running i rs && not o ≡ false) (λ s. refl)
      (λ h b s. one i b s.2 s.3) (λ h b k d s. one_live i b s.3) t s
  where
    one :
        (i : ℕ) (b : Bool)
        → not t.joinable || t.object ≡ true
        → t.joinable || not b ≡ true
        → is_running i (b ∷ []) && not t.object ≡ false
    one zero b p q = ground arith
    one (suc i) b p q = refl

    one_live : (i : ℕ) (b : Bool) → t.object ≡ true → is_running i (b ∷ []) && not t.object ≡ false
    one_live zero b p = ground arith
    one_live (suc i) b p = refl

pub stop-Sane :
    (i : ℕ) (fresh : Bool) (t : Threads)
    → Sane fresh t
    → Sane fresh (record t { running = stop i t.running })
unfolding stop
stop-Sane i fresh t s =
    let o = t.object in
    let j = t.joinable in
    SaneOf-cases fresh o j (λ h rs w. SaneOf fresh o j h (stop i rs) w) (λ s. s)
      (λ h b s. one i h b s) (λ h b k d s. waited i h b k d s) t s
  where
    one :
        (i h : ℕ) (b : Bool)
        → SaneOf fresh t.object t.joinable (some h) (b ∷ []) none
        → SaneOf fresh t.object t.joinable (some h) (stop i (b ∷ [])) none
    one zero h b s = (s.0, s.1, s.2, ground arith)
    one (suc i) h b s = s

    waited :
        (i h : ℕ) (b : Bool) (k : ℕ) (d : Bool)
        → SaneOf fresh t.object t.joinable (some h) (b ∷ []) (some (k, d))
        → SaneOf fresh t.object t.joinable (some h) (stop i (b ∷ [])) (some (k, d))
    waited zero h b k d s = s
    waited (suc i) h b k d s = s
