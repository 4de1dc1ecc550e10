-- ===== src/Fs/Session/Balance.antt =====
-- Each block of memory that a file request is handed is freed once, and not while libuv uses it.
use uvw.Prelude.{
  ℕ, ◌+◌, ◌≡◌, refl, sym, ◌∙◌, Bool, true, false, Option, none, some, List, [], ◌∷◌, ℤ, is_some,
  ◌⊎◌, inl, inr, Bool-cases, Option-cases, false≢true, occurs, occurs-append, arith,
}
use uvw.Fs.{Libuv, Base, FsCall, FsCallback, call, clean, issued, arrive}
use uvw.Fs.File.{complete, write_plain}
use uvw.Fs.FileOps.{FileOp, run_sync}
use uvw.Fs.Session.Blocks.{used, given, moves-used}
use uvw.Fs.Session.Memory.{assigned-dropped, start-current, run_sync-current, complete-current}
use uvw.Fs.Session.{
  Session, listed, launched, block_of, new_block, assigned, dropped, returned, event_block, Move,
  starts, lends, syncs, arrives, new_session, answered, move, moves, end_session, handed,
}

-- The blocks at `a` that were freed or taken, and the one that the request owns.
unfoldable total : ℕ → Session → ℕ
unfolding occurs
total a s = occurs a s.freed + occurs a s.taken + occurs a (listed s.request.current)

-- The memory of the call that libuv works on is the request's own, or the user's.
abbrev pub InUse : Option (FsCall × FsCallback) → (own lent : Option ℕ) → Type 0
InUse none own lent = Unit
InUse (some (c, cb)) own lent = (b : ℕ) → block_of c ≡ some b → (own ≡ some b) ⊎ (lent ≡ some b)

abbrev pub IsInUse : Session → Type 0
IsInUse s = InUse s.pending s.request.current s.lent

InUse-idle :
    (p : Option (FsCall × FsCallback)) (own lent : Option ℕ) → is_some p ≡ false → InUse p own lent
InUse-idle none own lent h = tt
InUse-idle (some (c, cb)) own lent h = absurd (false≢true (sym h))

module _ (libuv : Libuv) where
  -- What a move leaves: `busy` says whether libuv works on the request, and `n` blocks at `a` are
  -- accounted for.
  abbrev Leaves : ℕ → Session → (busy : Bool) → (n : ℕ) → Type 0
  Leaves a s busy n = IsInUse s × (is_some s.pending ≡ busy) × (total a s ≡ n)

  started :
      (a : ℕ) (op : FileOp) (s : Session)
      → is_some s.pending ≡ false
      → Leaves a (move libuv (starts op) s) true (occurs a (listed (new_block op)) + total a s)
  unfolding move total assigned
  started a op s idle =
      let (c, cb, e, given, own) = start-current libuv op s.request in
      rw (idle, e, own)
        (
          λ b hb. inl (rw (sym given ∙ hb) refl),
          refl,
          omega (
            arith,
            occurs-append a s.freed (dropped (new_block op) s.request.current),
            assigned-dropped a (new_block op) s.request.current,
          ),
        )

  lent :
      (a buf len : ℕ) (offset : ℤ) (s : Session)
      → is_some s.pending ≡ false
      → Leaves a (move libuv (lends buf len offset) s) true (total a s)
  unfolding move total write_plain call clean issued launched block_of
  lent a buf len offset s idle = rw idle (λ b hb. inr hb, refl, refl)

  synced :
      (a : ℕ) (op : FileOp) (s : Session)
      → is_some s.pending ≡ false
      → Leaves a (move libuv (syncs op) s) false (occurs a (listed (new_block op)) + total a s)
  unfolding move total
  synced a op s idle = rw idle (
    InUse-idle s.pending _ s.lent idle,
    idle,
    omega (
      arith,
      occurs-append a s.freed (dropped (new_block op) s.request.current),
      occurs-append a s.taken (returned (run_sync libuv op s.request).0),
      assigned-dropped a (new_block op) s.request.current,
      run_sync-current libuv a op s.request,
    ),
  )

  answered-total :
      (a : ℕ) (takes : Bool) (c : FsCall) (cb : FsCallback) (s : Session)
      → total a (answered libuv takes c cb s) ≡ total a s
  unfolding answered total occurs
  answered-total a true c cb s =
      let r = record s.request { base = arrive libuv c s.request.base } in
      omega (
        arith,
        occurs-append a s.taken (event_block (complete libuv cb r).0),
        occurs-append a s.freed [],
        complete-current libuv a cb r,
      )
  answered-total a false c cb s =
      let r = record s.request { base = arrive libuv c s.request.base } in
      omega (
        arith,
        occurs-append a s.freed (event_block (complete libuv cb r).0),
        occurs-append a s.taken [],
        complete-current libuv a cb r,
      )

  arrived :
      (a : ℕ) (takes : Bool) (s : Session)
      → Leaves a (move libuv (arrives takes) s) false (total a s)
  unfolding move total
  arrived a takes s = elim (Option-cases s.pending) [
    | inl idle ↦ rw (idle, move) (rw idle tt, rw idle refl, refl)
    | inr ((c, cb), e) ↦ rw (e, move) (tt, refl, answered-total a takes c cb s)
  ]

  -- What a move leaves, and what it was handed: nothing where libuv works on the request.
  move-Leaves :
      (a : ℕ) (m : Move) (ms : List Move) (s : Session)
      → IsInUse s
      → (busy : Bool) × (n : ℕ) × Leaves a (move libuv m s) busy (n + total a s)
        × (handed a (is_some s.pending) (m ∷ ms) ≡ n + handed a busy ms)
  unfolding move handed
  move-Leaves a (starts op) ms s h = elim (Bool-cases (is_some s.pending)) [
    | inl busy ↦ (true, 0, rw (busy, move) (h, busy, omega arith), rw busy (omega arith))
    | inr idle ↦ (true, _, started a op s idle, rw idle refl)
  ]
  move-Leaves a (lends buf len offset) ms s h = elim (Bool-cases (is_some s.pending)) [
    | inl busy ↦ (true, 0, rw (busy, move) (h, busy, omega arith), omega arith)
    | inr idle ↦
        let (used, on, n) = lent a buf len offset s idle in
        (true, 0, (used, on, omega (arith, n)), omega arith)
  ]
  move-Leaves a (syncs op) ms s h = elim (Bool-cases (is_some s.pending)) [
    | inl busy ↦ (true, 0, rw (busy, move) (h, busy, omega arith), rw busy (omega arith))
    | inr idle ↦ (false, _, synced a op s idle, rw idle refl)
  ]
  move-Leaves a (arrives takes) ms s h =
      let (used, on, n) = arrived a takes s in (false, 0, (used, on, omega (arith, n)), omega arith)

  moves-total :
      (a : ℕ) (ms : List Move) (s : Session)
      → IsInUse s
      → IsInUse (moves libuv ms s)
        × (total a (moves libuv ms s) ≡ handed a (is_some s.pending) ms + total a s)
  unfolding moves handed
  moves-total a [] s h = (h, omega arith)
  moves-total a (m ∷ ms) s h =
      let (busy, n, (used, on, e), given) = move-Leaves a m ms s h in
      let (u, k) = moves-total a ms (move libuv m s) used in
      (u, omega (arith, e, given, rw on at k))

-- However a file request is used, one operation after the other's answer, and whatever libuv answers:
-- every call that has libuv read or fill memory, synchronous or not, gets the block that its operation
-- allocates or takes over, or the user's own where a plain write lends it; while libuv has not answered
-- such a call, the request owns that block, or the user has lent it; and each time that the request is
-- handed a block, by a read that allocates one or by a write that takes one over, it is freed once,
-- moved to the user, or owned by the request, which frees it at its end.
pub session_balance :
    (libuv : Libuv) (b : Base) (a : ℕ) (ms : List Move)
    → (t : Session) × (moves libuv ms (new_session b) ≡ t)
      × (used t.request.base.log ≡ given false ms (used b.log))
      × InUse t.pending t.request.current t.lent
      × (occurs a t.freed + occurs a t.taken + occurs a (listed t.request.current)
          ≡ handed a false ms)
      × (occurs a (end_session libuv t).freed + occurs a (end_session libuv t).taken
          ≡ handed a false ms)
unfolding total end_session occurs
session_balance libuv b a ms =
    let (own, e) = moves-total libuv a ms (new_session b) tt in
    let t = moves libuv ms (new_session b) in
    (
      t,
      refl,
      moves-used libuv ms (new_session b),
      own,
      omega (arith, e),
      omega (arith, e, occurs-append a t.freed (listed t.request.current)),
    )
