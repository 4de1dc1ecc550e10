-- ===== src/Fs/Session/Cleanups.antt =====
-- A file request is cleaned up between any two calls of libuv, and at its end.
use uvw.Prelude.{
  ℕ, ◌+◌, ◌≡◌, refl, sym, subst, ap, ◌∙◌, Bool, true, false, some, List, [], ◌∷◌, ℤ, is_some,
  is_neg, Bool-cases, Option-cases, inl, inr, arith,
}
use uvw.Fs.{
  Libuv, Base, FsCall, FsCallback, FsEffect, cleanup, issue, open_callback, close_callback,
  read_callback, request_callback, fs_request_callback, call, clean, issued, arrive, end_request,
}
use uvw.Fs.File.{
  FileReq, complete, fs_open_callback, fs_close_callback, fs_read_callback, write_plain,
}
use uvw.Fs.FileOps.{file_start-run_sync}
use uvw.Fs.Session.{
  Session, launched, Move, starts, lends, syncs, arrives, new_session, answered, move, moves,
  end_session,
}

-- Every call has a cleanup of its own right before it, and there are no others; `n` calls in all.
abbrev pub Cleaned : ℕ → List FsEffect → Type 0
Cleaned n [] = n ≡ 0
Cleaned n (issue c cb ∷ cleanup ∷ l) = (m : ℕ) × (n ≡ m + 1) × Cleaned m l
Cleaned n _ = ⊥

-- How many operations begin, where `busy` says whether libuv works on the request.
unfoldable pub begun : (busy : Bool) → List Move → ℕ
begun busy [] = 0
begun false (starts op ∷ ms) = 1 + begun true ms
begun true (starts op ∷ ms) = begun true ms
begun false (lends buf len offset ∷ ms) = 1 + begun true ms
begun true (lends buf len offset ∷ ms) = begun true ms
begun false (syncs op ∷ ms) = 1 + begun false ms
begun true (syncs op ∷ ms) = begun true ms
begun busy (arrives takes ∷ ms) = begun false ms

module _ (libuv : Libuv) where
  pub complete-log : (cb : FsCallback) (r : FileReq) → (complete libuv cb r).1.base.log ≡ r.base.log
  unfolding complete fs_open_callback fs_close_callback fs_read_callback fs_request_callback
  complete-log open_callback r = elim (Bool-cases (is_neg r.base.raw.result)) [
    | inl bad ↦ rw bad refl
    | inr good ↦ rw good refl
  ]
  complete-log close_callback r = elim (Bool-cases (is_neg r.base.raw.result)) [
    | inl bad ↦ rw bad refl
    | inr good ↦ rw good refl
  ]
  complete-log read_callback r = elim (Bool-cases (is_neg r.base.raw.result)) [
    | inl bad ↦ rw bad refl
    | inr good ↦ rw good refl
  ]
  complete-log request_callback r = refl

  -- What a move leaves of the log and of the call under way, where `n` calls were made before.
  abbrev Begins : Bool → ℕ → Session → Type 0
  Begins busy n s = (is_some s.pending ≡ busy) × Cleaned n s.request.base.log

  launched-issue :
      (c : FsCall) (cb : FsCallback) (l : List FsEffect)
      → is_some (launched (issue c (some cb) ∷ l)) ≡ true
  unfolding launched
  launched-issue c cb l = refl

  answered-log :
      (takes : Bool) (c : FsCall) (cb : FsCallback) (n : ℕ) (s : Session)
      → Cleaned n s.request.base.log
      → Begins false n (answered libuv takes c cb s)
  unfolding answered arrive
  answered-log takes c cb n s h =
      let r : FileReq = record s.request { base = arrive libuv c s.request.base } in
      (refl, subst (λ l. Cleaned n l) (sym (complete-log cb r)) h)

  lent-log :
      (buf len : ℕ) (offset : ℤ) (n : ℕ) (s : Session)
      → Cleaned n s.request.base.log
      → let r = write_plain libuv buf len offset s.request in
        (is_some (launched r.base.log) ≡ true) × Cleaned (n + 1) r.base.log
  unfolding write_plain call clean issued launched
  lent-log buf len offset n s h = (refl, (n, refl, h))

  Cleaned-log : (s t : List FsEffect) (n : ℕ) → s ≡ t → Cleaned n t → Cleaned n s
  Cleaned-log s t n e h = subst (λ l. Cleaned n l) (sym e) h

  move-Begins :
      (m : Move) (ms : List Move) (n : ℕ) (s : Session)
      → Cleaned n s.request.base.log
      → (busy : Bool) × (k : ℕ) × Begins busy k (move libuv m s)
        × (k + begun busy ms ≡ n + begun (is_some s.pending) (m ∷ ms))
  unfolding move begun
  move-Begins (starts op) ms n s h = elim (Bool-cases (is_some s.pending)) [
    | inl busy ↦ (true, n, rw (busy, move) (busy, h), rw busy refl)
    | inr idle ↦
        let (c, cb, e, _, _, _) = file_start-run_sync libuv op s.request in
        (
          true,
          n + 1,
          rw (idle, move)
              (
                rw e (launched-issue c cb (cleanup ∷ s.request.base.log)),
                Cleaned-log _ _ (n + 1) e (n, refl, h),
              ),
          rw idle (omega arith),
        )
  ]
  move-Begins (lends buf len offset) ms n s h = elim (Bool-cases (is_some s.pending)) [
    | inl busy ↦ (true, n, rw (busy, move) (busy, h), rw busy refl)
    | inr idle ↦
        (true, n + 1, rw (idle, move) (lent-log buf len offset n s h), rw idle (omega arith))
  ]
  move-Begins (syncs op) ms n s h = elim (Bool-cases (is_some s.pending)) [
    | inl busy ↦ (true, n, rw (busy, move) (busy, h), rw busy refl)
    | inr idle ↦
        let (c, cb, _, e, _, _) = file_start-run_sync libuv op s.request in
        (
          false,
          n + 1,
          rw (idle, move) (idle, Cleaned-log _ _ (n + 1) e (n, refl, h)),
          rw idle (omega arith),
        )
  ]
  move-Begins (arrives takes) ms n s h = elim (Option-cases s.pending) [
    | inl idle ↦ (false, n, rw (idle, move) (rw idle refl, h), refl)
    | inr ((c, cb), e) ↦
        let r : FileReq = record s.request { base = arrive libuv c s.request.base } in
        (false, n, rw (e, move) (answered-log takes c cb n s h), refl)
  ]

  moves-Cleaned :
      (ms : List Move) (n : ℕ) (s : Session)
      → Cleaned n s.request.base.log
      → Cleaned (n + begun (is_some s.pending) ms) (moves libuv ms s).request.base.log
  unfolding moves begun
  moves-Cleaned [] n s h = subst (λ k. Cleaned k s.request.base.log) (omega arith) h
  moves-Cleaned (m ∷ ms) n s h =
      let (busy, k, (on, c), e) = move-Begins m ms n s h in
      subst (λ j. Cleaned j (moves libuv ms (move libuv m s)).request.base.log)
        (ap (λ b. k + begun b ms) on ∙ e) (moves-Cleaned ms k (move libuv m s) c)

-- However a file request is used, one operation after the other's answer, and whatever libuv answers:
-- every operation that begins calls libuv once and cleans the request up right before, and nothing
-- else does; and the request's end cleans it up once more, so no call's memory is left behind.
pub session-Cleaned :
    (libuv : Libuv) (b : Base) (ms : List Move)
    → b.log ≡ []
    → let t = moves libuv ms (new_session b) in
      Cleaned (begun false ms) t.request.base.log
      × ((end_session libuv t).request.base.log ≡ cleanup ∷ t.request.base.log)
unfolding end_session end_request clean
session-Cleaned libuv b ms e = (
  subst (λ k. Cleaned k (moves libuv ms (new_session b)).request.base.log) (omega arith)
      (moves-Cleaned libuv ms 0 (new_session b) (subst (λ l. Cleaned 0 l) (sym e) refl)),
  refl,
)
