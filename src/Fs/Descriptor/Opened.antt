-- ===== src/Fs/Descriptor/Opened.antt =====
-- What a file request holds after an open that succeeded.
use uvw.Prelude.{
  false≢true, ℕ, ◌≡◌, refl, sym, ap, subst, ◌∙◌, Bool, true, false, Option, none, some, List, [],
  ◌∷◌, ◌++◌, ℤ, to_int, is_neg, is_some, All, arith, Bool-cases, Option-cases, inl, inr,
}
use uvw.Fs.{
  Libuv, FsCall, FsCallback, FsEffect, request_callback, cleanup, issue, call, clean, issued,
  arrive, uv_fs_open,
}
use uvw.Fs.File.{complete, fs_open_callback, write_plain, file_open, open_sync}
use uvw.Fs.FileOps.{start, run_sync, op_open}
use uvw.Fs.Session.{Session, launched, Move, starts, lends, syncs, arrives, answered, move, moves}
use uvw.Fs.Session.Cleanups.{complete-log}
use uvw.Fs.Descriptor.{
  is_steady, steady, descriptor, IsOn, Leaves, start-on, run_sync-on, lent-on, complete-file,
}

-- A request that holds the descriptor `fd`, after effects on it since `log`.
record Holds (fd : ℤ) (log : List FsEffect) (s : Session) : Type 0 where
  file : s.request.file ≡ fd
  leaves : Leaves s.pending
  effects : List FsEffect
  since : s.request.base.log ≡ effects ++ log
  on : All (IsOn fd) effects

module _ (libuv : Libuv) where
  -- One call more.
  more :
      (fd : ℤ) (log : List FsEffect) (c : FsCall) (cb : Option FsCallback) (s t : Session)
      → Holds fd log s
      → t.request.base.log ≡ issue c cb ∷ cleanup ∷ s.request.base.log
      → Leaves t.pending
      → descriptor c ≡ some s.request.file
      → t.request.file ≡ s.request.file
      → Holds fd log t
  more fd log c cb s t h e p d f = record {
    file = f ∙ h.file;
    leaves = p;
    effects = issue c cb ∷ cleanup ∷ h.effects;
    since = e ∙ ap (λ es. issue c cb ∷ cleanup ∷ es) h.since;
    on = (d ∙ ap some h.file, (tt, h.on));
  }

  arrived-Holds :
      (fd : ℤ) (log : List FsEffect) (takes : Bool) (c : FsCall) (cb : FsCallback) (s : Session)
      → Holds fd log s
      → Leaves (some (c, cb))
      → Holds fd log (answered libuv takes c cb s)
  unfolding answered arrive
  arrived-Holds fd log takes c cb s h p =
      let r = record s.request { base = arrive libuv c s.request.base } in
      record {
        file = complete-file libuv c cb r p ∙ h.file;
        leaves = tt;
        effects = h.effects;
        since = complete-log libuv cb r ∙ h.since;
        on = h.on;
      }

  move-Holds :
      (fd : ℤ) (log : List FsEffect) (m : Move) (s : Session)
      → is_steady m ≡ true
      → Holds fd log s
      → Holds fd log (move libuv m s)
  unfolding move is_steady
  move-Holds fd log (starts op) s q h = elim (Bool-cases (is_some s.pending)) [
    | inl busy ↦ rw (busy, move) h
    | inr idle ↦
        let (c, cb, e, p, d, f) =
          start-on libuv op s.request (ground (arith, q)) (ground (arith, q)) in
        more fd log c (some cb) s _ h (rw (idle, move) e) (rw (idle, move) p) d (rw (idle, move) f)
  ]
  move-Holds fd log (lends buf len offset) s q h = elim (Bool-cases (is_some s.pending)) [
    | inl busy ↦ rw (busy, move) h
    | inr idle ↦
        let (c, e, p, d) = lent-on libuv buf len offset s.request in
        more fd log c (some request_callback) s _ h (rw (idle, move) e) (rw (idle, move) p) d
          (rw (idle, move, write_plain) refl)
  ]
  move-Holds fd log (syncs op) s q h = elim (Bool-cases (is_some s.pending)) [
    | inl busy ↦ rw (busy, move) h
    | inr idle ↦
        let (c, e, d, f) = run_sync-on libuv op s.request (ground (arith, q)) (ground (arith, q)) in
        more fd log c none s _ h (rw (idle, move) e) (rw (idle, move) h.leaves) d
          (rw (idle, move) f)
  ]
  move-Holds fd log (arrives takes) s q h = elim (Option-cases s.pending) [
    | inl idle ↦ rw (idle, move) h
    | inr ((c, cb), e) ↦ rw (e, move) (arrived-Holds fd log takes c cb s h (rw e at h.leaves))
  ]

  moves-Holds :
      (fd : ℤ) (log : List FsEffect) (ms : List Move) (s : Session)
      → steady ms ≡ true
      → Holds fd log s
      → Holds fd log (moves libuv ms s)
  unfolding moves steady
  moves-Holds fd log [] s q h = h
  moves-Holds fd log (m ∷ ms) s q h =
      moves-Holds fd log ms (move libuv m s) (ground (arith, q))
        (move-Holds fd log m s (ground (arith, q)) h)

  -- An open, asynchronous or not.
  unfoldable pub opening : (is_async : Bool) → List ℕ → (flags mode : ℕ) → Session → Session
  unfolding moves
  opening true path flags mode s =
      moves libuv (starts (op_open path flags mode) ∷ arrives false ∷ []) s
  opening false path flags mode s = moves libuv (syncs (op_open path flags mode) ∷ []) s

  opening-file :
      (is_async : Bool) (path : List ℕ) (flags mode : ℕ) (s : Session)
      → s.pending ≡ none
      → let o = opening is_async path flags mode s in
        is_neg o.request.base.raw.result ≡ false
        → (o.request.file ≡ to_int o.request.base.raw.result) × (o.pending ≡ none)
  unfolding opening moves move start run_sync file_open open_sync call clean issued launched
      answered arrive complete fs_open_callback
  opening-file true path flags mode s idle =
      elim (Bool-cases (
        is_neg
          (libuv.answer (uv_fs_open path flags mode) (libuv.cleaned s.request.base.raw)).result)) [
            | inl bad ↦ rw (idle, bad) (λ g. absurd (false≢true (sym g ∙ bad)))
            | inr good ↦ rw (idle, good) (λ g. (refl, refl))
          ]
  opening-file false path flags mode s idle =
      elim (Bool-cases (
        is_neg
          (libuv.answer (uv_fs_open path flags mode) (libuv.cleaned s.request.base.raw)).result)) [
            | inl bad ↦ rw (idle, bad) (λ g. absurd (false≢true (sym g)))
            | inr good ↦ rw (idle, good) (λ g. (refl, refl))
          ]

  -- After an open that succeeded, by `open` and its callback or by `open_sync`, on a request that libuv
  -- did not work on, and then any moves that neither open nor close, whether they are asynchronous or
  -- not and with whatever results: every call of libuv since was on the descriptor that the open
  -- returned, and the request still holds it.
  pub opened_file :
      (is_async : Bool) (path : List ℕ) (flags mode : ℕ) (ms : List Move) (s : Session)
      → s.pending ≡ none
      → is_neg (opening is_async path flags mode s).request.base.raw.result ≡ false
      → steady ms ≡ true
      → let o = opening is_async path flags mode s in
        let t = moves libuv ms o in
        let fd = to_int o.request.base.raw.result in
        (t.request.file ≡ fd)
        × ((es : List FsEffect) × (t.request.base.log ≡ es ++ o.request.base.log)
            × All (IsOn fd) es)
  opened_file is_async path flags mode ms s idle good q =
      let o = opening is_async path flags mode s in
      let (held, free) = opening-file is_async path flags mode s idle good in
      let h = moves-Holds (to_int o.request.base.raw.result) o.request.base.log ms o q (record {
        file = held;
        leaves = subst (λ p. Leaves p) (sym free) tt;
        effects = [];
        since = refl;
        on = tt;
      }) in
      (h.file, (h.effects, h.since, h.on))
