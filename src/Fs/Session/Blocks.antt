-- ===== src/Fs/Session/Blocks.antt =====
-- The blocks of memory that the calls of a file request hand to libuv, asynchronous or not.
use uvw.Prelude.{
  ℕ, ◌≡◌, refl, sym, ap, ◌∙◌, Bool, true, false, List, [], ◌∷◌, ◌++◌, ℤ, is_some, Bool-cases,
  Option-cases, inl, inr,
}
use uvw.Fs.{Libuv, FsCall, FsCallback, FsEffect, cleanup, issue, call, clean, issued, arrive}
use uvw.Fs.File.{
  FileReq, write_plain, close, file_open, read, write_owned, stat, sync, datasync, truncate,
  sendfile, chmod, futime, chown, close_sync, open_sync, read_sync, write_sync, stat_sync,
  sync_sync, datasync_sync, truncate_sync, sendfile_sync, chmod_sync, futime_sync, chown_sync,
}
use uvw.Fs.FileOps.{
  FileOp, start, run_sync, op_close, op_open, op_read, op_write, op_stat, op_sync, op_datasync,
  op_truncate, op_sendfile, op_chmod, op_futime, op_chown,
}
use uvw.Fs.Session.Cleanups.{complete-log}
use uvw.Fs.Session.{
  Session, listed, launched, block_of, new_block, Move, starts, lends, syncs, arrives, answered,
  move, moves,
}

-- The memory that the calls read or fill, the latest first.
unfoldable pub used : List FsEffect → List ℕ
used [] = []
used (cleanup ∷ l) = used l
used (issue c cb ∷ l) = listed (block_of c) ++ used l

-- The memory that the operations are about, the latest first: the block that a read allocates, or that
-- a write takes over or is lent. `busy` says whether libuv works on the request.
unfoldable pub given : (busy : Bool) → List Move → List ℕ → List ℕ
given busy [] l = l
given false (starts op ∷ ms) l = given true ms (listed (new_block op) ++ l)
given true (starts op ∷ ms) l = given true ms l
given false (lends buf len offset ∷ ms) l = given true ms (buf ∷ l)
given true (lends buf len offset ∷ ms) l = given true ms l
given false (syncs op ∷ ms) l = given false ms (listed (new_block op) ++ l)
given true (syncs op ∷ ms) l = given true ms l
given busy (arrives takes ∷ ms) l = given false ms l

module _ (libuv : Libuv) where
  start-used :
      (op : FileOp) (r : FileReq)
      → (is_some (launched (start libuv op r).base.log) ≡ true)
        × (used (start libuv op r).base.log ≡ listed (new_block op) ++ used r.base.log)
  unfolding start close file_open read write_owned stat sync datasync truncate sendfile chmod futime
      chown call clean issued launched block_of new_block used
  start-used op_close r = (refl, refl)
  start-used (op_open path flags mode) r = (refl, refl)
  start-used (op_read fresh offset len) r = (refl, refl)
  start-used (op_write buf len offset) r = (refl, refl)
  start-used op_stat r = (refl, refl)
  start-used op_sync r = (refl, refl)
  start-used op_datasync r = (refl, refl)
  start-used (op_truncate offset) r = (refl, refl)
  start-used (op_sendfile out offset length) r = (refl, refl)
  start-used (op_chmod mode) r = (refl, refl)
  start-used (op_futime atime mtime) r = (refl, refl)
  start-used (op_chown uid gid) r = (refl, refl)

  run_sync-used :
      (op : FileOp) (r : FileReq)
      → used (run_sync libuv op r).1.base.log ≡ listed (new_block op) ++ used r.base.log
  unfolding run_sync close_sync open_sync read_sync write_sync stat_sync sync_sync datasync_sync
      truncate_sync sendfile_sync chmod_sync futime_sync chown_sync call clean issued block_of
      new_block used
  run_sync-used op_close r = refl
  run_sync-used (op_open path flags mode) r = refl
  run_sync-used (op_read fresh offset len) r = refl
  run_sync-used (op_write buf len offset) r = refl
  run_sync-used op_stat r = refl
  run_sync-used op_sync r = refl
  run_sync-used op_datasync r = refl
  run_sync-used (op_truncate offset) r = refl
  run_sync-used (op_sendfile out offset length) r = refl
  run_sync-used (op_chmod mode) r = refl
  run_sync-used (op_futime atime mtime) r = refl
  run_sync-used (op_chown uid gid) r = refl

  lent-used :
      (buf len : ℕ) (offset : ℤ) (r : FileReq)
      → (is_some (launched (write_plain libuv buf len offset r).base.log) ≡ true)
        × (used (write_plain libuv buf len offset r).base.log ≡ buf ∷ used r.base.log)
  unfolding write_plain call clean issued launched block_of used
  lent-used buf len offset r = (refl, refl)

  answered-used :
      (takes : Bool) (c : FsCall) (cb : FsCallback) (s : Session)
      → used (answered libuv takes c cb s).request.base.log ≡ used s.request.base.log
  unfolding answered arrive
  answered-used takes c cb s =
      ap used (complete-log libuv cb (record s.request { base = arrive libuv c s.request.base }))

  move-used :
      (m : Move) (ms : List Move) (s : Session)
      → (busy : Bool) × (is_some (move libuv m s).pending ≡ busy)
        × (given (is_some s.pending) (m ∷ ms) (used s.request.base.log)
            ≡ given busy ms (used (move libuv m s).request.base.log))
  unfolding move given
  move-used (starts op) ms s = elim (Bool-cases (is_some s.pending)) [
    | inl busy ↦ (true, rw (busy, move) busy, rw (busy, move) refl)
    | inr idle ↦
        let (on, e) = start-used op s.request in
        (true, rw (idle, move) on, rw (idle, move) (ap (given true ms) (sym e)))
  ]
  move-used (lends buf len offset) ms s = elim (Bool-cases (is_some s.pending)) [
    | inl busy ↦ (true, rw (busy, move) busy, rw (busy, move) refl)
    | inr idle ↦
        let (on, e) = lent-used buf len offset s.request in
        (true, rw (idle, move) on, rw (idle, move) (ap (given true ms) (sym e)))
  ]
  move-used (syncs op) ms s = elim (Bool-cases (is_some s.pending)) [
    | inl busy ↦ (true, rw (busy, move) busy, rw (busy, move) refl)
    | inr idle ↦ (
      false,
      rw (idle, move) idle,
      rw (idle, move) (ap (given false ms) (sym (run_sync-used op s.request))),
    )
  ]
  move-used (arrives takes) ms s = elim (Option-cases s.pending) [
    | inl idle ↦ (false, rw (idle, move) (rw idle refl), rw (idle, move) refl)
    | inr ((c, cb), e) ↦ (
      false,
      rw (e, move, answered) refl,
      rw (e, move) (ap (given false ms) (sym (answered-used takes c cb s))),
    )
  ]

  pub moves-used :
      (ms : List Move) (s : Session)
      → used (moves libuv ms s).request.base.log
        ≡ given (is_some s.pending) ms (used s.request.base.log)
  unfolding moves given
  moves-used [] s = refl
  moves-used (m ∷ ms) s =
      let (busy, on, e) = move-used m ms s in
      moves-used ms (move libuv m s)
      ∙ ap (λ b. given b ms (used (move libuv m s).request.base.log)) on
      ∙ sym e
