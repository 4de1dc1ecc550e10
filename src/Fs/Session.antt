-- ===== src/Fs/Session.antt =====
-- A file request from its construction to its end, and the blocks of memory that it owns in turn.
mod Memory
pub mod Blocks
pub mod Balance
pub mod Cleanups
use uvw.Prelude.{
  ℕ, ◌+◌, Bool, true, false, Option, none, some, List, [], ◌∷◌, ◌++◌, ℤ, is_some, if◌then◌else◌,
  occurs,
}
use uvw.Fs.{
  Libuv, Base, FsCall, FsCallback, FsEffect, Answer, FsReport, issue, block, finished, arrive,
  end_request, uv_fs_read, uv_fs_write,
}
use uvw.Fs.File.{FileReq, bad_fd, complete, write_plain}
use uvw.Fs.FileOps.{FileOp, start, run_sync, op_read, op_write}

-- `pending` is the call that libuv has yet to answer, and `lent` the user's memory that a plain write
-- reads. `freed` are the blocks that were given back, and `taken` those that the user got.
pub record Session : Type 0 where
  pub request : FileReq
  pub pending : Option (FsCall × FsCallback)
  pub lent : Option ℕ
  pub freed : List ℕ
  pub taken : List ℕ

abbrev pub listed : Option ℕ → List ℕ
listed none = []
listed (some b) = b ∷ []

unfoldable pub launched : List FsEffect → Option (FsCall × FsCallback)
launched (issue c (some cb) ∷ l) = some (c, cb)
launched _ = none

-- The memory that a call has libuv read or fill.
unfoldable pub block_of : FsCall → Option ℕ
block_of (uv_fs_read file b len offset) = some b
block_of (uv_fs_write file b len offset) = some b
block_of _ = none

-- The block that an operation assigns to `current`.
unfoldable pub new_block : FileOp → Option ℕ
new_block (op_read fresh offset len) = some fresh
new_block (op_write buf len offset) = some buf
new_block _ = none

-- The assignment to a `std::unique_ptr`: what it holds after it, and what it frees.
unfoldable pub assigned : (new old : Option ℕ) → Option ℕ
assigned none old = old
assigned (some b) old = some b

unfoldable pub dropped : (new old : Option ℕ) → List ℕ
dropped none old = []
dropped (some b) old = listed old

-- The block in the result of a synchronous function, and in an event.
unfoldable pub returned : Answer → List ℕ
returned (block ok b size) = listed b
returned _ = []

unfoldable pub event_block : FsReport → List ℕ
event_block (finished e) = listed e.read
event_block _ = []

-- The user starts an operation, writes memory of his own, or runs an operation to its end; or libuv
-- answers, and a listener may move the block out of the event, which frees it otherwise.
pub data Move : Type 0 where
  starts : FileOp → Move
  lends : (buf : ℕ) → (len : ℕ) → (offset : ℤ) → Move
  syncs : FileOp → Move
  arrives : (takes : Bool) → Move

abbrev pub new_session : Base → Session
new_session b = record {
  request = record { base = b; file = bad_fd; current = none };
  pending = none;
  lent = none;
  freed = [];
  taken = [];
}

module _ (libuv : Libuv) where
  unfoldable pub answered : Bool → FsCall → FsCallback → Session → Session
  unfolding complete arrive event_block
  answered takes c cb s =
      let (report, r) =
        complete libuv cb (record s.request { base = arrive libuv c s.request.base }) in
      record {
        request = r;
        pending = none;
        lent = none;
        freed = s.freed ++ (if takes then [] else event_block report);
        taken = s.taken ++ (if takes then event_block report else []);
      }

  -- The user waits for the answer: a request that libuv works on is not used again.
  unfoldable pub move : Move → Session → Session
  unfolding start run_sync write_plain launched new_block dropped returned answered
  move (starts op) s =
      if is_some s.pending
      then s
      else (let r = start libuv op s.request in
          record s {
            request = r;
            pending = launched r.base.log;
            lent = none;
            freed = s.freed ++ dropped (new_block op) s.request.current;
          })
  move (lends buf len offset) s =
      if is_some s.pending
      then s
      else (let r = write_plain libuv buf len offset s.request in
          record s { request = r; pending = launched r.base.log; lent = some buf })
  move (syncs op) s =
      if is_some s.pending
      then s
      else (let (a, r) = run_sync libuv op s.request in
          record s {
            request = r;
            freed = s.freed ++ dropped (new_block op) s.request.current;
            taken = s.taken ++ returned a;
          })
  move (arrives takes) s = elim s.pending [ none ↦ s | some (c, cb) ↦ answered takes c cb s ]

  unfoldable pub moves : List Move → Session → Session
  unfolding move
  moves [] s = s
  moves (m ∷ ms) s = moves ms (move m s)

  -- `~file_req`, and of its members.
  unfoldable pub end_session : Session → Session
  unfolding end_request
  end_session s = record s {
    request = record s.request { base = end_request libuv s.request.base; current = none };
    freed = s.freed ++ listed s.request.current;
  }

-- How often the request is handed the block at `a`, where `busy` says whether libuv works on it.
unfoldable pub handed : ℕ → (busy : Bool) → List Move → ℕ
unfolding new_block occurs
handed a busy [] = 0
handed a false (starts op ∷ ms) = occurs a (listed (new_block op)) + handed a true ms
handed a true (starts op ∷ ms) = handed a true ms
handed a busy (lends buf len offset ∷ ms) = handed a true ms
handed a false (syncs op ∷ ms) = occurs a (listed (new_block op)) + handed a false ms
handed a true (syncs op ∷ ms) = handed a true ms
handed a busy (arrives takes ∷ ms) = handed a false ms
