-- ===== src/Tests/Files.antt =====
-- The filesystem requests over a libuv that opens every path as descriptor 7, and fails to close.
use uvw.Prelude.{
  All, ◌++◌, false, ◌+◌, List, true, occurs, ◌≡◌, refl, false, none, some, [], ◌∷◌, ℤ, pos, negsuc,
  to_int,
}
use uvw.Fs.{
  FsEffect, FsRaw, Entry, FsCall, FsCallback, Libuv, Base, FsType, issue, cleanup, arrive,
  report_ok, answer_ok, uv_fs_open, uv_fs_close,
}
use uvw.Fs.Paths.{FsReq}
use uvw.Fs.Directory.{scandir_next, scandir_next-clean}
use uvw.Fs.PathOps.{PathOp}
use uvw.Fs.PathOps
use uvw.Fs.File.{FileReq, complete, bad_fd}
use uvw.Fs.FileOps.{FileOp, op_close, op_read, op_write, op_stat, op_sync, file_start-run_sync}
use uvw.Fs.FileOps
use uvw.Fs.Session.{
  Session, Move, starts, lends, syncs, arrives, moves, new_session, end_session, handed, new_block,
  listed,
}
use uvw.Fs.Session.Blocks.{used, given}
use uvw.Fs.Session.Balance.{InUse, session_balance}
use uvw.Fs.Session.Cleanups.{Cleaned, begun, session-Cleaned}
use uvw.Fs.Descriptor.{IsOn, steady}
use uvw.Fs.Descriptor.Opened.{opening, opened_file}

abbrev raw_request : FsRaw
raw_request = record {
  fs_type = FsType.fs_unknown;
  result = pos 3;
  path = none;
  ptr = some 5;
  statbuf = 0;
}

abbrev an_entry : Entry
an_entry = record { type = 1; name = some (97 ∷ []) }

abbrev end_of_file : ℤ
end_of_file = negsuc 4094

abbrev small_answer : FsCall → FsRaw → FsRaw
small_answer (uv_fs_open path flags mode) w = record w { result = pos 7 }
small_answer (uv_fs_close file) w = record w { result = negsuc 8 }
small_answer c w = record w { result = pos 0 }

abbrev small_libuv : Libuv
small_libuv = record {
  cleaned = λ w. record w { ptr = none; path = none };
  answer = small_answer;
  scandir_next = λ w d. elim w.ptr [ none ↦ (end_of_file, d) | some p ↦ (pos 0, an_entry) ];
  filled = λ c w d. an_entry;
  directory_entry = λ p. an_entry;
}

abbrev base_request : Base
base_request = record { raw = raw_request; log = [] }

abbrev fs_request : FsReq
fs_request = record { base = base_request; dirents = an_entry }

abbrev file_request : FileReq
file_request = record { base = base_request; file = bad_fd; current = none }

scandir_next-clean_example :
    ((scandir_next small_libuv end_of_file 0 fs_request).0.found ≡ false)
    × ((scandir_next small_libuv end_of_file 0 fs_request).0.entry.name ≡ none)
scandir_next-clean_example =
    scandir_next-clean small_libuv end_of_file 0 fs_request (λ w. refl) (λ w. refl)
      (λ w d e f. rw e refl) refl

abbrev closing : FileReq
closing = FileOps.start small_libuv op_close file_request

file_start-run_sync_example :
    (c : FsCall) × (cb : FsCallback) × ((FileOps.start small_libuv op_close file_request).base.log
      ≡ issue c (some cb) ∷ cleanup ∷ [])
    × ((FileOps.run_sync small_libuv op_close file_request).1.base.log
        ≡ issue c none ∷ cleanup ∷ [])
    × ((report_ok
          (complete small_libuv cb (record closing { base = arrive small_libuv c closing.base })).0)
        ≡ answer_ok (FileOps.run_sync small_libuv op_close file_request).0)
    × ((complete small_libuv cb
          (record closing { base = arrive small_libuv c closing.base })).1.file
        ≡ (FileOps.run_sync small_libuv op_close file_request).1.file)
file_start-run_sync_example = file_start-run_sync small_libuv op_close file_request

-- The request is opened, waits for libuv, reads, and asks for the state of the file.
abbrev reading : List Move
reading = starts (op_read 5 (pos 0) 8) ∷ arrives true ∷ syncs op_stat ∷ []

abbrev opened : Session
opened = opening small_libuv true (47 ∷ []) 0 0 (new_session base_request)

opened_file_example :
    ((moves small_libuv reading opened).request.file ≡ to_int opened.request.base.raw.result)
    × ((es : List FsEffect) × ((moves small_libuv reading opened).request.base.log
          ≡ es ++ opened.request.base.log)
        × All (IsOn (to_int opened.request.base.raw.result)) es)
unfolding opening steady
opened_file_example =
    opened_file small_libuv true (47 ∷ []) 0 0 reading (new_session base_request) refl refl refl

-- A read whose block a listener takes, a write of memory of the user's, and a write of memory that
-- the request takes over and libuv has not answered.
abbrev file_moves : List Move
file_moves =
    starts (op_read 5 (pos 0) 8)
    ∷ starts (op_read 5 (pos 0) 8)
    ∷ arrives true
    ∷ lends 4 2 (pos 0)
    ∷ arrives false
    ∷ syncs op_stat
    ∷ starts (op_write 9 2 (pos 0))
    ∷ []

session_balance_example :
    (t : Session) × (moves small_libuv file_moves (new_session base_request) ≡ t)
    × (used t.request.base.log ≡ given false file_moves [])
    × InUse t.pending t.request.current t.lent
    × (occurs 5 t.freed + occurs 5 t.taken + occurs 5 (listed t.request.current) ≡ 1)
    × (occurs 5 (end_session small_libuv t).freed + occurs 5 (end_session small_libuv t).taken ≡ 1)
unfolding handed new_block occurs used
session_balance_example = session_balance small_libuv base_request 5 file_moves

session-Cleaned_example :
    let t = moves small_libuv file_moves (new_session base_request) in
    Cleaned 4 t.request.base.log
    × ((end_session small_libuv t).request.base.log ≡ cleanup ∷ t.request.base.log)
unfolding begun
session-Cleaned_example = session-Cleaned small_libuv base_request file_moves refl
