-- ===== src/Lib.antt =====
-- A model of uvw, the C++ wrapper of libuv, under src/uvw of the repository.
--
-- The library gives every structure of libuv an owning object. A `resource` is an emitter of events
-- and may hold a shared pointer to itself; handles and requests are resources. A handle owns itself
-- from its initialisation until its close callback, a request from the moment that libuv accepts it
-- until its callback, if it is not one of the file system. Callbacks of libuv become events, and the
-- methods of a handle that need a request make one whose listeners pass its events on to the handle.
-- Loops make resources; filesystem requests, processes, threads and the utilities stand beside them.
--
-- Which file models which part, the functions keeping their names:
--
-- - Prelude: the library names in use, lists, and signed numbers with the casts of the code. Bits:
--   the laws of the bitwise operators.
-- - Emitter: src/uvw/emitter.h and emitter.ipp. A table of listeners is a function from event types;
--   Emitter/History is about any calls of `on` and `reset` in turn, Emitter/Running about listeners
--   that make such calls while they run.
--   Event: the event types and values of all headers.
-- - Resource: src/uvw/resource.hpp, as a count of shared pointers.
-- - Lifetime: a handle with its requests (handle.hpp, request.hpp, stream.h, stream.ipp, udp.ipp) as a
--   system that the user's code and libuv move; `none` is a use of a destroyed object. Ledger, Acts
--   and Safety count its pointers, Reach and Reports say what follows.
-- - Request: the requests that the user makes (work.ipp, dns.ipp, fs.ipp), as far as their life goes;
--   Accounts counts their pointers, Life says what follows, Work is about `work_req`.
-- - Loop: src/uvw/loop.h and loop.ipp; Loop/Default its `get_default`.
-- - Util: src/uvw/util.h and util.ipp: Text (`try_read`), HandleType (`guess_handle` and the
--   `loop::walk` that uses it), Address, Arrays (the lists of processors and interfaces), Os.
-- - Fs: fs.h and fs.ipp. Fs/File has the operations of `file_req`, Fs/Paths and Fs/Links those of
--   `fs_req`, each as its asynchronous and its synchronous function, Fs/Directory those on
--   directories. FileOps, PathOps and Descriptor compare and compose them.
--   Fs/Session follows a file request and the memory that it owns from its construction to its end.
-- - Process: process.h and process.ipp. Thread: thread.h and thread.ipp. TypeInfo: type_info.hpp.
--   Enum: enum.hpp.
-- - Handle: the members of handle.hpp and stream.h that interpret what libuv returns.
-- - Dns: dns.ipp, the events and the synchronous functions.
-- - Stream: what the callbacks of stream.h and of the handles that watch something publish;
--   Stream/Reads what a stream's listeners get over all reads. Udp: udp.ipp and tcp.ipp;
--   Udp/Traffic what its listeners get. Tty: tty.ipp.
-- - Lifetime/Spec: what a handle promises without a count; Simulates and Refine relate the two;
--   Drain: the moves that end a handle; Due: what libuv owes it; Schedule: all orders of its answers.
--   Buffers: who owns what is written and read.
-- - Loop/Shared and Outlives: who keeps a loop (uv_type.hpp). Loop/Running: the other members of a
--   loop. SharedLib: lib.h and lib.ipp.
-- - Watch: timer.ipp, idle.ipp, check.ipp, prepare.ipp, async.ipp, signal.ipp, poll.ipp,
--   fs_event.ipp, fs_poll.ipp; Watch/Created the initialisation of all handles.
-- - Stream/Calls: the members of stream.h, pipe.ipp, tcp.ipp and udp.ipp that call libuv.
--   Udp/Addressed and Overloads: those that take an address, with those of `get_name_info_req`.
--   Util/Getters: those that read a text. Util/System: what the system tells.
--   Thread/Locks, Thread/Once: the locks and `once`.
--   Thread/Running: a thread object and the threads that it starts, as turns in any order.
-- - Program: a loop with all its handles. Counts, Gone and Linked tie the loop's pointers to the
--   handles and requests that exist; Shutdown: the moves that end it. Program/World: the same
--   with the requests that the user makes; World/Ends: its end, over all orders of libuv's answers.
-- - Tests: runs at concrete inputs.
--
-- libuv is a parameter: its functions, or the numbers that they return, are arguments of the
-- definitions that call them, and what the code relies on is a hypothesis. Listeners are arguments as
-- well. No definition takes fuel: loops run over lists, or over a count that the code computes.
--
-- Not modelled: the memory, load, clock and metrics functions, which return what libuv returns; the
-- memory behind pointers, except for the buffers of Buffers and Fs/Session; the configuration
-- macros and the build. The allocation of `std::make_shared` succeeds. In Program a move of a
-- handle changes the loop's pointers by the objects that it leaves, not in the order in which they
-- come and go. The listeners of the user's own requests only record their event; those of handles,
-- and of an emitter, make calls.
pub mod Prelude
pub mod Bits
pub mod Emitter
pub mod Event
pub mod Resource
pub mod Lifetime
pub mod Request
pub mod Util
pub mod Loop
pub mod TypeInfo
pub mod Enum
pub mod Process
pub mod Thread
pub mod Fs
pub mod Tests
pub mod Stream
pub mod Udp
pub mod Tty
pub mod Handle
pub mod Buffers
pub mod SharedLib
pub mod Watch
pub mod Program
pub mod Dns
