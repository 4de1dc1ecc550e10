-- ===== src/Tests.antt =====
-- Tests of the definitions at concrete inputs, and the theorems at inputs where their hypotheses
-- hold.
mod Emitters
mod Handles
mod Utilities
mod Files
mod Streams
mod Lifetimes
mod Programs
mod Threads
mod Watchers
