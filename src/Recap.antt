-- ===== src/Recap.antt =====
-- lab04-recap+named-semaphore/recap/riepilogo.c: `n` child processes run rounds of `m` threads that
-- log their accesses in a file, until the main process tells them to stop and looks for the child
-- with the most accesses.
pub mod Stats
pub mod System
mod Search
mod Invariant
mod Safety
mod Tests
