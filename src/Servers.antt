-- ===== src/Servers.antt =====
-- lab08-socket-process-thread: the echo server in three forms, base.c, multiprocess.c and
-- multithread.c, which differ in who runs connection_handler.
pub mod Handler
pub mod Base
pub mod Processes
pub mod Threaded
pub mod Sent
mod HungUp
mod Projection
mod Own
mod Tests
