-- ===== src/Limited.antt =====
-- lab11-echoserver-process-thread/ES-MP-LimitConn/multiprocess.c: the handler of one connection,
-- and in child modules the server that forks a handler for at most three connections at a time.
pub mod Handler
pub mod Server
pub mod Threaded
mod Kept
pub mod Echo
mod Capacity
mod Tests
