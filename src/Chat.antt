-- ===== src/Chat.antt =====
-- lab10-chat-socket+fifo/chat-socket.c: the two threads of a chat session, and the command line.
pub mod Threads
pub mod Args
mod Receive
mod Session
mod Tests
