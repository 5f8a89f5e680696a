-- ===== src/Sys.antt =====
-- What the operating system answers to a call that moves bytes: the programs' environment.
-- A program is a machine that waits at a call for its answer and then runs to the next call.
use c_teaching.Prelude.{ℕ, Bool, true, false, List}

-- The values of errno that the programs tell apart.
pub data Errno : Type 0 where
  eintr : Errno
  eexist : Errno
  other : ℕ → Errno

-- The result of read(), write(), recv() or send(): a count, or -1 with errno set.
pub data Answer : Type 0 where
  ok : ℕ → Answer
  fail : Errno → Answer

-- The result of open(): a descriptor, or -1 with errno set.
pub data Opened : Type 0 where
  opened : Opened
  refused : Errno → Opened

-- What a server's calls on a socket return: a count for send(), the bytes for recv(), where no
-- byte means that the peer has closed the connection, or -1 with errno set. `ok 0` is the success
-- of the other calls.
pub data Reply : Type 0 where
  ok : ℕ → Reply
  bytes : List ℕ → Reply
  fail : Errno → Reply

-- `errno == EINTR`
abbrev pub is_eintr : Errno → Bool
is_eintr eintr = true
is_eintr _ = false
