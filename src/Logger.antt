-- ===== src/Logger.antt =====
-- lab09-fifo-logger/Logger/server.c: the Logger process, which copies what the server writes to
-- its standard error, through a pipe, to the log file.
pub mod Run
pub mod Correct
mod Stop
mod Tests
use c_teaching.Prelude.{
  ℕ, ◌+◌, ◌-◌, ltb, ◌==◌, if◌then◌else◌, take, drop, Bool, true, false, List, [], ◌++◌,
}
use c_teaching.Sys.{eintr, Answer, ok, fail}

-- `sizeof(buf)`
abbrev pub buf_size : ℕ
buf_size = 512

-- Where startLogger stands: before a read() of the pipe, a write() to the file, the close() of the
-- file and that of the pipe; or at its exit(), with success or by ERROR_HELPER.
pub data Pc : Type 0 where
  reading : Pc
  writing : (written_bytes bytes_left : ℕ) → Pc
  closing_log closing_pipe ended failed : Pc

pub record State : Type 0 where
  pub should_stop : Bool  -- logger_shouldStop
  pub pipe : List ℕ  -- the bytes in the pipe
  pub served : List ℕ  -- all the bytes that the server has put there; no step reads it
  pub writers : Bool  -- whether the server still has the pipe open
  pub buf : List ℕ  -- the bytes of the last read()
  pub log : List ℕ  -- what has been appended to the log file

abbrev pub init : State
init = record { should_stop = false; pipe = []; served = []; writers = true; buf = []; log = [] }

abbrev pub read_bytes : State → ℕ → State
read_bytes s n = record s { pipe = drop n s.pipe; buf = take n s.pipe }

abbrev pub write_bytes : State → ℕ → ℕ → State
write_bytes s written n = record s { log = s.log ++ take n (drop written s.buf) }

-- `if (logger_shouldStop) break;`
abbrev pub end_block : State → Pc
end_block s = if s.should_stop then closing_log else reading

-- From a call, with its answer, to the next call. What the last close() returns is not tested.
unfoldable pub step : State → Pc → Answer → State × Pc
step s reading (ok n) = if n == 0 then (s, closing_log) else (read_bytes s n, writing 0 n)
step s reading (fail eintr) = (s, reading)
step s reading (fail e) = (s, failed)
step s (writing written left) (ok n) =
    (write_bytes s written n, if ltb n left then writing (written + n) (left - n) else end_block s)
step s (writing written left) (fail eintr) = (s, writing written left)
step s (writing written left) (fail e) = (s, failed)
step s closing_log (ok n) = (s, closing_pipe)
step s closing_log (fail e) = (s, failed)
step s closing_pipe a = (s, ended)
step s pc a = (s, pc)
