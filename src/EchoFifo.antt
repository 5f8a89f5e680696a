-- ===== src/EchoFifo.antt =====
-- lab09-fifo-logger/EchoFIFO/echo.c: the process that echoes through a pair of FIFOs, a machine
-- that steps at each write(), read(), close() and unlink().
mod Correct
mod Tests
use c_teaching.Prelude.{
  ℕ, ◌+◌, ◌-◌, ◌≤◌, ◌<◌, ltb, ◌==◌, ◌&&◌, if◌then◌else◌, length, take, drop, same_bytes, Bool, true,
  false, List, [], ◌∷◌, ◌++◌,
}
use c_teaching.Sys.{Errno, eintr, Reply, ok, bytes, fail}

-- QUIT_COMMAND, in ASCII codes.
abbrev pub quit_command : List ℕ
quit_command = b'Q' ∷ b'U' ∷ b'I' ∷ b'T' ∷ []

-- `sizeof(buf) - 1`
abbrev pub room : ℕ
room = 1023

-- The calls of cleanFIFOs.
pub data Clean : Type 0 where
  close_echo close_client unlink_echo unlink_client : Clean

-- Where main() stands after it has opened the FIFOs. `ended` is the exit() after cleanFIFOs, with
-- success or not, and `failed` that of ERROR_HELPER.
pub data Pc : Type 0 where
  welcoming : (bytes_sent bytes_left : ℕ) → Pc
  reading : Pc
  echoing : (bytes_sent bytes_left : ℕ) → Pc
  cleaning : Clean → (success : Bool) → Pc
  ended : (success : Bool) → Pc
  failed : Pc

pub record State : Type 0 where
  pub buf : List ℕ  -- the bytes of the buffer in use
  pub out : List ℕ  -- all the bytes written to the Echo FIFO
  pub echo_fifo : Bool  -- whether the name is in the file system
  pub client_fifo : Bool

-- `bytes_read == quit_command_len && !memcmp(buf, quit_command, quit_command_len)`
abbrev pub is_quit : List ℕ → Bool
is_quit buf = length buf == length quit_command && same_bytes buf quit_command

abbrev pub write_bytes : State → ℕ → ℕ → State
write_bytes s sent n = record s { out = s.out ++ take n (drop sent s.buf) }

-- From a call, with its result, to the next call.
unfoldable pub step : State → Pc → Reply → State × Pc
step s (welcoming sent left) (ok n) =
    (write_bytes s sent n, if ltb 0 (left - n) then welcoming (sent + n) (left - n) else reading)
step s (welcoming sent left) (fail eintr) = (s, welcoming sent left)
step s reading (bytes []) = (s, cleaning close_echo false)
step s reading (bytes (x ∷ xs)) = (
  record s { buf = x ∷ xs },
  if is_quit (x ∷ xs) then cleaning close_echo true else echoing 0 (length (x ∷ xs)),
)
step s reading (fail eintr) = (s, reading)
step s (echoing sent left) (ok n) =
    (write_bytes s sent n, if ltb 0 (left - n) then echoing (sent + n) (left - n) else reading)
step s (echoing sent left) (fail eintr) = (s, echoing sent left)
step s (cleaning close_echo success) (ok n) = (s, cleaning close_client success)
step s (cleaning close_client success) (ok n) = (s, cleaning unlink_echo success)
step s (cleaning unlink_echo success) (ok n) =
    (record s { echo_fifo = false }, cleaning unlink_client success)
step s (cleaning unlink_client success) (ok n) = (record s { client_fifo = false }, ended success)
step s (ended success) r = (s, ended success)
step s failed r = (s, failed)
step s pc (fail e) = (s, failed)
step s pc r = (s, pc)

-- At the first write(), with the welcome message in the buffer.
abbrev pub opened : List ℕ → State
opened welcome = record { buf = welcome; out = []; echo_fifo = true; client_fifo = true }

-- What the system may answer: write() takes at most what it is given, read() gives at most what
-- it is asked for.
abbrev pub Possible : State → Pc → Reply → Type 0
Possible s (welcoming sent left) (ok n) = n ≤ left
Possible s (echoing sent left) (ok n) = n ≤ left
Possible s reading (bytes bs) = length bs ≤ room
Possible s (cleaning c success) (ok n) = Unit {0}
Possible s (ended success) r = ⊥
Possible s failed r = ⊥
Possible s pc (fail e) = Unit {0}
Possible s _ _ = ⊥
