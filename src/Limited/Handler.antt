-- ===== src/Limited/Handler.antt =====
-- connection_handler of multiprocess.c: a machine that steps at each send(), recv(), close() and
-- sem_post(). Its errno is part of the state, since the test on send() reads it.
use c_teaching.Prelude.{
  ℕ, ◌≤◌, ◌<◌, ◌+◌, ltb, ◌==◌, ◌&&◌, if◌then◌else◌, length, take, drop, same_bytes, Bool, List, [],
  ◌∷◌, ◌++◌,
}
use c_teaching.Sys.{Errno, eintr, Reply, ok, bytes, fail, is_eintr}

-- SERVER_COMMAND, in ASCII codes.
abbrev pub quit_command : List ℕ
quit_command = b'Q' ∷ b'U' ∷ b'I' ∷ b'T' ∷ []

abbrev pub buf_len : ℕ
buf_len = 1024

-- Where the handler stands. `posting` is the sem_post() after the loop, `returned` the end of the
-- function, and `exited` the exit() of ERROR_HELPER.
pub data Pc : Type 0 where
  welcoming : (bytes_sent : ℕ) → Pc
  receiving : Pc
  echoing : (bytes_sent : ℕ) → Pc
  closing : Pc
  posting : Pc
  returned : Pc
  exited : Pc

pub record State : Type 0 where
  pub errno : Errno
  pub buf : List ℕ  -- the msg_len or recv_bytes bytes of the buffer in use
  pub out : List ℕ  -- all the bytes that the socket has taken

-- `recv_bytes == quit_command_len && !memcmp(buf, quit_command, quit_command_len)`
abbrev pub is_quit : List ℕ → Bool
is_quit buf = length buf == length quit_command && same_bytes buf quit_command

-- The socket takes `n` bytes of the buffer.
abbrev pub send_bytes : State → ℕ → ℕ → State
send_bytes s bytes_sent n = record s { out = s.out ++ take n (drop bytes_sent s.buf) }

-- After `n = send(...)`: `if (ret == 1 && errno == EINTR) continue;` keeps bytes_sent.
abbrev pub advance : State → ℕ → ℕ → ℕ
advance s bytes_sent n = if n == 1 && is_eintr s.errno then bytes_sent else bytes_sent + n

-- From a call, with its result, to the next call.
unfoldable pub step : State → Pc → Reply → State × Pc
step s (welcoming sent) (ok n) =
    let next = advance s sent n in
    (send_bytes s sent n, if ltb next (length s.buf) then welcoming next else receiving)
step s (welcoming sent) (fail e) = (record s { errno = e }, exited)
step s receiving (bytes []) = (s, exited)
step s receiving (bytes (x ∷ xs)) =
    (record s { buf = x ∷ xs }, if is_quit (x ∷ xs) then closing else echoing 0)
step s receiving (fail eintr) = (record s { errno = eintr }, receiving)
step s receiving (fail e) = (record s { errno = e }, exited)
step s (echoing sent) (ok n) =
    let next = advance s sent n in
    (send_bytes s sent n, if ltb next (length s.buf) then echoing next else receiving)
step s (echoing sent) (fail e) = (record s { errno = e }, exited)
step s closing (ok n) = (s, posting)
step s closing (fail e) = (record s { errno = e }, exited)
step s posting (ok n) = (s, returned)
step s posting (fail e) = (record s { errno = e }, exited)
step s pc r = (s, pc)

-- The handler at its first send(), with its welcome message in the buffer and the errno that the
-- process has at that time.
abbrev pub begin : Errno → List ℕ → State
begin errno welcome = record { errno = errno; buf = welcome; out = [] }

-- What the system may answer at a call: send() takes from 1 byte to all that it is given, recv()
-- gives at most what fits the buffer.
abbrev pub Possible : State → Pc → Reply → Type 0
Possible s (welcoming sent) (ok n) = (0 < n) × (sent + n ≤ length s.buf)
Possible s (echoing sent) (ok n) = (0 < n) × (sent + n ≤ length s.buf)
Possible s receiving (bytes bs) = length bs ≤ buf_len
Possible s closing (ok n) = Unit {0}
Possible s posting (ok n) = Unit {0}
Possible s returned r = ⊥
Possible s exited r = ⊥
Possible s pc (fail e) = Unit {0}
Possible s _ _ = ⊥
