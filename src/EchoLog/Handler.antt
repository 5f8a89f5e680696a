-- ===== src/EchoLog/Handler.antt =====
-- connection_handler of echo_server_mt_logger.c: a machine that steps at each send(), recv() and
-- close() and at each call of my_log, whose return is the answer `ok 0`.
pub mod Logged
mod Sim
mod Tests
use c_teaching.Prelude.{
  ℕ, ◌+◌, ◌≤◌, ◌<◌, ltb, ◌==◌, if◌then◌else◌, length, take, Bool, List, [], ◌∷◌, ◌++◌,
}
use c_teaching.Sys.{Errno, eintr, Reply, ok, bytes, fail}
use c_teaching.Limited.Handler.{State, send_bytes, advance, is_quit, begin}

-- DEFAULT_BUFFER_SIZE
abbrev pub default_buffer_size : ℕ
default_buffer_size = 1024

-- Where the handler stands. `overrun` is after a write past the end of buf.
pub data Pc : Type 0 where
  welcoming : (bytes_sent : ℕ) → Pc
  receiving logging : Pc
  echoing : (bytes_sent : ℕ) → Pc
  closing logging_end returned exited overrun : Pc

-- The texts that name the client: the welcome message, the log message up to the last `%s`, and
-- the message at the end.
pub record Texts : Type 0 where
  pub welcome : List ℕ
  pub received_from : List ℕ
  pub completed : List ℕ

-- What the three servers' handlers share, and the messages with which my_log has been called.
pub record Handler : Type 0 where
  pub io : State
  pub logged : List (List ℕ)

-- The C string that begins at a buffer: its bytes before the first 0.
unfoldable pub c_string : List ℕ → List ℕ
c_string [] = []
c_string (x ∷ xs) = let rest = c_string xs in if x == 0 then [] else x ∷ rest

-- `snprintf(log_msg, sizeof(log_msg), "Message received from client %s:%hu: %s", ..., buf)`
abbrev pub log_message : Texts → List ℕ → List ℕ
log_message t buf = take 1023 (t.received_from ++ c_string buf)

abbrev pub send : Handler → ℕ → ℕ → Handler
send h sent n = record h { io = send_bytes h.io sent n }

abbrev pub failed : Handler → Errno → Handler
failed h e = record h { io = record h.io { errno = e } }

abbrev pub my_log : Handler → List ℕ → Handler
my_log h msg = record h { logged = h.logged ++ msg ∷ [] }

-- From a call, with its result, to the next call. `buf[recv_bytes] = '\0'` is outside buf after a
-- recv() that has filled it.
unfoldable pub step : Texts → Handler → Pc → Reply → Handler × Pc
step t h (welcoming sent) (ok n) =
    let next = advance h.io sent n in
    (send h sent n, if ltb next (length h.io.buf) then welcoming next else receiving)
step t h receiving (bytes []) = (h, exited)
step t h receiving (bytes (x ∷ xs)) = (
  record h { io = record h.io { buf = x ∷ xs } },
  if length (x ∷ xs) == default_buffer_size then overrun else logging,
)
step t h receiving (fail eintr) = (failed h eintr, receiving)
step t h logging (ok n) =
    (my_log h (log_message t h.io.buf), if is_quit h.io.buf then closing else echoing 0)
step t h (echoing sent) (ok n) =
    let next = advance h.io sent n in
    (send h sent n, if ltb next (length h.io.buf) then echoing next else receiving)
step t h closing (ok n) = (h, logging_end)
step t h logging_end (ok n) = (my_log h t.completed, returned)
step t h returned r = (h, returned)
step t h exited r = (h, exited)
step t h overrun r = (h, overrun)
step t h pc (fail e) = (failed h e, exited)
step t h pc r = (h, pc)

-- The handler at its first send().
abbrev pub start_handler : Errno → Texts → Handler
start_handler e t = record { io = begin e t.welcome; logged = [] }

-- What may be answered at a call.
abbrev pub Possible : Handler → Pc → Reply → Type 0
Possible h (welcoming sent) (ok n) = (0 < n) × (sent + n ≤ length h.io.buf)
Possible h (echoing sent) (ok n) = (0 < n) × (sent + n ≤ length h.io.buf)
Possible h receiving (bytes bs) = length bs ≤ default_buffer_size
Possible h logging (ok n) = Unit {0}
Possible h closing (ok n) = Unit {0}
Possible h logging_end (ok n) = Unit {0}
Possible h returned r = ⊥
Possible h exited r = ⊥
Possible h overrun r = ⊥
Possible h pc (fail e) = Unit {0}
Possible h _ _ = ⊥
