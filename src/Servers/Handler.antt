-- ===== src/Servers/Handler.antt =====
-- connection_handler, which has the same text in base.c, multiprocess.c and multithread.c: a
-- machine that steps at each send(), recv() and close().
use c_teaching.Prelude.{
  ℕ, ◌≤◌, ◌<◌, ◌==◌, ◌&&◌, if◌then◌else◌, length, take, same_bytes, Bool, List, [], ◌∷◌, ◌++◌,
}
use c_teaching.Sys.{eintr, Reply, ok, bytes, fail}

-- SERVER_COMMAND, in ASCII codes.
abbrev pub quit_command : List ℕ
quit_command = b'Q' ∷ b'U' ∷ b'I' ∷ b'T' ∷ []

-- `sizeof(buf)`
abbrev pub buf_len : ℕ
buf_len = 1024

-- Where the handler stands: before the send() of the welcome message, recv(), the send() of the
-- echo, close(); at its end; or at the exit() of ERROR_HELPER.
pub data Pc : Type 0 where
  welcoming receiving echoing closing returned exited : Pc

pub record State : Type 0 where
  pub buf : List ℕ  -- the msg_len or recv_bytes bytes of the buffer in use
  pub out : List ℕ  -- all the bytes that the socket has taken

-- `recv_bytes == quit_command_len && !memcmp(buf, quit_command, quit_command_len)`
abbrev pub is_quit : List ℕ → Bool
is_quit buf = length buf == length quit_command && same_bytes buf quit_command

-- The socket takes the first `n` bytes of the buffer; the rest is not sent again.
abbrev pub send_bytes : State → ℕ → State
send_bytes s n = record s { out = s.out ++ take n s.buf }

-- From a call, with its result, to the next call.
unfoldable pub step : State → Pc → Reply → State × Pc
step s Pc.welcoming (ok n) = (send_bytes s n, Pc.receiving)
step s Pc.welcoming (fail eintr) = (s, Pc.welcoming)
step s Pc.welcoming (fail e) = (s, Pc.exited)
step s Pc.receiving (bytes bs) =
    (record s { buf = bs }, if is_quit bs then Pc.closing else Pc.echoing)
step s Pc.receiving (fail eintr) = (s, Pc.receiving)
step s Pc.receiving (fail e) = (s, Pc.exited)
step s Pc.echoing (ok n) = (send_bytes s n, Pc.receiving)
step s Pc.echoing (fail eintr) = (s, Pc.echoing)
step s Pc.echoing (fail e) = (s, Pc.exited)
step s Pc.closing (ok n) = (s, Pc.returned)
step s Pc.closing (fail e) = (s, Pc.exited)
step s pc r = (s, pc)

-- The handler at its first send(), with its welcome message in the buffer.
abbrev pub begin : List ℕ → State
begin welcome = record { buf = welcome; out = [] }

-- What the system may answer at a call: send() takes at most what it is given, and not nothing of
-- something; recv() gives at most what fits the buffer, and nothing when the peer has closed.
abbrev pub Possible : State → Pc → Reply → Type 0
Possible s Pc.welcoming (ok n) = (n ≤ length s.buf) × (0 < length s.buf → 0 < n)
Possible s Pc.echoing (ok n) = (n ≤ length s.buf) × (0 < length s.buf → 0 < n)
Possible s Pc.receiving (bytes bs) = length bs ≤ buf_len
Possible s Pc.closing (ok n) = Unit {0}
Possible s Pc.returned r = ⊥
Possible s Pc.exited r = ⊥
Possible s pc (fail e) = Unit {0}
Possible s _ _ = ⊥
