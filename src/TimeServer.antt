-- ===== src/TimeServer.antt =====
-- lab06-cpoy+timeserver/time_server: connection_handler and the loop of main() in server.c, and
-- main() of client.c, for any number of clients, with the two streams of each connection.
mod Connections
mod Answers
mod Tests
use c_teaching.Prelude.{
  ℕ, suc, ◌≤◌, ◌<◌, ◌≡◌, ◌==◌, ltb, ◌&&◌, ◌||◌, if◌then◌else◌, length, take, drop, same_bytes, ◌⊎◌,
  Bool, true, false, List, [], ◌∷◌, ◌++◌,
}
use c_teaching.Threads.{update}

-- SERVER_COMMAND
abbrev pub command : List ℕ
command = b'T' ∷ b'I' ∷ b'M' ∷ b'E' ∷ []

-- "INVALID REQUEST"
abbrev pub invalid : List ℕ
invalid =
    b'I' ∷ b'N' ∷ b'V' ∷ b'A' ∷ b'L' ∷ b'I' ∷ b'D' ∷ 32 ∷ b'R' ∷ b'E' ∷ b'Q' ∷ b'U' ∷ b'E' ∷ b'S'
    ∷ b'T' ∷ []

-- `sizeof(recv_buf)` of both programs
abbrev pub buf_len : ℕ
buf_len = 256

-- `recv_bytes == allowed_command_len && !memcmp(recv_buf, allowed_command, allowed_command_len)`
abbrev pub is_command : List ℕ → Bool
is_command bs = length bs == length command && same_bytes bs command

-- The reply to the bytes received, where `now` is the text of ctime().
abbrev pub reply_to : List ℕ → List ℕ → List ℕ
reply_to now bs = if is_command bs then now else invalid

-- Where a client stands: before connect(), send(), recv(), close() with its answer, after its
-- printf(); or at an exit() of ERROR_HELPER.
pub data Client : Type 0 where
  unconnected sending receiving : Client
  closing printed : List ℕ → Client
  failed : Client

-- Where the server is with a connection: before accept(), recv(), send() of the reply, close(), or
-- after it.
pub data Side : Type 0 where
  queued hearing : Side
  replying : List ℕ → Side
  hanging_up hung_up : Side

-- A connection; no step reads `cut`, which says whether a call has moved less than there was.
pub record Connection : Type 0 where
  pub client : Client
  pub side : Side
  pub to_server : List ℕ
  pub to_client : List ℕ
  pub cut : Bool

abbrev pub fresh : Connection
fresh = record { client = unconnected; side = queued; to_server = []; to_client = []; cut = false }

-- Only `n` bytes were moved where `bs` are there.
abbrev pub is_cut : ℕ → List ℕ → Bool
is_cut n bs = ltb n (length bs)

-- The end of a process closes its sockets.
abbrev pub is_gone : Client → Bool
is_gone failed = true
is_gone (printed bs) = true
is_gone _ = false

abbrev pub is_closed : Side → Bool
is_closed hung_up = true
is_closed _ = false

abbrev pub set_side : Connection → Side → Connection
set_side c side = record c { side = side }

abbrev pub set_client : Connection → Client → Connection
set_client c client = record c { client = client }

-- main() of client.c. Its recv() leaves room for a 0, and gives nothing at the end of the stream.
pub data ClientStep (c : Connection) : Connection → Type 0 where
  send :
      (n : ℕ)
      → c.client ≡ sending
      → n ≤ length command
      → ClientStep c (record c {
        client = receiving;
        to_server = c.to_server ++ take n command;
        cut = c.cut || is_cut n command;
      })
  receive :
      (n : ℕ)
      → c.client ≡ receiving
      → n < buf_len
      → n ≤ length c.to_client
      → (0 < n) ⊎ ((c.to_client ≡ []) × (is_closed c.side ≡ true))
      → ClientStep c (record c {
        client = closing (take n c.to_client);
        to_client = drop n c.to_client;
        cut = c.cut || is_cut n c.to_client;
      })
  close : {bs : List ℕ} → c.client ≡ closing bs → ClientStep c (set_client c (printed bs))
  fail : is_gone c.client ≡ false → ClientStep c (set_client c failed)

-- connection_handler of server.c, where ctime() gives one of the texts `time_text`.
pub data HandlerStep (time_text : ℕ → List ℕ) (c : Connection) : Connection → Type 0 where
  hear :
      (n t : ℕ)
      → c.side ≡ hearing
      → n ≤ buf_len
      → n ≤ length c.to_server
      → (0 < n) ⊎ ((c.to_server ≡ []) × (is_gone c.client ≡ true))
      → HandlerStep time_text c (record c {
        side = replying (reply_to (time_text t) (take n c.to_server));
        to_server = drop n c.to_server;
        cut = c.cut || is_cut n c.to_server;
      })
  reply :
      (n : ℕ) {r : List ℕ}
      → c.side ≡ replying r
      → n ≤ length r
      → HandlerStep time_text c (record c {
        side = hanging_up;
        to_client = c.to_client ++ take n r;
        cut = c.cut || is_cut n r;
      })
  hang_up : c.side ≡ hanging_up → HandlerStep time_text c (set_side c hung_up)

-- Where main() of server.c stands: before accept(), in connection_handler, or at an exit().
pub data Main : Type 0 where
  accepting : Main
  serving : ℕ → Main
  ended : Main

abbrev pub is_ended : Main → Bool
is_ended ended = true
is_ended _ = false

-- Connections are numbered in the order of connect(), which is that of accept().
pub record System : Type 0 where
  pub main : Main
  pub connected : ℕ
  pub accepted : ℕ
  pub connections : ℕ → Connection

abbrev pub init : System
init = record { main = accepting; connected = 0; accepted = 0; connections = λ _. fresh }

abbrev pub put_connection : System → ℕ → Connection → System
put_connection s i c = record s { connections = update s.connections i c }

pub data Step (time_text : ℕ → List ℕ) (s : System) : System → Type 0 where
  connect :
      is_ended s.main ≡ false
      → Step time_text s (record s {
        connected = suc s.connected;
        connections = update s.connections s.connected (set_client fresh sending);
      })
  client_moves :
      (i : ℕ) {c : Connection}
      → i < s.connected
      → ClientStep (s.connections i) c
      → Step time_text s (put_connection s i c)
  accept :
      s.main ≡ accepting
      → s.accepted < s.connected
      → (s.connections s.accepted).side ≡ queued
      → Step time_text s (record s {
        main = serving s.accepted;
        accepted = suc s.accepted;
        connections = update s.connections s.accepted (set_side (s.connections s.accepted) hearing);
      })
  handle :
      (i : ℕ) {c : Connection}
      → s.main ≡ serving i
      → HandlerStep time_text (s.connections i) c
      → Step time_text s (put_connection s i c)
  next :
      {i : ℕ}
      → s.main ≡ serving i
      → (s.connections i).side ≡ hung_up
      → Step time_text s (record s { main = accepting })
  -- an exit() of ERROR_HELPER in the server closes all its sockets
  fail :
      Step time_text s
        (record s { main = ended; connections = λ i. set_side (s.connections i) hung_up })

pub data Reach (time_text : ℕ → List ℕ) : System → Type 0 where
  here : Reach time_text init
  then_step : {s t : System} → Reach time_text s → Step time_text s t → Reach time_text t
