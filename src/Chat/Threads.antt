-- ===== src/Chat/Threads.antt =====
-- receiveMessage and sendMessage of chat-socket.c, which share the flag shouldStop. Each is a
-- machine that steps at its calls.
use c_teaching.Prelude.{
  ℕ, ◌+◌, ltb, leb, ◌==◌, ◌&&◌, if◌then◌else◌, length, take, drop, same_bytes, Bool, true, List, [],
  ◌∷◌, ◌++◌,
}
use c_teaching.Sys.{Errno, eintr}

abbrev pub buffer_size : ℕ
buffer_size = 1024

-- CLOSE_COMMAND
abbrev pub close_command : List ℕ
close_command = b'B' ∷ b'Y' ∷ b'E' ∷ []

abbrev pub newline : ℕ
newline = 10

-- The bytes of a C string: those before the first 0.
abbrev pub c_string : List ℕ → List ℕ
c_string [] = []
c_string (x ∷ xs) = if x == 0 then [] else x ∷ c_string xs

-- `len - 1 == close_command_len && !memcmp(buf, close_command, close_command_len)`, for a `len` of
-- at least 1; with 0 the unsigned subtraction gives a length that no command has.
abbrev pub is_close : List ℕ → Bool
is_close buf =
    length buf == 1 + length close_command
    && same_bytes (take (length close_command) buf) close_command

-- Where the receiver stands: before select(), or before a recv() of one byte. `ended` is
-- pthread_exit(), `exited` the exit() of the process, and `overflow` a write past the end of the
-- buffer, after which nothing is known.
pub data ReceiverPc : Type 0 where
  selecting receiving ended exited overflow : ReceiverPc

pub record Receiver : Type 0 where
  pub pc : ReceiverPc
  pub buf : List ℕ  -- the first bytes_read bytes of its buffer
  pub shown : List (List ℕ)  -- the messages printed behind "==> "

pub data ReceiverEvent : Type 0 where
  ready timeout closed : ReceiverEvent
  got : ℕ → ReceiverEvent
  select_fails recv_fails : Errno → ReceiverEvent

-- `while (!shouldStop)`
abbrev pub loop_head : Bool → Receiver → Receiver
loop_head stop r = record r { pc = if stop then ended else selecting }

-- The '\n' has been read: the message is the close command, or is printed with a 0 behind it.
abbrev pub end_message : Bool → Receiver → Bool × Receiver
end_message stop r =
    if is_close r.buf
    then (true, loop_head true r)
    else if ltb (length r.buf) buffer_size
    then (stop, loop_head stop (record r { shown = r.shown ++ c_string r.buf ∷ [] }))
    else (stop, record r { pc = overflow })

-- recv() has put the byte `x` at buf[bytes_read].
abbrev pub put_byte : Bool → Receiver → ℕ → Bool × Receiver
put_byte stop r x =
    let r' = record r { buf = r.buf ++ x ∷ [] } in
    if leb buffer_size (length r.buf)
    then (stop, record r { pc = overflow })
    else if x == newline
    then end_message stop r'
    else (stop, r')

-- The value of shouldStop and the receiver, after the answer to its call.
receive_at : Bool → Receiver → ReceiverPc → ReceiverEvent → Bool × Receiver
receive_at stop r selecting ready = (stop, record r { pc = receiving; buf = [] })
receive_at stop r selecting timeout = (stop, loop_head stop r)
receive_at stop r selecting (select_fails eintr) = (stop, loop_head stop r)
receive_at stop r selecting (select_fails e) = (stop, record r { pc = exited })
receive_at stop r receiving (got x) = put_byte stop r x
receive_at stop r receiving closed = (true, record r { pc = ended })
receive_at stop r receiving (recv_fails eintr) = (stop, r)
receive_at stop r receiving (recv_fails e) = (stop, record r { pc = exited })
receive_at stop r pc e = (stop, r)

unfoldable pub receive : Bool → Receiver → ReceiverEvent → Bool × Receiver
unfolding receive_at
receive stop r e = receive_at stop r r.pc e

-- Where the sender stands: before fgets(), or before a send().
pub data SenderPc : Type 0 where
  prompting sender_ended sender_exited : SenderPc
  sending : (bytes_sent : ℕ) → SenderPc

pub record Sender : Type 0 where
  pub pc : SenderPc
  pub msg : List ℕ  -- the msg_len bytes of the line
  pub sent : List ℕ  -- all the bytes that the socket has taken

pub data SenderEvent : Type 0 where
  line : List ℕ → SenderEvent
  no_line : SenderEvent
  took : ℕ → SenderEvent
  send_fails : Errno → SenderEvent

-- `while (!shouldStop)`
abbrev pub sender_head : Bool → Sender → Sender
sender_head stop s = record s { pc = if stop then sender_ended else prompting }

-- All bytes are sent.
abbrev pub end_sending : Bool → Sender → Bool × Sender
end_sending stop s =
    if is_close s.msg then (true, sender_head true s) else (stop, sender_head stop s)

-- `while (bytes_sent < msg_len)`
abbrev pub send_rest : Bool → Sender → ℕ → Bool × Sender
send_rest stop s bytes_sent =
    if ltb bytes_sent (length s.msg)
    then (stop, record s { pc = sending bytes_sent })
    else end_sending stop s

send_at : Bool → Sender → SenderPc → SenderEvent → Bool × Sender
send_at stop s prompting (line bs) =
    if stop
    then (stop, record s { pc = sender_ended })
    else send_rest stop (record s { msg = c_string bs }) 0
send_at stop s prompting no_line = (stop, record s { pc = sender_exited })
send_at stop s (sending k) (took n) =
    send_rest stop (record s { sent = s.sent ++ take n (drop k s.msg) }) (k + n)
send_at stop s (sending k) (send_fails eintr) = (stop, s)
send_at stop s (sending k) (send_fails e) = (stop, record s { pc = sender_exited })
send_at stop s pc e = (stop, s)

unfoldable pub send : Bool → Sender → SenderEvent → Bool × Sender
unfolding send_at
send stop s e = send_at stop s s.pc e
