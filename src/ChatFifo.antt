-- ===== src/ChatFifo.antt =====
-- lab10-chat-socket+fifo/chat-fifo.c: the process that runs listenOnFIFO() and the one that runs
-- connectOnFIFO(), with the two FIFOs between them. Their threads receiveMessage and sendMessage
-- make the moves of those of chat-socket.c, at read() and write() instead of recv() and send().
pub mod Roles
mod Moves
mod Flow
mod Opening
mod Names
mod Calls
mod Start
mod Tests
use c_teaching.Prelude.{
  ℕ, ◌+◌, ◌≤◌, ◌≡◌, length, take, drop, Bool, true, false, List, [], ◌∷◌, ◌++◌,
}
use c_teaching.Chat.Threads.{
  Receiver, ReceiverPc, ReceiverEvent, Sender, SenderPc, SenderEvent, loop_head, sender_head,
  receive, send,
}
use c_teaching.ChatFifo.Roles.{Role, accept_side, connect_side, other, put, put_end}

-- Where the main thread of a process stands: before mkfifo() of the Listen and the Accept FIFO,
-- before or in the open() of the FIFO that a role reads, in the two pthread_join(), before close()
-- of the FIFO it writes and of the one it reads, before unlink() of each, or at the exit().
pub data Phase : Type 0 where
  making : Role → Phase
  opening : Role → Phase
  joining_receiver joining_sender closing_send closing_recv : Phase
  unlinking : Role → Phase
  ended failed : Phase

-- How far a process has got with one of the FIFOs: `waiting` is in open().
pub data Opened : Type 0 where
  unopened waiting open_end closed_end : Opened

pub record Fifo : Type 0 where
  pub named : Bool  -- whether the name is in the file system
  pub bytes : List ℕ
  pub passed : List ℕ  -- all the bytes read from it; no step looks at them

-- A FIFO goes by the role that reads it: the Listen FIFO is the one of `accept_side`.
pub record System : Type 0 where
  pub phases : Role → Phase
  pub should_stop : Role → Bool
  pub receivers : Role → Receiver
  pub senders : Role → Sender
  pub fifos : Role → Fifo
  pub ends : Role → Role → Opened  -- of the FIFO and the process

abbrev pub first_phase : Role → Phase
first_phase accept_side = making accept_side
first_phase connect_side = opening accept_side

-- At the beginning there is no FIFO yet.
abbrev pub init : System
init = record {
  phases = first_phase;
  should_stop = λ _. false;
  receivers = λ _. loop_head false (record { pc = ReceiverPc.selecting; buf = []; shown = [] });
  senders = λ _. sender_head false (record { pc = SenderPc.prompting; msg = []; sent = [] });
  fifos = λ _. record { named = false; bytes = []; passed = [] };
  ends = λ _ _. unopened;
}

-- What follows the mkfifo(), the open() and the unlink() of a FIFO, and the last close().
abbrev pub after_making : Role → Phase
after_making accept_side = making connect_side
after_making connect_side = opening accept_side

abbrev pub after_opening : Role → Phase
after_opening accept_side = opening connect_side
after_opening connect_side = joining_receiver

abbrev pub after_unlinking : Role → Phase
after_unlinking accept_side = unlinking connect_side
after_unlinking connect_side = ended

abbrev pub after_closing : Role → Phase
after_closing accept_side = unlinking accept_side
after_closing connect_side = ended

-- The threads run from pthread_create() on, as long as the process does.
abbrev pub threads_run : Phase → Bool
threads_run joining_receiver = true
threads_run joining_sender = true
threads_run _ = false

abbrev pub runs : Phase → Bool
runs ended = false
runs failed = false
runs _ = true

-- An event of the receiver that is no read() of a byte or of the end.
abbrev pub no_byte : ReceiverEvent → Bool
no_byte (ReceiverEvent.got x) = false
no_byte ReceiverEvent.closed = false
no_byte _ = true

-- An event of the sender that is no write().
abbrev pub no_write : SenderEvent → Bool
no_write (SenderEvent.took n) = false
no_write _ = true

abbrev pub has_opened : Opened → Bool
has_opened unopened = false
has_opened _ = true

-- Whether the process holds the end, or open() has it.
abbrev pub present : Opened → Bool
present waiting = true
present open_end = true
present _ = false

-- What exit() leaves of an end.
abbrev pub abandon : Opened → Opened
abandon open_end = closed_end
abandon closed_end = closed_end
abandon _ = unopened

abbrev pub close_end : (Role → Role → Opened) → Role → Role → (Role → Role → Opened)
close_end ends f r = put_end ends f r closed_end

abbrev pub set_bytes : Fifo → List ℕ → Fifo
set_bytes f bytes = record f { bytes = bytes }

abbrev pub pass : Fifo → ℕ → List ℕ → Fifo
pass f x bytes = record f { bytes = bytes; passed = f.passed ++ x ∷ [] }

abbrev pub set_name : Fifo → Bool → Fifo
set_name f named = record f { named = named }

-- The receiver and the sender of a process after an event.
abbrev pub received : System → Role → ReceiverEvent → System
received s r e =
    let (stop, new) = receive (s.should_stop r) (s.receivers r) e in
    record s { should_stop = put s.should_stop r stop; receivers = put s.receivers r new }

abbrev pub sent : System → Role → SenderEvent → System
sent s r e =
    let (stop, new) = send (s.should_stop r) (s.senders r) e in
    record s { should_stop = put s.should_stop r stop; senders = put s.senders r new }

abbrev pub set_phase : System → Role → Phase → System
set_phase s r phase = record s { phases = put s.phases r phase }

pub data Step (s : System) : System → Type 0 where
  make :
      (f : Role)
      → s.phases accept_side ≡ making f
      → (s.fifos f).named ≡ false
      → Step s (record s {
        phases = put s.phases accept_side (after_making f);
        fifos = put s.fifos f (set_name (s.fifos f) true);
      })
  -- open() of a name that is there
  call_open :
      (r f : Role)
      → s.phases r ≡ opening f
      → s.ends f r ≡ unopened
      → (s.fifos f).named ≡ true
      → Step s (record s { ends = put_end s.ends f r waiting })
  -- it returns when the other process has opened the FIFO or is in open() too
  return_open :
      (r f : Role)
      → s.phases r ≡ opening f
      → s.ends f r ≡ waiting
      → has_opened (s.ends f (other r)) ≡ true
      → Step s (record s {
        phases = put s.phases r (after_opening f);
        ends = put_end s.ends f r open_end;
      })
  -- the end of the FIFO's bytes is seen when its writer has closed it
  read_byte :
      (r : Role) {x : ℕ} {rest : List ℕ}
      → threads_run (s.phases r) ≡ true
      → (s.receivers r).pc ≡ ReceiverPc.receiving
      → (s.fifos r).bytes ≡ x ∷ rest
      → Step s (record (received s r (ReceiverEvent.got x)) {
        fifos = put s.fifos r (pass (s.fifos r) x rest);
      })
  read_end :
      (r : Role)
      → threads_run (s.phases r) ≡ true
      → (s.receivers r).pc ≡ ReceiverPc.receiving
      → (s.fifos r).bytes ≡ []
      → s.ends r (other r) ≡ closed_end
      → Step s (received s r ReceiverEvent.closed)
  receiver_moves :
      (r : Role) (e : ReceiverEvent)
      → threads_run (s.phases r) ≡ true
      → no_byte e ≡ true
      → Step s (received s r e)
  -- write() takes bytes while the FIFO has a reader
  write_bytes :
      (r : Role) (n : ℕ) {k : ℕ}
      → threads_run (s.phases r) ≡ true
      → (s.senders r).pc ≡ SenderPc.sending k
      → k + n ≤ length (s.senders r).msg
      → present (s.ends (other r) (other r)) ≡ true
      → Step s (record (sent s r (SenderEvent.took n)) {
        fifos = put s.fifos (other r) (
            set_bytes
              (s.fifos (other r))
              ((s.fifos (other r)).bytes ++ take n (drop k (s.senders r).msg)));
      })
  sender_moves :
      (r : Role) (e : SenderEvent)
      → threads_run (s.phases r) ≡ true
      → no_write e ≡ true
      → Step s (sent s r e)
  join_receiver :
      (r : Role)
      → s.phases r ≡ joining_receiver
      → (s.receivers r).pc ≡ ReceiverPc.ended
      → Step s (set_phase s r joining_sender)
  join_sender :
      (r : Role)
      → s.phases r ≡ joining_sender
      → (s.senders r).pc ≡ SenderPc.sender_ended
      → Step s (set_phase s r closing_send)
  close_send :
      (r : Role)
      → s.phases r ≡ closing_send
      → Step s (record (set_phase s r closing_recv) { ends = close_end s.ends (other r) r })
  close_recv :
      (r : Role)
      → s.phases r ≡ closing_recv
      → Step s (record (set_phase s r (after_closing r)) { ends = close_end s.ends r r })
  unlink :
      (f : Role)
      → s.phases accept_side ≡ unlinking f
      → Step s (record s {
        phases = put s.phases accept_side (after_unlinking f);
        fifos = put s.fifos f (set_name (s.fifos f) false);
      })
  -- an exit() by ERROR_HELPER in any thread, which closes what is open
  fail :
      (r : Role)
      → runs (s.phases r) ≡ true
      → Step s (record (set_phase s r failed) {
        ends = λ f q. put (s.ends f) r (abandon (s.ends f r)) q;
      })

pub data Reach : System → Type 0 where
  here : Reach init
  then_step : {s t : System} → Reach s → Step s t → Reach t
