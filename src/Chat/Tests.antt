-- ===== src/Chat/Tests.antt =====
-- The theorems on chat-socket.c at concrete messages.
use c_teaching.Prelude.{
  ℕ, zero, suc, ◌≡◌, refl, replicate, length-replicate, false, List, [], ◌∷◌, ◌++◌, map, arith,
}
use c_teaching.Chat.Threads.{Sender, prompting, line, took, Receiver, selecting, overflow}
use c_teaching.Chat.Receive.{
  receive_all, IsText, NoNewline, message, message_events, receive_all-overflow,
}
use c_teaching.Chat.Session.{send_all, chat_delivers}

abbrev hello : List ℕ
hello = b'h' ∷ b'i' ∷ []

hello-IsText : IsText hello
hello-IsText = (omega arith, omega arith, (omega arith, omega arith, tt))

abbrev idle_receiver : Receiver
idle_receiver = record { pc = selecting; buf = []; shown = [] }

abbrev idle_sender : Sender
idle_sender = record { pc = prompting; msg = []; sent = [] }

NoNewline-replicate : (n : ℕ) → NoNewline (replicate n 65)
NoNewline-replicate zero = tt
NoNewline-replicate (suc n) = (omega arith, NoNewline-replicate n)

receive_all-overflow_example :
    (receive_all false idle_receiver (message_events (message (replicate 1023 65)))).1.pc ≡ overflow
receive_all-overflow_example =
    receive_all-overflow (replicate 1023 65) [] [] (NoNewline-replicate 1023)
      (omega (arith, length-replicate {A = ℕ} 1023 65))

chat_delivers_example :
    let (stop, s) = send_all false idle_sender (line (message hello) ∷ map took (2 ∷ 1 ∷ [])) in
    let (stop', r) = receive_all false idle_receiver (message_events s.sent) in
    (stop ≡ false)
    × (s.pc ≡ prompting)
    × (stop' ≡ false)
    × (r.pc ≡ selecting)
    × (r.shown ≡ [] ++ message hello ∷ [])
chat_delivers_example =
    chat_delivers hello [] [] [] (2 ∷ 1 ∷ []) hello-IsText (omega arith) refl refl
