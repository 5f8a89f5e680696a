-- ===== src/Chat/Session.antt =====
-- What the sender of chat-socket.c sends for a line, and what the peer's receiver makes of it.
use c_teaching.Prelude.{
  ℕ, ◌+◌, ◌≤◌, ◌<◌, ◌≡◌, refl, ap, sym, ◌∙◌, ltb, if◌then◌else◌, length, take, drop,
  take-append-drop, drop-add, take-all, append_assoc, append-nil, length-drop, Bool, true, false,
  List, [], ◌∷◌, ◌++◌, map, Bool-cases, inl, inr, arith,
}
use c_teaching.Chat.Threads.{
  Sender, SenderPc, prompting, sender_ended, sending, SenderEvent, line, took, send, end_sending,
  selecting, is_close, c_string, buffer_size,
}
use c_teaching.Chat.Receive.{
  IsText, message, message_events, receive_all, receive_all-message, c_string-IsText,
}

pub send_all : Bool → Sender → List SenderEvent → Bool × Sender
send_all stop s [] = (stop, s)
send_all stop s (e ∷ es) = let (stop', s') = send stop s e in send_all stop' s' es

abbrev pub sum : List ℕ → ℕ
sum [] = 0
sum (n ∷ ns) = n + sum ns

-- The sender stands before a send() with `k` bytes of `msg` sent.
abbrev busy : List ℕ → List ℕ → ℕ → Sender
busy msg sent k = record { pc = sending k; msg = msg; sent = sent }

-- The line is out.
abbrev pub done : List ℕ → List ℕ → Bool × Sender
done msg sent = (
  is_close msg,
  record { pc = if is_close msg then sender_ended else prompting; msg = msg; sent = sent },
)

end_sending_lem :
    (msg sent : List ℕ) (pc : SenderPc)
    → end_sending false (record { pc = pc; msg = msg; sent = sent }) ≡ done msg sent
end_sending_lem msg sent pc = elim (Bool-cases (is_close msg)) [
  | inl yes_close ↦ rw yes_close refl
  | inr no_close ↦ rw no_close refl
]

idle-took :
    (b : Bool) (msg sent : List ℕ) (n : ℕ)
    → send b
        (record { pc = if b then sender_ended else prompting; msg = msg; sent = sent })
        (took n)
      ≡ (b, record { pc = if b then sender_ended else prompting; msg = msg; sent = sent })
unfolding send
idle-took true msg sent n = refl
idle-took false msg sent n = refl

-- After the line is out, further counts go unheard.
done-took :
    (msg sent : List ℕ) (ns : List ℕ)
    → send_all (done msg sent).0 (done msg sent).1 (map took ns) ≡ done msg sent
unfolding send_all
done-took msg sent [] = refl
done-took msg sent (n ∷ ns) =
    rw (idle-took (is_close msg) msg sent n, send_all) (done-took msg sent ns)

send-took :
    (msg sent : List ℕ) (k n : ℕ)
    → send false (busy msg sent k) (took n) ≡ (
        if ltb (k + n) (length msg)
        then (false, busy msg (sent ++ take n (drop k msg)) (k + n))
        else done msg (sent ++ take n (drop k msg)))
unfolding send
send-took msg sent k n = elim (Bool-cases (ltb (k + n) (length msg))) [
  | inl more ↦ rw more refl
  | inr last ↦ rw last (end_sending_lem msg (sent ++ take n (drop k msg)) (sending k))
]

-- Counts that add up to the rest of the line send the rest of the line.
busy-took :
    (msg sent : List ℕ) (k : ℕ) (ns : List ℕ)
    → k < length msg
    → k + sum ns ≡ length msg
    → send_all false (busy msg sent k) (map took ns) ≡ done msg (sent ++ drop k msg)
unfolding send_all
busy-took msg sent k [] lt e = absurd (omega arith)
busy-took msg sent k (n ∷ ns) lt e = elim (Bool-cases (ltb (k + n) (length msg))) [
  | inl more ↦
      rw (send-took msg sent k n, send_all, more)
        (busy-took msg (sent ++ take n (drop k msg)) (k + n) ns (ground arith) (omega arith)
          ∙ ap (done msg) (rejoin msg sent k n))
  | inr last ↦
      rw (send-took msg sent k n, send_all, last)
        (done-took msg (sent ++ take n (drop k msg)) ns
          ∙ ap (λ l. done msg (sent ++ l)) (take-rest msg k n (ground arith)))
]
  where
    rejoin :
        (msg sent : List ℕ) (k n : ℕ)
        → (sent ++ take n (drop k msg)) ++ drop (k + n) msg ≡ sent ++ drop k msg
    rejoin msg sent k n =
        append_assoc sent (take n (drop k msg)) (drop (k + n) msg)
        ∙ ap (λ l. sent ++ (take n (drop k msg) ++ l)) (sym (drop-add k n msg))
        ∙ ap (λ l. sent ++ l) (take-append-drop n (drop k msg))

    take-rest : (msg : List ℕ) (k n : ℕ) → length msg ≤ k + n → take n (drop k msg) ≡ drop k msg
    take-rest msg k n le = take-all n (drop k msg) (omega (arith, length-drop k msg))

send-line :
    (bs msg sent : List ℕ)
    → send false (record { pc = prompting; msg = msg; sent = sent }) (line bs) ≡ (
        if ltb 0 (length (c_string bs))
        then (false, busy (c_string bs) sent 0)
        else done (c_string bs) sent)
unfolding send
send-line bs msg sent = elim (Bool-cases (ltb 0 (length (c_string bs)))) [
  | inl more ↦ rw more refl
  | inr bare ↦ rw bare (end_sending_lem (c_string bs) sent prompting)
]

-- A line that fgets() has read is sent whole, in whatever pieces send() takes it; the session is
-- closed exactly if the line is the close command, and else the sender reads the next line.
pub send_all-line :
    (bs msg sent : List ℕ) (ns : List ℕ)
    → sum ns ≡ length (c_string bs)
    → send_all false (record { pc = prompting; msg = msg; sent = sent }) (line bs ∷ map took ns)
      ≡ done (c_string bs) (sent ++ c_string bs)
unfolding send_all
send_all-line bs msg sent ns e = elim (Bool-cases (ltb 0 (length (c_string bs)))) [
  | inl more ↦
      rw (send-line bs msg sent, send_all, more)
        (busy-took (c_string bs) sent 0 ns (ground arith) (omega arith))
  | inr bare ↦
      rw (send-line bs msg sent, send_all, bare)
        (done-took (c_string bs) sent ns
          ∙ ap (done (c_string bs)) (
              sym (append-nil sent)
              ∙ ap (λ l. sent ++ l) (sym (nothing (c_string bs) (ground arith)))))
]
  where
    nothing : (l : List ℕ) → length l ≡ 0 → l ≡ []
    nothing [] h = refl
    nothing (x ∷ l) h = absurd (omega arith)

-- A short line that is no close command, sent by one side in any pieces, is shown whole by the
-- other; the sender is back at fgets() and the receiver at select(), and shouldStop is 0 on both
-- sides.
pub chat_delivers :
    (body msg b : List ℕ) (shown : List (List ℕ)) (ns : List ℕ)
    → IsText body
    → length body + 1 < buffer_size
    → is_close (message body) ≡ false
    → sum ns ≡ length (message body)
    → let (stop, s) =
        send_all false
          (record { pc = prompting; msg = msg; sent = [] })
          (line (message body) ∷ map took ns) in
      let (stop', r) =
        receive_all false
          (record { pc = selecting; buf = b; shown = shown })
          (message_events s.sent) in
      (stop ≡ false)
      × (s.pc ≡ prompting)
      × (stop' ≡ false)
      × (r.pc ≡ selecting)
      × (r.shown ≡ shown ++ message body ∷ [])
chat_delivers body msg b shown ns text fits other e =
    rw (all_sent, other) (refl, refl, rw shown_all refl, rw shown_all refl, rw shown_all refl)
  where
    all_sent :
        send_all false
          (record { pc = prompting; msg = msg; sent = [] })
          (line (message body) ∷ map took ns)
        ≡ done (message body) (message body)
    all_sent =
        send_all-line (message body) msg [] ns (e ∙ ap length (sym (c_string-IsText body text)))
        ∙ ap (λ l. done l l) (c_string-IsText body text)

    shown_all :
        receive_all false
          (record { pc = selecting; buf = b; shown = shown })
          (message_events (message body))
        ≡ (false, record { pc = selecting; buf = message body; shown = shown ++ message body ∷ [] })
    shown_all = receive_all-message body b shown text fits other
