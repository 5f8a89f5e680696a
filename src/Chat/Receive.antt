-- ===== src/Chat/Receive.antt =====
-- What the receiver of chat-socket.c shows for a stream of bytes.
use c_teaching.Prelude.{
  ℕ, ◌+◌, ◌≤◌, ◌<◌, ◌≡◌, ◌≢◌, refl, ap, sym, ◌∙◌, ltb, leb, length, append_assoc, append-nil,
  length-append, Bool, true, false, List, [], ◌∷◌, ◌++◌, map, map-append, arith, dec_lt,
}
use c_teaching.Chat.Threads.{
  Receiver, selecting, receiving, overflow, ReceiverEvent, ready, got, receive, newline, is_close,
  c_string, buffer_size,
}

-- The receiver after a list of events, and the flag.
pub receive_all : Bool → Receiver → List ReceiverEvent → Bool × Receiver
receive_all stop r [] = (stop, r)
receive_all stop r (e ∷ es) = let (stop', r') = receive stop r e in receive_all stop' r' es

-- No byte ends the message, and none is a C string's terminator.
abbrev pub IsText : List ℕ → Type 0
IsText [] = Unit {0}
IsText (x ∷ xs) = (x ≢ newline) × (x ≢ 0) × IsText xs

abbrev pub NoNewline : List ℕ → Type 0
NoNewline [] = Unit {0}
NoNewline (x ∷ xs) = (x ≢ newline) × NoNewline xs

IsText-NoNewline : (xs : List ℕ) → IsText xs → NoNewline xs
IsText-NoNewline [] h = tt
IsText-NoNewline (x ∷ xs) h = (h.0, IsText-NoNewline xs h.2)

pub c_string-IsText : (xs : List ℕ) → IsText xs → c_string (xs ++ newline ∷ []) ≡ xs ++ newline ∷ []
c_string-IsText [] h = refl
c_string-IsText (x ∷ xs) h = ground (arith, c_string-IsText xs)

abbrev reading : List ℕ → List (List ℕ) → Receiver
reading buf shown = record { pc = receiving; buf = buf; shown = shown }

-- A byte that fits and ends nothing is kept.
receive-got :
    (stop : Bool) (b : List ℕ) (shown : List (List ℕ)) (x : ℕ)
    → x ≢ newline
    → length b < buffer_size
    → receive stop (reading b shown) (got x) ≡ (stop, reading (b ++ x ∷ []) shown)
unfolding receive
receive-got stop b shown x ne fits = ground arith

receive_all-got :
    (stop : Bool) (xs b : List ℕ) (shown : List (List ℕ)) (es : List ReceiverEvent)
    → NoNewline xs
    → length b + length xs ≤ buffer_size
    → receive_all stop (reading b shown) (map got xs ++ es)
      ≡ receive_all stop (reading (b ++ xs) shown) es
unfolding receive_all
receive_all-got stop [] b shown es h fits =
    ap (λ l. receive_all stop (reading l shown) es) (sym (append-nil b))
receive_all-got stop (x ∷ xs) b shown es h fits =
    rw (receive-got stop b shown x h.0 (omega arith), receive_all)
      (receive_all-got stop xs (b ++ x ∷ []) shown es h.1 (omega (arith, length-append b (x ∷ [])))
        ∙ ap (λ l. receive_all stop (reading l shown) es) (append_assoc b (x ∷ []) xs))

abbrev pub message : List ℕ → List ℕ
message body = body ++ newline ∷ []

-- The events of a message that comes whole.
abbrev pub message_events : List ℕ → List ReceiverEvent
message_events bs = ready ∷ map got bs

-- The newline of a message that fits is the last byte before its 0.
receive-newline :
    (b : List ℕ) (shown : List (List ℕ))
    → length b + 1 < buffer_size
    → is_close (message b) ≡ false
    → c_string (message b) ≡ message b
    → receive false (reading b shown) (got newline)
      ≡ (false, record { pc = selecting; buf = message b; shown = shown ++ message b ∷ [] })
unfolding receive
receive-newline b shown fits other text =
    rw (short, other, room)
      (ap (λ l. (false, record { pc = selecting; buf = message b; shown = shown ++ l ∷ [] })) text)
  where
    short : leb buffer_size (length b) ≡ false
    short = ground arith

    room : ltb (length (message b)) buffer_size ≡ true
    room = ground (arith, length-append b (newline ∷ []))

receive-ready :
    (b : List ℕ) (shown : List (List ℕ))
    → receive false (record { pc = selecting; buf = b; shown = shown }) ready
      ≡ (false, reading [] shown)
unfolding receive
receive-ready b shown = refl

-- A message of at most 1022 bytes and its newline, which is not the close command, is shown as it
-- came, and the receiver waits for the next one.
pub receive_all-message :
    (body b : List ℕ) (shown : List (List ℕ))
    → IsText body
    → length body + 1 < buffer_size
    → is_close (message body) ≡ false
    → receive_all false
        (record { pc = selecting; buf = b; shown = shown })
        (message_events (message body))
      ≡ (false, record { pc = selecting; buf = message body; shown = shown ++ message body ∷ [] })
unfolding receive_all
receive_all-message body b shown text fits other =
    rw (receive-ready b shown, receive_all)
      (ap (receive_all false (reading [] shown)) (map-append got body (newline ∷ []))
        ∙ receive_all-got false body [] shown (got newline ∷ []) (IsText-NoNewline body text)
            (omega arith)
        ∙ rw (receive-newline body shown fits other (c_string-IsText body text), receive_all) refl)

abbrev pub AllShort : List (List ℕ) → Type 0
AllShort [] = Unit {0}
AllShort (b ∷ bs) =
    IsText b × (length b + 1 < buffer_size) × (is_close (message b) ≡ false) × AllShort bs

abbrev pub session_events : List (List ℕ) → List ReceiverEvent
session_events [] = []
session_events (b ∷ bs) = message_events (message b) ++ session_events bs

receive_all-append :
    (stop : Bool) (r : Receiver) (es fs : List ReceiverEvent)
    → receive_all stop r (es ++ fs)
      ≡ receive_all (receive_all stop r es).0 (receive_all stop r es).1 fs
unfolding receive_all
receive_all-append stop r [] fs = refl
receive_all-append stop r (e ∷ es) fs =
    receive_all-append (receive stop r e).0 (receive stop r e).1 es fs

-- A session of short messages, none of them the close command, is shown message by message, in
-- order, and leaves the chat open.
pub receive_all-session :
    (bodies : List (List ℕ)) (b : List ℕ) (shown : List (List ℕ))
    → AllShort bodies
    → ((receive_all false
          (record { pc = selecting; buf = b; shown = shown })
          (session_events bodies)).1.shown
        ≡ shown ++ map message bodies)
      × ((receive_all false
            (record { pc = selecting; buf = b; shown = shown })
            (session_events bodies)).0
          ≡ false)
unfolding receive_all
receive_all-session [] b shown h = (sym (append-nil shown), refl)
receive_all-session (x ∷ xs) b shown h =
    rw
      (
        receive_all-append false (record { pc = selecting; buf = b; shown = shown })
            (message_events (message x)) (session_events xs),
        receive_all-message x b shown h.0 h.1 h.2,
      )
      (let (all, open_still) = receive_all-session xs (message x) (shown ++ message x ∷ []) h.3 in
        (all ∙ append_assoc shown (message x ∷ []) (map message xs), open_still))

-- Past the end of the buffer nothing is known any more.
overflow-stays :
    (stop : Bool) (b : List ℕ) (shown : List (List ℕ)) (es : List ReceiverEvent)
    → (receive_all stop (record { pc = overflow; buf = b; shown = shown }) es).1.pc ≡ overflow
unfolding receive_all receive
overflow-stays stop b shown [] = refl
overflow-stays stop b shown (e ∷ es) = overflow-stays stop b shown es

full-overflow :
    (stop : Bool) (b : List ℕ) (shown : List (List ℕ)) (x : ℕ)
    → buffer_size ≤ length b
    → receive stop (reading b shown) (got x)
      ≡ (stop, record { pc = overflow; buf = b; shown = shown })
unfolding receive
full-overflow stop b shown x full = ground arith

-- The terminator does not fit behind a message of the buffer's size.
last-overflow :
    (stop : Bool) (b : List ℕ) (shown : List (List ℕ))
    → length b ≡ 1023
    → (receive stop (reading b shown) (got newline)).1.pc ≡ overflow
unfolding receive
last-overflow stop b shown e = rw (short, long, no_room) refl
  where
    short : leb buffer_size (length b) ≡ false
    short = ground arith

    long : is_close (message b) ≡ false
    long = ground (arith, length-append b (newline ∷ []))

    no_room : ltb (length (message b)) buffer_size ≡ false
    no_room = ground (arith, length-append b (newline ∷ []))

overflows :
    (xs b : List ℕ) (shown : List (List ℕ))
    → NoNewline xs
    → 1023 ≤ length b + length xs
    → (receive_all false (reading b shown) (map got xs ++ got newline ∷ [])).1.pc ≡ overflow
unfolding receive_all
overflows [] b shown h long = elim (dec_lt (length b) 1024) [
  | yes lt ↦ last-overflow false b shown (omega arith)
  | no ge ↦ rw (full-overflow false b shown newline (omega arith)) refl
]
overflows (x ∷ xs) b shown h long = elim (dec_lt (length b) 1024) [
  | yes lt ↦
      rw (receive-got false b shown x h.0 lt, receive_all)
        (overflows xs (b ++ x ∷ []) shown h.1 (omega (arith, length-append b (x ∷ []))))
  | no ge ↦
      rw (full-overflow false b shown x (omega arith), receive_all)
        (overflow-stays false b shown (map got xs ++ got newline ∷ []))
]

-- No bound is checked: a line of 1023 bytes or more and its newline are written past the end of
-- the receiver's buffer.
pub receive_all-overflow :
    (body b : List ℕ) (shown : List (List ℕ))
    → NoNewline body
    → 1023 ≤ length body
    → (receive_all false
        (record { pc = selecting; buf = b; shown = shown })
        (message_events (message body))).1.pc
      ≡ overflow
unfolding receive_all
receive_all-overflow body b shown h long =
    rw (receive-ready b shown, receive_all, map-append got body (newline ∷ []))
      (overflows body [] shown h (omega arith))
