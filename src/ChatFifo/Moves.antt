-- ===== src/ChatFifo/Moves.antt =====
-- What an event of the receiver shows of what it has read, and one of the sender sends of a line.
use c_teaching.Prelude.{
  ℕ, ◌+◌, ◌≡◌, ◌≢◌, refl, sym, ap, subst, ◌∙◌, ◌==◌, ltb, leb, if◌then◌else◌, length, take, drop,
  take-append-drop, join, join-snoc, append-nil, Bool, true, false, Bool-cases, inl, inr, List, [],
  ◌∷◌, ◌++◌, arith,
}
use c_teaching.Sys.{Errno}
use c_teaching.Chat.Threads.{
  Receiver, ReceiverPc, selecting, receiving, ended, exited, overflow, ReceiverEvent, got, Sender,
  SenderPc, prompting, sending, SenderEvent, line, took, receive, send, put_byte, is_close,
  c_string, buffer_size, newline, send_rest,
}
use c_teaching.ChatFifo.{sent, no_write}

abbrev pub NoZero : List ℕ → Type 0
NoZero [] = Unit {0}
NoZero (x ∷ xs) = (x ≢ 0) × NoZero xs

pub NoZero-append : (xs ys : List ℕ) → NoZero xs → NoZero ys → NoZero (xs ++ ys)
NoZero-append [] ys a b = b
NoZero-append (x ∷ xs) ys a b = (a.0, NoZero-append xs ys a.1 b)

pub NoZero-left : (xs ys : List ℕ) → NoZero (xs ++ ys) → NoZero xs
NoZero-left [] ys h = tt
NoZero-left (x ∷ xs) ys h = (h.0, NoZero-left xs ys h.1)

pub NoZero-right : (xs ys : List ℕ) → NoZero (xs ++ ys) → NoZero ys
NoZero-right [] ys h = h
NoZero-right (x ∷ xs) ys h = NoZero-right xs ys h.1

pub NoZero-take : (n : ℕ) (xs : List ℕ) → NoZero xs → NoZero (take n xs)
NoZero-take n xs h = NoZero-left (take n xs) (drop n xs) (rw (take-append-drop n xs) h)

pub NoZero-drop : (n : ℕ) (xs : List ℕ) → NoZero xs → NoZero (drop n xs)
NoZero-drop n xs h = NoZero-right (take n xs) (drop n xs) (rw (take-append-drop n xs) h)

c_string-NoZero : (xs : List ℕ) → NoZero (c_string xs)
c_string-NoZero [] = tt
c_string-NoZero (x ∷ xs) = elim (Bool-cases (x == 0)) [
  | inl e ↦ rw e tt
  | inr ne ↦ rw ne (ground arith, c_string-NoZero xs)
]

c_string_whole : (xs : List ℕ) → NoZero xs → c_string xs ≡ xs
c_string_whole [] h = refl
c_string_whole (x ∷ xs) h = elim (Bool-cases (x == 0)) [
  | inl e ↦ absurd (ground (arith, h.0))
  | inr ne ↦ rw ne (ap (λ l. x ∷ l) (c_string_whole xs h.1))
]

-- The messages shown and the one in the buffer are what has been read.
abbrev pub Shown : ReceiverPc → List ℕ → List (List ℕ) → List ℕ → Type 0
Shown selecting buf shown passed = join shown ≡ passed
Shown receiving buf shown passed = join shown ++ buf ≡ passed
Shown _ buf shown passed = (rest : List ℕ) × (join shown ++ rest ≡ passed)

-- Back to the loop's head.
head-Shown :
    (stop : Bool) (buf : List ℕ) (shown : List (List ℕ)) (passed : List ℕ)
    → join shown ≡ passed
    → Shown (if stop then ended else selecting) buf shown passed
head-Shown true buf shown passed h = ([], append-nil _ ∙ h)
head-Shown false buf shown passed h = h

put_byte-Shown :
    (stop : Bool) (r : Receiver) (x : ℕ) (passed : List ℕ)
    → r.pc ≡ receiving
    → NoZero (r.buf ++ x ∷ [])
    → join r.shown ++ (r.buf ++ x ∷ []) ≡ passed
    → let r' = (put_byte stop r x).1 in Shown r'.pc r'.buf r'.shown passed
put_byte-Shown stop r x passed at text h = elim (Bool-cases (leb buffer_size (length r.buf))) [
  | inl full ↦ rw full (_, h)
  | inr fits ↦ rw fits (elim (Bool-cases (x == newline)) [
    | inr more ↦ rw more (subst (λ pc. Shown pc (r.buf ++ x ∷ []) r.shown passed) (sym at) h)
    | inl last ↦ rw last (elim (Bool-cases (is_close (r.buf ++ x ∷ []))) [
      | inl bye ↦ rw bye (_, h)
      | inr message ↦ rw message (elim (Bool-cases (ltb (length (r.buf ++ x ∷ [])) buffer_size)) [
        | inl room ↦ rw room (
            head-Shown stop _ _ passed
              (join-snoc r.shown _ ∙ ap (λ l. join r.shown ++ l) (c_string_whole _ text) ∙ h))
        | inr none ↦ rw none (_, h)
      ])
    ])
  ])
]

abbrev pub is_got : ReceiverEvent → Bool
is_got (got x) = true
is_got _ = false

-- Any other event reads nothing.
pub receive-Shown :
    (stop : Bool) (pc : ReceiverPc) (buf : List ℕ) (shown : List (List ℕ)) (passed : List ℕ)
    (e : ReceiverEvent)
    → is_got e ≡ false
    → Shown pc buf shown passed
    → let r' = (receive stop (record { pc = pc; buf = buf; shown = shown }) e).1 in
      Shown r'.pc r'.buf r'.shown passed
unfolding receive
receive-Shown stop pc buf shown passed (got x) e h = cc
receive-Shown stop selecting buf shown passed ReceiverEvent.ready e h = append-nil _ ∙ h
receive-Shown stop selecting buf shown passed ReceiverEvent.timeout e h =
    head-Shown stop buf shown passed h
receive-Shown stop selecting buf shown passed (ReceiverEvent.select_fails Errno.eintr) e h =
    head-Shown stop buf shown passed h
receive-Shown stop selecting buf shown passed (ReceiverEvent.select_fails er) e h =
    ([], append-nil _ ∙ h)
receive-Shown stop selecting buf shown passed ev e h = h
receive-Shown stop receiving buf shown passed ReceiverEvent.closed e h = (buf, h)
receive-Shown stop receiving buf shown passed (ReceiverEvent.recv_fails Errno.eintr) e h = h
receive-Shown stop receiving buf shown passed (ReceiverEvent.recv_fails er) e h = (buf, h)
receive-Shown stop receiving buf shown passed ev e h = h
receive-Shown stop ended buf shown passed ev e h = h
receive-Shown stop exited buf shown passed ev e h = h
receive-Shown stop overflow buf shown passed ev e h = h

-- A byte is read.
pub got-Shown :
    (stop : Bool) (pc : ReceiverPc) (buf : List ℕ) (shown : List (List ℕ)) (x : ℕ) (passed : List ℕ)
    → pc ≡ receiving
    → NoZero (buf ++ x ∷ [])
    → join shown ++ (buf ++ x ∷ []) ≡ passed
    → let r' = (receive stop (record { pc = pc; buf = buf; shown = shown }) (got x)).1 in
      Shown r'.pc r'.buf r'.shown passed
unfolding receive
got-Shown stop receiving buf shown x passed at text h =
    put_byte-Shown stop (record { pc = receiving; buf = buf; shown = shown }) x passed at text h
got-Shown stop selecting buf shown x passed at text h = cc
got-Shown stop ended buf shown x passed at text h = cc
got-Shown stop exited buf shown x passed at text h = cc
got-Shown stop overflow buf shown x passed at text h = cc

-- The loop of a line's write() calls.
send_rest_keeps :
    (stop : Bool) (sd : Sender) (k : ℕ)
    → let sd' = (send_rest stop sd k).1 in (sd'.sent ≡ sd.sent) × (sd'.msg ≡ sd.msg)
send_rest_keeps stop sd k = elim (Bool-cases (ltb k (length sd.msg))) [
  | inl more ↦ rw more (refl, refl)
  | inr over ↦ rw over (elim (Bool-cases (is_close sd.msg)) [
    | inl bye ↦ rw bye (refl, refl)
    | inr message ↦ rw message (refl, refl)
  ])
]

-- An event that is no write() sends nothing, and a new line is a C string.
pub send_quiet :
    (stop : Bool) (pc : SenderPc) (msg sent : List ℕ) (e : SenderEvent)
    → no_write e ≡ true
    → NoZero msg
    → let sd' = (send stop (record { pc = pc; msg = msg; sent = sent }) e).1 in
      (sd'.sent ≡ sent) × NoZero sd'.msg
unfolding send
send_quiet stop pc msg sent (took n) quiet h = cc
send_quiet true prompting msg sent (line bs) quiet h = (refl, h)
send_quiet false prompting msg sent (line bs) quiet h =
    let (same_sent, same_msg) =
      send_rest_keeps false (record { pc = prompting; msg = c_string bs; sent = sent }) 0 in
    (same_sent, subst NoZero (sym same_msg) (c_string-NoZero bs))
send_quiet stop prompting msg sent e quiet h = (refl, h)
send_quiet stop (sending k) msg sent (SenderEvent.send_fails Errno.eintr) quiet h = (refl, h)
send_quiet stop (sending k) msg sent e quiet h = (refl, h)
send_quiet stop pc msg sent e quiet h = (refl, h)

-- A write() sends bytes of the line.
pub send_takes :
    (stop : Bool) (pc : SenderPc) (msg sent : List ℕ) (n : ℕ) {k : ℕ}
    → pc ≡ sending k
    → let sd' = (send stop (record { pc = pc; msg = msg; sent = sent }) (took n)).1 in
      (sd'.sent ≡ sent ++ take n (drop k msg)) × (sd'.msg ≡ msg)
unfolding send
send_takes stop pc msg sent n {k} at = rw at (
    send_rest_keeps stop (record { pc = sending k; msg = msg; sent = sent ++ take n (drop k msg) })
      (k + n))
