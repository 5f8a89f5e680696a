-- ===== src/EchoLog/Handler/Logged.antt =====
-- What a handler of echo_server_mt_logger.c logs.
use c_teaching.Prelude.{
  ℕ, ◌+◌, ◌<◌, ◌≡◌, ◌≢◌, refl, sym, ap, ◌∙◌, ltb, ◌==◌, if◌then◌else◌, length, append-nil, Bool,
  true, false, List, [], ◌∷◌, ◌++◌, Bool-cases, inl, inr, arith,
}
use c_teaching.Sys.{Errno, eintr, Reply, ok, bytes, fail}
use c_teaching.Limited.Handler.{is_quit, advance}
use c_teaching.EchoLog.Handler.{
  send, Texts, Handler, Pc, welcoming, receiving, logging, echoing, closing, logging_end, returned,
  exited, overrun, log_message, step, start_handler, Possible, default_buffer_size,
}

-- The messages received, the last one first.
abbrev pub receive : Pc → Reply → List (List ℕ) → List (List ℕ)
receive receiving (bytes (x ∷ xs)) got = (x ∷ xs) ∷ got
receive _ _ got = got

abbrev pub interrupts : Reply → ℕ
interrupts (fail eintr) = 1
interrupts _ = 0

-- A run of one handler, with the messages that it has received and the number of its calls that
-- have failed with EINTR.
pub data Reach (errno : Errno) (t : Texts) : Handler → Pc → List (List ℕ) → ℕ → Type 0 where
  start : Reach errno t (start_handler errno t) (welcoming 0) [] 0
  next :
      {h : Handler} {pc : Pc} {got : List (List ℕ)} {k : ℕ} (r : Reply)
      → Reach errno t h pc got k
      → Possible h pc r
      → Reach errno t (step t h pc r).0 (step t h pc r).1 (receive pc r got) (interrupts r + k)

-- A log message for each of them, in order.
abbrev pub log_messages : Texts → List (List ℕ) → List (List ℕ)
log_messages t [] = []
log_messages t (m ∷ got) = log_messages t got ++ log_message t m ∷ []

-- The call of my_log that comes next.
abbrev pub due : Texts → Handler → Pc → List (List ℕ)
due t h logging = log_message t h.io.buf ∷ []
due _ _ _ = []

abbrev pub ending : Texts → Pc → List (List ℕ)
ending t returned = t.completed ∷ []
ending _ _ = []

-- All the messages fit the buffer with a terminator.
abbrev pub Short : List (List ℕ) → Type 0
Short [] = Unit {0}
Short (m ∷ got) = (length m < default_buffer_size) × Short got

abbrev pub runs_on : Pc → Bool
runs_on exited = false
runs_on _ = true

abbrev Accounts : Texts → Handler → Pc → List (List ℕ) → Type 0
Accounts t h exited got = Unit {0}
Accounts t h overrun got = Short got → ⊥
Accounts t h pc got = h.logged ++ due t h pc ≡ log_messages t got ++ ending t pc

-- Nothing is due in a sending loop nor after it.
module _ (t : Texts) (h : Handler) (got : List (List ℕ)) (more : Bool) where
  after_send :
      (loop : Pc)
      → (h.logged ++ [] ≡ log_messages t got ++ [] → Accounts t h loop got)
      → h.logged ++ [] ≡ log_messages t got ++ []
      → Accounts t h (if more then loop else receiving) got
  after_send loop keep acc = elim (Bool-cases more) [ inl e ↦ rw e (keep acc) | inr e ↦ rw e acc ]

step-Accounts :
    (t : Texts) (h : Handler) (pc : Pc) (r : Reply) (got : List (List ℕ))
    → Accounts t h pc got
    → Possible h pc r
    → Accounts t (step t h pc r).0 (step t h pc r).1 (receive pc r got)
unfolding step
step-Accounts t h (welcoming sent) (ok n) got acc p =
    after_send t (send h sent n) got (ltb (advance h.io sent n) (length h.io.buf))
      (welcoming (advance h.io sent n)) (λ a. a) acc
step-Accounts t h (welcoming sent) (fail e) got acc p = tt
step-Accounts t h receiving (bytes []) got acc p = tt
step-Accounts t h receiving (bytes (x ∷ xs)) got acc p =
    elim (Bool-cases (length (x ∷ xs) == default_buffer_size)) [
      | inl full ↦ rw full (λ short. absurd (ground (arith, short.0)))
      | inr fits ↦ rw fits (
          ap (λ l. l ++ log_message t (x ∷ xs) ∷ [])
            (sym (append-nil h.logged) ∙ acc ∙ append-nil (log_messages t got))
          ∙ sym (append-nil _))
    ]
step-Accounts t h receiving (fail eintr) got acc p = acc
step-Accounts t h receiving (fail e) got acc p = tt
step-Accounts t h logging (ok n) got acc p = elim (Bool-cases (is_quit h.io.buf)) [
  | inl quit ↦ rw quit (append-nil _ ∙ acc)
  | inr other ↦ rw other (append-nil _ ∙ acc)
]
step-Accounts t h logging (fail e) got acc p = tt
step-Accounts t h (echoing sent) (ok n) got acc p =
    after_send t (send h sent n) got (ltb (advance h.io sent n) (length h.io.buf))
      (echoing (advance h.io sent n)) (λ a. a) acc
step-Accounts t h (echoing sent) (fail e) got acc p = tt
step-Accounts t h closing (ok n) got acc p = acc
step-Accounts t h closing (fail e) got acc p = tt
step-Accounts t h logging_end (ok n) got acc p =
    append-nil _
    ∙ ap (λ l. l ++ t.completed ∷ [])
        (sym (append-nil h.logged) ∙ acc ∙ append-nil (log_messages t got))
step-Accounts t h logging_end (fail e) got acc p = tt
step-Accounts t h pc r got acc p = elim p [ ]

Reach-Accounts :
    {errno : Errno} {t : Texts} {h : Handler} {pc : Pc} {got : List (List ℕ)} {k : ℕ}
    → Reach errno t h pc got k
    → Accounts t h pc got
Reach-Accounts start = refl
Reach-Accounts {t} (next {h} {pc} {got} r before p) =
    step-Accounts t h pc r got (Reach-Accounts before) p

logged_at :
    (t : Texts) (h : Handler) (pc : Pc) (got : List (List ℕ))
    → Short got
    → runs_on pc ≡ true
    → Accounts t h pc got
    → (pc ≢ overrun) × (h.logged ++ due t h pc ≡ log_messages t got ++ ending t pc)
logged_at t h exited got short up acc = absurd (ground (arith, up))
logged_at t h overrun got short up acc = elim (acc short) [ ]
logged_at t h pc got short up acc = (λ e. cc, acc)

-- If every message that recv() has given is shorter than the buffer and no exit() has ended the
-- process, the handler has written nothing past the end of buf, and it has logged one message for
-- each received one, in order, the present one being due before it is echoed or obeyed, and the
-- message of its end when it has returned.
pub handler-logged :
    {errno : Errno} {t : Texts} {h : Handler} {pc : Pc} {got : List (List ℕ)} {k : ℕ}
    → Reach errno t h pc got k
    → Short got
    → runs_on pc ≡ true
    → (pc ≢ overrun) × (h.logged ++ due t h pc ≡ log_messages t got ++ ending t pc)
handler-logged {t} {h} {pc} {got} r short up = logged_at t h pc got short up (Reach-Accounts r)
