-- ===== src/EchoFifo/Correct.antt =====
-- What a client of echo.c reads from the Echo FIFO.
use c_teaching.Prelude.{
  ℕ, ◌+◌, ◌-◌, ◌≤◌, ◌≡◌, refl, sym, ap, ◌∙◌, ltb, if◌then◌else◌, length, take, drop, write_moves,
  drop-all, append-nil, append_assoc, Bool, true, false, List, [], ◌∷◌, ◌++◌, Bool-cases, inl, inr,
  arith,
}
use c_teaching.Sys.{eintr, Reply, ok, bytes, fail}
use c_teaching.EchoFifo.{
  close_echo, close_client, unlink_echo, unlink_client, Pc, welcoming, reading, echoing, cleaning,
  ended, failed, State, is_quit, write_bytes, step, opened, Possible,
}

-- The bytes of a read() that have to be echoed.
abbrev pub to_echo : Pc → Reply → List ℕ
to_echo reading (bytes bs) = if is_quit bs then [] else bs
to_echo _ _ = []

-- A run after the message `welcome`; `got` is all that has to be echoed so far.
pub data Reach (welcome : List ℕ) : State → Pc → List ℕ → Type 0 where
  start : Reach welcome (opened welcome) (welcoming 0 (length welcome)) []
  next :
      {s : State} {pc : Pc} {got : List ℕ} (r : Reply)
      → Reach welcome s pc got
      → Possible s pc r
      → Reach welcome (step s pc r).0 (step s pc r).1 (got ++ to_echo pc r)

-- Whether cleanFIFOs has still to remove a name.
abbrev pub has_echo : Pc → Bool
has_echo (cleaning unlink_client _) = false
has_echo (ended _) = false
has_echo _ = true

abbrev pub has_client : Pc → Bool
has_client (ended _) = false
has_client _ = true

abbrev Names : State → Pc → Type 0
Names s failed = Unit {0}
Names s pc = (s.echo_fifo ≡ has_echo pc) × (s.client_fifo ≡ has_client pc)

-- Everything is sent but what the writing loop has left.
abbrev Accounts : List ℕ → State → Pc → Type 0
Accounts all s (welcoming sent left) =
    (s.out ++ drop sent s.buf ≡ all) × (sent + left ≡ length s.buf)
Accounts all s (echoing sent left) = (s.out ++ drop sent s.buf ≡ all) × (sent + left ≡ length s.buf)
Accounts all s failed = Unit {0}
Accounts all s pc = s.out ≡ all

module _ (loop : ℕ → ℕ → Pc) (all : List ℕ) where
  -- Lemma for both writing loops.
  wrote-Accounts :
      ((s : State) (k left : ℕ)
        → (s.out ++ drop k s.buf ≡ all) × (k + left ≡ length s.buf)
        → Accounts all s (loop k left))
      → (s : State) (sent left n : ℕ)
      → (s.out ++ drop sent s.buf ≡ all) × (sent + left ≡ length s.buf)
      → n ≤ left
      → Accounts all
          (write_bytes s sent n)
          (if ltb 0 (left - n) then loop (sent + n) (left - n) else reading)
  wrote-Accounts keep s sent left n acc le = elim (Bool-cases (ltb 0 (left - n))) [
    | inl more ↦
        rw more
          (keep (write_bytes s sent n) (sent + n) (left - n) (moves, omega (arith, acc.1, le)))
    | inr last ↦
        rw last
          (sym (append-nil _) ∙ rw (drop-all (sent + n) s.buf (ground (arith, acc.1, le))) at moves)
  ]
    where
      moves : (s.out ++ take n (drop sent s.buf)) ++ drop (sent + n) s.buf ≡ all
      moves =
          ap (λ l. (s.out ++ take n (drop sent s.buf)) ++ l)
            (sym (append-nil (drop (sent + n) s.buf)))
          ∙ write_moves s.out s.buf [] all sent n
              (ap (λ l. s.out ++ l) (append-nil (drop sent s.buf)) ∙ acc.0)

step-Accounts :
    (s : State) (pc : Pc) (r : Reply) (all : List ℕ)
    → Accounts all s pc
    → Possible s pc r
    → Accounts (all ++ to_echo pc r) (step s pc r).0 (step s pc r).1
unfolding step
step-Accounts s (welcoming sent left) (ok n) all acc p =
    rw (append-nil all) (wrote-Accounts welcoming all (λ s k l a. a) s sent left n acc p)
step-Accounts s (welcoming sent left) (fail eintr) all acc p = rw (append-nil all) acc
step-Accounts s (welcoming sent left) (fail e) all acc p = tt
step-Accounts s reading (bytes []) all acc p = rw (append-nil all) acc
step-Accounts s reading (bytes (x ∷ xs)) all acc p = elim (Bool-cases (is_quit (x ∷ xs))) [
  | inl quit ↦ rw (quit, append-nil all) acc
  | inr other ↦ rw other (ap (λ l. l ++ x ∷ xs) acc, omega arith)
]
step-Accounts s reading (fail eintr) all acc p = rw (append-nil all) acc
step-Accounts s reading (fail e) all acc p = tt
step-Accounts s (echoing sent left) (ok n) all acc p =
    rw (append-nil all) (wrote-Accounts echoing all (λ s k l a. a) s sent left n acc p)
step-Accounts s (echoing sent left) (fail eintr) all acc p = rw (append-nil all) acc
step-Accounts s (echoing sent left) (fail e) all acc p = tt
step-Accounts s (cleaning close_echo b) (ok n) all acc p = rw (append-nil all) acc
step-Accounts s (cleaning close_client b) (ok n) all acc p = rw (append-nil all) acc
step-Accounts s (cleaning unlink_echo b) (ok n) all acc p = rw (append-nil all) acc
step-Accounts s (cleaning unlink_client b) (ok n) all acc p = rw (append-nil all) acc
step-Accounts s (cleaning c b) (fail e) all acc p = tt
step-Accounts s pc r all acc p = elim p [ ]

Reach-Accounts :
    {welcome : List ℕ} {s : State} {pc : Pc} {got : List ℕ}
    → Reach welcome s pc got
    → Accounts (welcome ++ got) s pc
Reach-Accounts {welcome} start = (sym (append-nil welcome), omega arith)
Reach-Accounts {welcome} (next {s} {pc} {got} r before p) =
    rw (sym (append_assoc welcome got (to_echo pc r)))
      (step-Accounts s pc r (welcome ++ got) (Reach-Accounts before) p)

loop-Names :
    (s : State) (more : Bool) (loop : Pc)
    → Names s loop
    → Names s reading
    → Names s (if more then loop else reading)
loop-Names s more loop a b = elim (Bool-cases more) [ inl e ↦ rw e a | inr e ↦ rw e b ]

step-Names :
    (s : State) (pc : Pc) (r : Reply)
    → Names s pc
    → Possible s pc r
    → Names (step s pc r).0 (step s pc r).1
unfolding step
step-Names s (welcoming sent left) (ok n) names p =
    loop-Names (write_bytes s sent n) (ltb 0 (left - n)) (welcoming (sent + n) (left - n)) names
      names
step-Names s (welcoming sent left) (fail eintr) names p = names
step-Names s (welcoming sent left) (fail e) names p = tt
step-Names s reading (bytes []) names p = names
step-Names s reading (bytes (x ∷ xs)) names p = elim (Bool-cases (is_quit (x ∷ xs))) [
  | inl quit ↦ rw quit names
  | inr other ↦ rw other names
]
step-Names s reading (fail eintr) names p = names
step-Names s reading (fail e) names p = tt
step-Names s (echoing sent left) (ok n) names p =
    loop-Names (write_bytes s sent n) (ltb 0 (left - n)) (echoing (sent + n) (left - n)) names names
step-Names s (echoing sent left) (fail eintr) names p = names
step-Names s (echoing sent left) (fail e) names p = tt
step-Names s (cleaning close_echo b) (ok n) names p = names
step-Names s (cleaning close_client b) (ok n) names p = names
step-Names s (cleaning unlink_echo b) (ok n) names p = (refl, names.1)
step-Names s (cleaning unlink_client b) (ok n) names p = (names.0, refl)
step-Names s (cleaning c b) (fail e) names p = tt
step-Names s pc r names p = elim p [ ]

Reach-Names :
    {welcome : List ℕ} {s : State} {pc : Pc} {got : List ℕ} → Reach welcome s pc got → Names s pc
Reach-Names start = (refl, refl)
Reach-Names (next {s} {pc} r before p) = step-Names s pc r (Reach-Names before) p

-- The process waits for a message, or is past its loop by no failed call.
abbrev pub settled : Pc → Bool
settled reading = true
settled (cleaning c b) = true
settled (ended b) = true
settled _ = false

served :
    (all : List ℕ) (s : State) (pc : Pc)
    → settled pc ≡ true
    → Accounts all s pc
    → Names s pc
    → (s.out ≡ all) × (s.echo_fifo ≡ has_echo pc) × (s.client_fifo ≡ has_client pc)
served all s (welcoming a b) e acc names = absurd (ground (arith, e))
served all s (echoing a b) e acc names = absurd (ground (arith, e))
served all s failed e acc names = absurd (ground (arith, e))
served all s pc e acc names = (acc, names.0, names.1)

-- Whenever the process waits for a message, and while it cleans up and at its end, whatever calls
-- were interrupted and however write() has cut the bytes up, it has written exactly the welcome
-- message and then every byte read but those of QUIT, in order, and the names of the two FIFOs
-- are in the file system up to the unlink() of each, and at the end neither is.
pub echo-out :
    {welcome : List ℕ} {s : State} {pc : Pc} {got : List ℕ}
    → Reach welcome s pc got
    → settled pc ≡ true
    → (s.out ≡ welcome ++ got) × (s.echo_fifo ≡ has_echo pc) × (s.client_fifo ≡ has_client pc)
echo-out {welcome} {s} {pc} {got} r e =
    served (welcome ++ got) s pc e (Reach-Accounts r) (Reach-Names r)
