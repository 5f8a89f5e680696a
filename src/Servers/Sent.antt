-- ===== src/Servers/Sent.antt =====
-- What a client of connection_handler is sent.
use c_teaching.Prelude.{
  ℕ, ◌+◌, ◌-◌, ◌≤◌, ◌≡◌, sym, ap, ◌∙◌, if◌then◌else◌, length, take, length-append, length-take,
  take-all, append_assoc, append-nil, Bool, true, false, List, [], ◌++◌, Bool-cases, inl, inr,
  arith,
}
use c_teaching.Sys.{eintr, Reply, ok, bytes, fail}
use c_teaching.Servers.Handler.{Pc, State, is_quit, send_bytes, step, begin, Possible}

-- The bytes of a recv() that have to be echoed.
abbrev pub to_echo : Pc → Reply → List ℕ
to_echo Pc.receiving (bytes bs) = if is_quit bs then [] else bs
to_echo _ _ = []

-- How many bytes a send() has not taken.
abbrev pub shortfall : State → Pc → Reply → ℕ
shortfall s Pc.welcoming (ok n) = length s.buf - n
shortfall s Pc.echoing (ok n) = length s.buf - n
shortfall _ _ _ = 0

-- A run of one handler that begins with the message `welcome`: `got` is all that has to be echoed
-- so far, and `lost` adds up what the calls of send() have not taken.
pub data Reach (welcome : List ℕ) : State → Pc → List ℕ → ℕ → Type 0 where
  start : Reach welcome (begin welcome) Pc.welcoming [] 0
  next :
      {s : State} {pc : Pc} {got : List ℕ} {lost : ℕ} (r : Reply)
      → Reach welcome s pc got lost
      → Possible s pc r
      → Reach welcome
          (step s pc r).0
          (step s pc r).1
          (got ++ to_echo pc r)
          (lost + shortfall s pc r)

-- The bytes that the handler is about to send.
abbrev pub unsent : State → Pc → List ℕ
unsent s Pc.welcoming = s.buf
unsent s Pc.echoing = s.buf
unsent s _ = []

-- `all` is what the client should be sent.
abbrev pub Accounts : List ℕ → ℕ → State → Pc → Type 0
Accounts all lost s Pc.exited = Unit {0}
Accounts all lost s pc =
    (length s.out + length (unsent s pc) + lost ≡ length all)
    × (lost ≡ 0 → s.out ++ unsent s pc ≡ all)

-- A send(), after which the rest of the buffer is forgotten.
sent-Accounts :
    (s : State) (all : List ℕ) (lost n : ℕ)
    → Accounts all lost s Pc.echoing
    → n ≤ length s.buf
    → Accounts (all ++ []) (lost + (length s.buf - n)) (send_bytes s n) Pc.receiving
sent-Accounts s all lost n acc le = rw (append-nil all) (
  omega (arith, acc.0, length-append s.out (take n s.buf), length-take n s.buf),
  λ e.
      append-nil (s.out ++ take n s.buf)
      ∙ ap (λ l. s.out ++ l) (take-all n s.buf (omega arith))
      ∙ acc.1 (omega arith),
)

-- A step that sends nothing and receives nothing.
same-Accounts :
    (all : List ℕ) (lost : ℕ) (s : State) (pc : Pc)
    → Accounts all lost s pc
    → Accounts (all ++ []) (lost + 0) s pc
same-Accounts all lost s pc acc = rw (append-nil all) (subst_lost (zero_right lost))
  where
    zero_right : (lost : ℕ) → lost ≡ lost + 0
    zero_right lost = omega arith

    subst_lost : {k : ℕ} → lost ≡ k → Accounts all k s pc
    subst_lost e = rw e at acc

step-Accounts :
    (s : State) (pc : Pc) (r : Reply) (all : List ℕ) (lost : ℕ)
    → Accounts all lost s pc
    → Possible s pc r
    → Accounts (all ++ to_echo pc r) (lost + shortfall s pc r) (step s pc r).0 (step s pc r).1
unfolding step
step-Accounts s Pc.welcoming (ok n) all lost acc p = sent-Accounts s all lost n acc p.0
step-Accounts s Pc.welcoming (bytes bs) all lost acc p = elim p [ ]
step-Accounts s Pc.welcoming (fail eintr) all lost acc p = same-Accounts all lost s Pc.welcoming acc
step-Accounts s Pc.welcoming (fail e) all lost acc p = tt
step-Accounts s Pc.receiving (ok n) all lost acc p = elim p [ ]
step-Accounts s Pc.receiving (bytes bs) all lost acc p = elim (Bool-cases (is_quit bs)) [
  | inl quit ↦ rw quit (same-Accounts all lost s Pc.receiving acc)
  | inr no_quit ↦ rw no_quit (
    omega (arith, acc.0, length-append all bs),
    λ e. ap (λ l. l ++ bs) (sym (append-nil s.out) ∙ acc.1 (omega arith)),
  )
]
step-Accounts s Pc.receiving (fail eintr) all lost acc p = same-Accounts all lost s Pc.receiving acc
step-Accounts s Pc.receiving (fail e) all lost acc p = tt
step-Accounts s Pc.echoing (ok n) all lost acc p = sent-Accounts s all lost n acc p.0
step-Accounts s Pc.echoing (bytes bs) all lost acc p = elim p [ ]
step-Accounts s Pc.echoing (fail eintr) all lost acc p = same-Accounts all lost s Pc.echoing acc
step-Accounts s Pc.echoing (fail e) all lost acc p = tt
step-Accounts s Pc.closing (ok n) all lost acc p = same-Accounts all lost s Pc.closing acc
step-Accounts s Pc.closing (bytes bs) all lost acc p = elim p [ ]
step-Accounts s Pc.closing (fail e) all lost acc p = tt
step-Accounts s Pc.returned r all lost acc p = elim p [ ]
step-Accounts s Pc.exited r all lost acc p = elim p [ ]

Reach-Accounts :
    {welcome : List ℕ} {s : State} {pc : Pc} {got : List ℕ} {lost : ℕ}
    → Reach welcome s pc got lost
    → Accounts (welcome ++ got) lost s pc
Reach-Accounts {welcome} start =
    (omega (arith, ap length (append-nil welcome)), λ e. sym (append-nil welcome))
Reach-Accounts {welcome} (next {s} {pc} {got} {lost} r before p) =
    rw (sym (append_assoc welcome got (to_echo pc r)))
      (step-Accounts s pc r (welcome ++ got) lost (Reach-Accounts before) p)

-- The handler waits for a message or has been told to quit.
abbrev pub settled : Pc → Bool
settled Pc.receiving = true
settled Pc.closing = true
settled Pc.returned = true
settled _ = false

settled-Accounts :
    (all : List ℕ) (lost : ℕ) (s : State) (pc : Pc)
    → settled pc ≡ true
    → Accounts all lost s pc
    → (length s.out + lost ≡ length all) × (lost ≡ 0 → s.out ≡ all)
settled-Accounts all lost s Pc.welcoming h acc = cc
settled-Accounts all lost s Pc.receiving h acc =
    (omega (arith, acc.0), λ e. sym (append-nil s.out) ∙ acc.1 e)
settled-Accounts all lost s Pc.echoing h acc = cc
settled-Accounts all lost s Pc.closing h acc =
    (omega (arith, acc.0), λ e. sym (append-nil s.out) ∙ acc.1 e)
settled-Accounts all lost s Pc.returned h acc =
    (omega (arith, acc.0), λ e. sym (append-nil s.out) ∙ acc.1 e)
settled-Accounts all lost s Pc.exited h acc = cc

-- Whenever the handler waits for a message, and after QUIT, the client lacks exactly as many bytes
-- of the welcome message and of the messages to echo as single calls of send() have left over; if
-- each call took all it was given, the client has been sent these bytes and no others, in order.
pub out-lost :
    {welcome : List ℕ} {s : State} {pc : Pc} {got : List ℕ} {lost : ℕ}
    → settled pc ≡ true
    → Reach welcome s pc got lost
    → (length s.out + lost ≡ length (welcome ++ got)) × (lost ≡ 0 → s.out ≡ welcome ++ got)
out-lost {welcome} {s} {pc} {got} {lost} h r =
    settled-Accounts (welcome ++ got) lost s pc h (Reach-Accounts r)
