-- ===== src/Limited/Echo.antt =====
-- What a client of multiprocess.c receives.
use c_teaching.Prelude.{
  ℕ, zero, suc, ◌+◌, ◌≡◌, ◌≢◌, refl, sym, ap, ◌∙◌, ltb, if◌then◌else◌, length, take, drop,
  take-append-drop, drop-add, drop-all, append_assoc, append-nil, Bool, true, false, List, [], ◌∷◌,
  ◌++◌, Bool-cases, inl, inr, replicate, arith,
}
use c_teaching.Sys.{Errno, eintr, Reply, ok, bytes, fail, is_eintr}
use c_teaching.Limited.Handler.{
  Pc, welcoming, receiving, echoing, closing, posting, returned, exited, State, Possible, is_quit,
  send_bytes, advance, step, begin,
}

-- The bytes of a recv() that have to be echoed.
abbrev pub to_echo : Pc → Reply → List ℕ
to_echo receiving (bytes bs) = if is_quit bs then [] else bs
to_echo _ _ = []

-- A run of one handler that begins with `errno` and the message `welcome`; `got` is all that has
-- to be echoed so far. No call fails with EINTR on the way.
pub data Reach (errno : Errno) (welcome : List ℕ) : State → Pc → List ℕ → Type 0 where
  start : Reach errno welcome (begin errno welcome) (welcoming 0) []
  next :
      {s : State} {pc : Pc} {got : List ℕ} (r : Reply)
      → Reach errno welcome s pc got
      → Possible s pc r
      → r ≢ fail eintr
      → Reach errno welcome (step s pc r).0 (step s pc r).1 (got ++ to_echo pc r)

-- The bytes that are still to be sent.
abbrev pub unsent : State → Pc → List ℕ
unsent s (welcoming sent) = drop sent s.buf
unsent s (echoing sent) = drop sent s.buf
unsent s _ = []

-- After a failure the rest of the bytes is lost.
abbrev pub Accounts : List ℕ → State → Pc → Type 0
Accounts all s exited = (rest : List ℕ) × (s.out ++ rest ≡ all)
Accounts all s pc = (is_eintr s.errno ≡ false) × (s.out ++ unsent s pc ≡ all)

-- Sending `n` more bytes.
send_moves :
    (out buf all : List ℕ) (sent n : ℕ)
    → out ++ drop sent buf ≡ all
    → (out ++ take n (drop sent buf)) ++ drop (sent + n) buf ≡ all
send_moves out buf all sent n h =
    append_assoc out (take n (drop sent buf)) (drop (sent + n) buf)
    ∙ ap (λ l. out ++ l)
        (ap (λ l. take n (drop sent buf) ++ l) (sym (drop-add sent n buf))
          ∙ take-append-drop n (drop sent buf))
    ∙ h

-- A run of send() without EINTR: bytes_sent counts the bytes.
calm_advance : (s : State) (sent n : ℕ) → is_eintr s.errno ≡ false → advance s sent n ≡ sent + n
calm_advance s sent n calm = ground arith

-- Lemma for both sending loops, whose program points are `at`.
module _ (loop : ℕ → Pc) (all : List ℕ) where
  abbrev Going : State → ℕ → Type 0
  Going s k = Accounts all s (if ltb k (length s.buf) then loop k else receiving)

  sent-Accounts :
      ((s : State) (k : ℕ)
        → (is_eintr s.errno ≡ false)
        → s.out ++ drop k s.buf ≡ all
        → Accounts all s (loop k))
      → (s : State) (sent n : ℕ) → is_eintr s.errno ≡ false
      → s.out ++ drop sent s.buf ≡ all
      → Going (send_bytes s sent n) (advance s sent n)
  sent-Accounts keep s sent n calm h =
      rw (calm_advance s sent n calm) (elim (Bool-cases (ltb (sent + n) (length s.buf))) [
        | inl more ↦
            rw more
              (keep (send_bytes s sent n) (sent + n) calm (send_moves s.out s.buf all sent n h))
        | inr last ↦ rw last (
          calm,
          rw (drop-all (sent + n) s.buf (ground arith)) at (send_moves s.out s.buf all sent n h),
        )
      ])

step-Accounts :
    (s : State) (pc : Pc) (r : Reply) (all : List ℕ)
    → Accounts all s pc
    → Possible s pc r
    → r ≢ fail eintr
    → Accounts (all ++ to_echo pc r) (step s pc r).0 (step s pc r).1
unfolding step
step-Accounts s (welcoming sent) (ok n) all acc p ne =
    rw (append-nil all) (sent-Accounts welcoming all (λ s k calm h. (calm, h)) s sent n acc.0 acc.1)
step-Accounts s (welcoming sent) (bytes bs) all acc p ne = elim p [ ]
step-Accounts s (welcoming sent) (fail e) all acc p ne =
    rw (append-nil all) (drop sent s.buf, acc.1)
step-Accounts s receiving (ok n) all acc p ne = elim p [ ]
step-Accounts s receiving (bytes []) all acc p ne = rw (append-nil all) ([], acc.1)
step-Accounts s receiving (bytes (x ∷ xs)) all acc p ne = elim (Bool-cases (is_quit (x ∷ xs))) [
  | inl quit ↦ rw (quit, append-nil all) acc
  | inr no_quit ↦ rw no_quit (acc.0, ap (λ l. l ++ x ∷ xs) (sym (append-nil s.out) ∙ acc.1))
]
step-Accounts s receiving (fail eintr) all acc p ne = absurd (ne refl)
step-Accounts s receiving (fail e) all acc p ne = rw (append-nil all) ([], acc.1)
step-Accounts s (echoing sent) (ok n) all acc p ne =
    rw (append-nil all) (sent-Accounts echoing all (λ s k calm h. (calm, h)) s sent n acc.0 acc.1)
step-Accounts s (echoing sent) (bytes bs) all acc p ne = elim p [ ]
step-Accounts s (echoing sent) (fail e) all acc p ne = rw (append-nil all) (drop sent s.buf, acc.1)
step-Accounts s closing (ok n) all acc p ne = rw (append-nil all) acc
step-Accounts s closing (bytes bs) all acc p ne = elim p [ ]
step-Accounts s closing (fail e) all acc p ne = rw (append-nil all) ([], acc.1)
step-Accounts s posting (ok n) all acc p ne = rw (append-nil all) acc
step-Accounts s posting (bytes bs) all acc p ne = elim p [ ]
step-Accounts s posting (fail e) all acc p ne = rw (append-nil all) ([], acc.1)
step-Accounts s returned r all acc p ne = elim p [ ]
step-Accounts s exited r all acc p ne = elim p [ ]

Reach-Accounts :
    {errno : Errno} {welcome : List ℕ} {s : State} {pc : Pc} {got : List ℕ}
    → is_eintr errno ≡ false
    → Reach errno welcome s pc got
    → Accounts (welcome ++ got) s pc
Reach-Accounts {welcome} calm start = (calm, sym (append-nil welcome))
Reach-Accounts {welcome} calm (next {s} {pc} {got} r before p ne) =
    rw (sym (append_assoc welcome got (to_echo pc r)))
      (step-Accounts s pc r (welcome ++ got) (Reach-Accounts calm before) p ne)

-- The handler has sent all that it has to.
abbrev pub settled : Pc → Bool
settled (welcoming _) = false
settled (echoing _) = false
settled exited = false
settled _ = true

settled-Accounts :
    (all : List ℕ) (s : State) (pc : Pc) → settled pc ≡ true → Accounts all s pc → s.out ≡ all
settled-Accounts all s (welcoming k) h acc = cc
settled-Accounts all s (echoing k) h acc = cc
settled-Accounts all s exited h acc = cc
settled-Accounts all s receiving h acc = sym (append-nil s.out) ∙ acc.1
settled-Accounts all s closing h acc = sym (append-nil s.out) ∙ acc.1
settled-Accounts all s posting h acc = sym (append-nil s.out) ∙ acc.1
settled-Accounts all s returned h acc = sym (append-nil s.out) ∙ acc.1

pub out-settled :
    {errno : Errno} {welcome : List ℕ} {s : State} {pc : Pc} {got : List ℕ}
    → is_eintr errno ≡ false
    → Reach errno welcome s pc got
    → settled pc ≡ true
    → s.out ≡ welcome ++ got
out-settled {welcome} {s} {pc} {got} calm r h =
    settled-Accounts (welcome ++ got) s pc h (Reach-Accounts calm r)

-- `k` times in a row, send() takes one byte.
pub send_one_byte : ℕ → State → Pc → State × Pc
send_one_byte zero s pc = (s, pc)
send_one_byte (suc k) s pc = let (s', pc') = step s pc (ok 1) in send_one_byte k s' pc'

rejected :
    (s : State) (x : ℕ)
    → is_eintr s.errno ≡ true
    → s.buf ≡ x ∷ []
    → step s (echoing 0) (ok 1) ≡ (send_bytes s 0 1, echoing 0)
unfolding step
rejected s x stale one = ap (λ pc. (send_bytes s 0 1, pc)) (rw (kept, ap length one) refl)
  where
    kept : advance s 0 1 ≡ 0
    kept = ground arith

-- A stale EINTR in errno turns the echo of a one-byte message into an endless one: however often
-- send() takes the byte, the handler is still about to send it again.
pub send_one_byte-stale :
    (k x : ℕ) (s : State)
    → is_eintr s.errno ≡ true
    → s.buf ≡ x ∷ []
    → ((send_one_byte k s (echoing 0)).0.out ≡ s.out ++ replicate k x)
      × ((send_one_byte k s (echoing 0)).1 ≡ echoing 0)
unfolding send_one_byte
send_one_byte-stale zero x s stale one = (sym (append-nil s.out), refl)
send_one_byte-stale (suc k) x s stale one =
    let (sent, still) = send_one_byte-stale k x (send_bytes s 0 1) stale one in
    rw (rejected s x stale one, send_one_byte)
      (
        sent
            ∙ ap (λ l. (s.out ++ take 1 l) ++ replicate k x) one
            ∙ append_assoc s.out (x ∷ []) (replicate k x),
        still,
      )
