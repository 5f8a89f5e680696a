-- ===== src/Logger/Correct.antt =====
-- Where every byte of the server's messages is.
use c_teaching.Prelude.{
  write_moves, length-zero, drop-all, length-take, take-append-drop, append_assoc, append-nil, ℕ,
  ◌+◌, ◌<◌, ◌≡◌, refl, sym, ap, ◌∙◌, length, take, drop, true, false, List, [], ◌++◌, arith,
  Bool-cases, ltb, ◌==◌, inl, inr,
}
use c_teaching.Sys.{eintr, Answer, ok, fail}
use c_teaching.Logger.{
  init, Pc, reading, writing, closing_log, closing_pipe, ended, failed, State, step, end_block,
  write_bytes,
}
use c_teaching.Logger.Run.{Possible, Reach, here, answered, signalled, served_bytes, hung_up}

-- With no signal the loop ends only when nothing can come any more.
abbrev pub Drained : State → Type 0
Drained s = s.should_stop ≡ false → (s.pipe ≡ []) × (s.writers ≡ false)

abbrev pub Accounts : State → Pc → Type 0
Accounts s reading = s.log ++ s.pipe ≡ s.served
Accounts s (writing w left) =
    (s.log ++ (drop w s.buf ++ s.pipe) ≡ s.served) × (0 < left) × (w + left ≡ length s.buf)
Accounts s failed = (rest : List ℕ) × (s.log ++ rest ≡ s.served)
Accounts s pc = (s.log ++ s.pipe ≡ s.served) × Drained s

end_block-Accounts : (s : State) → s.log ++ s.pipe ≡ s.served → Accounts s (end_block s)
end_block-Accounts s h = elim (Bool-cases s.should_stop) [
  | inl stop ↦ rw stop (h, λ e. absurd (ground (arith, e)))
  | inr go ↦ rw go h
]

step-Accounts :
    (s : State) (pc : Pc) (a : Answer)
    → Accounts s pc
    → Possible s pc a
    → Accounts (step s pc a).0 (step s pc a).1
unfolding step
step-Accounts s reading (ok n) acc p = elim (Bool-cases (n == 0)) [
  | inl eof ↦
      let (bare, gone) = p.2 (ground arith) in rw eof (acc, λ e. (length-zero s.pipe bare, gone))
  | inr got ↦
      rw got
        (rw (take-append-drop n s.pipe) acc, ground arith, omega (arith, length-take n s.pipe, p.1))
]
step-Accounts s reading (fail eintr) acc p = acc
step-Accounts s reading (fail e) acc p = (s.pipe, acc)
step-Accounts s (writing w left) (ok n) acc p = elim (Bool-cases (ltb n left)) [
  | inl short ↦ rw short (moves, ground arith, ground arith)
  | inr full ↦
      rw full (
        end_block-Accounts (write_bytes s w n)
          (rw (drop-all (w + n) s.buf (ground arith)) at moves))
]
  where
    moves : (s.log ++ take n (drop w s.buf)) ++ (drop (w + n) s.buf ++ s.pipe) ≡ s.served
    moves = write_moves s.log s.buf s.pipe s.served w n acc.0
step-Accounts s (writing w left) (fail eintr) acc p = acc
step-Accounts s (writing w left) (fail e) acc p = (drop w s.buf ++ s.pipe, acc.0)
step-Accounts s closing_log (ok n) acc p = acc
step-Accounts s closing_log (fail e) acc p = (s.pipe, acc.0)
step-Accounts s closing_pipe a acc p = acc
step-Accounts s ended a acc p = elim p [ ]
step-Accounts s failed a acc p = elim p [ ]

-- The server's own moves and the signals keep the accounts.
signal-Accounts :
    (s : State) (pc : Pc) → Accounts s pc → Accounts (record s { should_stop = true }) pc
signal-Accounts s reading acc = acc
signal-Accounts s (writing w left) acc = acc
signal-Accounts s closing_log acc = (acc.0, λ e. absurd (ground (arith, e)))
signal-Accounts s closing_pipe acc = (acc.0, λ e. absurd (ground (arith, e)))
signal-Accounts s ended acc = (acc.0, λ e. absurd (ground (arith, e)))
signal-Accounts s failed acc = acc

hang_up-Accounts :
    (s : State) (pc : Pc) → Accounts s pc → Accounts (record s { writers = false }) pc
hang_up-Accounts s reading acc = acc
hang_up-Accounts s (writing w left) acc = acc
hang_up-Accounts s closing_log acc = (acc.0, λ e. ((acc.1 e).0, refl))
hang_up-Accounts s closing_pipe acc = (acc.0, λ e. ((acc.1 e).0, refl))
hang_up-Accounts s ended acc = (acc.0, λ e. ((acc.1 e).0, refl))
hang_up-Accounts s failed acc = acc

-- More bytes in the pipe are more bytes served.
more_served :
    (log pipe bs served : List ℕ) → log ++ pipe ≡ served → log ++ (pipe ++ bs) ≡ served ++ bs
more_served log pipe bs served h = sym (append_assoc log pipe bs) ∙ ap (λ l. l ++ bs) h

serve-Accounts :
    (s : State) (pc : Pc) (bs : List ℕ)
    → s.writers ≡ true
    → Accounts s pc
    → Accounts (record s { pipe = s.pipe ++ bs; served = s.served ++ bs }) pc
serve-Accounts s reading bs up acc = more_served s.log s.pipe bs s.served acc
serve-Accounts s (writing w left) bs up acc = (
  rw (append_assoc (drop w s.buf) s.pipe bs) at
      (more_served s.log (drop w s.buf ++ s.pipe) bs s.served acc.0),
  acc.1,
  acc.2,
)
serve-Accounts s failed bs up acc = (acc.0 ++ bs, more_served s.log acc.0 bs s.served acc.1)
serve-Accounts s closing_log bs up acc =
    (more_served s.log s.pipe bs s.served acc.0, λ e. absurd (ground (arith, (acc.1 e).1)))
serve-Accounts s closing_pipe bs up acc =
    (more_served s.log s.pipe bs s.served acc.0, λ e. absurd (ground (arith, (acc.1 e).1)))
serve-Accounts s ended bs up acc =
    (more_served s.log s.pipe bs s.served acc.0, λ e. absurd (ground (arith, (acc.1 e).1)))

Reach-Accounts : {s : State} {pc : Pc} → Reach init reading s pc → Accounts s pc
Reach-Accounts here = refl
Reach-Accounts (answered {s} {pc} a r p) = step-Accounts s pc a (Reach-Accounts r) p
Reach-Accounts (signalled {s} {pc} r) = signal-Accounts s pc (Reach-Accounts r)
Reach-Accounts (served_bytes {s} {pc} bs r up) = serve-Accounts s pc bs up (Reach-Accounts r)
Reach-Accounts (hung_up {s} {pc} r) = hang_up-Accounts s pc (Reach-Accounts r)

-- A Logger that ends with success, and to which no signal has come, has put into the log file
-- exactly the bytes that the server wrote, in order, however the reads and writes were cut up.
pub log-ended : {s : State} → Reach init reading s ended → s.should_stop ≡ false → s.log ≡ s.served
log-ended {s} r calm = sym (append-nil s.log) ∙ rw (drained.0) at (Reach-Accounts r).0
  where
    drained : (s.pipe ≡ []) × (s.writers ≡ false)
    drained = (Reach-Accounts r).1 calm

-- At any moment, also after a failed call or a signal, the log is a prefix of what the server has
-- written.
pub log-IsPrefix :
    {s : State} {pc : Pc} → Reach init reading s pc → (rest : List ℕ) × (s.log ++ rest ≡ s.served)
log-IsPrefix {s} {pc} r = prefix pc (Reach-Accounts r)
  where
    prefix : (pc : Pc) → Accounts s pc → (rest : List ℕ) × (s.log ++ rest ≡ s.served)
    prefix reading acc = (s.pipe, acc)
    prefix (writing w left) acc = (drop w s.buf ++ s.pipe, acc.0)
    prefix failed acc = acc
    prefix closing_log acc = (s.pipe, acc.0)
    prefix closing_pipe acc = (s.pipe, acc.0)
    prefix ended acc = (s.pipe, acc.0)
