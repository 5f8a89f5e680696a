-- ===== src/Logger/Stop.antt =====
-- What the Logger still writes once it has been told to stop.
use c_teaching.Prelude.{
  ℕ, ◌+◌, ◌≤◌, ◌≡◌, refl, length, take, drop, length-take, length-append, true, List, ◌++◌, arith,
  Bool-cases, ltb, ◌==◌, inl, inr,
}
use c_teaching.Sys.{eintr, Answer, ok, fail}
use c_teaching.Logger.{
  buf_size, Pc, reading, writing, closing_log, closing_pipe, ended, failed, State, step,
}
use c_teaching.Logger.Run.{Possible, Reach, here, answered, signalled, served_bytes, hung_up}

-- The log, from `before` bytes on, has room for one block of the buffer and no more.
abbrev pub Room : ℕ → List ℕ → Pc → Type 0
Room before log reading = length log ≤ before
Room before log (writing w left) = length log + left ≤ before + buf_size
Room before log pc = length log ≤ before + buf_size

module _ (before : ℕ) where
  step-Room :
      (s : State) (pc : Pc) (a : Answer)
      → s.should_stop ≡ true
      → Room before s.log pc
      → Possible s pc a
      → ((step s pc a).0.should_stop ≡ true) × Room before (step s pc a).0.log (step s pc a).1
  unfolding step
  step-Room s reading (ok n) stop room p = elim (Bool-cases (n == 0)) [
    | inl eof ↦ rw eof (stop, omega arith)
    | inr got ↦ rw got (stop, omega arith)
  ]
  step-Room s reading (fail eintr) stop room p = (stop, room)
  step-Room s reading (fail e) stop room p = (stop, omega arith)
  step-Room s (writing w left) (ok n) stop room p = elim (Bool-cases (ltb n left)) [
    | inl short ↦ rw short (stop, ground (arith, more))
    | inr full ↦ rw (full, stop) (refl, omega (arith, more, p))
  ]
    where
      more : length (s.log ++ take n (drop w s.buf)) ≤ length s.log + n
      more =
          omega (arith, length-append s.log (take n (drop w s.buf)), length-take n (drop w s.buf))
  step-Room s (writing w left) (fail eintr) stop room p = (stop, room)
  step-Room s (writing w left) (fail e) stop room p = (stop, omega arith)
  step-Room s closing_log (ok n) stop room p = (stop, room)
  step-Room s closing_log (fail e) stop room p = (stop, room)
  step-Room s closing_pipe a stop room p = (stop, room)
  step-Room s ended a stop room p = elim p [ ]
  step-Room s failed a stop room p = elim p [ ]

Reach-Room :
    {s₀ s : State} {pc : Pc}
    → s₀.should_stop ≡ true
    → Reach s₀ reading s pc
    → (s.should_stop ≡ true) × Room (length s₀.log) s.log pc
Reach-Room stop here = (stop, omega arith)
Reach-Room {s₀} stop (answered {s} {pc} a r p) =
    let (still, room) = Reach-Room stop r in step-Room (length s₀.log) s pc a still room p
Reach-Room stop (signalled r) = (refl, (Reach-Room stop r).1)
Reach-Room stop (served_bytes bs r up) = Reach-Room stop r
Reach-Room stop (hung_up r) = Reach-Room stop r

Room-le :
    (before : ℕ) (log : List ℕ) (pc : Pc) → Room before log pc → length log ≤ before + buf_size
Room-le before log reading h = omega arith
Room-le before log (writing w left) h = omega arith
Room-le before log closing_log h = h
Room-le before log closing_pipe h = h
Room-le before log ended h = h
Room-le before log failed h = h

-- If the signal to stop comes before a read(), the Logger appends at most one block of 512 bytes
-- to the log file from there to its end, whatever the pipe holds.
log-le-block :
    {s₀ s : State} {pc : Pc}
    → s₀.should_stop ≡ true
    → Reach s₀ reading s pc
    → length s.log ≤ length s₀.log + buf_size
log-le-block {s₀} {s} {pc} stop r = Room-le (length s₀.log) s.log pc (Reach-Room stop r).1
