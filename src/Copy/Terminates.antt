-- ===== src/Copy/Terminates.antt =====
-- The copy loop ends: a bound on the calls that it makes.
use c_teaching.Prelude.{
  ℕ, ◌+◌, ◌*◌, ◌≤◌, ◌<◌, ◌≡◌, length, take, length-append, length-take, length-drop, List, arith,
  true, false,
}
use c_teaching.Sys.{Answer, ok, fail}
use c_teaching.Copy.{Pc, reading, writing, finished, failed, State, step}
use c_teaching.Copy.Run.{Possible, stalls, Reach, start, stalled, moved}
use c_teaching.Copy.Correct.{Inv, Reach-Inv}

-- A byte is read, then written; a block costs a change from reading to writing and back.
abbrev measure : State → Pc → ℕ
measure s (reading left) = 3 * length s.source + 2 * length s.buf + 2
measure s (writing written left) = 3 * length s.source + 2 * left + 1
measure s finished = 0
measure s failed = 0

-- The loop waits at a call.
abbrev pub at_call : Pc → ℕ
at_call (reading _) = 1
at_call (writing _ _) = 1
at_call _ = 0

module _ {block : ℕ} {content held : List ℕ} where
  stalled-measure :
      (s : State) (pc : Pc) (a : Answer)
      → Inv block content held s pc
      → Possible s pc a
      → stalls pc a ≡ true
      → measure (step s pc a).0 (step s pc a).1 ≤ measure s pc
  unfolding step
  stalled-measure s (reading left) (fail e) inv p q = ground arith
  stalled-measure s (reading left) (ok n) inv p q = cc
  stalled-measure s (writing w left) (fail e) inv p q = ground arith
  stalled-measure s (writing w left) (ok n) inv p q = ground (arith, inv.accounts)
  stalled-measure s finished a inv p q = elim p [ ]
  stalled-measure s failed a inv p q = elim p [ ]

  moved-measure :
      (s : State) (pc : Pc) (a : Answer)
      → Inv block content held s pc
      → Possible s pc a
      → stalls pc a ≡ false
      → measure (step s pc a).0 (step s pc a).1 < measure s pc
  unfolding step
  moved-measure s (reading left) (fail e) inv p q = ground arith
  moved-measure s (reading left) (ok n) inv p q =
      ground (
        arith,
        length-append s.buf (take n s.source),
        length-take n s.source,
        length-drop n s.source,
      )
  moved-measure s (writing w left) (fail e) inv p q = ground arith
  moved-measure s (writing w left) (ok n) inv p q = ground (arith, inv.accounts)
  moved-measure s finished a inv p q = elim p [ ]
  moved-measure s failed a inv p q = elim p [ ]

  count-measure :
      {s : State} {pc : Pc} {k : ℕ}
      → 0 < block
      → Reach block content held s pc k
      → k + measure s pc ≤ 3 * length content + 2
  count-measure positive start = omega arith
  count-measure positive (stalled {s} {pc} a r p e) =
      omega (arith, stalled-measure s pc a (Reach-Inv positive r) p e, count-measure positive r)
  count-measure positive (moved {s} {pc} a r p e) =
      omega (arith, moved-measure s pc a (Reach-Inv positive r) p e, count-measure positive r)

-- The copy of a source of N bytes ends after at most 3 N + 2 calls that are not interrupted and
-- move a byte or find the end of the file: a run that still waits at a call has made fewer.
pub calls_bound :
    {block k : ℕ} {content held : List ℕ} {s : State} {pc : Pc}
    → 0 < block
    → Reach block content held s pc k
    → k + at_call pc ≤ 3 * length content + 2
calls_bound {pc = reading left} positive r = omega (arith, count-measure positive r)
calls_bound {pc} positive r = omega (arith, count-measure positive r)
