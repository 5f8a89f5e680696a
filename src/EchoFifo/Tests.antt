-- ===== src/EchoFifo/Tests.antt =====
-- A run of echo.c, and its theorem at it.
use c_teaching.Prelude.{ℕ, ◌≡◌, refl, same_bytes, false, List, [], ◌∷◌, ◌++◌, arith}
use c_teaching.Sys.{eintr, ok, bytes, fail}
use c_teaching.EchoFifo.{State, Pc, quit_command, step}
use c_teaching.EchoFifo.Correct.{Reach, start, next, echo-out}

record Run : Type 0 where
  last : State
  pc : Pc
  got : List ℕ
  reach : Reach (72 ∷ 105 ∷ []) last pc got

-- A message echoed in two pieces with an interrupted call between, QUIT, and the clean-up.
abbrev session : Run
unfolding step same_bytes
session = record {
  last = _;
  pc = _;
  got = _;
  reach =
      next (ok 0)
        (next (ok 0)
          (next (ok 0)
            (next (ok 0)
              (next (bytes quit_command)
                (next (ok 1)
                  (next (fail eintr)
                    (next (ok 1)
                      (next (bytes (7 ∷ 8 ∷ [])) (next (ok 2) start (omega arith)) (omega arith))
                      (omega arith))
                    tt)
                  (omega arith))
                (omega arith))
              tt)
            tt)
          tt)
        tt;
}

echo-out_example :
    (session.last.out ≡ (72 ∷ 105 ∷ []) ++ (7 ∷ 8 ∷ []))
    × (session.last.echo_fifo ≡ false)
    × (session.last.client_fifo ≡ false)
unfolding step same_bytes
echo-out_example = echo-out session.reach refl
