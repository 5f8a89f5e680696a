-- ===== src/Logger/Tests.antt =====
-- Runs of the Logger, and the theorems at them.
use c_teaching.Prelude.{refl, true, [], ◌∷◌, arith}
use c_teaching.Sys.{ok}
use c_teaching.Logger.{init, reading, writing, ended, State, step}
use c_teaching.Logger.Run.{Reach, here, answered, served_bytes, hung_up}

-- Three bytes are read together and written by two calls; then the server closes the pipe.
abbrev half_way : (s : State) × Reach init reading s (writing 2 1)
unfolding step
half_way = (
  _,
  answered (ok 2)
      (answered (ok 3) (served_bytes (7 ∷ 8 ∷ 9 ∷ []) here refl)
        (omega arith, omega arith, λ e. absurd (omega arith)))
      (omega arith),
)

abbrev drained : (s : State) × Reach init reading s ended
unfolding step
drained = (
  _,
  answered (ok 0)
      (answered (ok 0)
        (answered (ok 0) (hung_up (answered (ok 1) half_way.1 (omega arith)))
          (omega arith, omega arith, λ e. (refl, refl)))
        tt)
      tt,
)

abbrev told_to_stop : State
told_to_stop = record init { should_stop = true }

abbrev stopping : (s : State) × Reach told_to_stop reading s (writing 0 3)
unfolding step
stopping = (
  _,
  answered (ok 3) (served_bytes (7 ∷ 8 ∷ 9 ∷ []) here refl)
      (omega arith, omega arith, λ e. absurd (omega arith)),
)
