-- ===== src/Copy/Tests.antt =====
-- Runs of the copy loop with short and interrupted calls, and the theorems at them.
use c_teaching.Prelude.{ℕ, ◌+◌, ◌*◌, ◌≤◌, ◌≡◌, refl, drop, List, [], ◌∷◌, ◌++◌, arith}
use c_teaching.Prelude.Int.{negsuc}
use c_teaching.Sys.{eintr, ok, fail, opened}
use c_teaching.Copy.{Pc, finished, State, step, syntax, main_start, file_after}
use c_teaching.Copy.Run.{Reach, start, stalled, moved}
use c_teaching.Copy.Correct.{file_after-finished}
use c_teaching.Copy.Terminates.{calls_bound}

abbrev content : List ℕ
content = 10 ∷ 11 ∷ 12 ∷ []

abbrev longer : List ℕ
longer = 90 ∷ 91 ∷ 92 ∷ 93 ∷ 94 ∷ []

record Run : Type 0 where
  state : State
  pc : Pc
  count : ℕ
  reach : Reach 2 content longer state pc count

-- A block of two bytes in two reads, with an interruption between them, and its write.
abbrev one_block : Run
unfolding step
one_block = record {
  state = _;
  pc = _;
  count = _;
  reach =
      moved (ok 2)
        (moved (ok 1) (stalled (fail eintr) (moved (ok 1) start (omega arith) refl) tt refl)
          (omega arith) refl)
        (omega arith) refl;
}

-- The last byte, and the end of the file twice.
abbrev whole : Run
unfolding step
whole = record {
  state = _;
  pc = _;
  count = _;
  reach =
      moved (ok 0)
        (moved (ok 1)
          (moved (ok 0) (moved (ok 1) one_block.reach (omega arith) refl) (omega arith) refl)
          (omega arith) refl)
        (omega arith) refl;
}

whole_values : (whole.pc ≡ finished) × (file_after whole.state ≡ 10 ∷ 11 ∷ 12 ∷ 93 ∷ 94 ∷ [])
unfolding step
whole_values = (refl, refl)

file_after-finished_example : file_after whole.state ≡ content ++ drop 3 longer
unfolding step
file_after-finished_example = file_after-finished (omega arith) whole.reach

calls_bound_example : 3 + 1 ≤ 3 * 3 + 2
unfolding step
calls_bound_example = calls_bound (omega arith) one_block.reach

main_syntax : main_start 4 (negsuc 0) opened opened opened content longer ≡ syntax
unfolding main_start
main_syntax = refl
