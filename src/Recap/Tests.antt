-- ===== src/Recap/Tests.antt =====
-- A run of riepilogo.c with one child and one thread, and the theorems at it.
use c_teaching.Prelude.{ℕ, ◌*◌, ◌≤◌, ◌<◌, ◌≡◌, refl, ◌^◌, map, none, some, [], ◌∷◌, arith}
use c_teaching.Prelude.Int.{pos}
use c_teaching.Recap.Stats.{report}
use c_teaching.Recap.Search.{count}
use c_teaching.Recap.System.{
  System, Reach, here, by_main, by_child, by_thread, fork, all_forked, collect, all_ready, release,
  all_released, end_activities, reap, all_reaped, notify, begin, create, all_created, join,
  all_joined, stop, enter, write, leave,
}
use c_teaching.Recap.Invariant.{posted}
use c_teaching.Recap.Safety.{barrier, one_inside, report-winner}

-- Child 0 has 1 access, children 1 and 2 have 2 each.
first_of_equals :
    report 3 (map some (2 ∷ 1 ∷ 0 ∷ 1 ∷ 2 ∷ []))
    ≡ some (record { max_process_id = pos 1; max_accesses = pos 2 })
unfolding report
first_of_equals = refl

-- A read() that fails counts the last int once more, and the first one has no int to count.
failed_read :
    (report 2 (some 1 ∷ none ∷ some 0 ∷ [])
      ≡ some (record { max_process_id = pos 1; max_accesses = pos 2 }))
    × (report 2 (none ∷ some 0 ∷ []) ≡ none)
unfolding report
failed_read = (refl, refl)

record Run : Type 0 where
  last : System
  reach : Reach 1 1 last

-- The thread is in the critical section.
abbrev entered : Run
entered = record {
  last = _;
  reach =
      by_thread 0 0
        (by_child 0
          (by_child 0
            (by_child 0
              (by_main
                (by_main
                  (by_main
                    (by_main
                      (by_child 0
                        (by_main (by_main here (fork refl (omega arith)) refl)
                          (all_forked refl (omega arith)) refl)
                        (omega arith) (notify refl) refl)
                      (collect refl (omega arith) (omega arith)) refl)
                    (all_ready refl (omega arith)) refl)
                  (release refl (omega arith)) refl)
                (all_released refl (omega arith)) refl)
              (omega arith) (begin refl (omega arith)) refl)
            (omega arith) (create refl (omega arith)) refl)
          (omega arith) (all_created refl (omega arith)) refl)
        (omega arith) (omega arith) (enter refl (omega arith)) refl;
}

-- The child is told to stop after its first round, and the main process reads the file.
abbrev whole : Run
whole = record {
  last = _;
  reach =
      by_main
        (by_main
          (by_child 0
            (by_main
              (by_child 0
                (by_child 0
                  (by_thread 0 0
                    (by_thread 0 0 entered.reach (omega arith) (omega arith) (write refl) refl)
                    (omega arith) (omega arith) (leave refl) refl)
                  (omega arith) (join refl (omega arith) refl) refl)
                (omega arith) (all_joined refl (omega arith)) refl)
              (end_activities refl) refl)
            (omega arith) (stop refl (omega arith)) refl)
          (reap 0 refl (omega arith) (omega arith) refl) refl)
        (all_reaped refl (omega arith)) refl;
}

barrier_example : posted (entered.last.children 0) ≡ 1
barrier_example = barrier 0 0 entered.reach (omega arith) refl (omega arith)

one_inside_example : (◌≡◌ {A = ℕ} 0 0) × (◌≡◌ {A = ℕ} 0 0)
one_inside_example =
    one_inside 0 0 0 0 entered.reach (omega arith) (omega arith) (omega arith) (omega arith) refl
      refl

few_rounds : (i : ℕ) → i < 1 → whole.last.rounds i * 1 < 2 ^ 31
few_rounds i lt = ground arith

report-winner_example :
    ((i : ℕ) → i < 1 → count i (0 ∷ []) ≡ whole.last.rounds i * 1)
    × ((k : ℕ) × (k < 1)
        × (report 1 (map some (0 ∷ []))
            ≡ some
                (record { max_process_id = pos k; max_accesses = pos (whole.last.rounds k * 1) }))
        × ((j : ℕ) → j < 1 → whole.last.rounds j * 1 ≤ whole.last.rounds k * 1)
        × ((j : ℕ) → j < k → whole.last.rounds j * 1 < whole.last.rounds k * 1))
report-winner_example = report-winner whole.reach refl refl few_rounds (omega arith)
