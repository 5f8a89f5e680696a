-- ===== src/Scheduler/Tests.antt =====
-- The scheduler's properties at one client with three tasks.
use c_teaching.Prelude.{◌≡◌, ◌≢◌, refl, [], ◌∷◌, arith}
use c_teaching.Scheduler.{
  num_tasks, System, Reach, here, then_step, spawn, acquire, work_first, work_second, skip_second,
  release,
}
use c_teaching.Scheduler.Safety.{finished-worked, no_starvation, CanStep}

abbrev one_spawned : (s : System) × Reach num_tasks s
one_spawned = (_, then_step here spawn)

abbrev one_holds : (s : System) × Reach num_tasks s
one_holds = (_, then_step one_spawned.1 (acquire 0 (omega arith) refl (omega arith)))

one-ne-tasks : 1 ≢ num_tasks
one-ne-tasks = ground arith

abbrev one_posted : (s : System) × Reach num_tasks s
one_posted = (
  _,
  then_step
      (then_step (then_step one_holds.1 (work_first 0 (omega arith) refl))
        (work_second 0 (omega arith) refl one-ne-tasks))
      (release 0 (omega arith) refl),
)

abbrev one_holds_again : (s : System) × Reach num_tasks s
one_holds_again = (_, then_step one_posted.1 (acquire 0 (omega arith) refl (omega arith)))

abbrev one_finished : (s : System) × Reach num_tasks s
one_finished = (
  _,
  then_step
      (then_step (then_step one_holds_again.1 (work_first 0 (omega arith) refl))
        (skip_second 0 (omega arith) refl refl))
      (release 0 (omega arith) refl),
)

finished-worked_example : one_finished.0.worked 0 ≡ 0 ∷ 1 ∷ 2 ∷ []
finished-worked_example = finished-worked one_finished.1 0 refl

no_starvation_example : CanStep num_tasks one_holds.0
no_starvation_example = no_starvation one_holds.1 0 (omega arith) (ground arith)
