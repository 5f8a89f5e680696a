-- ===== src/NamedSemaphore/Tests.antt =====
-- A client that is killed while one of its threads holds a resource.
use c_teaching.Prelude.{◌<◌, ◌≤◌, ◌≡◌, refl, arith}
use c_teaching.Threads.{total}
use c_teaching.NamedSemaphore.{num_resources, in_use, System, Step, Reach, here, then_step}
use c_teaching.NamedSemaphore.Kept.{takes, in_use-total}

abbrev one_server : (s : System) × Reach s
one_server = (_, then_step (then_step here (Step.start_server 0 refl)) (Step.open_new 0 refl refl))

abbrev one_thread : (s : System) × Reach s
one_thread = (
  _,
  then_step
      (then_step (then_step one_server.1 (Step.start_client 0 refl)) (Step.press_enter 0 refl))
      (Step.spawn 0 refl),
)

in_range : 0 < 1
in_range = omega arith

abbrev one_killed : (s : System) × Reach s
one_killed = (
  _,
  then_step
      (then_step (then_step one_thread.1 (Step.open_semaphore 0 in_range refl refl))
        (Step.acquire 0 in_range refl refl))
      (Step.end_client 0),
)

in_use-total_example :
    (2 ≤ num_resources) × (in_use 2 ≡ total (takes 0) one_killed.0.spawned one_killed.0.threads)
in_use-total_example = in_use-total 0 one_killed.1 in_range
