-- ===== src/Scheduler.antt =====
-- lab03-thread+scheduler/scheduler_solution.c: client threads share a few resources and handle two
-- work items each time that they hold one.
mod Invariant
mod Safety
mod Tests
use c_teaching.Prelude.{ℕ, suc, ◌+◌, ◌-◌, ◌<◌, ◌≡◌, ◌≢◌, ltb, if◌then◌else◌, List, [], ◌∷◌, ◌++◌}
use c_teaching.Threads.{update}

abbrev pub num_resources : ℕ
num_resources = 3

abbrev pub num_tasks : ℕ
num_tasks = 3

-- Where a client stands: before sem_wait(), before each of the two sleeps, before sem_post(), or
-- at its end; with the value of `i`.
pub data Client : Type 0 where
  waiting first second posting : (i : ℕ) → Client
  finished : Client

-- `while (i < args->num_tasks)`, for the number `num` of a client's tasks.
abbrev pub head : ℕ → ℕ → Client
head num i = if ltb i num then waiting i else finished

-- The driver has created `spawned` threads; these are the indices below. `worked` records the work
-- items of each client, the first one first; no step reads it.
pub record System : Type 0 where
  pub semaphore : ℕ
  pub spawned : ℕ
  pub clients : ℕ → Client
  pub worked : ℕ → List ℕ

abbrev pub start : ℕ → System
start num = record {
  semaphore = num_resources;
  spawned = 0;
  clients = λ _. head num 0;
  worked = λ _. [];
}

-- One step of client `j` of the program, or one pthread_create() of the driver, which may come at
-- any time.
pub data Step (num : ℕ) (s : System) : System → Type 0 where
  spawn : Step num s (record s { spawned = suc s.spawned })
  acquire :
      (j : ℕ) {i : ℕ}
      → j < s.spawned
      → s.clients j ≡ waiting i
      → 0 < s.semaphore
      → Step num s
          (record s { semaphore = s.semaphore - 1; clients = update s.clients j (first i) })
  work_first :
      (j : ℕ) {i : ℕ}
      → j < s.spawned
      → s.clients j ≡ first i
      → Step num s (record s {
        clients = update s.clients j (second (i + 1));
        worked = update s.worked j (s.worked j ++ i ∷ []);
      })
  work_second :
      (j : ℕ) {i : ℕ}
      → j < s.spawned
      → s.clients j ≡ second i
      → i ≢ num
      → Step num s (record s {
        clients = update s.clients j (posting (i + 1));
        worked = update s.worked j (s.worked j ++ i ∷ []);
      })
  skip_second :
      (j : ℕ) {i : ℕ}
      → j < s.spawned
      → s.clients j ≡ second i
      → i ≡ num
      → Step num s (record s { clients = update s.clients j (posting (i + 1)) })
  release :
      (j : ℕ) {i : ℕ}
      → j < s.spawned
      → s.clients j ≡ posting i
      → Step num s
          (record s { semaphore = s.semaphore + 1; clients = update s.clients j (head num i) })

pub data Reach (num : ℕ) : System → Type 0 where
  here : Reach num (start num)
  then_step : {s t : System} → Reach num s → Step num s t → Reach num t
