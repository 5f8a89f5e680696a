-- ===== src/NamedSemaphore.antt =====
-- lab04-recap+named-semaphore/named_semaphore: server.c, which creates the semaphore, and client.c,
-- whose threads take its resources; any number of processes of both.
mod Kept
mod Tests
use c_teaching.Prelude.{
  ℕ, zero, suc, ◌-◌, ◌<◌, ◌≡◌, ◌==◌, if◌then◌else◌, Bool, true, false, Option, none, some,
}
use c_teaching.Threads.{update}

-- NUM_RESOURCES and THREAD_BURST
abbrev pub num_resources : ℕ
num_resources = 3

abbrev pub thread_burst : ℕ
thread_burst = 5

-- Where a server stands: not started, before the first sem_open(), before the sem_unlink() of a
-- semaphore that exists and the second sem_open(), in its loop with its semaphore, before the
-- sem_unlink() of cleanup(), or ended.
pub data Server : Type 0 where
  absent opening unlinking reopening : Server
  running : ℕ → Server
  cleaning ended : Server

-- Where main() of a client stands: not started, before getchar(), with so many pthread_create()
-- left, in pthread_exit(), or ended together with its threads.
pub data Driver : Type 0 where
  unstarted prompting : Driver
  bursting : ℕ → Driver
  finished dead : Driver

-- A thread of the client `owner`: before sem_open(), sem_wait(), sem_post(), sem_close(); ended;
-- or killed while it held a resource of the semaphore.
pub data Thread : Type 0 where
  starting : (owner : ℕ) → Thread
  waiting holding closing : (owner semaphore : ℕ) → Thread
  done : Thread
  lost : (semaphore : ℕ) → Thread

-- The semaphores that sem_open() has created are numbered; `name` is the one that SEMAPHORE_NAME
-- leads to.
pub record System : Type 0 where
  pub name : Option ℕ
  pub created : ℕ
  pub values : ℕ → ℕ
  pub servers : ℕ → Server
  pub drivers : ℕ → Driver
  pub spawned : ℕ
  pub threads : ℕ → Thread

abbrev pub init : System
init = record {
  name = none;
  created = 0;
  values = λ _. 0;
  servers = λ _. absent;
  drivers = λ _. unstarted;
  spawned = 0;
  threads = λ _. done;
}

-- The "%d are in use" of the server.
abbrev pub in_use : ℕ → ℕ
in_use current_value = num_resources - current_value

-- sem_open() with O_CREAT and O_EXCL, where there is no semaphore of the name.
abbrev pub create_semaphore : System → ℕ → System
create_semaphore s j = record s {
  name = some s.created;
  created = suc s.created;
  values = update s.values s.created num_resources;
  servers = update s.servers j (running s.created);
}

-- What the end of the process `p` makes of a thread.
abbrev pub kill : ℕ → Thread → Thread
kill p (starting q) = if q == p then done else starting q
kill p (waiting q k) = if q == p then done else waiting q k
kill p (holding q k) = if q == p then lost k else holding q k
kill p (closing q k) = if q == p then done else closing q k
kill p done = done
kill p (lost k) = lost k

abbrev pub after_create : ℕ → Driver
after_create zero = prompting
after_create (suc n) = bursting (suc n)

abbrev pub set_server : System → ℕ → Server → System
set_server s j new = record s { servers = update s.servers j new }

abbrev pub set_thread : System → ℕ → Thread → System
set_thread s i new = record s { threads = update s.threads i new }

pub data Step (s : System) : System → Type 0 where
  start_server : (j : ℕ) → s.servers j ≡ absent → Step s (set_server s j opening)
  open_new : (j : ℕ) → s.servers j ≡ opening → s.name ≡ none → Step s (create_semaphore s j)
  open_exists :
      (j : ℕ) {k : ℕ} → s.servers j ≡ opening → s.name ≡ some k → Step s (set_server s j unlinking)
  unlink_old :
      (j : ℕ) → s.servers j ≡ unlinking → Step s (record (set_server s j reopening) { name = none })
  reopen_new : (j : ℕ) → s.servers j ≡ reopening → s.name ≡ none → Step s (create_semaphore s j)
  -- another server has been faster
  reopen_exists :
      (j : ℕ) {k : ℕ} → s.servers j ≡ reopening → s.name ≡ some k → Step s (set_server s j ended)
  interrupt : (j : ℕ) {k : ℕ} → s.servers j ≡ running k → Step s (set_server s j cleaning)
  clean_up :
      (j : ℕ) → s.servers j ≡ cleaning → Step s (record (set_server s j ended) { name = none })
  -- an exit(1), or a signal other than that of CTRL+C
  end_server : (j : ℕ) → Step s (set_server s j ended)
  start_client :
      (p : ℕ)
      → s.drivers p ≡ unstarted
      → Step s (record s { drivers = update s.drivers p prompting })
  press_enter :
      (p : ℕ)
      → s.drivers p ≡ prompting
      → Step s (record s { drivers = update s.drivers p (bursting thread_burst) })
  spawn :
      (p : ℕ) {n : ℕ}
      → s.drivers p ≡ bursting (suc n)
      → Step s (record s {
        drivers = update s.drivers p (after_create n);
        spawned = suc s.spawned;
        threads = update s.threads s.spawned (starting p);
      })
  quit :
      (p : ℕ)
      → s.drivers p ≡ prompting
      → Step s (record s { drivers = update s.drivers p finished })
  -- an exit(1) of one of its threads, which is what a failed sem_open() leads to, or a signal
  end_client :
      (p : ℕ)
      → Step s (record s { drivers = update s.drivers p dead; threads = λ i. kill p (s.threads i) })
  open_semaphore :
      (i : ℕ) {p k : ℕ}
      → i < s.spawned
      → s.threads i ≡ starting p
      → s.name ≡ some k
      → Step s (set_thread s i (waiting p k))
  acquire :
      (i : ℕ) {p k v : ℕ}
      → i < s.spawned
      → s.threads i ≡ waiting p k
      → s.values k ≡ suc v
      → Step s (record (set_thread s i (holding p k)) { values = update s.values k v })
  release :
      (i : ℕ) {p k : ℕ}
      → i < s.spawned
      → s.threads i ≡ holding p k
      → Step s
          (record (set_thread s i (closing p k)) { values = update s.values k (suc (s.values k)) })
  close :
      (i : ℕ) {p k : ℕ} → i < s.spawned → s.threads i ≡ closing p k → Step s (set_thread s i done)

pub data Reach : System → Type 0 where
  here : Reach init
  then_step : {s t : System} → Reach s → Step s t → Reach t
