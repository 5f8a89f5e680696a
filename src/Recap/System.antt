-- ===== src/Recap/System.antt =====
-- The processes and threads of riepilogo.c, whose semaphores are numbers. A step is a call on a
-- semaphore, a fork(), a pthread_create() or pthread_join(), a wait(), an append to the file, or
-- the end of a loop; or a call that fails.
use c_teaching.Prelude.{ℕ, suc, Bool, true, false, ◌+◌, ◌-◌, ◌≤◌, ◌<◌, ◌≡◌, List, [], ◌∷◌, ◌++◌}
use c_teaching.Threads.{update}

-- Where the main process stands, with the value of `i`: in the loop of fork(), of sem_wait() for
-- the children, of sem_post() to them, before the post that ends their activities, in the loop of
-- wait(), and where it reads the file.
pub data Main : Type 0 where
  forking collecting releasing : (i : ℕ) → Main
  ending : Main
  reaping : (i : ℕ) → Main
  reporting : Main

-- Where a child stands in child_process(): before its sem_post(), before its sem_wait(), in the
-- loops of pthread_create() and pthread_join(), before sem_getvalue(); or it is not there yet, has
-- ended, or has been waited for.
pub data Child : Type 0 where
  absent notifying waiting : Child
  creating joining : (j : ℕ) → Child
  checking ended reaped : Child

-- Where a thread stands in thread_function(): before sem_wait(), write() and sem_post(), or at its
-- end; or it is not there.
pub data Thread : Type 0 where
  none entering writing leaving finished : Thread

-- A child is running, or would be; has been ended by an exit() of ERROR_HELPER in one of its
-- threads or by a signal; or has been waited for after that.
pub data Life : Type 0 where
  alive killed collected : Life

-- The child has been forked and has not left child_process().
abbrev pub is_running : Child → Bool
is_running absent = false
is_running ended = false
is_running reaped = false
is_running _ = true

-- No step reads `rounds`, the number of rounds that a child has completed; `accesses`, the
-- children whose threads are past their write(), in order; and `broken`: a call has failed, or a
-- signal has ended a process.
pub record System : Type 0 where
  pub main_waits_for_children : ℕ
  pub children_wait_for_main : ℕ
  pub end_children_activities : ℕ
  pub critical_section : ℕ
  pub main : Main
  pub children : ℕ → Child
  pub threads : ℕ → ℕ → Thread  -- of each child, in its present round
  pub rounds : ℕ → ℕ
  pub file : List ℕ  -- FILENAME, as ints
  pub main_exited : Bool
  pub life : ℕ → Life
  pub accesses : List ℕ
  pub broken : Bool

-- What main() sets up before it forks.
abbrev pub init : System
init = record {
  main_waits_for_children = 0;
  children_wait_for_main = 0;
  end_children_activities = 0;
  critical_section = 1;
  main = forking 0;
  children = λ _. absent;
  threads = λ _ _. none;
  rounds = λ _. 0;
  file = [];
  main_exited = false;
  life = λ _. alive;
  accesses = [];
  broken = false;
}

-- Thread `j` of child `i` goes on.
abbrev pub move : System → ℕ → ℕ → Thread → ℕ → ℕ → Thread
move s i j new = update s.threads i (update (s.threads i) j new)

-- A step of the main process.
pub data MainStep (n : ℕ) (s : System) : System → Type 0 where
  fork :
      {i : ℕ}
      → s.main ≡ forking i
      → i < n
      → MainStep n s (record s { main = forking (suc i); children = update s.children i notifying })
  all_forked :
      {i : ℕ} → s.main ≡ forking i → n ≤ i → MainStep n s (record s { main = collecting 0 })
  collect :
      {i : ℕ}
      → s.main ≡ collecting i
      → i < n
      → 0 < s.main_waits_for_children
      → MainStep n s (record s {
        main = collecting (suc i);
        main_waits_for_children = s.main_waits_for_children - 1;
      })
  all_ready :
      {i : ℕ} → s.main ≡ collecting i → n ≤ i → MainStep n s (record s { main = releasing 0 })
  release :
      {i : ℕ}
      → s.main ≡ releasing i
      → i < n
      → MainStep n s (record s {
        main = releasing (suc i);
        children_wait_for_main = s.children_wait_for_main + 1;
      })
  all_released : {i : ℕ} → s.main ≡ releasing i → n ≤ i → MainStep n s (record s { main = ending })
  end_activities :
      s.main ≡ ending
      → MainStep n s
          (record s { main = reaping 0; end_children_activities = s.end_children_activities + 1 })
  reap :
      {i : ℕ} (c : ℕ)
      → s.main ≡ reaping i
      → i < n
      → c < n
      → s.children c ≡ ended
      → MainStep n s (record s { main = reaping (suc i); children = update s.children c reaped })
  -- wait() for a child that has been killed
  reap_killed :
      {i : ℕ} (c : ℕ)
      → s.main ≡ reaping i
      → i < n
      → c < n
      → s.life c ≡ killed
      → MainStep n s (record s { main = reaping (suc i); life = update s.life c collected })
  all_reaped : {i : ℕ} → s.main ≡ reaping i → n ≤ i → MainStep n s (record s { main = reporting })

-- A step of child `i`'s first thread.
pub data ChildStep (m : ℕ) (s : System) (i : ℕ) : System → Type 0 where
  notify :
      s.children i ≡ notifying
      → ChildStep m s i (record s {
        children = update s.children i waiting;
        main_waits_for_children = s.main_waits_for_children + 1;
      })
  begin :
      s.children i ≡ waiting
      → 0 < s.children_wait_for_main
      → ChildStep m s i (record s {
        children = update s.children i (creating 0);
        children_wait_for_main = s.children_wait_for_main - 1;
      })
  create :
      {j : ℕ}
      → s.children i ≡ creating j
      → j < m
      → ChildStep m s i (record s {
        children = update s.children i (creating (suc j));
        threads = move s i j entering;
      })
  all_created :
      {j : ℕ}
      → s.children i ≡ creating j
      → m ≤ j
      → ChildStep m s i (record s { children = update s.children i (joining 0) })
  join :
      {j : ℕ}
      → s.children i ≡ joining j
      → j < m
      → s.threads i j ≡ finished
      → ChildStep m s i (record s { children = update s.children i (joining (suc j)) })
  -- the threads of the round are gone
  all_joined :
      {j : ℕ}
      → s.children i ≡ joining j
      → m ≤ j
      → ChildStep m s i (record s {
        children = update s.children i checking;
        threads = update s.threads i (λ _. none);
        rounds = update s.rounds i (s.rounds i + 1);
      })
  -- `if (main_notification) break;`
  go_on :
      s.children i ≡ checking
      → s.end_children_activities ≡ 0
      → ChildStep m s i (record s { children = update s.children i (creating 0) })
  stop :
      s.children i ≡ checking
      → 0 < s.end_children_activities
      → ChildStep m s i (record s { children = update s.children i ended })

-- A step of thread `j` of child `i`.
pub data ThreadStep (s : System) (i j : ℕ) : System → Type 0 where
  enter :
      s.threads i j ≡ entering
      → 0 < s.critical_section
      → ThreadStep s i j
          (record s { threads = move s i j writing; critical_section = s.critical_section - 1 })
  write :
      s.threads i j ≡ writing
      → ThreadStep s i j (record s {
        threads = move s i j leaving;
        file = s.file ++ i ∷ [];
        accesses = s.accesses ++ i ∷ [];
      })
  -- open() or write() fails, or writes a part of the int, and nobody looks; `file` is what there
  -- is then
  write_fails :
      (file : List ℕ)
      → s.threads i j ≡ writing
      → ThreadStep s i j (record s {
        threads = move s i j leaving;
        file = file;
        accesses = s.accesses ++ i ∷ [];
        broken = true;
      })
  leave :
      s.threads i j ≡ leaving
      → ThreadStep s i j
          (record s { threads = move s i j finished; critical_section = s.critical_section + 1 })

-- `n` children with `m` threads in each round. A call that fails ends its process by ERROR_HELPER,
-- with all its threads; a signal may end it too.
pub data Reach (n m : ℕ) : System → Type 0 where
  here : Reach n m init
  by_main : {s t : System} → Reach n m s → MainStep n s t → s.main_exited ≡ false → Reach n m t
  by_child :
      {s t : System} (i : ℕ)
      → Reach n m s
      → i < n
      → ChildStep m s i t
      → s.life i ≡ alive
      → Reach n m t
  by_thread :
      {s t : System} (i j : ℕ)
      → Reach n m s
      → i < n
      → j < m
      → ThreadStep s i j t
      → s.life i ≡ alive
      → Reach n m t
  main_fails :
      {s : System}
      → Reach n m s
      → s.main_exited ≡ false
      → Reach n m (record s { main_exited = true; broken = true })
  child_fails :
      {s : System} (i : ℕ)
      → Reach n m s
      → i < n
      → s.life i ≡ alive
      → is_running (s.children i) ≡ true
      → Reach n m (record s { life = update s.life i killed; broken = true })
