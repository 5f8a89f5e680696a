-- ===== src/Limited/Server.antt =====
-- The main process of multiprocess.c and its child processes, which share a named semaphore.
use c_teaching.Prelude.{ℕ, suc, ◌+◌, ◌-◌, ◌<◌, ◌≡◌, List}
use c_teaching.Sys.{Errno, eintr, Reply, ok}
use c_teaching.Threads.{update}
use c_teaching.Limited.Handler.{Pc, welcoming, posting, State, step, begin, Possible}

abbrev pub max_concurrency : ℕ
max_concurrency = 3

-- Where the main process stands in its `while (1)`: before accept(), sem_wait(), fork(), and the
-- close() of the client's socket; or ended, by ERROR_HELPER or by the signal handler.
pub data Main : Type 0 where
  accepting waiting forking closing_client ended : Main

-- A child process: before its close() of the listening socket, in connection_handler, or ended
-- before that or by a signal.
pub data Child : Type 0 where
  starting : (errno : Errno) → Child
  handling : State → Pc → Child
  dead : Child

pub record Server : Type 0 where
  pub connections : ℕ  -- the value of the semaphore
  pub main : Main
  pub errno : Errno  -- the main process's
  pub forks : ℕ  -- how many children there have been; they are the indices below
  pub children : ℕ → Child

abbrev pub init : Errno → Server
init errno = record {
  connections = max_concurrency;
  main = accepting;
  errno = errno;
  forks = 0;
  children = λ _. dead;
}

-- `sem_post(connections)` is the one step of a handler that others see.
abbrev pub post : Pc → Reply → ℕ → ℕ
post posting (ok _) connections = connections + 1
post _ _ connections = connections

-- `welcome` is the text of the welcome message for a child.
pub data Step (welcome : ℕ → List ℕ) (s : Server) : Server → Type 0 where
  accept : s.main ≡ accepting → Step welcome s (record s { main = waiting })
  accept_interrupted : s.main ≡ accepting → Step welcome s (record s { errno = eintr })
  wait :
      s.main ≡ waiting
      → 0 < s.connections
      → Step welcome s (record s { main = forking; connections = s.connections - 1 })
  fork :
      s.main ≡ forking
      → Step welcome s (record s {
        main = closing_client;
        forks = suc s.forks;
        children = update s.children s.forks (starting s.errno);
      })
  close_client : s.main ≡ closing_client → Step welcome s (record s { main = accepting })
  -- a failed call and ERROR_HELPER, or SIGINT and signalHandlerCleanup
  end_main : Step welcome s (record s { main = ended })
  -- the child has closed the listening socket
  begin_child :
      (i : ℕ) {e : Errno}
      → i < s.forks
      → s.children i ≡ starting e
      → Step welcome s (record s {
        children = update s.children i (handling (begin e (welcome i)) (welcoming 0));
      })
  -- the close() has failed, or the child gets a signal
  end_child :
      (i : ℕ) {e : Errno}
      → i < s.forks
      → s.children i ≡ starting e
      → Step welcome s (record s { children = update s.children i dead })
  interrupt_child :
      (i : ℕ) {h : State} {pc : Pc}
      → i < s.forks
      → s.children i ≡ handling h pc
      → (pc ≡ Pc.returned → ⊥)
      → Step welcome s (record s { children = update s.children i dead })
  handle :
      (i : ℕ) {h : State} {pc : Pc} (r : Reply)
      → i < s.forks
      → s.children i ≡ handling h pc
      → Possible h pc r
      → Step welcome s (record s {
        connections = post pc r s.connections;
        children = update s.children i (handling (step h pc r).0 (step h pc r).1);
      })

pub data Reach (welcome : ℕ → List ℕ) (s : Server) : Server → Type 0 where
  here : Reach welcome s s
  then_step : {t u : Server} → Reach welcome s t → Step welcome t u → Reach welcome s u
