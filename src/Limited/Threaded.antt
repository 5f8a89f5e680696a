-- ===== src/Limited/Threaded.antt =====
-- lab11-echoserver-process-thread/ES-MP-LimitConn/multithread.c: the threads of one process, which
-- share an unnamed semaphore. An ERROR_HELPER in any thread ends the whole process.
use c_teaching.Prelude.{ℕ, suc, ◌-◌, ◌<◌, ◌≡◌, Bool, true, false, List}
use c_teaching.Sys.{Errno, Reply}
use c_teaching.Threads.{update}
use c_teaching.Limited.Handler.{Pc, State, step, begin, Possible}
use c_teaching.Limited.Server.{max_concurrency, post}

-- Where main() stands in its `while (1)`: before accept(), sem_wait(), or pthread_create() and
-- what follows it.
pub data Main : Type 0 where
  accepting waiting creating : Main

-- A thread: before its first send(), or in connection_handler, which it leaves at `Pc.returned`.
-- Its errno is its own, and 0 at first.
pub data Thread : Type 0 where
  created : Thread
  handling : State → Pc → Thread

pub record Server : Type 0 where
  pub connections : ℕ  -- the value of the semaphore
  pub main : Main
  pub spawned : ℕ  -- how many threads there have been; they are the indices below
  pub threads : ℕ → Thread
  pub exited : Bool  -- whether an exit() has ended the process

abbrev pub init : Server
init = record {
  connections = max_concurrency;
  main = accepting;
  spawned = 0;
  threads = λ _. created;
  exited = false;
}

abbrev pub no_error : Errno
no_error = Errno.other 0

-- multithread.c's connection_handler, which makes the calls of that of multiprocess.c, sem_post()
-- included.
abbrev pub connection_handler : State → Pc → Reply → State × Pc
connection_handler h pc r = step h pc r

abbrev pub is_exit : Pc → Bool
is_exit Pc.exited = true
is_exit _ = false

-- `welcome` is the text of the welcome message for a thread.
pub data Step (welcome : ℕ → List ℕ) (s : Server) : Server → Type 0 where
  accept : s.exited ≡ false → s.main ≡ accepting → Step welcome s (record s { main = waiting })
  accept_interrupted : s.exited ≡ false → s.main ≡ accepting → Step welcome s s
  wait :
      s.exited ≡ false
      → s.main ≡ waiting
      → 0 < s.connections
      → Step welcome s (record s { main = creating; connections = s.connections - 1 })
  create :
      s.exited ≡ false
      → s.main ≡ creating
      → Step welcome s (record s {
        main = accepting;
        spawned = suc s.spawned;
        threads = update s.threads s.spawned created;
      })
  -- a failed call of main() and ERROR_HELPER, or a signal and signalHandlerCleanup
  end_process : s.exited ≡ false → Step welcome s (record s { exited = true })
  begin_thread :
      (i : ℕ)
      → s.exited ≡ false
      → i < s.spawned
      → s.threads i ≡ created
      → Step welcome s (record s {
        threads = update s.threads i (handling (begin no_error (welcome i)) (Pc.welcoming 0));
      })
  handle :
      (i : ℕ) {h : State} {pc : Pc} (r : Reply)
      → s.exited ≡ false
      → i < s.spawned
      → s.threads i ≡ handling h pc
      → Possible h pc r
      → Step welcome s (record s {
        connections = post pc r s.connections;
        threads =
            update s.threads i
              (handling (connection_handler h pc r).0 (connection_handler h pc r).1);
        exited = is_exit (connection_handler h pc r).1;
      })

pub data Reach (welcome : ℕ → List ℕ) : Server → Type 0 where
  here : Reach welcome init
  then_step : {s t : Server} → Reach welcome s → Step welcome s t → Reach welcome t
