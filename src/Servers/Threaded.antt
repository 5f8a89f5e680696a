-- ===== src/Servers/Threaded.antt =====
-- main() of multithread.c, which creates a detached thread for each connection. The threads share
-- the heap with main(): each is given the buffer that accept() has filled, and frees it.
use c_teaching.Prelude.{ℕ, suc, ◌<◌, ◌≡◌, Bool, true, false, Option, none, some, List}
use c_teaching.Sys.{Reply}
use c_teaching.Threads.{update}
use c_teaching.Servers.Handler.{Pc, State, step, begin, Possible}

-- Where main() stands: before accept(), pthread_create(), and the calloc() after it.
pub data Main : Type 0 where
  accepting creating allocating : Main

-- A thread with the pointer to its client_addr: before it reads the address there, in the calls of
-- connection_handler, before the two free() at its end, or ended.
pub data Thread : Type 0 where
  created : (client_addr : ℕ) → Thread
  handling : (client_addr : ℕ) → State → Pc → Thread
  done : Thread

-- A cell of the heap holds a struct sockaddr_in, given by a number; `none` is a cell that is not
-- allocated. `peers` records what each accept() has reported; no step reads it.
pub record Server : Type 0 where
  pub main : Main
  pub client_addr : ℕ  -- the pointer of main()
  pub heap : ℕ → Option ℕ
  pub spawned : ℕ  -- how many threads there have been; they are the indices below
  pub threads : ℕ → Thread
  pub peers : ℕ → ℕ
  pub exited : Bool  -- whether an ERROR_HELPER has ended the process

-- Before the loop, with the first calloc() at `p`.
abbrev pub init : ℕ → Server
init p = record {
  main = accepting;
  client_addr = p;
  heap = update (λ _. none) p (some 0);
  spawned = 0;
  threads = λ _. done;
  peers = λ _. 0;
  exited = false;
}

-- `pthread_exit(NULL)` is at `Pc.returned`; the exit() of a handler ends the whole process.
abbrev pub is_exit : Pc → Bool
is_exit Pc.exited = true
is_exit _ = false

-- multithread.c's own connection_handler, whose calls are those of base.c, once the thread has its arguments.
abbrev pub connection_handler : State → Pc → Reply → State × Pc
connection_handler h pc r = step h pc r

-- `welcome` is the text of the welcome message for an address.
pub data Step (welcome : ℕ → List ℕ) (s : Server) : Server → Type 0 where
  -- accept() writes the address of the peer through main()'s pointer
  accept :
      (peer : ℕ)
      → s.exited ≡ false
      → s.main ≡ accepting
      → Step welcome s (record s {
        main = creating;
        heap = update s.heap s.client_addr (some peer);
        peers = update s.peers s.spawned peer;
      })
  create :
      s.exited ≡ false
      → s.main ≡ creating
      → Step welcome s (record s {
        main = allocating;
        spawned = suc s.spawned;
        threads = update s.threads s.spawned (created s.client_addr);
      })
  -- calloc() gives a cell that is free
  allocate :
      (p : ℕ)
      → s.exited ≡ false
      → s.main ≡ allocating
      → s.heap p ≡ none
      → Step welcome s
          (record s { main = accepting; client_addr = p; heap = update s.heap p (some 0) })
  main_fails : s.exited ≡ false → Step welcome s (record s { exited = true })
  -- the thread makes its welcome message from what it finds at its pointer
  begin_thread :
      (i : ℕ) {p a : ℕ}
      → s.exited ≡ false
      → i < s.spawned
      → s.threads i ≡ created p
      → s.heap p ≡ some a
      → Step welcome s
          (record s { threads = update s.threads i (handling p (begin (welcome a)) Pc.welcoming) })
  handle :
      (i : ℕ) {p : ℕ} {h : State} {pc : Pc} (r : Reply)
      → s.exited ≡ false
      → i < s.spawned
      → s.threads i ≡ handling p h pc
      → Possible h pc r
      → Step welcome s (record s {
        threads =
            update s.threads i
              (handling p (connection_handler h pc r).0 (connection_handler h pc r).1);
        exited = is_exit (connection_handler h pc r).1;
      })
  -- `free(args->client_addr)` and the end of the thread
  end_thread :
      (i : ℕ) {p : ℕ} {h : State}
      → s.exited ≡ false
      → i < s.spawned
      → s.threads i ≡ handling p h Pc.returned
      → Step welcome s (record s { heap = update s.heap p none; threads = update s.threads i done })

pub data Reach (welcome : ℕ → List ℕ) (s : Server) : Server → Type 0 where
  here : Reach welcome s s
  then_step : {t u : Server} → Reach welcome s t → Step welcome t u → Reach welcome s u
