-- ===== src/PipeServer.antt =====
-- lab09-fifo-logger/Logger/server.c as a whole: main() and the threads of connection_handler in the
-- server process, whose standard error is the pipe, and the Logger process that reads the pipe.
-- connection_handler makes the calls of the one of Servers, with a line printed before and after.
mod Lines
mod Logged
mod Tests
use c_teaching.Prelude.{
  ℕ, suc, ◌<◌, ◌≡◌, ◌==◌, if◌then◌else◌, Bool, true, false, Option, none, some, List, [], ◌∷◌, ◌++◌,
}
use c_teaching.Sys.{Answer, Reply}
use c_teaching.Threads.{update}
use c_teaching.Servers.Handler
use c_teaching.Servers.Handler.{begin}
use c_teaching.Logger
use c_teaching.Logger.Run

-- Where main() stands after the fork(): before close() of the log file and of the pipe's reading
-- end, dup2(), the line of the start, accept(), the line that DEBUG prints, pthread_create() and
-- calloc(); or in the macro for errors, before its line, its kill() and its exit().
pub data Main : Type 0 where
  closing_log closing_pipe redirecting booting accepting debugging creating allocating : Main
  reporting killing exiting : Main

-- A thread with the pointer to its client_addr and the address that it has read there: before it
-- reads the address, before its first line, in the calls of connection_handler, before its last
-- line, before the two free(); in the macro, where a killing thread has printed `line`; or ended.
pub data Thread : Type 0 where
  absent : Thread
  created : (client_addr : ℕ) → Thread
  announcing : (client_addr address : ℕ) → Thread
  handling : (client_addr address : ℕ) → Handler.State → Handler.Pc → Thread
  leaving freeing : (client_addr address : ℕ) → Handler.State → Thread
  reporting : (address : ℕ) → Thread
  killing exiting : (address : ℕ) → (line : List ℕ) → Thread
  done : (address : ℕ) → Thread

-- What is printed on standard error: by a thread, or by main().
pub record Line : Type 0 where
  pub author : Option ℕ
  pub text : List ℕ

-- A cell of the heap holds a struct sockaddr_in, given by a number; `none` is not allocated.
-- `printed` is all that has gone into the pipe; no step reads it.
pub record Server : Type 0 where
  pub main : Main
  pub client_addr : ℕ
  pub heap : ℕ → Option ℕ
  pub spawned : ℕ
  pub threads : ℕ → Thread
  pub exited : Bool  -- whether the server process has ended
  pub printed : List Line
  pub logger : Logger.State
  pub logger_pc : Logger.Pc

-- After the fork(), with the first client_addr at `p`.
abbrev pub init : ℕ → Server
init p = record {
  main = closing_log;
  client_addr = p;
  heap = update (λ _. none) p (some 0);
  spawned = 0;
  threads = λ _. absent;
  exited = false;
  printed = [];
  logger = Logger.init;
  logger_pc = Logger.reading;
}

-- fprintf(stderr, …) on the pipe.
abbrev pub print : Server → Option ℕ → List ℕ → Server
print s author text = record s {
  printed = s.printed ++ record { author = author; text = text } ∷ [];
  logger = record s.logger { pipe = s.logger.pipe ++ text; served = s.logger.served ++ text };
}

abbrev pub set_thread : Server → ℕ → Thread → Server
set_thread s i new = record s { threads = update s.threads i new }

-- `kill(logger_pid, SIGTERM)`, and what its handler does.
abbrev pub signal_logger : Server → Server
signal_logger s = record s { logger = record s.logger { should_stop = true } }

-- The end of the process closes its end of the pipe.
abbrev pub end_server : Server → Server
end_server s = record s { exited = true; logger = record s.logger { writers = false } }

-- What follows a call of connection_handler.
abbrev pub after_call : ℕ → ℕ → Handler.State → Handler.Pc → Thread
after_call p a h Handler.Pc.returned = leaving p a h
after_call p a h Handler.Pc.exited = reporting a
after_call p a h pc = handling p a h pc

-- The calls before dup2() whose failure ends the server.
abbrev pub sets_up : Main → Bool
sets_up closing_log = true
sets_up closing_pipe = true
sets_up redirecting = true
sets_up _ = false

-- The calls after which main() may be in the macro with standard error on the pipe.
abbrev pub may_fail : Main → Bool
may_fail accepting = true
may_fail creating = true
may_fail _ = false

-- The texts: the welcome message for an address, and the lines of main() and of the threads, with
-- the number of the thread and the address.
pub record Texts : Type 0 where
  pub welcome : ℕ → List ℕ
  pub starting : List ℕ
  pub accepted : List ℕ
  pub handles : ℕ → ℕ → List ℕ
  pub closes : ℕ → ℕ → List ℕ

module _ (texts : Texts) where
  -- The steps of the server process from the fork() on, and of the Logger from its first read() on.
  pub data Step (s : Server) : Server → Type 0 where
    close_log : s.exited ≡ false → s.main ≡ closing_log → Step s (record s { main = closing_pipe })
    close_pipe : s.exited ≡ false → s.main ≡ closing_pipe → Step s (record s { main = redirecting })
    redirect : s.exited ≡ false → s.main ≡ redirecting → Step s (record s { main = booting })
    -- the line of an error goes to the terminal
    set_up_fails : s.exited ≡ false → sets_up s.main ≡ true → Step s (record s { main = killing })
    boot :
        s.exited ≡ false
        → s.main ≡ booting
        → Step s (print (record s { main = accepting }) none texts.starting)
    -- accept(), repeated while it is interrupted, writes the address of the peer through main()'s pointer
    accept :
        (peer : ℕ)
        → s.exited ≡ false
        → s.main ≡ accepting
        → Step s (record s { main = debugging; heap = update s.heap s.client_addr (some peer) })
    debug :
        s.exited ≡ false
        → s.main ≡ debugging
        → Step s (print (record s { main = creating }) none texts.accepted)
    create :
        s.exited ≡ false
        → s.main ≡ creating
        → Step s (record s {
          main = allocating;
          spawned = suc s.spawned;
          threads = update s.threads s.spawned (created s.client_addr);
        })
    allocate :
        (p : ℕ)
        → s.exited ≡ false
        → s.main ≡ allocating
        → s.heap p ≡ none
        → Step s (record s { main = accepting; client_addr = p; heap = update s.heap p (some 0) })
    -- accept() or pthread_create() fails
    main_fails : s.exited ≡ false → may_fail s.main ≡ true → Step s (record s { main = reporting })
    main_reports :
        (text : List ℕ)
        → s.exited ≡ false
        → s.main ≡ reporting
        → Step s (print (record s { main = killing }) none text)
    main_kills :
        s.exited ≡ false → s.main ≡ killing → Step s (signal_logger (record s { main = exiting }))
    main_exits : s.exited ≡ false → s.main ≡ exiting → Step s (end_server s)
    read_address :
        (i : ℕ) {p a : ℕ}
        → s.exited ≡ false
        → i < s.spawned
        → s.threads i ≡ created p
        → s.heap p ≡ some a
        → Step s (set_thread s i (announcing p a))
    announce :
        (i : ℕ) {p a : ℕ}
        → s.exited ≡ false
        → i < s.spawned
        → s.threads i ≡ announcing p a
        → Step s (
            print
              (set_thread s i (handling p a (begin (texts.welcome a)) Handler.Pc.welcoming))
              (some i)
              (texts.handles i a))
    handle :
        (i : ℕ) {p a : ℕ} {h : Handler.State} {pc : Handler.Pc} (r : Reply)
        → s.exited ≡ false
        → i < s.spawned
        → s.threads i ≡ handling p a h pc
        → Handler.Possible h pc r
        → Step s (set_thread s i (after_call p a (Handler.step h pc r).0 (Handler.step h pc r).1))
    leave :
        (i : ℕ) {p a : ℕ} {h : Handler.State}
        → s.exited ≡ false
        → i < s.spawned
        → s.threads i ≡ leaving p a h
        → Step s (print (set_thread s i (freeing p a h)) (some i) (texts.closes i a))
    free :
        (i : ℕ) {p a : ℕ} {h : Handler.State}
        → s.exited ≡ false
        → i < s.spawned
        → s.threads i ≡ freeing p a h
        → Step s (record (set_thread s i (done a)) { heap = update s.heap p none })
    thread_reports :
        (i : ℕ) {a : ℕ} (text : List ℕ)
        → s.exited ≡ false
        → i < s.spawned
        → s.threads i ≡ reporting a
        → Step s (print (set_thread s i (killing a text)) (some i) text)
    kill :
        (i : ℕ) {a : ℕ} {text : List ℕ}
        → s.exited ≡ false
        → i < s.spawned
        → s.threads i ≡ killing a text
        → Step s (signal_logger (set_thread s i (exiting a text)))
    exit :
        (i : ℕ) {a : ℕ} {text : List ℕ}
        → s.exited ≡ false
        → i < s.spawned
        → s.threads i ≡ exiting a text
        → Step s (end_server s)
    -- a signal ends the server, as that of a write to the pipe of a Logger that has ended
    killed : s.exited ≡ false → Step s (end_server s)
    -- a signal comes to the Logger
    signalled : Step s (signal_logger s)
    logs :
        (a : Answer)
        → Logger.Run.Possible s.logger s.logger_pc a
        → Step s (record s {
          logger = (Logger.step s.logger s.logger_pc a).0;
          logger_pc = (Logger.step s.logger s.logger_pc a).1;
        })

  pub data Reach (s : Server) : Server → Type 0 where
    here : Reach s s
    then_step : {t u : Server} → Reach s t → Step t u → Reach s u
