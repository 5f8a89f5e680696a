-- ===== src/EchoLog/Server.antt =====
-- main() of echo_server_mt_logger.c with its handler threads, each of which calls my_log. A thread
-- stands at a call of connection_handler, or in the my_log that it has called from there; where it
-- stands in my_log is in `ring.callers`, with main() at 0 and the i-th handler at i + 1.
mod Serves
mod Tests
use c_teaching.Prelude.{
  ℕ, suc, ◌≤◌, ◌<◌, ◌≡◌, Option, none, some, Bool, true, false, List, [], ◌∷◌, ◌++◌,
}
use c_teaching.Sys.{Reply, ok}
use c_teaching.Threads.{update}
use c_teaching.Limited.Threaded.{no_error}
use c_teaching.EchoLog
use c_teaching.EchoLog.{
  Shared, Caller, outside, wait_empty, line, Logger, Event, silent, called, CallerMove, LoggerMove,
  System,
}
use c_teaching.EchoLog.Handler.{
  Texts, Handler, Pc, welcoming, logging, logging_end, exited, overrun, log_message, step,
  start_handler, Possible,
}

-- Where main() stands in its `while (1)`: before accept(), in my_log, before pthread_create(), and
-- in my_log again.
pub data Main : Type 0 where
  accepting logging_accepted creating logging_created : Main

pub data Thread : Type 0 where
  created : Thread
  at : Handler → Pc → Thread

pub record Server : Type 0 where
  pub ring : System
  pub main : Main
  pub spawned : ℕ  -- how many handlers there have been; they are the indices below
  pub threads : ℕ → Thread

abbrev pub init : Server
init = record { ring = EchoLog.init; main = accepting; spawned = 0; threads = λ _. created }

-- "Incoming connection accepted" and "New thread created to handle the request".
pub record MainTexts : Type 0 where
  pub accepted : List ℕ
  pub new_thread : List ℕ

-- The message of the my_log that a handler is in.
abbrev pub message : Texts → Handler → Pc → Option (List ℕ)
message t h logging = some (log_message t h.io.buf)
message t h logging_end = some t.completed
message t h pc = none

-- The thread is in my_log.
abbrev pub inside : Caller → Bool
inside outside = false
inside _ = true

-- No exit() by ERROR_HELPER, and no write past the end of buf.
abbrev pub goes_on : Pc → Bool
goes_on exited = false
goes_on overrun = false
goes_on _ = true

-- The thread `me` has called my_log.
abbrev pub enter : System → ℕ → List ℕ → System
enter ring me msg = record ring { callers = update ring.callers me (wait_empty (line msg)) }

abbrev pub stop : System → System
stop ring = record ring { exited = true }

-- A step, with what it does to the log. `texts i` are those of the i-th client.
pub data Step (main_texts : MainTexts) (texts : ℕ → Texts) (s : Server)
    : List Event → Server → Type 0 where
  accept :
      s.ring.exited ≡ false
      → s.main ≡ accepting
      → s.ring.callers 0 ≡ outside
      → Step main_texts texts s
          (called 0 main_texts.accepted ∷ [])
          (record s { main = logging_accepted; ring = enter s.ring 0 main_texts.accepted })
  accept_interrupted : s.ring.exited ≡ false → s.main ≡ accepting → Step main_texts texts s [] s
  accept_logged :
      s.ring.exited ≡ false
      → s.main ≡ logging_accepted
      → s.ring.callers 0 ≡ outside
      → Step main_texts texts s [] (record s { main = creating })
  create :
      s.ring.exited ≡ false
      → s.main ≡ creating
      → s.ring.callers 0 ≡ outside
      → Step main_texts texts s (called 0 main_texts.new_thread ∷ []) (record s {
        main = logging_created;
        ring = enter s.ring 0 main_texts.new_thread;
        spawned = suc s.spawned;
        threads = update s.threads s.spawned created;
      })
  create_logged :
      s.ring.exited ≡ false
      → s.main ≡ logging_created
      → s.ring.callers 0 ≡ outside
      → Step main_texts texts s [] (record s { main = accepting })
  begin_thread :
      (i : ℕ)
      → s.ring.exited ≡ false
      → i < s.spawned
      → s.threads i ≡ created
      → Step main_texts texts s [] (record s {
        threads = update s.threads i (at (start_handler no_error (texts i)) (welcoming 0));
      })
  handle :
      (i : ℕ) {h : Handler} {pc : Pc} (r : Reply)
      → s.ring.exited ≡ false
      → i < s.spawned
      → s.threads i ≡ at h pc
      → message (texts i) h pc ≡ none
      → Possible h pc r
      → message (texts i) (step (texts i) h pc r).0 (step (texts i) h pc r).1 ≡ none
      → goes_on (step (texts i) h pc r).1 ≡ true
      → Step main_texts texts s [] (record s {
        threads = update s.threads i (at (step (texts i) h pc r).0 (step (texts i) h pc r).1);
      })
  -- an exit() by ERROR_HELPER, which ends the process; or a write past the end of buf, after which
  -- nothing is known, so that a run ends there as well
  handle_stops :
      (i : ℕ) {h : Handler} {pc : Pc} (r : Reply)
      → s.ring.exited ≡ false
      → i < s.spawned
      → s.threads i ≡ at h pc
      → message (texts i) h pc ≡ none
      → Possible h pc r
      → message (texts i) (step (texts i) h pc r).0 (step (texts i) h pc r).1 ≡ none
      → goes_on (step (texts i) h pc r).1 ≡ false
      → Step main_texts texts s (silent ∷ []) (record s {
        ring = stop s.ring;
        threads = update s.threads i (at (step (texts i) h pc r).0 (step (texts i) h pc r).1);
      })
  handle_logs :
      (i : ℕ) {h : Handler} {pc : Pc} {msg : List ℕ} (r : Reply)
      → s.ring.exited ≡ false
      → i < s.spawned
      → s.threads i ≡ at h pc
      → message (texts i) h pc ≡ none
      → Possible h pc r
      → message (texts i) (step (texts i) h pc r).0 (step (texts i) h pc r).1 ≡ some msg
      → s.ring.callers (suc i) ≡ outside
      → Step main_texts texts s (called (suc i) msg ∷ []) (record s {
        ring = enter s.ring (suc i) msg;
        threads = update s.threads i (at (step (texts i) h pc r).0 (step (texts i) h pc r).1);
      })
  -- my_log returns to the handler
  handle_logged :
      (i : ℕ) {h : Handler} {pc : Pc} {msg : List ℕ}
      → s.ring.exited ≡ false
      → i < s.spawned
      → s.threads i ≡ at h pc
      → message (texts i) h pc ≡ some msg
      → s.ring.callers (suc i) ≡ outside
      → Step main_texts texts s [] (record s {
        threads =
            update s.threads i (at (step (texts i) h pc (ok 0)).0 (step (texts i) h pc (ok 0)).1);
      })
  in_my_log :
      (i : ℕ) {e : Event} {m : Shared} {c : Caller}
      → s.ring.exited ≡ false
      → i ≤ s.spawned
      → inside (s.ring.callers i) ≡ true
      → CallerMove i s.ring.mem (s.ring.callers i) e m c
      → Step main_texts texts s
          (e ∷ [])
          (record s { ring = record s.ring { mem = m; callers = update s.ring.callers i c } })
  logger :
      {e : Event} {m : Shared} {c : Logger}
      → s.ring.exited ≡ false
      → LoggerMove s.ring.mem s.ring.logger e m c
      → Step main_texts texts s (e ∷ []) (record s { ring = record s.ring { mem = m; logger = c } })
  -- a failed call in any thread, and ERROR_HELPER
  end_process :
      s.ring.exited ≡ false
      → Step main_texts texts s (silent ∷ []) (record s { ring = stop s.ring })

-- The runs, with what they have done to the log, the last event first.
pub data Reach (main_texts : MainTexts) (texts : ℕ → Texts) : Server → List Event → Type 0 where
  here : Reach main_texts texts init []
  then_step :
      {s t : Server} {es h : List Event}
      → Reach main_texts texts s h
      → Step main_texts texts s es t
      → Reach main_texts texts t (es ++ h)
