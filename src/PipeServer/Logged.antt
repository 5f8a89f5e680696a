-- ===== src/PipeServer/Logged.antt =====
-- The log file of lab09's server against the lines that main() and the threads print.
use c_teaching.Prelude.{
  ℕ, suc, ◌<◌, ◌≤◌, ◌≡◌, refl, ap, sym, subst, ◌∙◌, true, false, Option, none, some, List, [], ◌∷◌,
  ◌++◌, arith,
}
use c_teaching.Sys.{Answer}
use c_teaching.Threads.{update, update-all, update-cases}
use c_teaching.Servers.Handler
use c_teaching.Servers.Handler.{begin}
use c_teaching.Servers.Sent
use c_teaching.Logger
use c_teaching.Logger.Run
use c_teaching.Logger.Correct.{log-IsPrefix, log-ended}
use c_teaching.PipeServer.{
  Line, Main, accepting, creating, allocating, killing, exiting, Thread, absent, created,
  announcing, handling, freeing, Texts, Server, init, print, set_thread, signal_logger, end_server,
  after_call, Step, Reach, here, then_step,
}
use c_teaching.PipeServer.Lines.{text_of, text_of-snoc, own, own-snoc, own-snoc_other, printed_at}

module _ (texts : Texts) where
  -- Some run of connection_handler leads there.
  abbrev pub Runs : Thread → Type 0
  Runs (handling p a h pc) =
      (got : List ℕ) × (lost : ℕ) × Sent.Reach (texts.welcome a) h pc got lost
  Runs _ = Unit {0}

  pub record Inv (s : Server) : Type 0 where
    pub logs : Logger.Run.Reach Logger.init Logger.reading s.logger s.logger_pc
    pub open_pipe : s.exited ≡ false → s.logger.writers ≡ true
    pub served : s.logger.served ≡ text_of s.printed
    pub lines : (i : ℕ) → own i s.printed ≡ printed_at texts i (s.threads i)
    pub unborn : (i : ℕ) → s.spawned ≤ i → s.threads i ≡ absent
    pub runs : (i : ℕ) → Runs (s.threads i)

  init-Inv : (p : ℕ) → Inv (init p)
  init-Inv p = record {
    logs = Logger.Run.here;
    open_pipe = λ up. refl;
    served = refl;
    lines = λ i. refl;
    unborn = λ i ge. refl;
    runs = λ i. tt;
  }

  -- main() prints a line.
  main_prints-Inv :
      (s : Server) (text : List ℕ) → s.exited ≡ false → Inv s → Inv (print s none text)
  main_prints-Inv s text up inv = record {
    logs = Logger.Run.served_bytes text inv.logs (inv.open_pipe up);
    open_pipe = inv.open_pipe;
    served =
        ap (λ k. k ++ text) inv.served
        ∙ sym (text_of-snoc s.printed (record { author = none; text = text }));
    lines =
        λ i. own-snoc_other i s.printed (record { author = none; text = text }) refl ∙ inv.lines i;
    unborn = inv.unborn;
    runs = inv.runs;
  }

  -- A thread goes on without a line.
  thread-Inv :
      (s : Server) (i : ℕ) (new : Thread)
      → i < s.spawned
      → printed_at texts i new ≡ printed_at texts i (s.threads i)
      → Runs new
      → Inv s
      → Inv (set_thread s i new)
  thread-Inv s i new lt same run inv = record {
    logs = inv.logs;
    open_pipe = inv.open_pipe;
    served = inv.served;
    lines =
        update-all (λ j t. own j s.printed ≡ printed_at texts j t) s.threads i new inv.lines
          (inv.lines i ∙ sym same);
    unborn = λ j ge. ground (arith, inv.unborn j ge);
    runs = update-all (λ j t. Runs t) s.threads i new inv.runs run;
  }

  -- A thread prints a line and goes on.
  thread_prints-Inv :
      (s : Server) (i : ℕ) (new : Thread) (text : List ℕ)
      → s.exited ≡ false
      → i < s.spawned
      → printed_at texts i new ≡ printed_at texts i (s.threads i) ++ text ∷ []
      → Runs new
      → Inv s
      → Inv (print (set_thread s i new) (some i) text)
  thread_prints-Inv s i new text up lt more run inv = record {
    logs = Logger.Run.served_bytes text inv.logs (inv.open_pipe up);
    open_pipe = inv.open_pipe;
    served = ap (λ k. k ++ text) inv.served ∙ sym (text_of-snoc s.printed line);
    lines =
        update-cases (λ j t. own j (s.printed ++ line ∷ []) ≡ printed_at texts j t) s.threads i new
          (own-snoc i s.printed line (ground arith)
            ∙ ap (λ k. k ++ text ∷ []) (inv.lines i)
            ∙ sym more)
          (λ j ne. own-snoc_other j s.printed line ne ∙ inv.lines j);
    unborn = λ j ge. ground (arith, inv.unborn j ge);
    runs = update-all (λ j t. Runs t) s.threads i new inv.runs run;
  }
    where
      line : Line
      line = record { author = some i; text = text }

  signal-Inv : (s : Server) → Inv s → Inv (signal_logger s)
  signal-Inv s inv = record {
    logs = Logger.Run.signalled inv.logs;
    open_pipe = inv.open_pipe;
    served = inv.served;
    lines = inv.lines;
    unborn = inv.unborn;
    runs = inv.runs;
  }

  end-Inv : (s : Server) → Inv s → Inv (end_server s)
  end-Inv s inv = record {
    logs = Logger.Run.hung_up inv.logs;
    open_pipe = λ up. cc;
    served = inv.served;
    lines = inv.lines;
    unborn = inv.unborn;
    runs = inv.runs;
  }

  -- main() goes on without a line.
  main-Inv :
      (s : Server) (main : Main) (client_addr : ℕ) (heap : ℕ → Option ℕ)
      → Inv s
      → Inv (record s { main = main; client_addr = client_addr; heap = heap })
  main-Inv s main client_addr heap inv = record {
    logs = inv.logs;
    open_pipe = inv.open_pipe;
    served = inv.served;
    lines = inv.lines;
    unborn = inv.unborn;
    runs = inv.runs;
  }

  create-Inv :
      (s : Server)
      → Inv s
      → Inv (record s {
        main = allocating;
        spawned = suc s.spawned;
        threads = update s.threads s.spawned (created s.client_addr);
      })
  create-Inv s inv = record {
    logs = inv.logs;
    open_pipe = inv.open_pipe;
    served = inv.served;
    lines =
        update-all (λ j t. own j s.printed ≡ printed_at texts j t) s.threads s.spawned
          (created s.client_addr) inv.lines
          (inv.lines s.spawned
            ∙ ap (printed_at texts s.spawned) (inv.unborn s.spawned (omega arith)));
    unborn = λ j ge. ground (arith, inv.unborn j (omega (arith, ge)));
    runs = update-all (λ j t. Runs t) s.threads s.spawned (created s.client_addr) inv.runs tt;
  }

  logs-Inv :
      (s : Server) (a : Answer)
      → Logger.Run.Possible s.logger s.logger_pc a
      → Inv s
      → Inv (record s {
        logger = (Logger.step s.logger s.logger_pc a).0;
        logger_pc = (Logger.step s.logger s.logger_pc a).1;
      })
  logs-Inv s a possible inv = record {
    logs = Logger.Run.answered a inv.logs possible;
    open_pipe = λ up. kept.1 ∙ inv.open_pipe up;
    served = kept.0 ∙ inv.served;
    lines = inv.lines;
    unborn = inv.unborn;
    runs = inv.runs;
  }
    where
      kept :
          ((Logger.step s.logger s.logger_pc a).0.served ≡ s.logger.served)
          × ((Logger.step s.logger s.logger_pc a).0.writers ≡ s.logger.writers)
      kept = Logger.Run.step_keeps s.logger s.logger_pc a

  printed_at-after_call :
      (i p a : ℕ) (h : Handler.State) (pc : Handler.Pc)
      → printed_at texts i (after_call p a h pc) ≡ texts.handles i a ∷ []
  printed_at-after_call i p a h Handler.Pc.returned = refl
  printed_at-after_call i p a h Handler.Pc.exited = refl
  printed_at-after_call i p a h pc = refl

  after_call-Runs :
      (p a : ℕ) (h : Handler.State) (pc : Handler.Pc)
      → Runs (handling p a h pc)
      → Runs (after_call p a h pc)
  after_call-Runs p a h Handler.Pc.returned run = tt
  after_call-Runs p a h Handler.Pc.exited run = tt
  after_call-Runs p a h pc run = run

  step-Inv : {s t : Server} → Step texts s t → Inv s → Inv t
  step-Inv {s} (Step.close_log up at) inv = main-Inv s _ _ _ inv
  step-Inv {s} (Step.close_pipe up at) inv = main-Inv s _ _ _ inv
  step-Inv {s} (Step.redirect up at) inv = main-Inv s _ _ _ inv
  step-Inv {s} (Step.set_up_fails up at) inv = main-Inv s _ _ _ inv
  step-Inv {s} (Step.boot up at) inv =
      main_prints-Inv _ _ up (main-Inv s accepting s.client_addr s.heap inv)
  step-Inv {s} (Step.accept peer up at) inv = main-Inv s _ _ _ inv
  step-Inv {s} (Step.debug up at) inv =
      main_prints-Inv _ _ up (main-Inv s creating s.client_addr s.heap inv)
  step-Inv {s} (Step.create up at) inv = create-Inv s inv
  step-Inv {s} (Step.allocate p up at free) inv = main-Inv s _ _ _ inv
  step-Inv {s} (Step.main_fails up at) inv = main-Inv s _ _ _ inv
  step-Inv {s} (Step.main_reports text up at) inv =
      main_prints-Inv _ _ up (main-Inv s killing s.client_addr s.heap inv)
  step-Inv {s} (Step.main_kills up at) inv =
      signal-Inv _ (main-Inv s exiting s.client_addr s.heap inv)
  step-Inv {s} (Step.main_exits up at) inv = end-Inv s inv
  step-Inv {s} (Step.read_address i {p} {a} up lt at there) inv =
      thread-Inv s i (announcing p a) lt (rw at refl) tt inv
  step-Inv {s} (Step.announce i {p} {a} up lt at) inv =
      thread_prints-Inv s i (handling p a (begin (texts.welcome a)) Handler.Pc.welcoming)
        (texts.handles i a) up lt (rw at refl) ([], 0, Sent.start) inv
  step-Inv {s} (Step.handle i {p} {a} {h} {pc} r up lt at possible) inv =
      let (got, lost, run) = rw at at (inv.runs i) in
      thread-Inv s i (after_call p a (Handler.step h pc r).0 (Handler.step h pc r).1) lt
        (rw at (printed_at-after_call i p a (Handler.step h pc r).0 (Handler.step h pc r).1))
        (after_call-Runs p a (Handler.step h pc r).0 (Handler.step h pc r).1
          (_, _, Sent.next r run possible))
        inv
  step-Inv {s} (Step.leave i {p} {a} {h} up lt at) inv =
      thread_prints-Inv s i (freeing p a h) (texts.closes i a) up lt (rw at refl) tt inv
  step-Inv {s} (Step.free i {p} {a} up lt at) inv =
      main-Inv _ _ _ _ (thread-Inv s i (Thread.done a) lt (rw at refl) tt inv)
  step-Inv {s} (Step.thread_reports i {a} text up lt at) inv =
      thread_prints-Inv s i (Thread.killing a text) text up lt (rw at refl) tt inv
  step-Inv {s} (Step.kill i {a} {text} up lt at) inv =
      signal-Inv _ (thread-Inv s i (Thread.exiting a text) lt (rw at refl) tt inv)
  step-Inv {s} (Step.exit i up lt at) inv = end-Inv s inv
  step-Inv {s} (Step.killed up) inv = end-Inv s inv
  step-Inv {s} Step.signalled inv = signal-Inv s inv
  step-Inv {s} (Step.logs a possible) inv = logs-Inv s a possible inv

  Reach-Inv : {p : ℕ} {s : Server} → Reach texts (init p) s → Inv s
  Reach-Inv {p} here = init-Inv p
  Reach-Inv (then_step run step) = step-Inv step (Reach-Inv run)

-- In every reachable state of the whole server.c: the log file is a prefix of the lines that main()
-- and the threads have printed, joined in their order; the lines of a thread are, in order, those
-- that it prints before the call at which it stands; and a thread that makes the calls of
-- connection_handler has got there by a run of its own.
pub pipe_log :
    {texts : Texts} {p : ℕ} {s : Server}
    → Reach texts (init p) s
    → ((rest : List ℕ) × (s.logger.log ++ rest ≡ text_of s.printed))
      × ((i : ℕ) → own i s.printed ≡ printed_at texts i (s.threads i))
      × ((i : ℕ) → Runs texts (s.threads i))
pipe_log {texts} run =
    let inv = Reach-Inv texts run in
    let (rest, eq) = log-IsPrefix inv.logs in ((rest, eq ∙ inv.served), inv.lines, inv.runs)

-- When the Logger has ended with success and no signal has come to it, the log file of the whole
-- server.c is all the lines that main() and the threads have printed, joined in their order.
pub pipe_log_whole :
    {texts : Texts} {p : ℕ} {s : Server}
    → Reach texts (init p) s
    → s.logger_pc ≡ Logger.Pc.ended
    → s.logger.should_stop ≡ false
    → s.logger.log ≡ text_of s.printed
pipe_log_whole {texts} {s} run at calm =
    let inv = Reach-Inv texts run in
    log-ended (subst (λ pc. Logger.Run.Reach Logger.init Logger.reading s.logger pc) at inv.logs)
      calm
    ∙ inv.served
