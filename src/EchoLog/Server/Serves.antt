-- ===== src/EchoLog/Server/Serves.antt =====
-- What each handler of echo_server_mt_logger.c leaves in the log file, whatever the other threads do.
use c_teaching.Prelude.{
  join, ℕ, suc, ◌+◌, ◌≤◌, ◌<◌, ◌≡◌, refl, sym, ap, subst, ◌∙◌, ◌==◌, length, take, map, map-append,
  append-nil, Option, none, some, true, false, List, [], ◌∷◌, ◌++◌, arith, Bool-cases, inl, inr,
}
use c_teaching.Sys.{Errno, Reply, ok}
use c_teaching.Limited.Handler.{is_quit}
use c_teaching.Threads.{update, update-cases}
use c_teaching.Limited.Threaded.{no_error}
use c_teaching.EchoLog
use c_teaching.EchoLog.{
  Shared, Caller, outside, wait_empty, line, Logger, Event, silent, called, stored, took,
  CallerMove, LoggerMove, System,
}
use c_teaching.EchoLog.Run
use c_teaching.EchoLog.Run.{lines, lines_of, taken, to_log, pending, rest}
use c_teaching.EchoLog.Safety.{log-lines}
use c_teaching.EchoLog.Handler.{Texts, Handler, Pc, logging, logging_end, step, Possible}
use c_teaching.EchoLog.Handler.Logged
use c_teaching.EchoLog.Server.{
  inside, Main, Thread, created, at, Server, MainTexts, message, Step, accept, accept_interrupted,
  accept_logged, create, create_logged, begin_thread, handle, handle_stops, handle_logs,
  handle_logged, in_my_log, logger, end_process, Reach, here, then_step,
}

Reach-le : {n k : ℕ} {s : System} {h : List Event} → n ≤ k → Run.Reach n s h → Run.Reach k s h
Reach-le le Run.start = Run.start
Reach-le le (Run.later r (Run.caller i run lt mv)) =
    Run.later (Reach-le le r) (Run.caller i run (omega arith) mv)
Reach-le le (Run.later r (Run.logger run mv)) = Run.later (Reach-le le r) (Run.logger run mv)
Reach-le le (Run.later r (Run.exits run)) = Run.later (Reach-le le r) (Run.exits run)

-- A call of my_log in a ring in which the thread is outside it.
enter-Reach :
    {n : ℕ} {ring : System} {h : List Event} (me : ℕ) (msg : List ℕ)
    → ring.exited ≡ false
    → me < n
    → ring.callers me ≡ outside
    → Run.Reach n ring h
    → Run.Reach n (EchoLog.Server.enter ring me msg) (called me msg ∷ h)
enter-Reach {n} {ring} me msg up lt out r =
    Run.later r (Run.caller me up lt (rw out (CallerMove.call msg)))

module _ {main_texts : MainTexts} {texts : ℕ → Texts} where
  -- The log buffer and the logger go through a run of my_log and logger.
  Reach-ring :
      {s : Server} {h : List Event}
      → Reach main_texts texts s h
      → Run.Reach (suc s.spawned) s.ring h
  Reach-ring here = Run.start
  Reach-ring (then_step r (accept up a out)) =
      enter-Reach 0 main_texts.accepted up (omega arith) out (Reach-ring r)
  Reach-ring (then_step r (accept_interrupted up a)) = Reach-ring r
  Reach-ring (then_step r (accept_logged up a out)) = Reach-ring r
  Reach-ring (then_step r (create up a out)) =
      Reach-le (omega arith)
        (enter-Reach 0 main_texts.new_thread up (omega arith) out (Reach-ring r))
  Reach-ring (then_step r (create_logged up a out)) = Reach-ring r
  Reach-ring (then_step r (begin_thread i up lt a)) = Reach-ring r
  Reach-ring (then_step r (handle i reply up lt a idle p idle' on)) = Reach-ring r
  Reach-ring (then_step r (handle_stops i reply up lt a idle p idle' off)) =
      Run.later (Reach-ring r) (Run.exits up)
  Reach-ring (then_step r (handle_logs i {msg = msg} reply up lt a idle p says out)) =
      enter-Reach (suc i) msg up (omega arith) out (Reach-ring r)
  Reach-ring (then_step r (handle_logged i up lt a says out)) = Reach-ring r
  Reach-ring (then_step r (in_my_log i up le within mv)) =
      Run.later (Reach-ring r) (Run.caller i up (omega arith) mv)
  Reach-ring (then_step r (logger up mv)) = Run.later (Reach-ring r) (Run.logger up mv)
  Reach-ring (then_step r (end_process up)) = Run.later (Reach-ring r) (Run.exits up)

-- The message of the my_log that a handler is in, as a list.
abbrev pub present : Option (List ℕ) → List (List ℕ)
present none = []
present (some msg) = msg ∷ []

-- A handler has got where it stands by a run of connection_handler of its own, and `ls` are the
-- lines of the messages with which this run has called my_log.
abbrev pub Serves : Texts → Thread → List (List ℕ) → Type 0
Serves t created ls = ls ≡ []
Serves t (at h pc) ls =
    (got : List (List ℕ)) × (k : ℕ) × Logged.Reach no_error t h pc got k
    × (ls ≡ map line (h.logged ++ present (message t h pc)))

-- A step outside my_log logs nothing itself; the return from my_log is the end of the call.
step-logged :
    (t : Texts) (h : Handler) (pc : Pc) (r : Reply)
    → message t h pc ≡ none
    → (step t h pc r).0.logged ≡ h.logged
unfolding step
step-logged t h (Pc.welcoming sent) (ok n) e = refl
step-logged t h (Pc.welcoming sent) r e = refl
step-logged t h Pc.receiving (Reply.bytes []) e = refl
step-logged t h Pc.receiving (Reply.bytes (x ∷ xs)) e = refl
step-logged t h Pc.receiving (Reply.fail Errno.eintr) e = refl
step-logged t h Pc.receiving r e = refl
step-logged t h logging r e = cc
step-logged t h (Pc.echoing sent) (ok n) e = refl
step-logged t h (Pc.echoing sent) r e = refl
step-logged t h Pc.closing (ok n) e = refl
step-logged t h Pc.closing r e = refl
step-logged t h logging_end r e = cc
step-logged t h Pc.returned r e = refl
step-logged t h Pc.exited r e = refl
step-logged t h Pc.overrun r e = refl

said-logged :
    (t : Texts) (h : Handler) (pc : Pc) (msg : List ℕ)
    → message t h pc ≡ some msg
    → (step t h pc (ok 0)).0.logged
        ++ present (message t (step t h pc (ok 0)).0 (step t h pc (ok 0)).1)
      ≡ h.logged ++ present (message t h pc)
unfolding step
said-logged t h logging msg e = elim (Bool-cases (is_quit h.io.buf)) [
  | inl quit ↦ rw quit (append-nil _)
  | inr other ↦ rw other (append-nil _)
]
said-logged t h logging_end msg e = append-nil _
said-logged t h pc msg e = cc

said-Possible :
    (t : Texts) (h : Handler) (pc : Pc) (msg : List ℕ)
    → message t h pc ≡ some msg
    → Possible h pc (ok 0)
said-Possible t h logging msg e = tt
said-Possible t h logging_end msg e = tt
said-Possible t h pc msg e = cc

-- A move inside my_log is no call of it.
inside-to_log :
    {me : ℕ} {m m' : Shared} {c c' : Caller} {e : Event} (h : List Event)
    → CallerMove me m c e m' c'
    → inside c ≡ true
    → (j : ℕ) → to_log j (e ∷ h) ≡ to_log j h
inside-to_log h (CallerMove.call msg) e j = cc
inside-to_log h CallerMove.store ne j = refl
inside-to_log h mv ne j = refl

logger-to_log :
    {m m' : Shared} {c c' : Logger} {e : Event} (h : List Event)
    → LoggerMove m c e m' c'
    → (j : ℕ) → to_log j (e ∷ h) ≡ to_log j h
logger-to_log h LoggerMove.take_line j = refl
logger-to_log h mv j = refl

-- A call by another thread.
other-to_log :
    (i j : ℕ) (msg : List ℕ) (h : List Event)
    → (j == i) ≡ false
    → to_log j (called i msg ∷ h) ≡ to_log j h
other-to_log i j msg h ne = rw ne refl

own-to_log :
    (i : ℕ) (msg : List ℕ) (h : List Event)
    → to_log i (called i msg ∷ h) ≡ to_log i h ++ line msg ∷ []
own-to_log i msg h = rw (same i) refl
  where
    same : (i : ℕ) → (i == i) ≡ true
    same i = ground arith

record Inv (texts : ℕ → Texts) (spawned : ℕ) (threads : ℕ → Thread) (h : List Event) : Type 0 where
  started : (i : ℕ) → i < spawned → Serves (texts i) (threads i) (to_log (suc i) h)
  unborn : (i : ℕ) → spawned ≤ i → to_log (suc i) h ≡ []

module _ (texts : ℕ → Texts) where
  -- Nobody calls my_log.
  quiet-Inv :
      (spawned : ℕ) (threads : ℕ → Thread) (h h' : List Event)
      → ((j : ℕ) → to_log (suc j) h' ≡ to_log (suc j) h)
      → Inv texts spawned threads h
      → Inv texts spawned threads h'
  quiet-Inv spawned threads h h' same inv = record {
    started = λ i lt. subst (Serves (texts i) (threads i)) (sym (same i)) (inv.started i lt);
    unborn = λ i ge. same i ∙ inv.unborn i ge;
  }

  -- One handler moves, and perhaps calls my_log.
  move-Inv :
      (spawned : ℕ) (threads : ℕ → Thread) (h h' : List Event) (i : ℕ) (new : Thread)
      → i < spawned
      → ((j : ℕ) → (j == i) ≡ false → to_log (suc j) h' ≡ to_log (suc j) h)
      → Serves (texts i) new (to_log (suc i) h')
      → Inv texts spawned threads h
      → Inv texts spawned (update threads i new) h'
  move-Inv spawned threads h h' i new lt same one inv = record {
    started =
        update-cases (λ j thread. j < spawned → Serves (texts j) thread (to_log (suc j) h')) threads
          i new (λ lj. one)
          (λ j ne lj. subst (Serves (texts j) (threads j)) (sym (same j ne)) (inv.started j lj));
    unborn = λ j ge. same j (ground arith) ∙ inv.unborn j ge;
  }

module _ {main_texts : MainTexts} {texts : ℕ → Texts} where
  Step-Inv :
      {s t : Server} {es h : List Event}
      → Step main_texts texts s es t
      → Inv texts s.spawned s.threads h
      → Inv texts t.spawned t.threads (es ++ h)
  Step-Inv {s} {h} (accept up a out) inv =
      quiet-Inv texts s.spawned s.threads h _
        (λ j. other-to_log 0 (suc j) main_texts.accepted h (ground arith)) inv
  Step-Inv (accept_interrupted up a) inv = inv
  Step-Inv (accept_logged up a out) inv = inv
  Step-Inv {s} {h} (create up a out) inv = record {
    started =
        update-cases
          (λ j thread.
            j < suc s.spawned
            → Serves (texts j) thread (to_log (suc j) (called 0 main_texts.new_thread ∷ h)))
          s.threads s.spawned created (λ lj. same s.spawned ∙ inv.unborn s.spawned (omega arith))
          (λ j ne lj.
            subst (Serves (texts j) (s.threads j)) (sym (same j)) (inv.started j (ground arith)));
    unborn = λ j ge. same j ∙ inv.unborn j (omega arith);
  }
    where
      same : (j : ℕ) → to_log (suc j) (called 0 main_texts.new_thread ∷ h) ≡ to_log (suc j) h
      same j = other-to_log 0 (suc j) main_texts.new_thread h (ground arith)
  Step-Inv (create_logged up a out) inv = inv
  Step-Inv {s} {h} (begin_thread i up lt a) inv =
      move-Inv texts s.spawned s.threads h h i _ lt (λ j ne. refl)
        (
          [],
          0,
          Logged.start,
          subst (λ c. Serves (texts i) c (to_log (suc i) h)) a (inv.started i lt),
        )
        inv
  Step-Inv {s} {h} (handle i {h = hd} {pc} r up lt a idle p idle' on) inv =
      let (got, k, run, ls) =
        subst (λ c. Serves (texts i) c (to_log (suc i) h)) a (inv.started i lt) in
      move-Inv texts s.spawned s.threads h h i _ lt (λ j ne. refl)
        (
          _,
          _,
          Logged.next r run p,
          ls ∙ ap (map line) (rw (idle, idle', step-logged (texts i) hd pc r idle) refl),
        )
        inv
  Step-Inv {s} {h} (handle_stops i {h = hd} {pc} r up lt a idle p idle' off) inv =
      let (got, k, run, ls) =
        subst (λ c. Serves (texts i) c (to_log (suc i) h)) a (inv.started i lt) in
      move-Inv texts s.spawned s.threads h (silent ∷ h) i _ lt (λ j ne. refl)
        (
          _,
          _,
          Logged.next r run p,
          ls ∙ ap (map line) (rw (idle, idle', step-logged (texts i) hd pc r idle) refl),
        )
        inv
  Step-Inv {s} {h} (handle_logs i {h = hd} {pc} {msg} r up lt a idle p says out) inv =
      let (got, k, run, ls) =
        subst (λ c. Serves (texts i) c (to_log (suc i) h)) a (inv.started i lt) in
      move-Inv texts s.spawned s.threads h _ i _ lt
        (λ j ne. other-to_log (suc i) (suc j) msg h (ground arith))
        (
          _,
          _,
          Logged.next r run p,
          own-to_log (suc i) msg h
              ∙ rw (says, step-logged (texts i) hd pc r idle)
                  (ap (λ l. l ++ line msg ∷ []) (ls ∙ rw (idle, append-nil hd.logged) refl)
                    ∙ sym (map-append line hd.logged (msg ∷ []))),
        )
        inv
  Step-Inv {s} {h} (handle_logged i {h = hd} {pc} {msg} up lt a says out) inv =
      let (got, k, run, ls) =
        subst (λ c. Serves (texts i) c (to_log (suc i) h)) a (inv.started i lt) in
      move-Inv texts s.spawned s.threads h h i _ lt (λ j ne. refl)
        (
          _,
          _,
          Logged.next (ok 0) run (said-Possible (texts i) hd pc msg says),
          ls ∙ ap (map line) (sym (said-logged (texts i) hd pc msg says)),
        )
        inv
  Step-Inv {s} {h} (in_my_log i up le within mv) inv =
      quiet-Inv texts s.spawned s.threads h _ (λ j. inside-to_log h mv within (suc j)) inv
  Step-Inv {s} {h} (logger up mv) inv =
      quiet-Inv texts s.spawned s.threads h _ (λ j. logger-to_log h mv (suc j)) inv
  Step-Inv {s} {h} (end_process up) inv = quiet-Inv texts s.spawned s.threads h _ (λ j. refl) inv

  Reach-Inv :
      {s : Server} {h : List Event} → Reach main_texts texts s h → Inv texts s.spawned s.threads h
  Reach-Inv here = record { started = λ i lt. absurd (omega arith); unborn = λ i ge. refl }
  Reach-Inv (then_step r st) = Step-Inv st (Reach-Inv r)

  -- In every reachable state of the whole server, whatever the other threads do, up to the first
  -- exit() or write past the end of a handler's buf, that call included: what has been
  -- appended to the log file, with the rest of the line that the logger is writing, is the first
  -- of the lines stored; a handler has got where it stands by a run of connection_handler of its
  -- own; and the lines that it has stored, with the one of a call that has not stored it yet, are
  -- those of the messages that this run has logged, in order.
  pub server_log :
      {s : Server} {h : List Event} {i : ℕ} {hd : Handler} {pc : Pc}
      → Reach main_texts texts s h
      → i < s.spawned
      → s.threads i ≡ at hd pc
      → (s.ring.mem.log ++ rest s.ring.logger ≡ join (take (length (taken h)) (lines h)))
        × (lines_of (suc i) h ++ pending (s.ring.callers (suc i))
            ≡ map line (hd.logged ++ present (message (texts i) hd pc)))
        × ((got : List (List ℕ)) × (k : ℕ) × Logged.Reach no_error (texts i) hd pc got k)
  server_log {s} {h} {i} {hd} {pc} r lt a =
      let (got, k, run, ls) =
        subst (λ c. Serves (texts i) c (to_log (suc i) h)) a ((Reach-Inv r).started i lt) in
      (stored_lines.0, sym (stored_lines.3 (suc i) (omega arith)) ∙ ls, (got, k, run))
    where
      stored_lines :
          (s.ring.mem.log ++ rest s.ring.logger ≡ join (take (length (taken h)) (lines h)))
          × (length (taken h) ≤ length (lines h))
          × (length (lines h) ≤ length (taken h) + EchoLog.log_buffer_size)
          × ((j : ℕ) → j < suc s.spawned → to_log j h ≡ lines_of j h ++ pending (s.ring.callers j))
      stored_lines = log-lines (Reach-ring r)
