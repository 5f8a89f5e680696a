-- ===== src/EchoLog/Run.antt =====
-- The interleavings of the threads of echo_server_mt_logger.c, and the record of a run.
use c_teaching.Prelude.{ℕ, ◌<◌, ◌≡◌, ◌==◌, if◌then◌else◌, true, false, List, [], ◌∷◌, ◌++◌, drop}
use c_teaching.Threads.{update}
use c_teaching.EchoLog.{
  Shared, Caller, wait_empty, wait_write, storing, Logger, writing, Event, silent, called, stored,
  took, CallerMove, LoggerMove, System, init, line,
}

-- `n` threads that call my_log at any time and with any message, main() and the handlers among
-- them, beside the logger. At any time a thread may end the process by exit(), when a call on a
-- semaphore, a socket or the log file fails.
pub data Step (n : ℕ) (s : System) : Event → System → Type 0 where
  caller :
      (i : ℕ) {e : Event} {m : Shared} {c : Caller}
      → s.exited ≡ false
      → i < n
      → CallerMove i s.mem (s.callers i) e m c
      → Step n s e (record s { mem = m; callers = update s.callers i c })
  logger :
      {e : Event} {m : Shared} {c : Logger}
      → s.exited ≡ false
      → LoggerMove s.mem s.logger e m c
      → Step n s e (record s { mem = m; logger = c })
  exits : s.exited ≡ false → Step n s silent (record s { exited = true })

-- The states that a run from `init` goes through, with its events, the last one first.
pub data Reach (n : ℕ) : System → List Event → Type 0 where
  start : Reach n init []
  later :
      {s t : System} {e : Event} {h : List Event} → Reach n s h → Step n s e t → Reach n t (e ∷ h)

-- The lines that are stored in the buffer, and those that the logger has taken from it.
abbrev pub lines : List Event → List (List ℕ)
lines [] = []
lines (stored i tmp ∷ h) = lines h ++ tmp ∷ []
lines (_ ∷ h) = lines h

abbrev pub taken : List Event → List (List ℕ)
taken [] = []
taken (took tmp ∷ h) = taken h ++ tmp ∷ []
taken (_ ∷ h) = taken h

-- The lines that the thread `me` has to log, by its calls of my_log.
abbrev pub to_log : ℕ → List Event → List (List ℕ)
to_log me [] = []
to_log me (called i msg ∷ h) =
    let before = to_log me h in if me == i then before ++ line msg ∷ [] else before
to_log me (_ ∷ h) = to_log me h

-- The lines that it has stored.
abbrev pub lines_of : ℕ → List Event → List (List ℕ)
lines_of me [] = []
lines_of me (stored i tmp ∷ h) =
    let before = lines_of me h in if me == i then before ++ tmp ∷ [] else before
lines_of me (_ ∷ h) = lines_of me h

-- The line of the call that it is in, if it is not stored yet.
abbrev pub pending : Caller → List (List ℕ)
pending (wait_empty tmp) = tmp ∷ []
pending (wait_write tmp) = tmp ∷ []
pending (storing tmp) = tmp ∷ []
pending _ = []

-- What the logger still has to write of the line that it has taken.
abbrev pub rest : Logger → List ℕ
rest (Logger.loading_read l) = l
rest (Logger.storing_read l r) = l
rest (writing l written left) = drop written l
rest _ = []
