-- ===== src/EchoLog/Tests.antt =====
-- A run of echo_server_mt_logger.c with two threads that log, and the theorems at it.
use c_teaching.Prelude.{
  join, ℕ, ◌+◌, ◌≤◌, ◌<◌, ◌≡◌, ◌⊎◌, refl, length, take, List, [], ◌∷◌, ◌++◌, arith,
}
use c_teaching.EchoLog.{System, Event, CallerMove, LoggerMove, outside}
use c_teaching.EchoLog.Run.{
  caller, logger, Reach, start, later, lines, to_log, lines_of, pending, rest,
}
use c_teaching.EchoLog.Safety.{log-lines}
use c_teaching.EchoLog.Progress.{SomeReady, Idle, log_progress}

-- A state that can be reached, with its events.
record Run (n : ℕ) : Type 0 where
  last : System
  events : List Event
  reach : Reach n last events

-- Thread 0 has logged "A".
abbrev posted : Run 2
posted = record {
  last = _;
  events = _;
  reach =
      later
        (later
          (later
            (later
              (later
                (later
                  (later (later start (caller 0 refl (omega arith) (CallerMove.call (65 ∷ []))))
                    (caller 0 refl (omega arith) (CallerMove.got_empty (omega arith))))
                  (caller 0 refl (omega arith) (CallerMove.got_write (omega arith))))
                (caller 0 refl (omega arith) CallerMove.store))
              (caller 0 refl (omega arith) CallerMove.load_write))
            (caller 0 refl (omega arith) CallerMove.store_write))
          (caller 0 refl (omega arith) CallerMove.put_write))
        (caller 0 refl (omega arith) CallerMove.put_fill);
}

-- The logger has written a part of its line, and thread 1 is about to store "BC".
abbrev cut : Run 2
cut = record {
  last = _;
  events = _;
  reach =
      later
        (later
          (later
            (later
              (later
                (later
                  (later (later posted.reach (logger refl (LoggerMove.got_fill (omega arith))))
                    (logger refl LoggerMove.take_line))
                  (logger refl LoggerMove.load_read))
                (logger refl LoggerMove.store_read))
              (logger refl (LoggerMove.wrote 1 (omega arith))))
            (caller 1 refl (omega arith) (CallerMove.call (66 ∷ 67 ∷ []))))
          (caller 1 refl (omega arith) (CallerMove.got_empty (omega arith))))
        (caller 1 refl (omega arith) (CallerMove.got_write (omega arith)));
}

-- Both lines are in the file.
abbrev settled : Run 2
settled = record {
  last = _;
  events = _;
  reach =
      later
        (later
          (later
            (later
              (later
                (later
                  (later
                    (later
                      (later
                        (later
                          (later
                            (later
                              (later
                                (later cut.reach (caller 1 refl (omega arith) CallerMove.store))
                                (caller 1 refl (omega arith) CallerMove.load_write))
                              (caller 1 refl (omega arith) CallerMove.store_write))
                            (caller 1 refl (omega arith) CallerMove.put_write))
                          (caller 1 refl (omega arith) CallerMove.put_fill))
                        (logger refl (LoggerMove.wrote 1 (omega arith))))
                      (logger refl LoggerMove.put_empty))
                    (logger refl (LoggerMove.got_fill (omega arith))))
                  (logger refl LoggerMove.take_line))
                (logger refl LoggerMove.load_read))
              (logger refl LoggerMove.store_read))
            (logger refl LoggerMove.write_interrupted))
          (logger refl (LoggerMove.wrote 3 (omega arith))))
        (logger refl LoggerMove.put_empty);
}

settled_log : settled.last.mem.log ≡ 65 ∷ 10 ∷ 66 ∷ 67 ∷ 10 ∷ []
settled_log = refl

log-lines_example :
    (cut.last.mem.log ++ rest cut.last.logger ≡ join (take 1 (lines cut.events)))
    × (1 ≤ length (lines cut.events))
    × (length (lines cut.events) ≤ 1 + 128)
    × ((i : ℕ)
        → i < 2
        → to_log i cut.events ≡ lines_of i cut.events ++ pending (cut.last.callers i))
log-lines_example = log-lines cut.reach

idle : (i : ℕ) → i < 2 → settled.last.callers i ≡ outside
idle i lt = ground arith

log_progress_example : SomeReady 2 cut.last ⊎ Idle 2 cut.last
log_progress_example = log_progress cut.reach
