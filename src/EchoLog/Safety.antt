-- ===== src/EchoLog/Safety.antt =====
-- What the log file of echo_server_mt_logger.c holds, whatever the interleaving of the threads.
use c_teaching.Prelude.{
  join, ℕ, ◌+◌, ◌≤◌, ◌<◌, ◌≡◌, ap, ◌∙◌, sym, append-nil, length, take, take-all, List, ◌++◌, arith,
}
use c_teaching.Threads.{total-zero}
use c_teaching.EchoLog.{System, outside, wait_fill, Event, log_buffer_size}
use c_teaching.EchoLog.Run.{Reach, lines, taken, to_log, lines_of, pending, rest}
use c_teaching.EchoLog.Inv.{Reach-Inv, after_store, before_take}

-- What has been appended to the log file, with what the logger still has to write of its present
-- line, is the lines that it has taken, one after another; they are the first ones of those that
-- my_log has stored, each once and in the order of the stores, and at most 128 are left. For each
-- thread, the lines of the messages with which it has called my_log are those that it has stored,
-- in the order of its calls, each once, and after them the line of a call that has not stored it
-- yet.
pub log-lines :
    {n : ℕ} {s : System} {h : List Event}
    → Reach n s h
    → (s.mem.log ++ rest s.logger ≡ join (take (length (taken h)) (lines h)))
      × (length (taken h) ≤ length (lines h))
      × (length (lines h) ≤ length (taken h) + log_buffer_size)
      × ((i : ℕ) → i < n → to_log i h ≡ lines_of i h ++ pending (s.callers i))
log-lines r = (file ∙ ap join fifo, omega (arith, filled), omega (arith, emptied), calls)
  where
    open (Reach-Inv r) use {file, fifo, filled, emptied, calls}

-- When no thread is in my_log and the logger waits with fill_count at 0, every line that was ever
-- stored is in the log file, in the order of the stores, and for each thread these are the lines
-- of all the messages that it has logged.
pub log_complete :
    {n : ℕ} {s : System} {h : List Event}
    → Reach n s h
    → ((i : ℕ) → i < n → s.callers i ≡ outside)
    → s.logger ≡ wait_fill
    → s.mem.fill_count ≡ 0
    → (s.mem.log ≡ join (lines h)) × ((i : ℕ) → i < n → to_log i h ≡ lines_of i h)
log_complete {n} {s} {h} r idle waits none_left = (
  sym (append-nil s.mem.log)
      ∙ ap (λ l. s.mem.log ++ rest l) (sym waits)
      ∙ file
      ∙ ap join (fifo ∙ take-all (length (taken h)) (lines h) all_taken),
  λ i lt. calls i lt ∙ ap (λ c. lines_of i h ++ pending c) (idle i lt) ∙ append-nil (lines_of i h),
)
  where
    open (Reach-Inv r) use {file, fifo, filled, calls}

    all_taken : length (lines h) ≤ length (taken h)
    all_taken = omega (
      arith,
      filled,
      none_left,
      ap before_take waits,
      total-zero after_store n s.callers (λ i lt. ap after_store (idle i lt)),
    )
