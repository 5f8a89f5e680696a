-- ===== src/EchoLog/Inv/Defs.antt =====
-- The invariant: who holds write_mutex and which slot, and what the buffer and the file say.
use c_teaching.Prelude.{join, ℕ, ◌+◌, ◌%◌, ◌<◌, ◌≡◌, length, take, List, [], ◌++◌}
use c_teaching.Threads.{total}
use c_teaching.Ring.{Holds}
use c_teaching.EchoLog.{
  Shared, Caller, wait_write, storing, loading_write, storing_write, post_write, post_fill, Logger,
  taking, loading_read, storing_read, writing, post_empty, Event,
}
use c_teaching.EchoLog.Run.{lines, taken, to_log, lines_of, pending, rest}

-- The thread holds write_mutex.
abbrev pub in_write : Caller → ℕ
in_write (storing _) = 1
in_write loading_write = 1
in_write (storing_write _) = 1
in_write post_write = 1
in_write _ = 0

-- It has an empty slot, and has not stored in it yet.
abbrev pub before_store : Caller → ℕ
before_store (wait_write _) = 1
before_store (storing _) = 1
before_store _ = 0

-- It has stored a line, and has not posted it yet.
abbrev pub after_store : Caller → ℕ
after_store loading_write = 1
after_store (storing_write _) = 1
after_store post_write = 1
after_store post_fill = 1
after_store _ = 0

-- It has stored a line, and write_index does not count it yet.
abbrev pub behind_write : Caller → ℕ
behind_write loading_write = 1
behind_write (storing_write _) = 1
behind_write _ = 0

abbrev pub before_take : Logger → ℕ
before_take taking = 1
before_take _ = 0

abbrev pub after_take : Logger → ℕ
after_take (loading_read _) = 1
after_take (storing_read _ _) = 1
after_take (writing _ _ _) = 1
after_take post_empty = 1
after_take _ = 0

abbrev pub behind_read : Logger → ℕ
behind_read (loading_read _) = 1
behind_read (storing_read _ _) = 1
behind_read _ = 0

-- The logger's locals agree with the memory.
abbrev pub Fits : Shared → Logger → Type 0
Fits m (storing_read l r) = r ≡ m.read_index
Fits m (writing l written left) = written + left ≡ length l
Fits m _ = Unit

pub record Inv (n : ℕ) (m : Shared) (cs : ℕ → Caller) (lg : Logger) (h : List Event) : Type 0 where
  pub write_lock : m.write_mutex + total in_write n cs ≡ 1
  pub filled :
      m.fill_count + before_take lg + length (taken h) + total after_store n cs ≡ length (lines h)
  pub emptied :
      m.empty_count + total before_store n cs + length (lines h) + after_take lg
      ≡ 128 + length (taken h)
  pub size : length m.log_buffer ≡ 128
  pub write_at :
      (m.write_index < 128)
      × ((m.write_index + total behind_write n cs) % 128 ≡ length (lines h) % 128)
  pub read_at :
      (m.read_index < 128) × ((m.read_index + behind_read lg) % 128 ≡ length (taken h) % 128)
  pub window : Holds [] m.log_buffer (lines h) (length (taken h))
  pub fifo : taken h ≡ take (length (taken h)) (lines h)
  pub write_local : (i w : ℕ) → i < n → cs i ≡ storing_write w → w ≡ m.write_index
  pub fits : Fits m lg
  pub file : m.log ++ rest lg ≡ join (taken h)
  pub calls : (i : ℕ) → i < n → to_log i h ≡ lines_of i h ++ pending (cs i)
