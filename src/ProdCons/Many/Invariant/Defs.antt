-- ===== src/ProdCons/Many/Invariant/Defs.antt =====
-- The invariant: who holds which mutex and which slot, and what the buffer and the deposit say.
use c_teaching.Prelude.{ℕ, ◌+◌, ◌%◌, ◌<◌, ◌≡◌, length, take, List, ◌∷◌}
use c_teaching.Prelude.Int.{ℤ, pos, add_int}
use c_teaching.Threads.{total}
use c_teaching.ProdCons.Many.{
  Shared, Producer, wait_write, storing, loading_write, storing_write, post_write, post_fill,
  Consumer, wait_read, taking, adding, storing_deposit, loading_read, storing_read, post_read,
  post_empty, Event, silent,
}
use c_teaching.ProdCons.Many.Run.{written, taken, int_sum}
use c_teaching.Ring.{Holds}

-- The producer holds write_mutex.
abbrev pub in_write : Producer → ℕ
in_write (storing _) = 1
in_write loading_write = 1
in_write (storing_write _) = 1
in_write post_write = 1
in_write _ = 0

-- It has an empty slot, and has not stored in it yet.
abbrev pub before_store : Producer → ℕ
before_store (wait_write _) = 1
before_store (storing _) = 1
before_store _ = 0

-- It has stored an item, and has not posted it yet.
abbrev pub after_store : Producer → ℕ
after_store loading_write = 1
after_store (storing_write _) = 1
after_store post_write = 1
after_store post_fill = 1
after_store _ = 0

-- It has stored an item, and write_index does not count it yet.
abbrev pub behind_write : Producer → ℕ
behind_write loading_write = 1
behind_write (storing_write _) = 1
behind_write _ = 0

abbrev pub in_read : Consumer → ℕ
in_read taking = 1
in_read (adding _) = 1
in_read (storing_deposit _ _) = 1
in_read loading_read = 1
in_read (storing_read _) = 1
in_read post_read = 1
in_read _ = 0

abbrev pub before_take : Consumer → ℕ
before_take wait_read = 1
before_take taking = 1
before_take _ = 0

abbrev pub after_take : Consumer → ℕ
after_take (adding _) = 1
after_take (storing_deposit _ _) = 1
after_take loading_read = 1
after_take (storing_read _) = 1
after_take post_read = 1
after_take post_empty = 1
after_take _ = 0

abbrev pub behind_read : Consumer → ℕ
behind_read (adding _) = 1
behind_read (storing_deposit _ _) = 1
behind_read loading_read = 1
behind_read (storing_read _) = 1
behind_read _ = 0

-- It has taken an item that the deposit does not count yet.
abbrev pub owes : Consumer → ℕ
owes (adding _) = 1
owes (storing_deposit _ _) = 1
owes _ = 0

pub record Inv (n k : ℕ) (m : Shared) (ps : ℕ → Producer) (cs : ℕ → Consumer) (h : List Event)
    : Type 0 where
  pub write_lock : m.write_mutex + total in_write n ps ≡ 1
  pub read_lock : m.read_mutex + total in_read k cs ≡ 1
  pub filled :
      m.fill_count + total before_take k cs + length (taken h) + total after_store n ps
      ≡ length (written h)
  pub emptied :
      m.empty_count + total before_store n ps + length (written h) + total after_take k cs
      ≡ 128 + length (taken h)
  pub size : length m.transactions ≡ 128
  pub write_at :
      (m.write_index < 128)
      × ((m.write_index + total behind_write n ps) % 128 ≡ length (written h) % 128)
  pub read_at :
      (m.read_index < 128)
      × ((m.read_index + total behind_read k cs) % 128 ≡ length (taken h) % 128)
  pub window : Holds (pos 0) m.transactions (written h) (length (taken h))
  pub fifo : taken h ≡ take (length (taken h)) (written h)
  pub write_local : (i w : ℕ) → i < n → ps i ≡ storing_write w → w ≡ m.write_index
  pub read_local : (j r : ℕ) → j < k → cs j ≡ storing_read r → r ≡ m.read_index
  pub balance : total owes k cs ≡ 0 → m.deposit ≡ int_sum (taken h)
  pub adding_local :
      (j : ℕ) (v : ℤ) → j < k → cs j ≡ adding v → add_int m.deposit v ≡ int_sum (taken h)
  pub storing_local :
      (j : ℕ) (v d : ℤ) → j < k → cs j ≡ storing_deposit v d → add_int d v ≡ int_sum (taken h)

pub Inv-silent :
    {n k : ℕ} {m : Shared} {ps : ℕ → Producer} {cs : ℕ → Consumer} {h : List Event}
    → Inv n k m ps cs h
    → Inv n k m ps cs (silent ∷ h)
Inv-silent inv = record {
  write_lock = inv.write_lock;
  read_lock = inv.read_lock;
  filled = inv.filled;
  emptied = inv.emptied;
  size = inv.size;
  write_at = inv.write_at;
  read_at = inv.read_at;
  window = inv.window;
  fifo = inv.fifo;
  write_local = inv.write_local;
  read_local = inv.read_local;
  balance = inv.balance;
  adding_local = inv.adding_local;
  storing_local = inv.storing_local;
}
