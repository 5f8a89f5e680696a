-- ===== src/ProdCons/Plain.antt =====
-- one_prod_one_cons.c: performTransactions and processTransactions without a mutex, as the only
-- producer and the only consumer run them. The buffer, the counting semaphores and the indices are
-- those of `Shared`; a program that lacks one of its two mutexes never touches that field.
mod View
mod Sim
pub mod OneOne
pub mod OneMany
pub mod ManyOne
mod Correct
mod Tests
use c_teaching.Prelude.{ℕ, ◌+◌, ◌-◌, ◌%◌, ◌<◌, get_or, set, Bool, true, false}
use c_teaching.Prelude.Int.{ℤ, pos, add_int}
use c_teaching.ProdCons.Transaction.{perform_random_transaction}
use c_teaching.ProdCons.Many.{Shared, buffer_size, Event, silent, wrote, took}

-- Where the producer stands, with the locals that are live there.
pub data Lone : Type 0 where
  producing : Lone
  wait_empty : (v : ℤ) → Lone
  storing : (v : ℤ) → Lone
  loading_write : Lone
  storing_write : (w : ℕ) → Lone
  post_fill : Lone

-- Where the consumer stands; `v` is lastTransaction.
pub data Taker : Type 0 where
  wait_fill : Taker
  taking : Taker
  loading_read : (v : ℤ) → Taker
  storing_read : (v : ℤ) (r : ℕ) → Taker
  post_empty : (v : ℤ) → Taker
  adding : (v : ℤ) → Taker
  storing_deposit : (v d : ℤ) → Taker

-- performTransactions with no write_mutex.
pub data LoneMove (m : Shared) : Lone → Event → Shared → Lone → Type 0 where
  produce : (r : ℕ) → LoneMove m producing silent m (wait_empty (perform_random_transaction r))
  got_empty :
      {v : ℤ}
      → 0 < m.empty_count
      → LoneMove m (wait_empty v) silent (record m { empty_count = m.empty_count - 1 }) (storing v)
  store :
      {v : ℤ}
      → LoneMove m
          (storing v)
          (wrote v)
          (record m { transactions = set m.transactions m.write_index v })
          loading_write
  load_write : LoneMove m loading_write silent m (storing_write m.write_index)
  store_write :
      {w : ℕ}
      → LoneMove m
          (storing_write w)
          silent
          (record m { write_index = (w + 1) % buffer_size })
          post_fill
  put_fill : LoneMove m post_fill silent (record m { fill_count = m.fill_count + 1 }) producing

-- processTransactions with no read_mutex: the slot is given back before the deposit changes.
pub data TakerMove (m : Shared) : Taker → Event → Shared → Taker → Type 0 where
  got_fill :
      0 < m.fill_count
      → TakerMove m wait_fill silent (record m { fill_count = m.fill_count - 1 }) taking
  take_item :
      TakerMove m taking
        (took (get_or m.transactions m.read_index (pos 0)))
        m
        (loading_read (get_or m.transactions m.read_index (pos 0)))
  load_read : {v : ℤ} → TakerMove m (loading_read v) silent m (storing_read v m.read_index)
  store_read :
      {v : ℤ} {r : ℕ}
      → TakerMove m
          (storing_read v r)
          silent
          (record m { read_index = (r + 1) % buffer_size })
          (post_empty v)
  put_empty :
      {v : ℤ}
      → TakerMove m (post_empty v) silent (record m { empty_count = m.empty_count + 1 }) (adding v)
  load_deposit : {v : ℤ} → TakerMove m (adding v) silent m (storing_deposit v m.deposit)
  store_deposit :
      {v d : ℤ}
      → TakerMove m (storing_deposit v d) silent (record m { deposit = add_int d v }) wait_fill

-- The thread stands before a call on a semaphore, which may fail.
abbrev pub lone_at_call : Lone → Bool
lone_at_call (wait_empty _) = true
lone_at_call post_fill = true
lone_at_call _ = false

abbrev pub taker_at_call : Taker → Bool
taker_at_call wait_fill = true
taker_at_call (post_empty _) = true
taker_at_call _ = false
