-- ===== src/ProdCons/Many.antt =====
-- many_prod_many_cons.c: any number of producer and consumer threads over one circular buffer.
-- A thread moves by one access to shared memory or one call on a semaphore at a time.
pub mod Run
pub mod Invariant
pub mod Safety
mod Tests
use c_teaching.Prelude.{ℕ, ◌+◌, ◌-◌, ◌%◌, ◌<◌, get_or, set, replicate, ◌==◌, Bool, false, List}
use c_teaching.Prelude.Int.{ℤ, pos, add_int}
use c_teaching.ProdCons.Transaction.{perform_random_transaction}

abbrev pub buffer_size : ℕ
buffer_size = 128

-- The globals of the program. A semaphore is its value.
pub record Shared : Type 0 where
  pub transactions : List ℤ
  pub fill_count : ℕ
  pub empty_count : ℕ
  pub read_mutex : ℕ
  pub write_mutex : ℕ
  pub read_index : ℕ
  pub write_index : ℕ
  pub deposit : ℤ

-- What main() leaves in them before it creates the threads.
abbrev pub init_shared : Shared
init_shared = record {
  transactions = replicate buffer_size (pos 0);
  fill_count = 0;
  empty_count = buffer_size;
  read_mutex = 1;
  write_mutex = 1;
  read_index = 0;
  write_index = 0;
  deposit = pos 0;
}

-- Where a producer stands, with the locals that are live there.
pub data Producer : Type 0 where
  producing : Producer
  wait_empty : (v : ℤ) → Producer
  wait_write : (v : ℤ) → Producer
  storing : (v : ℤ) → Producer
  loading_write : Producer
  storing_write : (w : ℕ) → Producer
  post_write : Producer
  post_fill : Producer

-- Where a consumer stands.
pub data Consumer : Type 0 where
  wait_fill : Consumer
  wait_read : Consumer
  taking : Consumer
  adding : (v : ℤ) → Consumer
  storing_deposit : (v d : ℤ) → Consumer
  loading_read : Consumer
  storing_read : (r : ℕ) → Consumer
  post_read : Consumer
  post_empty : Consumer

-- What a move does to the buffer, for the record of a run.
pub data Event : Type 0 where
  silent : Event
  wrote : ℤ → Event
  took : ℤ → Event

-- performTransactions: one round of the `while (1)` is a way from `producing` back to it.
pub data ProducerMove (m : Shared) : Producer → Event → Shared → Producer → Type 0 where
  produce : (r : ℕ) → ProducerMove m producing silent m (wait_empty (perform_random_transaction r))
  got_empty :
      {v : ℤ}
      → 0 < m.empty_count
      → ProducerMove m
          (wait_empty v)
          silent
          (record m { empty_count = m.empty_count - 1 })
          (wait_write v)
  got_write :
      {v : ℤ}
      → 0 < m.write_mutex
      → ProducerMove m
          (wait_write v)
          silent
          (record m { write_mutex = m.write_mutex - 1 })
          (storing v)
  store :
      {v : ℤ}
      → ProducerMove m
          (storing v)
          (wrote v)
          (record m { transactions = set m.transactions m.write_index v })
          loading_write
  load_write : ProducerMove m loading_write silent m (storing_write m.write_index)
  store_write :
      {w : ℕ}
      → ProducerMove m
          (storing_write w)
          silent
          (record m { write_index = (w + 1) % buffer_size })
          post_write
  put_write :
      ProducerMove m post_write silent (record m { write_mutex = m.write_mutex + 1 }) post_fill
  put_fill : ProducerMove m post_fill silent (record m { fill_count = m.fill_count + 1 }) producing

-- processTransactions; the balance message reads and changes nothing else.
pub data ConsumerMove (m : Shared) : Consumer → Event → Shared → Consumer → Type 0 where
  got_fill :
      0 < m.fill_count
      → ConsumerMove m wait_fill silent (record m { fill_count = m.fill_count - 1 }) wait_read
  got_read :
      0 < m.read_mutex
      → ConsumerMove m wait_read silent (record m { read_mutex = m.read_mutex - 1 }) taking
  take_item :
      ConsumerMove m taking
        (took (get_or m.transactions m.read_index (pos 0)))
        m
        (adding (get_or m.transactions m.read_index (pos 0)))
  load_deposit : {v : ℤ} → ConsumerMove m (adding v) silent m (storing_deposit v m.deposit)
  store_deposit :
      {v d : ℤ}
      → ConsumerMove m
          (storing_deposit v d)
          silent
          (record m { deposit = add_int d v })
          loading_read
  load_read : ConsumerMove m loading_read silent m (storing_read m.read_index)
  store_read :
      {r : ℕ}
      → ConsumerMove m
          (storing_read r)
          silent
          (record m { read_index = (r + 1) % buffer_size })
          post_read
  put_read : ConsumerMove m post_read silent (record m { read_mutex = m.read_mutex + 1 }) post_empty
  put_empty :
      ConsumerMove m post_empty silent (record m { empty_count = m.empty_count + 1 }) wait_fill

-- The process: what its threads share, where each stands, and whether exit() has ended it.
pub record System : Type 0 where
  pub mem : Shared
  pub producers : ℕ → Producer
  pub consumers : ℕ → Consumer
  pub exited : Bool

abbrev pub init : System
init = record {
  mem = init_shared;
  producers = λ _. producing;
  consumers = λ _. wait_fill;
  exited = false;
}

-- The consumer prints the balance when the index that it has just stored passes this test.
pub prints_balance : ℕ → Bool
prints_balance read_index = read_index % 10 == 0
