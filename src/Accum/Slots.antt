-- ===== src/Accum/Slots.antt =====
-- sol-concurrent_threads.c.
use c_teaching.Prelude.{ℕ, suc, ◌+◌, ◌%◌, ◌<◌, ◌≡◌}
use c_teaching.Threads.{update}
use c_teaching.Accum.{word, Worker, absent, loading, storing, ended, head, Main, creating, joining}
use c_teaching.Accum.Racy.{create_loop, join_loop}

pub record System : Type 0 where
  pub main : Main
  pub workers : ℕ → Worker
  pub shared_array : ℕ → ℕ  -- its entries are those below n
  pub computed_value : ℕ

abbrev pub start : ℕ → System
start n = record {
  main = create_loop n 0;
  workers = λ _. absent;
  shared_array = λ _. 0;
  computed_value = 0;
}

-- The thread `j` has `j` for its thread_idx: each has an entry of thread_ids of its own.
pub data Step (n m v : ℕ) (s : System) : System → Type 0 where
  create :
      {i : ℕ}
      → s.main ≡ creating i
      → Step n m v s
          (record s { main = create_loop n (suc i); workers = update s.workers i (head m 0) })
  join :
      {i : ℕ}
      → s.main ≡ joining i
      → s.workers i ≡ ended
      → Step n m v s (record s {
        main = join_loop n (suc i);
        computed_value = (s.computed_value + s.shared_array i) % word;
      })
  load :
      (j : ℕ) {i : ℕ}
      → j < n
      → s.workers j ≡ loading i
      → Step n m v s (record s { workers = update s.workers j (storing i (s.shared_array j)) })
  store :
      (j : ℕ) {i x : ℕ}
      → j < n
      → s.workers j ≡ storing i x
      → Step n m v s (record s {
        workers = update s.workers j (head m (suc i));
        shared_array = update s.shared_array j ((x + v) % word);
      })

pub data Reach (n m v : ℕ) : System → Type 0 where
  here : Reach n m v (start n)
  then_step : {s t : System} → Reach n m v s → Step n m v s t → Reach n m v t
