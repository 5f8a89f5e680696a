-- ===== src/Accum/Racy.antt =====
-- concurrent_threads.c.
use c_teaching.Prelude.{ℕ, suc, ◌+◌, ◌%◌, ◌<◌, ◌≡◌, ltb, if◌then◌else◌}
use c_teaching.Threads.{update}
use c_teaching.Accum.{
  word, Worker, absent, loading, storing, ended, head, Main, creating, joining, reporting,
}

pub record System : Type 0 where
  pub main : Main
  pub workers : ℕ → Worker
  pub shared_variable : ℕ

-- `for (i = 0; i < n; i++)`, twice.
abbrev pub create_loop : ℕ → ℕ → Main
create_loop n i = if ltb i n then creating i else if ltb 0 n then joining 0 else reporting

abbrev pub join_loop : ℕ → ℕ → Main
join_loop n i = if ltb i n then joining i else reporting

abbrev pub start : ℕ → System
start n = record { main = create_loop n 0; workers = λ _. absent; shared_variable = 0 }

pub data Step (n m v : ℕ) (s : System) : System → Type 0 where
  create :
      {i : ℕ}
      → s.main ≡ creating i
      → Step n m v s
          (record s { main = create_loop n (suc i); workers = update s.workers i (head m 0) })
  join :
      {i : ℕ}
      → s.main ≡ joining i
      → s.workers i ≡ ended
      → Step n m v s (record s { main = join_loop n (suc i) })
  load :
      (j : ℕ) {i : ℕ}
      → j < n
      → s.workers j ≡ loading i
      → Step n m v s (record s { workers = update s.workers j (storing i s.shared_variable) })
  store :
      (j : ℕ) {i x : ℕ}
      → j < n
      → s.workers j ≡ storing i x
      → Step n m v s (record s {
        workers = update s.workers j (head m (suc i));
        shared_variable = (x + v) % word;
      })

pub data Reach (n m v : ℕ) : System → Type 0 where
  here : Reach n m v (start n)
  then_step : {s t : System} → Reach n m v s → Step n m v s t → Reach n m v t
