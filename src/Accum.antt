-- ===== src/Accum.antt =====
-- lab02-performance-thread: `n` threads that add `v` to an accumulator `m` times each. Racy is
-- concurrent_threads.c, with one accumulator for all; Slots is sol-concurrent_threads.c, with one
-- for each thread, which lab03's concurrent_threads_solution_timer.c only times. An addition is a
-- load and a store.
pub mod Racy
pub mod Slots
mod Created
mod Exact
mod Lost
mod Tests
use c_teaching.Prelude.{ℕ, ◌-◌, ◌*◌, ◌/◌, ◌%◌, ltb, if◌then◌else◌}

-- 2 ^ 64: the accumulators are unsigned long.
abbrev pub word : ℕ
word = 18446744073709551616

-- Where thread_work stands: not created yet, before the load or before the store of the round `i`,
-- or at its end.
pub data Worker : Type 0 where
  absent : Worker
  loading : (i : ℕ) → Worker
  storing : (i x : ℕ) → Worker
  ended : Worker

-- `for (...; i < m; ...)`
abbrev pub head : ℕ → ℕ → Worker
head m i = if ltb i m then loading i else ended

-- Where main() stands: before the pthread_create() or the pthread_join() of the thread `i`, or
-- before the last messages.
pub data Main : Type 0 where
  creating joining : (i : ℕ) → Main
  reporting : Main

-- `(unsigned long int)n*m*v`
abbrev pub expected_value : ℕ → ℕ → ℕ → ℕ
expected_value n m v = n * m * v % word

-- `if (expected_value > value)`, and the number of lost adds that is printed then, else 0.
abbrev pub lost_adds : ℕ → ℕ → ℕ → ℕ
lost_adds expected value v = if ltb value expected then (expected - value) / v else 0
