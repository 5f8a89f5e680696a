-- ===== src/Accum/Created.antt =====
-- main() creates each thread once.
use c_teaching.Prelude.{ℕ, suc, ◌≤◌, ◌≡◌, ◌≢◌, ltb, Bool-cases, inl, inr, arith}
use c_teaching.Threads.{update, update-cases}
use c_teaching.Accum.{Worker, absent, Main, creating, joining, reporting}
use c_teaching.Accum.Racy.{create_loop, join_loop}

-- The threads that are still to be created.
abbrev pub Unborn : Main → (ℕ → Worker) → Type 0
Unborn (creating i) workers = (j : ℕ) → i ≤ j → workers j ≡ absent
Unborn _ workers = Unit {0}

module _ (n : ℕ) where
  pub create_loop-Unborn :
      (i : ℕ) (workers : ℕ → Worker)
      → ((j : ℕ) → i ≤ j → workers j ≡ absent)
      → Unborn (create_loop n i) workers
  create_loop-Unborn i workers h = elim (Bool-cases (ltb i n)) [
    | inl more ↦ rw more h
    | inr all ↦
        rw all (elim (Bool-cases (ltb 0 n)) [ inl some ↦ rw some tt | inr none ↦ rw none tt ])
  ]

  pub join_loop-Unborn : (i : ℕ) (workers : ℕ → Worker) → Unborn (join_loop n i) workers
  join_loop-Unborn i workers = elim (Bool-cases (ltb i n)) [
    | inl more ↦ rw more tt
    | inr last ↦ rw last tt
  ]

-- The threads that have begun are not those still to be created.
pub started-Unborn :
    (main : Main) (workers : ℕ → Worker) (i : ℕ) (new : Worker)
    → workers i ≢ absent
    → Unborn main workers
    → Unborn main (update workers i new)
started-Unborn (creating k) workers i new ne h =
    update-cases (λ j w. k ≤ j → w ≡ absent) workers i new (λ le. absurd (ne (h i le)))
      (λ j e le. h j le)
started-Unborn (joining k) workers i new ne h = tt
started-Unborn reporting workers i new ne h = tt

-- The next one is created.
pub born-Unborn :
    (workers : ℕ → Worker) (i : ℕ) (new : Worker)
    → ((j : ℕ) → i ≤ j → workers j ≡ absent)
    → (j : ℕ) → suc i ≤ j
    → update workers i new j ≡ absent
born-Unborn workers i new unborn =
    update-cases (λ j w. suc i ≤ j → w ≡ absent) workers i new (λ le. absurd (omega arith))
      (λ j ne le. unborn j (omega arith))
