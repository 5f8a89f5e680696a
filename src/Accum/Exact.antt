-- ===== src/Accum/Exact.antt =====
-- With a slot for each thread no addition is lost.
use c_teaching.Prelude.{
  ℕ, suc, ◌+◌, ◌*◌, ◌%◌, ◌≤◌, ◌<◌, ◌≡◌, refl, sym, ap, subst, ◌∙◌, ◌==◌, ltb, false, Bool-cases,
  inl, inr, arith,
}
use native.Mathlib.Nat.{mul_assoc}
use c_teaching.Threads.{update, update-cases}
use c_teaching.Accum.{
  word, Worker, absent, loading, storing, ended, head, Main, creating, joining, reporting,
  expected_value, lost_adds,
}
use c_teaching.Accum.Created.{
  Unborn, create_loop-Unborn, join_loop-Unborn, started-Unborn, born-Unborn,
}
use c_teaching.Accum.Racy.{create_loop, join_loop}
use c_teaching.Accum.Slots.{System, Step, create, join, load, store, Reach, here, then_step}

module _ (m v : ℕ) where
  -- The slot holds what the thread's rounds have added.
  abbrev Counts : Worker → ℕ → Type 0
  Counts absent slot = slot ≡ 0
  Counts (loading i) slot = (i < m) × (slot ≡ i * v % word)
  Counts (storing i x) slot = (i < m) × (slot ≡ i * v % word) × (x ≡ slot)
  Counts ended slot = slot ≡ m * v % word

  head-Counts : (i slot : ℕ) → i ≤ m → slot ≡ i * v % word → Counts (head m i) slot
  head-Counts i slot le e = elim (Bool-cases (ltb i m)) [
    | inl more ↦ rw more (ground arith, e)
    | inr last ↦ rw last (e ∙ ap (λ k. k * v % word) (whole last))
  ]
    where
      whole : ltb i m ≡ false → i ≡ m
      whole f = ground arith

  -- One more round.
  round : (i x : ℕ) → x ≡ i * v % word → (x + v) % word ≡ suc i * v % word
  round i x e = omega (arith, e)

-- What main() has summed up.
abbrev Summed : ℕ → ℕ → ℕ → Main → ℕ → Type 0
Summed n m v (creating i) c = (i < n) × (c ≡ 0)
Summed n m v (joining i) c = (i < n) × (c ≡ i * (m * v) % word)
Summed n m v reporting c = c ≡ n * (m * v) % word

record Inv (n m v : ℕ) (s : System) : Type 0 where
  counts : (j : ℕ) → Counts m v (s.workers j) (s.shared_array j)
  summed : Summed n m v s.main s.computed_value
  unborn : Unborn s.main s.workers

module _ (n m v : ℕ) where
  create_loop-Summed : (i : ℕ) → i ≤ n → Summed n m v (create_loop n i) 0
  create_loop-Summed i le = elim (Bool-cases (ltb i n)) [
    | inl more ↦ rw more (ground arith, refl)
    | inr all ↦ rw all (elim (Bool-cases (ltb 0 n)) [
      | inl some ↦ rw some (ground arith, omega arith)
      | inr none ↦ rw none (nothing none)
    ])
  ]
    where
      nothing : ltb 0 n ≡ false → 0 ≡ n * (m * v) % word
      nothing f = let e : n ≡ 0 = ground arith in rw e (omega arith)

  join_loop-Summed : (i c : ℕ) → i ≤ n → c ≡ i * (m * v) % word → Summed n m v (join_loop n i) c
  join_loop-Summed i c le e = elim (Bool-cases (ltb i n)) [
    | inl more ↦ rw more (ground arith, e)
    | inr last ↦ rw last (e ∙ ap (λ k. k * (m * v) % word) (whole last))
  ]
    where
      whole : ltb i n ≡ false → i ≡ n
      whole f = ground arith

  -- A thread moves on its own slot.
  own-Counts :
      (workers : ℕ → Worker) (slots : ℕ → ℕ) (i : ℕ) (new : Worker) (slot : ℕ)
      → ((j : ℕ) → Counts m v (workers j) (slots j))
      → Counts m v new slot
      → (j : ℕ) → Counts m v (update workers i new j) (update slots i slot j)
  own-Counts workers slots i new slot all one j = elim (Bool-cases (j == i)) [
    | inl e ↦ rw e one
    | inr ne ↦ rw ne (all j)
  ]

  -- Or leaves the slots alone.
  move-Counts :
      (workers : ℕ → Worker) (slots : ℕ → ℕ) (i : ℕ) (new : Worker)
      → ((j : ℕ) → Counts m v (workers j) (slots j))
      → Counts m v new (slots i)
      → (j : ℕ) → Counts m v (update workers i new j) (slots j)
  move-Counts workers slots i new all one =
      update-cases (λ j w. Counts m v w (slots j)) workers i new one (λ j ne. all j)

  Step-Inv : {s t : System} → Step n m v s t → Inv n m v s → Inv n m v t
  Step-Inv {s} (create {i} at) inv =
      let (lt, zero_sum) = subst (λ c. Summed n m v c s.computed_value) at inv.summed in
      let unborn = subst (λ c. Unborn c s.workers) at inv.unborn in
      let empty =
        subst (λ w. Counts m v w (s.shared_array i)) (unborn i (omega arith)) (inv.counts i) in
      record {
        counts =
            move-Counts s.workers s.shared_array i (head m 0) inv.counts
              (head-Counts m v 0 (s.shared_array i) (omega arith) (omega (arith, empty)));
        summed = rw zero_sum (create_loop-Summed (suc i) (omega (arith, lt)));
        unborn = create_loop-Unborn n (suc i) _ (born-Unborn s.workers i (head m 0) unborn);
      }
  Step-Inv {s} (join {i} at end) inv =
      let (lt, sum) = subst (λ c. Summed n m v c s.computed_value) at inv.summed in
      let slot = subst (λ w. Counts m v w (s.shared_array i)) end (inv.counts i) in
      record {
        counts = inv.counts;
        summed = join_loop-Summed (suc i) _ (omega (arith, lt)) (omega (arith, sum, slot));
        unborn = join_loop-Unborn n (suc i) s.workers;
      }
  Step-Inv {s} (load j {i} lt at) inv =
      let (less, slot) = subst (λ w. Counts m v w (s.shared_array j)) at (inv.counts j) in
      record {
        counts =
            move-Counts s.workers s.shared_array j (storing i (s.shared_array j)) inv.counts
              (less, slot, refl);
        summed = inv.summed;
        unborn =
            started-Unborn s.main s.workers j (storing i (s.shared_array j)) (λ e. cc) inv.unborn;
      }
  Step-Inv {s} (store j {i} {x} lt at) inv =
      let (less, slot, same) = subst (λ w. Counts m v w (s.shared_array j)) at (inv.counts j) in
      record {
        counts =
            own-Counts s.workers s.shared_array j (head m (suc i)) ((x + v) % word) inv.counts
              (head-Counts m v (suc i) _ (omega (arith, less)) (round m v i x (same ∙ slot)));
        summed = inv.summed;
        unborn = started-Unborn s.main s.workers j (head m (suc i)) (λ e. cc) inv.unborn;
      }

  Reach-Inv : {s : System} → Reach n m v s → Inv n m v s
  Reach-Inv here = record {
    counts = λ j. refl;
    summed = create_loop-Summed 0 (omega arith);
    unborn = create_loop-Unborn n 0 (λ _. absent) (λ j le. refl);
  }
  Reach-Inv (then_step r st) = Step-Inv st (Reach-Inv r)

-- Whatever the interleaving, when main() reports, the value computed on the array is the expected
-- one, also where the sum wraps around, and no lost add is printed.
pub computed_value-eq-expected :
    {n m v : ℕ} {s : System}
    → Reach n m v s
    → s.main ≡ reporting
    → (s.computed_value ≡ expected_value n m v)
      × (lost_adds (expected_value n m v) s.computed_value v ≡ 0)
computed_value-eq-expected {n} {m} {v} {s} r at = (same, rw same (ground arith))
  where
    same : s.computed_value ≡ expected_value n m v
    same =
        subst (λ c. Summed n m v c s.computed_value) at (Reach-Inv n m v r).summed
        ∙ ap (λ k. k % word) (sym (mul_assoc n m v))
