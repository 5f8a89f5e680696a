-- ===== src/ProdCons/Many/Safety.antt =====
-- What many_prod_many_cons.c guarantees, whatever the interleaving of its threads.
pub mod Progress
use c_teaching.Prelude.{
  ℕ, ◌+◌, ◌%◌, ◌≤◌, ◌<◌, ◌≡◌, ◌≢◌, length, take, List, ◌∙◌, arith, ℕ_discrete, true, false,
}
use c_teaching.Prelude.Int.{pos}
use c_teaching.Threads.{pair-le-total, total-zero}
use c_teaching.ProdCons.Many.{System, Event, prints_balance, buffer_size}
use c_teaching.ProdCons.Many.Run.{Reach, written, taken, sum, int_sum, NoOverflow, int_sum-eq}
use c_teaching.ProdCons.Many.Invariant.{Reach-Inv, in_write, in_read, owes}

-- Two producers are never inside write_mutex together, and two consumers never inside read_mutex.
pub mutual_exclusion :
    {n k : ℕ} {s : System} {h : List Event}
    → Reach n k s h
    → ((i j : ℕ)
        → i < n
        → j < n
        → in_write (s.producers i) ≡ 1
        → in_write (s.producers j) ≡ 1
        → i ≡ j)
      × ((i j : ℕ)
          → i < k
          → j < k
          → in_read (s.consumers i) ≡ 1
          → in_read (s.consumers j) ≡ 1
          → i ≡ j)
mutual_exclusion {n} {k} {s} r = (
  λ i j hi hj at_i at_j. elim (ℕ_discrete i j) [
    | yes e ↦ e
    | no ne ↦ absurd (omega (arith, pair-le-total in_write n s.producers i j hi hj ne, write_lock))
  ],
  λ i j hi hj at_i at_j. elim (ℕ_discrete i j) [
    | yes e ↦ e
    | no ne ↦ absurd (omega (arith, pair-le-total in_read k s.consumers i j hi hj ne, read_lock))
  ],
)
  where
    open (Reach-Inv r) use {write_lock, read_lock}

-- The consumers take exactly the transactions that the producers have stored, each once and in the
-- order of the stores; at most 128 stored ones are not taken yet.
pub taken_in_order :
    {n k : ℕ} {s : System} {h : List Event}
    → Reach n k s h
    → (taken h ≡ take (length (taken h)) (written h))
      × (length (taken h) ≤ length (written h))
      × (length (written h) ≤ length (taken h) + buffer_size)
taken_in_order r = (fifo, omega (arith, filled), omega (arith, emptied))
  where
    open (Reach-Inv r) use {fifo, filled, emptied}

-- While no consumer stands inside read_mutex, the deposit is the sum of the transactions taken, as
-- additions of an `int` give it.
pub deposit-eq-int_sum :
    {n k : ℕ} {s : System} {h : List Event}
    → Reach n k s h
    → ((j : ℕ) → j < k → in_read (s.consumers j) ≡ 0)
    → s.mem.deposit ≡ int_sum (taken h)
deposit-eq-int_sum {k} {s} r quiet =
    (Reach-Inv r).balance (total-zero owes k s.consumers (λ j lt. quiet_owes j (quiet j lt)))
  where
    quiet_owes : (j : ℕ) → in_read (s.consumers j) ≡ 0 → owes (s.consumers j) ≡ 0
    quiet_owes j e = ground arith

-- No update of the balance is lost: while no consumer stands inside read_mutex, the deposit is the
-- sum of all the transactions that have been taken, when no sum of the first ones of them is
-- outside the range of an `int`.
pub deposit-eq-sum :
    {n k : ℕ} {s : System} {h : List Event}
    → Reach n k s h
    → NoOverflow (pos 0) (taken h)
    → ((j : ℕ) → j < k → in_read (s.consumers j) ≡ 0)
    → s.mem.deposit ≡ sum (taken h)
deposit-eq-sum {h} r fits quiet = deposit-eq-int_sum r quiet ∙ int_sum-eq (taken h) fits

-- The message "after the last 10 transactions" comes 10 transactions after the one before it,
-- except at the end of the buffer: after the message at index 120 the next one comes 8
-- transactions later, at index 0.
pub prints_balance_gap :
    (r : ℕ)
    → r < buffer_size
    → prints_balance r ≡ true
    → (r ≢ 120
        → (prints_balance ((r + 10) % buffer_size) ≡ true)
          × ((d : ℕ) → 0 < d → d < 10 → prints_balance ((r + d) % buffer_size) ≡ false))
      × (r ≡ 120
          → (prints_balance ((r + 8) % buffer_size) ≡ true)
            × ((d : ℕ) → 0 < d → d < 8 → prints_balance ((r + d) % buffer_size) ≡ false))
unfolding prints_balance
prints_balance_gap r lt p =
    (λ ne. (ground arith, λ d lo hi. ground arith), λ e. (ground arith, λ d lo hi. ground arith))
