-- ===== src/ProdCons/Transaction.antt =====
-- performRandomTransaction(), which all four programs of lab05 hold, and the balance message.
use c_teaching.Prelude.{ℕ, ◌+◌, ◌*◌, ◌%◌, ◌≢◌, ltb, if◌then◌else◌, arith}
use c_teaching.Prelude.Int.{ℤ, pos, negsuc, ◌-ℤ◌, ◌≤ℤ◌}

abbrev pub max_transaction : ℕ
max_transaction = 1000

-- `r` is what rand() returns. `amount++` is tested before and read after the increment.
unfoldable pub perform_random_transaction : ℕ → ℤ
unfolding ◌-ℤ◌
perform_random_transaction r =
    let amount = r % (2 * max_transaction) in
    if ltb amount max_transaction then pos (amount + 1) else pos max_transaction -ℤ pos (amount + 1)

-- Whatever rand() returns, a transaction is not 0 and its size is at most MAX_TRANSACTION.
pub perform_random_transaction_range :
    (r : ℕ)
    → (perform_random_transaction r ≢ pos 0)
      × (perform_random_transaction r ≤ℤ pos max_transaction)
      × (negsuc 999 ≤ℤ perform_random_transaction r)
unfolding perform_random_transaction
perform_random_transaction_range r = ground arith
