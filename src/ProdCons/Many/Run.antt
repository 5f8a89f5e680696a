-- ===== src/ProdCons/Many/Run.antt =====
-- The interleavings of the threads of many_prod_many_cons.c, and the record of a run.
use c_teaching.Prelude.{ℕ, ◌<◌, ◌≡◌, refl, ap, sym, ◌∙◌, Bool, true, false, List, [], ◌∷◌, ◌++◌}
use c_teaching.Prelude.Int.{ℤ, pos, ◌+ℤ◌, +ℤ_assoc, +ℤ_comm, +ℤ-zero, IsInt, add_int, add_int-eq}
use c_teaching.Threads.{update}
use c_teaching.ProdCons.Many.{
  Shared, Producer, wait_empty, wait_write, post_write, post_fill, Consumer, wait_fill, wait_read,
  post_read, post_empty, Event, silent, wrote, took, ProducerMove, ConsumerMove, System, init,
}

-- The thread stands before a call on a semaphore, which may fail.
abbrev pub at_call : Producer → Bool
at_call (wait_empty _) = true
at_call (wait_write _) = true
at_call post_write = true
at_call post_fill = true
at_call _ = false

abbrev pub consumer_at_call : Consumer → Bool
consumer_at_call wait_fill = true
consumer_at_call wait_read = true
consumer_at_call post_read = true
consumer_at_call post_empty = true
consumer_at_call _ = false

-- `n` producers and `k` consumers; one of them moves, or has a call fail and ends the process by
-- the exit() of ERROR_HELPER.
pub data Step (n k : ℕ) (s : System) : Event → System → Type 0 where
  producer :
      (i : ℕ) {e : Event} {m : Shared} {p : Producer}
      → s.exited ≡ false
      → i < n
      → ProducerMove s.mem (s.producers i) e m p
      → Step n k s e (record s { mem = m; producers = update s.producers i p })
  consumer :
      (j : ℕ) {e : Event} {m : Shared} {c : Consumer}
      → s.exited ≡ false
      → j < k
      → ConsumerMove s.mem (s.consumers j) e m c
      → Step n k s e (record s { mem = m; consumers = update s.consumers j c })
  producer_fails :
      (i : ℕ)
      → s.exited ≡ false
      → i < n
      → at_call (s.producers i) ≡ true
      → Step n k s silent (record s { exited = true })
  consumer_fails :
      (j : ℕ)
      → s.exited ≡ false
      → j < k
      → consumer_at_call (s.consumers j) ≡ true
      → Step n k s silent (record s { exited = true })

-- The states that a run from `init` goes through, with its events, the last one first.
pub data Reach (n k : ℕ) : System → List Event → Type 0 where
  start : Reach n k init []
  later :
      {s t : System} {e : Event} {h : List Event}
      → Reach n k s h
      → Step n k s e t
      → Reach n k t (e ∷ h)

-- The transactions that the producers have stored, and those that the consumers have taken, the
-- first one first.
abbrev pub written : List Event → List ℤ
written [] = []
written (wrote v ∷ h) = written h ++ v ∷ []
written (_ ∷ h) = written h

abbrev pub taken : List Event → List ℤ
taken [] = []
taken (took v ∷ h) = taken h ++ v ∷ []
taken (_ ∷ h) = taken h

abbrev pub sum : List ℤ → ℤ
sum [] = pos 0
sum (x ∷ xs) = x +ℤ sum xs

-- The sum as the `int` deposit holds it, one transaction after the other.
abbrev pub int_sum_from : ℤ → List ℤ → ℤ
int_sum_from acc [] = acc
int_sum_from acc (x ∷ xs) = int_sum_from (add_int acc x) xs

abbrev pub int_sum : List ℤ → ℤ
int_sum xs = int_sum_from (pos 0) xs

-- No sum on the way from `acc` leaves the range of an `int`.
abbrev pub NoOverflow : ℤ → List ℤ → Type 0
NoOverflow acc [] = Unit
NoOverflow acc (x ∷ xs) = IsInt (acc +ℤ x) × NoOverflow (acc +ℤ x) xs

int_sum_from-snoc :
    (acc : ℤ) (xs : List ℤ) (v : ℤ)
    → int_sum_from acc (xs ++ v ∷ []) ≡ add_int (int_sum_from acc xs) v
int_sum_from-snoc acc [] v = refl
int_sum_from-snoc acc (x ∷ xs) v = int_sum_from-snoc (add_int acc x) xs v

pub int_sum-snoc : (xs : List ℤ) (v : ℤ) → int_sum (xs ++ v ∷ []) ≡ add_int (int_sum xs) v
int_sum-snoc xs v = int_sum_from-snoc (pos 0) xs v

int_sum_from-eq : (acc : ℤ) (xs : List ℤ) → NoOverflow acc xs → int_sum_from acc xs ≡ acc +ℤ sum xs
int_sum_from-eq acc [] h = sym (+ℤ-zero acc)
int_sum_from-eq acc (x ∷ xs) (here, rest) =
    ap (λ d. int_sum_from d xs) (add_int-eq acc x here)
    ∙ int_sum_from-eq (acc +ℤ x) xs rest
    ∙ +ℤ_assoc acc x (sum xs)

pub int_sum-eq : (xs : List ℤ) → NoOverflow (pos 0) xs → int_sum xs ≡ sum xs
int_sum-eq xs h = int_sum_from-eq (pos 0) xs h ∙ +ℤ_comm (pos 0) (sum xs) ∙ +ℤ-zero (sum xs)
