-- ===== src/ProdCons/Many/Tests.antt =====
-- A run of many_prod_many_cons.c with two producers and one consumer, and the theorems at it.
use c_teaching.Prelude.{ℕ, ◌+◌, ◌≤◌, ◌<◌, ◌≡◌, refl, length, take, List, arith}
use c_teaching.Prelude.Int.{pos, ◌+ℤ◌, add_int, to_int}
use c_teaching.ProdCons.Transaction.{perform_random_transaction}
use c_teaching.ProdCons.Many.{System, Event, ProducerMove, ConsumerMove}
use c_teaching.ProdCons.Many.Run.{
  producer, consumer, Reach, start, later, written, taken, sum, NoOverflow,
}
use c_teaching.ProdCons.Many.Invariant.{in_read}
use c_teaching.ProdCons.Many.Safety.{mutual_exclusion, taken_in_order, deposit-eq-sum}
use c_teaching.ProdCons.Many.Safety.Progress.{SomeReady, no_deadlock}

-- A state that can be reached, with its events.
record Run (n k : ℕ) : Type 0 where
  last : System
  events : List Event
  reach : Reach n k last events

-- Producer 0 stores the transaction 7 and posts it; producer 1 is about to store.
abbrev stored : Run 2 1
stored = record {
  last = _;
  events = _;
  reach =
      later
        (later
          (later
            (later
              (later
                (later
                  (later
                    (later
                      (later
                        (later
                          (later start (producer 0 refl (omega arith) (ProducerMove.produce 6)))
                          (producer 0 refl (omega arith) (ProducerMove.got_empty (omega arith))))
                        (producer 0 refl (omega arith) (ProducerMove.got_write (omega arith))))
                      (producer 0 refl (omega arith) ProducerMove.store))
                    (producer 0 refl (omega arith) ProducerMove.load_write))
                  (producer 0 refl (omega arith) ProducerMove.store_write))
                (producer 0 refl (omega arith) ProducerMove.put_write))
              (producer 0 refl (omega arith) ProducerMove.put_fill))
            (producer 1 refl (omega arith) (ProducerMove.produce 1500)))
          (producer 1 refl (omega arith) (ProducerMove.got_empty (omega arith))))
        (producer 1 refl (omega arith) (ProducerMove.got_write (omega arith)));
}

-- Then the consumer takes it and stores the new deposit.
abbrev consumed : Run 2 1
consumed = record {
  last = _;
  events = _;
  reach =
      later
        (later
          (later
            (later
              (later
                (later
                  (later
                    (later stored.reach
                      (consumer 0 refl (omega arith) (ConsumerMove.got_fill (omega arith))))
                    (consumer 0 refl (omega arith) (ConsumerMove.got_read (omega arith))))
                  (consumer 0 refl (omega arith) ConsumerMove.take_item))
                (consumer 0 refl (omega arith) ConsumerMove.load_deposit))
              (consumer 0 refl (omega arith) ConsumerMove.store_deposit))
            (consumer 0 refl (omega arith) ConsumerMove.load_read))
          (consumer 0 refl (omega arith) ConsumerMove.store_read))
        (consumer 0 refl (omega arith) ConsumerMove.put_read);
}

consumed_values : (consumed.last.mem.deposit ≡ pos 7) × (consumed.last.mem.read_index ≡ 1)
unfolding perform_random_transaction ◌+ℤ◌ add_int to_int
consumed_values = (refl, refl)

-- Producer 1 is the only one inside write_mutex.
mutual_exclusion_example : ◌≡◌ {A = ℕ} 1 1
unfolding perform_random_transaction
mutual_exclusion_example =
    (mutual_exclusion stored.reach).0 1 1 (omega arith) (omega arith) refl refl

taken_in_order_example :
    (taken consumed.events ≡ take 1 (written consumed.events))
    × (1 ≤ length (written consumed.events))
    × (length (written consumed.events) ≤ 1 + 128)
taken_in_order_example = taken_in_order consumed.reach

quiet : (j : ℕ) → j < 1 → in_read (consumed.last.consumers j) ≡ 0
quiet j lt = ground arith

consumed_fits : NoOverflow (pos 0) (taken consumed.events)
unfolding ◌+ℤ◌ perform_random_transaction
consumed_fits = ((omega arith, omega arith), tt)

deposit-eq-sum_example : consumed.last.mem.deposit ≡ sum (taken consumed.events)
deposit-eq-sum_example = deposit-eq-sum consumed.reach consumed_fits quiet

no_deadlock_example : SomeReady 2 1 stored.last
no_deadlock_example = no_deadlock (omega arith) (omega arith) stored.reach
