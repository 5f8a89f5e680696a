-- ===== src/ProdCons/Plain/Tests.antt =====
-- Runs of the three programs of lab05 with a lone thread, and the theorems at them.
use c_teaching.Prelude.{ℕ, ◌+◌, ◌≤◌, ◌<◌, ◌≡◌, ◌⊎◌, refl, length, take, List, arith}
use c_teaching.Prelude.Int.{ℤ, pos, ◌+ℤ◌, add_int}
use c_teaching.ProdCons.Transaction.{perform_random_transaction}
use c_teaching.ProdCons.Many.{Event, ProducerMove, ConsumerMove}
use c_teaching.ProdCons.Many.Run.{written, taken, sum, NoOverflow}
use c_teaching.ProdCons.Many.Invariant.{in_read}
use c_teaching.ProdCons.Plain.{Lone, Taker, LoneMove, TakerMove}
use c_teaching.ProdCons.Plain.OneOne
use c_teaching.ProdCons.Plain.OneMany
use c_teaching.ProdCons.Plain.ManyOne
use c_teaching.ProdCons.Plain.View.{ahead}
use c_teaching.ProdCons.Plain.Correct.{one_one-delivers, many_one-delivers, one_many-delivers}

record OneOneRun : Type 0 where
  last : OneOne.System
  events : List Event
  reach : OneOne.Reach last events

-- The transaction 7 is stored and taken; the consumer has given the slot back and not added it.
abbrev one_one : OneOneRun
one_one = record {
  last = _;
  events = _;
  reach =
      OneOne.later
        (OneOne.later
          (OneOne.later
            (OneOne.later
              (OneOne.later
                (OneOne.later
                  (OneOne.later
                    (OneOne.later
                      (OneOne.later
                        (OneOne.later
                          (OneOne.later OneOne.start (OneOne.produce refl (LoneMove.produce 6)))
                          (OneOne.produce refl (LoneMove.got_empty (omega arith))))
                        (OneOne.produce refl LoneMove.store))
                      (OneOne.produce refl LoneMove.load_write))
                    (OneOne.produce refl LoneMove.store_write))
                  (OneOne.produce refl LoneMove.put_fill))
                (OneOne.consume refl (TakerMove.got_fill (omega arith))))
              (OneOne.consume refl TakerMove.take_item))
            (OneOne.consume refl TakerMove.load_read))
          (OneOne.consume refl TakerMove.store_read))
        (OneOne.consume refl TakerMove.put_empty);
}

one_one_fits : NoOverflow (pos 0) (taken one_one.events)
unfolding ◌+ℤ◌ perform_random_transaction
one_one_fits = ((omega arith, omega arith), tt)

one_one-delivers_example :
    (taken one_one.events ≡ take 1 (written one_one.events))
    × (1 ≤ length (written one_one.events))
    × (length (written one_one.events) ≤ 1 + 128)
    × (add_int (pos 0) (pos 7) ≡ sum (taken one_one.events))
    × ((v : ℤ)
        → one_one.last.producer ≡ Lone.wait_empty v
        → one_one.last.consumer ≡ Taker.wait_fill
        → (0 < one_one.last.mem.empty_count) ⊎ (0 < one_one.last.mem.fill_count))
unfolding perform_random_transaction
one_one-delivers_example = one_one-delivers one_one.reach one_one_fits

record ManyOneRun : Type 0 where
  last : ManyOne.System
  events : List Event
  reach : ManyOne.Reach 2 last events

-- Producer 1 stores the transaction 7.
abbrev many_one : ManyOneRun
many_one = record {
  last = _;
  events = _;
  reach =
      ManyOne.later
        (ManyOne.later
          (ManyOne.later
            (ManyOne.later ManyOne.start
              (ManyOne.produce 1 refl (omega arith) (ProducerMove.produce 6)))
            (ManyOne.produce 1 refl (omega arith) (ProducerMove.got_empty (omega arith))))
          (ManyOne.produce 1 refl (omega arith) (ProducerMove.got_write (omega arith))))
        (ManyOne.produce 1 refl (omega arith) ProducerMove.store);
}

many_one-delivers_example :
    (taken many_one.events ≡ take 0 (written many_one.events))
    × (0 ≤ length (written many_one.events))
    × (length (written many_one.events) ≤ 0 + 128)
    × (ahead many_one.last.consumer many_one.last.mem.deposit ≡ sum (taken many_one.events))
many_one-delivers_example = many_one-delivers many_one.reach tt

record OneManyRun : Type 0 where
  last : OneMany.System
  events : List Event
  reach : OneMany.Reach 2 last events

-- The producer stores the transaction 7, and consumer 1 takes it.
abbrev one_many : OneManyRun
one_many = record {
  last = _;
  events = _;
  reach =
      OneMany.later
        (OneMany.later
          (OneMany.later
            (OneMany.later
              (OneMany.later
                (OneMany.later
                  (OneMany.later
                    (OneMany.later
                      (OneMany.later OneMany.start (OneMany.produce refl (LoneMove.produce 6)))
                      (OneMany.produce refl (LoneMove.got_empty (omega arith))))
                    (OneMany.produce refl LoneMove.store))
                  (OneMany.produce refl LoneMove.load_write))
                (OneMany.produce refl LoneMove.store_write))
              (OneMany.produce refl LoneMove.put_fill))
            (OneMany.consume 1 refl (omega arith) (ConsumerMove.got_fill (omega arith))))
          (OneMany.consume 1 refl (omega arith) (ConsumerMove.got_read (omega arith))))
        (OneMany.consume 1 refl (omega arith) ConsumerMove.take_item);
}

one_many_fits : NoOverflow (pos 0) (taken one_many.events)
unfolding ◌+ℤ◌ perform_random_transaction
one_many_fits = ((omega arith, omega arith), tt)

one_many-delivers_example :
    (taken one_many.events ≡ take 1 (written one_many.events))
    × (1 ≤ length (written one_many.events))
    × (length (written one_many.events) ≤ 1 + 128)
    × (((j : ℕ) → j < 2 → in_read (one_many.last.consumers j) ≡ 0)
        → one_many.last.mem.deposit ≡ sum (taken one_many.events))
one_many-delivers_example = one_many-delivers one_many.reach one_many_fits
