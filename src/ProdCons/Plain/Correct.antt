-- ===== src/ProdCons/Plain/Correct.antt =====
-- The three programs of lab05 with a lone thread refine many_prod_many_cons.c, and so deliver the
-- transactions in order and lose no update of the deposit.
use c_teaching.Prelude.{
  ℕ, ◌+◌, ◌≤◌, ◌<◌, ◌≡◌, refl, ap, ◌∙◌, ◌⊎◌, inl, inr, dec_lt, subst, length, take, List, [], ◌∷◌,
  arith,
}
use mathlib.Core.Path.{subst₂}
use c_teaching.Prelude.Int.{ℤ, pos}
use c_teaching.Threads.{total}
use c_teaching.ProdCons.Many.{Shared, init, Producer, Consumer, Event, silent, buffer_size}
use c_teaching.ProdCons.Many.Run.{written, taken, sum, int_sum, NoOverflow, int_sum-eq, start}
use c_teaching.ProdCons.Many.Safety.{taken_in_order, deposit-eq-int_sum}
use c_teaching.ProdCons.Many.Invariant.{
  Reach-Inv, owes, in_read, after_store, before_store, before_take, after_take,
}
use c_teaching.ProdCons.Plain.{Lone, Taker}
use c_teaching.ProdCons.Plain.OneOne
use c_teaching.ProdCons.Plain.OneMany
use c_teaching.ProdCons.Plain.ManyOne
use c_teaching.ProdCons.Plain.View.{
  write_mutex, read_mutex, ahead, to_producer, to_consumer, view, lone-keeps, taker-keeps,
}
use c_teaching.ProdCons.Plain.Sim.{
  Found, unsilent, lone-Found, taker-Found, mutex-producer-Found, mutex-consumer-Found,
}

module _ {n k : ℕ} {m : Shared} {P : (ℕ → Producer) → Type 0} {C : (ℕ → Consumer) → Type 0}
    {h : List Event} (f : Found n k m P C h) where
  -- The window that the transactions of a run form.
  in_order :
      (taken h ≡ take (length (taken h)) (written h))
      × (length (taken h) ≤ length (written h))
      × (length (written h) ≤ length (taken h) + buffer_size)
  in_order = rw (f.wrote_same, f.took_same) at (taken_in_order f.reach)

begun :
    {n k : ℕ} {P : (ℕ → Producer) → Type 0} {C : (ℕ → Consumer) → Type 0}
    → P init.producers
    → C init.consumers
    → Found n k init.mem P C []
begun p c = record {
  producers = init.producers;
  consumers = init.consumers;
  events = [];
  reach = start;
  p_ok = p;
  c_ok = c;
  wrote_same = refl;
  took_same = refl;
}

-- The three refinements: every reachable state is the view of one of many_prod_many_cons.c.
one_one-Found :
    {s : OneOne.System} {h : List Event}
    → OneOne.Reach s h
    → Found 1 1
        (view s.mem
          (write_mutex s.producer)
          (read_mutex s.consumer)
          (ahead s.consumer s.mem.deposit))
        (λ ps. ps 0 ≡ to_producer s.producer)
        (λ cs. cs 0 ≡ to_consumer s.consumer)
        h
one_one-Found OneOne.start = begun refl refl
one_one-Found (OneOne.later {s} {h} r (OneOne.produce {e} {m} {p} run mv)) =
    subst
      (λ d.
        Found 1 1 (view m (write_mutex p) (read_mutex s.consumer) (ahead s.consumer d))
          (λ ps. ps 0 ≡ to_producer p) (λ cs. cs 0 ≡ to_consumer s.consumer) (e ∷ h))
      (lone-keeps mv).1
      (lone-Found (read_mutex s.consumer) (ahead s.consumer s.mem.deposit) (omega arith) mv
        (one_one-Found r))
one_one-Found (OneOne.later {s} r (OneOne.consume run mv)) =
    taker-Found (write_mutex s.producer) (omega arith) mv (one_one-Found r)
one_one-Found (OneOne.later {h} r (OneOne.producer_fails run at)) =
    unsilent h (silent ∷ h) refl refl (one_one-Found r)
one_one-Found (OneOne.later {h} r (OneOne.consumer_fails run at)) =
    unsilent h (silent ∷ h) refl refl (one_one-Found r)

one_many-Found :
    {k : ℕ} {s : OneMany.System} {h : List Event}
    → OneMany.Reach k s h
    → Found 1 k
        (view s.mem (write_mutex s.producer) s.mem.read_mutex s.mem.deposit)
        (λ ps. ps 0 ≡ to_producer s.producer)
        (λ cs. cs ≡ s.consumers)
        h
one_many-Found OneMany.start = begun refl refl
one_many-Found {k} (OneMany.later {s} {h} r (OneMany.produce {e} {m} {p} run mv)) =
    subst₂
      (λ q d.
        Found 1 k (view m (write_mutex p) q d) (λ ps. ps 0 ≡ to_producer p) (λ cs. cs ≡ s.consumers)
          (e ∷ h))
      (lone-keeps mv).0 (lone-keeps mv).1
      (lone-Found s.mem.read_mutex s.mem.deposit (omega arith) mv (one_many-Found r))
one_many-Found (OneMany.later {s} r (OneMany.consume j run lt mv)) =
    mutex-consumer-Found j (write_mutex s.producer) lt mv (one_many-Found r)
one_many-Found (OneMany.later {h} r (OneMany.producer_fails run at)) =
    unsilent h (silent ∷ h) refl refl (one_many-Found r)
one_many-Found (OneMany.later {h} r (OneMany.consumer_fails j run lt at)) =
    unsilent h (silent ∷ h) refl refl (one_many-Found r)

many_one-Found :
    {n : ℕ} {s : ManyOne.System} {h : List Event}
    → ManyOne.Reach n s h
    → Found n 1
        (view s.mem s.mem.write_mutex (read_mutex s.consumer) (ahead s.consumer s.mem.deposit))
        (λ ps. ps ≡ s.producers)
        (λ cs. cs 0 ≡ to_consumer s.consumer)
        h
many_one-Found ManyOne.start = begun refl refl
many_one-Found (ManyOne.later {s} r (ManyOne.produce i run lt mv)) =
    mutex-producer-Found i (read_mutex s.consumer) s.consumer lt mv (many_one-Found r)
many_one-Found {n} (ManyOne.later {s} {h} r (ManyOne.consume {e} {m} {c} run mv)) =
    subst
      (λ w.
        Found n 1 (view m w (read_mutex c) (ahead c m.deposit)) (λ ps. ps ≡ s.producers)
          (λ cs. cs 0 ≡ to_consumer c) (e ∷ h))
      (taker-keeps mv) (taker-Found s.mem.write_mutex (omega arith) mv (many_one-Found r))
many_one-Found (ManyOne.later {h} r (ManyOne.producer_fails i run lt at)) =
    unsilent h (silent ∷ h) refl refl (many_one-Found r)
many_one-Found (ManyOne.later {h} r (ManyOne.consumer_fails run at)) =
    unsilent h (silent ∷ h) refl refl (many_one-Found r)

to_consumer-owes : (c : Taker) → owes (to_consumer c) ≡ 0
to_consumer-owes c = ground arith

-- A lone consumer's deposit, with what it still has to add.
ahead-eq-sum :
    {n : ℕ} {m : Shared} {P : (ℕ → Producer) → Type 0} {h : List Event} (c : Taker)
    → Found n 1 m P (λ cs. cs 0 ≡ to_consumer c) h
    → NoOverflow (pos 0) (taken h)
    → m.deposit ≡ sum (taken h)
unfolding total
ahead-eq-sum {h} c f fits =
    (Reach-Inv f.reach).balance (omega (arith, ap owes f.c_ok, to_consumer-owes c))
    ∙ ap int_sum f.took_same
    ∙ int_sum-eq (taken h) fits

-- The counts of many_prod_many_cons.c do not let its only two threads wait for each other.
not_both :
    {m : Shared} {P : (ℕ → Producer) → Type 0} {C : (ℕ → Consumer) → Type 0} {h : List Event}
    {v : ℤ}
    → (f : Found 1 1 m P C h) → f.producers 0 ≡ Producer.wait_empty v
    → f.consumers 0 ≡ Consumer.wait_fill
    → (0 < m.empty_count) ⊎ (0 < m.fill_count)
unfolding total
not_both {m} f at_p at_c = elim (dec_lt 0 m.fill_count) [
  | yes p ↦ inr p
  | no p ↦ inl (
      omega (
        arith,
        filled,
        emptied,
        ap after_store at_p,
        ap before_store at_p,
        ap before_take at_c,
        ap after_take at_c,
      ))
]
  where
    open (Reach-Inv f.reach) use {filled, emptied}

-- one_prod_one_cons.c: whatever the interleaving, as long as no sum of the first transactions
-- taken is outside the range of an `int`, the consumer has taken the first of the
-- transactions that the producer has stored, in order, each once, and at most 128 stored ones are
-- left; the deposit, with the transaction that the consumer has taken and not yet added, is the
-- sum of those taken; and the two threads never wait for each other.
pub one_one-delivers :
    {s : OneOne.System} {h : List Event}
    → OneOne.Reach s h
    → NoOverflow (pos 0) (taken h)
    → (taken h ≡ take (length (taken h)) (written h))
      × (length (taken h) ≤ length (written h))
      × (length (written h) ≤ length (taken h) + buffer_size)
      × (ahead s.consumer s.mem.deposit ≡ sum (taken h))
      × ((v : ℤ)
          → s.producer ≡ Lone.wait_empty v
          → s.consumer ≡ Taker.wait_fill
          → (0 < s.mem.empty_count) ⊎ (0 < s.mem.fill_count))
one_one-delivers {s} r fits =
    let f = one_one-Found r in
    let (fifo, some_left, room) = in_order f in
    (
      fifo,
      some_left,
      room,
      ahead-eq-sum s.consumer f fits,
      λ v at_p at_c. not_both f (f.p_ok ∙ ap to_producer at_p) (f.c_ok ∙ ap to_consumer at_c),
    )

-- The same, under the same condition, but for the waiting, for many_prod_one_cons.c, with any number of producers.
pub many_one-delivers :
    {n : ℕ} {s : ManyOne.System} {h : List Event}
    → ManyOne.Reach n s h
    → NoOverflow (pos 0) (taken h)
    → (taken h ≡ take (length (taken h)) (written h))
      × (length (taken h) ≤ length (written h))
      × (length (written h) ≤ length (taken h) + buffer_size)
      × (ahead s.consumer s.mem.deposit ≡ sum (taken h))
many_one-delivers {s} r fits =
    let f = many_one-Found r in
    let (fifo, some_left, room) = in_order f in
    (fifo, some_left, room, ahead-eq-sum s.consumer f fits)

-- The same, under the same condition, but for the waiting, for one_prod_many_cons.c, with any
-- number of consumers; there the deposit is the sum of the transactions taken whenever no consumer
-- is inside read_mutex.
pub one_many-delivers :
    {k : ℕ} {s : OneMany.System} {h : List Event}
    → OneMany.Reach k s h
    → NoOverflow (pos 0) (taken h)
    → (taken h ≡ take (length (taken h)) (written h))
      × (length (taken h) ≤ length (written h))
      × (length (written h) ≤ length (taken h) + buffer_size)
      × (((j : ℕ) → j < k → in_read (s.consumers j) ≡ 0) → s.mem.deposit ≡ sum (taken h))
one_many-delivers {k} {s} {h} r fits =
    let f = one_many-Found r in
    let (fifo, some_left, room) = in_order f in
    (
      fifo,
      some_left,
      room,
      λ quiet.
          deposit-eq-int_sum f.reach (λ j lt. rw f.c_ok (quiet j lt))
          ∙ ap int_sum f.took_same
          ∙ int_sum-eq (taken h) fits,
    )
