-- ===== src/ProdCons/Plain/Sim.antt =====
-- The moves of the threads without a mutex are runs of many_prod_many_cons.c: a lone thread takes
-- the mutex with its counting semaphore and gives it back with its index, and the deposit that it
-- still has to change is ahead by one transaction.
use c_teaching.Prelude.{ℕ, ◌<◌, ◌≡◌, refl, ap, ◌∙◌, get_or, false, List, [], ◌∷◌, ◌++◌, arith}
use c_teaching.Prelude.Int.{ℤ, pos}
use c_teaching.Threads.{update}
use c_teaching.ProdCons.Many.{
  Shared, Producer, Consumer, Event, silent, wrote, took, ProducerMove, ConsumerMove,
}
use c_teaching.ProdCons.Many.Run.{Reach, later, producer, consumer, written, taken}
use c_teaching.ProdCons.Plain.{
  Lone, LoneMove, produce, got_empty, store, load_write, store_write, put_fill, Taker, TakerMove,
  got_fill, take_item, load_read, store_read, put_empty, load_deposit, store_deposit,
}
use c_teaching.ProdCons.Plain.View.{
  write_mutex, read_mutex, ahead, to_producer, to_consumer, view, beside_taker, beside_lone,
}

-- many_prod_many_cons.c reaches a state with memory `m` and the transactions of `h`, in which the
-- producers satisfy `P` and the consumers `C`.
pub record Found (n k : ℕ) (m : Shared) (P : (ℕ → Producer) → Type 0) (C : (ℕ → Consumer) → Type 0)
    (h : List Event) : Type 0 where
  pub producers : ℕ → Producer
  pub consumers : ℕ → Consumer
  pub events : List Event
  pub reach :
      Reach n k
        (record { mem = m; producers = producers; consumers = consumers; exited = false })
        events
  pub p_ok : P producers
  pub c_ok : C consumers
  pub wrote_same : written events ≡ written h
  pub took_same : taken events ≡ taken h

written-cong :
    (e : Event) (h g : List Event) → written h ≡ written g → written (e ∷ h) ≡ written (e ∷ g)
written-cong silent h g q = q
written-cong (wrote v) h g q = ap (λ l. l ++ v ∷ []) q
written-cong (took v) h g q = q

taken-cong : (e : Event) (h g : List Event) → taken h ≡ taken g → taken (e ∷ h) ≡ taken (e ∷ g)
taken-cong silent h g q = q
taken-cong (wrote v) h g q = q
taken-cong (took v) h g q = ap (λ l. l ++ v ∷ []) q

module _ {n k : ℕ} where
  -- The first producer moves.
  pub producer-Found :
      {m m' : Shared} {p p' : Producer} {e : Event} {C : (ℕ → Consumer) → Type 0} {h : List Event}
      → 0 < n
      → ProducerMove m p e m' p'
      → Found n k m (λ ps. ps 0 ≡ p) C h
      → Found n k m' (λ ps. ps 0 ≡ p') C (e ∷ h)
  producer-Found {p'} {e} {h} lt mv f = record {
    producers = update f.producers 0 p';
    consumers = f.consumers;
    events = e ∷ f.events;
    reach = later f.reach (producer 0 refl lt (rw f.p_ok mv));
    p_ok = refl;
    c_ok = f.c_ok;
    wrote_same = written-cong e f.events h f.wrote_same;
    took_same = taken-cong e f.events h f.took_same;
  }

  pub consumer-Found :
      {m m' : Shared} {c c' : Consumer} {e : Event} {P : (ℕ → Producer) → Type 0} {h : List Event}
      → 0 < k
      → ConsumerMove m c e m' c'
      → Found n k m P (λ cs. cs 0 ≡ c) h
      → Found n k m' P (λ cs. cs 0 ≡ c') (e ∷ h)
  consumer-Found {c'} {e} {h} lt mv f = record {
    producers = f.producers;
    consumers = update f.consumers 0 c';
    events = e ∷ f.events;
    reach = later f.reach (consumer 0 refl lt (rw f.c_ok mv));
    p_ok = f.p_ok;
    c_ok = refl;
    wrote_same = written-cong e f.events h f.wrote_same;
    took_same = taken-cong e f.events h f.took_same;
  }

  -- A silent event more or less in `h`.
  pub unsilent :
      {m : Shared} {P : (ℕ → Producer) → Type 0} {C : (ℕ → Consumer) → Type 0} (h g : List Event)
      → written h ≡ written g
      → taken h ≡ taken g
      → Found n k m P C h
      → Found n k m P C g
  unsilent h g w t f = record {
    producers = f.producers;
    consumers = f.consumers;
    events = f.events;
    reach = f.reach;
    p_ok = f.p_ok;
    c_ok = f.c_ok;
    wrote_same = f.wrote_same ∙ w;
    took_same = f.took_same ∙ t;
  }

  -- Beside a lone consumer, a producer that takes the mutex moves as it does anyway.
  pub mutex-producer-Found :
      {m m' : Shared} {e : Event} {ps : ℕ → Producer} {p' : Producer} (i r : ℕ) (c : Taker)
      {C : (ℕ → Consumer) → Type 0} {h : List Event}
      → i < n
      → ProducerMove m (ps i) e m' p'
      → Found n k (view m m.write_mutex r (ahead c m.deposit)) (λ qs. qs ≡ ps) C h
      → Found n k
          (view m' m'.write_mutex r (ahead c m'.deposit))
          (λ qs. qs ≡ update ps i p')
          C
          (e ∷ h)
  mutex-producer-Found {m} {m'} {e} {ps} {p'} i r c {h} lt mv f = record {
    producers = update f.producers i p';
    consumers = f.consumers;
    events = e ∷ f.events;
    reach = later f.reach (producer i refl lt (rw f.p_ok (beside_taker r c mv)));
    p_ok = ap (λ qs. update qs i p') f.p_ok;
    c_ok = f.c_ok;
    wrote_same = written-cong e f.events h f.wrote_same;
    took_same = taken-cong e f.events h f.took_same;
  }

  pub mutex-consumer-Found :
      {m m' : Shared} {e : Event} {cs : ℕ → Consumer} {c' : Consumer} (j w : ℕ)
      {P : (ℕ → Producer) → Type 0} {h : List Event}
      → j < k
      → ConsumerMove m (cs j) e m' c'
      → Found n k (view m w m.read_mutex m.deposit) P (λ ds. ds ≡ cs) h
      → Found n k (view m' w m'.read_mutex m'.deposit) P (λ ds. ds ≡ update cs j c') (e ∷ h)
  mutex-consumer-Found {m} {m'} {e} {cs} {c'} j w {h} lt mv f = record {
    producers = f.producers;
    consumers = update f.consumers j c';
    events = e ∷ f.events;
    reach = later f.reach (consumer j refl lt (rw f.c_ok (beside_lone w mv)));
    p_ok = f.p_ok;
    c_ok = ap (λ ds. update ds j c') f.c_ok;
    wrote_same = written-cong e f.events h f.wrote_same;
    took_same = taken-cong e f.events h f.took_same;
  }

  -- A move of the lone producer is a run of the first producer.
  pub lone-Found :
      {m m' : Shared} {p p' : Lone} {e : Event} (r : ℕ) (d : ℤ) {C : (ℕ → Consumer) → Type 0}
      {h : List Event}
      → 0 < n
      → LoneMove m p e m' p'
      → Found n k (view m (write_mutex p) r d) (λ ps. ps 0 ≡ to_producer p) C h
      → Found n k (view m' (write_mutex p') r d) (λ ps. ps 0 ≡ to_producer p') C (e ∷ h)
  lone-Found r d lt (produce q) f = producer-Found lt (ProducerMove.produce q) f
  lone-Found r d {h} lt (got_empty some_left) f =
      unsilent (silent ∷ silent ∷ h) (silent ∷ h) refl refl (
        producer-Found lt (ProducerMove.got_write (omega arith))
          (producer-Found lt (ProducerMove.got_empty some_left) f))
  lone-Found r d lt store f = producer-Found lt ProducerMove.store f
  lone-Found r d lt load_write f = producer-Found lt ProducerMove.load_write f
  lone-Found r d {h} lt store_write f =
      unsilent (silent ∷ silent ∷ h) (silent ∷ h) refl refl
        (producer-Found lt ProducerMove.put_write (producer-Found lt ProducerMove.store_write f))
  lone-Found r d lt put_fill f = producer-Found lt ProducerMove.put_fill f

  -- A move of the lone consumer is a run of the first consumer, maybe an empty one.
  pub taker-Found :
      {m m' : Shared} {c c' : Taker} {e : Event} (w : ℕ) {P : (ℕ → Producer) → Type 0}
      {h : List Event}
      → 0 < k
      → TakerMove m c e m' c'
      → Found n k (view m w (read_mutex c) (ahead c m.deposit)) P (λ cs. cs 0 ≡ to_consumer c) h
      → Found n k
          (view m' w (read_mutex c') (ahead c' m'.deposit))
          P
          (λ cs. cs 0 ≡ to_consumer c')
          (e ∷ h)
  taker-Found w {h} lt (got_fill some_there) f =
      unsilent (silent ∷ silent ∷ h) (silent ∷ h) refl refl (
        consumer-Found lt (ConsumerMove.got_read (omega arith))
          (consumer-Found lt (ConsumerMove.got_fill some_there) f))
  taker-Found {m} w {h} lt take_item f =
      let v = get_or m.transactions m.read_index (pos 0) in
      unsilent (silent ∷ silent ∷ took v ∷ h) (took v ∷ h) refl refl (
        consumer-Found lt ConsumerMove.store_deposit (
          consumer-Found lt ConsumerMove.load_deposit (consumer-Found lt ConsumerMove.take_item f)))
  taker-Found w lt load_read f = consumer-Found lt ConsumerMove.load_read f
  taker-Found w {h} lt store_read f =
      unsilent (silent ∷ silent ∷ h) (silent ∷ h) refl refl
        (consumer-Found lt ConsumerMove.put_read (consumer-Found lt ConsumerMove.store_read f))
  taker-Found w lt put_empty f = consumer-Found lt ConsumerMove.put_empty f
  taker-Found w {h} lt load_deposit f = unsilent h (silent ∷ h) refl refl f
  taker-Found w {h} lt store_deposit f = unsilent h (silent ∷ h) refl refl f
