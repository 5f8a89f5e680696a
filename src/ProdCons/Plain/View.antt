-- ===== src/ProdCons/Plain/View.antt =====
-- A lone thread seen as a thread of many_prod_many_cons.c.
use c_teaching.Prelude.{ℕ, ◌≡◌, refl}
use c_teaching.Prelude.Int.{ℤ, add_int}
use c_teaching.ProdCons.Many.{Shared, Producer, Consumer, Event, ProducerMove, ConsumerMove}
use c_teaching.ProdCons.Plain.{Lone, LoneMove, produce, Taker, TakerMove, take_item}

-- The values that the mutexes would have.
abbrev pub write_mutex : Lone → ℕ
write_mutex (Lone.storing v) = 0
write_mutex Lone.loading_write = 0
write_mutex (Lone.storing_write w) = 0
write_mutex _ = 1

abbrev pub read_mutex : Taker → ℕ
read_mutex Taker.taking = 0
read_mutex (Taker.loading_read v) = 0
read_mutex (Taker.storing_read v r) = 0
read_mutex _ = 1

-- The deposit with the transaction that the consumer has taken.
abbrev pub ahead : Taker → ℤ → ℤ
ahead (Taker.loading_read v) deposit = add_int deposit v
ahead (Taker.storing_read v r) deposit = add_int deposit v
ahead (Taker.post_empty v) deposit = add_int deposit v
ahead (Taker.adding v) deposit = add_int deposit v
ahead (Taker.storing_deposit v d) deposit = add_int d v
ahead _ deposit = deposit

abbrev pub to_producer : Lone → Producer
to_producer Lone.producing = Producer.producing
to_producer (Lone.wait_empty v) = Producer.wait_empty v
to_producer (Lone.storing v) = Producer.storing v
to_producer Lone.loading_write = Producer.loading_write
to_producer (Lone.storing_write w) = Producer.storing_write w
to_producer Lone.post_fill = Producer.post_fill

abbrev pub to_consumer : Taker → Consumer
to_consumer Taker.wait_fill = Consumer.wait_fill
to_consumer Taker.taking = Consumer.taking
to_consumer (Taker.loading_read v) = Consumer.loading_read
to_consumer (Taker.storing_read v r) = Consumer.storing_read r
to_consumer (Taker.post_empty v) = Consumer.post_empty
to_consumer (Taker.adding v) = Consumer.wait_fill
to_consumer (Taker.storing_deposit v d) = Consumer.wait_fill

abbrev pub view : Shared → ℕ → ℕ → ℤ → Shared
view m w r d = record m { write_mutex = w; read_mutex = r; deposit = d }

-- A move of a thread with a mutex does not look at the other side's fields.
pub beside_taker :
    {m m' : Shared} {p p' : Producer} {e : Event} (r : ℕ) (c : Taker)
    → ProducerMove m p e m' p'
    → ProducerMove
        (view m m.write_mutex r (ahead c m.deposit))
        p
        e
        (view m' m'.write_mutex r (ahead c m'.deposit))
        p'
beside_taker r c (ProducerMove.produce q) = ProducerMove.produce q
beside_taker r c (ProducerMove.got_empty g) = ProducerMove.got_empty g
beside_taker r c (ProducerMove.got_write g) = ProducerMove.got_write g
beside_taker r c ProducerMove.store = ProducerMove.store
beside_taker r c ProducerMove.load_write = ProducerMove.load_write
beside_taker r c ProducerMove.store_write = ProducerMove.store_write
beside_taker r c ProducerMove.put_write = ProducerMove.put_write
beside_taker r c ProducerMove.put_fill = ProducerMove.put_fill

pub beside_lone :
    {m m' : Shared} {c c' : Consumer} {e : Event} (w : ℕ)
    → ConsumerMove m c e m' c'
    → ConsumerMove (view m w m.read_mutex m.deposit) c e (view m' w m'.read_mutex m'.deposit) c'
beside_lone w (ConsumerMove.got_fill g) = ConsumerMove.got_fill g
beside_lone w (ConsumerMove.got_read g) = ConsumerMove.got_read g
beside_lone w ConsumerMove.take_item = ConsumerMove.take_item
beside_lone w ConsumerMove.load_deposit = ConsumerMove.load_deposit
beside_lone w ConsumerMove.store_deposit = ConsumerMove.store_deposit
beside_lone w ConsumerMove.load_read = ConsumerMove.load_read
beside_lone w ConsumerMove.store_read = ConsumerMove.store_read
beside_lone w ConsumerMove.put_read = ConsumerMove.put_read
beside_lone w ConsumerMove.put_empty = ConsumerMove.put_empty

-- What a lone thread leaves alone.
pub lone-keeps :
    {m m' : Shared} {p p' : Lone} {e : Event}
    → LoneMove m p e m' p'
    → (m.read_mutex ≡ m'.read_mutex) × (m.deposit ≡ m'.deposit)
lone-keeps (produce q) = (refl, refl)
lone-keeps mv = (refl, refl)

pub taker-keeps :
    {m m' : Shared} {c c' : Taker} {e : Event}
    → TakerMove m c e m' c'
    → m.write_mutex ≡ m'.write_mutex
taker-keeps take_item = refl
taker-keeps mv = refl
