-- ===== src/ProdCons/Many/Safety/Progress.antt =====
-- many_prod_many_cons.c cannot deadlock.
use c_teaching.Prelude.{ℕ, ◌+◌, ◌<◌, ◌≡◌, ◌⊎◌, inl, inr, List, arith, dec_lt}
use c_teaching.Threads.{total, total_pos, le-total}
use c_teaching.ProdCons.Many.{
  Shared, Producer, producing, wait_empty, wait_write, storing, loading_write, storing_write,
  post_write, post_fill, Consumer, wait_fill, wait_read, taking, adding, storing_deposit,
  loading_read, storing_read, post_read, post_empty, Event, ProducerMove, ConsumerMove, System,
}
use c_teaching.ProdCons.Many.Run.{Reach}
use c_teaching.ProdCons.Many.Invariant.{
  Inv, Reach-Inv, in_write, in_read, before_store, after_store, before_take, after_take,
}

-- The thread is not blocked.
abbrev pub ProducerReady : Shared → Producer → Type 0
ProducerReady m p = (e : Event) × (m' : Shared) × (p' : Producer) × ProducerMove m p e m' p'

abbrev pub ConsumerReady : Shared → Consumer → Type 0
ConsumerReady m c = (e : Event) × (m' : Shared) × (c' : Consumer) × ConsumerMove m c e m' c'

ready_after_store : (m : Shared) (p : Producer) → 0 < after_store p → ProducerReady m p
ready_after_store m loading_write h = (_, _, _, ProducerMove.load_write)
ready_after_store m (storing_write w) h = (_, _, _, ProducerMove.store_write)
ready_after_store m post_write h = (_, _, _, ProducerMove.put_write)
ready_after_store m post_fill h = (_, _, _, ProducerMove.put_fill)
ready_after_store m p h = absurd (omega arith)

ready_before_store :
    (m : Shared) (p : Producer) → 0 < before_store p → 0 < m.write_mutex → ProducerReady m p
ready_before_store m (wait_write v) h free = (_, _, _, ProducerMove.got_write free)
ready_before_store m (storing v) h free = (_, _, _, ProducerMove.store)
ready_before_store m p h free = absurd (omega arith)

ready_in_write : (m : Shared) (p : Producer) → 0 < in_write p → ProducerReady m p
ready_in_write m (storing v) h = (_, _, _, ProducerMove.store)
ready_in_write m loading_write h = (_, _, _, ProducerMove.load_write)
ready_in_write m (storing_write w) h = (_, _, _, ProducerMove.store_write)
ready_in_write m post_write h = (_, _, _, ProducerMove.put_write)
ready_in_write m p h = absurd (omega arith)

ready_idle :
    (m : Shared) (p : Producer)
    → before_store p ≡ 0
    → after_store p ≡ 0
    → 0 < m.empty_count
    → ProducerReady m p
ready_idle m producing b a h = (_, _, _, ProducerMove.produce 0)
ready_idle m (wait_empty v) b a h = (_, _, _, ProducerMove.got_empty h)
ready_idle m p b a h = absurd (omega arith)

ready_after_take : (m : Shared) (c : Consumer) → 0 < after_take c → ConsumerReady m c
ready_after_take m (adding v) h = (_, _, _, ConsumerMove.load_deposit)
ready_after_take m (storing_deposit v d) h = (_, _, _, ConsumerMove.store_deposit)
ready_after_take m loading_read h = (_, _, _, ConsumerMove.load_read)
ready_after_take m (storing_read r) h = (_, _, _, ConsumerMove.store_read)
ready_after_take m post_read h = (_, _, _, ConsumerMove.put_read)
ready_after_take m post_empty h = (_, _, _, ConsumerMove.put_empty)
ready_after_take m c h = absurd (omega arith)

ready_before_take :
    (m : Shared) (c : Consumer) → 0 < before_take c → 0 < m.read_mutex → ConsumerReady m c
ready_before_take m wait_read h free = (_, _, _, ConsumerMove.got_read free)
ready_before_take m taking h free = (_, _, _, ConsumerMove.take_item)
ready_before_take m c h free = absurd (omega arith)

ready_waiting :
    (m : Shared) (c : Consumer)
    → before_take c ≡ 0
    → after_take c ≡ 0
    → 0 < m.fill_count
    → ConsumerReady m c
ready_waiting m wait_fill b a h = (_, _, _, ConsumerMove.got_fill h)
ready_waiting m c b a h = absurd (omega arith)

ready_in_read : (m : Shared) (c : Consumer) → 0 < in_read c → ConsumerReady m c
ready_in_read m taking h = (_, _, _, ConsumerMove.take_item)
ready_in_read m (adding v) h = (_, _, _, ConsumerMove.load_deposit)
ready_in_read m (storing_deposit v d) h = (_, _, _, ConsumerMove.store_deposit)
ready_in_read m loading_read h = (_, _, _, ConsumerMove.load_read)
ready_in_read m (storing_read r) h = (_, _, _, ConsumerMove.store_read)
ready_in_read m post_read h = (_, _, _, ConsumerMove.put_read)
ready_in_read m c h = absurd (omega arith)

-- Some thread of the process is not blocked.
abbrev pub SomeReady : ℕ → ℕ → System → Type 0
SomeReady n k s =
    ((i : ℕ) × (i < n) × ProducerReady s.mem (s.producers i))
    ⊎ ((j : ℕ) × (j < k) × ConsumerReady s.mem (s.consumers j))

module _ {n k : ℕ} (s : System) {h : List Event}
    (inv : Inv n k s.mem s.producers s.consumers h) where
  open inv use {write_lock, read_lock, filled, emptied}

  producer_with :
      (w : Producer → ℕ)
      → ((p : Producer) → 0 < w p → ProducerReady s.mem p)
      → 0 < total w n s.producers
      → SomeReady n k s
  producer_with w ready some_one =
      let (i, lt, at) = total_pos w n s.producers some_one in inl (i, lt, ready (s.producers i) at)

  consumer_with :
      (w : Consumer → ℕ)
      → ((c : Consumer) → 0 < w c → ConsumerReady s.mem c)
      → 0 < total w k s.consumers
      → SomeReady n k s
  consumer_with w ready some_one =
      let (j, lt, at) = total_pos w k s.consumers some_one in inr (j, lt, ready (s.consumers j) at)

  -- A producer that is neither waiting for a slot nor producing is ready, or the holder of
  -- write_mutex is.
  producers_progress :
      0 < total before_store n s.producers + total after_store n s.producers → SomeReady n k s
  producers_progress busy = elim (dec_lt 0 (total after_store n s.producers)) [
    | yes a ↦ producer_with after_store (ready_after_store s.mem) a
    | no a ↦ elim (dec_lt 0 (total in_write n s.producers)) [
      | yes w ↦ producer_with in_write (ready_in_write s.mem) w
      | no w ↦
          producer_with before_store
            (λ p at. ready_before_store s.mem p at (omega (arith, write_lock))) (omega arith)
    ]
  ]

  consumers_progress :
      0 < total before_take k s.consumers + total after_take k s.consumers → SomeReady n k s
  consumers_progress busy = elim (dec_lt 0 (total after_take k s.consumers)) [
    | yes a ↦ consumer_with after_take (ready_after_take s.mem) a
    | no a ↦ elim (dec_lt 0 (total in_read k s.consumers)) [
      | yes w ↦ consumer_with in_read (ready_in_read s.mem) w
      | no w ↦
          consumer_with before_take
            (λ c at. ready_before_take s.mem c at (omega (arith, read_lock))) (omega arith)
    ]
  ]

  progress : 0 < n → 0 < k → SomeReady n k s
  progress hn hk =
      elim (dec_lt 0 (total before_store n s.producers + total after_store n s.producers)) [
        | yes p ↦ producers_progress p
        | no p ↦
            elim (dec_lt 0 (total before_take k s.consumers + total after_take k s.consumers)) [
              | yes c ↦ consumers_progress c
              | no c ↦ elim (dec_lt 0 s.mem.empty_count) [
                | yes e ↦ inl (
                  0,
                  hn,
                  ready_idle s.mem (s.producers 0)
                      (omega (arith, le-total before_store n s.producers 0 hn))
                      (omega (arith, le-total after_store n s.producers 0 hn)) e,
                )
                | no e ↦ inr (
                  0,
                  hk,
                  ready_waiting s.mem (s.consumers 0)
                      (omega (arith, le-total before_take k s.consumers 0 hk))
                      (omega (arith, le-total after_take k s.consumers 0 hk))
                      (omega (arith, filled, emptied)),
                )
              ]
            ]
      ]

-- With at least one producer and one consumer, some thread can always move, whatever the
-- interleaving has been: the threads never all wait on their semaphores.
pub no_deadlock :
    {n k : ℕ} {s : System} {h : List Event} → 0 < n → 0 < k → Reach n k s h → SomeReady n k s
no_deadlock {s} hn hk r = progress s (Reach-Inv r) hn hk
