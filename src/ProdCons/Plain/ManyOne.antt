-- ===== src/ProdCons/Plain/ManyOne.antt =====
-- many_prod_one_cons.c: producers that share write_mutex, and one consumer; the producers' code is
-- that of many_prod_many_cons.c.
use c_teaching.Prelude.{ℕ, ◌<◌, ◌≡◌, Bool, true, false, List, [], ◌∷◌}
use c_teaching.Threads.{update}
use c_teaching.ProdCons.Many.{Shared, init_shared, Event, silent, Producer, producing, ProducerMove}
use c_teaching.ProdCons.Many.Run.{at_call}
use c_teaching.ProdCons.Plain.{Taker, wait_fill, TakerMove, taker_at_call}

pub record System : Type 0 where
  pub mem : Shared
  pub producers : ℕ → Producer
  pub consumer : Taker
  pub exited : Bool

abbrev pub init : System
init = record {
  mem = init_shared;
  producers = λ _. producing;
  consumer = wait_fill;
  exited = false;
}

-- `n` producers; a thread moves, or has a call fail and ends the process.
pub data Step (n : ℕ) (s : System) : Event → System → Type 0 where
  produce :
      (i : ℕ) {e : Event} {m : Shared} {p : Producer}
      → s.exited ≡ false
      → i < n
      → ProducerMove s.mem (s.producers i) e m p
      → Step n s e (record s { mem = m; producers = update s.producers i p })
  consume :
      {e : Event} {m : Shared} {c : Taker}
      → s.exited ≡ false
      → TakerMove s.mem s.consumer e m c
      → Step n s e (record s { mem = m; consumer = c })
  producer_fails :
      (i : ℕ)
      → s.exited ≡ false
      → i < n
      → at_call (s.producers i) ≡ true
      → Step n s silent (record s { exited = true })
  consumer_fails :
      s.exited ≡ false
      → taker_at_call s.consumer ≡ true
      → Step n s silent (record s { exited = true })

-- The runs, with their events, the last one first.
pub data Reach (n : ℕ) : System → List Event → Type 0 where
  start : Reach n init []
  later :
      {s t : System} {e : Event} {h : List Event} → Reach n s h → Step n s e t → Reach n t (e ∷ h)
