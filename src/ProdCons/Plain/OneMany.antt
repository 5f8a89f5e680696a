-- ===== src/ProdCons/Plain/OneMany.antt =====
-- one_prod_many_cons.c: one producer, and consumers that share read_mutex; the consumers' code is
-- that of many_prod_many_cons.c.
use c_teaching.Prelude.{ℕ, ◌<◌, ◌≡◌, Bool, true, false, List, [], ◌∷◌}
use c_teaching.Threads.{update}
use c_teaching.ProdCons.Many.{Shared, init_shared, Event, silent, Consumer, wait_fill, ConsumerMove}
use c_teaching.ProdCons.Many.Run.{consumer_at_call}
use c_teaching.ProdCons.Plain.{Lone, producing, LoneMove, lone_at_call}

pub record System : Type 0 where
  pub mem : Shared
  pub producer : Lone
  pub consumers : ℕ → Consumer
  pub exited : Bool

abbrev pub init : System
init = record {
  mem = init_shared;
  producer = producing;
  consumers = λ _. wait_fill;
  exited = false;
}

-- `k` consumers; a thread moves, or has a call fail and ends the process.
pub data Step (k : ℕ) (s : System) : Event → System → Type 0 where
  produce :
      {e : Event} {m : Shared} {p : Lone}
      → s.exited ≡ false
      → LoneMove s.mem s.producer e m p
      → Step k s e (record s { mem = m; producer = p })
  consume :
      (j : ℕ) {e : Event} {m : Shared} {c : Consumer}
      → s.exited ≡ false
      → j < k
      → ConsumerMove s.mem (s.consumers j) e m c
      → Step k s e (record s { mem = m; consumers = update s.consumers j c })
  producer_fails :
      s.exited ≡ false
      → lone_at_call s.producer ≡ true
      → Step k s silent (record s { exited = true })
  consumer_fails :
      (j : ℕ)
      → s.exited ≡ false
      → j < k
      → consumer_at_call (s.consumers j) ≡ true
      → Step k s silent (record s { exited = true })

-- The runs, with their events, the last one first.
pub data Reach (k : ℕ) : System → List Event → Type 0 where
  start : Reach k init []
  later :
      {s t : System} {e : Event} {h : List Event} → Reach k s h → Step k s e t → Reach k t (e ∷ h)
