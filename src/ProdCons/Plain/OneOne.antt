-- ===== src/ProdCons/Plain/OneOne.antt =====
-- one_prod_one_cons.c: one producer and one consumer, with no mutex.
use c_teaching.Prelude.{◌≡◌, Bool, true, false, List, [], ◌∷◌}
use c_teaching.ProdCons.Many.{Shared, init_shared, Event, silent}
use c_teaching.ProdCons.Plain.{
  Lone, producing, LoneMove, lone_at_call, Taker, wait_fill, TakerMove, taker_at_call,
}

pub record System : Type 0 where
  pub mem : Shared
  pub producer : Lone
  pub consumer : Taker
  pub exited : Bool

abbrev pub init : System
init = record { mem = init_shared; producer = producing; consumer = wait_fill; exited = false }

-- One of the two threads moves, or has a call fail and ends the process.
pub data Step (s : System) : Event → System → Type 0 where
  produce :
      {e : Event} {m : Shared} {p : Lone}
      → s.exited ≡ false
      → LoneMove s.mem s.producer e m p
      → Step s e (record s { mem = m; producer = p })
  consume :
      {e : Event} {m : Shared} {c : Taker}
      → s.exited ≡ false
      → TakerMove s.mem s.consumer e m c
      → Step s e (record s { mem = m; consumer = c })
  producer_fails :
      s.exited ≡ false → lone_at_call s.producer ≡ true → Step s silent (record s { exited = true })
  consumer_fails :
      s.exited ≡ false
      → taker_at_call s.consumer ≡ true
      → Step s silent (record s { exited = true })

-- The runs, with their events, the last one first.
pub data Reach : System → List Event → Type 0 where
  start : Reach init []
  later : {s t : System} {e : Event} {h : List Event} → Reach s h → Step s e t → Reach t (e ∷ h)
