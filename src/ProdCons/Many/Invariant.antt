-- ===== src/ProdCons/Many/Invariant.antt =====
-- What holds in every reachable state of many_prod_many_cons.c.
mod Defs
mod Producers
mod Consumers
pub use Defs.*
use Producers.{producer-Inv}
use Consumers.{consumer-Inv}
use c_teaching.Prelude.{ℕ, refl, length-replicate, List, [], ◌∷◌, arith}
use c_teaching.Prelude.Int.{pos}
use c_teaching.Threads.{total-const}
use c_teaching.ProdCons.Many.{System, producing, wait_fill, Event, init, buffer_size}
use c_teaching.ProdCons.Many.Run.{
  Step, producer, consumer, producer_fails, consumer_fails, Reach, start, later,
}

init-Inv : (n k : ℕ) → Inv n k init.mem init.producers init.consumers []
init-Inv n k = record {
  write_lock = omega (arith, total-const in_write n producing refl);
  read_lock = omega (arith, total-const in_read k wait_fill refl);
  filled =
      omega
        (arith, total-const before_take k wait_fill refl, total-const after_store n producing refl);
  emptied =
      omega
        (arith, total-const after_take k wait_fill refl, total-const before_store n producing refl);
  size = length-replicate buffer_size (pos 0);
  write_at = omega (arith, total-const behind_write n producing refl);
  read_at = omega (arith, total-const behind_read k wait_fill refl);
  window = λ i lo hi. absurd (omega arith);
  fifo = refl;
  write_local = λ i w lt e. cc;
  read_local = λ j r lt e. cc;
  balance = λ e. refl;
  adding_local = λ j v lt e. cc;
  storing_local = λ j v d lt e. cc;
}

-- Every step keeps the invariant.
pub Step-Inv :
    {n k : ℕ} {s t : System} {e : Event} {h : List Event}
    → Step n k s e t
    → Inv n k s.mem s.producers s.consumers h
    → Inv n k t.mem t.producers t.consumers (e ∷ h)
Step-Inv (producer i run lt mv) inv = producer-Inv inv i lt mv
Step-Inv (consumer j run lt mv) inv = consumer-Inv inv j lt mv
Step-Inv (producer_fails i run lt at) inv = Inv-silent inv
Step-Inv (consumer_fails j run lt at) inv = Inv-silent inv

pub Reach-Inv :
    {n k : ℕ} {s : System} {h : List Event}
    → Reach n k s h
    → Inv n k s.mem s.producers s.consumers h
Reach-Inv {n} {k} start = init-Inv n k
Reach-Inv (later r st) = Step-Inv st (Reach-Inv r)
