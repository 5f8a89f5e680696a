-- ===== src/EchoLog/Inv.antt =====
-- What holds in every reachable state of echo_server_mt_logger.c.
mod Defs
mod Callers
mod Logger
pub use Defs.*
use Callers.{caller-Inv}
use Logger.{logger-Inv}
use c_teaching.Prelude.{ℕ, refl, length-replicate, List, [], ◌∷◌, arith}
use c_teaching.Threads.{total-const}
use c_teaching.EchoLog.{System, outside, Event, silent, init, log_buffer_size}
use c_teaching.EchoLog.Run.{Step, caller, logger, exits, Reach, start, later}

-- Every step keeps the invariant.
Step-Inv :
    {n : ℕ} {s t : System} {e : Event} {h : List Event}
    → Step n s e t
    → Inv n s.mem s.callers s.logger h
    → Inv n t.mem t.callers t.logger (e ∷ h)
Step-Inv (caller i run lt mv) inv = caller-Inv inv i lt mv
Step-Inv (logger run mv) inv = logger-Inv inv mv
Step-Inv (exits run) inv = record {
  write_lock = inv.write_lock;
  filled = inv.filled;
  emptied = inv.emptied;
  size = inv.size;
  write_at = inv.write_at;
  read_at = inv.read_at;
  window = inv.window;
  fifo = inv.fifo;
  write_local = inv.write_local;
  fits = inv.fits;
  file = inv.file;
  calls = inv.calls;
}

pub Reach-Inv :
    {n : ℕ} {s : System} {h : List Event} → Reach n s h → Inv n s.mem s.callers s.logger h
Reach-Inv {n} start = record {
  write_lock = omega (arith, total-const in_write n outside refl);
  filled = omega (arith, total-const after_store n outside refl);
  emptied = omega (arith, total-const before_store n outside refl);
  size = length-replicate {A = List ℕ} log_buffer_size [];
  write_at = omega (arith, total-const behind_write n outside refl);
  read_at = omega arith;
  window = λ i lo hi. absurd (omega arith);
  fifo = refl;
  write_local = λ i w lt e. cc;
  fits = tt;
  file = refl;
  calls = λ i lt. refl;
}
Reach-Inv (later r st) = Step-Inv st (Reach-Inv r)
