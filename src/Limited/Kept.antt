-- ===== src/Limited/Kept.antt =====
-- multithread.c loses no place of its semaphore: a handler that fails takes the server with it.
use c_teaching.Prelude.{ℕ, ◌+◌, ◌≡◌, ◌<◌, refl, ap, List, arith, Bool, false}
use c_teaching.Threads.{total, total-update, total-update_ge, update-all, total-same}
use c_teaching.Limited.Handler.{Pc, step, begin}
use c_teaching.Limited.Server.{Child, max_concurrency}
use c_teaching.Limited.Capacity.{holds, step-holds}
use c_teaching.Limited.Threaded.{
  Server, Main, creating, Thread, created, handling, Step, accept, accept_interrupted, wait, create,
  end_process, begin_thread, handle, is_exit, no_error, Reach, here, then_step,
}

-- A thread that has not given back the place that was taken for it.
abbrev keeps : Thread → ℕ
keeps created = 1
keeps (handling h pc) = holds (Child.handling h pc)

-- A thread that still works.
abbrev pub works : Thread → ℕ
works created = 1
works (handling h Pc.returned) = 0
works (handling h Pc.exited) = 0
works (handling h pc) = 1

abbrev pub taken : Main → ℕ
taken creating = 1
taken _ = 0

abbrev stands_at_exit : Thread → Bool
stands_at_exit created = false
stands_at_exit (handling h pc) = is_exit pc

record Inv (s : Server) : Type 0 where
  places : s.connections + total keeps s.spawned s.threads + taken s.main ≡ max_concurrency
  running : s.exited ≡ false → (i : ℕ) → i < s.spawned → stands_at_exit (s.threads i) ≡ false

module _ {welcome : ℕ → List ℕ} where
  Step-Inv : {s t : Server} → Step welcome s t → Inv s → Inv t
  unfolding total
  Step-Inv (accept up at) inv = record {
    places = ground (arith, inv.places);
    running = inv.running;
  }
  Step-Inv (accept_interrupted up at) inv = inv
  Step-Inv (wait up at free) inv = record {
    places = ground (arith, inv.places);
    running = inv.running;
  }
  Step-Inv {s} (create up at) inv = record {
    places =
        ground (arith, inv.places, total-update_ge keeps s.spawned s.threads s.spawned created);
    running = λ e i lt. ground (arith, inv.running e i);
  }
  Step-Inv (end_process up) inv = record {
    places = inv.places;
    running = λ e. absurd (ground (arith, e));
  }
  Step-Inv {s} (begin_thread i up lt at) inv = record {
    places = ground (
      arith,
      inv.places,
      total-update keeps s.spawned s.threads i
          (handling (begin no_error (welcome i)) (Pc.welcoming 0)) lt,
    );
    running = λ e j lj. ground (arith, inv.running e j);
  }
  Step-Inv {s} (handle i {h} {pc} r up lt at p) inv = record {
    places = omega (
      arith,
      inv.places,
      total-update keeps s.spawned s.threads i (handling (step h pc r).0 (step h pc r).1) lt,
      ap keeps at,
      step-holds h pc r s.connections p,
    );
    running = λ e.
        update-all (λ j c. j < s.spawned → stands_at_exit c ≡ false) s.threads i
          (handling (step h pc r).0 (step h pc r).1) (inv.running up) (λ lj. e);
  }

  Reach-Inv : {s : Server} → Reach welcome s → Inv s
  unfolding total
  Reach-Inv here = record { places = omega arith; running = λ e i lt. absurd (omega arith) }
  Reach-Inv (then_step r st) = Step-Inv st (Reach-Inv r)

-- A thread that is not at an exit() works as long as it keeps its place.
keeps-works : (t : Thread) → stands_at_exit t ≡ false → keeps t ≡ works t
keeps-works created e = refl
keeps-works (handling h Pc.returned) e = refl
keeps-works (handling h Pc.exited) e = absurd (ground (arith, e))
keeps-works (handling h pc) e = refl

-- In every state that the multithreaded server reaches before its process ends, the value of the
-- semaphore, the threads that still work and the place that main() has taken for the next one
-- make up MAX_CONCURRENCY exactly: there are never more threads at work, and no place is lost.
pub capacity_kept :
    {welcome : ℕ → List ℕ} {s : Server}
    → Reach welcome s
    → s.exited ≡ false
    → s.connections + total works s.spawned s.threads + taken s.main ≡ max_concurrency
capacity_kept {s} r up = omega (
  arith,
  inv.places,
  total-same keeps works s.spawned s.threads
      (λ i lt. keeps-works (s.threads i) (inv.running up i lt)),
)
  where
    inv : Inv s
    inv = Reach-Inv r
