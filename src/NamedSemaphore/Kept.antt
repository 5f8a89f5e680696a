-- ===== src/NamedSemaphore/Kept.antt =====
-- Every resource of a semaphore is free, with a thread, or with one that was killed.
use c_teaching.Prelude.{
  ℕ, zero, suc, ◌+◌, ◌<◌, ◌≤◌, ◌≡◌, ◌==◌, refl, if◌then◌else◌, Bool-cases, inl, inr, none, some,
  arith,
}
use c_teaching.Threads.{update, update-all, total, total-update, total-update_ge, total-zero}
use c_teaching.NamedSemaphore.{
  num_resources, in_use, Server, Driver, Thread, starting, waiting, holding, closing, done, lost,
  System, init, create_semaphore, kill, Step, Reach, here, then_step,
}

-- The resources of the semaphore `k` that a thread has not given back.
abbrev pub takes : ℕ → Thread → ℕ
takes k (holding p j) = if j == k then 1 else 0
takes k (lost j) = if j == k then 1 else 0
takes k _ = 0

-- The semaphores that it knows are below.
abbrev bound : Thread → ℕ
bound (waiting p j) = suc j
bound (holding p j) = suc j
bound (closing p j) = suc j
bound (lost j) = suc j
bound _ = 0

takes_none : (k : ℕ) (t : Thread) → bound t ≤ k → takes k t ≡ 0
takes_none k (starting p) h = refl
takes_none k (waiting p j) h = refl
takes_none k (holding p j) h = ground arith
takes_none k (closing p j) h = refl
takes_none k done h = refl
takes_none k (lost j) h = ground arith

takes-kill : (k p : ℕ) (t : Thread) → takes k (kill p t) ≡ takes k t
takes-kill k p (starting q) = ground arith
takes-kill k p (waiting q j) = ground arith
takes-kill k p (holding q j) = ground arith
takes-kill k p (closing q j) = ground arith
takes-kill k p done = refl
takes-kill k p (lost j) = refl

bound-kill : (p : ℕ) (t : Thread) → bound (kill p t) ≤ bound t
bound-kill p (starting q) = ground arith
bound-kill p (waiting q j) = ground arith
bound-kill p (holding q j) = ground arith
bound-kill p (closing q j) = ground arith
bound-kill p done = omega arith
bound-kill p (lost j) = omega arith

record Inv (s : System) : Type 0 where
  kept : (k : ℕ) → k < s.created → s.values k + total (takes k) s.spawned s.threads ≡ num_resources
  bounded : (i : ℕ) → bound (s.threads i) ≤ s.created
  named : (k : ℕ) → s.name ≡ some k → k < s.created

total-kill :
    (k p n : ℕ) (threads : ℕ → Thread)
    → total (takes k) n (λ i. kill p (threads i)) ≡ total (takes k) n threads
unfolding total
total-kill k p zero threads = refl
total-kill k p (suc n) threads = omega (arith, takes-kill k p (threads n), total-kill k p n threads)

init-Inv : Inv init
init-Inv = record {
  kept = λ k lt. absurd (omega (arith, lt));
  bounded = λ i. omega arith;
  named = λ k e. cc;
}

-- A step of a server or of main() of a client that opens no semaphore and starts no thread.
name-Inv :
    (s : System) (servers : ℕ → Server) (drivers : ℕ → Driver)
    → Inv s
    → Inv (record s { servers = servers; drivers = drivers; name = none })
name-Inv s servers drivers inv = record {
  kept = inv.kept;
  bounded = inv.bounded;
  named = λ k e. cc;
}

main-Inv :
    (s : System) (servers : ℕ → Server) (drivers : ℕ → Driver)
    → Inv s
    → Inv (record s { servers = servers; drivers = drivers })
main-Inv s servers drivers inv = record {
  kept = inv.kept;
  bounded = inv.bounded;
  named = inv.named;
}

create-Inv : (s : System) (j : ℕ) → Inv s → Inv (create_semaphore s j)
create-Inv s j inv = record {
  kept = λ k lt. elim (Bool-cases (k == s.created)) [
    | inl new ↦ rw new (
        omega (
          arith,
          total-zero (takes k) s.spawned s.threads
              (λ i li. takes_none k (s.threads i) (ground (arith, inv.bounded i, new))),
        ))
    | inr old ↦ rw old (inv.kept k (ground (arith, lt, old)))
  ];
  bounded = λ i. omega (arith, inv.bounded i);
  named = λ k e. ground (arith, e);
}

spawn-Inv :
    (s : System) (p : ℕ) (drivers : ℕ → Driver)
    → Inv s
    → Inv (record s {
      drivers = drivers;
      spawned = suc s.spawned;
      threads = update s.threads s.spawned (starting p);
    })
unfolding total
spawn-Inv s p drivers inv = record {
  kept = λ k lt.
      ground (
        arith,
        inv.kept k lt,
        total-update_ge (takes k) s.spawned s.threads s.spawned (starting p),
      );
  bounded =
      update-all (λ i t. bound t ≤ s.created) s.threads s.spawned (starting p) inv.bounded
        (omega arith);
  named = inv.named;
}

end_client-Inv :
    (s : System) (p : ℕ) (drivers : ℕ → Driver)
    → Inv s
    → Inv (record s { drivers = drivers; threads = λ i. kill p (s.threads i) })
end_client-Inv s p drivers inv = record {
  kept = λ k lt. rw (total-kill k p s.spawned s.threads) (inv.kept k lt);
  bounded = λ i. omega (arith, inv.bounded i, bound-kill p (s.threads i));
  named = inv.named;
}

-- A thread goes on; what it takes of a semaphore is gone from the value.
thread-Inv :
    (s : System) (i : ℕ) (new : Thread) (values : ℕ → ℕ)
    → i < s.spawned
    → ((k : ℕ) → values k + takes k new ≡ s.values k + takes k (s.threads i))
    → bound new ≤ s.created
    → Inv s
    → Inv (record s { threads = update s.threads i new; values = values })
thread-Inv s i new values lt moves le inv = record {
  kept = λ k lk.
      omega (arith, inv.kept k lk, moves k, total-update (takes k) s.spawned s.threads i new lt);
  bounded = update-all (λ i t. bound t ≤ s.created) s.threads i new inv.bounded le;
  named = inv.named;
}

step-Inv : {s t : System} → Step s t → Inv s → Inv t
step-Inv {s} (Step.start_server j at) inv = main-Inv s _ _ inv
step-Inv {s} (Step.open_new j at free) inv = create-Inv s j inv
step-Inv {s} (Step.open_exists j at there) inv = main-Inv s _ _ inv
step-Inv {s} (Step.unlink_old j at) inv = name-Inv s _ _ inv
step-Inv {s} (Step.reopen_new j at free) inv = create-Inv s j inv
step-Inv {s} (Step.reopen_exists j at there) inv = main-Inv s _ _ inv
step-Inv {s} (Step.interrupt j at) inv = main-Inv s _ _ inv
step-Inv {s} (Step.clean_up j at) inv = name-Inv s _ _ inv
step-Inv {s} (Step.end_server j) inv = main-Inv s _ _ inv
step-Inv {s} (Step.start_client p at) inv = main-Inv s _ _ inv
step-Inv {s} (Step.press_enter p at) inv = main-Inv s _ _ inv
step-Inv {s} (Step.spawn p at) inv = spawn-Inv s p _ inv
step-Inv {s} (Step.quit p at) inv = main-Inv s _ _ inv
step-Inv {s} (Step.end_client p) inv = end_client-Inv s p _ inv
step-Inv {s} (Step.open_semaphore i {p} {k} lt at there) inv =
    thread-Inv s i (waiting p k) s.values lt (λ j. rw at refl) (inv.named k there) inv
step-Inv {s} (Step.acquire i {p} {k} {v} lt at free) inv =
    thread-Inv s i (holding p k) (update s.values k v) lt (λ j. rw at (ground (arith, free)))
      (rw at at (inv.bounded i)) inv
step-Inv {s} (Step.release i {p} {k} lt at) inv =
    thread-Inv s i (closing p k) (update s.values k (suc (s.values k))) lt
      (λ j. rw at (ground arith)) (rw at at (inv.bounded i)) inv
step-Inv {s} (Step.close i {p} {k} lt at) inv =
    thread-Inv s i done s.values lt (λ j. rw at refl) (omega arith) inv

reach-Inv : {s : System} → Reach s → Inv s
reach-Inv here = init-Inv
reach-Inv (then_step run step) = step-Inv step (reach-Inv run)

-- In every reachable state, for every semaphore that has been created: its value is at most
-- NUM_RESOURCES, and what the server prints as in use is the number of the threads that hold one of
-- its resources or were killed while they held one.
pub in_use-total :
    {s : System} (k : ℕ)
    → Reach s
    → k < s.created
    → (s.values k ≤ num_resources) × (in_use (s.values k) ≡ total (takes k) s.spawned s.threads)
in_use-total {s} k run lt =
    let kept = (reach-Inv run).kept k lt in (omega (arith, kept), omega (arith, kept))
