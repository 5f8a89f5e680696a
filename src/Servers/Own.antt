-- ===== src/Servers/Own.antt =====
-- The heap of multithread.c: each thread has a client_addr of its own.
use c_teaching.Prelude.{
  ℕ, suc, ◌<◌, ◌≡◌, ◌≢◌, refl, length, List, [], ◌++◌, ◌+◌, Option, none, some, arith, ◌==◌, Bool,
  true, Bool-cases, inl, inr,
}
use c_teaching.Threads.{update, update-all}
use c_teaching.Servers.Handler.{Pc, State, step, begin}
use c_teaching.Servers.Sent
use c_teaching.Servers.Sent.{settled, out-lost}
use c_teaching.Servers.Threaded.{
  Server, is_exit, Main, accepting, creating, allocating, Thread, created, handling, done, init,
  Step, accept, create, allocate, main_fails, begin_thread, handle, end_thread, Reach, here,
  then_step,
}

-- The client_addr that a live thread will still read or free.
abbrev pub pointer : Thread → Option ℕ
pointer (created p) = some p
pointer (handling p h pc) = some p
pointer done = none

-- Some run of the handler leads there.
abbrev pub Runs : List ℕ → Thread → Type 0
Runs welcome (handling p h pc) = (got : List ℕ) × (lost : ℕ) × Sent.Reach welcome h pc got lost
Runs welcome (created p) = Unit {0}
Runs welcome done = Unit {0}

-- A pointer of main() that is in use; between pthread_create() and calloc() it is the thread's.
abbrev pub in_main : Main → ℕ
in_main allocating = 0
in_main _ = 1

pub record Inv (welcome : ℕ → List ℕ) (s : Server) : Type 0 where
  pub stored :
      (i p : ℕ) → i < s.spawned → pointer (s.threads i) ≡ some p → s.heap p ≡ some (s.peers i)
  pub apart :
      (i j p : ℕ)
      → i < s.spawned
      → j < s.spawned
      → pointer (s.threads i) ≡ some p
      → pointer (s.threads j) ≡ some p
      → i ≡ j
  pub main_apart :
      (i : ℕ) → i < s.spawned → in_main s.main ≡ 1 → pointer (s.threads i) ≢ some s.client_addr
  pub main_live : in_main s.main ≡ 1 → s.heap s.client_addr ≢ none
  pub held : s.main ≡ creating → s.heap s.client_addr ≡ some (s.peers s.spawned)
  pub runs : (i : ℕ) → i < s.spawned → Runs (welcome (s.peers i)) (s.threads i)

module _ {welcome : ℕ → List ℕ} where
  accept-Inv :
      (s : Server) (peer : ℕ)
      → s.main ≡ accepting
      → Inv welcome s
      → Inv welcome (record s {
        main = creating;
        heap = update s.heap s.client_addr (some peer);
        peers = update s.peers s.spawned peer;
      })
  accept-Inv s peer at inv = record {
    stored = λ i p lt e. ground (arith, inv.stored i p lt e, inv.main_apart i lt);
    apart = inv.apart;
    main_apart = λ i lt e. ground (arith, inv.main_apart i lt);
    main_live = λ e. ground arith;
    held = λ e. ground arith;
    runs = λ i lt. rw (old i lt) (inv.runs i lt);
  }
    where
      old : (i : ℕ) → i < s.spawned → update s.peers s.spawned peer i ≡ s.peers i
      old i lt = ground arith

  create-Inv :
      (s : Server)
      → s.main ≡ creating
      → Inv welcome s
      → Inv welcome (record s {
        main = allocating;
        spawned = suc s.spawned;
        threads = update s.threads s.spawned (created s.client_addr);
      })
  create-Inv s at inv = record {
    stored = λ i p lt e. ground (arith, inv.stored i p, inv.held at);
    apart =
        λ i j p li lj ei ej. ground (arith, inv.apart i j p, inv.main_apart i, inv.main_apart j);
    main_apart = λ i lt e. absurd (omega (arith, e));
    main_live = λ e. absurd (omega (arith, e));
    held = λ e. cc;
    runs = λ i lt. elim (Bool-cases (i == s.spawned)) [
      | inl new ↦ rw new tt
      | inr old ↦ rw old (inv.runs i (ground arith))
    ];
  }

  allocate-Inv :
      (s : Server) (p : ℕ)
      → s.main ≡ allocating
      → s.heap p ≡ none
      → Inv welcome s
      → Inv welcome
          (record s { main = accepting; client_addr = p; heap = update s.heap p (some 0) })
  allocate-Inv s p at free inv = record {
    stored = λ i q lt e. ground (arith, inv.stored i q);
    apart = inv.apart;
    main_apart = λ i lt one e. ground (arith, inv.stored i p);
    main_live = λ e. ground arith;
    held = λ e. cc;
    runs = inv.runs;
  }

  -- A thread goes on, with its pointer.
  thread-Inv :
      (s : Server) (i : ℕ) (new : Thread)
      → i < s.spawned
      → pointer new ≡ pointer (s.threads i)
      → Runs (welcome (s.peers i)) new
      → Inv welcome s
      → Inv welcome (record s { threads = update s.threads i new })
  thread-Inv s i new lt same run inv = record {
    stored = λ j p lj e. ground (arith, inv.stored j p);
    apart = λ j k p lj lk ej ek. ground (arith, inv.apart j k p);
    main_apart = λ j lj one. ground (arith, inv.main_apart j);
    main_live = inv.main_live;
    held = inv.held;
    runs = λ j lj.
        update-all (λ j c. j < s.spawned → Runs (welcome (s.peers j)) c) s.threads i new inv.runs
          (λ li. run) j lj;
  }

  -- A thread frees its client_addr, which nobody else uses.
  end-Inv :
      (s : Server) (i p : ℕ)
      → i < s.spawned
      → pointer (s.threads i) ≡ some p
      → Inv welcome s
      → Inv welcome (record s { heap = update s.heap p none; threads = update s.threads i done })
  end-Inv s i p lt at inv = record {
    stored = λ j q lj e. ground (arith, inv.stored j q, inv.apart i j q);
    apart = λ j k q lj lk ej ek. ground (arith, inv.apart j k q);
    main_apart = λ j lj one. ground (arith, inv.main_apart j);
    main_live = λ one. ground (arith, inv.main_live, inv.main_apart i);
    held = λ e. ground (arith, inv.held, inv.main_apart i);
    runs = λ j lj.
        update-all (λ j c. j < s.spawned → Runs (welcome (s.peers j)) c) s.threads i done inv.runs
          (λ li. tt) j lj;
  }

  Inv-exited : (s : Server) (b : Bool) → Inv welcome s → Inv welcome (record s { exited = b })
  Inv-exited s b inv = record {
    stored = inv.stored;
    apart = inv.apart;
    main_apart = inv.main_apart;
    main_live = inv.main_live;
    held = inv.held;
    runs = inv.runs;
  }

  Step-Inv : {s t : Server} → Step welcome s t → Inv welcome s → Inv welcome t
  Step-Inv {s} (accept peer up at) inv = accept-Inv s peer at inv
  Step-Inv {s} (create up at) inv = create-Inv s at inv
  Step-Inv {s} (allocate p up at free) inv = allocate-Inv s p at free inv
  Step-Inv {s} (main_fails up) inv = Inv-exited s true inv
  Step-Inv {s} (begin_thread i {p} {a} up lt at there) inv =
      thread-Inv s i (handling p (begin (welcome a)) Pc.welcoming) lt (rw at)
        (begun (cc (there, inv.stored i p lt (rw at)))) inv
    where
      begun :
          a ≡ s.peers i → Runs (welcome (s.peers i)) (handling p (begin (welcome a)) Pc.welcoming)
      begun e = rw (← e) ([], 0, Sent.start)
  Step-Inv {s} (handle i {p} {h} {pc} r up lt at ok) inv =
      Inv-exited
        (record s { threads = update s.threads i (handling p (step h pc r).0 (step h pc r).1) })
        (is_exit (step h pc r).1)
        (thread-Inv s i (handling p (step h pc r).0 (step h pc r).1) lt (rw at)
          (goes_on (rw at at (inv.runs i lt))) inv)
    where
      goes_on :
          Runs (welcome (s.peers i)) (handling p h pc)
          → Runs (welcome (s.peers i)) (handling p (step h pc r).0 (step h pc r).1)
      goes_on (got, lost, before) = (_, _, Sent.next r before ok)
  Step-Inv {s} (end_thread i {p} up lt at) inv = end-Inv s i p lt (rw at) inv

  init-Inv : (p : ℕ) → Inv welcome (init p)
  init-Inv p = record {
    stored = λ i q lt e. absurd (omega arith);
    apart = λ i j q li lj ei ej. absurd (omega arith);
    main_apart = λ i lt one. absurd (omega arith);
    main_live = λ one. ground arith;
    held = λ e. cc;
    runs = λ i lt. absurd (omega arith);
  }

  Reach-Inv : {p : ℕ} {s : Server} → Reach welcome (init p) s → Inv welcome s
  Reach-Inv {p} here = init-Inv p
  Reach-Inv (then_step r st) = Step-Inv st (Reach-Inv r)

-- No memory of multithread.c is shared by mistake: in every reachable state the pointer of a live
-- thread leads to an allocated address, the one that accept() reported for its connection; two
-- live threads have different pointers; and the pointer through which the next accept() writes is
-- allocated and is no live thread's.
pub client_addr_owned :
    {welcome : ℕ → List ℕ} {p₀ : ℕ} {s : Server}
    → Reach welcome (init p₀) s
    → ((i p : ℕ) → i < s.spawned → pointer (s.threads i) ≡ some p → s.heap p ≡ some (s.peers i))
      × ((i j p : ℕ)
          → i < s.spawned
          → j < s.spawned
          → pointer (s.threads i) ≡ some p
          → pointer (s.threads j) ≡ some p
          → i ≡ j)
      × (s.main ≡ accepting
          → (s.heap s.client_addr ≢ none)
            × ((i : ℕ) → i < s.spawned → pointer (s.threads i) ≢ some s.client_addr))
client_addr_owned r =
    let inv = Reach-Inv r in
    (
      inv.stored,
      inv.apart,
      λ at. (inv.main_live (rw at refl), λ i lt. inv.main_apart i lt (rw at refl)),
    )

-- Whatever the other threads do: a thread of multithread.c that waits for a message or is past
-- QUIT has got there by a run of connection_handler of its own, with the welcome message made from
-- its own client's address, so that what it has sent is as this run says.
pub thread-out :
    {welcome : ℕ → List ℕ} {p₀ p : ℕ} {s : Server} {h : State} {pc : Pc} (i : ℕ)
    → Reach welcome (init p₀) s
    → i < s.spawned
    → s.threads i ≡ handling p h pc
    → settled pc ≡ true
    → (got : List ℕ) × (lost : ℕ) × Sent.Reach (welcome (s.peers i)) h pc got lost
      × (length h.out + lost ≡ length (welcome (s.peers i) ++ got))
      × (lost ≡ 0 → h.out ≡ welcome (s.peers i) ++ got)
thread-out {welcome} {p} {s} {h} {pc} i r lt at quiet = sent (rw at at ((Reach-Inv r).runs i lt))
  where
    sent :
        Runs (welcome (s.peers i)) (handling p h pc)
        → (got : List ℕ) × (lost : ℕ) × Sent.Reach (welcome (s.peers i)) h pc got lost
          × (length h.out + lost ≡ length (welcome (s.peers i) ++ got))
          × (lost ≡ 0 → h.out ≡ welcome (s.peers i) ++ got)
    sent (got, lost, run) =
        let (count, whole) = out-lost quiet run in (got, lost, run, count, whole)
