-- ===== src/Servers/Projection.antt =====
-- The children of multiprocess.c: whom each of them serves, and what it sends.
use c_teaching.Prelude.{
  ℕ, suc, ◌<◌, ◌≤◌, ◌≡◌, refl, ap, sym, subst, length, Option, some, List, [], ◌++◌, ◌+◌, true,
  arith,
}
use c_teaching.Threads.{update, update-cases}
use c_teaching.Servers.Handler.{Pc, State, step, begin}
use c_teaching.Servers.Sent
use c_teaching.Servers.Sent.{settled, out-lost}
use c_teaching.Servers.Processes.{
  Server, Parent, accepting, forking, closing_client, ended, Child, starting, handling, dead, init,
  Step, accept, accept_interrupted, fork, close_client, end_parent, begin_child, end_child, handle,
  Reach, here, then_step,
}

module _ (welcome : Option ℕ → List ℕ) where
  -- Child `i` has the connection `i` of `peer`, and some run of the handler leads to where it is.
  abbrev Serves : ℕ → ℕ → Child → Type 0
  Serves i peer (starting desc addr) = (desc ≡ i) × (addr ≡ some peer)
  Serves i peer (handling desc h pc) =
      (desc ≡ i) × ((got : List ℕ) × (lost : ℕ) × Sent.Reach (welcome (some peer)) h pc got lost)
  Serves i peer dead = Unit {0}

  -- What the parent has accepted, and what its variables hold before fork().
  abbrev Holds : Parent → ℕ → Option ℕ → ℕ → (ℕ → ℕ) → ℕ → Type 0
  Holds accepting desc addr accepted peers forks = accepted ≡ forks
  Holds forking desc addr accepted peers forks =
      (accepted ≡ suc forks) × (desc ≡ forks) × (addr ≡ some (peers forks))
  Holds closing_client desc addr accepted peers forks = accepted ≡ forks
  Holds ended desc addr accepted peers forks = Unit {0}

  record Inv (s : Server) : Type 0 where
    holds : Holds s.parent s.client_desc s.client_addr s.accepted s.peers s.forks
    behind : s.forks ≤ s.accepted
    serves : (i : ℕ) → i < s.forks → Serves i (s.peers i) (s.children i)

  -- One child moves.
  child-Inv :
      (s : Server) (i : ℕ) (new : Child)
      → Serves i (s.peers i) new
      → Inv s
      → Inv (record s { children = update s.children i new })
  child-Inv s i new one inv = record {
    holds = inv.holds;
    behind = inv.behind;
    serves =
        update-cases (λ k c. k < s.forks → Serves k (s.peers k) c) s.children i new (λ lt. one)
          (λ k ne lt. inv.serves k lt);
  }

  Step-Inv : {s t : Server} → Step welcome s t → Inv s → Inv t
  Step-Inv {s} (accept peer at) inv = record {
    holds = (ap suc level, level, rw (sym level) (ap some (sym (update-self s.accepted))));
    behind = omega (arith, inv.behind);
    serves =
        λ i lt. subst (λ p. Serves i p (s.children i)) (sym (update-old i lt)) (inv.serves i lt);
  }
    where
      level : s.accepted ≡ s.forks
      level = rw at at inv.holds

      update-self : (k : ℕ) → update s.peers k peer k ≡ peer
      update-self k = ground arith

      update-old : (i : ℕ) → i < s.forks → update s.peers s.accepted peer i ≡ s.peers i
      update-old i lt = ground (arith, inv.behind)
  Step-Inv (accept_interrupted at) inv = inv
  Step-Inv {s} (fork at) inv = record {
    holds = mine.0;
    behind = omega (arith, mine.0);
    serves =
        update-cases (λ k c. k < suc s.forks → Serves k (s.peers k) c) s.children s.forks
          (starting s.client_desc s.client_addr) (λ lt. (mine.1, mine.2))
          (λ k ne lt. inv.serves k (ground arith));
  }
    where
      mine :
          (s.accepted ≡ suc s.forks)
          × (s.client_desc ≡ s.forks)
          × (s.client_addr ≡ some (s.peers s.forks))
      mine = rw at at inv.holds
  Step-Inv {s} (close_client at) inv = record {
    holds = rw at at inv.holds;
    behind = inv.behind;
    serves = inv.serves;
  }
  Step-Inv end_parent inv = record { holds = tt; behind = inv.behind; serves = inv.serves }
  Step-Inv {s} (begin_child j {desc} {addr} lt at) inv =
      let (own, address) = rw at at (inv.serves j lt) in
      child-Inv s j (handling desc (begin (welcome addr)) Pc.welcoming)
        (
          own,
          (
            [],
            0,
            subst
                (λ a. Sent.Reach (welcome (some (s.peers j))) (begin (welcome a)) Pc.welcoming [] 0)
                (sym address) Sent.start,
          ),
        )
        inv
  Step-Inv {s} (end_child j lt) inv = child-Inv s j dead tt inv
  Step-Inv {s} (handle j {desc} {h} {pc} r lt at p) inv =
      let (own, (got, lost, before)) = rw at at (inv.serves j lt) in
      child-Inv s j (handling desc (step h pc r).0 (step h pc r).1)
        (own, (_, _, Sent.next r before p)) inv

  Reach-Inv : {s : Server} → Reach welcome init s → Inv s
  Reach-Inv here = record {
    holds = refl;
    behind = omega arith;
    serves = λ i lt. absurd (omega arith);
  }
  Reach-Inv (then_step r st) = Step-Inv st (Reach-Inv r)

-- Whatever the parent and the other children do, fail or die from: child `i` of multiprocess.c
-- serves the connection that has been accepted as number `i`; if it waits for a message or is past
-- QUIT, it has got there by a run of connection_handler of its own, with the welcome message for
-- the address of the client of this connection; and what it has sent falls short of this message
-- and its own client's messages by what single send() calls have left over, and is just these
-- bytes, in order, if they have left nothing over.
pub child-out :
    {welcome : Option ℕ → List ℕ} {s : Server} {desc : ℕ} {h : State} {pc : Pc} (i : ℕ)
    → Reach welcome init s
    → i < s.forks
    → s.children i ≡ handling desc h pc
    → settled pc ≡ true
    → (desc ≡ i)
      × ((got : List ℕ) × (lost : ℕ) × Sent.Reach (welcome (some (s.peers i))) h pc got lost
          × (length h.out + lost ≡ length (welcome (some (s.peers i)) ++ got))
          × (lost ≡ 0 → h.out ≡ welcome (some (s.peers i)) ++ got))
child-out {welcome} {s} i r lt at quiet =
    let (own, (got, lost, run)) = rw at at ((Reach-Inv welcome r).serves i lt) in
    let (count, whole) = out-lost quiet run in (own, (got, lost, run, count, whole))
