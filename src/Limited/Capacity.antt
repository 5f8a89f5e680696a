-- ===== src/Limited/Capacity.antt =====
-- The semaphore of multiprocess.c bounds the number of live children, and is lost with a child
-- that does not post it.
use c_teaching.Prelude.{ℕ, ◌+◌, ◌≤◌, ◌<◌, ◌≡◌, refl, ap, List, [], ◌∷◌, arith}
use c_teaching.Sys.{Errno, Reply, ok, bytes, fail}
use c_teaching.Threads.{total, total-update, total-update_ge, total-add-le, le-total}
use c_teaching.Limited.Handler.{
  Pc, welcoming, receiving, echoing, closing, posting, returned, exited, State, step, Possible,
  begin,
}
use c_teaching.Limited.Server.{
  Server, Main, forking, Child, starting, handling, dead, Step, accept, accept_interrupted, wait,
  fork, close_client, end_main, begin_child, end_child, interrupt_child, handle, Reach, here,
  then_step, init, post, max_concurrency,
}

-- A child that has not given back what was taken from the semaphore for it.
abbrev pub holds : Child → ℕ
holds (handling h returned) = 0
holds _ = 1

-- A child that still works.
abbrev pub lives : Child → ℕ
lives (starting e) = 1
lives (handling h returned) = 0
lives (handling h exited) = 0
lives (handling h pc) = 1
lives dead = 0

-- A child that has ended with no sem_post().
abbrev pub lost : Child → ℕ
lost (handling h exited) = 1
lost dead = 1
lost _ = 0

-- The main process has taken a place and not forked for it yet.
abbrev pub taken : Main → ℕ
taken forking = 1
taken _ = 0

-- If the main process ends between sem_wait() and fork(), that place is lost with it.
pub record Inv (s : Server) : Type 0 where
  pub places : s.connections + total holds s.forks s.children + taken s.main ≤ max_concurrency

lives-lost-holds : (c : Child) → lives c + lost c ≤ holds c
lives-lost-holds (starting e) = omega arith
lives-lost-holds (handling h returned) = omega arith
lives-lost-holds (handling h exited) = omega arith
lives-lost-holds (handling h pc) = omega arith
lives-lost-holds dead = omega arith

holds-le-one : (c : Child) → holds c ≤ 1
holds-le-one c = ground arith

-- A step of a handler gives its place back exactly when it posts the semaphore.
pub step-holds :
    (h : State) (pc : Pc) (r : Reply) (connections : ℕ)
    → Possible h pc r
    → post pc r connections + holds (handling (step h pc r).0 (step h pc r).1)
      ≡ connections + holds (handling h pc)
unfolding step
step-holds h (welcoming sent) (ok n) k p = ground arith
step-holds h (welcoming sent) (bytes bs) k p = elim p [ ]
step-holds h (welcoming sent) (fail e) k p = refl
step-holds h receiving (ok n) k p = elim p [ ]
step-holds h receiving (bytes []) k p = refl
step-holds h receiving (bytes (x ∷ xs)) k p = ground arith
step-holds h receiving (fail Errno.eintr) k p = refl
step-holds h receiving (fail e) k p = refl
step-holds h (echoing sent) (ok n) k p = ground arith
step-holds h (echoing sent) (bytes bs) k p = elim p [ ]
step-holds h (echoing sent) (fail e) k p = refl
step-holds h closing (ok n) k p = refl
step-holds h closing (bytes bs) k p = elim p [ ]
step-holds h closing (fail e) k p = refl
step-holds h posting (ok n) k p = omega arith
step-holds h posting (bytes bs) k p = elim p [ ]
step-holds h posting (fail e) k p = refl
step-holds h returned r k p = elim p [ ]
step-holds h exited r k p = elim p [ ]

module _ {welcome : ℕ → List ℕ} where
  Step-Inv : {s t : Server} → Step welcome s t → Inv s → Inv t
  unfolding total
  Step-Inv (accept at) inv = record { places = ground (arith, inv.places) }
  Step-Inv (accept_interrupted at) inv = record { places = inv.places }
  Step-Inv (wait at free) inv = record { places = ground (arith, inv.places) }
  Step-Inv {s} (fork at) inv = record {
    places =
        ground
          (arith, inv.places, total-update_ge holds s.forks s.children s.forks (starting s.errno));
  }
  Step-Inv (close_client at) inv = record { places = ground (arith, inv.places) }
  Step-Inv end_main inv = record { places = ground (arith, inv.places) }
  Step-Inv {s} (begin_child i {e} lt at) inv = record {
    places = ground (
      arith,
      inv.places,
      total-update holds s.forks s.children i (handling (begin e (welcome i)) (welcoming 0)) lt,
    );
  }
  Step-Inv {s} (end_child i lt at) inv = record {
    places = ground (arith, inv.places, total-update holds s.forks s.children i dead lt);
  }
  Step-Inv {s} (interrupt_child i {h} {pc} lt at ne) inv = record {
    places = ground (arith, inv.places, total-update holds s.forks s.children i dead lt);
  }
  Step-Inv {s} (handle i {h} {pc} r lt at p) inv = record {
    places = omega (
      arith,
      inv.places,
      total-update holds s.forks s.children i (handling (step h pc r).0 (step h pc r).1) lt,
      ap holds at,
      step-holds h pc r s.connections p,
    );
  }

  Reach-Inv : {s t : Server} → Inv s → Reach welcome s t → Inv t
  Reach-Inv inv here = inv
  Reach-Inv inv (then_step r st) = Step-Inv st (Reach-Inv inv r)

init-Inv : (e : Errno) → Inv (init e)
unfolding total
init-Inv e = record { places = omega arith }

-- At no moment do more than MAX_CONCURRENCY children work, counting the one about to be forked.
pub lives-le-max :
    {welcome : ℕ → List ℕ} {e : Errno} {s : Server}
    → Reach welcome (init e) s
    → total lives s.forks s.children + taken s.main ≤ max_concurrency
lives-le-max {e} {s} r = omega (
  arith,
  total-add-le lives lost holds lives-lost-holds s.forks s.children,
  (Reach-Inv (init-Inv e) r).places,
)

-- A handler at a call is a live child.
at_call-lives : (h : State) (pc : Pc) (r : Reply) → Possible h pc r → lives (handling h pc) ≡ 1
at_call-lives h returned r p = elim p [ ]
at_call-lives h exited r p = elim p [ ]
at_call-lives h pc r p = refl

-- All the places are lost, and the count of children is the one given.
record Exhausted (forks : ℕ) (s : Server) : Type 0 where
  inv : Inv s
  same : s.forks ≡ forks
  all_lost : max_concurrency ≤ total lost s.forks s.children

none_lives :
    {forks : ℕ} {s : Server}
    → Exhausted forks s
    → total lives s.forks s.children + taken s.main + s.connections ≡ 0
none_lives {s} x = omega (
  arith,
  total-add-le lives lost holds lives-lost-holds s.forks s.children,
  x.inv.places,
  x.all_lost,
)

-- No live child: nobody's step can give a place back.
not_live :
    {forks : ℕ} {s : Server} (i : ℕ) → i < s.forks → Exhausted forks s → lives (s.children i) ≡ 0
not_live {s} i lt x = omega (arith, none_lives x, le-total lives s.forks s.children i lt)

module _ {welcome : ℕ → List ℕ} {forks : ℕ} where
  Step-forks : {s t : Server} → Step welcome s t → Exhausted forks s → t.forks ≡ forks
  Step-forks (fork at) x = absurd (omega (arith, none_lives x, ap taken at))
  Step-forks (accept at) x = x.same
  Step-forks st x = x.same

  Step-lost :
      {s t : Server}
      → Step welcome s t
      → Exhausted forks s
      → max_concurrency ≤ total lost t.forks t.children
  Step-lost (fork at) x = absurd (omega (arith, none_lives x, ap taken at))
  Step-lost (begin_child i lt at) x = absurd (omega (arith, not_live i lt x, ap lives at))
  Step-lost (end_child i lt at) x = absurd (omega (arith, not_live i lt x, ap lives at))
  Step-lost {s} (interrupt_child i {h} {pc} lt at ne) x = omega (
    arith,
    x.all_lost,
    total-update lost s.forks s.children i dead lt,
    lives-lost-holds (s.children i),
    holds-le-one (s.children i),
  )
  Step-lost {s} (handle i {h} {pc} r lt at p) x =
      absurd (omega (arith, not_live i lt x, ap lives at, at_call-lives h pc r p))
  Step-lost (accept at) x = x.all_lost
  Step-lost (accept_interrupted at) x = x.all_lost
  Step-lost (wait at free) x = x.all_lost
  Step-lost (close_client at) x = x.all_lost
  Step-lost end_main x = x.all_lost

  Reach-Exhausted : {s t : Server} → Exhausted forks s → Reach welcome s t → Exhausted forks t
  Reach-Exhausted x here = x
  Reach-Exhausted x (then_step r st) =
      let before = Reach-Exhausted x r in
      record {
        inv = Step-Inv st before.inv;
        same = Step-forks st before;
        all_lost = Step-lost st before;
      }

-- A place that a child takes with it when it ends without sem_post() never comes back: once
-- MAX_CONCURRENCY children have ended like that, no later state has another child, though the
-- server goes on accepting connections.
forks-exhausted :
    {welcome : ℕ → List ℕ} {e : Errno} {s t : Server}
    → Reach welcome (init e) s
    → total lost s.forks s.children ≡ max_concurrency
    → Reach welcome s t
    → t.forks ≡ s.forks
forks-exhausted {e} {s} before gone after = (Reach-Exhausted x after).same
  where
    x : Exhausted s.forks s
    x = record { inv = Reach-Inv (init-Inv e) before; same = refl; all_lost = omega arith }
