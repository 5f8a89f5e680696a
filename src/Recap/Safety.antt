-- ===== src/Recap/Safety.antt =====
-- What riepilogo.c guarantees, whatever the interleaving of its processes and threads.
use c_teaching.Prelude.{ℕ, ◌*◌, ◌≤◌, ◌<◌, ◌≡◌, ◌∙◌, ap, arith, ℕ_discrete, ◌^◌, false, map, some}
use c_teaching.Prelude.Int.{pos}
use c_teaching.Threads.{total, total-full, le-total, pair-le-total, total-zero}
use c_teaching.Recap.Stats.{report}
use c_teaching.Recap.Search.{count, report-first}
use c_teaching.Recap.System.{System, Main, Child, Thread, Reach}
use c_teaching.Recap.Invariant.{
  posted, passed, is_reaped, inside, wrote, collected, released, reaped_by, Round, Working,
  Reach-Healthy, Controlled, Reach-Controlled, Reach-Working,
}

posted-le-one : (c : Child) → posted c ≤ 1
posted-le-one c = ground arith

is_reaped-le-one : (c : Child) → is_reaped c ≤ 1
is_reaped-le-one c = ground arith

-- Nobody is let through before all the children have been waited for.
released→collected : (n : ℕ) (main : Main) → 0 < released n main → collected n main ≡ n
released→collected n main h = ground arith

-- The start barrier: when a child has begun its activities, every one of the `n` children has
-- reported that it is ready.
pub barrier :
    {n m : ℕ} {s : System} (i j : ℕ)
    → Reach n m s
    → i < n
    → passed (s.children i) ≡ 1
    → j < n
    → posted (s.children j) ≡ 1
barrier {n} {s} i j r li begun lj =
    total-full posted posted-le-one n s.children
      (omega (
        arith,
        ready,
        released→collected n s.main (omega (arith, let_through, le-total passed n s.children i li)),
      ))
      j lj
  where
    open (Reach-Controlled r) use {ready, let_through}

-- At most one thread of all the processes is between sem_wait(critical_section) and the post.
pub one_inside :
    {n m : ℕ} {s : System} (i j i' j' : ℕ)
    → Reach n m s
    → i < n
    → j < m
    → i' < n
    → j' < m
    → inside (s.threads i j) ≡ 1
    → inside (s.threads i' j') ≡ 1
    → (i ≡ i') × (j ≡ j')
one_inside {n} {m} {s} i j i' j' r li lj li' lj' here here' = elim (ℕ_discrete i i') [
  | yes e ↦ (
    e,
    elim (ℕ_discrete j j') [
      | yes q ↦ q
      | no ne ↦ absurd (
          omega (
            arith,
            pair-le-total inside m (s.threads i) j j' lj lj' ne,
            le-total (λ ts. total inside m ts) n s.threads i li,
            ap (λ k. inside (s.threads k j')) e,
            locked,
          ))
    ],
  )
  | no ne ↦ absurd (
      omega (
        arith,
        pair-le-total (λ ts. total inside m ts) n s.threads i i' li li' ne,
        le-total inside m (s.threads i) j lj,
        le-total inside m (s.threads i') j' lj',
        locked,
      ))
]
  where
    open (Reach-Working r) use {locked}

all_none : (m : ℕ) (ts : ℕ → Thread) → ((k : ℕ) → ts k ≡ Thread.none) → total wrote m ts ≡ 0
all_none m ts none = total-zero wrote m ts (λ k lt. ap wrote (none k))

reaped-none :
    (m : ℕ) (c : Child) (ts : ℕ → Thread)
    → is_reaped c ≡ 1
    → Round m c ts
    → (k : ℕ) → ts k ≡ Thread.none
reaped-none m Child.reaped ts e round = round
reaped-none m c ts e round = absurd (omega arith)

-- When the main process reads the file and no call has failed, the file names each child exactly `m` times for each round that
-- the child has completed.
file_complete :
    {n m : ℕ} {s : System} (i : ℕ)
    → Reach n m s
    → s.main ≡ Main.reporting
    → s.broken ≡ false
    → i < n
    → count i s.file ≡ s.rounds i * m
file_complete {n} {m} {s} i r at ok lt = omega (
  arith,
  ap (count i) ((Reach-Healthy r).filed ok),
  work.logged i lt,
  all_none m (s.threads i) (
      reaped-none m (s.children i) (s.threads i)
        (total-full is_reaped is_reaped-le-one n s.children
          (omega (arith, control.waited ok, ap (reaped_by n) at)) i lt)
        (work.round i lt)),
)
  where
    work : Working n m s
    work = Reach-Working r

    control : Controlled n s
    control = Reach-Controlled r

-- When the main process, with at least one child, reports, and up to then no call has failed and no
-- signal has ended a process, and every read() gives an int of the file, and no child has made 2^31
-- accesses: the file names each child exactly `m` times for each round that it has completed; the
-- child reported is the first of those with the most accesses, with their number.
pub report-winner :
    {n m : ℕ} {s : System}
    → Reach n m s
    → s.main ≡ Main.reporting
    → s.broken ≡ false
    → ((i : ℕ) → i < n → s.rounds i * m < 2 ^ 31)
    → 0 < n
    → ((i : ℕ) → i < n → count i s.file ≡ s.rounds i * m)
      × ((k : ℕ) × (k < n)
          × (report n (map some s.file)
              ≡ some (record { max_process_id = pos k; max_accesses = pos (s.rounds k * m) }))
          × ((j : ℕ) → j < n → s.rounds j * m ≤ s.rounds k * m)
          × ((j : ℕ) → j < k → s.rounds j * m < s.rounds k * m))
report-winner {n} {m} {s} r at ok fits some_child = (
  each,
  winner (
      report-first n s.file some_child (rw ((Reach-Healthy r).filed ok) ((Reach-Working r).names))
        (λ i lt. omega (arith, each i lt, fits i lt))),
)
  where
    each : (i : ℕ) → i < n → count i s.file ≡ s.rounds i * m
    each i lt = file_complete i r at ok lt

    winner :
        (k : ℕ) × (k < n)
          × (report n (map some s.file)
              ≡ some (record { max_process_id = pos k; max_accesses = pos (count k s.file) }))
          × ((j : ℕ) → j < n → count j s.file ≤ count k s.file)
          × ((j : ℕ) → j < k → count j s.file < count k s.file)
        → (k : ℕ) × (k < n)
          × (report n (map some s.file)
              ≡ some (record { max_process_id = pos k; max_accesses = pos (s.rounds k * m) }))
          × ((j : ℕ) → j < n → s.rounds j * m ≤ s.rounds k * m)
          × ((j : ℕ) → j < k → s.rounds j * m < s.rounds k * m)
    winner (k, lt, is, most, first) = (
      k,
      lt,
      is ∙ ap (λ q. some (record { max_process_id = pos k; max_accesses = pos q })) (each k lt),
      λ j lj. omega (arith, each j lj, each k lt, most j lj),
      λ j lj. omega (arith, each j (omega arith), each k lt, first j lj),
    )
