-- ===== src/Recap/Invariant/Work.antt =====
-- The threads of the children: who is in the critical section and who has been past its write().
use c_teaching.Prelude.{
  ==→eq, ==→ne, ℕ, zero, suc, ◌+◌, ◌*◌, ◌≤◌, ◌<◌, ◌≡◌, ◌≢◌, refl, ap, ◌∙◌, ◌==◌, List, [], ◌∷◌,
  ◌++◌, arith, Bool-cases, inl, inr,
}
use c_teaching.Threads.{update, total, total-update, total-const, update-all}
use c_teaching.Recap.System.{System, Child, Thread, init}
use c_teaching.Recap.Search.{count, count-snoc_self, count-snoc_other, AllBelow, AllBelow-append}

-- The thread is between sem_wait() and sem_post().
abbrev pub inside : Thread → ℕ
inside Thread.writing = 1
inside Thread.leaving = 1
inside _ = 0

-- The thread is past its write().
abbrev pub wrote : Thread → ℕ
wrote Thread.leaving = 1
wrote Thread.finished = 1
wrote _ = 0

-- The threads of a child's present round.
abbrev pub Round : ℕ → Child → (ℕ → Thread) → Type 0
Round m (Child.creating j) ts = (j ≤ m) × ((k : ℕ) → j ≤ k → ts k ≡ Thread.none)
Round m (Child.joining j) ts = (j ≤ m) × ((k : ℕ) → k < j → ts k ≡ Thread.finished)
Round m c ts = (k : ℕ) → ts k ≡ Thread.none

pub record Work (n m lock : ℕ) (children : ℕ → Child) (threads : ℕ → ℕ → Thread) (rounds : ℕ → ℕ)
    (file : List ℕ) : Type 0 where
  pub locked : lock + total (λ ts. total inside m ts) n threads ≡ 1
  pub round : (i : ℕ) → i < n → Round m (children i) (threads i)
  pub logged : (i : ℕ) → i < n → count i file ≡ rounds i * m + total wrote m (threads i)
  pub names : AllBelow n file

abbrev pub Working : ℕ → ℕ → System → Type 0
Working n m s = Work n m s.critical_section s.children s.threads s.rounds s.accesses

pub init-Working : (n m : ℕ) → Working n m init
unfolding count
init-Working n m = record {
  locked = omega (
    arith,
    total-const (λ ts. total inside m ts) n (λ _. Thread.none)
        (total-const inside m Thread.none refl),
  );
  round = λ i lt k. refl;
  logged = λ i lt. omega (arith, total-const wrote m Thread.none refl);
  names = tt;
}

-- A thread that is neither gone nor finished changes.
Round-update :
    (m : ℕ) (c : Child) (ts : ℕ → Thread) (j : ℕ) (new : Thread)
    → ts j ≢ Thread.none
    → ts j ≢ Thread.finished
    → Round m c ts
    → Round m c (update ts j new)
Round-update m (Child.creating q) ts j new here going r = (r.0, λ k ge. ground (arith, r.1 k ge))
Round-update m (Child.joining q) ts j new here going r = (r.0, λ k lt. ground (arith, r.1 k lt))
Round-update m c ts j new here going r = λ k. absurd (here (r j))

-- A finished round: every thread has written and is out of the critical section.
total-finished :
    (w : Thread → ℕ) (b m : ℕ) (ts : ℕ → Thread)
    → w Thread.finished ≡ b
    → ((k : ℕ) → k < m → ts k ≡ Thread.finished)
    → total w m ts ≡ b * m
unfolding total
total-finished w b zero ts e all = omega arith
total-finished w b (suc m) ts e all =
    let rest = total-finished w b m ts e (λ k lt. all k (omega arith)) in
    grind (arith, rest, ap w (all m (omega arith)), e)

module _ {n m lock : ℕ} {children : ℕ → Child} {threads : ℕ → ℕ → Thread} {rounds : ℕ → ℕ}
    {file : List ℕ} (inv : Work n m lock children threads rounds file) (i : ℕ) (li : i < n) where
  -- Child `i` goes on and its threads stay.
  pub child-Work :
      (c' : Child)
      → (Round m (children i) (threads i) → Round m c' (threads i))
      → Work n m lock (update children i c') threads rounds file
  child-Work c' keep = record {
    locked = inv.locked;
    round =
        update-all (λ k c. k < n → Round m c (threads k)) children i c' inv.round
          (λ lt. keep (inv.round i lt));
    logged = inv.logged;
    names = inv.names;
  }

  -- Its threads change to `ts`.
  row_locked :
      (lock' : ℕ) (ts : ℕ → Thread)
      → lock' + total inside m ts ≡ lock + total inside m (threads i)
      → lock' + total (λ row. total inside m row) n (update threads i ts) ≡ 1
  row_locked lock' ts e =
      omega (arith, e, inv.locked, total-update (λ row. total inside m row) n threads i ts li)

  row_logged :
      (ts : ℕ → Thread)
      → total wrote m ts ≡ total wrote m (threads i)
      → (k : ℕ) → k < n
      → count k file ≡ rounds k * m + total wrote m (update threads i ts k)
  row_logged ts e =
      update-all (λ k row. k < n → count k file ≡ rounds k * m + total wrote m row) threads i ts
        inv.logged (λ lt. omega (arith, e, inv.logged i lt))

  pub create-Work :
      (j : ℕ)
      → children i ≡ Child.creating j
      → j < m
      → Work n m lock
          (update children i (Child.creating (suc j)))
          (update threads i (update (threads i) j Thread.entering))
          rounds
          file
  create-Work j at lj = record {
    locked = row_locked lock _ (
        omega (
          arith,
          total-update inside m (threads i) j Thread.entering lj,
          ap inside (empty j (omega arith)),
        ));
    round = λ k lk. elim (Bool-cases (k == i)) [
      | inl same ↦ rw same (omega arith, λ q ge. ground (arith, empty q (omega arith)))
      | inr other ↦ rw other (inv.round k lk)
    ];
    logged = row_logged _ (
        omega (
          arith,
          total-update wrote m (threads i) j Thread.entering lj,
          ap wrote (empty j (omega arith)),
        ));
    names = inv.names;
  }
    where
      empty : (k : ℕ) → j ≤ k → threads i k ≡ Thread.none
      empty = (rw at at (inv.round i li)).1

  pub all_joined-Work :
      (j : ℕ)
      → children i ≡ Child.joining j
      → m ≤ j
      → Work n m lock
          (update children i Child.checking)
          (update threads i (λ _. Thread.none))
          (update rounds i (rounds i + 1))
          file
  all_joined-Work j at ge = record {
    locked = row_locked lock _ (
        omega (
          arith,
          total-const inside m Thread.none refl,
          total-finished inside 0 m (threads i) refl all,
        ));
    round = λ k lk. elim (Bool-cases (k == i)) [
      | inl same ↦ rw same (λ q. refl)
      | inr other ↦ rw other (inv.round k lk)
    ];
    logged = λ k lk. elim (Bool-cases (k == i)) [
      | inl same ↦ rw same (
          omega (
            arith,
            ap (λ q. count q file) (==→eq k i same),
            inv.logged i li,
            total-finished wrote 1 m (threads i) refl all,
            total-const wrote m Thread.none refl,
          ))
      | inr other ↦ rw other (inv.logged k lk)
    ];
    names = inv.names;
  }
    where
      all : (k : ℕ) → k < m → threads i k ≡ Thread.finished
      all k lt = (rw at at (inv.round i li)).1 k (omega arith)

  -- Thread `j` of child `i` goes on.
  move-Round :
      (j : ℕ) (new : Thread)
      → threads i j ≢ Thread.none
      → threads i j ≢ Thread.finished
      → (k : ℕ) → k < n
      → Round m (children k) (update threads i (update (threads i) j new) k)
  move-Round j new here going =
      update-all (λ k ts. k < n → Round m (children k) ts) threads i (update (threads i) j new)
        inv.round (λ lt. Round-update m (children i) (threads i) j new here going (inv.round i lt))

  pub thread-Work :
      (j lock' : ℕ) (new : Thread)
      → j < m
      → threads i j ≢ Thread.none
      → threads i j ≢ Thread.finished
      → lock' + inside new ≡ lock + inside (threads i j)
      → wrote new ≡ wrote (threads i j)
      → Work n m lock' children (update threads i (update (threads i) j new)) rounds file
  thread-Work j lock' new lj here going l w = record {
    locked = row_locked lock' _ (omega (arith, l, total-update inside m (threads i) j new lj));
    round = move-Round j new here going;
    logged = row_logged _ (omega (arith, w, total-update wrote m (threads i) j new lj));
    names = inv.names;
  }

  pub write-Work :
      (j : ℕ)
      → j < m
      → threads i j ≡ Thread.writing
      → Work n m lock children
          (update threads i (update (threads i) j Thread.leaving))
          rounds
          (file ++ i ∷ [])
  write-Work j lj at = record {
    locked =
        row_locked lock _
          (omega (arith, total-update inside m (threads i) j Thread.leaving lj, ap inside at));
    round = move-Round j Thread.leaving (λ e. cc) (λ e. cc);
    logged = λ k lk. elim (Bool-cases (k == i)) [
      | inl same ↦ rw same (
          omega (
            arith,
            ap (λ q. count q (file ++ i ∷ [])) (==→eq k i same),
            ap (λ q. rounds q * m) (==→eq k i same),
            count-snoc_self i file,
            inv.logged i li,
            total-update wrote m (threads i) j Thread.leaving lj,
            ap wrote at,
          ))
      | inr other ↦ rw other (count-snoc_other k i file (==→ne k i other) ∙ inv.logged k lk)
    ];
    names = AllBelow-append n file i inv.names li;
  }
