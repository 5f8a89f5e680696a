-- ===== src/Accum/Lost.antt =====
-- What is left of the additions to one accumulator.
use c_teaching.Prelude.{
  ℕ, suc, ◌+◌, ◌-◌, ◌*◌, ◌/◌, ◌%◌, ◌≤◌, ◌<◌, ◌≡◌, ◌≢◌, refl, sym, ap, subst, ◌∙◌, ltb, Bool-cases,
  inl, inr, arith, min, dec_lt,
}
use native.Mathlib.Nat.{mul-le-mul_right, le_of_mul-le-mul_right, mul_comm, mul-sub, mul-div_cancel}
use c_teaching.Threads.{
  update, update-cases, total, total-update, total-const, total-le-mul, total-eq-mul,
}
use c_teaching.Accum.{
  word, Worker, absent, loading, storing, ended, head, Main, creating, joining, reporting,
  expected_value, lost_adds,
}
use c_teaching.Accum.Created.{
  Unborn, create_loop-Unborn, join_loop-Unborn, started-Unborn, born-Unborn,
}
use c_teaching.Accum.Racy.{
  create_loop, join_loop, System, Step, create, join, load, store, Reach, here, then_step,
}

module _ (m : ℕ) where
  -- How many stores the thread has made.
  abbrev stores : Worker → ℕ
  stores absent = 0
  stores (loading i) = i
  stores (storing i x) = i
  stores ended = m

  -- A round is below m, and a loaded value is `v` as often as at most `k` adds.
  abbrev Fits : ℕ → ℕ → Worker → Type 0
  Fits v k (loading i) = i < m
  Fits v k (storing i x) = (i < m) × ((c : ℕ) × (x ≡ c * v) × (c ≤ k))
  Fits v k _ = Unit {0}

  head-Fits : (v k i : ℕ) → i ≤ m → Fits v k (head m i)
  head-Fits v k i le = elim (Bool-cases (ltb i m)) [
    | inl more ↦ rw more (ground arith)
    | inr last ↦ rw last tt
  ]

  head-stores : (i : ℕ) → i ≤ m → stores (head m i) ≡ i
  head-stores i le = elim (Bool-cases (ltb i m)) [
    | inl more ↦ rw more refl
    | inr last ↦ rw last (ground arith)
  ]

  Fits-le : (v k k' : ℕ) (w : Worker) → k ≤ k' → Fits v k w → Fits v k' w
  Fits-le v k k' absent le h = tt
  Fits-le v k k' (loading i) le h = h
  Fits-le v k k' (storing i x) le (lt, (c, e, b)) = (lt, (c, e, omega arith))
  Fits-le v k k' ended le h = tt

  stores-le : (v k : ℕ) (w : Worker) → Fits v k w → stores w ≤ m
  stores-le v k absent h = omega arith
  stores-le v k (loading i) h = omega arith
  stores-le v k (storing i x) h = omega (arith, h.0)
  stores-le v k ended h = omega arith

-- main() has joined the threads below.
abbrev Joined : ℕ → Main → (ℕ → Worker) → Type 0
Joined n (creating i) workers = i < n
Joined n (joining i) workers = (i < n) × ((j : ℕ) → j < i → workers j ≡ ended)
Joined n reporting workers = (j : ℕ) → j < n → workers j ≡ ended

record Inv (n m v : ℕ) (s : System) : Type 0 where
  adds :
      (c : ℕ) × (s.shared_variable ≡ c * v)
      × (c ≤ total (stores m) n s.workers)
      × (min 1 (total (stores m) n s.workers) ≤ c)
  fits : (j : ℕ) → Fits m v (total (stores m) n s.workers) (s.workers j)
  joined : Joined n s.main s.workers
  unborn : Unborn s.main s.workers

module _ (n m v : ℕ) (fit : n * m * v < word) where
  create_loop-Joined : (i : ℕ) (workers : ℕ → Worker) → Joined n (create_loop n i) workers
  create_loop-Joined i workers = elim (Bool-cases (ltb i n)) [
    | inl more ↦ rw more (ground arith)
    | inr all ↦ rw all (elim (Bool-cases (ltb 0 n)) [
      | inl some ↦ rw some (ground arith, λ j lt. absurd (omega arith))
      | inr none ↦ rw none (λ j lt. absurd (ground arith))
    ])
  ]

  join_loop-Joined :
      (i : ℕ) (workers : ℕ → Worker)
      → ((j : ℕ) → j < i → workers j ≡ ended)
      → Joined n (join_loop n i) workers
  join_loop-Joined i workers h = elim (Bool-cases (ltb i n)) [
    | inl more ↦ rw more (ground arith, h)
    | inr last ↦ rw last (λ j lt. h j (ground arith))
  ]

  -- A thread that has ended does not move.
  moved-Joined :
      (main : Main) (workers : ℕ → Worker) (i : ℕ) (new : Worker)
      → workers i ≢ ended
      → Joined n main workers
      → Joined n main (update workers i new)
  moved-Joined (creating k) workers i new ne h = h
  moved-Joined (joining k) workers i new ne h = (
    h.0,
    update-cases (λ j w. j < k → w ≡ ended) workers i new (λ lt. absurd (ne (h.1 i lt)))
        (λ j f lt. h.1 j lt),
  )
  moved-Joined reporting workers i new ne h =
      update-cases (λ j w. j < n → w ≡ ended) workers i new (λ lt. absurd (ne (h i lt)))
        (λ j f lt. h j lt)

  -- One thread gets to the worker `new`, and the total does not fall.
  moved-Fits :
      (workers : ℕ → Worker) (i : ℕ) (new : Worker)
      → i < n
      → stores m (workers i) ≤ stores m new
      → Fits m v (total (stores m) n (update workers i new)) new
      → ((j : ℕ) → Fits m v (total (stores m) n workers) (workers j))
      → (j : ℕ) → Fits m v (total (stores m) n (update workers i new)) (update workers i new j)
  moved-Fits workers i new lt le one all =
      update-cases (λ j w. Fits m v (total (stores m) n (update workers i new)) w) workers i new one
        (λ j ne.
          Fits-le m v _ _ (workers j) (omega (arith, total-update (stores m) n workers i new lt))
            (all j))

  no_wrap : (c x : ℕ) → x ≡ c * v → suc c ≤ n * m → (x + v) % word ≡ suc c * v
  no_wrap c x e le = omega (arith, e, fit, mul-le-mul_right v le)

  Step-Inv : {s t : System} → Step n m v s t → Inv n m v s → Inv n m v t
  Step-Inv {s} (create {i} at) inv =
      let lt = subst (λ c. Joined n c s.workers) at inv.joined in
      let unborn = subst (λ c. Unborn c s.workers) at inv.unborn in
      let same : total (stores m) n (update s.workers i (head m 0)) ≡ total (stores m) n s.workers =
        omega (
          arith,
          total-update (stores m) n s.workers i (head m 0) lt,
          head-stores m 0,
          ap (stores m) (unborn i (omega arith)),
        ) in
      record {
        adds = rw same inv.adds;
        fits =
            moved-Fits s.workers i (head m 0) lt
              (omega (arith, ap (stores m) (unborn i (omega arith))))
              (head-Fits m v _ 0 (omega arith)) inv.fits;
        joined = create_loop-Joined (suc i) _;
        unborn = create_loop-Unborn n (suc i) _ (born-Unborn s.workers i (head m 0) unborn);
      }
  Step-Inv {s} (join {i} at end) inv =
      let (lt, before) = subst (λ c. Joined n c s.workers) at inv.joined in
      record {
        adds = inv.adds;
        fits = inv.fits;
        joined = join_loop-Joined (suc i) s.workers (λ j lj. elim (dec_lt j i) [
          | yes p ↦ before j p
          | no p ↦ subst (λ k. s.workers k ≡ ended) (omega arith) end
        ]);
        unborn = join_loop-Unborn n (suc i) s.workers;
      }
  Step-Inv {s} (load j {i} lt at) inv =
      let new = storing i s.shared_variable in
      let same : total (stores m) n (update s.workers j new) ≡ total (stores m) n s.workers =
        omega (arith, total-update (stores m) n s.workers j new lt, ap (stores m) at) in
      let (c, e, le, low) = inv.adds in
      record {
        adds = rw same inv.adds;
        fits =
            moved-Fits s.workers j new lt (omega (arith, ap (stores m) at))
              (rw same (subst (Fits m v _) at (inv.fits j), (c, e, le))) inv.fits;
        joined = moved-Joined s.main s.workers j new (λ e. cc) inv.joined;
        unborn = started-Unborn s.main s.workers j new (λ e. cc) inv.unborn;
      }
  Step-Inv {s} (store j {i} {x} lt at) inv =
      let new = head m (suc i) in
      let (less, (c, e, le)) = subst (Fits m v (total (stores m) n s.workers)) at (inv.fits j) in
      let more : total (stores m) n (update s.workers j new) ≡ suc (total (stores m) n s.workers) =
        omega (
          arith,
          total-update (stores m) n s.workers j new lt,
          ap (stores m) at,
          head-stores m (suc i) (omega (arith, less)),
        ) in
      let fits =
        moved-Fits s.workers j new lt
          (omega (arith, ap (stores m) at, head-stores m (suc i) (omega (arith, less))))
          (head-Fits m v _ (suc i) (omega (arith, less))) inv.fits in
      record {
        adds = (
          suc c,
          no_wrap c x e (
              omega (
                arith,
                le,
                more,
                total-le-mul (stores m) m n (update s.workers j new)
                    (λ k. stores-le m v _ _ (fits k)),
              )),
          omega (arith, more, le),
          omega arith,
        );
        fits = fits;
        joined = moved-Joined s.main s.workers j new (λ e. cc) inv.joined;
        unborn = started-Unborn s.main s.workers j new (λ e. cc) inv.unborn;
      }

  Reach-Inv : {s : System} → Reach n m v s → Inv n m v s
  Reach-Inv here = record {
    adds = (0, omega arith, omega arith, omega (arith, total-const (stores m) n absent refl));
    fits = λ j. tt;
    joined = create_loop-Joined 0 _;
    unborn = create_loop-Unborn n 0 (λ _. absent) (λ j le. refl);
  }
  Reach-Inv (then_step r st) = Step-Inv st (Reach-Inv r)

lost_adds_lem :
    (p c v : ℕ) → p * v < word → 0 < v → c ≤ p → lost_adds (p * v % word) (c * v) v ≡ p - c
lost_adds_lem p c v fit pos_v le = rw whole (elim (Bool-cases (ltb (c * v) (p * v))) [
  | inl less ↦ rw less (ap (λ d. d / v) apart ∙ mul-div_cancel (p - c) pos_v)
  | inr same ↦ rw same (none (ground arith))
])
  where
    whole : p * v % word ≡ p * v
    whole = omega arith

    apart : p * v - c * v ≡ (p - c) * v
    apart = sym (mul_comm (p - c) v ∙ mul-sub v p c ∙ omega (arith, mul_comm v p, mul_comm v c))

    none : p * v ≤ c * v → 0 ≡ p - c
    none ge = omega (arith, le_of_mul-le-mul_right ge pos_v)

-- If `v` is not 0 and the expected value fits an unsigned long, then when main() reports, the
-- variable holds `v` as
-- often as some number of adds between 1 and n * m, or 0 if there are none, and the number of lost
-- adds that is printed is the number of the others.
pub lost_adds-exact :
    {n m v : ℕ} {s : System}
    → n * m * v < word
    → 0 < v
    → Reach n m v s
    → s.main ≡ reporting
    → (c : ℕ) × (s.shared_variable ≡ c * v)
      × (min 1 (n * m) ≤ c)
      × (c ≤ n * m)
      × (lost_adds (expected_value n m v) s.shared_variable v ≡ n * m - c)
lost_adds-exact {n} {m} {v} {s} fit pos_v r at =
    let (c, e, le, low) = inv.adds in
    (
      c,
      e,
      subst (λ k. min 1 k ≤ c) all low,
      omega (arith, le, all),
      rw e (lost_adds_lem (n * m) c v fit pos_v (omega (arith, le, all))),
    )
  where
    inv : Inv n m v s
    inv = Reach-Inv n m v fit r

    all : total (stores m) n s.workers ≡ n * m
    all =
        total-eq-mul (stores m) m n s.workers
          (λ j lt. ap (stores m) (subst (λ c. Joined n c s.workers) at inv.joined j lt))
