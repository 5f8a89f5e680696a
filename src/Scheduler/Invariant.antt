-- ===== src/Scheduler/Invariant.antt =====
-- What holds in every reachable state of the scheduler.
use c_teaching.Prelude.{
  ℕ, zero, suc, ◌+◌, ◌-◌, ◌≤◌, ◌<◌, ◌≡◌, refl, ap, ◌==◌, ltb, if◌then◌else◌, List, [], ◌∷◌, ◌++◌,
  min, arith, Bool-cases, true, inl, inr, sym, subst, ◌∙◌,
}
use c_teaching.Threads.{update, total, total-update}
use c_teaching.Scheduler.{
  num_resources, Client, waiting, first, second, posting, finished, head, System, start, Step,
  spawn, acquire, work_first, work_second, skip_second, release, Reach, here, then_step,
}

-- The client holds a resource.
abbrev pub holds : Client → ℕ
holds (first _) = 1
holds (second _) = 1
holds (posting _) = 1
holds _ = 0

-- The work items 0, …, n - 1.
abbrev pub upto : ℕ → List ℕ
upto zero = []
upto (suc n) = upto n ++ n ∷ []

-- How many items a client has handled, and where its counter may stand.
abbrev pub handled : ℕ → Client → ℕ
handled num (waiting i) = i
handled num (first i) = i
handled num (second i) = i
handled num (posting i) = min i num
handled num finished = num

abbrev pub InRange : ℕ → Client → Type 0
InRange num (waiting i) = i < num
InRange num (first i) = i < num
InRange num (second i) = (0 < i) × (i ≤ num)
InRange num (posting i) = (1 < i) × (i ≤ num + 1)
InRange num finished = Unit {0}

pub record Inv (num : ℕ) (s : System) : Type 0 where
  pub places : s.semaphore + total holds s.spawned s.clients ≡ num_resources
  pub in_range : (j : ℕ) → InRange num (s.clients j)
  pub items : (j : ℕ) → s.worked j ≡ upto (handled num (s.clients j))
  pub unborn : (j : ℕ) → s.spawned ≤ j → s.clients j ≡ head num 0

head-InRange : (num i : ℕ) → InRange num (head num i)
head-InRange num i = elim (Bool-cases (ltb i num)) [
  | inl more ↦ rw more (ground arith)
  | inr end ↦ rw end tt
]

head-handled : (num i : ℕ) → handled num (head num i) ≡ (if ltb i num then i else num)
head-handled num i = elim (Bool-cases (ltb i num)) [
  | inl more ↦ rw more refl
  | inr end ↦ rw end refl
]

head-holds : (num i : ℕ) → holds (head num i) ≡ 0
head-holds num i = elim (Bool-cases (ltb i num)) [ inl more ↦ rw more refl | inr end ↦ rw end refl ]

-- A client moves from `c` to `c'`, and its list of items grows accordingly.
module _ {num : ℕ} {s : System} (inv : Inv num s) (j : ℕ) (lt : j < s.spawned) where
  moved-InRange : (c' : Client) → InRange num c' → (k : ℕ) → InRange num (update s.clients j c' k)
  moved-InRange c' h k = elim (Bool-cases (k == j)) [
    | inl same ↦ rw same h
    | inr other ↦ rw other (inv.in_range k)
  ]

  moved-unborn : (c' : Client) (k : ℕ) → s.spawned ≤ k → update s.clients j c' k ≡ head num 0
  moved-unborn c' k le = elim (Bool-cases (k == j)) [
    | inl same ↦ absurd (ground arith)
    | inr other ↦ rw other (inv.unborn k le)
  ]

  -- A move without a work item.
  moved-items :
      (c' : Client)
      → handled num c' ≡ handled num (s.clients j)
      → (k : ℕ) → s.worked k ≡ upto (handled num (update s.clients j c' k))
  moved-items c' e k = elim (Bool-cases (k == j)) [
    | inl same ↦ rw (same, e, eq k same) (inv.items j)
    | inr other ↦ rw other (inv.items k)
  ]
    where
      eq : (k : ℕ) → (k == j) ≡ true → k ≡ j
      eq k same = ground arith

  -- A move with the next one.
  worked-items :
      (c' : Client) (i : ℕ)
      → handled num (s.clients j) ≡ i
      → handled num c' ≡ suc i
      → (k : ℕ)
      → update s.worked j (s.worked j ++ i ∷ []) k ≡ upto (handled num (update s.clients j c' k))
  worked-items c' i was e k = elim (Bool-cases (k == j)) [
    | inl same ↦ rw (same, e) (ap (λ l. l ++ i ∷ []) (inv.items j ∙ ap upto was))
    | inr other ↦ rw other (inv.items k)
  ]

  pub at-InRange : {c : Client} → s.clients j ≡ c → InRange num c
  at-InRange at = subst (InRange num) at (inv.in_range j)

  moved-places :
      {c : Client} (c' : Client) (free : ℕ)
      → s.clients j ≡ c
      → free + holds c' ≡ s.semaphore + holds c
      → free + total holds s.spawned (update s.clients j c') ≡ num_resources
  moved-places c' free at e =
      omega (arith, inv.places, total-update holds s.spawned s.clients j c' lt, ap holds at, e)

head-handled-min : (num i : ℕ) → handled num (head num i) ≡ min i num
head-handled-min num i = ground (arith, head-handled num i)

module _ (num : ℕ) where
  Step-Inv : {s t : System} → Step num s t → Inv num s → Inv num t
  unfolding total
  Step-Inv {s} spawn inv = record {
    places =
        omega (arith, inv.places, ap holds (inv.unborn s.spawned (omega arith)), head-holds num 0);
    in_range = inv.in_range;
    items = inv.items;
    unborn = λ j le. inv.unborn j (omega arith);
  }
  Step-Inv {s} (acquire j {i} lt at free) inv = record {
    places = moved-places inv j lt (first i) (s.semaphore - 1) at (omega arith);
    in_range = moved-InRange inv j lt (first i) (at-InRange inv j lt at);
    items = moved-items inv j lt (first i) (sym (ap (handled num) at));
    unborn = moved-unborn inv j lt (first i);
  }
  Step-Inv {s} (work_first j {i} lt at) inv = record {
    places = moved-places inv j lt (second (i + 1)) s.semaphore at refl;
    in_range = moved-InRange inv j lt (second (i + 1)) (ground (arith, at-InRange inv j lt at));
    items = worked-items inv j lt (second (i + 1)) i (ap (handled num) at) (omega arith);
    unborn = moved-unborn inv j lt (second (i + 1));
  }
  Step-Inv {s} (work_second j {i} lt at ne) inv =
      let (pos, le) = at-InRange inv j lt at in
      record {
        places = moved-places inv j lt (posting (i + 1)) s.semaphore at refl;
        in_range = moved-InRange inv j lt (posting (i + 1)) (omega arith, omega arith);
        items = worked-items inv j lt (posting (i + 1)) i (ap (handled num) at) (ground arith);
        unborn = moved-unborn inv j lt (posting (i + 1));
      }
  Step-Inv {s} (skip_second j {i} lt at e) inv = record {
    places = moved-places inv j lt (posting (i + 1)) s.semaphore at refl;
    in_range = moved-InRange inv j lt (posting (i + 1)) (ground (arith, at-InRange inv j lt at));
    items = moved-items inv j lt (posting (i + 1)) (ground (arith, ap (handled num) at));
    unborn = moved-unborn inv j lt (posting (i + 1));
  }
  Step-Inv {s} (release j {i} lt at) inv = record {
    places =
        moved-places inv j lt (head num i) (s.semaphore + 1) at (omega (arith, head-holds num i));
    in_range = moved-InRange inv j lt (head num i) (head-InRange num i);
    items = moved-items inv j lt (head num i) (head-handled-min num i ∙ sym (ap (handled num) at));
    unborn = moved-unborn inv j lt (head num i);
  }

start_items : (num : ℕ) → [] ≡ upto (handled num (head num 0))
start_items num = rw (head-handled-min num 0) (ground arith)

start-Inv : (num : ℕ) → Inv num (start num)
unfolding total
start-Inv num = record {
  places = omega arith;
  in_range = λ j. head-InRange num 0;
  items = λ j. start_items num;
  unborn = λ j le. refl;
}

pub Reach-Inv : {num : ℕ} {s : System} → Reach num s → Inv num s
Reach-Inv {num} here = start-Inv num
Reach-Inv {num} (then_step r st) = Step-Inv num st (Reach-Inv r)
