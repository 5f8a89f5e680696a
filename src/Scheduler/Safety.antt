-- ===== src/Scheduler/Safety.antt =====
-- The resources are shared safely, every client does its own tasks, and the clients finish.
use c_teaching.Prelude.{
  ℕ, zero, suc, ◌+◌, ◌-◌, ◌*◌, ◌≤◌, ◌<◌, ◌≡◌, ◌≢◌, refl, ap, ◌∙◌, arith, ltb, Bool-cases, inl, inr,
  dec_lt, ℕ_discrete,
}
use c_teaching.Threads.{update, total, total-update, total_pos}
use c_teaching.Scheduler.{
  num_resources, Client, waiting, first, second, posting, finished, head, System, Step, spawn,
  acquire, work_first, work_second, skip_second, release, Reach, then_step,
}
use c_teaching.Scheduler.Invariant.{holds, upto, handled, InRange, Inv, Reach-Inv, at-InRange}

-- In every reachable state at most NUM_RESOURCES clients hold a resource.
holders-le-resources :
    {num : ℕ} {s : System} → Reach num s → total holds s.spawned s.clients ≤ num_resources
holders-le-resources r = omega (arith, (Reach-Inv r).places)

-- A client that has finished has handled each of its `num` work items, once and in order.
pub finished-worked :
    {num : ℕ} {s : System} → Reach num s → (j : ℕ) → s.clients j ≡ finished → s.worked j ≡ upto num
finished-worked {num} r j end = (Reach-Inv r).items j ∙ ap (λ c. upto (handled num c)) end

-- A client step leads on from the state.
abbrev pub CanStep : ℕ → System → Type 0
CanStep num s = (t : System) × Step num s t × (t.spawned ≡ s.spawned)

-- A client that holds a resource can always go on.
holder-CanStep :
    (num : ℕ) (s : System) (j : ℕ) (c : Client)
    → j < s.spawned
    → s.clients j ≡ c
    → 0 < holds c
    → CanStep num s
holder-CanStep num s j (waiting i) lt at h = absurd (omega arith)
holder-CanStep num s j (first i) lt at h = (_, work_first j lt at, refl)
holder-CanStep num s j (second i) lt at h = elim (ℕ_discrete i num) [
  | yes e ↦ (_, skip_second j lt at e, refl)
  | no ne ↦ (_, work_second j lt at ne, refl)
]
holder-CanStep num s j (posting i) lt at h = (_, release j lt at, refl)
holder-CanStep num s j finished lt at h = absurd (omega arith)

client-CanStep :
    (num : ℕ) (s : System) (j : ℕ) (c : Client)
    → Inv num s
    → j < s.spawned
    → s.clients j ≡ c
    → c ≢ finished
    → CanStep num s
client-CanStep num s j (waiting i) inv lt at ne = elim (dec_lt 0 s.semaphore) [
  | yes free ↦ (_, acquire j lt at free, refl)
  | no full ↦
      let (k, k_lt, h) = total_pos holds s.spawned s.clients (omega (arith, inv.places)) in
      holder-CanStep num s k (s.clients k) k_lt refl h
]
client-CanStep num s j finished inv lt at ne = absurd (ne refl)
client-CanStep num s j c inv lt at ne = holder-CanStep num s j c lt at (ground arith)

-- As long as a spawned client has not finished, some client can take a step.
pub no_starvation :
    {num : ℕ} {s : System}
    → Reach num s
    → (j : ℕ) → j < s.spawned
    → s.clients j ≢ finished
    → CanStep num s
no_starvation {num} {s} r j lt ne = client-CanStep num s j (s.clients j) (Reach-Inv r) lt refl ne

-- How many steps a client may still take.
abbrev pub steps_left : ℕ → Client → ℕ
steps_left num (waiting i) = 4 * (num - i)
steps_left num (first i) = 4 * (num - i) - 1
steps_left num (second i) = 4 * (num - i) + 2
steps_left num (posting i) = 4 * (num - i) + 1
steps_left num finished = 0

head-steps_left : (num i : ℕ) → steps_left num (head num i) ≤ 4 * (num - i)
head-steps_left num i = elim (Bool-cases (ltb i num)) [
  | inl more ↦ rw more (omega arith)
  | inr end ↦ rw end (omega arith)
]

-- The steps left to all clients together.
abbrev pub all_left : ℕ → System → ℕ
all_left num s = total (steps_left num) s.spawned s.clients

module _ {num : ℕ} {s : System} (inv : Inv num s) where
  moved-left :
      (j : ℕ) {c : Client} (c' : Client)
      → j < s.spawned
      → s.clients j ≡ c
      → steps_left num c' < steps_left num c
      → total (steps_left num) s.spawned (update s.clients j c') < all_left num s
  moved-left j c' lt at less =
      omega
        (arith, total-update (steps_left num) s.spawned s.clients j c' lt, ap (steps_left num) at)

  Step-left : {t : System} → Step num s t → t.spawned ≡ s.spawned → all_left num t < all_left num s
  Step-left spawn e = absurd (omega arith)
  Step-left (acquire j {i} lt at free) e =
      moved-left j (first i) lt at (omega (arith, at-InRange inv j lt at))
  Step-left (work_first j {i} lt at) e =
      moved-left j (second (i + 1)) lt at (omega (arith, at-InRange inv j lt at))
  Step-left (work_second j {i} lt at ne) e =
      moved-left j (posting (i + 1)) lt at (ground (arith, at-InRange inv j lt at))
  Step-left (skip_second j {i} lt at same) e = moved-left j (posting (i + 1)) lt at (omega arith)
  Step-left (release j {i} lt at) e =
      moved-left j (head num i) lt at (omega (arith, head-steps_left num i))

-- A run of `k` client steps, with no pthread_create() between them.
pub data Quiet (num : ℕ) (s : System) : ℕ → System → Type 0 where
  still : Quiet num s 0 s
  more :
      {k : ℕ} {t u : System}
      → Quiet num s k t
      → Step num t u
      → u.spawned ≡ t.spawned
      → Quiet num s (suc k) u

Quiet-Reach :
    {num : ℕ} {s : System} {k : ℕ} {t : System} → Reach num s → Quiet num s k t → Reach num t
Quiet-Reach r still = r
Quiet-Reach r (more q st e) = then_step (Quiet-Reach r q) st

Quiet-left :
    {num : ℕ} {s : System} {k : ℕ} {t : System}
    → Reach num s
    → Quiet num s k t
    → k + all_left num t ≤ all_left num s
Quiet-left r still = omega arith
Quiet-left r (more q st e) =
    omega (arith, Quiet-left r q, Step-left (Reach-Inv (Quiet-Reach r q)) st e)

InRange-left : (num : ℕ) (c : Client) → InRange num c → steps_left num c ≤ 4 * num
InRange-left num (waiting i) h = omega arith
InRange-left num (first i) h = omega arith
InRange-left num (second i) h = omega arith
InRange-left num (posting i) h = omega arith
InRange-left num finished h = omega arith

total-le-mul :
    {A : Type 0} (w : A → ℕ) (bound n : ℕ) (threads : ℕ → A)
    → ((j : ℕ) → w (threads j) ≤ bound)
    → total w n threads ≤ bound * n
unfolding total
total-le-mul w bound zero threads le = omega arith
total-le-mul w bound (suc n) threads le = omega (arith, le n, total-le-mul w bound n threads le)

-- The clients take at most four steps for each work item before the driver creates the next one.
Quiet-bounded :
    {num : ℕ} {s : System} {k : ℕ} {t : System}
    → Reach num s
    → Quiet num s k t
    → k ≤ 4 * num * s.spawned
Quiet-bounded {num} {s} {k} {t} r q = omega (
  arith,
  Quiet-left r q,
  total-le-mul (steps_left num) (4 * num) s.spawned s.clients
      (λ j. InRange-left num (s.clients j) ((Reach-Inv r).in_range j)),
)
