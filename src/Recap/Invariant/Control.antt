-- ===== src/Recap/Invariant/Control.antt =====
-- The main process and the children: who has passed which barrier.
use c_teaching.Prelude.{ℕ, ◌+◌, ◌≤◌, ◌<◌, ◌≡◌, ◌≢◌, refl, sym, ◌∙◌, Bool, true, false, arith}
use c_teaching.Threads.{update, total, total-update, total-const}
use c_teaching.Recap.Invariant.Health.{killed-alive}
use c_teaching.Recap.System.{
  System, Main, Life, Child, init, MainStep, ChildStep, ThreadStep, fork, all_forked, collect,
  all_ready, release, all_released, end_activities, reap, reap_killed, all_reaped, notify, begin,
  create, all_created, join, all_joined, go_on, stop, enter, write, write_fails, leave,
}

-- The child has posted that it is ready.
abbrev pub posted : Child → ℕ
posted Child.absent = 0
posted Child.notifying = 0
posted _ = 1

-- It has been let through to its activities.
abbrev pub passed : Child → ℕ
passed Child.absent = 0
passed Child.notifying = 0
passed Child.waiting = 0
passed _ = 1

abbrev pub is_reaped : Child → ℕ
is_reaped Child.reaped = 1
is_reaped _ = 0

-- How many children the main process has waited for, let through, and reaped, of `n`.
abbrev pub collected : ℕ → Main → ℕ
collected n (Main.forking i) = 0
collected n (Main.collecting i) = i
collected n _ = n

abbrev pub released : ℕ → Main → ℕ
released n (Main.forking i) = 0
released n (Main.collecting i) = 0
released n (Main.releasing i) = i
released n _ = n

abbrev pub reaped_by : ℕ → Main → ℕ
reaped_by n (Main.reaping i) = i
reaped_by n Main.reporting = n
reaped_by n _ = 0

abbrev pub index : Main → ℕ
index (Main.forking i) = i
index (Main.collecting i) = i
index (Main.releasing i) = i
index (Main.reaping i) = i
index _ = 0

pub record Control (n : ℕ) (broken : Bool) (main : Main) (waits lets : ℕ) (children : ℕ → Child)
    : Type 0 where
  pub in_loop : index main ≤ n
  pub ready : waits + collected n main ≡ total posted n children
  pub let_through : lets + total passed n children ≡ released n main
  pub not_yet : (i : ℕ) → main ≡ Main.forking i → (c : ℕ) → i ≤ c → children c ≡ Child.absent
  pub waited : broken ≡ false → total is_reaped n children ≡ reaped_by n main

-- The part of a system that it speaks of.
abbrev pub Controlled : ℕ → System → Type 0
Controlled n s =
    Control n s.broken s.main s.main_waits_for_children s.children_wait_for_main s.children

pub init-Controlled : (n : ℕ) → Controlled n init
init-Controlled n = record {
  in_loop = omega arith;
  ready = omega (arith, total-const posted n Child.absent refl);
  let_through = omega (arith, total-const passed n Child.absent refl);
  not_yet = λ i e c le. refl;
  waited = λ ok. total-const is_reaped n Child.absent refl;
}

module _ {n : ℕ} where
  -- A step of the main process alone.
  main-Control :
      {broken : Bool} {main : Main} {waits lets : ℕ} {children : ℕ → Child} (main' : Main)
      (waits' lets' : ℕ)
      → ((i : ℕ) → main' ≢ Main.forking i)
      → index main' ≤ n
      → waits' + collected n main' ≡ waits + collected n main
      → lets' + released n main ≡ lets + released n main'
      → reaped_by n main' ≡ reaped_by n main
      → Control n broken main waits lets children
      → Control n broken main' waits' lets' children
  main-Control main' waits' lets' ne le w l r inv = record {
    in_loop = le;
    ready = omega (arith, w, inv.ready);
    let_through = omega (arith, l, inv.let_through);
    not_yet = λ i e. absurd (ne i e);
    waited = λ ok. omega (arith, r, inv.waited ok);
  }

  -- A step of child `i`.
  child-Control :
      {broken : Bool} {main : Main} {waits lets : ℕ} {children : ℕ → Child} (i : ℕ) (c' : Child)
      (waits' lets' : ℕ)
      → i < n
      → children i ≢ Child.absent
      → waits' + posted (children i) ≡ waits + posted c'
      → lets' + passed c' ≡ lets + passed (children i)
      → is_reaped c' ≡ is_reaped (children i)
      → Control n broken main waits lets children
      → Control n broken main waits' lets' (update children i c')
  child-Control {main} {waits} {lets} {children} i c' waits' lets' lt ne w l r inv = record {
    in_loop = inv.in_loop;
    ready = omega (arith, w, inv.ready, total-update posted n children i c' lt);
    let_through = omega (arith, l, inv.let_through, total-update passed n children i c' lt);
    not_yet = λ k e c le. ground (arith, inv.not_yet k e c le);
    waited = λ ok. omega (arith, r, inv.waited ok, total-update is_reaped n children i c' lt);
  }

  -- A call fails, and the main process and the children stay where they are.
  pub broken-Control :
      {broken : Bool} {main : Main} {waits lets : ℕ} {children : ℕ → Child}
      → Control n broken main waits lets children
      → Control n true main waits lets children
  broken-Control inv = record {
    in_loop = inv.in_loop;
    ready = inv.ready;
    let_through = inv.let_through;
    not_yet = inv.not_yet;
    waited = λ ok. cc;
  }

  pub MainStep-Controlled :
      {s t : System}
      → MainStep n s t
      → ((c : ℕ) → s.broken ≡ false → s.life c ≡ Life.alive)
      → Controlled n s
      → Controlled n t
  MainStep-Controlled {s} (fork {i} at lt) healthy inv = record {
    in_loop = omega arith;
    ready = ground (
      arith,
      inv.ready,
      total-update posted n s.children i Child.notifying lt,
      inv.not_yet i at i,
    );
    let_through = ground (
      arith,
      inv.let_through,
      total-update passed n s.children i Child.notifying lt,
      inv.not_yet i at i,
    );
    not_yet = λ j e c le. ground (arith, inv.not_yet i at c);
    waited = λ ok. ground (
      arith,
      inv.waited ok,
      total-update is_reaped n s.children i Child.notifying lt,
      inv.not_yet i at i,
    );
  }
  MainStep-Controlled {s} (reap {i} c at lt lc there) healthy inv = record {
    in_loop = omega arith;
    ready = ground (arith, inv.ready, total-update posted n s.children c Child.reaped lc);
    let_through =
        ground (arith, inv.let_through, total-update passed n s.children c Child.reaped lc);
    not_yet = λ j e. cc;
    waited =
        λ ok. ground (arith, inv.waited ok, total-update is_reaped n s.children c Child.reaped lc);
  }
  MainStep-Controlled {s} (reap_killed {i} c at lt lc there) healthy inv = record {
    in_loop = omega arith;
    ready = rw at at inv.ready;
    let_through = rw at at inv.let_through;
    not_yet = λ j e. cc;
    waited = λ ok. absurd (killed-alive (sym there ∙ healthy c ok));
  }
  MainStep-Controlled (all_forked at ge) healthy inv =
      main-Control _ _ _ (λ i e. cc) (omega arith) (rw at refl) (rw at refl) (rw at refl) inv
  MainStep-Controlled (collect {i} at lt free) healthy inv =
      main-Control _ _ _ (λ i e. cc) (omega arith) (rw at (omega arith)) (rw at refl) (rw at refl)
        inv
  MainStep-Controlled (all_ready at ge) healthy inv =
      main-Control _ _ _ (λ i e. cc) (omega arith) (ground arith) (rw at refl) (rw at refl) inv
  MainStep-Controlled (release at lt) healthy inv =
      main-Control _ _ _ (λ i e. cc) (omega arith) (rw at refl) (rw at (omega arith)) (rw at refl)
        inv
  MainStep-Controlled (all_released at ge) healthy inv =
      main-Control _ _ _ (λ i e. cc) (omega arith) (rw at refl) (ground arith) (rw at refl) inv
  MainStep-Controlled (end_activities at) healthy inv =
      main-Control _ _ _ (λ i e. cc) (omega arith) (rw at refl) (rw at refl) (rw at refl) inv
  MainStep-Controlled (all_reaped at ge) healthy inv =
      main-Control _ _ _ (λ i e. cc) (omega arith) (rw at refl) (rw at refl) (ground arith) inv

  pub ChildStep-Controlled :
      {m i : ℕ} {s t : System} → i < n → ChildStep m s i t → Controlled n s → Controlled n t
  ChildStep-Controlled {i} lt (notify at) inv =
      child-Control i _ _ _ lt (λ e. cc) (rw at (omega arith)) (rw at refl) (rw at refl) inv
  ChildStep-Controlled {i} lt (begin at free) inv =
      child-Control i _ _ _ lt (λ e. cc) (rw at refl) (rw at (omega arith)) (rw at refl) inv
  ChildStep-Controlled {i} lt (create at lj) inv =
      child-Control i _ _ _ lt (λ e. cc) (rw at refl) (rw at refl) (rw at refl) inv
  ChildStep-Controlled {i} lt (all_created at ge) inv =
      child-Control i _ _ _ lt (λ e. cc) (rw at refl) (rw at refl) (rw at refl) inv
  ChildStep-Controlled {i} lt (join at lj done) inv =
      child-Control i _ _ _ lt (λ e. cc) (rw at refl) (rw at refl) (rw at refl) inv
  ChildStep-Controlled {i} lt (all_joined at ge) inv =
      child-Control i _ _ _ lt (λ e. cc) (rw at refl) (rw at refl) (rw at refl) inv
  ChildStep-Controlled {i} lt (go_on at no_end) inv =
      child-Control i _ _ _ lt (λ e. cc) (rw at refl) (rw at refl) (rw at refl) inv
  ChildStep-Controlled {i} lt (stop at end) inv =
      child-Control i _ _ _ lt (λ e. cc) (rw at refl) (rw at refl) (rw at refl) inv

  pub ThreadStep-Controlled :
      {i j : ℕ} {s t : System} → ThreadStep s i j t → Controlled n s → Controlled n t
  ThreadStep-Controlled (enter at free) inv = inv
  ThreadStep-Controlled (write at) inv = inv
  ThreadStep-Controlled (write_fails file at) inv = broken-Control inv
  ThreadStep-Controlled (leave at) inv = inv
