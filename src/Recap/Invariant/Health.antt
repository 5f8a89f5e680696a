-- ===== src/Recap/Invariant/Health.antt =====
-- A run of riepilogo.c in which no call fails and no process is killed.
use c_teaching.Prelude.{ℕ, ◌≡◌, refl, ap, sym, ◌∙◌, List, ◌∷◌, [], ◌++◌, Bool, true, false}
use c_teaching.Recap.System.{
  System, Life, init, MainStep, ChildStep, ThreadStep, fork, all_forked, collect, all_ready,
  release, all_released, end_activities, reap, reap_killed, all_reaped, notify, begin, create,
  all_created, join, all_joined, go_on, stop, enter, write, write_fails, leave,
}

-- Nobody has been killed, and every write() has appended its int.
pub record Health (broken : Bool) (life : ℕ → Life) (file accesses : List ℕ) : Type 0 where
  pub living : (c : ℕ) → broken ≡ false → life c ≡ Life.alive
  pub filed : broken ≡ false → file ≡ accesses

abbrev pub Healthy : System → Type 0
Healthy s = Health s.broken s.life s.file s.accesses

pub init-Healthy : Healthy init
init-Healthy = record { living = λ c ok. refl; filed = λ ok. refl }

-- Nothing is said after a failure.
pub broken-Health : (life : ℕ → Life) (file accesses : List ℕ) → Health true life file accesses
broken-Health life file accesses = record { living = λ c ok. cc; filed = λ ok. cc }

pub killed-alive : Life.killed ≡ Life.alive → ⊥
killed-alive e = cc

pub MainStep-Healthy : {n : ℕ} {s t : System} → MainStep n s t → Healthy s → Healthy t
MainStep-Healthy (reap_killed c at lt lc there) inv = record {
  living = λ k ok. absurd (killed-alive (sym there ∙ inv.living c ok));
  filed = inv.filed;
}
MainStep-Healthy (fork at lt) inv = inv
MainStep-Healthy (all_forked at ge) inv = inv
MainStep-Healthy (collect at lt free) inv = inv
MainStep-Healthy (all_ready at ge) inv = inv
MainStep-Healthy (release at lt) inv = inv
MainStep-Healthy (all_released at ge) inv = inv
MainStep-Healthy (end_activities at) inv = inv
MainStep-Healthy (reap c at lt lc there) inv = inv
MainStep-Healthy (all_reaped at ge) inv = inv

pub ChildStep-Healthy : {m i : ℕ} {s t : System} → ChildStep m s i t → Healthy s → Healthy t
ChildStep-Healthy (notify at) inv = inv
ChildStep-Healthy (begin at free) inv = inv
ChildStep-Healthy (create at lj) inv = inv
ChildStep-Healthy (all_created at ge) inv = inv
ChildStep-Healthy (join at lj done) inv = inv
ChildStep-Healthy (all_joined at ge) inv = inv
ChildStep-Healthy (go_on at no_end) inv = inv
ChildStep-Healthy (stop at end) inv = inv

pub ThreadStep-Healthy : {i j : ℕ} {s t : System} → ThreadStep s i j t → Healthy s → Healthy t
ThreadStep-Healthy {i} (write at) inv = record {
  living = inv.living;
  filed = λ ok. ap (λ xs. xs ++ i ∷ []) (inv.filed ok);
}
ThreadStep-Healthy (write_fails file at) inv = broken-Health _ file _
ThreadStep-Healthy (enter at free) inv = inv
ThreadStep-Healthy (leave at) inv = inv
