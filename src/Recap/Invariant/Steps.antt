-- ===== src/Recap/Invariant/Steps.antt =====
-- Every step of riepilogo.c keeps the invariant of the threads.
use c_teaching.Prelude.{ℕ, suc, ◌<◌, ◌≡◌, refl, arith, ℕ_discrete}
use c_teaching.Recap.System.{
  System, Child, Thread, MainStep, ChildStep, ThreadStep, fork, all_forked, collect, all_ready,
  release, all_released, end_activities, reap, reap_killed, all_reaped, notify, begin, create,
  all_created, join, all_joined, go_on, stop, enter, write, write_fails, leave,
}
use c_teaching.Recap.Invariant.Control.{Controlled}
use c_teaching.Recap.Invariant.Work.{
  Working, Round, child-Work, create-Work, all_joined-Work, thread-Work, write-Work,
}

module _ {n m : ℕ} where
  pub MainStep-Working :
      {s t : System} → MainStep n s t → Controlled n s → Working n m s → Working n m t
  MainStep-Working (fork {i} at lt) control inv =
      child-Work inv i lt Child.notifying (λ r. rw (control.not_yet i at i (omega arith)) at r)
  MainStep-Working (all_forked at ge) control inv = inv
  MainStep-Working (collect at lt free) control inv = inv
  MainStep-Working (all_ready at ge) control inv = inv
  MainStep-Working (release at lt) control inv = inv
  MainStep-Working (all_released at ge) control inv = inv
  MainStep-Working (end_activities at) control inv = inv
  MainStep-Working (reap c at lt lc there) control inv =
      child-Work inv c lc Child.reaped (λ r. rw there at r)
  MainStep-Working (reap_killed c at lt lc there) control inv = inv
  MainStep-Working (all_reaped at ge) control inv = inv

  pub ChildStep-Working :
      {i : ℕ} {s t : System} → i < n → ChildStep m s i t → Working n m s → Working n m t
  ChildStep-Working {i} lt (notify at) inv = child-Work inv i lt Child.waiting (λ r. rw at at r)
  ChildStep-Working {i} lt (begin at free) inv =
      child-Work inv i lt (Child.creating 0) (λ r. (omega arith, λ k ge. (rw at at r) k))
  ChildStep-Working {i} lt (create {j} at lj) inv = create-Work inv i lt j at lj
  ChildStep-Working {i} lt (all_created at ge) inv =
      child-Work inv i lt (Child.joining 0) (λ r. (omega arith, λ k below. absurd (omega arith)))
  ChildStep-Working {i} lt (join {j} at lj done) inv =
      child-Work inv i lt (Child.joining (suc j)) (λ r. (omega arith, joined (rw at at r) done))
    where
      joined :
          {ts : ℕ → Thread}
          → Round m (Child.joining j) ts
          → ts j ≡ Thread.finished
          → (k : ℕ) → k < suc j
          → ts k ≡ Thread.finished
      joined r done k below = elim (ℕ_discrete k j) [
        | yes e ↦ rw e done
        | no ne ↦ r.1 k (omega arith)
      ]
  ChildStep-Working {i} lt (all_joined {j} at ge) inv = all_joined-Work inv i lt j at ge
  ChildStep-Working {i} lt (go_on at no_end) inv =
      child-Work inv i lt (Child.creating 0) (λ r. (omega arith, λ k ge. (rw at at r) k))
  ChildStep-Working {i} lt (stop at end) inv = child-Work inv i lt Child.ended (λ r. rw at at r)

  pub ThreadStep-Working :
      {i j : ℕ} {s t : System} → i < n → j < m → ThreadStep s i j t → Working n m s → Working n m t
  ThreadStep-Working {i} {j} li lj (enter at free) inv =
      thread-Work inv i li j _ Thread.writing lj (λ e. cc) (λ e. cc) (rw at (omega arith))
        (rw at refl)
  ThreadStep-Working {i} {j} li lj (write at) inv = write-Work inv i li j lj at
  ThreadStep-Working {i} {j} li lj (write_fails file at) inv = write-Work inv i li j lj at
  ThreadStep-Working {i} {j} li lj (leave at) inv =
      thread-Work inv i li j _ Thread.finished lj (λ e. cc) (λ e. cc) (rw at (omega arith))
        (rw at refl)
