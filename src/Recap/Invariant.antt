-- ===== src/Recap/Invariant.antt =====
-- What holds in every reachable state of riepilogo.c.
mod Health
mod Control
mod Work
mod Steps
pub use Control.*
pub use Work.*
use Health.{
  Healthy, init-Healthy, broken-Health, MainStep-Healthy, ChildStep-Healthy, ThreadStep-Healthy,
}
use Steps.{MainStep-Working, ChildStep-Working, ThreadStep-Working}
use c_teaching.Prelude.{ℕ}
use c_teaching.Recap.System.{
  System, Reach, here, by_main, by_child, by_thread, main_fails, child_fails,
}

module _ {n m : ℕ} where
  pub Reach-Healthy : {s : System} → Reach n m s → Healthy s
  Reach-Healthy here = init-Healthy
  Reach-Healthy (by_main r st up) = MainStep-Healthy st (Reach-Healthy r)
  Reach-Healthy (by_child i r lt st up) = ChildStep-Healthy st (Reach-Healthy r)
  Reach-Healthy (by_thread i j r li lj st up) = ThreadStep-Healthy st (Reach-Healthy r)
  Reach-Healthy (main_fails {s} r up) = broken-Health s.life s.file s.accesses
  Reach-Healthy (child_fails {s} i r lt up going) = broken-Health _ s.file s.accesses

  pub Reach-Controlled : {s : System} → Reach n m s → Controlled n s
  Reach-Controlled here = init-Controlled n
  Reach-Controlled (by_main r st up) =
      MainStep-Controlled st (Reach-Healthy r).living (Reach-Controlled r)
  Reach-Controlled (by_child i r lt st up) = ChildStep-Controlled lt st (Reach-Controlled r)
  Reach-Controlled (by_thread i j r li lj st up) = ThreadStep-Controlled st (Reach-Controlled r)
  Reach-Controlled (main_fails r up) = broken-Control (Reach-Controlled r)
  Reach-Controlled (child_fails i r lt up going) = broken-Control (Reach-Controlled r)

  pub Reach-Working : {s : System} → Reach n m s → Working n m s
  Reach-Working here = init-Working n m
  Reach-Working (by_main r st up) = MainStep-Working st (Reach-Controlled r) (Reach-Working r)
  Reach-Working (by_child i r lt st up) = ChildStep-Working lt st (Reach-Working r)
  Reach-Working (by_thread i j r li lj st up) = ThreadStep-Working li lj st (Reach-Working r)
  Reach-Working (main_fails r up) = Reach-Working r
  Reach-Working (child_fails i r lt up going) = Reach-Working r
