-- ===== src/Logger/Run.antt =====
-- The runs of the Logger beside the server and the signals.
use c_teaching.Prelude.{
  ℕ, ◌≤◌, ◌≡◌, refl, ◌==◌, Bool-cases, inl, inr, length, true, false, List, ◌++◌,
}
use c_teaching.Sys.{eintr, Answer, ok, fail}
use c_teaching.Logger.{buf_size, Pc, reading, writing, ended, failed, State, step}

-- What POSIX allows: read() gives at most what is asked for and what the pipe has, and 0 only when
-- the pipe is empty and no process has it open for writing; write() takes at most what it is given.
abbrev pub Possible : State → Pc → Answer → Type 0
Possible s reading (ok n) =
    (n ≤ buf_size) × (n ≤ length s.pipe) × (n ≡ 0 → (length s.pipe ≡ 0) × (s.writers ≡ false))
Possible s (writing written left) (ok n) = n ≤ left
Possible s ended a = ⊥
Possible s failed a = ⊥
Possible s pc a = Unit {0}

-- The states that follow a given one: at any time the server may write to the pipe or close it,
-- and a signal may come.
pub data Reach (s₀ : State) (pc₀ : Pc) : State → Pc → Type 0 where
  here : Reach s₀ pc₀ s₀ pc₀
  answered :
      {s : State} {pc : Pc} (a : Answer)
      → Reach s₀ pc₀ s pc
      → Possible s pc a
      → Reach s₀ pc₀ (step s pc a).0 (step s pc a).1
  signalled :
      {s : State} {pc : Pc} → Reach s₀ pc₀ s pc → Reach s₀ pc₀ (record s { should_stop = true }) pc
  served_bytes :
      {s : State} {pc : Pc} (bs : List ℕ)
      → Reach s₀ pc₀ s pc
      → s.writers ≡ true
      → Reach s₀ pc₀ (record s { pipe = s.pipe ++ bs; served = s.served ++ bs }) pc
  hung_up :
      {s : State} {pc : Pc} → Reach s₀ pc₀ s pc → Reach s₀ pc₀ (record s { writers = false }) pc

-- The server's bytes and its end of the pipe are not the Logger's to change.
pub step_keeps :
    (s : State) (pc : Pc) (a : Answer)
    → ((step s pc a).0.served ≡ s.served) × ((step s pc a).0.writers ≡ s.writers)
unfolding step
step_keeps s reading (ok n) = elim (Bool-cases (n == 0)) [
  | inl eof ↦ rw eof (refl, refl)
  | inr got ↦ rw got (refl, refl)
]
step_keeps s reading (fail eintr) = (refl, refl)
step_keeps s reading (fail e) = (refl, refl)
step_keeps s (writing written left) (ok n) = (refl, refl)
step_keeps s (writing written left) (fail eintr) = (refl, refl)
step_keeps s (writing written left) (fail e) = (refl, refl)
step_keeps s Pc.closing_log (ok n) = (refl, refl)
step_keeps s Pc.closing_log (fail e) = (refl, refl)
step_keeps s Pc.closing_pipe a = (refl, refl)
step_keeps s ended a = (refl, refl)
step_keeps s failed a = (refl, refl)
