-- ===== src/Copy/Run.antt =====
-- The runs of the copy loop: what the system may answer, and the states that follow.
use c_teaching.Prelude.{ℕ, suc, ◌≤◌, ◌≡◌, ◌==◌, length, Bool, true, false, List}
use c_teaching.Sys.{eintr, Answer, ok, fail}
use c_teaching.Copy.{Pc, reading, writing, State, step, fresh}

-- What POSIX allows: read() on a regular file gives at most what was asked for and what is left,
-- and 0 only at the end of the file; write() takes at most what it is given; after the loop there
-- is no call.
abbrev pub Possible : State → Pc → Answer → Type 0
Possible s (reading left) (fail e) = Unit {0}
Possible s (reading left) (ok n) =
    (n ≤ left) × (n ≤ length s.source) × (n ≡ 0 → length s.source ≡ 0)
Possible s (writing written left) (fail e) = Unit {0}
Possible s (writing written left) (ok n) = n ≤ left
Possible s _ _ = ⊥

-- The call was interrupted before it moved a byte, or write() took none.
abbrev pub stalls : Pc → Answer → Bool
stalls pc (fail eintr) = true
stalls (writing _ _) (ok n) = n == 0
stalls _ _ = false

-- The states reached with blocks of `block` bytes from a source of bytes `content` and a
-- destination that held `held`, and how many answers on the way have not stalled.
pub data Reach (block : ℕ) (content held : List ℕ) : State → Pc → ℕ → Type 0 where
  start : Reach block content held (fresh block content held) (reading block) 0
  stalled :
      {s : State} {pc : Pc} {k : ℕ} (a : Answer)
      → Reach block content held s pc k
      → Possible s pc a
      → stalls pc a ≡ true
      → Reach block content held (step s pc a).0 (step s pc a).1 k
  moved :
      {s : State} {pc : Pc} {k : ℕ} (a : Answer)
      → Reach block content held s pc k
      → Possible s pc a
      → stalls pc a ≡ false
      → Reach block content held (step s pc a).0 (step s pc a).1 (suc k)
