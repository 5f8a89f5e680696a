-- ===== src/ChatFifo/Calls.antt =====
-- The calls mkfifo() and open() of the two processes, and that each that finds what it needs goes
-- on.
use c_teaching.Prelude.{ℕ, ◌+◌, ◌<◌, ◌≡◌, refl, Bool, true, false, Bool-cases, ◌⊎◌, inl, inr, arith}
use c_teaching.ChatFifo.Roles.{Role, accept_side, connect_side, other, put, put_end}
use c_teaching.ChatFifo.{
  Phase, making, opening, Opened, unopened, waiting, open_end, System, after_opening, has_opened,
  Step,
}
use c_teaching.ChatFifo.Opening.{is_failed, calling, at-Stand}
use c_teaching.ChatFifo.Names.{at-Names, Names, Inv}

-- The calls that a process has still to make, or to return from, before it has opened both FIFOs.
abbrev pub calls_left : Phase → Opened → Opened → ℕ
calls_left (making accept_side) a b = 6
calls_left (making connect_side) a b = 5
calls_left (opening accept_side) waiting b = 3
calls_left (opening accept_side) a b = 4
calls_left (opening connect_side) a waiting = 1
calls_left (opening connect_side) a b = 2
calls_left _ a b = 0

abbrev pub left : System → Role → ℕ
left s r = calls_left (s.phases r) (s.ends accept_side r) (s.ends connect_side r)

abbrev pub all_left : System → ℕ
all_left s = left s accept_side + left s connect_side

pub record Running (s : System) : Type 0 where
  pub accepts : is_failed (s.phases accept_side) ≡ false
  pub connects : is_failed (s.phases connect_side) ≡ false

pub record Goes (s : System) : Type 0 where
  pub next : System
  pub step : Step s next
  pub fewer : all_left next < all_left s
  pub running : Running next

pub calling-cases : (a : Opened) → calling a ≡ true → (a ≡ unopened) ⊎ (a ≡ waiting)
calling-cases unopened h = inl refl
calling-cases waiting h = inr refl
calling-cases open_end h = cc
calling-cases Opened.closed_end h = cc

-- A FIFO that is there.
pub at-name :
    (s : System) (f g : Role)
    → s.phases accept_side ≡ opening g
    → Names s
    → (s.fifos f).named ≡ true
at-name s accept_side g at h = (at-Names s at h).0
at-name s connect_side g at h = (at-Names s at h).1

pub make-Goes :
    (s : System) (f : Role) → s.phases accept_side ≡ making f → Inv s → Running s → Goes s
make-Goes s accept_side at h run = record {
  next = _;
  step = Step.make accept_side at (at-Names s at h.names).0;
  fewer = rw at (ground arith);
  running = record { accepts = refl; connects = run.connects };
}
make-Goes s connect_side at h run = record {
  next = _;
  step = Step.make connect_side at (at-Names s at h.names).1;
  fewer = rw at (ground arith);
  running = record { accepts = refl; connects = run.connects };
}

call-Goes :
    (s : System) (r f : Role)
    → s.phases r ≡ opening f
    → s.ends f r ≡ unopened
    → (s.fifos f).named ≡ true
    → Running s
    → Goes s
call-Goes s r f at un named run = record {
  next = _;
  step = Step.call_open r f at un named;
  fewer = fewer r f at un;
  running = record { accepts = run.accepts; connects = run.connects };
}
  where
    fewer :
        (r f : Role)
        → s.phases r ≡ opening f
        → s.ends f r ≡ unopened
        → all_left (record s { ends = put_end s.ends f r waiting }) < all_left s
    fewer accept_side accept_side at un = rw at (rw un (ground arith))
    fewer accept_side connect_side at un = rw at (rw un (ground arith))
    fewer connect_side accept_side at un = rw at (rw un (ground arith))
    fewer connect_side connect_side at un = rw at (rw un (ground arith))

pub return-Goes :
    (s : System) (r f : Role)
    → s.phases r ≡ opening f
    → s.ends f r ≡ waiting
    → has_opened (s.ends f (other r)) ≡ true
    → Inv s
    → Running s
    → Goes s
return-Goes s r f at wait met h run = record {
  next = _;
  step = Step.return_open r f at wait met;
  fewer = fewer r f at wait;
  running = running r f;
}
  where
    fewer :
        (r f : Role)
        → s.phases r ≡ opening f
        → s.ends f r ≡ waiting
        → all_left (record s {
          phases = put s.phases r (after_opening f);
          ends = put_end s.ends f r open_end;
        })
          < all_left s
    fewer accept_side accept_side at wait =
        rw at (rw wait (rw (at-Stand s accept_side at h.stands).1 (ground arith)))
    fewer accept_side connect_side at wait = rw at (rw wait (ground arith))
    fewer connect_side accept_side at wait =
        rw at (rw wait (rw (at-Stand s connect_side at h.stands).1 (ground arith)))
    fewer connect_side connect_side at wait = rw at (rw wait (ground arith))

    running :
        (r f : Role)
        → Running (record s {
          phases = put s.phases r (after_opening f);
          ends = put_end s.ends f r open_end;
        })
    running accept_side accept_side = record { accepts = refl; connects = run.connects }
    running accept_side connect_side = record { accepts = refl; connects = run.connects }
    running connect_side accept_side = record { accepts = run.accepts; connects = refl }
    running connect_side connect_side = record { accepts = run.accepts; connects = refl }

pub no_clash : {b : Bool} → b ≡ false → b ≡ true → ⊥
no_clash is_false is_true = cc

-- A process in an open() that the other has not called.
pub record Waits (s : System) (r f : Role) : Type 0 where
  pub at : s.phases r ≡ opening f
  pub here : s.ends f r ≡ waiting
  pub alone : has_opened (s.ends f (other r)) ≡ false

-- A process at open() goes on, when the name is there, or waits.
pub open-Goes :
    (s : System) (r f : Role)
    → s.phases r ≡ opening f
    → calling (s.ends f r) ≡ true
    → (s.fifos f).named ≡ true
    → Inv s
    → Running s
    → Goes s ⊎ Waits s r f
open-Goes s r f at call named h run = elim (calling-cases (s.ends f r) call) [
  | inl un ↦ inl (call-Goes s r f at un named run)
  | inr wait ↦ elim (Bool-cases (has_opened (s.ends f (other r)))) [
    | inl met ↦ inl (return-Goes s r f at wait met h run)
    | inr alone ↦ inr (record { at = at; here = wait; alone = alone })
  ]
]
