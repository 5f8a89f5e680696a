-- ===== src/ChatFifo/Start.antt =====
-- The mkfifo() and open() calls at the beginning of listenOnFIFO() and connectOnFIFO(): while
-- neither process fails, one of the calls can always go on until both have opened both FIFOs.
use c_teaching.Prelude.{
  ℕ, zero, suc, ◌≤◌, ◌≡◌, refl, ap, Bool, true, false, not, ◌||◌, ◌⊎◌, inl, inr, arith,
}
use c_teaching.ChatFifo.Roles.{Role, accept_side, connect_side}
use c_teaching.ChatFifo.{Phase, making, opening, System, has_opened, Step, Reach}
use c_teaching.ChatFifo.Opening.{
  is_failed, past_opening, is_making, calling, Stands, at-Stand, past-Stand,
}
use c_teaching.ChatFifo.Calls.{
  all_left, Running, Goes, Waits, calling-cases, at-name, make-Goes, return-Goes, open-Goes,
  no_clash,
}
use c_teaching.ChatFifo.Names.{Inv, step-Inv, reach-Inv}

-- The two open the FIFOs in the same order.
both_wait :
    (s : System) (f g : Role) → Stands s → Waits s accept_side f → Waits s connect_side g → ⊥
both_wait s accept_side accept_side h a c = no_clash (a.alone) (ap has_opened c.here)
both_wait s accept_side connect_side h a c =
    no_clash a.alone (ap has_opened (at-Stand s connect_side c.at h).0)
both_wait s connect_side accept_side h a c =
    no_clash c.alone (ap has_opened (at-Stand s accept_side a.at h).0)
both_wait s connect_side connect_side h a c = no_clash a.alone (ap has_opened c.here)

-- The process is past its open() calls or at one of them.
at_open :
    (p : Phase)
    → is_making p ≡ false
    → is_failed p ≡ false
    → (past_opening p ≡ true) ⊎ ((f : Role) × (p ≡ opening f))
at_open (making f) m h = cc
at_open (opening f) m h = inr (f, refl)
at_open Phase.failed m h = cc
at_open p m h = inl refl

abbrev Past : System → Type 0
Past s =
    (past_opening (s.phases accept_side) ≡ true) × (past_opening (s.phases connect_side) ≡ true)

at-calling :
    (s : System) (r f : Role) → s.phases r ≡ opening f → Stands s → calling (s.ends f r) ≡ true
at-calling s r accept_side at h = (at-Stand s r at h).0
at-calling s r connect_side at h = (at-Stand s r at h).1

-- The connecting process, when the other waits.
connect-Goes : (s : System) (f : Role) → Waits s accept_side f → Inv s → Running s → Goes s
connect-Goes s f a h run = elim (at_open (s.phases connect_side) h.connects run.connects) [
  | inl past ↦ absurd (opened_there f a (past-Stand _ _ _ past (h.stands connect_side)))
  | inr (g, at) ↦
      elim (open-Goes s connect_side g at (at-calling s connect_side g at h.stands)
        (at-name s g f a.at h.names) h run) [
          | inl goes ↦ goes
          | inr c ↦ absurd (both_wait s f g h.stands a c)
        ]
]
  where
    opened_there :
        (f : Role)
        → Waits s accept_side f
        → (has_opened (s.ends accept_side connect_side) ≡ true)
          × (has_opened (s.ends connect_side connect_side) ≡ true)
        → ⊥
    opened_there accept_side a both = no_clash a.alone both.0
    opened_there connect_side a both = no_clash a.alone both.1

meet_lem :
    (c a opened : Bool) → c ≡ false → a ≡ true → (c || (not a || opened)) ≡ true → opened ≡ true
meet_lem true a opened c_false a_true h = cc
meet_lem false false opened c_false a_true h = cc
meet_lem false true opened c_false a_true h = h

opened :
    (s : System)
    → past_opening (s.phases accept_side) ≡ true
    → Inv s
    → Running s
    → has_opened (s.ends connect_side connect_side) ≡ true
opened s past h run = meet_lem _ _ _ run.connects past h.meet

-- The connecting process, when the other is past its open() calls.
last-Goes :
    (s : System) (g : Role)
    → past_opening (s.phases accept_side) ≡ true
    → s.phases connect_side ≡ opening g
    → Inv s
    → Running s
    → Goes s
last-Goes s accept_side past at h run =
    absurd (no_clash (ap has_opened (at-Stand s connect_side at h.stands).1) (opened s past h run))
last-Goes s connect_side past at h run =
    elim (calling-cases _ (at-calling s connect_side connect_side at h.stands)) [
      | inl un ↦ absurd (no_clash (ap has_opened un) (opened s past h run))
      | inr wait ↦
          return-Goes s connect_side connect_side at wait
            (past-Stand _ _ _ past (h.stands accept_side)).1 h run
    ]

at_making : (p : Phase) → ((f : Role) × (p ≡ making f)) ⊎ (is_making p ≡ false)
at_making (making f) = inl (f, refl)
at_making p = inr refl

goes : (s : System) → Inv s → Running s → Past s ⊎ Goes s
goes s h run = elim (at_making (s.phases accept_side)) [
  | inl (f, at) ↦ inr (make-Goes s f at h run)
  | inr made ↦ elim (at_open (s.phases accept_side) made run.accepts) [
    | inr (f, at) ↦
        inr
          (elim (open-Goes s accept_side f at (at-calling s accept_side f at h.stands)
            (at-name s f f at h.names) h run) [
              | inl moved ↦ moved
              | inr waits ↦ connect-Goes s f waits h run
            ])
    | inl past ↦ elim (at_open (s.phases connect_side) h.connects run.connects) [
      | inl both ↦ inl (past, both)
      | inr (g, at) ↦ inr (last-Goes s g past at h run)
    ]
  ]
]

pub data Steps : System → System → Type 0 where
  stay : {s : System} → Steps s s
  step_then : {s t u : System} → Step s t → Steps t u → Steps s u

starts :
    (n : ℕ) (s : System) → all_left s ≤ n → Inv s → Running s → (t : System) × Steps s t × Past t
starts zero s bound h run = elim (goes s h run) [
  | inl past ↦ (s, stay, past)
  | inr on ↦ absurd (ground (arith, on.fewer, bound))
]
starts (suc n) s bound h run = elim (goes s h run) [
  | inl past ↦ (s, stay, past)
  | inr on ↦
      let (t, steps, past) =
        starts n on.next (ground (arith, on.fewer, bound)) (step-Inv on.step h) on.running in
      (t, step_then on.step steps, past)
]

-- From every reachable state in which neither process has failed, there are steps to one in which
-- both have opened both FIFOs: in mkfifo() and open() the two never wait for each other.
pub session_starts :
    {s : System}
    → Reach s
    → is_failed (s.phases accept_side) ≡ false
    → is_failed (s.phases connect_side) ≡ false
    → (t : System) × Steps s t
      × (past_opening (t.phases accept_side) ≡ true)
      × (past_opening (t.phases connect_side) ≡ true)
session_starts {s} run accepts connects =
    let (t, steps, past) =
      starts (all_left s) s (ground arith) (reach-Inv run)
        (record { accepts = accepts; connects = connects }) in
    (t, steps, past.0, past.1)
