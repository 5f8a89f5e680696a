-- ===== src/ChatFifo/Opening.antt =====
-- How far the two processes have got in mkfifo() and open(), and which ends and names they find.
use c_teaching.Prelude.{◌≡◌, refl, ap, subst, Bool, true, false}
use c_teaching.ChatFifo.Roles.{Role, accept_side, connect_side, other, put, put_end, put-both}
use c_teaching.ChatFifo.{
  Phase, making, opening, Opened, unopened, waiting, open_end, closed_end, System, closing_recv,
  after_opening, after_closing, has_opened, abandon, Step,
}

abbrev pub is_failed : Phase → Bool
is_failed Phase.failed = true
is_failed _ = false

-- The open() calls are done.
abbrev pub past_opening : Phase → Bool
past_opening (making f) = false
past_opening (opening f) = false
past_opening Phase.failed = false
past_opening _ = true

abbrev pub is_making : Phase → Bool
is_making (making f) = true
is_making _ = false

abbrev pub calling : Opened → Bool
calling unopened = true
calling waiting = true
calling _ = false

-- The ends that a process has, of the FIFO of each role.
abbrev pub Stand : Phase → Opened → Opened → Type 0
Stand (making f) a b = (a ≡ unopened) × (b ≡ unopened)
Stand (opening accept_side) a b = (calling a ≡ true) × (b ≡ unopened)
Stand (opening connect_side) a b = (a ≡ open_end) × (calling b ≡ true)
Stand Phase.failed a b = Unit {0}
Stand _ a b = (has_opened a ≡ true) × (has_opened b ≡ true)

abbrev pub Stands : System → Type 0
Stands s = (r : Role) → Stand (s.phases r) (s.ends accept_side r) (s.ends connect_side r)

pub past-Stand :
    (p : Phase) (a b : Opened)
    → past_opening p ≡ true
    → Stand p a b
    → (has_opened a ≡ true) × (has_opened b ≡ true)
past-Stand (making f) a b past h = cc
past-Stand (opening f) a b past h = cc
past-Stand Phase.failed a b past h = cc
past-Stand p a b past h = h

-- After a step of the process `r` that leaves its ends as they are.
phase-Stands :
    (s : System) (r : Role) (p : Phase)
    → Stand p (s.ends accept_side r) (s.ends connect_side r)
    → Stands s
    → (q : Role) → Stand (put s.phases r p q) (s.ends accept_side q) (s.ends connect_side q)
phase-Stands s r p one h =
    put-both (λ q p _. Stand p (s.ends accept_side q) (s.ends connect_side q)) s.phases s.phases r p
      p one h

-- After one that moves its end of the FIFO of `f`.
end-Stands :
    (s : System) (f r : Role) (p : Phase) (new : Opened)
    → let ends = put_end s.ends f r new in
      Stand p (ends accept_side r) (ends connect_side r)
      → Stands s
      → (q : Role) → Stand (put s.phases r p q) (ends accept_side q) (ends connect_side q)
end-Stands s accept_side accept_side p new one h accept_side = one
end-Stands s accept_side accept_side p new one h connect_side = h connect_side
end-Stands s accept_side connect_side p new one h accept_side = h accept_side
end-Stands s accept_side connect_side p new one h connect_side = one
end-Stands s connect_side accept_side p new one h accept_side = one
end-Stands s connect_side accept_side p new one h connect_side = h connect_side
end-Stands s connect_side connect_side p new one h accept_side = h accept_side
end-Stands s connect_side connect_side p new one h connect_side = one

put_self : {A : Type 0} (xs : Role → A) (r q : Role) → put xs r (xs r) q ≡ xs q
put_self xs accept_side accept_side = refl
put_self xs accept_side connect_side = refl
put_self xs connect_side accept_side = refl
put_self xs connect_side connect_side = refl

put-own : {A : Type 0} (xs : Role → A) (r : Role) (new : A) → put xs r new r ≡ new
put-own xs accept_side new = refl
put-own xs connect_side new = refl

-- The phase that the step keeps is the process's own.
kept-Stands :
    (s : System) (ends : Role → Role → Opened) (r : Role)
    → ((q : Role)
        → Stand (put s.phases r (s.phases r) q) (ends accept_side q) (ends connect_side q))
    → Stands (record s { ends = ends })
kept-Stands s ends r h q =
    subst (λ p. Stand p (ends accept_side q) (ends connect_side q)) (put_self s.phases r q) (h q)

pub at-Stand :
    (s : System) (r : Role) {p : Phase}
    → s.phases r ≡ p
    → Stands s
    → Stand p (s.ends accept_side r) (s.ends connect_side r)
at-Stand s r at h = subst (λ p. Stand p (s.ends accept_side r) (s.ends connect_side r)) at (h r)

-- open() is called.
call-Stands :
    (s : System) (r f : Role)
    → s.phases r ≡ opening f
    → Stands s
    → Stands (record s { ends = put_end s.ends f r waiting })
call-Stands s r f at h =
    kept-Stands s (put_end s.ends f r waiting) r
      (end-Stands s f r (s.phases r) waiting (called f at) h)
  where
    called :
        (f : Role)
        → s.phases r ≡ opening f
        → let ends = put_end s.ends f r waiting in
          Stand (s.phases r) (ends accept_side r) (ends connect_side r)
    called accept_side at =
        rw (put-own (s.ends accept_side) r waiting) (rw at (refl, (at-Stand s r at h).1))
    called connect_side at =
        rw (put-own (s.ends connect_side) r waiting) (rw at ((at-Stand s r at h).0, refl))

-- open() returns.
return-Stands :
    (s : System) (r f : Role)
    → s.phases r ≡ opening f
    → Stands s
    → Stands
        (record s { phases = put s.phases r (after_opening f); ends = put_end s.ends f r open_end })
return-Stands s r f at h = end-Stands s f r (after_opening f) open_end (opened f at) h
  where
    opened :
        (f : Role)
        → s.phases r ≡ opening f
        → let ends = put_end s.ends f r open_end in
          Stand (after_opening f) (ends accept_side r) (ends connect_side r)
    opened accept_side at =
        rw (put-own (s.ends accept_side) r open_end) (refl, ap calling (at-Stand s r at h).1)
    opened connect_side at =
        rw (put-own (s.ends connect_side) r open_end) (ap has_opened (at-Stand s r at h).0, refl)

-- close()
close-Stands :
    (s : System) (r f : Role) (p q : Phase)
    → s.phases r ≡ p
    → past_opening p ≡ true
    → ((a b : Opened) → (has_opened a ≡ true) × (has_opened b ≡ true) → Stand q a b)
    → Stands s
    → Stands (record s { phases = put s.phases r q; ends = put_end s.ends f r closed_end })
close-Stands s r f p q at past enter h = end-Stands s f r q closed_end (enter _ _ (closed f)) h
  where
    both : (has_opened (s.ends accept_side r) ≡ true) × (has_opened (s.ends connect_side r) ≡ true)
    both = past-Stand p _ _ past (at-Stand s r at h)

    closed :
        (f : Role)
        → let ends = put_end s.ends f r closed_end in
          (has_opened (ends accept_side r) ≡ true) × (has_opened (ends connect_side r) ≡ true)
    closed accept_side = rw (put-own (s.ends accept_side) r closed_end) (refl, both.1)
    closed connect_side = rw (put-own (s.ends connect_side) r closed_end) (both.0, refl)

fail-Stands :
    (s : System) (r q : Role)
    → Stands s
    → Stand
        (put s.phases r Phase.failed q)
        (put (s.ends accept_side) r (abandon (s.ends accept_side r)) q)
        (put (s.ends connect_side) r (abandon (s.ends connect_side r)) q)
fail-Stands s accept_side accept_side h = tt
fail-Stands s accept_side connect_side h = h connect_side
fail-Stands s connect_side accept_side h = h accept_side
fail-Stands s connect_side connect_side h = tt

after_closing-Stand :
    (r : Role) (a b : Opened)
    → (has_opened a ≡ true) × (has_opened b ≡ true)
    → Stand (after_closing r) a b
after_closing-Stand accept_side a b h = h
after_closing-Stand connect_side a b h = h

pub step-Stands : {s t : System} → Step s t → Stands s → Stands t
step-Stands {s} (Step.make accept_side at new) h =
    phase-Stands s accept_side _ (at-Stand s accept_side at h) h
step-Stands {s} (Step.make connect_side at new) h =
    let made = at-Stand s accept_side at h in
    phase-Stands s accept_side _ (ap calling made.0, made.1) h
step-Stands {s} (Step.call_open r f at un named) h = call-Stands s r f at h
step-Stands {s} (Step.return_open r f at wait met) h = return-Stands s r f at h
step-Stands {s} (Step.join_receiver r at end) h = phase-Stands s r _ (at-Stand s r at h) h
step-Stands {s} (Step.join_sender r at end) h = phase-Stands s r _ (at-Stand s r at h) h
step-Stands {s} (Step.close_send r at) h =
    close-Stands s r (other r) _ closing_recv at refl (λ _ _ both. both) h
step-Stands {s} (Step.close_recv r at) h =
    close-Stands s r r _ (after_closing r) at refl (after_closing-Stand r) h
step-Stands {s} (Step.unlink accept_side at) h =
    phase-Stands s accept_side _ (at-Stand s accept_side at h) h
step-Stands {s} (Step.unlink connect_side at) h =
    phase-Stands s accept_side _ (at-Stand s accept_side at h) h
step-Stands {s} (Step.fail r run) h = λ q. fail-Stands s r q h
step-Stands step h = h
