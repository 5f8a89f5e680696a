-- ===== src/ChatFifo/Names.antt =====
-- Which of the two FIFOs are in the file system while they are opened, that only the side that
-- accepts makes them, and that it does not get past its open() calls without the other process.
use c_teaching.Prelude.{or-true, ◌≡◌, ◌∙◌, refl, ap, subst, Bool, true, false, not, ◌||◌}
use c_teaching.ChatFifo.Roles.{accept_side, connect_side}
use c_teaching.ChatFifo.{
  Phase, making, opening, joining_receiver, joining_sender, closing_send, closing_recv, unlinking,
  ended, Opened, waiting, open_end, closed_end, System, has_opened, init, Step, Reach, here,
  then_step,
}
use c_teaching.ChatFifo.Opening.{is_failed, past_opening, is_making, Stands, step-Stands}

abbrev pub Named : Phase → Bool → Bool → Type 0
Named (making accept_side) a b = (a ≡ false) × (b ≡ false)
Named (making connect_side) a b = (a ≡ true) × (b ≡ false)
Named (opening f) a b = (a ≡ true) × (b ≡ true)
Named _ a b = Unit {0}

abbrev pub Names : System → Type 0
Names s = Named (s.phases accept_side) (s.fifos accept_side).named (s.fifos connect_side).named

pub at-Names :
    (s : System) {p : Phase}
    → s.phases accept_side ≡ p
    → Names s
    → Named p (s.fifos accept_side).named (s.fifos connect_side).named
at-Names s at h = subst (λ p. Named p (s.fifos accept_side).named (s.fifos connect_side).named) at h

step-Names : {s t : System} → Step s t → Names s → Names t
step-Names {s} (Step.make accept_side at new) h = (refl, (at-Names s at h).1)
step-Names {s} (Step.make connect_side at new) h = ((at-Names s at h).0, refl)
step-Names {s} (Step.call_open r f at un named) h = h
step-Names {s} (Step.return_open accept_side accept_side at wait met) h = at-Names s at h
step-Names {s} (Step.return_open accept_side connect_side at wait met) h = tt
step-Names {s} (Step.return_open connect_side f at wait met) h = h
step-Names {s} (Step.read_byte accept_side run at eq) h = h
step-Names {s} (Step.read_byte connect_side run at eq) h = h
step-Names {s} (Step.read_end r run at eq end) h = h
step-Names {s} (Step.receiver_moves r e run quiet) h = h
step-Names {s} (Step.write_bytes accept_side n run at fits reader) h = h
step-Names {s} (Step.write_bytes connect_side n run at fits reader) h = h
step-Names {s} (Step.sender_moves r e run quiet) h = h
step-Names {s} (Step.join_receiver accept_side at end) h = tt
step-Names {s} (Step.join_receiver connect_side at end) h = h
step-Names {s} (Step.join_sender accept_side at end) h = tt
step-Names {s} (Step.join_sender connect_side at end) h = h
step-Names {s} (Step.close_send accept_side at) h = tt
step-Names {s} (Step.close_send connect_side at) h = h
step-Names {s} (Step.close_recv accept_side at) h = tt
step-Names {s} (Step.close_recv connect_side at) h = h
step-Names {s} (Step.unlink accept_side at) h = tt
step-Names {s} (Step.unlink connect_side at) h = tt
step-Names {s} (Step.fail accept_side run) h = tt
step-Names {s} (Step.fail connect_side run) h = h

abbrev pub Connects : System → Type 0
Connects s = is_making (s.phases connect_side) ≡ false

step-Connects : {s t : System} → Step s t → Connects s → Connects t
step-Connects (Step.return_open accept_side f at wait met) h = h
step-Connects (Step.return_open connect_side accept_side at wait met) h = refl
step-Connects (Step.return_open connect_side connect_side at wait met) h = refl
step-Connects (Step.join_receiver accept_side at end) h = h
step-Connects (Step.join_receiver connect_side at end) h = refl
step-Connects (Step.join_sender accept_side at end) h = h
step-Connects (Step.join_sender connect_side at end) h = refl
step-Connects (Step.close_send accept_side at) h = h
step-Connects (Step.close_send connect_side at) h = refl
step-Connects (Step.close_recv accept_side at) h = h
step-Connects (Step.close_recv connect_side at) h = refl
step-Connects (Step.fail accept_side run) h = h
step-Connects (Step.fail connect_side run) h = refl
step-Connects step h = h

-- The connecting process has failed, or the other is not past its open() calls, or it has opened
-- the FIFO that it reads.
abbrev Met : Phase → Phase → Opened → Type 0
Met c a end = (is_failed c || (not (past_opening a) || has_opened end)) ≡ true

abbrev pub Meet : System → Type 0
Meet s = Met (s.phases connect_side) (s.phases accept_side) (s.ends connect_side connect_side)

-- It does not depend on more of the phases.
accept-Met :
    (s : System) {p : Phase} (q : Phase)
    → s.phases accept_side ≡ p
    → past_opening p ≡ past_opening q
    → Meet s
    → Met (s.phases connect_side) q (s.ends connect_side connect_side)
accept-Met s q at same h =
    subst
      (λ b.
        (is_failed (s.phases connect_side)
          || (not b || has_opened (s.ends connect_side connect_side)))
        ≡ true)
      (ap past_opening at ∙ same) h

connect-Met :
    (s : System) {p : Phase} (q : Phase)
    → s.phases connect_side ≡ p
    → is_failed p ≡ is_failed q
    → Meet s
    → Met q (s.phases accept_side) (s.ends connect_side connect_side)
connect-Met s q at same h =
    subst
      (λ b.
        (b
          || (not (past_opening (s.phases accept_side))
              || has_opened (s.ends connect_side connect_side)))
        ≡ true)
      (ap is_failed at ∙ same) h

-- The open() has been called.
opened-Met : (c a : Phase) (end : Opened) → has_opened end ≡ true → Met c a end
opened-Met c a end h = rw h (rw (or-true (not (past_opening a))) (or-true (is_failed c)))

step-Meet : {s t : System} → Step s t → Meet s → Meet t
step-Meet {s} (Step.make accept_side at new) h = or-true (is_failed (s.phases connect_side))
step-Meet {s} (Step.make connect_side at new) h = or-true (is_failed (s.phases connect_side))
step-Meet {s} (Step.call_open connect_side connect_side at un named) h =
    opened-Met (s.phases connect_side) (s.phases accept_side) waiting refl
step-Meet {s} (Step.call_open connect_side accept_side at un named) h = h
step-Meet {s} (Step.call_open accept_side connect_side at un named) h = h
step-Meet {s} (Step.call_open accept_side accept_side at un named) h = h
step-Meet {s} (Step.return_open accept_side accept_side at wait met) h =
    or-true (is_failed (s.phases connect_side))
step-Meet {s} (Step.return_open accept_side connect_side at wait met) h =
    opened-Met (s.phases connect_side) joining_receiver (s.ends connect_side connect_side) met
step-Meet {s} (Step.return_open connect_side accept_side at wait met) h =
    connect-Met s (opening connect_side) at refl h
step-Meet {s} (Step.return_open connect_side connect_side at wait met) h =
    opened-Met joining_receiver (s.phases accept_side) open_end refl
step-Meet {s} (Step.join_receiver accept_side at end) h = accept-Met s joining_sender at refl h
step-Meet {s} (Step.join_receiver connect_side at end) h = connect-Met s joining_sender at refl h
step-Meet {s} (Step.join_sender accept_side at end) h = accept-Met s closing_send at refl h
step-Meet {s} (Step.join_sender connect_side at end) h = connect-Met s closing_send at refl h
step-Meet {s} (Step.close_send accept_side at) h = accept-Met s closing_recv at refl h
step-Meet {s} (Step.close_send connect_side at) h = connect-Met s closing_recv at refl h
step-Meet {s} (Step.close_recv accept_side at) h = accept-Met s (unlinking accept_side) at refl h
step-Meet {s} (Step.close_recv connect_side at) h =
    opened-Met ended (s.phases accept_side) closed_end refl
step-Meet {s} (Step.unlink accept_side at) h = accept-Met s (unlinking connect_side) at refl h
step-Meet {s} (Step.unlink connect_side at) h = accept-Met s ended at refl h
step-Meet {s} (Step.fail accept_side run) h = or-true (is_failed (s.phases connect_side))
step-Meet {s} (Step.fail connect_side run) h = refl
step-Meet step h = h

-- How the two processes stand.
pub record Inv (s : System) : Type 0 where
  pub stands : Stands s
  pub names : Names s
  pub connects : Connects s
  pub meet : Meet s

pub step-Inv : {s t : System} → Step s t → Inv s → Inv t
step-Inv step h = record {
  stands = step-Stands step h.stands;
  names = step-Names step h.names;
  connects = step-Connects step h.connects;
  meet = step-Meet step h.meet;
}

init-Stands : Stands init
init-Stands accept_side = (refl, refl)
init-Stands connect_side = (refl, refl)

pub reach-Inv : {s : System} → Reach s → Inv s
reach-Inv here = record { stands = init-Stands; names = (refl, refl); connects = refl; meet = refl }
reach-Inv (then_step run step) = step-Inv step (reach-Inv run)
