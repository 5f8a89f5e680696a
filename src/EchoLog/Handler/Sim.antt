-- ===== src/EchoLog/Handler/Sim.antt =====
-- But for the calls of my_log the handler of echo_server_mt_logger.c is the one of
-- ES-MP-LimitConn/multiprocess.c, with the last call of my_log in the place of sem_post().
use c_teaching.Prelude.{
  ℕ, ◌≡◌, ◌≢◌, refl, ap, subst, ◌∙◌, ltb, ◌==◌, if◌then◌else◌, length, append-nil, Bool, true,
  false, List, [], ◌∷◌, ◌++◌, Bool-cases, inl, inr, arith,
}
use c_teaching.Sys.{Errno, eintr, Reply, ok, bytes, fail, is_eintr}
use c_teaching.Limited
use c_teaching.Limited.Handler.{State, is_quit, advance}
use c_teaching.Limited.Echo.{out-settled, settled}
use c_teaching.EchoLog.Handler.{
  Texts, Handler, Pc, welcoming, receiving, logging, echoing, closing, logging_end, returned,
  exited, overrun, step, Possible, default_buffer_size,
}
use c_teaching.EchoLog.Handler.Logged.{receive, interrupts, Reach, start, next, Short}

-- Where the other handler stands.
abbrev view : Handler → Pc → Limited.Handler.Pc
view h (welcoming sent) = Limited.Handler.Pc.welcoming sent
view h receiving = Limited.Handler.Pc.receiving
view h logging =
    if is_quit h.io.buf then Limited.Handler.Pc.closing else Limited.Handler.Pc.echoing 0
view h (echoing sent) = Limited.Handler.Pc.echoing sent
view h closing = Limited.Handler.Pc.closing
view h logging_end = Limited.Handler.Pc.posting
view h returned = Limited.Handler.Pc.returned
view h exited = Limited.Handler.Pc.exited
view h overrun = Limited.Handler.Pc.exited

-- What has to be echoed of the messages received.
abbrev pub echoes : List (List ℕ) → List ℕ
echoes [] = []
echoes (m ∷ got) = echoes got ++ (if is_quit m then [] else m)

-- The handler waits for a message, has logged QUIT, or has returned.
abbrev pub all_sent : Pc → Bool
all_sent receiving = true
all_sent closing = true
all_sent logging_end = true
all_sent returned = true
all_sent _ = false

module _ (errno : Errno) (t : Texts) where
  abbrev Seen : Handler → Pc → List (List ℕ) → Type 0
  Seen h pc got = Limited.Echo.Reach errno t.welcome h.io (view h pc) (echoes got)

  -- A step with nothing to echo.
  silent_next :
      {s : State} {pc : Limited.Handler.Pc} {l : List ℕ} (r : Reply)
      → Limited.Echo.Reach errno t.welcome s pc l
      → Limited.Handler.Possible s pc r
      → r ≢ fail eintr
      → Limited.Echo.to_echo pc r ≡ []
      → Limited.Echo.Reach errno t.welcome
          (Limited.Handler.step s pc r).0
          (Limited.Handler.step s pc r).1
          l
  silent_next {s} {pc} {l} r seen p ne e =
      subst
        (Limited.Echo.Reach errno t.welcome (Limited.Handler.step s pc r).0
          (Limited.Handler.step s pc r).1)
        (ap (λ k. l ++ k) e ∙ append-nil l) (Limited.Echo.next r seen p ne)

  step-Seen :
      (h : Handler) (pc : Pc) (r : Reply) (got : List (List ℕ))
      → Seen h pc got
      → Possible h pc r
      → r ≢ fail eintr
      → Short (receive pc r got)
      → Seen (step t h pc r).0 (step t h pc r).1 (receive pc r got)
  unfolding step Limited.Handler.step
  step-Seen h (welcoming sent) (ok n) got seen p ne short =
      elim (Bool-cases (ltb (advance h.io sent n) (length h.io.buf))) [
        | inl e ↦ rw e (rw e at (silent_next (ok n) seen p ne refl))
        | inr e ↦ rw e (rw e at (silent_next (ok n) seen p ne refl))
      ]
  step-Seen h (welcoming sent) (fail e) got seen p ne short = silent_next (fail e) seen tt ne refl
  step-Seen h receiving (bytes []) got seen p ne short = silent_next (bytes []) seen p ne refl
  step-Seen h receiving (bytes (x ∷ xs)) got seen p ne short =
      rw (unfull (ground (arith, short.0))) (Limited.Echo.next (bytes (x ∷ xs)) seen p ne)
    where
      unfull :
          length (x ∷ xs) ≢ default_buffer_size → (length (x ∷ xs) == default_buffer_size) ≡ false
      unfull lt = ground arith
  step-Seen h receiving (fail eintr) got seen p ne short = absurd (ne refl)
  step-Seen h receiving (fail e) got seen p ne short = silent_next (fail e) seen tt ne refl
  step-Seen h logging (ok n) got seen p ne short = elim (Bool-cases (is_quit h.io.buf)) [
    | inl quit ↦ rw quit (rw quit at seen)
    | inr other ↦ rw other (rw other at seen)
  ]
  step-Seen h logging (fail e) got seen p ne short = elim (Bool-cases (is_quit h.io.buf)) [
    | inl quit ↦ silent_next (fail e) (rw quit at seen) tt ne refl
    | inr other ↦ silent_next (fail e) (rw other at seen) tt ne refl
  ]
  step-Seen h (echoing sent) (ok n) got seen p ne short =
      elim (Bool-cases (ltb (advance h.io sent n) (length h.io.buf))) [
        | inl e ↦ rw e (rw e at (silent_next (ok n) seen p ne refl))
        | inr e ↦ rw e (rw e at (silent_next (ok n) seen p ne refl))
      ]
  step-Seen h (echoing sent) (fail e) got seen p ne short = silent_next (fail e) seen tt ne refl
  step-Seen h closing (ok n) got seen p ne short = silent_next (ok n) seen tt ne refl
  step-Seen h closing (fail e) got seen p ne short = silent_next (fail e) seen tt ne refl
  step-Seen h logging_end (ok n) got seen p ne short = silent_next (ok n) seen tt ne refl
  step-Seen h logging_end (fail e) got seen p ne short = silent_next (fail e) seen tt ne refl
  step-Seen h pc r got seen p ne short = elim p [ ]

no_interrupts : (r : Reply) → interrupts r ≡ 0 → r ≢ fail eintr
no_interrupts (fail eintr) e q = absurd (omega (arith, e))
no_interrupts (fail Errno.eexist) e q = cc
no_interrupts (fail (Errno.other k)) e q = cc
no_interrupts (ok n) e q = cc
no_interrupts (bytes bs) e q = cc

Short-receive : (pc : Pc) (r : Reply) (got : List (List ℕ)) → Short (receive pc r got) → Short got
Short-receive receiving (bytes (x ∷ xs)) got short = short.1
Short-receive pc r got short = short

Reach-Seen :
    {errno : Errno} {t : Texts} {h : Handler} {pc : Pc} {got : List (List ℕ)} {k : ℕ}
    → Reach errno t h pc got k
    → k ≡ 0
    → Short got
    → Seen errno t h pc got
Reach-Seen start none short = Limited.Echo.start
Reach-Seen {errno} {t} (next {h} {pc} {got} {k} r before p) none short =
    step-Seen errno t h pc r got
      (Reach-Seen before (omega (arith, none)) (Short-receive pc r got short)) p
      (no_interrupts r (omega (arith, none))) short

all_sent-settled : (h : Handler) (pc : Pc) → all_sent pc ≡ true → settled (view h pc) ≡ true
all_sent-settled h receiving e = refl
all_sent-settled h closing e = refl
all_sent-settled h logging_end e = refl
all_sent-settled h returned e = refl
all_sent-settled h pc e = absurd (ground (arith, e))

-- If no call has failed with EINTR, neither before the handler began nor on its way, and every
-- message was shorter than the buffer, then whenever the handler waits for a message, and from
-- close() on, its client has been sent exactly the welcome message and then every message but
-- QUIT, in order, however send() has cut them up.
pub handler-out :
    {errno : Errno} {t : Texts} {h : Handler} {pc : Pc} {got : List (List ℕ)} {k : ℕ}
    → is_eintr errno ≡ false
    → Reach errno t h pc got k
    → k ≡ 0
    → Short got
    → all_sent pc ≡ true
    → h.io.out ≡ t.welcome ++ echoes got
handler-out {h} {pc} calm r none short sent =
    out-settled calm (Reach-Seen r none short) (all_sent-settled h pc sent)
