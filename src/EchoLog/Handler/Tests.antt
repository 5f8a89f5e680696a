-- ===== src/EchoLog/Handler/Tests.antt =====
-- A run of the handler of echo_server_mt_logger.c, and the theorems at it.
use c_teaching.Prelude.{ℕ, ◌≡◌, ◌≢◌, refl, same_bytes, replicate, List, [], ◌∷◌, ◌++◌, arith}
use c_teaching.Sys.{Errno, ok, bytes}
use c_teaching.Limited.Handler.{quit_command}
use c_teaching.EchoLog.Handler.{
  Texts, Handler, Pc, receiving, overrun, step, c_string, start_handler,
}
use c_teaching.EchoLog.Handler.Logged.{Reach, start, next, handler-logged}
use c_teaching.EchoLog.Handler.Sim.{handler-out}

abbrev texts : Texts
texts = record { welcome = 72 ∷ 105 ∷ []; received_from = 58 ∷ []; completed = 46 ∷ [] }

abbrev quiet : Errno
quiet = Errno.other 0

record Run : Type 0 where
  last : Handler
  pc : Pc
  got : List (List ℕ)
  reach : Reach quiet texts last pc got 0

-- The welcome message, a message with a 0 in it that is echoed in two pieces, and QUIT.
abbrev session : Run
unfolding step c_string same_bytes
session = record {
  last = _;
  pc = _;
  got = _;
  reach =
      next (ok 0)
        (next (ok 0)
          (next (ok 0)
            (next (bytes quit_command)
              (next (ok 2)
                (next (ok 1)
                  (next (ok 0)
                    (next (bytes (7 ∷ 0 ∷ 9 ∷ [])) (next (ok 2) start (omega arith)) (omega arith))
                    tt)
                  (omega arith))
                (omega arith))
              (omega arith))
            tt)
          tt)
        tt;
}

-- The log shows the message up to the 0; the client gets all of it.
session_logged :
    session.last.logged ≡ (58 ∷ 7 ∷ []) ∷ (58 ∷ 81 ∷ 85 ∷ 73 ∷ 84 ∷ []) ∷ (46 ∷ []) ∷ []
unfolding step c_string same_bytes
session_logged = refl

-- A message that fills the buffer.
full_message :
    (step texts (start_handler quiet texts) receiving (bytes (replicate 1024 65))).1 ≡ overrun
unfolding step
full_message = refl

handler-logged_example :
    (session.pc ≢ overrun)
    × (session.last.logged ++ [] ≡ (58 ∷ 7 ∷ []) ∷ (58 ∷ 81 ∷ 85 ∷ 73 ∷ 84 ∷ []) ∷ (46 ∷ []) ∷ [])
unfolding step c_string same_bytes
handler-logged_example = handler-logged session.reach (omega arith, (omega arith, tt)) refl

handler-out_example : session.last.io.out ≡ 72 ∷ 105 ∷ 7 ∷ 0 ∷ 9 ∷ []
unfolding step c_string same_bytes
handler-out_example = handler-out refl session.reach refl (omega arith, (omega arith, tt)) refl
