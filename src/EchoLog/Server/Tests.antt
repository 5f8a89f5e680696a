-- ===== src/EchoLog/Server/Tests.antt =====
-- A run of echo_server_mt_logger.c with one client, and the theorem at it.
use c_teaching.Prelude.{join, ℕ, ◌≡◌, refl, take, map, same_bytes, List, [], ◌∷◌, ◌++◌, arith}
use c_teaching.Sys.{ok, bytes}
use c_teaching.Limited.Threaded.{no_error}
use c_teaching.EchoLog.{Event, CallerMove, line}
use c_teaching.EchoLog.Run.{lines, lines_of, pending}
use c_teaching.EchoLog.Handler.{Texts, Handler, Pc, step, c_string}
use c_teaching.EchoLog.Handler.Logged
use c_teaching.EchoLog.Server.{
  Server, MainTexts, accept, accept_logged, create, begin_thread, handle, handle_logs,
  handle_logged, in_my_log, Reach, here, then_step,
}
use c_teaching.EchoLog.Server.Serves.{server_log}

abbrev main_texts : MainTexts
main_texts = record { accepted = 65 ∷ []; new_thread = 78 ∷ [] }

abbrev texts : ℕ → Texts
texts i = record { welcome = 72 ∷ 105 ∷ []; received_from = i ∷ []; completed = 46 ∷ [] }

record Run : Type 0 where
  last : Server
  events : List Event
  reach : Reach main_texts texts last events

-- A client is accepted, and main() has logged so.
abbrev accepted : Run
accepted = record {
  last = _;
  events = _;
  reach =
      then_step
        (then_step
          (then_step
            (then_step
              (then_step
                (then_step
                  (then_step
                    (then_step
                      (then_step (then_step here (accept refl refl refl))
                        (in_my_log 0 refl (omega arith) refl (CallerMove.got_empty (omega arith))))
                      (in_my_log 0 refl (omega arith) refl (CallerMove.got_write (omega arith))))
                    (in_my_log 0 refl (omega arith) refl CallerMove.store))
                  (in_my_log 0 refl (omega arith) refl CallerMove.load_write))
                (in_my_log 0 refl (omega arith) refl CallerMove.store_write))
              (in_my_log 0 refl (omega arith) refl CallerMove.put_write))
            (in_my_log 0 refl (omega arith) refl CallerMove.put_fill))
          (accept_logged refl refl refl))
        (create refl refl refl);
}

-- Its handler has received a message and logged it, while main() is in its second my_log.
abbrev received : Run
unfolding step c_string same_bytes
received = record {
  last = _;
  events = _;
  reach =
      then_step
        (then_step
          (then_step
            (then_step
              (then_step
                (then_step
                  (then_step
                    (then_step
                      (then_step
                        (then_step
                          (then_step accepted.reach (begin_thread 0 refl (omega arith) refl))
                          (handle 0 (ok 2) refl (omega arith) refl refl (omega arith) refl refl))
                        (handle_logs 0 (bytes (7 ∷ [])) refl (omega arith) refl refl (omega arith)
                          refl refl))
                      (in_my_log 1 refl (omega arith) refl (CallerMove.got_empty (omega arith))))
                    (in_my_log 1 refl (omega arith) refl (CallerMove.got_write (omega arith))))
                  (in_my_log 1 refl (omega arith) refl CallerMove.store))
                (in_my_log 1 refl (omega arith) refl CallerMove.load_write))
              (in_my_log 1 refl (omega arith) refl CallerMove.store_write))
            (in_my_log 1 refl (omega arith) refl CallerMove.put_write))
          (in_my_log 1 refl (omega arith) refl CallerMove.put_fill))
        (handle_logged 0 refl (omega arith) refl refl refl);
}

-- The handler of the client, at its echo.
abbrev handler : Handler
handler = record {
  io = record { errno = no_error; buf = 7 ∷ []; out = 72 ∷ 105 ∷ [] };
  logged = (0 ∷ 7 ∷ []) ∷ [];
}

server_log_example :
    ([] ≡ join (take 0 (lines received.events)))
    × (lines_of 1 received.events ++ pending (received.last.ring.callers 1)
        ≡ map line ((0 ∷ 7 ∷ []) ∷ []))
    × ((got : List (List ℕ)) × (k : ℕ) × Logged.Reach no_error
          (texts 0)
          handler
          (Pc.echoing 0)
          got
          k)
unfolding step c_string same_bytes
server_log_example = server_log received.reach (omega arith) refl
