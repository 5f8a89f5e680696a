-- ===== src/Limited/Tests.antt =====
-- Runs of the handler and of the server of multiprocess.c, and the theorems at them.
use c_teaching.Prelude.{
  ℕ, ◌+◌, ◌≤◌, ◌≡◌, ◌≢◌, refl, same_bytes, replicate, List, [], ◌∷◌, ◌++◌, arith,
}
use c_teaching.Sys.{Errno, eintr, Reply, ok, bytes}
use c_teaching.Threads.{total}
use c_teaching.Limited.Handler.{Pc, State, echoing, quit_command, step}
use c_teaching.Limited.Echo.{Reach, start, next, send_one_byte, send_one_byte-stale}
use c_teaching.Limited.Server
use c_teaching.Limited.Server.{
  Server, here, then_step, accept, wait, fork, close_client, begin_child, handle, init,
}
use c_teaching.Limited.Threaded
use c_teaching.Limited.Kept.{capacity_kept, works}
use c_teaching.Limited.Kept
use c_teaching.Limited.Capacity.{lives, taken, lives-le-max}

abbrev quiet : Errno
quiet = Errno.other 0

calm_ok : {n : ℕ} → Reply.ok n ≢ Reply.fail eintr
calm_ok e = cc

calm_bytes : {bs : List ℕ} → bytes bs ≢ Reply.fail eintr
calm_bytes e = cc

record Run : Type 0 where
  state : State
  pc : Pc
  got : List ℕ
  reach : Reach quiet (72 ∷ 105 ∷ []) state pc got

-- The welcome message in two pieces, a message of three bytes echoed in two pieces, and QUIT.
abbrev session : Run
unfolding step
session = record {
  state = _;
  pc = _;
  got = _;
  reach =
      next (bytes quit_command)
        (next (ok 2)
          (next (ok 1)
            (next (bytes (7 ∷ 8 ∷ 9 ∷ []))
              (next (ok 1) (next (ok 1) start (omega arith) calm_ok) (omega arith) calm_ok)
              (omega arith) calm_bytes)
            (omega arith) calm_ok)
          (omega arith) calm_ok)
        (omega arith) calm_bytes;
}

abbrev stale : State
stale = record { errno = eintr; buf = 33 ∷ []; out = [] }

send_one_byte-stale_example :
    ((send_one_byte 4 stale (echoing 0)).0.out ≡ [] ++ replicate 4 33)
    × ((send_one_byte 4 stale (echoing 0)).1 ≡ echoing 0)
send_one_byte-stale_example = send_one_byte-stale 4 33 stale refl refl

abbrev welcome : ℕ → List ℕ
welcome _ = 72 ∷ []

record ServerRun : Type 0 where
  last : Server
  reach : Server.Reach welcome (init quiet) last

-- A client connects, gets the welcome message, and closes the connection; then two more do.
abbrev one_gone : ServerRun
unfolding step
one_gone = record {
  last = _;
  reach =
      then_step
        (then_step
          (then_step
            (then_step
              (then_step (then_step (then_step here (accept refl)) (wait refl (omega arith)))
                (fork refl))
              (close_client refl))
            (begin_child 0 (omega arith) refl))
          (handle 0 (ok 1) (omega arith) refl (omega arith)))
        (handle 0 (bytes []) (omega arith) refl (omega arith));
}

abbrev all_gone : ServerRun
unfolding step
all_gone = record {
  last = _;
  reach =
      then_step
        (then_step
          (then_step
            (then_step
              (then_step
                (then_step
                  (then_step
                    (then_step
                      (then_step
                        (then_step
                          (then_step
                            (then_step
                              (then_step
                                (then_step
                                  (then_step
                                    (then_step
                                      (then_step
                                        (then_step
                                          (then_step
                                            (then_step (then_step here (accept refl))
                                              (wait refl (omega arith)))
                                            (fork refl))
                                          (close_client refl))
                                        (begin_child 0 (omega arith) refl))
                                      (handle 0 (ok 1) (omega arith) refl (omega arith)))
                                    (handle 0 (bytes []) (omega arith) refl (omega arith)))
                                  (accept refl))
                                (wait refl (omega arith)))
                              (fork refl))
                            (close_client refl))
                          (begin_child 1 (omega arith) refl))
                        (handle 1 (ok 1) (omega arith) refl (omega arith)))
                      (handle 1 (bytes []) (omega arith) refl (omega arith)))
                    (accept refl))
                  (wait refl (omega arith)))
                (fork refl))
              (close_client refl))
            (begin_child 2 (omega arith) refl))
          (handle 2 (ok 1) (omega arith) refl (omega arith)))
        (handle 2 (bytes []) (omega arith) refl (omega arith));
}

lives-le-max_example : total lives 1 one_gone.last.children + taken one_gone.last.main ≤ 3
unfolding step
lives-le-max_example = lives-le-max one_gone.reach

record ThreadedRun : Type 0 where
  last : Threaded.Server
  reach : Threaded.Reach welcome last

abbrev first_served : ThreadedRun
unfolding step same_bytes
first_served = record {
  last = _;
  reach =
      Threaded.then_step
        (Threaded.then_step
          (Threaded.then_step
            (Threaded.then_step
              (Threaded.then_step
                (Threaded.then_step
                  (Threaded.then_step (Threaded.then_step Threaded.here (Threaded.accept refl refl))
                    (Threaded.wait refl refl (omega arith)))
                  (Threaded.create refl refl))
                (Threaded.begin_thread 0 refl (omega arith) refl))
              (Threaded.handle 0 (ok 1) refl (omega arith) refl (omega arith)))
            (Threaded.handle 0 (bytes quit_command) refl (omega arith) refl (omega arith)))
          (Threaded.handle 0 (ok 0) refl (omega arith) refl (omega arith)))
        (Threaded.handle 0 (ok 0) refl (omega arith) refl (omega arith));
}

-- The thread of the first client has returned; that of the second is at its first recv().
abbrev second_served : ThreadedRun
unfolding step same_bytes
second_served = record {
  last = _;
  reach =
      Threaded.then_step
        (Threaded.then_step
          (Threaded.then_step
            (Threaded.then_step (Threaded.then_step first_served.reach (Threaded.accept refl refl))
              (Threaded.wait refl refl (omega arith)))
            (Threaded.create refl refl))
          (Threaded.begin_thread 1 refl (omega arith) refl))
        (Threaded.handle 1 (ok 1) refl (omega arith) refl (omega arith));
}

capacity_kept_example :
    second_served.last.connections
      + total works second_served.last.spawned second_served.last.threads
      + Kept.taken second_served.last.main
    ≡ 3
unfolding step total same_bytes
capacity_kept_example = capacity_kept second_served.reach refl
