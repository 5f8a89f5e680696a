-- ===== src/Servers/Tests.antt =====
-- Runs of the handler and of the three servers of lab08, and the theorems at them.
use c_teaching.Prelude.{
  Option, none, some, ℕ, ◌+◌, ◌<◌, ◌≡◌, ◌≢◌, refl, same_bytes, length, List, [], ◌∷◌, ◌++◌, arith,
  none, some,
}
use c_teaching.Sys.{eintr, ok, bytes, fail}
use c_teaching.Servers.Handler.{Pc, State, quit_command, step}
use c_teaching.Servers.Sent
use c_teaching.Servers.Sent.{start, next, out-lost}
use c_teaching.Servers.Base
use c_teaching.Servers.Base.{serving}
use c_teaching.Servers.HungUp.{CalmReach, here, then_step, Busy, starves}
use c_teaching.Servers.Processes
use c_teaching.Servers.Processes.{handling}
use c_teaching.Servers.Projection.{child-out}
use c_teaching.Servers.Threaded
use c_teaching.Servers.Own.{pointer, client_addr_owned, thread-out}

abbrev welcome : ℕ → List ℕ
welcome a = 72 ∷ a ∷ []

record Run : Type 0 where
  state : State
  pc : Pc
  got : List ℕ
  lost : ℕ
  reach : Sent.Reach (welcome 105) state pc got lost

-- The welcome message after an interrupted call, three bytes of which two are echoed, and QUIT.
abbrev session : Run
unfolding step
session = record {
  state = _;
  pc = _;
  got = _;
  lost = _;
  reach =
      next (bytes quit_command)
        (next (ok 2)
          (next (bytes (7 ∷ 8 ∷ 9 ∷ [])) (next (ok 2) (next (fail eintr) start tt) (omega arith))
            (omega arith))
          (omega arith))
        (omega arith);
}

out-lost_example :
    (length session.state.out + session.lost ≡ 5)
    × (session.lost ≡ 0 → session.state.out ≡ welcome 105 ++ (7 ∷ 8 ∷ 9 ∷ []))
unfolding step same_bytes
out-lost_example = out-lost refl session.reach

abbrev waiting : Base.Server
waiting = record { main = serving (record { buf = []; out = 72 ∷ [] }) Pc.receiving; accepted = 1 }

record Stuck : Type 0 where
  last : Base.Server
  reach : CalmReach welcome waiting last

abbrev spun : Stuck
unfolding step same_bytes
spun = record {
  last = _;
  reach =
      then_step (then_step here (Base.handle (bytes []) refl (omega arith)) tt)
        (Base.handle (ok 0) refl (omega arith, λ lt. omega arith)) tt;
}

starves_example : Busy (72 ∷ []) spun.last.main × (spun.last.accepted ≡ 1)
unfolding step same_bytes
starves_example = starves (record { buf = []; out = 72 ∷ [] }) refl spun.reach

-- The welcome message for an address.
abbrev text : Option ℕ → List ℕ
text none = 0 ∷ 0 ∷ []
text (some peer) = 72 ∷ peer ∷ []

record Forked : Type 0 where
  last : Processes.Server
  reach : Processes.Reach text Processes.init last

-- One child is forked and welcomes its client.
abbrev forked : Forked
unfolding step
forked = record {
  last = _;
  reach =
      Processes.then_step
        (Processes.then_step
          (Processes.then_step (Processes.then_step Processes.here (Processes.accept 33 refl))
            (Processes.fork refl))
          (Processes.begin_child 0 (omega arith) refl))
        (Processes.handle 0 (ok 2) (omega arith) refl (omega arith));
}

child-out_example :
    ◌≡◌ {A = ℕ} 0 0
    × ((got : List ℕ) × (lost : ℕ) × Sent.Reach
          (text (some 33))
          (record { buf = text (some 33); out = text (some 33) })
          Pc.receiving
          got
          lost
        × (2 + lost ≡ length (text (some 33) ++ got))
        × (lost ≡ 0 → text (some 33) ≡ text (some 33) ++ got))
unfolding step
child-out_example = child-out 0 forked.reach (omega arith) refl refl

record Spawned : Type 0 where
  last : Threaded.Server
  reach : Threaded.Reach welcome (Threaded.init 5) last

-- A first client has address 33 and is welcomed; a second one, with address 44, is accepted
-- meanwhile into a new buffer.
abbrev spawned : Spawned
unfolding step
spawned = record {
  last = _;
  reach =
      Threaded.then_step
        (Threaded.then_step
          (Threaded.then_step
            (Threaded.then_step
              (Threaded.then_step
                (Threaded.then_step
                  (Threaded.then_step Threaded.here (Threaded.accept 33 refl refl))
                  (Threaded.create refl refl))
                (Threaded.allocate 6 refl refl refl))
              (Threaded.accept 44 refl refl))
            (Threaded.create refl refl))
          (Threaded.begin_thread 0 refl (omega arith) refl refl))
        (Threaded.handle 0 (ok 2) refl (omega arith) refl (omega arith));
}

thread-out_example :
    (got : List ℕ) × (lost : ℕ) × Sent.Reach
      (welcome 33)
      (record { buf = welcome 33; out = welcome 33 })
      Pc.receiving
      got
      lost
    × (2 + lost ≡ length (welcome 33 ++ got))
    × (lost ≡ 0 → welcome 33 ≡ welcome 33 ++ got)
unfolding step
thread-out_example = thread-out 0 spawned.reach (omega arith) refl refl

client_addr_owned_example :
    ((i p : ℕ)
      → i < 2
      → pointer (spawned.last.threads i) ≡ some p
      → spawned.last.heap p ≡ some (spawned.last.peers i))
    × ((i j p : ℕ)
        → i < 2
        → j < 2
        → pointer (spawned.last.threads i) ≡ some p
        → pointer (spawned.last.threads j) ≡ some p
        → i ≡ j)
    × (spawned.last.main ≡ Threaded.accepting
        → (spawned.last.heap 6 ≢ none)
          × ((i : ℕ) → i < 2 → pointer (spawned.last.threads i) ≢ some 6))
unfolding step
client_addr_owned_example = client_addr_owned spawned.reach
