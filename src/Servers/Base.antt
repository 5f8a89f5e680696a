-- ===== src/Servers/Base.antt =====
-- main() of base.c, which runs the handler of one connection after the other.
use c_teaching.Prelude.{ℕ, suc, ◌≡◌, List}
use c_teaching.Sys.{Reply}
use c_teaching.Servers.Handler.{Pc, State, step, begin, Possible}

-- Where the process stands: before accept(), in connection_handler, or at an exit().
pub data Main : Type 0 where
  accepting : Main
  serving : State → Pc → Main
  ended : Main

pub record Server : Type 0 where
  pub main : Main
  pub accepted : ℕ  -- how many connections there have been

abbrev pub init : Server
init = record { main = accepting; accepted = 0 }

-- When the handler returns, the loop goes on; its ERROR_HELPER ends the process.
abbrev pub after : State → Pc → Main
after h Pc.returned = accepting
after h Pc.exited = ended
after h pc = serving h pc

-- `welcome` is the text of the welcome message for a connection.
pub data Step (welcome : ℕ → List ℕ) (s : Server) : Server → Type 0 where
  accept :
      s.main ≡ accepting
      → Step welcome s (record {
        main = serving (begin (welcome s.accepted)) Pc.welcoming;
        accepted = suc s.accepted;
      })
  accept_interrupted : s.main ≡ accepting → Step welcome s s
  accept_fails : s.main ≡ accepting → Step welcome s (record s { main = ended })
  handle :
      {h : State} {pc : Pc} (r : Reply)
      → s.main ≡ serving h pc
      → Possible h pc r
      → Step welcome s (record s { main = after (step h pc r).0 (step h pc r).1 })
