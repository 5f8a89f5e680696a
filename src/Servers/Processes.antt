-- ===== src/Servers/Processes.antt =====
-- main() of multiprocess.c, which forks a child for each connection. Connections are numbered in
-- the order of accept(), and a socket is the number of its connection.
use c_teaching.Prelude.{ℕ, suc, ◌<◌, ◌≡◌, Option, none, some, List}
use c_teaching.Sys.{Reply}
use c_teaching.Threads.{update}
use c_teaching.Servers.Handler.{Pc, State, step, begin, Possible}

-- Where the parent stands: before accept(), fork(), the close() of the client's socket, or at an
-- exit().
pub data Parent : Type 0 where
  accepting forking closing_client ended : Parent

-- A child, with its copy of `client_desc`: before its close() of the listening socket, where it
-- has its copy of `*client_addr` as well; in connection_handler or past it; or ended by a failed
-- close() or a signal.
pub data Child : Type 0 where
  starting : (client_desc : ℕ) (client_addr : Option ℕ) → Child
  handling : (client_desc : ℕ) → State → Pc → Child
  dead : Child

-- An address is the client it belongs to, or `none` for zeros. `peers`, which no step reads, are
-- the clients whose connections have been accepted.
pub record Server : Type 0 where
  pub parent : Parent
  pub client_desc : ℕ
  pub client_addr : Option ℕ
  pub accepted : ℕ
  pub peers : ℕ → ℕ
  pub forks : ℕ  -- how many children there have been; they are the indices below
  pub children : ℕ → Child

abbrev pub init : Server
init = record {
  parent = accepting;
  client_desc = 0;
  client_addr = none;
  accepted = 0;
  peers = λ _. 0;
  forks = 0;
  children = λ _. dead;
}

-- multiprocess.c's own connection_handler, whose calls are those of base.c.
abbrev pub connection_handler : State → Pc → Reply → State × Pc
connection_handler h pc r = step h pc r

-- `welcome` is the text of the welcome message for what `*client_addr` holds.
pub data Step (welcome : Option ℕ → List ℕ) (s : Server) : Server → Type 0 where
  -- accept() of a connection of the client `peer`
  accept :
      (peer : ℕ)
      → s.parent ≡ accepting
      → Step welcome s (record s {
        parent = forking;
        client_desc = s.accepted;
        client_addr = some peer;
        accepted = suc s.accepted;
        peers = update s.peers s.accepted peer;
      })
  accept_interrupted : s.parent ≡ accepting → Step welcome s s
  fork :
      s.parent ≡ forking
      → Step welcome s (record s {
        parent = closing_client;
        forks = suc s.forks;
        children = update s.children s.forks (starting s.client_desc s.client_addr);
      })
  -- with the memset() of `*client_addr`
  close_client :
      s.parent ≡ closing_client
      → Step welcome s (record s { parent = accepting; client_addr = none })
  -- a failed call and ERROR_HELPER, or a signal; the children go on
  end_parent : Step welcome s (record s { parent = ended })
  begin_child :
      (i : ℕ) {desc : ℕ} {addr : Option ℕ}
      → i < s.forks
      → s.children i ≡ starting desc addr
      → Step welcome s (record s {
        children = update s.children i (handling desc (begin (welcome addr)) Pc.welcoming);
      })
  end_child :
      (i : ℕ) → i < s.forks → Step welcome s (record s { children = update s.children i dead })
  handle :
      (i : ℕ) {desc : ℕ} {h : State} {pc : Pc} (r : Reply)
      → i < s.forks
      → s.children i ≡ handling desc h pc
      → Possible h pc r
      → Step welcome s (record s {
        children =
            update s.children i
              (handling desc (connection_handler h pc r).0 (connection_handler h pc r).1);
      })

pub data Reach (welcome : Option ℕ → List ℕ) (s : Server) : Server → Type 0 where
  here : Reach welcome s s
  then_step : {t u : Server} → Reach welcome s t → Step welcome t u → Reach welcome s u
