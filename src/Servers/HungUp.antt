-- ===== src/Servers/HungUp.antt =====
-- What the servers do after a client has closed its connection without the quit command.
use c_teaching.Prelude.{ℕ, ◌≡◌, refl, List, [], ◌∷◌, ◌++◌, append-nil, ◌∙◌, ap, take-nil, take}
use c_teaching.Sys.{eintr, Reply, ok, bytes, fail}
use c_teaching.Servers.Handler.{Pc, State, step, Possible}
use c_teaching.Servers.Base.{
  Server, Main, accepting, serving, ended, after, Step, accept, accept_interrupted, accept_fails,
  handle,
}

-- What a call answers after the peer has closed, if none fails but by a signal: recv() gives no
-- byte.
abbrev pub Closed : Pc → Reply → Type 0
Closed Pc.receiving (bytes []) = Unit {0}
Closed Pc.receiving (bytes (x ∷ xs)) = ⊥
Closed pc (ok n) = Unit {0}
Closed pc (fail eintr) = Unit {0}
Closed pc (fail e) = ⊥
Closed pc (bytes bs) = ⊥

-- The handler is in its echo loop, has nothing to send, and has sent `out`.
abbrev pub Spins : List ℕ → State → Pc → Type 0
Spins out s Pc.receiving = s.out ≡ out
Spins out s Pc.echoing = (s.out ≡ out) × (s.buf ≡ [])
Spins out s pc = ⊥

step-Spins :
    (out : List ℕ) (s : State) (pc : Pc) (r : Reply)
    → Spins out s pc
    → Possible s pc r
    → Closed pc r
    → Spins out (step s pc r).0 (step s pc r).1
unfolding step
step-Spins out s Pc.welcoming r spins p c = elim spins [ ]
step-Spins out s Pc.receiving (ok n) spins p c = elim p [ ]
step-Spins out s Pc.receiving (bytes []) spins p c = (spins, refl)
step-Spins out s Pc.receiving (bytes (x ∷ xs)) spins p c = elim c [ ]
step-Spins out s Pc.receiving (fail eintr) spins p c = spins
step-Spins out s Pc.receiving (fail e) spins p c = elim c [ ]
step-Spins out s Pc.echoing (ok n) spins p c =
    ap (λ l. s.out ++ take n l) spins.1
    ∙ ap (λ l. s.out ++ l) (take-nil n)
    ∙ append-nil s.out
    ∙ spins.0
step-Spins out s Pc.echoing (bytes bs) spins p c = elim p [ ]
step-Spins out s Pc.echoing (fail eintr) spins p c = spins
step-Spins out s Pc.echoing (fail e) spins p c = elim c [ ]
step-Spins out s Pc.closing r spins p c = elim spins [ ]
step-Spins out s Pc.returned r spins p c = elim spins [ ]
step-Spins out s Pc.exited r spins p c = elim spins [ ]

-- A step of base.c after the peer has closed: the answers of the handler's calls are `Closed`.
abbrev pub Calm : {welcome : ℕ → List ℕ} {s t : Server} → Step welcome s t → Type 0
Calm (handle {pc} r at p) = Closed pc r
Calm (accept at) = Unit {0}
Calm (accept_interrupted at) = Unit {0}
Calm (accept_fails at) = Unit {0}

pub data CalmReach (welcome : ℕ → List ℕ) (s : Server) : Server → Type 0 where
  here : CalmReach welcome s s
  then_step :
      {t u : Server}
      → CalmReach welcome s t
      → (st : Step welcome t u) → Calm st
      → CalmReach welcome s u

-- The server is in the handler that spins.
abbrev pub Busy : List ℕ → Main → Type 0
Busy out (serving h pc) = Spins out h pc
Busy out accepting = ⊥
Busy out ended = ⊥

after-Busy : (out : List ℕ) (h : State) (pc : Pc) → Spins out h pc → Busy out (after h pc)
after-Busy out h Pc.receiving spins = spins
after-Busy out h Pc.echoing spins = spins
after-Busy out h Pc.welcoming spins = elim spins [ ]
after-Busy out h Pc.closing spins = elim spins [ ]
after-Busy out h Pc.returned spins = elim spins [ ]
after-Busy out h Pc.exited spins = elim spins [ ]

module _ {welcome : ℕ → List ℕ} (out : List ℕ) where
  Step-Busy :
      {s t : Server} (st : Step welcome s t)
      → Calm st
      → Busy out s.main
      → Busy out t.main × (t.accepted ≡ s.accepted)
  Step-Busy (accept at) calm busy = elim (rw at at busy) [ ]
  Step-Busy (accept_interrupted at) calm busy = elim (rw at at busy) [ ]
  Step-Busy (accept_fails at) calm busy = elim (rw at at busy) [ ]
  Step-Busy (handle {h} {pc} r at p) calm busy = (
    after-Busy out (step h pc r).0 (step h pc r).1 (step-Spins out h pc r (rw at at busy) p calm),
    refl,
  )

  CalmReach-Busy :
      {s t : Server}
      → CalmReach welcome s t
      → Busy out s.main
      → Busy out t.main × (t.accepted ≡ s.accepted)
  CalmReach-Busy here busy = (busy, refl)
  CalmReach-Busy (then_step r st calm) busy =
      let (before, same) = CalmReach-Busy r busy in
      let (now, kept) = Step-Busy st calm before in (now, kept ∙ same)

-- When a client closes its connection while base.c waits for its message, and no call fails but by
-- a signal, the server stays in the echo loop of this client for good: it sends nothing more,
-- closes nothing and accepts no other connection.
pub starves :
    {welcome : ℕ → List ℕ} {s t : Server} (h : State)
    → s.main ≡ serving h Pc.receiving
    → CalmReach welcome s t
    → Busy h.out t.main × (t.accepted ≡ s.accepted)
starves h at r = CalmReach-Busy h.out r (rw at refl)
