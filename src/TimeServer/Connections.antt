-- ===== src/TimeServer/Connections.antt =====
-- One connection of the time server: what has been asked, replied and answered there.
use c_teaching.Prelude.{
  or-true, ℕ, ◌≤◌, ◌<◌, ◌≡◌, refl, ap, subst, ◌∙◌, ◌||◌, length, take, drop, take-all, drop-all,
  ◌⊎◌, inl, inr, Bool, true, false, Bool-cases, List, [], ◌++◌, same_bytes, arith,
}
use c_teaching.TimeServer.{
  command, reply_to, Client, unconnected, sending, receiving, closing, printed, is_gone, Side,
  queued, hearing, replying, hanging_up, hung_up, is_closed, Connection, is_cut, set_side,
  ClientStep, HandlerStep,
}

-- A call that is not cut short moves all there is.
whole_move : (n : ℕ) (bs : List ℕ) → is_cut n bs ≡ false → length bs ≤ n
whole_move n bs whole = ground (arith, whole)

reply_command : (now : List ℕ) → reply_to now command ≡ now
unfolding same_bytes
reply_command now = refl

nothing : (bs : List ℕ) → bs ≡ [] → 0 < length bs → ⊥
nothing bs none some = absurd (omega (arith, ap length none, some))

-- There is something to receive, or the other end is closed.
Receives : List ℕ → Bool → Type 0
Receives bs closed = (0 < length bs) ⊎ ((bs ≡ []) × (closed ≡ true))

receives :
    (n : ℕ) (bs : List ℕ) {closed : Bool}
    → n ≤ length bs
    → (0 < n) ⊎ ((bs ≡ []) × (closed ≡ true))
    → Receives bs closed
unfolding Receives
receives n bs le (inl some) = inl (omega arith)
receives n bs le (inr over) = inr over

-- The handler has sent the reply, or cannot any more.
abbrev has_said : Side → Bool
has_said hanging_up = true
has_said hung_up = true
has_said _ = false

module _ (time_text : ℕ → List ℕ) where
  abbrev pub IsTime : List ℕ → Type 0
  IsTime bs = (t : ℕ) × (bs ≡ time_text t)

  -- The text of a time, or nothing from a server that has ended.
  abbrev pub Told : Bool → List ℕ → Type 0
  Told down bs = IsTime bs ⊎ ((down ≡ true) × (bs ≡ []))

  -- What a client that has not received its answer yet will find.
  abbrev Said : Bool → Side → List ℕ → Type 0
  Said down queued to_client = to_client ≡ []
  Said down hearing to_client = to_client ≡ []
  Said down (replying r) to_client = (to_client ≡ []) × IsTime r
  Said down hanging_up to_client = IsTime to_client
  Said down hung_up to_client = Told down to_client

  -- A connection none of whose calls was cut short, of a server that has ended or not.
  abbrev pub Sound : Bool → Client → Side → List ℕ → List ℕ → Type 0
  Sound down unconnected side to_server to_client = (to_server ≡ []) × Said down side to_client
  Sound down sending side to_server to_client = (to_server ≡ []) × Said down side to_client
  Sound down receiving side to_server to_client =
      ((to_server ≡ []) ⊎ (to_server ≡ command)) × Said down side to_client
  Sound down (closing bs) side to_server to_client = Told down bs × (has_said side ≡ true)
  Sound down (printed bs) side to_server to_client = Told down bs × (has_said side ≡ true)
  Sound down Client.failed side to_server to_client = Unit {0}

  abbrev pub Whole : Bool → Connection → Type 0
  Whole down c = Sound down c.client c.side c.to_server c.to_client

  abbrev pub Good : Bool → Connection → Type 0
  Good down c = (c.cut ≡ true) ⊎ Whole down c

  -- More calls do not undo a cut.
  cut_more :
      (down : Bool) (c d : Connection) (b : Bool)
      → d.cut ≡ (c.cut || b)
      → (b ≡ false → Whole down c → Whole down d)
      → Good down c
      → Good down d
  cut_more down c d b eq whole (inl cut) = inl (eq ∙ ap (λ k. k || b) cut)
  cut_more down c d b eq whole (inr good) = elim (Bool-cases b) [
    | inl short ↦ inl (eq ∙ ap (λ k. c.cut || k) short ∙ or-true c.cut)
    | inr all ↦ inr (whole all good)
  ]

  still-Told :
      (down down' : Bool) (bs : List ℕ)
      → (down ≡ true → down' ≡ true)
      → Told down bs
      → Told down' bs
  still-Told down down' bs ends (inl now) = inl now
  still-Told down down' bs ends (inr (over, none)) = inr (ends over, none)

  -- The server's end of a connection changes.
  Sound-map :
      (down down' : Bool) (client : Client) (side side' : Side) (ts tc tc' : List ℕ)
      → (Said down side tc → Said down' side' tc')
      → (has_said side ≡ true → has_said side' ≡ true)
      → (down ≡ true → down' ≡ true)
      → Sound down client side ts tc
      → Sound down' client side' ts tc'
  Sound-map down down' unconnected side side' ts tc tc' f g ends (asked, said) = (asked, f said)
  Sound-map down down' sending side side' ts tc tc' f g ends (asked, said) = (asked, f said)
  Sound-map down down' receiving side side' ts tc tc' f g ends (asked, said) = (asked, f said)
  Sound-map down down' (closing bs) side side' ts tc tc' f g ends (told, past) =
      (still-Told down down' bs ends told, g past)
  Sound-map down down' (printed bs) side side' ts tc tc' f g ends (told, past) =
      (still-Told down down' bs ends told, g past)
  Sound-map down down' Client.failed side side' ts tc tc' f g ends h = tt

  -- What the client's recv() gives, when it takes all there is.
  answer :
      (down : Bool) (side : Side) (bs : List ℕ)
      → Said down side bs
      → Receives bs (is_closed side)
      → Told down bs × (has_said side ≡ true)
  unfolding Receives
  answer down queued bs none (inl some) = absurd (nothing bs none some)
  answer down queued bs none (inr (empty, over)) = absurd (ground (arith, over))
  answer down hearing bs none (inl some) = absurd (nothing bs none some)
  answer down hearing bs none (inr (empty, over)) = absurd (ground (arith, over))
  answer down (replying r) bs h (inl some) = absurd (nothing bs h.0 some)
  answer down (replying r) bs h (inr (empty, over)) = absurd (ground (arith, over))
  answer down hanging_up bs now h = (inl now, refl)
  answer down hung_up bs told h = (told, refl)

  -- What the handler replies, when its recv() takes all there is.
  hear-Sound :
      (down : Bool) (client : Client) (ts tc : List ℕ) (t : ℕ)
      → Receives ts (is_gone client)
      → Sound down client hearing ts tc
      → Sound down client (replying (reply_to (time_text t) ts)) [] tc
  unfolding Receives
  hear-Sound down unconnected ts tc t (inl some) h = absurd (nothing ts h.0 some)
  hear-Sound down unconnected ts tc t (inr over) h = absurd (ground (arith, over))
  hear-Sound down sending ts tc t (inl some) h = absurd (nothing ts h.0 some)
  hear-Sound down sending ts tc t (inr over) h = absurd (ground (arith, over))
  hear-Sound down receiving ts tc t (inl some) (inl none, bare) = absurd (nothing ts none some)
  hear-Sound down receiving ts tc t (inl some) (inr all, bare) =
      (inl refl, (bare, (t, ap (reply_to (time_text t)) all ∙ reply_command (time_text t))))
  hear-Sound down receiving ts tc t (inr over) h = absurd (ground (arith, over))
  hear-Sound down (closing bs) ts tc t r h = absurd (ground (arith, h))
  hear-Sound down (printed bs) ts tc t r h = absurd (ground (arith, h))
  hear-Sound down Client.failed ts tc t r h = tt

  pub client-Good : (down : Bool) {c d : Connection} → ClientStep c d → Good down c → Good down d
  client-Good down {c} (ClientStep.send n at le) good =
      cut_more down c
        (record {
          client = receiving;
          side = c.side;
          to_server = c.to_server ++ take n command;
          to_client = c.to_client;
          cut = c.cut || is_cut n command;
        })
        (is_cut n command) refl
        (λ whole h.
          let (none, said) = subst (λ k. Sound down k c.side c.to_server c.to_client) at h in
          (
            inr (
                ap (λ k. k ++ take n command) none
                ∙ take-all n command (whole_move n command whole)),
            said,
          ))
        good
  client-Good down {c} (ClientStep.receive n at room le some) good =
      cut_more down c
        (record {
          client = closing (take n c.to_client);
          side = c.side;
          to_server = c.to_server;
          to_client = drop n c.to_client;
          cut = c.cut || is_cut n c.to_client;
        })
        (is_cut n c.to_client) refl
        (λ whole h.
          let (asked, said) = subst (λ k. Sound down k c.side c.to_server c.to_client) at h in
          rw (take-all n c.to_client (whole_move n c.to_client whole))
            (answer down c.side c.to_client said (receives n c.to_client le some)))
        good
  client-Good down {c} (ClientStep.close at) (inl cut) = inl cut
  client-Good down {c} (ClientStep.close at) (inr h) =
      inr (subst (λ k. Sound down k c.side c.to_server c.to_client) at h)
  client-Good down {c} (ClientStep.fail there) (inl cut) = inl cut
  client-Good down {c} (ClientStep.fail there) (inr h) = inr tt

  pub handler-Good :
      (down : Bool) {c d : Connection} → HandlerStep time_text c d → Good down c → Good down d
  handler-Good down {c} (HandlerStep.hear n t at room le some) good =
      cut_more down c _ (is_cut n c.to_server) refl
        (λ whole h.
          let all = whole_move n c.to_server whole in
          rw (take-all n c.to_server all, drop-all n c.to_server all)
            (hear-Sound down c.client c.to_server c.to_client t (receives n c.to_server le some)
              (subst (λ k. Sound down c.client k c.to_server c.to_client) at h)))
        good
  handler-Good down {c} (HandlerStep.reply n {r} at le) good =
      cut_more down c _ (is_cut n r) refl
        (λ whole h.
          Sound-map down down c.client (replying r) hanging_up c.to_server c.to_client
            (c.to_client ++ take n r)
            (λ (bare, (t, now)).
              (t, ap (λ k. k ++ take n r) bare ∙ take-all n r (whole_move n r whole) ∙ now))
            (λ q. refl) (λ q. q) (subst (λ k. Sound down c.client k c.to_server c.to_client) at h))
        good
  handler-Good down {c} (HandlerStep.hang_up at) (inl cut) = inl cut
  handler-Good down {c} (HandlerStep.hang_up at) (inr h) = inr (
      Sound-map down down c.client hanging_up hung_up c.to_server c.to_client c.to_client
        (λ now. inl now) (λ q. refl) (λ q. q)
        (subst (λ k. Sound down c.client k c.to_server c.to_client) at h))

  pub set_hearing-Good :
      (down : Bool) (c : Connection)
      → c.side ≡ queued
      → Good down c
      → Good down (set_side c hearing)
  set_hearing-Good down c at (inl cut) = inl cut
  set_hearing-Good down c at (inr h) = inr (
      Sound-map down down c.client queued hearing c.to_server c.to_client c.to_client (λ none. none)
        (λ q. q) (λ q. q) (subst (λ k. Sound down c.client k c.to_server c.to_client) at h))

  -- The server ends.
  over-Said : (down : Bool) (side : Side) (bs : List ℕ) → Said down side bs → Said true hung_up bs
  over-Said down queued bs none = inr (refl, none)
  over-Said down hearing bs none = inr (refl, none)
  over-Said down (replying r) bs (none, now) = inr (refl, none)
  over-Said down hanging_up bs now = inl now
  over-Said down hung_up bs told = still-Told down true bs (λ q. refl) told

  pub set_hung_up-Good :
      (down : Bool) (c : Connection) → Good down c → Good true (set_side c hung_up)
  set_hung_up-Good down c (inl cut) = inl cut
  set_hung_up-Good down c (inr h) = inr (
      Sound-map down true c.client c.side hung_up c.to_server c.to_client c.to_client
        (over-Said down c.side c.to_client) (λ q. refl) (λ q. refl) h)
