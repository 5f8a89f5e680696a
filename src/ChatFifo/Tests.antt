-- ===== src/ChatFifo/Tests.antt =====
-- A run of a chat over FIFOs.
use c_teaching.Prelude.{ℕ, ◌+◌, length, ◌≤◌, ◌≡◌, refl, true, List, [], ◌∷◌, ◌++◌, join, arith}
use c_teaching.Chat.Threads.{ReceiverEvent, SenderEvent, receive, send, newline}
use c_teaching.ChatFifo.Roles.{accept_side, connect_side}
use c_teaching.ChatFifo.{System, Step, Reach, here, then_step}
use c_teaching.ChatFifo.Opening.{past_opening}
use c_teaching.ChatFifo.Start.{Steps, session_starts}
use c_teaching.ChatFifo.Flow.{Remains, shown_prefix}

abbrev two_made : (s : System) × Reach s
two_made = (
  _,
  then_step (then_step here (Step.make accept_side refl refl)) (Step.make connect_side refl refl),
)

abbrev started : (s : System) × Reach s
started = (
  _,
  then_step
      (then_step
        (then_step
          (then_step
            (then_step
              (then_step
                (then_step
                  (then_step two_made.1 (Step.call_open accept_side accept_side refl refl refl))
                  (Step.call_open connect_side accept_side refl refl refl))
                (Step.return_open accept_side accept_side refl refl refl))
              (Step.return_open connect_side accept_side refl refl refl))
            (Step.call_open connect_side connect_side refl refl refl))
          (Step.call_open accept_side connect_side refl refl refl))
        (Step.return_open accept_side connect_side refl refl refl))
      (Step.return_open connect_side connect_side refl refl refl),
)

whole_line : 0 + 2 ≤ length (b'A' ∷ newline ∷ [])
whole_line = omega arith

-- The connecting side sends "A\n".
abbrev one_message : (s : System) × Reach s
unfolding receive send
one_message = (
  _,
  then_step
      (then_step
        (then_step
          (then_step
            (then_step started.1
              (Step.sender_moves connect_side (SenderEvent.line (b'A' ∷ newline ∷ [])) refl refl))
            (Step.write_bytes connect_side 2 refl refl whole_line refl))
          (Step.receiver_moves accept_side ReceiverEvent.ready refl refl))
        (Step.read_byte accept_side refl refl refl))
      (Step.read_byte accept_side refl refl refl),
)

one_message_shown : (one_message.0.receivers accept_side).shown ≡ (b'A' ∷ newline ∷ []) ∷ []
unfolding receive send
one_message_shown = refl

shown_prefix_example :
    (rest : List ℕ) × (join (one_message.0.receivers accept_side).shown ++ rest
      ≡ (one_message.0.senders connect_side).sent)
    × Remains
        (one_message.0.receivers accept_side).pc
        (one_message.0.receivers accept_side).buf
        (one_message.0.fifos accept_side).bytes
        rest
shown_prefix_example = shown_prefix one_message.1 accept_side

session_starts_example :
    (t : System) × Steps two_made.0 t
    × (past_opening (t.phases accept_side) ≡ true)
    × (past_opening (t.phases connect_side) ≡ true)
session_starts_example = session_starts two_made.1 refl refl
