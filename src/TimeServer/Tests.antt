-- ===== src/TimeServer/Tests.antt =====
-- One client of the time server.
use c_teaching.Prelude.{ℕ, ◌≤◌, ◌<◌, ◌≡◌, refl, ◌⊎◌, inl, same_bytes, true, List, [], ◌∷◌, arith}
use c_teaching.TimeServer.{is_ended, System, ClientStep, HandlerStep, Step, Reach, here, then_step}
use c_teaching.TimeServer.Answers.{prints_time}

abbrev some_time : ℕ → List ℕ
some_time t = t ∷ t ∷ []

client_there : 0 < 1
client_there = omega arith

whole_command : (4 ≤ 4) × (4 ≤ 256) × (0 < 4)
whole_command = (omega arith, omega arith, omega arith)

whole_answer : (2 ≤ 2) × (2 < 256) × (0 < 2)
whole_answer = (omega arith, omega arith, omega arith)

abbrev asked : (s : System) × Reach some_time s
asked = (
  _,
  then_step
      (then_step (then_step here (Step.connect refl))
        (Step.client_moves 0 client_there (ClientStep.send 4 refl whole_command.0)))
      (Step.accept refl client_there refl),
)

-- It is 9 when the server replies.
abbrev answered : (s : System) × Reach some_time s
unfolding same_bytes
answered = (
  _,
  then_step
      (then_step
        (then_step
          (then_step asked.1 (
            Step.handle 0 refl
              (HandlerStep.hear 4 9 refl whole_command.1 whole_command.0 (inl whole_command.2))))
          (Step.handle 0 refl (HandlerStep.reply 2 refl whole_answer.0)))
        (Step.client_moves 0 client_there
          (ClientStep.receive 2 refl whole_answer.1 whole_answer.0 (inl whole_answer.2))))
      (Step.client_moves 0 client_there (ClientStep.close refl)),
)

prints_time_example :
    ((t : ℕ) × (9 ∷ 9 ∷ [] ≡ some_time t))
    ⊎ ((is_ended answered.0.main ≡ true) × (some_time 9 ≡ []))
unfolding same_bytes
prints_time_example = prints_time 0 answered.1 refl refl
