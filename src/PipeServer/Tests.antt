-- ===== src/PipeServer/Tests.antt =====
-- A run of the server in which one thread begins before a signal ends the process.
use c_teaching.Prelude.{ℕ, ◌≤◌, ◌<◌, ◌≡◌, refl, List, [], ◌∷◌, ◌++◌, arith}
use c_teaching.Sys.{ok}
use c_teaching.Logger
use c_teaching.PipeServer.{Server, Texts, init, Step, Reach, here, then_step}
use c_teaching.PipeServer.Lines.{text_of, own, printed_at}
use c_teaching.PipeServer.Logged.{Runs, pipe_log, pipe_log_whole}

abbrev some_texts : Texts
some_texts = record {
  welcome = λ a. a ∷ [];
  starting = 1 ∷ [];
  accepted = 2 ∷ [];
  handles = λ i a. 3 ∷ i ∷ a ∷ [];
  closes = λ i a. 4 ∷ i ∷ a ∷ [];
}

abbrev started : (s : Server) × Reach some_texts (init 0) s
started = (
  _,
  then_step
      (then_step (then_step (then_step here (Step.close_log refl refl)) (Step.close_pipe refl refl))
        (Step.redirect refl refl))
      (Step.boot refl refl),
)

first_thread : 0 < 1
first_thread = omega arith

abbrev one_thread : (s : Server) × Reach some_texts (init 0) s
one_thread = (
  _,
  then_step
      (then_step
        (then_step
          (then_step
            (then_step (then_step started.1 (Step.accept 7 refl refl)) (Step.debug refl refl))
            (Step.create refl refl))
          (Step.allocate 1 refl refl refl))
        (Step.read_address 0 refl first_thread refl refl))
      (Step.announce 0 refl first_thread refl),
)

whole_read : (5 ≤ 512) × (5 ≤ 5)
whole_read = (omega arith, omega arith)

no_byte : 0 ≤ 512
no_byte = omega arith

not_zero : {A : Type 0} → ◌≡◌ {A = ℕ} 5 0 → A
not_zero e = absurd (omega (arith, e))

-- The Logger copies the three lines, finds the end of the pipe and ends.
abbrev logged : (s : Server) × Reach some_texts (init 0) s
unfolding Logger.step
logged = (
  _,
  then_step
      (then_step
        (then_step
          (then_step
            (then_step (then_step one_thread.1 (Step.killed refl))
              (Step.logs (ok 5) (whole_read.0, whole_read.1, not_zero)))
            (Step.logs (ok 5) whole_read.1))
          (Step.logs (ok 0) (no_byte, no_byte_left, λ e. (refl, refl))))
        (Step.logs (ok 0) tt))
      (Step.logs (ok 0) tt),
)
  where
    no_byte_left : 0 ≤ 0
    no_byte_left = omega arith

pipe_log_example :
    ((rest : List ℕ) × (one_thread.0.logger.log ++ rest ≡ text_of one_thread.0.printed))
    × ((i : ℕ) → own i one_thread.0.printed ≡ printed_at some_texts i (one_thread.0.threads i))
    × ((i : ℕ) → Runs some_texts (one_thread.0.threads i))
pipe_log_example = pipe_log one_thread.1

pipe_log_whole_example : logged.0.logger.log ≡ text_of logged.0.printed
unfolding Logger.step
pipe_log_whole_example = pipe_log_whole logged.1 refl refl
