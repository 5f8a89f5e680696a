-- ===== src/TimeServer/Answers.antt =====
-- What the clients of the time server print.
use c_teaching.Prelude.{ℕ, ◌≡◌, refl, ap, subst, ◌⊎◌, inl, inr, Bool, true, false, List, [], arith}
use c_teaching.Threads.{update-all}
use c_teaching.TimeServer.{
  sending, printed, hearing, fresh, set_side, set_client, is_ended, System, Step, Reach, here,
  then_step,
}
use c_teaching.TimeServer.Connections.{
  Sound, Good, client-Good, handler-Good, set_hearing-Good, set_hung_up-Good,
}

module _ (time_text : ℕ → List ℕ) where
  abbrev AllGood : Bool → System → Type 0
  AllGood down s = (i : ℕ) → Good time_text down (s.connections i)

  step-AllGood :
      {s t : System}
      → Step time_text s t
      → AllGood (is_ended s.main) s
      → AllGood (is_ended t.main) t
  step-AllGood {s} (Step.connect up) all =
      update-all (λ i c. Good time_text (is_ended s.main) c) s.connections s.connected
        (set_client fresh sending) all (inr (refl, refl))
  step-AllGood {s} (Step.client_moves i {c} lt move) all =
      update-all (λ i c. Good time_text (is_ended s.main) c) s.connections i c all
        (client-Good time_text (is_ended s.main) move (all i))
  step-AllGood {s} (Step.accept at lt waits) all =
      let all' = subst (λ d. AllGood d s) (ap is_ended at) all in
      update-all (λ i c. Good time_text false c) s.connections s.accepted
        (set_side (s.connections s.accepted) hearing) all'
        (set_hearing-Good time_text false (s.connections s.accepted) waits (all' s.accepted))
  step-AllGood {s} (Step.handle i {c} at move) all =
      update-all (λ i c. Good time_text (is_ended s.main) c) s.connections i c all
        (handler-Good time_text (is_ended s.main) move (all i))
  step-AllGood {s} (Step.next at end) all = subst (λ d. AllGood d s) (ap is_ended at) all
  step-AllGood {s} Step.fail all =
      λ i. set_hung_up-Good time_text (is_ended s.main) (s.connections i) (all i)

  reach-AllGood : {s : System} → Reach time_text s → AllGood (is_ended s.main) s
  reach-AllGood here = λ i. inr (refl, refl)
  reach-AllGood (then_step run step) = step-AllGood step (reach-AllGood run)

-- In every reachable state of the time server with any number of clients, unless a call on its
-- connection has moved less than there was: an answer that a client prints is the text of a time,
-- or is empty and the server has ended.
pub prints_time :
    {time_text : ℕ → List ℕ} {s : System} {bs : List ℕ} (i : ℕ)
    → Reach time_text s
    → (s.connections i).client ≡ printed bs
    → (s.connections i).cut ≡ false
    → ((t : ℕ) × (bs ≡ time_text t)) ⊎ ((is_ended s.main ≡ true) × (bs ≡ []))
prints_time {time_text} {s} i run at whole = elim (reach-AllGood time_text run i) [
  | inl cut ↦ absurd (ground (arith, cut, whole))
  | inr h ↦
      (subst
        (λ k.
          Sound time_text (is_ended s.main) k (s.connections i).side (s.connections i).to_server
            (s.connections i).to_client)
        at h).0
]
