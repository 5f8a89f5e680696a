-- ===== src/Accum/Tests.antt =====
-- Two threads that add 5 once each, and the theorems at their runs.
use c_teaching.Prelude.{ℕ, ◌-◌, ◌*◌, ◌≤◌, ◌≡◌, refl, min, arith}
use c_teaching.Accum.{expected_value, lost_adds}
use c_teaching.Accum.Racy
use c_teaching.Accum.Slots
use c_teaching.Accum.Exact.{computed_value-eq-expected}
use c_teaching.Accum.Lost.{lost_adds-exact}

record RacyRun : Type 0 where
  last : Racy.System
  reach : Racy.Reach 2 1 5 last

-- Both load 0.
abbrev racy : RacyRun
racy = record {
  last = _;
  reach =
      Racy.then_step
        (Racy.then_step
          (Racy.then_step
            (Racy.then_step
              (Racy.then_step
                (Racy.then_step
                  (Racy.then_step (Racy.then_step Racy.here (Racy.create refl)) (Racy.create refl))
                  (Racy.load 0 (omega arith) refl))
                (Racy.load 1 (omega arith) refl))
              (Racy.store 0 (omega arith) refl))
            (Racy.store 1 (omega arith) refl))
          (Racy.join refl refl))
        (Racy.join refl refl);
}

record SlotsRun : Type 0 where
  last : Slots.System
  reach : Slots.Reach 2 1 5 last

-- The same steps.
abbrev slots : SlotsRun
slots = record {
  last = _;
  reach =
      Slots.then_step
        (Slots.then_step
          (Slots.then_step
            (Slots.then_step
              (Slots.then_step
                (Slots.then_step
                  (Slots.then_step (Slots.then_step Slots.here (Slots.create refl))
                    (Slots.create refl))
                  (Slots.load 0 (omega arith) refl))
                (Slots.load 1 (omega arith) refl))
              (Slots.store 0 (omega arith) refl))
            (Slots.store 1 (omega arith) refl))
          (Slots.join refl refl))
        (Slots.join refl refl);
}

racy_value : racy.last.shared_variable ≡ 5
racy_value = refl

slots_value : slots.last.computed_value ≡ 10
slots_value = refl

computed_value-eq-expected_example :
    (slots.last.computed_value ≡ expected_value 2 1 5)
    × (lost_adds (expected_value 2 1 5) slots.last.computed_value 5 ≡ 0)
computed_value-eq-expected_example = computed_value-eq-expected slots.reach refl

lost_adds-exact_example :
    (c : ℕ) × (racy.last.shared_variable ≡ c * 5)
    × (min 1 (2 * 1) ≤ c)
    × (c ≤ 2 * 1)
    × (lost_adds (expected_value 2 1 5) racy.last.shared_variable 5 ≡ 2 * 1 - c)
lost_adds-exact_example = lost_adds-exact (omega arith) (omega arith) racy.reach refl
