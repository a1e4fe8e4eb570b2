-- ===== src/Eval/Gate/Examples.antt =====
-- Two generations with percentages for floats, which are natural numbers here.
use kagura_agent.Prelude.{ℕ, ◌+◌, ◌-◌, ◌≡◌, refl, true, false, some, List, [], ◌∷◌, ltb, leb}
use kagura_agent.Eval.Gate.{
  Float, Arm, control, treatment, GateThresholds, GenerationMetrics, GateVerdict, gate,
  tail_regression,
}

abbrev percent : Float ℕ
percent = record {
  lt = ltb;
  le = leb;
  add = λ a b. a + b;
  sub = λ a b. a - b;
  zero = 0;
  minus_one = 0;
}

abbrev limits : GateThresholds ℕ
limits = record {
  delta_min = 2;
  confidence = 95;
  bootstrap_resamples = 5000;
  max_degraded_rate = 0;
  max_tail_regression = 2;
  max_entropy_drop = 10;
  utility_flat_tolerance = 1;
  max_goodhart_decline = 2;
}

abbrev metric : Arm → ℕ → ℕ → GenerationMetrics ℕ
metric arm g tail = record {
  arm = arm;
  generation = g;
  task_success = 70;
  held_out_gold_success = some 60;
  tail_success = some tail;
  grounded_diversity = 50;
  selection_entropy = 80;
  selection_gini = 20;
  minimum_declared_probability = some 1;
  degraded_rate = 0;
  component_failures = [];
  selection_counts = [];
}

abbrev metrics : ℕ → List (GenerationMetrics ℕ)
metrics tail =
    metric control 0 50 ∷ metric treatment 0 50 ∷ metric control 1 50 ∷ metric treatment 1 tail ∷ []

abbrev allowed : GateVerdict ℕ
allowed = record {
  default_on_allowed = true;
  reasons = [];
  collapse_detected = false;
  goodhart_detected = false;
  max_tail_regression = 1;
  positivity_proven = true;
}

tail_regression_refused :
    gate percent 5 (metrics 40) limits "host"
    ≡ some (record allowed {
      default_on_allowed = false;
      reasons = tail_regression ∷ [];
      max_tail_regression = 10;
    })
unfolding gate
tail_regression_refused = refl
