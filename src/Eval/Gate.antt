-- ===== src/Eval/Gate.antt =====
-- eval/bootstrap_ab.py: `_gate`, which decides whether reinforcement may be on by default, over the metrics of
-- each generation. A float is an element of a type `F` with Python's comparison and arithmetic.
pub mod Peaks
pub mod Allowed
mod Examples
use kagura_agent.Prelude.Dict.{Dict}
use kagura_agent.Prelude.{
  ℕ, String, Bool, true, false, not, ◌&&◌, ◌||◌, Option, none, some, List, [], ◌∷◌, ◌==◌, eqb, ltb,
  if◌then◌else◌, map,
}

-- `lt` and `le` are `<` and `<=`.
pub record Float (F : Type 0) : Type 0 where
  pub lt : F → F → Bool
  pub le : F → F → Bool
  pub add : F → F → F
  pub sub : F → F → F
  pub zero : F
  pub minus_one : F

pub data Arm : Type 0 where
  control treatment : Arm

pub record GateThresholds (F : Type 0) : Type 0 where
  pub delta_min : F
  pub confidence : F
  pub bootstrap_resamples : ℕ
  pub max_degraded_rate : F
  pub max_tail_regression : F
  pub max_entropy_drop : F
  pub utility_flat_tolerance : F
  pub max_goodhart_decline : F

pub record GenerationMetrics (F : Type 0) : Type 0 where
  pub arm : Arm
  pub generation : ℕ
  pub task_success : F
  pub held_out_gold_success : Option F
  pub tail_success : Option F
  pub grounded_diversity : F
  pub selection_entropy : F
  pub selection_gini : F
  pub minimum_declared_probability : Option F
  pub degraded_rate : F
  pub component_failures : Dict ℕ
  pub selection_counts : Dict ℕ

pub data GateReason : Type 0 where
  no_lift not_host degraded tail_regression collapse goodhart no_positivity : GateReason

pub record GateVerdict (F : Type 0) : Type 0 where
  pub default_on_allowed : Bool
  pub reasons : List GateReason
  pub collapse_detected : Bool
  pub goodhart_detected : Bool
  pub max_tail_regression : F
  pub positivity_proven : Bool

-- One reason, if the test holds.
unfoldable pub add_reason : Bool → GateReason → List GateReason → List GateReason
add_reason b r rs = if b then r ∷ rs else rs

unfoldable pub no_reason : List GateReason → Bool
no_reason [] = true
no_reason (_ ∷ _) = false

unfoldable pub same_arm : Arm → Arm → Bool
same_arm control control = true
same_arm treatment treatment = true
same_arm _ _ = false

-- The generations in rising order, each once.
unfoldable pub insert : ℕ → List ℕ → List ℕ
insert g [] = g ∷ []
insert g (h ∷ hs) =
    let rest = insert g hs in if eqb g h then h ∷ hs else if ltb g h then g ∷ h ∷ hs else h ∷ rest

module _ {F : Type 0} where
  -- `by_arm_generation[(arm, generation)]`, the last metric of the key, none for a `KeyError`
  unfoldable pub metric_of : List (GenerationMetrics F) → Arm → ℕ → Option (GenerationMetrics F)
  unfolding same_arm
  metric_of [] arm g = none
  metric_of (m ∷ ms) arm g = elim (metric_of ms arm g) [
    | some n ↦ some n
    | none ↦ if same_arm m.arm arm && eqb m.generation g then some m else none
  ]

  unfoldable pub generations_of : List (GenerationMetrics F) → List ℕ
  unfolding insert
  generations_of [] = []
  generations_of (m ∷ ms) = insert m.generation (generations_of ms)

  -- the control and the treatment of each generation
  unfoldable pub pairs_of :
      List (GenerationMetrics F)
      → List ℕ
      → Option (List (GenerationMetrics F × GenerationMetrics F))
  unfolding metric_of
  pairs_of ms [] = some []
  pairs_of ms (g ∷ gs) =
      let rest = pairs_of ms gs in
      elim (metric_of ms control g) [
        | none ↦ none
        | some c ↦ elim (metric_of ms treatment g) [
          | none ↦ none
          | some t ↦ elim rest [ none ↦ none | some ps ↦ some ((c, t) ∷ ps) ]
        ]
      ]

  module _ (float : Float F) where
    -- max(a, b)
    unfoldable pub max_of : F → F → F
    max_of a b = if float.lt a b then b else a

    unfoldable pub any_degraded : F → List (GenerationMetrics F) → Bool
    any_degraded limit [] = false
    any_degraded limit (m ∷ ms) = float.lt limit m.degraded_rate || any_degraded limit ms

    -- the regression after one generation
    unfoldable pub regress : F → Option F → Option F → F
    unfolding max_of
    regress worst (some c) (some t) = max_of worst (float.sub c t)
    regress worst _ _ = worst

    unfoldable pub worst_tail : F → List (GenerationMetrics F × GenerationMetrics F) → F
    unfolding regress
    worst_tail worst [] = worst
    worst_tail worst ((c, t) ∷ ps) = worst_tail (regress worst c.tail_success t.tail_success) ps

    -- `collapse`, over the treatments after the first
    unfoldable pub collapses :
        GateThresholds F → GenerationMetrics F → List (GenerationMetrics F) → Bool
    collapses limits baseline [] = false
    collapses limits baseline (m ∷ ms) =
        (float.lt limits.max_entropy_drop (float.sub baseline.selection_entropy m.selection_entropy)
          && float.le m.task_success
              (float.add baseline.task_success limits.utility_flat_tolerance))
        || collapses limits baseline ms

    unfoldable pub held_out_values : List (GenerationMetrics F) → List F
    held_out_values [] = []
    held_out_values (m ∷ ms) =
        let rest = held_out_values ms in
        elim m.held_out_gold_success [ none ↦ rest | some v ↦ v ∷ rest ]

    -- the loop over the held-out values, with the peak so far
    unfoldable pub falls : F → F → List F → Bool
    unfolding max_of
    falls limit peak [] = false
    falls limit peak (v ∷ vs) =
        float.lt limit (float.sub (max_of peak v) v) || falls limit (max_of peak v) vs

    unfoldable pub is_positive : Option F → Bool
    is_positive none = false
    is_positive (some p) = float.lt float.zero p

    unfoldable pub all_positive : List (GenerationMetrics F) → Bool
    unfolding is_positive
    all_positive [] = true
    all_positive (m ∷ ms) = is_positive m.minimum_declared_probability && all_positive ms

    -- the reasons of each test, in their order
    unfoldable pub reasons_of :
        F
        → Bool
        → List (GenerationMetrics F)
        → List (GenerationMetrics F × GenerationMetrics F)
        → GenerationMetrics F
        → List (GenerationMetrics F)
        → GateThresholds F
        → List GateReason
    unfolding add_reason any_degraded worst_tail collapses falls held_out_values all_positive
    reasons_of ci_lower is_host metrics pairs baseline later limits =
        add_reason (float.le ci_lower limits.delta_min) no_lift (
          add_reason (not is_host) not_host (
            add_reason (any_degraded limits.max_degraded_rate metrics) degraded (
              add_reason (float.lt limits.max_tail_regression (worst_tail float.zero pairs))
                tail_regression
                (add_reason (collapses limits baseline later) collapse (
                  add_reason
                    (falls limits.max_goodhart_decline float.minus_one
                      (held_out_values (baseline ∷ later)))
                    goodhart
                    (add_reason (not (all_positive (baseline ∷ later))) no_positivity []))))))

    -- the verdict, where there is a treatment
    unfoldable pub verdict_of :
        F
        → Bool
        → List (GenerationMetrics F)
        → List (GenerationMetrics F × GenerationMetrics F)
        → List (GenerationMetrics F)
        → GateThresholds F
        → Option (GateVerdict F)
    unfolding reasons_of no_reason
    verdict_of ci_lower is_host metrics pairs [] limits = none
    verdict_of ci_lower is_host metrics pairs (baseline ∷ later) limits = some (record {
      default_on_allowed =
          no_reason (reasons_of ci_lower is_host metrics pairs baseline later limits);
      reasons = reasons_of ci_lower is_host metrics pairs baseline later limits;
      collapse_detected = collapses limits baseline later;
      goodhart_detected =
          falls limits.max_goodhart_decline float.minus_one (held_out_values (baseline ∷ later));
      max_tail_regression = worst_tail float.zero pairs;
      positivity_proven = all_positive (baseline ∷ later);
    })

    -- `_gate`; none where it raises, for a generation without both arms or for no generation
    unfoldable pub gate :
        F → List (GenerationMetrics F) → GateThresholds F → String → Option (GateVerdict F)
    unfolding pairs_of generations_of verdict_of
    gate ci_lower metrics limits provenance = elim (pairs_of metrics (generations_of metrics)) [
      | none ↦ none
      | some pairs ↦
          verdict_of ci_lower (provenance == "host") metrics pairs (map (λ p. p.1) pairs) limits
    ]
