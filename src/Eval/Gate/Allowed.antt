-- ===== src/Eval/Gate/Allowed.antt =====
-- What it takes for the gate to allow reinforcement by default.
use kagura_agent.Prelude.{String, ◌≡◌, true, false, ◌&&◌, List, [], ◌∷◌, All, map}
use kagura_agent.Eval.Gate.{Float, GenerationMetrics, GateThresholds, held_out_values, is_positive}
use kagura_agent.Eval.Gate.Peaks.{IsSteady, NoFall}

module _ {F : Type 0} (float : Float F) where
  -- The entropy of no later generation drops by more than the limit while its success stays flat or falls.
  abbrev pub IsUncollapsed : GateThresholds F → List (GenerationMetrics F) → Type 0
  IsUncollapsed limits [] = Unit
  IsUncollapsed limits (b ∷ later) =
      All
        (λ (m : GenerationMetrics F).
          (float.lt limits.max_entropy_drop (float.sub b.selection_entropy m.selection_entropy)
            && float.le m.task_success (float.add b.task_success limits.utility_flat_tolerance))
          ≡ false)
        later

  pub record Guarded (ci_lower : F) (provenance : String) (metrics : List (GenerationMetrics F))
      (pairs : List (GenerationMetrics F × GenerationMetrics F)) (limits : GateThresholds F)
      : Type 0 where
    pub lift : float.le ci_lower limits.delta_min ≡ false
    pub host : provenance ≡ "host"
    pub healthy :
        All
          (λ (m : GenerationMetrics F). float.lt limits.max_degraded_rate m.degraded_rate ≡ false)
          metrics
    pub steady :
        All
          (λ (p : GenerationMetrics F × GenerationMetrics F).
            IsSteady float limits.max_tail_regression p.0.tail_success p.1.tail_success)
          pairs
    pub uncollapsed : IsUncollapsed limits (map (λ p. p.1) pairs)
    pub no_fall :
        NoFall float limits.max_goodhart_decline (held_out_values float (map (λ p. p.1) pairs))
    pub positive :
        All
          (λ (m : GenerationMetrics F). is_positive float m.minimum_declared_probability ≡ true)
          (map (λ p. p.1) pairs)
