-- ===== src/Patterns/FailureLearning.antt =====
-- patterns/failure_learning.py: `FailureLearner`, over a local memory and the graduation engine.
use kagura_agent.Prelude.{ℕ, String, Bool, [], ◌∷◌, Result, ok, raised}
use kagura_agent.Mcp.Local
use kagura_agent.Mcp.Local.{LocalMemory, MemoryError}
use kagura_agent.Membrane.Graduation.{GraduationPolicy, Engine, record_failure, record_success}

pub record FailureLearner : Type 0 where
  pub memory : LocalMemory
  pub policy : GraduationPolicy
  pub graduation : Engine

-- The failure is written to the quarantine tier, and linked to the action that it should prevent. `now` is the engine's clock.
unfoldable pub after_failure :
    FailureLearner
    → String
    → String
    → ℕ
    → Result MemoryError String × LocalMemory
    → Result MemoryError (Unit {0}) × FailureLearner
after_failure l category action now (raised e, memory) = (raised e, record l { memory = memory })
after_failure l category action now (ok id, memory) = (
  ok tt,
  record l {
    memory = Local.create_edge memory id action "prevents";
    graduation = record_failure l.policy now l.graduation category;
  },
)

unfoldable pub learn_failure :
    FailureLearner → String → String → String → ℕ → Result MemoryError (Unit {0}) × FailureLearner
unfolding after_failure
learn_failure l category action description now =
    after_failure l category action now
      (Local.remember l.memory description ("failure" ∷ category ∷ []) "quarantine" "on_recall")

unfoldable pub learn_success : FailureLearner → String → String → Bool → FailureLearner
learn_success l category task_id verified = record l {
  graduation = record_success l.graduation category task_id verified;
}
