-- ===== src/Patterns/Continuity/Examples.antt =====
-- A run that one trusted memory grounds.
use kagura_agent.Prelude.Json.{Value, int, pos}
use kagura_agent.Prelude.{
  ℕ, String, ◌≡◌, refl, true, false, none, some, List, [], ◌∷◌, map, All, ok,
}
use kagura_agent.Prelude.Dict
use kagura_agent.Prelude.Decimal.{decimal}
use kagura_agent.Core.Session.{Task, BrainEvent, done, Brain, CheckpointStore}
use kagura_agent.Mcp.Local
use kagura_agent.Mcp.Local.{Memory, LocalMemory, is_trusted, new_client, remember}
use kagura_agent.Mcp.Local.Valid.{IsValid, new_client-IsValid, remember-IsValid}
use kagura_agent.Patterns.Provenance.{ProvenanceLog}
use kagura_agent.Patterns.Continuity.{RunState, prepare_bootstrap_prompt, ground_and_run}
use kagura_agent.Patterns.Continuity.Grounded.{KeepsBootstrap, ground_and_run-keeps-bootstrap}
use kagura_agent.Patterns.Continuity.Recorded.{AllRecorded, ground_and_run-recorded}

abbrev one_memory : LocalMemory
one_memory = (remember (new_client false) "Deploy notes" [] "trusted" "on_recall").1

one_memory-IsValid : IsValid one_memory
one_memory-IsValid =
    remember-IsValid (new_client false) (new_client-IsValid false) "Deploy notes" [] "trusted"
      "on_recall"

abbrev no_log : ProvenanceLog
no_log = record { by_memory = []; tiers_by_session = [] }

abbrev host : RunState (List Value)
host = record { memory = one_memory; provenance = some no_log; world = [] }

abbrev brain : Brain ℕ (List Value)
brain = record {
  run = λ task prior w. ((done "deploy all" 1 ∷ [], none), w);
  turn_of = λ n. int (pos n);
}

abbrev store : CheckpointStore ℕ (List Value)
store = record { load = λ session w. (ok none, w); save = λ c w. (ok tt, c.turn ∷ w) }

abbrev notes : Memory
notes = record {
  id = "m1";
  text = "Deploy notes";
  tags = [];
  trust_tier = "trusted";
  delivery_mode = "on_recall";
}

abbrev effective : String
effective = "Relevant context from prior work:\n- Deploy notes\n\nTask:\ndeploy"

prepared : prepare_bootstrap_prompt one_memory "deploy" [] ≡ ok (effective, notes ∷ [])
unfolding prepare_bootstrap_prompt remember new_client Local.memory_id Local.is_delivery_mode
    decimal Dict.get Dict.put kagura_agent.Mcp.Quarantine.compose_bootstrap Local.load_pinned
    Local.recall kagura_agent.Core.Session.drive
prepared = refl

summary_kept :
    map (λ e. e.0) (ground_and_run brain store "S1" "deploy" [] host).1.memory.memories
    ≡ "m1" ∷ "m2" ∷ []
unfolding ground_and_run remember new_client Local.memory_id Local.is_delivery_mode decimal Dict.get
    Dict.put kagura_agent.Mcp.Quarantine.compose_bootstrap Local.load_pinned Local.recall
    kagura_agent.Core.Session.drive
summary_kept = refl

ground_and_run-keeps-bootstrap_example :
    KeepsBootstrap one_memory
      (ground_and_run brain store "S1" "deploy" [] host).1.memory
      "deploy"
      []
      []
      5
ground_and_run-keeps-bootstrap_example =
    ground_and_run-keeps-bootstrap brain store "S1" "deploy" [] host "deploy" [] [] 5
      one_memory-IsValid

ground_and_run-recorded_example :
    (now : ProvenanceLog) × ((ground_and_run brain store "S1" "deploy" [] host).1.provenance
      ≡ some now)
    × All (λ m. is_trusted m ≡ true) (notes ∷ [])
    × AllRecorded now "S1" (notes ∷ [])
ground_and_run-recorded_example =
    ground_and_run-recorded brain store "S1" "deploy" effective [] (notes ∷ []) host no_log refl
      prepared
