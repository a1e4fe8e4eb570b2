-- ===== src/Patterns/Erasure/Examples.antt =====
-- A memory that grounded a session with a summary, and a memory that has nothing to do with it.
use kagura_agent.Prelude.Json.{int, pos}
use kagura_agent.Prelude.{String, ◌≡◌, refl, true, false, [], ◌∷◌, map, ok, raised, ◌⊎◌}
use kagura_agent.Prelude.Dict
use kagura_agent.Prelude.Dict.{Dict}
use kagura_agent.Prelude.Decimal.{decimal}
use kagura_agent.Core.Session.{Checkpoint}
use kagura_agent.Mcp.Local
use kagura_agent.Mcp.Local.{LocalMemory, key_error, new_client, remember, has_memory}
use kagura_agent.Mcp.Local.Valid.{IsValid, new_client-IsValid, remember-IsValid}
use kagura_agent.Patterns.Provenance.{ProvenanceLog, sessions_for, record_grounding}
use kagura_agent.Patterns.Checkpoint.{erasable}
use kagura_agent.Patterns.Checkpoint.Erasing.{erasable-Deletes}
use kagura_agent.Prelude.Text.{member}
use kagura_agent.Patterns.Erasure.{
  CascadeResult, Cascade, memory_raised, delete_raised, forget_cascade,
}
use kagura_agent.Patterns.Erasure.Complete.{IsErased, start, forget_cascade_lem}

abbrev source_only : LocalMemory
source_only = (remember (new_client false) "source" [] "trusted" "on_recall").1

abbrev with_summary : LocalMemory
with_summary = (remember source_only "summary" ("session:S1" ∷ []) "quarantine" "on_recall").1

abbrev with_other : LocalMemory
with_other = (remember with_summary "other" ("session:S2" ∷ []) "trusted" "on_recall").1

with_other-IsValid : IsValid with_other
with_other-IsValid =
    remember-IsValid with_summary
      (remember-IsValid source_only
        (remember-IsValid (new_client false) (new_client-IsValid false) "source" [] "trusted"
          "on_recall")
        "summary" ("session:S1" ∷ []) "quarantine" "on_recall")
      "other" ("session:S2" ∷ []) "trusted" "on_recall"

abbrev trail : ProvenanceLog
trail =
    record_grounding (record { by_memory = []; tiers_by_session = [] }) "S1"
      (("m1", "trusted") ∷ [])

abbrev saved : Checkpoint (Unit {0})
saved = record { session_id = "S1"; turn = int (pos 1); state = tt }

abbrev store : Dict (Checkpoint (Unit {0}))
store = ("S1", saved) ∷ []

erased :
    map (λ e. e.0) (forget_cascade erasable "m1" with_other trail store).1.memory.memories
    ≡ "m3" ∷ []
unfolding forget_cascade record_grounding erasable remember new_client Local.memory_id
    Local.is_delivery_mode decimal Dict.get Dict.put Dict.remove sessions_for has_memory
    Local.ids_with_tag Local.forget
erased = refl

-- The summary of S1 grounds S2: what S2 left is not reached from the memory that grounded S1.
abbrev longer_trail : ProvenanceLog
longer_trail = record_grounding trail "S2" (("m2", "trusted") ∷ [])

second_session_kept :
    map (λ e. e.0) (forget_cascade erasable "m1" with_other longer_trail store).1.memory.memories
    ≡ "m3" ∷ []
unfolding forget_cascade record_grounding erasable remember new_client Local.memory_id
    Local.is_delivery_mode decimal Dict.get Dict.put Dict.remove sessions_for has_memory
    Local.ids_with_tag Local.forget
second_session_kept = refl

forget_cascade_lem_example :
    ((has_memory with_other "m1" ≡ false)
      × (forget_cascade erasable "m1" with_other trail store
          ≡ (raised (memory_raised key_error), start with_other trail store)))
    ⊎ ((t : Cascade (Dict (Checkpoint (Unit {0})))) × (forget_cascade erasable "m1" with_other trail
            store
          ≡ (raised delete_raised, t))
        × (has_memory t.memory "m1" ≡ true)
        × (sessions_for t.provenance "m1" ≡ sessions_for trail "m1")
        × (k : String) × (before : Dict (Checkpoint (Unit {0}))) × ((member k
                (sessions_for trail "m1")
              ≡ true)
            × ((erasable.delete k before).0 ≡ false)
            × (t.world ≡ (erasable.delete k before).1)))
    ⊎ ((result : CascadeResult) × (t : Cascade (Dict (Checkpoint (Unit {0})))) × (forget_cascade
            erasable "m1" with_other trail store
          ≡ (ok result, t))
        × IsErased erasable "m1" with_other trail result t)
forget_cascade_lem_example =
    forget_cascade_lem erasable erasable-Deletes "m1" with_other trail store with_other-IsValid
