-- ===== src/Eval/Envelope.antt =====
-- eval/bootstrap_ab.py: `BootstrapEnvelope`, the answer of a service to one trial, its checks and what an
-- experiment reads of it. An answer is a JSON object.
use kagura_agent.Prelude.{
  String, Bool, false, ◌||◌, Option, none, some, List, [], ◌∷◌, ◌==◌, if◌then◌else◌, Result, ok,
  raised, bind,
}
use kagura_agent.Prelude.Text.{is_empty}
use kagura_agent.Prelude.Json
use kagura_agent.Prelude.Json.{Value, bool, Fields, as_text, as_object}
use kagura_agent.Mcp.RestBootstrap.{listed, all_objects, agrees}
use kagura_agent.Eval.Arms.{ExperimentError, invariant_error, expect}

-- the value, or the violation of an invariant
unfoldable pub demand_value : {A : Type 0} → Option A → Result ExperimentError A
demand_value none = raised invariant_error
demand_value (some a) = ok a

-- a text that is not empty
unfoldable pub id_text : Option Value → Option String
unfolding as_text
id_text o = elim (as_text o) [ none ↦ none | some s ↦ if is_empty s then none else some s ]

-- The text under the first key that has one.
unfoldable pub first_id : Fields → List String → Option String
unfolding id_text
first_id fs [] = none
first_id fs (key ∷ keys) = elim (id_text (Json.get fs key)) [
  | some s ↦ some s
  | none ↦ first_id fs keys
]

-- The same, in the first of the objects under some keys that has one.
unfoldable pub nested_id : Fields → List String → Option String
unfolding as_object first_id
nested_id fs [] = none
nested_id fs (name ∷ names) = elim (as_object (Json.get fs name)) [
  | none ↦ nested_id fs names
  | some inner ↦ elim (first_id inner ("eval_id" ∷ "logical_id" ∷ "external_id" ∷ [])) [
    | some s ↦ some s
    | none ↦ nested_id fs names
  ]
]

-- record.get("id", record.get("memory_id"))
unfoldable pub row_id : Fields → Option String
unfolding id_text
row_id fs = elim (Json.get fs "id") [
  | some v ↦ id_text (some v)
  | none ↦ id_text (Json.get fs "memory_id")
]

unfoldable pub memory_logical_id : Fields → Result ExperimentError String
unfolding first_id nested_id row_id demand_value
memory_logical_id fs = elim (first_id fs ("logical_id" ∷ "external_id" ∷ [])) [
  | some s ↦ ok s
  | none ↦ elim (nested_id fs ("details" ∷ "context" ∷ "metadata" ∷ [])) [
    | some s ↦ ok s
    | none ↦ demand_value (row_id fs)
  ]
]

unfoldable pub memory_actual_id : Fields → Result ExperimentError String
unfolding row_id demand_value
memory_actual_id fs = demand_value (row_id fs)

unfoldable pub records_of : Fields → List String → Result ExperimentError (List Fields)
unfolding listed demand_value all_objects
records_of component [] = ok []
records_of component (key ∷ keys) = elim (listed (Json.get component key)) [
  | none ↦ records_of component keys
  | some vs ↦ demand_value (all_objects vs)
]

unfoldable pub has_status : List String → Option String → Bool
has_status allowed none = false
has_status [] (some s) = false
has_status (a ∷ allowed) (some s) = a == s || has_status allowed (some s)

-- one step of the loop over the components: its status
unfoldable pub valid_component : Fields → String → Result ExperimentError (Option String)
unfolding demand_value as_object has_status as_text expect
valid_component components name =
    bind (demand_value (as_object (Json.get components name))) (λ component.
      bind
        (expect invariant_error
          (has_status ("ok" ∷ "error" ∷ "skipped" ∷ []) (as_text (Json.get component "status"))))
        (λ _. ok (as_text (Json.get component "status"))))

-- the loop, and whether a component failed
unfoldable pub valid_components : Fields → List String → Result ExperimentError Bool
unfolding valid_component has_status
valid_components components [] = ok false
valid_components components (name ∷ names) = bind (valid_component components name) (λ status.
    bind (valid_components components names)
      (λ later. ok (has_status ("error" ∷ []) status || later)))

unfoldable pub declared_flag : Option Value → Option Bool
declared_flag (some (bool b)) = some b
declared_flag _ = none

-- `BootstrapEnvelope.__post_init__`
unfoldable pub valid_envelope : Fields → Result ExperimentError (Unit {0})
unfolding expect has_status as_text demand_value as_object valid_components valid_component
    declared_flag agrees
valid_envelope raw =
    bind (expect invariant_error (has_status ("success" ∷ []) (as_text (Json.get raw "status"))))
      (λ _. bind (demand_value (as_object (Json.get raw "agent"))) (λ agent.
        bind (demand_value (as_text (Json.get agent "agent_id"))) (λ _.
          bind (demand_value (as_object (Json.get raw "context"))) (λ _.
            bind (demand_value (as_text (Json.get raw "instructions"))) (λ _.
              bind (demand_value (as_object (Json.get raw "components"))) (λ components.
                bind
                  (valid_components components
                    ("pinned" ∷ "recall" ∷ "upcoming" ∷ "state" ∷ "policy" ∷ []))
                  (λ failed. bind (valid_component components "recall") (λ recall.
                    bind (expect invariant_error (has_status ("ok" ∷ "error" ∷ []) recall)) (λ _.
                      bind (demand_value (declared_flag (Json.get raw "degraded")))
                        (λ degraded. expect invariant_error (agrees degraded failed)))))))))))
