-- ===== src/Mcp/RestBootstrap/Lanes.antt =====
-- mcp/rest_bootstrap.py: `_parse_agent_bootstrap` and the client, over the parsers of the fields.
use kagura_agent.Prelude.{
  ℕ, String, Bool, true, false, not, ◌&&◌, ◌||◌, Option, none, some, List, [], ◌∷◌, ◌==◌,
  if◌then◌else◌, leb, Result, ok, raised, bind, map,
}
use kagura_agent.Prelude.Text.{is_empty}
use kagura_agent.Prelude.Json
use kagura_agent.Prelude.Json.{
  Value, null, bool, str, object, Fields, end, Python, as_text, as_object, to_text, without,
}
use kagura_agent.Mcp.Local.{Memory}
use kagura_agent.Mcp.RestBootstrap.{
  BootstrapError, contract, unreachable, bad_recall_k, cancelled, ComponentStatus, AgentBootstrap,
  Components, require, guard, trusted_component_memories, components_of, statuses_of, is_ok,
  is_skipped, failures_of, has_some, agrees, is_proven,
}

pub record Head : Type 0 where
  pub degraded : Bool
  pub agent : Fields
  pub agent_id : String
  pub context_id : String
  pub instructions : String
  pub components : Fields

-- isinstance(value, bool), and the value
unfoldable pub as_bool : Option Value → Option Bool
as_bool (some (bool b)) = some b
as_bool _ = none

-- `isinstance(value, str) and value`
unfoldable pub as_identity : Option Value → Option String
unfolding as_text
as_identity o = elim (as_text o) [ none ↦ none | some s ↦ if is_empty s then none else some s ]

unfoldable pub instructions_of : Option Value → Result BootstrapError String
instructions_of none = ok ""
instructions_of (some null) = ok ""
instructions_of (some (str s)) = ok s
instructions_of (some _) = raised contract

unfoldable pub is_success_status : Option String → Bool
is_success_status none = false
is_success_status (some s) = s == "success"

-- the checks before the loop
unfoldable pub head_of : Fields → Result BootstrapError Head
unfolding guard require as_bool as_identity instructions_of is_success_status
head_of raw = bind (guard (is_success_status (as_text (Json.get raw "status")))) (λ _.
    bind (require (as_bool (Json.get raw "degraded"))) (λ degraded.
      bind (require (as_object (Json.get raw "agent"))) (λ agent.
        bind (require (as_identity (Json.get agent "agent_id"))) (λ agent_id.
          bind (require (as_object (Json.get raw "context"))) (λ context.
            bind (require (as_identity (Json.get context "id"))) (λ context_id.
              bind (instructions_of (Json.get raw "instructions")) (λ instructions.
                bind (require (as_object (Json.get raw "components"))) (λ components. ok (record {
                  degraded = degraded;
                  agent = agent;
                  agent_id = agent_id;
                  context_id = context_id;
                  instructions = instructions;
                  components = components;
                })))))))))

-- the checks after the loop
unfoldable pub check_components : Bool → Components → Result BootstrapError (Unit {0})
unfolding guard
check_components degraded cs =
    bind (guard (agrees degraded (has_some (failures_of (statuses_of cs))))) (λ _.
      bind (guard (not (is_skipped cs.recall.0)))
        (λ _. guard (not (is_ok cs.recall.0) || is_proven cs.recall.1)))

-- the memories of a component, none where it is not ok
unfoldable pub lane :
    Python → ComponentStatus × Fields → List String → Result BootstrapError (List Memory)
unfolding trusted_component_memories
lane py (status, component) keys =
    if is_ok status then trusted_component_memories py component keys else ok []

unfoldable pub pin : Memory → Memory
pin m = record m { delivery_mode = "always" }

unfoldable pub states_of : Option Value → Value
states_of none = object end
states_of (some v) = v

unfoldable pub state_of : ComponentStatus × Fields → Result BootstrapError Fields
unfolding states_of as_object
state_of (status, component) = elim (as_object (some (states_of (Json.get component "states")))) [
  | some fs ↦ ok fs
  | none ↦ if is_ok status then raised contract else ok end
]

unfoldable pub policy_of : ComponentStatus × Fields → Option Fields
policy_of (status, component) = if is_ok status then some (without "status" component) else none

-- `str(binding_context) != context_id`, where the agent has a binding
unfoldable pub is_bound : Python → Option Fields → String → Bool
unfolding to_text
is_bound py none context_id = true
is_bound py (some binding) context_id = elim (Json.get binding "context_id") [
  | none ↦ true
  | some null ↦ true
  | some v ↦ to_text py v == context_id
]

unfoldable pub bootstrap_of : Python → Head → Components → Result BootstrapError AgentBootstrap
unfolding lane pin state_of policy_of is_bound guard
bootstrap_of py head cs = bind (lane py cs.pinned ("memories" ∷ [])) (λ pinned.
    bind (lane py cs.recall ("results" ∷ "memories" ∷ [])) (λ recall.
      bind (lane py cs.upcoming ("results" ∷ "memories" ∷ [])) (λ upcoming.
        bind (state_of cs.state) (λ state.
          bind (guard (is_bound py (as_object (Json.get head.agent "binding")) head.context_id))
            (λ _. ok (record {
              agent_id = some head.agent_id;
              context_id = some head.context_id;
              instructions = head.instructions;
              pinned = map pin pinned;
              recall = recall;
              upcoming = upcoming;
              state = state;
              policy = policy_of cs.policy;
              degraded = head.degraded;
              component_failures = failures_of (statuses_of cs);
              component_statuses = statuses_of cs;
            }))))))

unfoldable pub parse_agent_bootstrap : Python → Value → Result BootstrapError AgentBootstrap
unfolding require as_object head_of components_of check_components bootstrap_of
parse_agent_bootstrap py result = bind (require (as_object (some result))) (λ raw.
    bind (head_of raw) (λ head.
      bind (components_of head.components)
        (λ cs. bind (check_components head.degraded cs) (λ _. bootstrap_of py head cs))))

unfoldable pub bootstrap_components : List String
bootstrap_components = "pinned" ∷ "recall" ∷ "upcoming" ∷ "state" ∷ "policy" ∷ []

-- The inner client and the call are functions on a world.
pub record MemoryTransport (W : Type 0) : Type 0 where
  pub remember : String → List String → String → String → W → Result BootstrapError String × W
  pub recall : String → List String → Bool → W → Result BootstrapError (List Memory) × W
  pub load_pinned : W → Result BootstrapError (List Memory) × W
  pub create_edge : String → String → String → W → Result BootstrapError (Unit {0}) × W

pub record RestBootstrapMemoryClient (W : Type 0) : Type 0 where
  pub inner : MemoryTransport W
  pub bootstrap_call :
      String → String → String → String → ℕ → List String → W → Result BootstrapError Value × W
  pub agent_id : String
  pub context_id : String

unfoldable pub is_identity : Option String → String → Bool
is_identity none id = false
is_identity (some s) id = s == id

-- `except Exception: raise MemoryUnreachableError`
unfoldable pub as_unreachable : BootstrapError → BootstrapError
as_unreachable cancelled = cancelled
as_unreachable _ = unreachable

module _ {W : Type 0} where
  unfoldable pub parsed_answer :
      Python
      → RestBootstrapMemoryClient W
      → Result BootstrapError Value
      → Result BootstrapError AgentBootstrap
  unfolding parse_agent_bootstrap is_identity guard as_unreachable
  parsed_answer py client (raised e) = raised (as_unreachable e)
  parsed_answer py client (ok result) = bind (parse_agent_bootstrap py result) (λ b.
      bind (guard (is_identity b.agent_id client.agent_id))
        (λ _. bind (guard (is_identity b.context_id client.context_id)) (λ _. ok b)))

  unfoldable pub rest_bootstrap :
      Python
      → RestBootstrapMemoryClient W
      → String
      → String
      → ℕ
      → W
      → Result BootstrapError AgentBootstrap × W
  unfolding parsed_answer bootstrap_components
  rest_bootstrap py client session query recall_k w =
      if leb 1 recall_k && leb recall_k 100
      then (let (r, w') =
            client.bootstrap_call client.agent_id client.context_id session query recall_k
              bootstrap_components w in
          (parsed_answer py client r, w'))
      else (raised bad_recall_k, w)

  unfoldable pub rest_remember :
      RestBootstrapMemoryClient W
      → String
      → List String
      → String
      → String
      → W
      → Result BootstrapError String × W
  rest_remember client = client.inner.remember

  unfoldable pub rest_recall :
      RestBootstrapMemoryClient W
      → String
      → List String
      → Bool
      → W
      → Result BootstrapError (List Memory) × W
  rest_recall client = client.inner.recall

  unfoldable pub rest_load_pinned :
      RestBootstrapMemoryClient W → W → Result BootstrapError (List Memory) × W
  rest_load_pinned client = client.inner.load_pinned

  unfoldable pub rest_create_edge :
      RestBootstrapMemoryClient W
      → String
      → String
      → String
      → W
      → Result BootstrapError (Unit {0}) × W
  rest_create_edge client = client.inner.create_edge
