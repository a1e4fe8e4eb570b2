-- ===== src/Mcp/RestBootstrap.antt =====
-- mcp/rest_bootstrap.py: the parser of a bootstrap that a memory service answers, and
-- `RestBootstrapMemoryClient`; and `AgentBootstrap` of mcp/memory_cloud.py. The answer is a JSON value, what
-- `model_dump` makes of it; the call and the inner client are functions on a world.
pub mod Lanes
pub mod Rows
pub mod Accepted
mod Examples
use kagura_agent.Prelude.{
  ℕ, String, Bool, true, false, not, ◌&&◌, ◌||◌, Option, none, some, List, [], ◌∷◌, ◌++◌, ◌==◌,
  if◌then◌else◌, leb, Result, ok, raised, bind, map,
}
use kagura_agent.Prelude.Text.{strip, is_empty}
use kagura_agent.Prelude.Json
use kagura_agent.Prelude.Json.{
  Value, null, bool, str, array, object, Fields, end, Python, as_text, as_object, to_text, truthy,
  items, without,
}
use kagura_agent.Mcp.Local.{Memory}

-- `BootstrapContractError`, `MemoryUnreachableError`, `ValueError`, and a `BaseException`
pub data BootstrapError : Type 0 where
  contract unreachable bad_recall_k cancelled : BootstrapError

pub data ComponentStatus : Type 0 where
  succeeded failed skipped : ComponentStatus

pub record AgentBootstrap : Type 0 where
  pub agent_id : Option String
  pub context_id : Option String
  pub instructions : String
  pub pinned : List Memory
  pub recall : List Memory
  pub upcoming : List Memory
  pub state : Fields
  pub policy : Option Fields
  pub degraded : Bool
  pub component_failures : List String
  pub component_statuses : List (String × ComponentStatus)

unfoldable pub require : {A : Type 0} → Option A → Result BootstrapError A
require none = raised contract
require (some a) = ok a

unfoldable pub guard : Bool → Result BootstrapError (Unit {0})
guard true = ok tt
guard false = raised contract

-- the rest of `_first_str_field` at one key
unfoldable pub first_value :
    Option Value → Result BootstrapError String → Result BootstrapError String
unfolding strip is_empty
first_value none later = later
first_value (some null) later = later
first_value (some (str s)) later = if is_empty (strip s) then raised contract else ok s
first_value (some _) later = raised contract

unfoldable pub first_str_field : Fields → List String → Result BootstrapError String
unfolding first_value
first_str_field record' [] = ok ""
first_str_field record' (key ∷ keys) =
    first_value (Json.get record' key) (first_str_field record' keys)

unfoldable pub tags_of : Python → Option Value → List String
unfolding to_text items
tags_of py (some (array vs)) = map (to_text py) (items vs)
tags_of py _ = []

-- str(record.get("delivery_mode") or ON_RECALL_DELIVERY)
unfoldable pub delivery_of : Python → Option Value → String
unfolding to_text truthy
delivery_of py none = "on_recall"
delivery_of py (some v) = if truthy py v then to_text py v else "on_recall"

unfoldable pub memory_of : Python → Fields → Result BootstrapError Memory
unfolding first_str_field tags_of delivery_of guard
memory_of py record' = bind (first_str_field record' ("memory_id" ∷ "id" ∷ [])) (λ id.
    bind (first_str_field record' ("summary" ∷ "text" ∷ "content" ∷ "details" ∷ [])) (λ text.
      bind (guard (not (is_empty id) && not (is_empty text))) (λ _. ok (record {
        id = id;
        text = text;
        tags = tags_of py (Json.get record' "tags");
        trust_tier = "trusted";
        delivery_mode = delivery_of py (Json.get record' "delivery_mode");
      }))))

unfoldable pub memories_of : Python → List Fields → Result BootstrapError (List Memory)
unfolding memory_of
memories_of py [] = ok []
memories_of py (r ∷ rs) = bind (memory_of py r) (λ m. bind (memories_of py rs) (λ ms. ok (m ∷ ms)))

-- The records of the list, if all of them are objects.
unfoldable pub all_objects : List Value → Option (List Fields)
unfolding as_object
all_objects [] = some []
all_objects (v ∷ vs) =
    let rest = all_objects vs in
    elim (as_object (some v)) [
      | none ↦ none
      | some r ↦ elim rest [ none ↦ none | some rs ↦ some (r ∷ rs) ]
    ]

unfoldable pub listed : Option Value → Option (List Value)
unfolding items
listed (some (array vs)) = some (items vs)
listed _ = none

-- the records under the first key that holds a list
unfoldable pub find_records : Fields → List String → Result BootstrapError (List Fields)
unfolding listed require all_objects
find_records component [] = ok []
find_records component (key ∷ keys) = elim (listed (Json.get component key)) [
  | none ↦ find_records component keys
  | some vs ↦ require (all_objects vs)
]

unfoldable pub trusted_component_memories :
    Python → Fields → List String → Result BootstrapError (List Memory)
unfolding find_records memories_of
trusted_component_memories py component keys = bind (find_records component keys) (memories_of py)

unfoldable pub status_of : Option String → Option ComponentStatus
status_of none = none
status_of (some s) =
    if s == "ok"
    then some succeeded
    else if s == "error"
    then some failed
    else if s == "skipped"
    then some skipped
    else none

-- one step of the loop over the components
unfoldable pub component_of : Fields → String → Result BootstrapError (ComponentStatus × Fields)
unfolding require as_object as_text status_of
component_of raw name = bind (require (as_object (Json.get raw name))) (λ component.
    bind (require (status_of (as_text (Json.get component "status"))))
      (λ status. ok (status, component)))

pub record Components : Type 0 where
  pub pinned : ComponentStatus × Fields
  pub recall : ComponentStatus × Fields
  pub upcoming : ComponentStatus × Fields
  pub state : ComponentStatus × Fields
  pub policy : ComponentStatus × Fields

unfoldable pub components_of : Fields → Result BootstrapError Components
unfolding component_of
components_of raw = bind (component_of raw "pinned") (λ a. bind (component_of raw "recall") (λ b.
    bind (component_of raw "upcoming") (λ c. bind (component_of raw "state") (λ d.
      bind (component_of raw "policy")
        (λ e. ok (record { pinned = a; recall = b; upcoming = c; state = d; policy = e }))))))

unfoldable pub statuses_of : Components → List (String × ComponentStatus)
statuses_of cs =
    ("pinned", cs.pinned.0)
    ∷ ("recall", cs.recall.0)
    ∷ ("upcoming", cs.upcoming.0)
    ∷ ("state", cs.state.0)
    ∷ ("policy", cs.policy.0)
    ∷ []

unfoldable pub is_ok : ComponentStatus → Bool
is_ok s = elim s [ succeeded ↦ true | _ ↦ false ]

unfoldable pub is_failed : ComponentStatus → Bool
is_failed s = elim s [ failed ↦ true | _ ↦ false ]

unfoldable pub is_skipped : ComponentStatus → Bool
is_skipped s = elim s [ skipped ↦ true | _ ↦ false ]

unfoldable pub failures_of : List (String × ComponentStatus) → List String
unfolding is_failed
failures_of [] = []
failures_of ((name, status) ∷ rest) =
    let later = failures_of rest in if is_failed status then name ∷ later else later

unfoldable pub has_some : List String → Bool
has_some [] = false
has_some (_ ∷ _) = true

unfoldable pub agrees : Bool → Bool → Bool
agrees a b = if a then b else not b

-- `component.get("trust_filter") == TRUSTED_TIER`
unfoldable pub is_proven : Fields → Bool
unfolding as_text
is_proven component = elim (as_text (Json.get component "trust_filter")) [
  | none ↦ false
  | some s ↦ s == "trusted"
]
