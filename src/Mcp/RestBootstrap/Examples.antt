-- ===== src/Mcp/RestBootstrap/Examples.antt =====
-- An answer with one pinned and one recalled memory, and one whose recall is not proven to be trusted.
use kagura_agent.Prelude.{
  ℕ, String, ◌≡◌, refl, Bool, true, false, Option, none, some, List, [], ◌∷◌, Result, ok, raised,
}
use kagura_agent.Prelude.Json.{
  Value, null, bool, str, array, nil, cons, object, Fields, end, field, Python,
}
use kagura_agent.Mcp.RestBootstrap.{BootstrapError, contract, succeeded, skipped, AgentBootstrap}
use kagura_agent.Mcp.RestBootstrap.Lanes.{RestBootstrapMemoryClient, rest_bootstrap}
use kagura_agent.Mcp.RestBootstrap.Accepted.{IsSafe, rest_bootstrap-IsSafe}

abbrev python : Python
python = record { str_of = λ v. "?"; is_zero = λ s. false }

abbrev row : String → String → Value
row id text = object (
    field "memory_id" (str id)
      (field "summary" (str text) (field "tags" (array (cons null nil)) end)))

abbrev component : String → Fields → Value
component status rest = object (field "status" (str status) rest)

abbrev answer : Value → Value
answer filter = object (
    field "status" (str "success") (
      field "degraded" (bool false) (
        field "agent" (object (field "agent_id" (str "a1") end)) (
          field "context" (object (field "id" (str "c1") end)) (
            field "components"
              (object (
                field "pinned"
                  (component "ok" (field "memories" (array (cons (row "m1" "be kind") nil)) end))
                  (field "recall"
                    (component "ok" (
                      field "trust_filter" filter
                        (field "results" (array (cons (row "m2" "deployed") nil)) end)))
                    (field "upcoming" (component "skipped" end) (
                      field "state" (component "ok" end)
                        (field "policy" (component "ok" end) end))))))
              end)))))

abbrev client : Value → RestBootstrapMemoryClient (Unit {0})
client filter = record {
  inner = record {
    remember = λ text tags tier mode w. (ok "m", w);
    recall = λ query tags trusted w. (ok [], w);
    load_pinned = λ w. (ok [], w);
    create_edge = λ a b t w. (ok tt, w);
  };
  bootstrap_call = λ agent context session query k names w. (ok (answer filter), w);
  agent_id = "a1";
  context_id = "c1";
}

abbrev accepted : AgentBootstrap
accepted = record {
  agent_id = some "a1";
  context_id = some "c1";
  instructions = "";
  pinned =
      record {
        id = "m1";
        text = "be kind";
        tags = "?" ∷ [];
        trust_tier = "trusted";
        delivery_mode = "always";
      }
      ∷ [];
  recall =
      record {
        id = "m2";
        text = "deployed";
        tags = "?" ∷ [];
        trust_tier = "trusted";
        delivery_mode = "on_recall";
      }
      ∷ [];
  upcoming = [];
  state = end;
  policy = some end;
  degraded = false;
  component_failures = [];
  component_statuses =
      ("pinned", succeeded)
      ∷ ("recall", succeeded)
      ∷ ("upcoming", skipped)
      ∷ ("state", succeeded)
      ∷ ("policy", succeeded)
      ∷ [];
}

answer_accepted : (rest_bootstrap python (client (str "trusted")) "S1" "q" 5 tt).0 ≡ ok accepted
unfolding rest_bootstrap kagura_agent.Prelude.Json.get kagura_agent.Mcp.RestBootstrap.agrees
    kagura_agent.Mcp.RestBootstrap.has_some kagura_agent.Mcp.RestBootstrap.failures_of
    kagura_agent.Mcp.RestBootstrap.statuses_of kagura_agent.Mcp.RestBootstrap.is_skipped
    kagura_agent.Mcp.RestBootstrap.is_ok kagura_agent.Mcp.RestBootstrap.is_proven
    kagura_agent.Prelude.Json.without
answer_accepted = refl

unproven_refused : (rest_bootstrap python (client null) "S1" "q" 5 tt).0 ≡ raised contract
unfolding rest_bootstrap kagura_agent.Prelude.Json.get kagura_agent.Mcp.RestBootstrap.agrees
    kagura_agent.Mcp.RestBootstrap.has_some kagura_agent.Mcp.RestBootstrap.failures_of
    kagura_agent.Mcp.RestBootstrap.statuses_of kagura_agent.Mcp.RestBootstrap.is_skipped
    kagura_agent.Mcp.RestBootstrap.is_ok kagura_agent.Mcp.RestBootstrap.is_proven
unproven_refused = refl

rest_bootstrap-IsSafe_example :
    (◌≡◌ {A = Option String} (some "a1") (some "a1"))
    × (◌≡◌ {A = Option String} (some "c1") (some "c1"))
    × ((result : Value) × (◌≡◌ {A = Result BootstrapError Value}
          (ok (answer (str "trusted")))
          (ok result))
        × IsSafe result accepted)
rest_bootstrap-IsSafe_example =
    rest_bootstrap-IsSafe python (client (str "trusted")) "S1" "q" 5 tt accepted answer_accepted
