-- ===== src/Cockpit/MemoryWrite/Examples.antt =====
-- A cockpit that an operator answers while a call waits, in a world that counts the grants.
use kagura_agent.Prelude.{
  ℕ, suc, String, ◌≡◌, refl, Bool, true, false, none, some, [], ◌∷◌, Result, ok, raised, ◌⊎◌,
}
use kagura_agent.Prelude.Dict
use kagura_agent.Prelude.Decimal.{decimal}
use kagura_agent.Mcp.Local
use kagura_agent.Mcp.Local.{LocalMemory, new_client, remember}
use kagura_agent.Membrane.Graduation.{Engine, GraduationPolicy, should_propose, record_success}
use kagura_agent.Cockpit.Approval
use kagura_agent.Cockpit.Core.{Cockpit, CockpitState, Error, Outcome, request_capability}
use kagura_agent.Cockpit.MemoryWrite.{request_write, propose_promotion, promote_all}
use kagura_agent.Cockpit.MemoryWrite.Approved.{
  IsApproved, write_request, promotion_request, request_write-Approved, propose_promotion-Approved,
}
use kagura_agent.Cockpit.MemoryWrite.Promoted.{local_promote, known, IsPromoted, promote_all_lem}

abbrev cockpit : Cockpit ℕ
cockpit = record {
  send = λ thread text w. (ok tt, w);
  remember = none;
  kill = none;
  clock = λ w. (0, w);
  operator_id = some "U1";
  require_operator = true;
}

abbrev idle : CockpitState ℕ
idle = record {
  approvals = record { ttl = 300; pending = []; futures = [] };
  sessions = [];
  world = 0;
}

abbrev answer : Bool → CockpitState ℕ → CockpitState ℕ
answer approved s = record s { approvals = Approval.set_result s.approvals 0 approved }

abbrev grant : ℕ → Result Error String × ℕ
grant w = (ok "lease", suc w)

abbrev refuse : ℕ → Result Error String × ℕ
refuse w = (raised Error.failed, w)

leased : (request_write cockpit (answer true) grant "T1" "notes" idle).0 ≡ ok (some "lease")
unfolding request_write request_capability Approval.register Approval.set_result Dict.get Dict.put
leased = refl

denied : (request_write cockpit (answer false) grant "T1" "notes" idle).0 ≡ ok none
unfolding request_write request_capability Approval.register Approval.set_result Dict.get Dict.put
denied = refl

unanswered : (request_write cockpit (λ s. s) grant "T1" "notes" idle).1.world ≡ 0
unfolding request_write request_capability Approval.register Approval.set_result Dict.get Dict.put
    kagura_agent.Cockpit.Core.withdraw_pending Approval.resolve
unanswered = refl

request_write-Approved_example :
    (request_write cockpit (answer true) grant "T1" "notes" idle
      ≡ request_write cockpit (answer true) refuse "T1" "notes" idle)
    ⊎ IsApproved cockpit (answer true) (write_request "T1" "notes") idle
request_write-Approved_example =
    request_write-Approved cockpit (answer true) grant refuse "T1" "notes" idle

abbrev policy : GraduationPolicy
policy = record { min_successes = 1; min_distinct_tasks = 1; cooldown_seconds = 60 }

abbrev engine : Engine
engine = record_success [] "docs" "task1" true

abbrev count_promotion : String → ℕ → Outcome ℕ
count_promotion mid w = (ok tt, suc w)

abbrev no_promotion : String → ℕ → Outcome ℕ
no_promotion mid w = (raised Error.failed, w)

propose_promotion-Approved_example :
    (propose_promotion cockpit
        (answer true)
        count_promotion
        policy
        0
        0
        "docs"
        ("m1" ∷ [])
        "T1"
        "trusted"
        "why"
        engine
        idle
      ≡ propose_promotion cockpit
          (answer true)
          no_promotion
          policy
          0
          0
          "docs"
          ("m1" ∷ [])
          "T1"
          "trusted"
          "why"
          engine
          idle)
    ⊎ (((should_propose policy 0 engine "docs" "trusted").0 ≡ true)
        × IsApproved cockpit (answer true) (promotion_request "docs" "T1" "why") idle)
propose_promotion-Approved_example =
    propose_promotion-Approved cockpit (answer true) count_promotion no_promotion policy 0 0 "docs"
      ("m1" ∷ []) "T1" "trusted" "why" engine idle

abbrev quarantined : LocalMemory
quarantined = (remember (new_client false) "found" [] "quarantine" "on_recall").1

promote_all_lem_example :
    (d : LocalMemory) × (promote_all local_promote ("m9" ∷ "m1" ∷ []) [] quarantined
      ≡ (ok (known quarantined ("m9" ∷ "m1" ∷ [])), d))
    × IsPromoted ("m9" ∷ "m1" ∷ []) quarantined d
promote_all_lem_example = promote_all_lem ("m9" ∷ "m1" ∷ []) quarantined

one_known : known quarantined ("m9" ∷ "m1" ∷ []) ≡ "m1" ∷ []
unfolding remember new_client Local.has_memory Local.memory_id Local.is_delivery_mode decimal
    Dict.get Dict.put
one_known = refl
