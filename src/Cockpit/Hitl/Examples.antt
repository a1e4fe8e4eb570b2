-- ===== src/Cockpit/Hitl/Examples.antt =====
-- A human who approves, in a world that keeps what was recorded.
use kagura_agent.Prelude.{
  String, ◌≡◌, refl, true, false, Option, some, List, [], ◌∷◌, Result, ok, raised, ◌⊎◌,
}
use kagura_agent.Cockpit.Approval.{CapabilityRequest}
use kagura_agent.Cockpit.Core.{decision_text}
use kagura_agent.Cockpit.Hitl.{HitlGate, is_approval, review, review-IsBacked}

abbrev request : CapabilityRequest
request = record { thread_id = "T1"; capability = "memory:write"; reason = "notes" }

abbrev answering : Result (Option String) String → HitlGate (List String)
answering r = record {
  ask = λ thread text options w. (r, w);
  remember = λ text tags w. (ok tt, text ∷ w);
}

approved :
    review (answering (ok " Approve\n")) request []
    ≡ (ok true, "HITL approved memory:write: notes" ∷ [])
unfolding review
approved = refl

unreachable_denies :
    review (answering (raised (some "TimeoutError"))) request []
    ≡ (ok false, "HITL denied (transport_error: TimeoutError) memory:write: notes" ∷ [])
unfolding review
unreachable_denies = refl

review-IsBacked_example :
    ((true ≡ false)
      ⊎ ((text : String) × (◌≡◌ {A = Result (Option String) String} (ok " Approve\n") (ok text))
          × (is_approval text ≡ true)))
    × ((failure : Option String) × (((answering (ok " Approve\n")).remember
            (decision_text request true failure)
            ("hitl" ∷ "graduation-trail" ∷ [])
            []).0
          ≡ ok tt))
unfolding review
review-IsBacked_example = review-IsBacked (answering (ok " Approve\n")) request [] true refl
