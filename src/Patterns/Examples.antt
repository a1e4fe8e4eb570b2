-- ===== src/Patterns/Examples.antt =====
-- A session that two memories grounded, one of them quarantined, and a sink that keeps its feedback.
use kagura_agent.Prelude.{
  zero, String, ◌≡◌, ◌≢◌, refl, Bool, true, Option, none, some, List, [], ◌∷◌, ◌⊎◌, ok, raised,
}
use kagura_agent.Prelude.Dict
use kagura_agent.Prelude.Text.{member}
use kagura_agent.Membrane.Outcome.{ExitCode, pos, two_verdicts, VerifiedOutcome, derive_input_trust}
use kagura_agent.Membrane.Outcome.Verdict.{IsVerdict}
use kagura_agent.Patterns.Provenance.{ProvenanceLog, tiers_for, memories_for}
use kagura_agent.Patterns.Provenance.Trust.{Grounding, replay, grounds, derive-replay}
use kagura_agent.Patterns.Reinforce.{FeedbackSink, reinforce_run}
use kagura_agent.Patterns.Reinforce.Feedback.{existing, write_all, reinforce_run_lem}

abbrev groundings : List Grounding
groundings =
    ("S1", ("m1", "trusted") ∷ ("m2", "quarantined") ∷ []) ∷ ("S1", ("m1", "trusted") ∷ []) ∷ []

abbrev log : ProvenanceLog
log = replay groundings

-- The world is the feedback given so far; `m2` was erased.
abbrev sink : FeedbackSink (List (String × Bool))
sink = record {
  has_memory = λ w mid. member mid ("m1" ∷ []);
  record_feedback = λ w mid query helpful. (mid, helpful) ∷ w;
}

two_tiers : tiers_for log "S1" ≡ "trusted" ∷ "quarantined" ∷ []
unfolding tiers_for replay Dict.get Dict.put
two_tiers = refl

passed : (reinforce_run sink log "S1" "run" "query" (some (pos zero)) none []).1 ≡ ("m1", true) ∷ []
unfolding reinforce_run replay Dict.get Dict.put
passed = refl

derive-replay_example :
    derive_input_trust (tiers_for (replay groundings) "S1")
    ≡ derive_input_trust (grounds "S1" groundings)
derive-replay_example = derive-replay "S1" groundings

reinforce_run_lem_example :
    ((◌≢◌ {A = Option ExitCode} (some (pos zero)) none)
      × (◌≢◌ {A = Option Bool} none none)
      × (reinforce_run sink log "S1" "run" "query" (some (pos zero)) none []
          ≡ (raised two_verdicts, [])))
    ⊎ (((◌≡◌ {A = Option ExitCode} (some (pos zero)) none) ⊎ (◌≡◌ {A = Option Bool} none none))
        × (o : VerifiedOutcome) × IsVerdict o (tiers_for log "S1") (some (pos zero)) none
        × (((◌≡◌ {A = Option ExitCode} (some (pos zero)) none)
              × (◌≡◌ {A = Option Bool} none none)
              × (reinforce_run sink log "S1" "run" "query" (some (pos zero)) none [] ≡ (ok o, [])))
            ⊎ ((o.source ≢ "unverified")
                × (reinforce_run sink log "S1" "run" "query" (some (pos zero)) none [] ≡ (
                  ok o,
                  write_all sink o.verified "query" (existing sink [] (memories_for log "S1")) [],
                )))))
reinforce_run_lem_example =
    reinforce_run_lem sink (λ w mid query helpful k. refl) log "S1" "run" "query" (some (pos zero))
      none []
