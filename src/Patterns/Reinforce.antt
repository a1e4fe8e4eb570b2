-- ===== src/Patterns/Reinforce.antt =====
-- patterns/reinforce.py: the verdict on a run goes to the memories that grounded it.
-- A `FeedbackSink` is the two verbs of a memory client, on a world of its own.
pub mod Feedback
use kagura_agent.Prelude.{
  ℕ, suc, String, Bool, true, false, Option, none, some, List, [], ◌∷◌, ◌==◌, if◌then◌else◌, Result,
  ok, raised,
}
use kagura_agent.Prelude.Dict
use kagura_agent.Prelude.Dict.{Dict}
use kagura_agent.Prelude.Text.{strip, is_empty}
use kagura_agent.Membrane.Outcome.{ExitCode, OutcomeError, VerifiedOutcome, measure_outcome}
use kagura_agent.Patterns.Provenance.{ProvenanceLog, tiers_for, memories_for}

pub record FeedbackSink (W : Type 0) : Type 0 where
  pub has_memory : W → String → Bool
  pub record_feedback : W → String → String → Bool → W

-- `env.get(key, "").strip()`
unfoldable pub setting : Dict String → String → String
unfolding strip
setting env key = strip (elim (Dict.get env key) [ none ↦ "" | some s ↦ s ])

-- `env.get(VERIFY_CATEGORY_ENV, "").strip() or "run"`
unfoldable pub category_of : Dict String → String
unfolding setting is_empty
category_of env =
    let category = setting env "KAGURA_AGENT_VERIFY_CATEGORY" in
    if is_empty category then "run" else category

-- The exceptions of the check and of the measurement.
pub data RunError : Type 0 where
  check_failed : RunError
  outcome_error : OutcomeError → RunError

unfoldable pub measured :
    Result OutcomeError VerifiedOutcome → Result RunError (Option VerifiedOutcome)
measured (ok o) = ok (some o)
measured (raised e) = raised (outcome_error e)

module _ {W : Type 0} where
  -- the loop of `reinforce`: the number of verdicts written, and the memories afterwards
  unfoldable pub reinforce_all : FeedbackSink W → Bool → String → List String → ℕ → W → ℕ × W
  reinforce_all sink helpful query [] written w = (written, w)
  reinforce_all sink helpful query (mid ∷ rest) written w =
      let there =
        reinforce_all sink helpful query rest (suc written)
          (sink.record_feedback w mid query helpful) in
      let gone = reinforce_all sink helpful query rest written w in
      if sink.has_memory w mid then there else gone

  unfoldable pub reinforce : FeedbackSink W → VerifiedOutcome → String → List String → W → ℕ × W
  unfolding reinforce_all
  reinforce sink outcome query ids w =
      if outcome.source == "unverified"
      then (0, w)
      else reinforce_all sink outcome.verified query ids 0 w

  unfoldable pub reinforce_run :
      FeedbackSink W
      → ProvenanceLog
      → String
      → String
      → String
      → Option ExitCode
      → Option Bool
      → W
      → Result OutcomeError VerifiedOutcome × W
  unfolding measure_outcome tiers_for memories_for reinforce
  reinforce_run sink log session category query exit_code approved w =
      elim (measure_outcome category (tiers_for log session) exit_code approved) [
        | raised e ↦ (raised e, w)
        | ok outcome ↦ (ok outcome, (reinforce sink outcome query (memories_for log session) w).1)
      ]

  -- `run_check` is the host's command runner, `none` where it raises.
  unfoldable pub verify_and_reinforce :
      FeedbackSink W
      → ProvenanceLog
      → Dict String
      → String
      → String
      → (String → W → Option ExitCode × W)
      → W
      → Result RunError (Option VerifiedOutcome) × W
  unfolding setting is_empty category_of reinforce_run measured
  verify_and_reinforce sink log env session query run_check w =
      let command = setting env "KAGURA_AGENT_VERIFY_CHECK" in
      if is_empty command
      then (ok none, w)
      else (let (code, w') = run_check command w in
          elim code [
            | none ↦ (raised check_failed, w')
            | some c ↦
                let (r, w'') =
                  reinforce_run sink log session (category_of env) query (some c) none w' in
                (measured r, w'')
          ])

  -- A backend that is no sink is skipped, and an exception is logged.
  unfoldable pub reinforce_after_run :
      Option (FeedbackSink W)
      → ProvenanceLog
      → Dict String
      → String
      → String
      → (String → W → Option ExitCode × W)
      → W
      → W
  unfolding verify_and_reinforce
  reinforce_after_run sink log env session query run_check w = elim sink [
    | none ↦ w
    | some k ↦ (verify_and_reinforce k log env session query run_check w).1
  ]
