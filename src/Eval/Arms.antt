-- ===== src/Eval/Arms.antt =====
-- eval/bootstrap_ab.py: the arms of an experiment with the checks on the pair, and the version stamp of its
-- manifest.
use kagura_agent.Prelude.{
  Option, String, Bool, true, false, not, ◌&&◌, ◌==◌, Result, ok, raised, bind,
}
use kagura_agent.Prelude.Text.{strip, is_empty}
use kagura_agent.Eval.Gate.{Arm, control, treatment, same_arm}

pub data ExperimentError : Type 0 where
  invariant_error value_error : ExperimentError

pub record VersionStamp : Type 0 where
  pub code : String
  pub actor_model : String
  pub actor : String
  pub bootstrap_api : String
  pub ranking_policy : String
  pub judge : Option String

pub record ArmHandle : Type 0 where
  pub arm : Arm
  pub agent_id : String
  pub context_id : String
  pub snapshot_fingerprint : String
  pub feedback_journal : String
  pub feedback_influence : Bool

pub record ArmPair : Type 0 where
  pub control_arm : ArmHandle
  pub treatment_arm : ArmHandle

unfoldable pub expect : ExperimentError → Bool → Result ExperimentError (Unit {0})
expect e true = ok tt
expect e false = raised e

unfoldable pub is_present : String → Bool
unfolding strip is_empty
is_present s = not (is_empty (strip s))

-- `VersionStamp.__post_init__`
unfoldable pub stamped : VersionStamp → Result ExperimentError (Unit {0})
unfolding expect is_present
stamped v = expect value_error (
    is_present v.code
    && is_present v.actor_model
    && is_present v.actor
    && is_present v.bootstrap_api
    && is_present v.ranking_policy)

-- `ArmPair.validate`, for the fingerprint that was registered
unfoldable pub validate_arms : ArmPair → String → Result ExperimentError (Unit {0})
unfolding expect same_arm
validate_arms pair registered =
    let c = pair.control_arm in
    let t = pair.treatment_arm in
    bind (expect invariant_error (same_arm c.arm control && same_arm t.arm treatment)) (λ _.
      bind (expect invariant_error (not c.feedback_influence)) (λ _.
        bind (expect invariant_error t.feedback_influence) (λ _.
          bind
            (expect invariant_error
              (c.snapshot_fingerprint == registered && t.snapshot_fingerprint == registered))
            (λ _. bind (expect invariant_error (not (c.context_id == t.context_id))) (λ _.
              bind (expect invariant_error (not (c.agent_id == t.agent_id)))
                (λ _. expect invariant_error (not (c.feedback_journal == t.feedback_journal))))))))

unfoldable pub for_arm : ArmPair → Arm → ArmHandle
for_arm pair control = pair.control_arm
for_arm pair treatment = pair.treatment_arm
