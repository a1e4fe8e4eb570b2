-- ===== src/Membrane/Outcome.antt =====
-- membrane/verified_outcome.py: the verdict on a run, which the agent cannot give itself, and
-- patterns/measure.py, which makes it.
pub mod Verdict
use kagura_agent.Prelude.{
  ℕ, zero, String, Bool, true, false, not, ◌&&◌, ◌||◌, Option, none, some, List, [], ◌∷◌, ◌==◌,
  if◌then◌else◌, Result, ok, raised,
}
use kagura_agent.Prelude.Text.{member}

-- An exit code; that of a process that a signal ended is negative.
pub data ExitCode : Type 0 where
  pos negsuc : ℕ → ExitCode

pub data OutcomeError : Type 0 where
  unknown_source unknown_trust not_independent two_verdicts : OutcomeError

pub record VerifiedOutcome : Type 0 where
  pub verified : Bool
  pub category : String
  pub input_trust : String
  pub source : String

abbrev pub independent_sources : List String
independent_sources = "exit_code" ∷ "hitl_approval" ∷ []

abbrev pub valid_sources : List String
valid_sources = "exit_code" ∷ "hitl_approval" ∷ "unverified" ∷ []

-- `__post_init__`, which every way to make an outcome goes through
unfoldable pub post_init : VerifiedOutcome → Result OutcomeError VerifiedOutcome
unfolding member
post_init o =
    if not (member o.source valid_sources)
    then raised unknown_source
    else if not (member o.input_trust ("trusted" ∷ "untrusted" ∷ []))
    then raised unknown_trust
    else if o.verified && not (member o.source independent_sources)
    then raised not_independent
    else ok o

unfoldable pub unverified : String → String → Result OutcomeError VerifiedOutcome
unfolding post_init
unverified category trust =
    post_init
      (record { verified = false; category = category; input_trust = trust; source = "unverified" })

-- `code == 0`
unfoldable pub is_success : ExitCode → Bool
is_success (pos zero) = true
is_success _ = false

unfoldable pub from_exit_code : ExitCode → String → String → Result OutcomeError VerifiedOutcome
unfolding post_init is_success
from_exit_code code category trust = post_init (record {
  verified = is_success code;
  category = category;
  input_trust = trust;
  source = "exit_code";
})

unfoldable pub from_hitl_approval : Bool → String → String → Result OutcomeError VerifiedOutcome
unfolding post_init
from_hitl_approval approved category trust = post_init (record {
  verified = approved;
  category = category;
  input_trust = trust;
  source = "hitl_approval";
})

unfoldable pub all_trusted : List String → Bool
all_trusted [] = true
all_trusted (tier ∷ tiers) = tier == "trusted" && all_trusted tiers

unfoldable pub derive_input_trust : List String → String
unfolding all_trusted
derive_input_trust [] = "untrusted"
derive_input_trust (tier ∷ tiers) = if all_trusted (tier ∷ tiers) then "trusted" else "untrusted"

-- `measure_outcome`, for the tiers that the provenance log has of the session
unfoldable pub measure_outcome :
    String → List String → Option ExitCode → Option Bool → Result OutcomeError VerifiedOutcome
unfolding derive_input_trust from_exit_code from_hitl_approval unverified
measure_outcome category tiers (some code) (some approved) = raised two_verdicts
measure_outcome category tiers (some code) none =
    from_exit_code code category (derive_input_trust tiers)
measure_outcome category tiers none (some approved) =
    from_hitl_approval approved category (derive_input_trust tiers)
measure_outcome category tiers none none = unverified category (derive_input_trust tiers)
