-- ===== src/Membrane/Graduation/Examples.antt =====
-- The theorems on graduation at a history of three verified successes after a failure.
use kagura_agent.Prelude.{◌≡◌, ◌↔◌, refl, true, false, List, [], ◌∷◌}
use kagura_agent.Membrane.Graduation.{
  GraduationPolicy, stats_of, should_propose, record_success, record_failure,
}
use kagura_agent.Prelude.Dict
use kagura_agent.Membrane.Graduation.History.{
  Event, success, failure, replay, Summary, IsReady, stats_of-replay, should_propose_iff,
}

abbrev small_policy : GraduationPolicy
small_policy = record { min_successes = 2; min_distinct_tasks = 2; cooldown_seconds = 100 }

abbrev recovered : List Event
recovered =
    success "dns" "b" true
    ∷ success "dns" "a" true
    ∷ success "dns" "a" false
    ∷ failure 50 "dns"
    ∷ success "dns" "z" true
    ∷ []

stats_of-replay_example :
    stats_of (replay small_policy recovered) "dns" ≡ Summary small_policy "dns" recovered
stats_of-replay_example = stats_of-replay small_policy "dns" recovered

should_propose_iff_example :
    ((should_propose small_policy 150 (replay small_policy recovered) "dns" "trusted").0 ≡ true)
    ↔ IsReady small_policy "dns" recovered 150 "trusted"
should_propose_iff_example = should_propose_iff small_policy "dns" recovered 150 "trusted"

ready_again :
    (should_propose small_policy 150 (replay small_policy recovered) "dns" "trusted").0 ≡ true
unfolding should_propose replay record_success record_failure Dict.get Dict.put
ready_again = refl

still_demoted :
    (should_propose small_policy 149 (replay small_policy recovered) "dns" "trusted").0 ≡ false
unfolding should_propose replay record_success record_failure Dict.get Dict.put
still_demoted = refl
