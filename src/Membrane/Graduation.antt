-- ===== src/Membrane/Graduation.antt =====
-- membrane/graduation.py: `GraduationEngine`. Each operation takes the reading of the clock that it
-- makes, in whole ticks; `clock() - t < d` of the source is `clock() < t + d`. `should_propose` reads
-- the clock for each of its two tests; here one reading serves both.
pub mod History
mod Examples
use kagura_agent.Prelude.{
  ℕ, ◌+◌, String, Bool, true, false, not, ◌&&◌, ◌||◌, Option, none, some, List, [], ◌∷◌, ◌==◌, ltb,
  length, if◌then◌else◌,
}
use kagura_agent.Prelude.Dict
use kagura_agent.Prelude.Dict.{Dict}

pub record GraduationPolicy : Type 0 where
  pub min_successes : ℕ
  pub min_distinct_tasks : ℕ
  pub cooldown_seconds : ℕ

-- A Python set of texts is a list without repetitions.
pub record Stats : Type 0 where
  pub successes : ℕ
  pub distinct_tasks : List String
  pub failures : ℕ
  pub last_proposed_at : Option ℕ
  pub demoted_until : Option ℕ

abbrev pub new_stats : Stats
new_stats = record {
  successes = 0;
  distinct_tasks = [];
  failures = 0;
  last_proposed_at = none;
  demoted_until = none;
}

unfoldable pub reset : Stats → Stats
reset s = record s { successes = 0; distinct_tasks = [] }

unfoldable pub contains : List String → String → Bool
contains [] t = false
contains (x ∷ xs) t = x == t || contains xs t

-- `set.add`
unfoldable pub add_task : List String → String → List String
unfolding contains
add_task xs t = if contains xs t then xs else t ∷ xs

abbrev pub Engine : Type 0
Engine = Dict Stats

-- `dict.setdefault(category, _Stats())`: the stats that it returns, and the table that it leaves
unfoldable pub stats_of : Engine → String → Stats
stats_of e category = elim (Dict.get e category) [ none ↦ new_stats | some s ↦ s ]

unfoldable pub set_default : Engine → String → Engine
set_default e category = elim (Dict.get e category) [
  | none ↦ Dict.put e category new_stats
  | some _ ↦ e
]

unfoldable pub record_success : Engine → String → String → Bool → Engine
unfolding stats_of add_task
record_success e category task_id verified =
    let s = stats_of e category in
    if not verified
    then e
    else Dict.put e category (record s {
      successes = s.successes + 1;
      distinct_tasks = add_task s.distinct_tasks task_id;
    })

unfoldable pub record_failure : GraduationPolicy → ℕ → Engine → String → Engine
unfolding stats_of reset
record_failure policy now e category =
    let s = stats_of e category in
    Dict.put e category (record (reset s) {
      failures = s.failures + 1;
      demoted_until = some (now + policy.cooldown_seconds);
    })

unfoldable pub mark_proposed : ℕ → Engine → String → Engine
unfolding stats_of
mark_proposed now e category =
    Dict.put e category (record (stats_of e category) { last_proposed_at = some now })

-- within the demotion that follows a failure
unfoldable pub is_demoted : ℕ → Stats → Bool
is_demoted now s = elim s.demoted_until [ none ↦ false | some t ↦ ltb now t ]

-- within the cooldown that follows a proposal
unfoldable pub is_cooling : GraduationPolicy → ℕ → Stats → Bool
is_cooling policy now s = elim s.last_proposed_at [
  | none ↦ false
  | some t ↦ ltb now (t + policy.cooldown_seconds)
]

unfoldable pub qualifies : GraduationPolicy → ℕ → Stats → Bool
unfolding is_demoted is_cooling
qualifies policy now s =
    if is_demoted now s
    then false
    else if ltb s.successes policy.min_successes
    then false
    else if ltb (length s.distinct_tasks) policy.min_distinct_tasks
    then false
    else if is_cooling policy now s
    then false
    else true

-- The answer, and the table that the call leaves.
unfoldable pub should_propose : GraduationPolicy → ℕ → Engine → String → String → Bool × Engine
unfolding stats_of set_default qualifies
should_propose policy now e category input_trust =
    if input_trust == "trusted"
    then (qualifies policy now (stats_of e category), set_default e category)
    else (false, e)
