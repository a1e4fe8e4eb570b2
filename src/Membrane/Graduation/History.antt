-- ===== src/Membrane/Graduation/History.antt =====
-- The engine against an independent reading of what happened: the events since the category's last
-- failure, its last proposal and its last failure.
use kagura_agent.Prelude.{
  ℕ, ◌+◌, ◌≤◌, String, ◌≡◌, ◌↔◌, refl, ◌∙◌, ap, Bool, true, false, ◌&&◌, Option, none, some, List,
  [], ◌∷◌, ◌==◌, eq_iff, length, if◌then◌else◌, arith, Bool-cases, inl, inr,
}
use kagura_agent.Prelude.Dict
use kagura_agent.Prelude.Dict.{Dict, get-put}
use kagura_agent.Membrane.Graduation.{
  GraduationPolicy, Stats, new_stats, contains, add_task, Engine, stats_of, set_default,
  record_success, record_failure, mark_proposed, qualifies, should_propose,
}

-- What the host does to the engine, with the clock's reading where it makes one.
pub data Event : Type 0 where
  success : String → String → Bool → Event
  failure : ℕ → String → Event
  proposal : ℕ → String → Event
  query : ℕ → String → String → Event

unfoldable pub apply : GraduationPolicy → Engine → Event → Engine
apply policy e (success category task verified) = record_success e category task verified
apply policy e (failure now category) = record_failure policy now e category
apply policy e (proposal now category) = mark_proposed now e category
apply policy e (query now category trust) = (should_propose policy now e category trust).1

-- A history has its latest event first.
unfoldable pub replay : GraduationPolicy → List Event → Engine
unfolding apply
replay policy [] = []
replay policy (event ∷ past) = apply policy (replay policy past) event

-- The tasks of the verified successes of a category since its last failure, one for each success.
unfoldable pub tasks_since_failure : String → List Event → List String
tasks_since_failure c [] = []
tasks_since_failure c (success k task verified ∷ past) =
    let rest = tasks_since_failure c past in if k == c && verified then task ∷ rest else rest
tasks_since_failure c (failure _ k ∷ past) =
    let rest = tasks_since_failure c past in if k == c then [] else rest
tasks_since_failure c (_ ∷ past) = tasks_since_failure c past

-- The list without the repetitions of later entries.
unfoldable pub distinct : List String → List String
unfolding contains
distinct [] = []
distinct (t ∷ ts) = let rest = distinct ts in if contains rest t then rest else t ∷ rest

unfoldable pub last_failure : String → List Event → Option ℕ
last_failure c [] = none
last_failure c (failure now k ∷ past) =
    let rest = last_failure c past in if k == c then some now else rest
last_failure c (_ ∷ past) = last_failure c past

unfoldable pub last_proposal : String → List Event → Option ℕ
last_proposal c [] = none
last_proposal c (proposal now k ∷ past) =
    let rest = last_proposal c past in if k == c then some now else rest
last_proposal c (_ ∷ past) = last_proposal c past

unfoldable pub count_failures : String → List Event → ℕ
count_failures c [] = 0
count_failures c (failure now k ∷ past) =
    let rest = count_failures c past in if k == c then rest + 1 else rest
count_failures c (_ ∷ past) = count_failures c past

-- The stats that a history amounts to.
abbrev pub Summary : GraduationPolicy → String → List Event → Stats
Summary policy c h = record {
  successes = length (tasks_since_failure c h);
  distinct_tasks = distinct (tasks_since_failure c h);
  failures = count_failures c h;
  last_proposed_at = last_proposal c h;
  demoted_until = elim (last_failure c h) [
    | none ↦ none
    | some t ↦ some (t + policy.cooldown_seconds)
  ];
}

module _ (e : Engine) (k c : String) where
  stats_of-put : (s : Stats) → stats_of (Dict.put e k s) c ≡ (if k == c then s else stats_of e c)
  unfolding stats_of
  stats_of-put s = ground (arith, get-put e k c s)

  stats_of-set_default : stats_of (set_default e k) c ≡ stats_of e c
  unfolding stats_of set_default
  stats_of-set_default = ground (arith, get-put e k c new_stats, eq_iff k c)

  -- the key that was written is the one that is read
  same_stats : (k == c) ≡ true → stats_of e k ≡ stats_of e c
  same_stats h = ap (stats_of e) ((eq_iff k c).0 h)

module _ (policy : GraduationPolicy) (c : String) (h : List Event)
    (ih : stats_of (replay policy h) c ≡ Summary policy c h) where
  after_success :
      (k task : String) (verified : Bool)
      → stats_of (record_success (replay policy h) k task verified) c
        ≡ Summary policy c (success k task verified ∷ h)
  unfolding record_success add_task tasks_since_failure distinct last_failure last_proposal
      count_failures
  after_success k task false = elim (Bool-cases (k == c)) [ inl t ↦ rw t ih | inr f ↦ rw f ih ]
  after_success k task true = elim (Bool-cases (k == c)) [
    | inl t ↦ rw (stats_of-put, t, same_stats (replay policy h) k c t, ih) (ground arith)
    | inr f ↦ rw (stats_of-put, f) ih
  ]

  after_failure :
      (now : ℕ) (k : String)
      → stats_of (record_failure policy now (replay policy h) k) c
        ≡ Summary policy c (failure now k ∷ h)
  unfolding record_failure tasks_since_failure distinct last_failure last_proposal count_failures
  after_failure now k = elim (Bool-cases (k == c)) [
    | inl t ↦ rw (stats_of-put, t, same_stats (replay policy h) k c t, ih) refl
    | inr f ↦ rw (stats_of-put, f) ih
  ]

  after_proposal :
      (now : ℕ) (k : String)
      → stats_of (mark_proposed now (replay policy h) k) c ≡ Summary policy c (proposal now k ∷ h)
  unfolding mark_proposed tasks_since_failure distinct last_failure last_proposal count_failures
  after_proposal now k = elim (Bool-cases (k == c)) [
    | inl t ↦ rw (stats_of-put, t, same_stats (replay policy h) k c t, ih) refl
    | inr f ↦ rw (stats_of-put, f) ih
  ]

  after_query :
      (now : ℕ) (k trust : String)
      → stats_of (should_propose policy now (replay policy h) k trust).1 c
        ≡ Summary policy c (query now k trust ∷ h)
  unfolding should_propose tasks_since_failure distinct last_failure last_proposal count_failures
  after_query now k trust = elim (Bool-cases (trust == "trusted")) [
    | inl t ↦ rw t (stats_of-set_default (replay policy h) k c ∙ ih)
    | inr f ↦ rw f ih
  ]

-- Whatever the history, the engine's stats of a category are those of the events: the verified
-- successes since its last failure and their distinct tasks, its failures, its last proposal and the
-- end of the demotion after its last failure. Events of other categories and queries do not count.
pub stats_of-replay :
    (policy : GraduationPolicy) (c : String) (h : List Event)
    → stats_of (replay policy h) c ≡ Summary policy c h
unfolding replay apply
stats_of-replay policy c [] =
    unfold stats_of Dict.get tasks_since_failure distinct last_failure last_proposal
      count_failures in
    refl
stats_of-replay policy c (success k task verified ∷ h) =
    after_success policy c h (stats_of-replay policy c h) k task verified
stats_of-replay policy c (failure now k ∷ h) =
    after_failure policy c h (stats_of-replay policy c h) now k
stats_of-replay policy c (proposal now k ∷ h) =
    after_proposal policy c h (stats_of-replay policy c h) now k
stats_of-replay policy c (query now k trust ∷ h) =
    after_query policy c h (stats_of-replay policy c h) now k trust

-- An instant is at least a cooldown after the one that is given, if any is.
abbrev pub Elapsed : GraduationPolicy → Option ℕ → ℕ → Type 0
Elapsed policy none now = Unit
Elapsed policy (some t) now = t + policy.cooldown_seconds ≤ now

-- What the documentation asks of a category before it is proposed.
pub record IsReady (policy : GraduationPolicy) (c : String) (h : List Event) (now : ℕ)
    (trust : String) : Type 0 where
  pub input_trusted : trust ≡ "trusted"
  pub not_demoted : Elapsed policy (last_failure c h) now
  pub enough_successes : policy.min_successes ≤ length (tasks_since_failure c h)
  pub enough_tasks : policy.min_distinct_tasks ≤ length (distinct (tasks_since_failure c h))
  pub not_cooling : Elapsed policy (last_proposal c h) now

qualifies_iff :
    (policy : GraduationPolicy) (now successes failures : ℕ) (tasks : List String)
    (failed proposed : Option ℕ)
    → let s : Stats = record {
      successes = successes;
      distinct_tasks = tasks;
      failures = failures;
      last_proposed_at = proposed;
      demoted_until = elim failed [ none ↦ none | some t ↦ some (t + policy.cooldown_seconds) ];
    } in
      (qualifies policy now s ≡ true) ↔ (
        Elapsed policy failed now
        × (policy.min_successes ≤ successes)
        × (policy.min_distinct_tasks ≤ length tasks)
        × Elapsed policy proposed now)
unfolding qualifies
qualifies_iff policy now successes failures tasks none none = (λ q. ground arith, λ r. ground arith)
qualifies_iff policy now successes failures tasks none (some p) =
    (λ q. ground arith, λ r. ground arith)
qualifies_iff policy now successes failures tasks (some f) none =
    (λ q. ground arith, λ r. ground arith)
qualifies_iff policy now successes failures tasks (some f) (some p) =
    (λ q. ground arith, λ r. ground arith)

-- After any history, a category is proposed exactly when the input is trusted, the cooldown after its
-- last failure and after its last proposal has passed, and since that failure it has had enough
-- verified successes in enough distinct tasks.
pub should_propose_iff :
    (policy : GraduationPolicy) (c : String) (h : List Event) (now : ℕ) (trust : String)
    → ((should_propose policy now (replay policy h) c trust).0 ≡ true)
      ↔ IsReady policy c h now trust
unfolding should_propose
should_propose_iff policy c h now trust = elim (Bool-cases (trust == "trusted")) [
  | inr f ↦ rw f ((λ x. cc), λ r. ground (arith, f, eq_iff trust "trusted", r.input_trusted))
  | inl t ↦
      rw (t, stats_of-replay policy c h)
        (let fits =
            qualifies_iff policy now (length (tasks_since_failure c h)) (count_failures c h)
              (distinct (tasks_since_failure c h)) (last_failure c h) (last_proposal c h) in
          (
            λ q.
                let r = fits.0 q in
                record {
                  input_trusted = (eq_iff trust "trusted").0 t;
                  not_demoted = r.0;
                  enough_successes = r.1;
                  enough_tasks = r.2;
                  not_cooling = r.3;
                },
            λ r. fits.1 (r.not_demoted, r.enough_successes, r.enough_tasks, r.not_cooling),
          ))
]
