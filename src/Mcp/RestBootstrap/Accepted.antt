-- ===== src/Mcp/RestBootstrap/Accepted.antt =====
-- What holds of a bootstrap that the client accepts, whatever the service answers.
use kagura_agent.Prelude.{some_inj}
use kagura_agent.Prelude.Json.{as_object-some}
use kagura_agent.Prelude.{
  ℕ, String, ◌≡◌, refl, sym, ap, ◌∙◌, subst, Bool, true, false, not, ◌&&◌, ◌||◌, Option, none, some,
  List, [], ◌∷◌, leb, Result, ok, raised, ok_inj, bind_rule, All, ◌⊎◌, inl, inr, Bool-cases, eq_iff,
}
use kagura_agent.Prelude.Json
use kagura_agent.Prelude.Json.{Value, null, bool, str, object, Fields, Python, as_object, as_text}
use kagura_agent.Mcp.Local.{Memory}
use kagura_agent.Mcp.RestBootstrap.{
  BootstrapError, ComponentStatus, AgentBootstrap, Components, require, guard, component_of,
  components_of, statuses_of, status_of, is_ok, failures_of, has_some, agrees, is_proven,
  is_skipped,
}
use kagura_agent.Mcp.RestBootstrap.Lanes.{
  Head, as_bool, as_identity, instructions_of, is_success_status, head_of, check_components, lane,
  state_of, is_bound, bootstrap_of, parse_agent_bootstrap, RestBootstrapMemoryClient, is_identity,
  parsed_answer, rest_bootstrap, bootstrap_components,
}
use kagura_agent.Mcp.RestBootstrap.Rows.{
  IsLaneMemory, IsPinned, guard-ok, require-ok, lane-IsLaneMemory, lane-skips, pin-IsPinned,
}

-- The recall component of the answer says that only trusted memories were searched.
abbrev pub IsProven : Value → Type 0
IsProven result =
    (raw components recall : Fields) × (result ≡ object raw)
    × (as_object (Json.get raw "components") ≡ some components)
    × (as_object (Json.get components "recall") ≡ some recall)
    × (is_proven recall ≡ true)

pub record IsSafe (result : Value) (b : AgentBootstrap) : Type 0 where
  pub degraded : b.degraded ≡ has_some (failures_of b.component_statuses)
  pub failures : b.component_failures ≡ failures_of b.component_statuses
  pub pinned : All IsPinned b.pinned
  pub recall : All IsLaneMemory b.recall
  pub upcoming : All IsLaneMemory b.upcoming
  pub proven : (b.recall ≡ []) ⊎ IsProven result

-- What the last step makes of the components.
record Facts (py : Python) (head : Head) (cs : Components) (b : AgentBootstrap) : Type 0 where
  agent : b.agent_id ≡ some head.agent_id
  context : b.context_id ≡ some head.context_id
  degraded : b.degraded ≡ head.degraded
  statuses : b.component_statuses ≡ statuses_of cs
  failures : b.component_failures ≡ failures_of b.component_statuses
  pinned : All IsPinned b.pinned
  upcoming : All IsLaneMemory b.upcoming
  recall : lane py cs.recall ("results" ∷ "memories" ∷ []) ≡ ok b.recall

bootstrap_of-Facts :
    (py : Python) (head : Head) (cs : Components) (b : AgentBootstrap)
    → bootstrap_of py head cs ≡ ok b
    → Facts py head cs b
unfolding bootstrap_of
bootstrap_of-Facts py head cs b = bind_rule (lane py cs.pinned ("memories" ∷ [])) _ (λ ps p.
    bind_rule (lane py cs.recall ("results" ∷ "memories" ∷ [])) _ (λ rs r.
      bind_rule (lane py cs.upcoming ("results" ∷ "memories" ∷ [])) _ (λ us u.
        bind_rule (state_of cs.state) _ (λ st _.
          bind_rule
            (guard (is_bound py (as_object (Json.get head.agent "binding")) head.context_id)) _
            (λ _ _ h. subst (Facts py head cs) (ok_inj h) (record {
              agent = refl;
              context = refl;
              degraded = refl;
              statuses = refl;
              failures = refl;
              pinned =
                  pin-IsPinned ps
                    (lane-IsLaneMemory py cs.pinned.0 cs.pinned.1 ("memories" ∷ []) ps p);
              upcoming =
                  lane-IsLaneMemory py cs.upcoming.0 cs.upcoming.1 ("results" ∷ "memories" ∷ []) us
                    u;
              recall = r;
            }))))))

component_of-ok :
    (raw : Fields) (name : String) (c : ComponentStatus × Fields)
    → component_of raw name ≡ ok c
    → as_object (Json.get raw name) ≡ some c.1
unfolding component_of
component_of-ok raw name c = bind_rule (require (as_object (Json.get raw name))) _ (λ fs f.
    bind_rule (require (status_of (as_text (Json.get fs "status")))) _ (λ status _ h.
      require-ok (as_object (Json.get raw name)) fs f ∙ ap some (ap (λ p. p.1) (ok_inj h))))

components_of-recall :
    (raw : Fields) (cs : Components)
    → components_of raw ≡ ok cs
    → as_object (Json.get raw "recall") ≡ some cs.recall.1
unfolding components_of
components_of-recall raw cs = bind_rule (component_of raw "pinned") _ (λ a _.
    bind_rule (component_of raw "recall") _ (λ b k.
      bind_rule (component_of raw "upcoming") _ (λ c _.
        bind_rule (component_of raw "state") _ (λ d _.
          bind_rule (component_of raw "policy") _
            (λ e _ h. component_of-ok raw "recall" b k ∙ ap (λ x. some x.recall.1) (ok_inj h))))))

head_of-components :
    (raw : Fields) (head : Head)
    → head_of raw ≡ ok head
    → as_object (Json.get raw "components") ≡ some head.components
unfolding head_of
head_of-components raw head =
    bind_rule (guard (is_success_status (as_text (Json.get raw "status")))) _ (λ _ _.
      bind_rule (require (as_bool (Json.get raw "degraded"))) _ (λ d _.
        bind_rule (require (as_object (Json.get raw "agent"))) _ (λ a _.
          bind_rule (require (as_identity (Json.get a "agent_id"))) _ (λ i _.
            bind_rule (require (as_object (Json.get raw "context"))) _ (λ c _.
              bind_rule (require (as_identity (Json.get c "id"))) _ (λ j _.
                bind_rule (instructions_of (Json.get raw "instructions")) _ (λ t _.
                  bind_rule (require (as_object (Json.get raw "components"))) _ (λ cs k h.
                    require-ok (as_object (Json.get raw "components")) cs k
                    ∙ ap (λ x. some x.components) (ok_inj h)))))))))

agrees-eq : (a b : Bool) → agrees a b ≡ true → a ≡ b
unfolding agrees
agrees-eq true b h = sym h
agrees-eq false true h = absurd (cc h)
agrees-eq false false h = refl

-- the three checks
check_components-ok :
    (degraded : Bool) (cs : Components)
    → check_components degraded cs ≡ ok tt
    → (degraded ≡ has_some (failures_of (statuses_of cs)))
      × ((not (is_ok cs.recall.0) || is_proven cs.recall.1) ≡ true)
unfolding check_components
check_components-ok degraded cs =
    bind_rule (guard (agrees degraded (has_some (failures_of (statuses_of cs))))) _ (λ _ a.
      bind_rule (guard (not (is_skipped cs.recall.0))) _
        (λ _ _ h. (agrees-eq degraded _ (guard-ok _ a), guard-ok _ h)))

-- an unproven recall is one that is not ok, and then it gives nothing
recall_proven :
    (py : Python) (s : ComponentStatus) (component : Fields) (ms : List Memory)
    → lane py (s, component) ("results" ∷ "memories" ∷ []) ≡ ok ms
    → (not (is_ok s) || is_proven component) ≡ true
    → (ms ≡ []) ⊎ (is_proven component ≡ true)
recall_proven py s component ms h g = elim (Bool-cases (is_ok s)) [
  | inr e ↦ inl (lane-skips py s component ("results" ∷ "memories" ∷ []) ms h e)
  | inl e ↦ inr (rw (e) at g)
]

parse_agent_bootstrap-IsSafe :
    (py : Python) (result : Value) (b : AgentBootstrap)
    → parse_agent_bootstrap py result ≡ ok b
    → IsSafe result b
unfolding parse_agent_bootstrap
parse_agent_bootstrap-IsSafe py result b = bind_rule (require (as_object (some result))) _ (λ raw r.
    bind_rule (head_of raw) _ (λ head h. bind_rule (components_of head.components) _ (λ cs c.
      bind_rule (check_components head.degraded cs) _ (λ _ k built.
        let f = bootstrap_of-Facts py head cs b built in
        let g = check_components-ok head.degraded cs k in
        record {
          degraded = f.degraded ∙ g.0 ∙ ap (λ x. has_some (failures_of x)) (sym f.statuses);
          failures = f.failures;
          pinned = f.pinned;
          recall =
              lane-IsLaneMemory py cs.recall.0 cs.recall.1 ("results" ∷ "memories" ∷ []) b.recall
                f.recall;
          upcoming = f.upcoming;
          proven = elim (recall_proven py cs.recall.0 cs.recall.1 b.recall f.recall g.1) [
            | inl none' ↦ inl none'
            | inr p ↦ inr (
              raw,
              head.components,
              cs.recall.1,
              some_inj (as_object-some (some result) (require-ok (as_object (some result)) raw r)),
              head_of-components raw head h,
              components_of-recall head.components cs c,
              p,
            )
          ];
        }))))

is_identity-eq : (o : Option String) (id : String) → is_identity o id ≡ true → o ≡ some id
unfolding is_identity
is_identity-eq none id h = absurd (cc h)
is_identity-eq (some s) id h = ap some ((eq_iff s id).0 h)

module _ {W : Type 0} (py : Python) (client : RestBootstrapMemoryClient W) where
  parsed_answer-IsSafe :
      (r : Result BootstrapError Value) (b : AgentBootstrap)
      → parsed_answer py client r ≡ ok b
      → (b.agent_id ≡ some client.agent_id)
        × (b.context_id ≡ some client.context_id)
        × ((result : Value) × (r ≡ ok result) × IsSafe result b)
  unfolding parsed_answer
  parsed_answer-IsSafe (raised e) b h = absurd (cc h)
  parsed_answer-IsSafe (ok result) b h =
      bind_rule (parse_agent_bootstrap py result) _
        (λ p e. bind_rule (guard (is_identity p.agent_id client.agent_id)) _ (λ _ a.
          bind_rule (guard (is_identity p.context_id client.context_id)) _ (λ _ c k.
            subst
              (λ x.
                (x.agent_id ≡ some client.agent_id)
                × (x.context_id ≡ some client.context_id)
                × ((v : Value) × (◌≡◌ {A = Result BootstrapError Value} (ok result) (ok v))
                    × IsSafe v x))
              (ok_inj k)
              (
                is_identity-eq p.agent_id client.agent_id (guard-ok _ a),
                is_identity-eq p.context_id client.context_id (guard-ok _ c),
                (result, refl, parse_agent_bootstrap-IsSafe py result p e),
              ))))
        h

  -- A bootstrap that the client returns is that of its own agent and context, whatever the service
  -- answers: every memory in it has an id and a text that are not blank and is trusted, the pinned ones
  -- are all delivered always, the recalled ones are none unless the answer says that only trusted
  -- memories were searched, and it counts as degraded exactly if a component failed.
  pub rest_bootstrap-IsSafe :
      (session query : String) (recall_k : ℕ) (w : W) (b : AgentBootstrap)
      → (rest_bootstrap py client session query recall_k w).0 ≡ ok b
      → (b.agent_id ≡ some client.agent_id)
        × (b.context_id ≡ some client.context_id)
        × ((result : Value) × ((client.bootstrap_call client.agent_id client.context_id session
                query recall_k bootstrap_components w).0
              ≡ ok result)
            × IsSafe result b)
  unfolding rest_bootstrap
  rest_bootstrap-IsSafe session query recall_k w b h =
      elim (Bool-cases (leb 1 recall_k && leb recall_k 100)) [
        | inr e ↦ absurd (cc (rw (e) at h))
        | inl e ↦ parsed_answer-IsSafe _ b (rw (e) at h)
      ]
