-- ===== src/Cockpit/Core/Approvals.antt =====
-- What a typed approval grants, and what a failed request leaves.
use kagura_agent.Prelude.{
  ℕ, ◌+◌, ◌≤◌, String, ◌≡◌, refl, ◌∙◌, subst, Bool, true, false, none, some, [], ◌∷◌, Option-cases,
  Bool-cases, arith, eq_refl, ok, raised, Result, continue_rule, ◌⊎◌, inl, inr,
}
use kagura_agent.Prelude.Dict
use kagura_agent.Prelude.Dict.{get-remove}
use kagura_agent.Cockpit.Approval
use kagura_agent.Cockpit.Approval.{
  CapabilityRequest, Pending, Registry, purge_if_expired, claim, is_pending, set_result,
}
use kagura_agent.Cockpit.Approval.Cases.{resolve_cases}
use kagura_agent.Cockpit.Approval.Invariant.{Approved}
use kagura_agent.Cockpit.Approval.Grants.{Approved-settle_at, purge-Approved, purge-live}
use kagura_agent.Cockpit.Operator.{Event}
use kagura_agent.Cockpit.Core.{
  resolve_request, register_request, roll_back, request_capability, pending_approval_exists, Error,
  Cockpit, CockpitState, outside, decision_text, record_decision, decide, send, audit_and_decide,
  sender_is_operator, resolve_pending, resolve_if, resolve_as_operator, resolve_claimed,
  claim_request, has_pending, now,
}

module _ {W : Type 0} (c : Cockpit W) where
  -- The memory service, where there is one, confirmed the record of the decision.
  abbrev pub Audited : CapabilityRequest → Bool → W → Type 0
  Audited q a w = elim c.remember [
    | none ↦ Unit
    | some remember ↦
        (remember (decision_text q a none) ("hitl" ∷ "graduation-trail" ∷ []) w).0 ≡ ok tt
  ]

  record_decision_lem :
      (q : CapabilityRequest) (a : Bool) (s : CockpitState W)
      → ((record_decision c q a s).1.approvals ≡ s.approvals)
        × ((record_decision c q a s).0 ≡ ok tt → Audited q a s.world)
  unfolding record_decision
  record_decision_lem q a s = elim (Option-cases c.remember) [
    | inl e ↦ rw (e, record_decision) (refl, λ _. tt)
    | inr (f, e) ↦ rw (e, record_decision) (refl, λ h. h)
  ]

  audit_and_decide-Approved :
      (thread : String) (a : Bool) (q : CapabilityRequest) (future : ℕ) (s : CockpitState W) (i : ℕ)
      → Approved (audit_and_decide c thread a q future s).1.approvals.futures i
      → Approved s.approvals.futures i ⊎ ((future ≡ i) × (a ≡ true) × Audited q a s.world)
  unfolding audit_and_decide decide send set_result outside
  audit_and_decide-Approved thread a q future s i =
      let (same, audited) = record_decision_lem q a s in
      continue_rule
        (λ x.
          Approved x.1.approvals.futures i
          → Approved s.approvals.futures i ⊎ ((future ≡ i) × (a ≡ true) × Audited q a s.world))
        (record_decision c q a s).0 _ (record_decision c q a s).1
        (λ e _ h. inl (subst (λ r. Approved r.futures i) same h))
        (λ u done h. elim (Approved-settle_at (record_decision c q a s).1.approvals future i a h) [
          | inl before ↦ inl (subst (λ r. Approved r.futures i) same before)
          | inr (it, yes') ↦ inr (it, yes', audited done)
        ])

  resolve_as_operator-Approved :
      (thread : String) (a : Bool) (s : CockpitState W) (i : ℕ)
      → Approved (resolve_as_operator c thread a s).1.approvals.futures i
      → Approved s.approvals.futures i
        ⊎ ((e : Pending) × (a ≡ true)
            × (Dict.get s.approvals.pending thread ≡ some e)
            × (e.future ≡ i)
            × ((w : W) × Audited e.request a w))
  unfolding resolve_as_operator claim_request claim now resolve_claimed send outside
  resolve_as_operator-Approved thread a s i =
      let t = (c.clock s.world).0 in
      let w = (c.clock s.world).1 in
      let p = purge_if_expired s.approvals t thread in
      let p' : Registry = record p { pending = Dict.remove p.pending thread } in
      elim (Option-cases (Dict.get p.pending thread)) [
        | inl e ↦ rw (e, claim) (λ h. inl (purge-Approved s.approvals t thread i h))
        | inr (x, e) ↦
            rw (e, claim)
              (λ h.
                elim (audit_and_decide-Approved thread a x.request x.future
                  (record { approvals = p'; sessions = s.sessions; world = w }) i h) [
                    | inl before ↦ inl (purge-Approved s.approvals t thread i before)
                    | inr (it, yes', done) ↦
                        inr (x, yes', (purge-live s.approvals t thread i x e).0, it, (w, done))
                  ])
      ]

  -- The call granted the future: an operator approved the thread's own live request, and the record
  -- of that decision was confirmed first.
  pub record Granted (event : Event) (a : Bool) (s : CockpitState W) (i : ℕ) : Type 0 where
    pub approves : a ≡ true
    pub operator : sender_is_operator c event ≡ true
    pub entry : Pending
    pub own : Dict.get s.approvals.pending event.thread_id ≡ some entry
    pub in_time : (c.clock s.world).0 ≤ entry.created_at + s.approvals.ttl
    pub future : entry.future ≡ i
    pub world : W
    pub audited : Audited entry.request a world

  -- After a typed approval or denial, an approved future was approved before, or it was granted: the
  -- command approves, an operator sent it, the future is that of the thread's own request within its
  -- time to live, and the memory service, if there is one, confirmed the record of the decision.
  pub resolve_pending-Approved :
      (event : Event) (a : Bool) (s : CockpitState W) (i : ℕ)
      → Approved (resolve_pending c event a s).1.approvals.futures i
      → Approved s.approvals.futures i ⊎ Granted event a s i
  unfolding resolve_pending has_pending is_pending now resolve_if send outside
  resolve_pending-Approved event a s i =
      let t = (c.clock s.world).0 in
      let thread = event.thread_id in
      let p = purge_if_expired s.approvals t thread in
      let s' : CockpitState W = record {
        approvals = p;
        sessions = s.sessions;
        world = (c.clock s.world).1;
      } in
      elim (Option-cases (Dict.get p.pending thread)) [
        | inl e ↦ rw (e, is_pending) (λ h. inl (purge-Approved s.approvals t thread i h))
        | inr (x, e) ↦ elim (Bool-cases (sender_is_operator c event)) [
          | inr denied ↦
              rw (e, is_pending, denied) (λ h. inl (purge-Approved s.approvals t thread i h))
          | inl yes' ↦
              rw (e, is_pending, yes')
                (λ h. elim (resolve_as_operator-Approved thread a s' i h) [
                  | inl before ↦ inl (purge-Approved s.approvals t thread i before)
                  | inr (d, approves, own, it, (w, done)) ↦
                      let (was, live) = purge-live s.approvals t thread i d own in
                      inr (record {
                        approves = approves;
                        operator = yes';
                        entry = d;
                        own = was;
                        in_time = live;
                        future = it;
                        world = w;
                        audited = done;
                      })
                ])
        ]
      ]

  resolve_clears :
      (r : Registry) (t : ℕ) (thread : String) (a : Bool)
      → Dict.get (Approval.resolve r t thread a).1.pending thread ≡ none
  unfolding set_result
  resolve_clears r t thread a =
      resolve_cases r t thread a (λ x. Dict.get x.1.pending thread ≡ none)
        (λ _.
          ground
            (arith, get-remove (purge_if_expired r t thread).pending thread thread, eq_refl thread))
        (λ _ _.
          ground
            (arith, get-remove (purge_if_expired r t thread).pending thread thread, eq_refl thread))

  roll_back_lem :
      (thread : String) (r : Result Error (Unit {0})) (future : ℕ) (s : CockpitState W) (e : Error)
      → (roll_back c thread r future s).0 ≡ raised e
      → Dict.get (roll_back c thread r future s).1.approvals.pending thread ≡ none
  unfolding roll_back resolve_request now
  roll_back_lem thread (ok _) future s e h = absurd (cc h)
  roll_back_lem thread (raised _) future s e h = resolve_clears s.approvals _ thread false

  register_request_raised :
      (q : CapabilityRequest) (s : CockpitState W) (e : Error)
      → (register_request c q s).0 ≡ raised e
      → e ≡ pending_approval_exists
  unfolding register_request now
  register_request_raised q s e =
      of_result
        (Approval.register s.approvals (c.clock s.world).0 (c.clock (c.clock s.world).1).0 q).0
    where
      of_result :
          (r : Result Approval.Error ℕ)
          → ◌≡◌ {A = Result Error ℕ}
              (elim r [ ok i ↦ ok i | raised _ ↦ raised pending_approval_exists ])
              (raised e)
          → e ≡ pending_approval_exists
      of_result (ok i) h = absurd (cc h)
      of_result (raised _) h = ground (arith, h)

  -- A request for a capability that raises leaves no request of its thread behind, unless it was
  -- refused because one was pending already.
  pub request_capability_raised :
      (q : CapabilityRequest) (s : CockpitState W) (e : Error)
      → (request_capability c q s).0 ≡ raised e
      → (e ≡ pending_approval_exists)
        ⊎ (Dict.get (request_capability c q s).1.approvals.pending q.thread_id ≡ none)
  unfolding request_capability
  request_capability_raised q s e =
      continue_rule
        (λ x.
          x.0 ≡ raised e
          → (e ≡ pending_approval_exists) ⊎ (Dict.get x.1.approvals.pending q.thread_id ≡ none))
        (register_request c q s).0 _ (register_request c q s).1
        (λ e' refused h. inl (register_request_raised q s e (refused ∙ h)))
        (λ i done h. inr (roll_back_lem q.thread_id _ i _ e h))
