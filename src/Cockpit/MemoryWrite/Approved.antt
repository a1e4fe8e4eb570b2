-- ===== src/Cockpit/MemoryWrite/Approved.antt =====
-- Nothing is granted and nothing promoted without the operator's approval.
use Prim.Native.String.{◌++◌ as append}
use kagura_agent.Prelude.{
  ℕ, String, ◌≡◌, refl, true, false, Option, none, some, List, Result, ok, Bool-cases, Result-cases,
  inl, inr, ◌⊎◌,
}
use kagura_agent.Membrane.Graduation.{Engine, GraduationPolicy, should_propose}
use kagura_agent.Cockpit.Approval
use kagura_agent.Cockpit.Approval.{CapabilityRequest, Future}
use kagura_agent.Cockpit.Approval.Futures.{get_elem?}
use kagura_agent.Cockpit.Approval.Invariant.{Approved}
use kagura_agent.Cockpit.Core.{Cockpit, CockpitState, Error, Outcome, request_capability}
use kagura_agent.Cockpit.MemoryWrite.{
  Waited, answered, timed_out, given_up, seen, wait_for, request_write, after_answer, await_answer,
  propose_promotion,
}

seen-Approved : (f : Option Future) → seen f ≡ answered true → f ≡ some (Approval.decided true)
unfolding seen
seen-Approved none h = absurd (cc h)
seen-Approved (some Approval.waiting) h = absurd (cc h)
seen-Approved (some (Approval.decided true)) h = refl
seen-Approved (some (Approval.decided false)) h = absurd (cc h)
seen-Approved (some Approval.cancelled) h = absurd (cc h)

Waited-cases :
    (a : Waited) → (a ≡ answered true) ⊎ (a ≡ answered false) ⊎ (a ≡ timed_out) ⊎ (a ≡ given_up)
Waited-cases (answered true) = inl refl
Waited-cases (answered false) = inr (inl refl)
Waited-cases timed_out = inr (inr (inl refl))
Waited-cases given_up = inr (inr (inr refl))

abbrev pub write_request : String → String → CapabilityRequest
write_request thread reason = record {
  thread_id = thread;
  capability = "memory:write";
  reason = reason;
}

abbrev pub promotion_request : String → String → String → CapabilityRequest
promotion_request category thread reason = record {
  thread_id = thread;
  capability = append "memory:promote:" category;
  reason = reason;
}

module _ {W : Type 0} (c : Cockpit W) (others : CockpitState W → CockpitState W) where
  -- The request was made, and its future is decided for it when the wait ends.
  pub record IsApproved (request : CapabilityRequest) (s : CockpitState W) : Type 0 where
    pub future : ℕ
    pub made : (request_capability c request s).0 ≡ ok future
    pub approved : Approved (others (request_capability c request s).1).approvals.futures future

  wait_for-Approved :
      (future : ℕ) (t : CockpitState W)
      → (wait_for c others future t).0 ≡ answered true
      → Approved (others t).approvals.futures future
  unfolding wait_for
  wait_for-Approved future t h = seen-Approved (get_elem? (others t).approvals.futures future) h

  -- The lease to write memory is granted only if the request was made and approved while the call
  -- waited: otherwise the outcome is the same whatever the grant would do, so it is not called.
  pub request_write-Approved :
      {L : Type 0} (grant other : W → Result Error L × W) (thread reason : String)
      (s : CockpitState W)
      → (request_write c others grant thread reason s
          ≡ request_write c others other thread reason s)
        ⊎ IsApproved (write_request thread reason) s
  unfolding request_write
  request_write-Approved grant other thread reason s =
      let (r, t) = request_capability c (write_request thread reason) s in
      elim (Result-cases r) [
        | inr (e, d) ↦ inl (rw d refl)
        | inl (future, d) ↦ elim (Waited-cases (wait_for c others future t).0) [
          | inl e ↦
              inr (record { future = future; made = d; approved = wait_for-Approved future t e })
          | inr (inl e) ↦ inl (rw (d, e) refl)
          | inr (inr (inl e)) ↦ inl (rw (d, e) refl)
          | inr (inr (inr e)) ↦ inl (rw (d, e) refl)
        ]
      ]

  -- A promotion is tried only if the category is eligible and its request was made and approved while
  -- the call waited: otherwise the result, the engine and the cockpit are the same whatever
  -- `promote` would do, so it is not called.
  pub propose_promotion-Approved :
      (promote other : String → W → Outcome W) (policy : GraduationPolicy) (asked_at marked_at : ℕ)
      (category : String) (ids : List String) (thread input_trust reason : String) (engine : Engine)
      (s : CockpitState W)
      → (propose_promotion c others promote policy asked_at marked_at category ids thread
            input_trust reason engine s
          ≡ propose_promotion c others other policy asked_at marked_at category ids thread
              input_trust reason engine s)
        ⊎ (((should_propose policy asked_at engine category input_trust).0 ≡ true)
            × IsApproved (promotion_request category thread reason) s)
  unfolding propose_promotion await_answer after_answer
  propose_promotion-Approved promote other policy asked_at marked_at category ids thread input_trust
        reason engine s =
      let (r, t) = request_capability c (promotion_request category thread reason) s in
      elim (Bool-cases (should_propose policy asked_at engine category input_trust).0) [
        | inr no_proposal ↦ inl (rw no_proposal refl)
        | inl eligible ↦ elim (Result-cases r) [
          | inr (e, d) ↦ inl (rw (eligible, d) refl)
          | inl (future, d) ↦ elim (Waited-cases (wait_for c others future t).0) [
            | inl e ↦ inr (
              eligible,
              record { future = future; made = d; approved = wait_for-Approved future t e },
            )
            | inr (inl e) ↦ inl (rw (eligible, d, e) refl)
            | inr (inr (inl e)) ↦ inl (rw (eligible, d, e) refl)
            | inr (inr (inr e)) ↦ inl (rw (eligible, d, e) refl)
          ]
        ]
      ]
