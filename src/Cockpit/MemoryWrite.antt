-- ===== src/Cockpit/MemoryWrite.antt =====
-- cockpit/memory_write.py: what an operator's approval opens: the lease to write memory, and the promotion
-- of quarantined memories. `others` is what the rest of the program does to the cockpit while a call
-- waits for the decision; `asyncio.wait_for` then finds the future decided or cancelled, or cancels it.
-- The lease, its grant and the promotion are outside, on the cockpit's world. `propose_promotion` takes
-- the two readings of the engine's clock.
pub mod Approved
pub mod Promoted
mod Examples
use Prim.Native.String.{◌++◌ as append}
use kagura_agent.Prelude.{
  ℕ, zero, suc, String, Bool, true, false, Option, none, some, List, [], ◌∷◌, ◌++◌, if◌then◌else◌,
  Result, ok, raised, Action, ◌>>=◌, ◌>>◌, pure, raise,
}
use kagura_agent.Membrane.Graduation.{Engine, GraduationPolicy, should_propose, mark_proposed}
use kagura_agent.Cockpit.Approval
use kagura_agent.Cockpit.Approval.{CapabilityRequest, Future}
use kagura_agent.Cockpit.Approval.Futures.{get_elem?}
use kagura_agent.Cockpit.Core
use kagura_agent.Cockpit.Core.{
  Cockpit, CockpitState, Error, cancelled, Call, Outcome, request_capability, withdraw_pending,
  outside,
}

-- how `asyncio.wait_for` ends
pub data Waited : Type 0 where
  answered : Bool → Waited
  timed_out given_up : Waited

unfoldable pub cancel : Future → Future
cancel Approval.waiting = Approval.cancelled
cancel f = f

unfoldable pub cancel_at : List Future → ℕ → List Future
unfolding cancel
cancel_at [] i = []
cancel_at (f ∷ fs) zero = cancel f ∷ fs
cancel_at (f ∷ fs) (suc i) = f ∷ cancel_at fs i

unfoldable pub seen : Option Future → Waited
seen (some (Approval.decided approved)) = answered approved
seen (some Approval.cancelled) = given_up
seen _ = timed_out

module _ {W : Type 0} (promote : String → W → Outcome W) where
  -- whether the promotion is noted; `except Exception` logs, a cancellation goes on
  unfoldable pub keep_promoted :
      String → Result Error (Unit {0}) → List String → Result Error (List String)
  keep_promoted mid (ok _) promoted = ok (promoted ++ mid ∷ [])
  keep_promoted mid (raised cancelled) promoted = raised cancelled
  keep_promoted mid (raised _) promoted = ok promoted

  -- the loop over the memories, with those promoted so far
  unfoldable pub promote_all : List String → List String → W → Result Error (List String) × W
  unfolding keep_promoted
  promote_all [] promoted w = (ok promoted, w)
  promote_all (mid ∷ ids) promoted w =
      let (r, w') = promote mid w in
      elim (keep_promoted mid r promoted) [
        | raised e ↦ (raised e, w')
        | ok noted ↦ promote_all ids noted w'
      ]

module _ {W : Type 0} (c : Cockpit W) (others : CockpitState W → CockpitState W) where
  unfoldable pub cancel_future : ℕ → CockpitState W → CockpitState W
  unfolding cancel_at
  cancel_future future s = record s {
    approvals = record s.approvals { futures = cancel_at s.approvals.futures future };
  }

  unfoldable pub wait_for : ℕ → CockpitState W → Waited × CockpitState W
  unfolding seen cancel_future
  wait_for future s =
      let t = others s in
      let found = seen (get_elem? t.approvals.futures future) in
      (found, elim found [ timed_out ↦ cancel_future future t | _ ↦ t ])

  module _ {L : Type 0} (grant : W → Result Error L × W) where
    unfoldable pub grant_lease : Call W (Option L)
    grant_lease s =
        let (r, w) = grant s.world in
        (elim r [ ok l ↦ ok (some l) | raised e ↦ raised e ], record s { world = w })

    unfoldable pub after_wait : String → Waited → Call W (Option L)
    unfolding grant_lease
    after_wait thread timed_out = withdraw_pending c thread >> pure none
    after_wait thread given_up = raise cancelled
    after_wait thread (answered false) = pure none
    after_wait thread (answered true) = grant_lease

    -- `MemoryWriteApprover.request`
    unfoldable pub request_write : String → String → Call W (Option L)
    unfolding wait_for after_wait
    request_write thread reason = do
      future ←
          request_capability c
            (record { thread_id = thread; capability = "memory:write"; reason = reason })
      λ s. let (waited, t) = wait_for future s in after_wait thread waited t

  module _ (promote : String → W → Outcome W) where
    unfoldable pub promote_approved : List String → Call W (Option (List String))
    unfolding promote_all
    promote_approved ids s =
        let (r, w) = promote_all promote ids [] s.world in
        (elim r [ ok promoted ↦ ok (some promoted) | raised e ↦ raised e ], record s { world = w })

    -- The result, the engine and the cockpit after the wait.
    unfoldable pub after_answer :
        ℕ
        → String
        → List String
        → String
        → Engine
        → Waited
        → CockpitState W
        → Result Error (Option (List String)) × Engine × CockpitState W
    unfolding promote_approved
    after_answer now category ids thread engine timed_out s =
        let (r, t) = (withdraw_pending c thread >> pure none) s in (r, engine, t)
    after_answer now category ids thread engine given_up s = (raised cancelled, engine, s)
    after_answer now category ids thread engine (answered false) s =
        (ok none, mark_proposed now engine category, s)
    after_answer now category ids thread engine (answered true) s =
        let (r, t) = promote_approved ids s in (r, mark_proposed now engine category, t)

    -- the rest of `propose_promotion`, after the request
    unfoldable pub await_answer :
        ℕ
        → String
        → List String
        → String
        → Engine
        → Result Error ℕ
        → CockpitState W
        → Result Error (Option (List String)) × Engine × CockpitState W
    unfolding wait_for after_answer
    await_answer now category ids thread engine (raised e) s = (raised e, engine, s)
    await_answer now category ids thread engine (ok future) s =
        let (waited, t) = wait_for future s in after_answer now category ids thread engine waited t

    unfoldable pub propose_promotion :
        GraduationPolicy
        → ℕ
        → ℕ
        → String
        → List String
        → String
        → String
        → String
        → Engine
        → CockpitState W
        → Result Error (Option (List String)) × Engine × CockpitState W
    unfolding await_answer
    propose_promotion policy asked_at marked_at category ids thread input_trust reason engine s =
        let (eligible, kept) = should_propose policy asked_at engine category input_trust in
        let request : CapabilityRequest = record {
          thread_id = thread;
          capability = append "memory:promote:" category;
          reason = reason;
        } in
        let (r, t) = request_capability c request s in
        if eligible then await_answer marked_at category ids thread kept r t else (ok none, kept, s)
