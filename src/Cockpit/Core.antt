-- ===== src/Cockpit/Core.antt =====
-- cockpit/core.py: `Cockpit`, what it does with approvals and kills, and `record_decision` of
-- cockpit/hitl.py.
-- The transport, the memory service, the container launcher and the clock are outside: calls that act
-- on a world `W`. An approval is granted when its future is decided, which a consumer sees.
pub mod Approvals
pub mod Kill
mod Examples
use Prim.Native.String.{◌++◌ as append}
use kagura_agent.Prelude.{
  ℕ, String, Bool, true, false, Option, none, some, List, [], ◌∷◌, if◌then◌else◌, Result, ok,
  raised, Action, ◌>>=◌, ◌>>◌, pure, raise,
}
use kagura_agent.Prelude.Dict
use kagura_agent.Prelude.Text.{is_empty}
use kagura_agent.Cockpit.Approval
use kagura_agent.Cockpit.Approval.{CapabilityRequest, Registry, set_result}
use kagura_agent.Cockpit.Sessions.{
  SessionRegistry, SessionRecord, Status, running, dead, closed, close,
}
use kagura_agent.Cockpit.Operator.{Event, click_authorized}

-- `failed` is any `Exception` of an outside call, `cancelled` a `BaseException`.
pub data Error : Type 0 where
  pending_approval_exists failed cancelled : Error

abbrev pub Outcome : Type 0 → Type 0
Outcome W = Result Error (Unit {0}) × W

pub record Cockpit (W : Type 0) : Type 0 where
  pub send : String → String → W → Outcome W
  pub remember : Option (String → List String → W → Outcome W)
  pub kill : Option (String → W → Outcome W)
  pub clock : W → ℕ × W
  pub operator_id : Option String
  pub require_operator : Bool

pub record CockpitState (W : Type 0) : Type 0 where
  pub approvals : Registry
  pub sessions : SessionRegistry
  pub world : W

abbrev pub Call : Type 0 → Type 0 → Type 0
Call W = Action (CockpitState W) Error

-- the texts of `record_decision`
unfoldable pub decision_text : CapabilityRequest → Bool → Option String → String
decision_text request approved failure =
    let verb : String = if approved then "approved" else elim failure [
      | none ↦ "denied"
      | some f ↦ append "denied (transport_error: " (append f ")")
    ] in
    append "HITL "
      (append verb (append " " (append request.capability (append ": " request.reason))))

unfoldable pub status_text : Option SessionRecord → String
status_text none = "unknown"
status_text (some rec) = elim rec.status [ running ↦ "running" | dead ↦ "dead" | closed ↦ "closed" ]

-- `rec is not None and rec.container_id`
unfoldable pub container_of : Option SessionRecord → Option String
container_of none = none
container_of (some rec) = elim rec.container_id [
  | none ↦ none
  | some c ↦ if is_empty c then none else some c
]

-- `except Exception: log`
unfoldable pub log_failure : Result Error (Unit {0}) → Result Error (Unit {0})
log_failure (raised cancelled) = raised cancelled
log_failure _ = ok tt

module _ {W : Type 0} where
  unfoldable pub outside : (W → Outcome W) → Call W (Unit {0})
  outside f s = let (r, w) = f s.world in (r, record s { world = w })

  unfoldable pub send : Cockpit W → String → String → Call W (Unit {0})
  unfolding outside
  send c thread text = outside (c.send thread text)

  unfoldable pub now : Cockpit W → Call W ℕ
  now c s = let (t, w) = c.clock s.world in (ok t, record s { world = w })

  -- `if self._memory is not None: await record_decision(...)`
  unfoldable pub record_decision : Cockpit W → CapabilityRequest → Bool → Call W (Unit {0})
  unfolding outside decision_text
  record_decision c request approved = elim c.remember [
    | none ↦ pure tt
    | some remember ↦
        outside (remember (decision_text request approved none) ("hitl" ∷ "graduation-trail" ∷ []))
  ]

  unfoldable pub sender_is_operator : Cockpit W → Event → Bool
  unfolding click_authorized
  sender_is_operator c event = click_authorized event.sender c.operator_id c.require_operator

  -- `self._approvals.register(request)`
  unfoldable pub register_request : Cockpit W → CapabilityRequest → Call W ℕ
  unfolding now
  register_request c request = do
    t ← now c
    created ← now c
    λ s.
        let (r, a) = Approval.register s.approvals t created request in
        (
          elim r [ ok i ↦ ok i | raised _ ↦ raised pending_approval_exists ],
          record s { approvals = a },
        )

  -- `self._approvals.resolve(thread_id, approved=approved)`
  unfoldable pub resolve_request : Cockpit W → String → Bool → Call W (Option CapabilityRequest)
  unfolding now
  resolve_request c thread approved = do
    t ← now c
    λ s.
        let (r, a) = Approval.resolve s.approvals t thread approved in
        (ok r, record s { approvals = a })

  -- the `except BaseException` around the send of `request_capability`
  unfoldable pub roll_back : Cockpit W → String → Result Error (Unit {0}) → ℕ → Call W ℕ
  unfolding resolve_request
  roll_back c thread (ok _) future = pure future
  roll_back c thread (raised e) future = resolve_request c thread false >> raise e

  unfoldable pub request_capability : Cockpit W → CapabilityRequest → Call W ℕ
  unfolding register_request send roll_back
  request_capability c request = do
    future ← register_request c request
    λ s.
        let (r, s') =
          send c request.thread_id
            (append "approval requested: " (
              append request.capability
                (append " (" (append request.reason ") — reply /approve or /deny"))))
            s in
        roll_back c request.thread_id r future s'

  unfoldable pub withdraw_pending : Cockpit W → String → Call W (Unit {0})
  unfolding resolve_request record_decision log_failure
  withdraw_pending c thread = do
    request ← resolve_request c thread false
    elim request [
      | none ↦ pure tt
      | some q ↦ λ s. let (r, s') = record_decision c q false s in (log_failure r, s')
    ]

  -- `self._approvals.pending(thread_id)`
  unfoldable pub has_pending : Cockpit W → String → Call W Bool
  unfolding now
  has_pending c thread = do
    t ← now c
    λ s. let (b, a) = Approval.is_pending s.approvals t thread in (ok b, record s { approvals = a })

  -- `self._approvals.claim(thread_id)`
  unfoldable pub claim_request : Cockpit W → String → Call W (Option (CapabilityRequest × ℕ))
  unfolding now
  claim_request c thread = do
    t ← now c
    λ s. let (r, a) = Approval.claim s.approvals t thread in (ok r, record s { approvals = a })

  -- `if not future.done(): future.set_result(...)`
  unfoldable pub decide : ℕ → Bool → Call W (Unit {0})
  decide future approved s =
      (ok tt, record s { approvals = set_result s.approvals future approved })

  -- the rest of `_resolve_pending`, with the claimed entry: the audit comes before the decision
  unfoldable pub audit_and_decide :
      Cockpit W → String → Bool → CapabilityRequest → ℕ → Call W (Unit {0})
  unfolding record_decision decide send
  audit_and_decide c thread approved request future = do
    record_decision c request approved
    decide future approved
    send c thread
        (append (if approved then "approved" else "denied") (append " " request.capability))

  unfoldable pub resolve_claimed :
      Cockpit W → String → Bool → Option (CapabilityRequest × ℕ) → Call W (Unit {0})
  unfolding send audit_and_decide
  resolve_claimed c thread approved none = send c thread "no pending approval"
  resolve_claimed c thread approved (some (request, future)) =
      audit_and_decide c thread approved request future

  unfoldable pub resolve_as_operator : Cockpit W → String → Bool → Call W (Unit {0})
  unfolding claim_request resolve_claimed
  resolve_as_operator c thread approved =
      claim_request c thread >>= resolve_claimed c thread approved

  -- `_resolve_pending` behind its first test
  unfoldable pub resolve_if : Cockpit W → Event → Bool → Bool → Call W (Unit {0})
  unfolding send sender_is_operator resolve_as_operator
  resolve_if c event approved live s =
      if live
      then (if sender_is_operator c event
          then resolve_as_operator c event.thread_id approved s
          else send c event.thread_id "approval ignored: only the operator may approve/deny" s)
      else send c event.thread_id "no pending approval" s

  unfoldable pub resolve_pending : Cockpit W → Event → Bool → Call W (Unit {0})
  unfolding has_pending resolve_if
  resolve_pending c event approved = has_pending c event.thread_id >>= resolve_if c event approved

  unfoldable pub handle_status : Cockpit W → Event → Call W (Unit {0})
  unfolding send status_text
  handle_status c event s =
      send c event.thread_id
        (append "session " (
          append event.thread_id (append ": " (status_text (Dict.get s.sessions event.thread_id)))))
        s

  unfoldable pub close_session : String → Call W (Unit {0})
  close_session thread s = (ok tt, record s { sessions = close s.sessions thread })

  -- the end of `_handle_kill`
  unfoldable pub report_kill : Cockpit W → String → String → Call W (Unit {0})
  unfolding close_session send
  report_kill c thread outcome = do
    close_session thread
    send c thread (append "session " (append thread outcome))

  unfoldable pub after_kill : Cockpit W → String → Result Error (Unit {0}) → Call W (Unit {0})
  unfolding report_kill
  after_kill c thread (ok _) = report_kill c thread " killed"
  after_kill c thread (raised cancelled) = raise cancelled
  after_kill c thread (raised _) =
      report_kill c thread ": container kill FAILED (see logs); session closed"

  -- `_handle_kill` behind its gate: the launcher and the container, where both are there
  unfoldable pub kill_session :
      Cockpit W → String → Option (String → W → Outcome W) → Option String → Call W (Unit {0})
  unfolding outside after_kill report_kill
  kill_session c thread (some kill) (some container) s =
      let (r, s') = outside (kill container) s in after_kill c thread r s'
  kill_session c thread _ _ s = report_kill c thread " killed" s

  unfoldable pub handle_kill : Cockpit W → Event → Call W (Unit {0})
  unfolding sender_is_operator send container_of kill_session
  handle_kill c event s =
      if sender_is_operator c event
      then kill_session c event.thread_id c.kill
          (container_of (Dict.get s.sessions event.thread_id)) s
      else send c event.thread_id "kill ignored: only the operator may kill a session" s
