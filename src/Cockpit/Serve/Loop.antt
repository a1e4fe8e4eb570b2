-- ===== src/Cockpit/Serve/Loop.antt =====
-- cockpit/core.py: `serve`, `handle`, `_handle_task` and `_reconcile_on_start`. The events are those that the
-- transport gives.
use kagura_agent.Prelude.{
  String, true, false, Option, none, some, List, [], ◌∷◌, Result, ok, raised, ◌>>=◌, ◌>>◌, pure,
  raise,
}
use kagura_agent.Prelude.Json.{Fields}
use kagura_agent.Core.Session
use kagura_agent.Core.Session.{
  Checkpoint, BrainEvent, SessionError, session_cancelled, SessionResult, Brain, CheckpointStore,
  resume,
}
use kagura_agent.Mcp.RestBootstrap
use kagura_agent.Mcp.RestBootstrap.{BootstrapError, AgentBootstrap}
use kagura_agent.Mcp.Local.{Memory}
use kagura_agent.Patterns.Prompt.{prepare_prompt, write_outcome}
use kagura_agent.Cockpit.Sessions
use kagura_agent.Cockpit.Sessions.{sessions, set_container, reconcile}
use kagura_agent.Cockpit.Operator.{
  Event, Intent, launch, continues, status, approve, deny, kill, classify,
}
use kagura_agent.Cockpit.Core.{
  Error, failed, cancelled, CockpitState, Call, send, log_failure, close_session, handle_status,
  handle_kill, resolve_pending,
}
use kagura_agent.Cockpit.Serve.{Backend, Runner, at_world, select_brain, seen_store}

unfoldable pub session_error : SessionError → Error
session_error session_cancelled = cancelled
session_error _ = failed

unfoldable pub bootstrap_error : BootstrapError → Error
bootstrap_error RestBootstrap.cancelled = cancelled
bootstrap_error _ = failed

unfoldable pub prompt_only :
    Result BootstrapError (String × (List Memory × AgentBootstrap)) → Result Error String
unfolding bootstrap_error
prompt_only (ok (text, _)) = ok text
prompt_only (raised e) = raised (bootstrap_error e)

-- `except Exception: log` around the write of the outcome
unfoldable pub logged : Result BootstrapError String → Result Error (Unit {0})
logged (raised RestBootstrap.cancelled) = raised cancelled
logged _ = ok tt

module _ {W : Type 0} where
  -- the prompt with the memory's bootstrap, where there is a memory
  unfoldable pub effective_prompt : Runner W → Event → Call W String
  unfolding at_world prepare_prompt prompt_only
  effective_prompt r event s = elim r.memory [
    | none ↦ (ok event.text, s)
    | some memory ↦
        let (p, s') = at_world (prepare_prompt memory r.tools event.thread_id event.text) s in
        (prompt_only p, s')
  ]

  -- the body of the `try`, but for the record of a session in the host
  unfoldable pub run_session :
      Runner W
      → Brain Fields (CockpitState W)
      → Event
      → Intent
      → String
      → CockpitState W
      → Result SessionError (SessionResult Fields) × CockpitState W
  unfolding seen_store resume Session.run
  run_session r brain event continues prompt s =
      resume brain (seen_store r.checkpoints) event.thread_id prompt s
  run_session r brain event _ prompt s =
      Session.run brain (seen_store r.checkpoints)
        (record { prompt = prompt; session_id = event.thread_id }) s

  -- `except Exception`: a session in a container is closed, and the error passes on
  unfoldable pub fail_task :
      Option (Backend W) → String → SessionError → Call W (SessionResult Fields)
  unfolding close_session session_error
  fail_task none thread e = raise (session_error e)
  fail_task (some backend) thread session_cancelled = raise cancelled
  fail_task (some backend) thread e = close_session thread >> raise failed

  -- `self._registry.add(event.thread_id)` after a launch in the host
  unfoldable pub register_host :
      Option (Backend W) → Intent → String → CockpitState W → CockpitState W
  register_host none launch thread s = record s {
    sessions = Sessions.add s.sessions thread none none [];
  }
  register_host _ _ thread s = s

  unfoldable pub settle_task :
      Runner W
      → Event
      → Intent
      → Result SessionError (SessionResult Fields) × CockpitState W
      → Result Error (SessionResult Fields) × CockpitState W
  unfolding fail_task register_host
  settle_task r event intent (raised e, s) = fail_task r.container event.thread_id e s
  settle_task r event intent (ok result, s) =
      (ok result, register_host r.container intent event.thread_id s)

  unfoldable pub keep_outcome : Runner W → Event → String → Call W (Unit {0})
  unfolding at_world write_outcome logged
  keep_outcome r event text s = elim r.memory [
    | none ↦ (ok tt, s)
    | some memory ↦
        let (w, s') = at_world (write_outcome memory event.thread_id event.text text) s in
        (logged w, s')
  ]

  unfoldable pub run_task :
      Runner W
      → Event
      → Intent
      → Brain Fields (CockpitState W)
      → String
      → Call W (SessionResult Fields)
  unfolding run_session settle_task
  run_task r event intent brain prompt s =
      settle_task r event intent (run_session r brain event intent prompt s)

  unfoldable pub handle_task : Runner W → Event → Intent → Call W (Unit {0})
  unfolding select_brain effective_prompt run_task keep_outcome send
  handle_task r event intent = do
    brain ← select_brain r event.thread_id
    prompt ← effective_prompt r event
    result ← run_task r event intent brain prompt
    keep_outcome r event result.text
    send r.cockpit event.thread_id result.text

  unfoldable pub handle_intent : Runner W → Event → Intent → Call W (Unit {0})
  unfolding handle_status handle_kill resolve_pending handle_task
  handle_intent r event status = handle_status r.cockpit event
  handle_intent r event kill = handle_kill r.cockpit event
  handle_intent r event approve = resolve_pending r.cockpit event true
  handle_intent r event deny = resolve_pending r.cockpit event false
  handle_intent r event launch = handle_task r event launch
  handle_intent r event continues = handle_task r event continues

  unfoldable pub handle_event : Runner W → Event → Call W (Unit {0})
  unfolding classify sessions handle_intent
  handle_event r event s = handle_intent r event (classify event (sessions s.sessions)) s

  -- `except Exception`, with the reply whose failure is suppressed
  unfoldable pub after_event :
      Runner W
      → Event
      → Result Error (Unit {0}) × CockpitState W
      → Result Error (Unit {0}) × CockpitState W
  unfolding log_failure send
  after_event r event (ok _, s) = (ok tt, s)
  after_event r event (raised cancelled, s) = (raised cancelled, s)
  after_event r event (raised _, s) =
      let (sent, s') = send r.cockpit event.thread_id "internal error — see logs" s in
      (log_failure sent, s')

  unfoldable pub serve_event : Runner W → Event → Call W (Unit {0})
  unfolding handle_event after_event
  serve_event r event s = after_event r event (handle_event r event s)

  unfoldable pub serve_events : Runner W → List Event → Call W (Unit {0})
  unfolding serve_event
  serve_events r [] = pure tt
  serve_events r (event ∷ events) = serve_event r event >> serve_events r events

  -- A failed enumeration leaves the table as it is.
  unfoldable pub reconciled :
      Result Error (List String) × CockpitState W → Result Error (Unit {0}) × CockpitState W
  unfolding reconcile
  reconciled (ok live, s) = (ok tt, record s { sessions = reconcile s.sessions live })
  reconciled (raised cancelled, s) = (raised cancelled, s)
  reconciled (raised _, s) = (ok tt, s)

  unfoldable pub reconcile_on_start : Runner W → Call W (Unit {0})
  unfolding at_world reconciled
  reconcile_on_start r s = elim r.container [
    | none ↦ (ok tt, s)
    | some backend ↦ reconciled (at_world backend.live_container_ids s)
  ]

  unfoldable pub serve : Runner W → List Event → Call W (Unit {0})
  unfolding reconcile_on_start serve_events
  serve r events = reconcile_on_start r >> serve_events r events
