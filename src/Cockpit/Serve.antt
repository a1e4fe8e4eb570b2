-- ===== src/Cockpit/Serve.antt =====
-- cockpit/core.py: what `Cockpit` is built of, beside Cockpit/Core.antt, and the brain that it selects for a
-- thread, `_container_brain` included. The brain of the host, the store of the checkpoints, the memory and
-- the backend of the containers are functions on a world.
pub mod Loop
pub mod Armed
pub mod Runs
pub mod Tasks
pub mod Stays
mod Examples
use kagura_agent.Prelude.{
  ℕ, String, Bool, true, false, Option, none, some, List, [], ◌∷◌, Result, ok, raised, Action,
  ◌>>=◌, ◌>>◌, pure, raise,
}
use kagura_agent.Prelude.Json
use kagura_agent.Prelude.Json.{Value, Fields, int, pos, Codec}
use kagura_agent.Core.Session
use kagura_agent.Core.Session.{
  Checkpoint, BrainEvent, SessionError, session_cancelled, SessionResult, Brain, CheckpointStore,
  resume,
}
use kagura_agent.Core.Container.{ContainerSession, ContainerBrainProvider, run_in_container}
use kagura_agent.Membrane.Launcher.{LaunchSpec, FileSystem, validate_spec}
use kagura_agent.Mcp.RestBootstrap
use kagura_agent.Mcp.RestBootstrap.{BootstrapError, AgentBootstrap}
use kagura_agent.Mcp.Local.{Memory}
use kagura_agent.Patterns.Prompt.{MemoryClient, Tools, prepare_prompt, write_outcome}
use kagura_agent.Cockpit.Sessions
use kagura_agent.Cockpit.Sessions.{sessions, set_container, reconcile}
use kagura_agent.Cockpit.Operator.{
  Event, Intent, launch, continues, status, approve, deny, kill, classify,
}
use kagura_agent.Cockpit.Core.{
  Error, failed, cancelled, Outcome, Cockpit, CockpitState, Call, send, log_failure, close_session,
  handle_status, handle_kill, resolve_pending,
}

-- `text_of` is the text of some code points.
pub record Backend (W : Type 0) : Type 0 where
  pub file_system : W → FileSystem
  pub project_root : List ℕ
  pub text_of : List ℕ → String
  pub spec_for : String → W → Result Error LaunchSpec × W
  pub start : LaunchSpec → List ℕ → W → Result SessionError (ContainerSession W) × W
  pub live_container_ids : W → Result Error (List String) × W

pub record Runner (W : Type 0) : Type 0 where
  pub cockpit : Cockpit W
  pub codec : Codec
  pub tools : Tools
  pub brain : Brain Fields W
  pub checkpoints : CheckpointStore Fields W
  pub memory : Option (MemoryClient W)
  pub container : Option (Backend W)

-- done.state.get("turn", 0)
unfoldable pub turn_of_state : Fields → Value
turn_of_state state = elim (Json.get state "turn") [ none ↦ int (pos 0) | some v ↦ v ]

module _ {W : Type 0} where
  -- A call outside, from the state of the cockpit.
  unfoldable pub at_world : {A : Type 0} → (W → A × W) → CockpitState W → A × CockpitState W
  at_world f s = let (a, w) = f s.world in (a, record s { world = w })

  -- `on_start` of `_container_brain`
  unfoldable pub record_start :
      String → String → String → CockpitState W → Option SessionError × CockpitState W
  unfolding set_container
  record_start thread image cid s =
      (none, record s { sessions = set_container s.sessions thread cid (some image) })

  unfoldable pub seen_session : ContainerSession W → ContainerSession (CockpitState W)
  unfolding at_world
  seen_session session = record {
    container_id = session.container_id;
    events = λ s. session.events s.world;
    aclose = at_world session.aclose;
  }

  unfoldable pub started :
      Result SessionError (ContainerSession W)
      → Result SessionError (ContainerSession (CockpitState W))
  unfolding seen_session
  started (ok session) = ok (seen_session session)
  started (raised e) = raised e

  -- the provider that `_container_brain` makes of a valid spec
  unfoldable pub provider_of :
      Backend W → String → LaunchSpec → ContainerBrainProvider (CockpitState W)
  unfolding at_world started record_start
  provider_of backend thread spec = record {
    start = λ input s. let (r, s') = at_world (backend.start spec input) s in (started r, s');
    on_start = some (record_start thread (backend.text_of spec.image));
  }

  unfoldable pub brain_of :
      Codec → ContainerBrainProvider (CockpitState W) → Brain Fields (CockpitState W)
  unfolding run_in_container turn_of_state
  brain_of codec provider = record {
    run = λ task prior s. run_in_container codec provider task prior s;
    turn_of = turn_of_state;
  }

  -- `_container_brain`: a violation raises before a container is started
  unfoldable pub container_brain :
      Runner W → Backend W → String → Call W (Brain Fields (CockpitState W))
  unfolding at_world validate_spec provider_of brain_of
  container_brain r backend thread s =
      let (asked, s') = at_world (backend.spec_for thread) s in
      elim asked [
        | raised e ↦ (raised e, s')
        | ok spec ↦ elim (validate_spec (backend.file_system s'.world) backend.project_root spec) [
          | raised _ ↦ (raised failed, s')
          | ok valid ↦ (ok (brain_of r.codec (provider_of backend thread valid)), s')
        ]
      ]

  unfoldable pub host_brain : Brain Fields W → Brain Fields (CockpitState W)
  unfolding at_world
  host_brain brain = record {
    run = λ task prior. at_world (brain.run task prior);
    turn_of = brain.turn_of;
  }

  unfoldable pub select_brain : Runner W → String → Call W (Brain Fields (CockpitState W))
  unfolding container_brain host_brain
  select_brain r thread = elim r.container [
    | none ↦ pure (host_brain r.brain)
    | some backend ↦ container_brain r backend thread
  ]

  unfoldable pub seen_store : CheckpointStore Fields W → CheckpointStore Fields (CockpitState W)
  unfolding at_world
  seen_store store = record {
    load = λ session. at_world (store.load session);
    save = λ checkpoint. at_world (store.save checkpoint);
  }
