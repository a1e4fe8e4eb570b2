-- ===== src/Cockpit/Serve/Runs.antt =====
-- What a task leaves of the session table.
use kagura_agent.Prelude.{
  String, ◌≡◌, refl, sym, ◌∙◌, subst, false, some, Result, ok, raised, ◌⊎◌, inl, inr,
}
use kagura_agent.Prelude.Text.{member}
use kagura_agent.Prelude.Json.{Fields}
use kagura_agent.Core.Session
use kagura_agent.Core.Session.{
  Task, Checkpoint, BrainEvent, SessionError, session_cancelled, SessionResult, Brain,
  CheckpointStore, finish, drive, collect, resume, checkpoint_of,
}
use kagura_agent.Membrane.Launcher.{LaunchSpec, MembraneViolation, validate_spec}
use kagura_agent.Cockpit.Sessions.{sessions}
use kagura_agent.Cockpit.Sessions.History.{IsDistinct}
use kagura_agent.Cockpit.Core.Kill.{member-close}
use kagura_agent.Cockpit.Operator.{Event, Intent}
use kagura_agent.Cockpit.Core.{failed, cancelled, CockpitState, close_session}
use kagura_agent.Cockpit.Serve.{
  Backend, Runner, at_world, provider_of, brain_of, container_brain, select_brain,
}
use kagura_agent.Cockpit.Serve.Loop.{fail_task, register_host, settle_task, run_task, handle_task}
use kagura_agent.Cockpit.Serve.Armed.{IsArmed, IsArmed-IsDistinct, run_session-IsArmed}

module _ {W : Type 0} where
  fail_task-Closed :
      (backend : Backend W) (thread : String) (e : SessionError) (s : CockpitState W)
      → IsDistinct s.sessions
      → ((fail_task (some backend) thread e s).0 ≡ raised cancelled)
        ⊎ (((fail_task (some backend) thread e s).0 ≡ raised failed)
            × (member thread (sessions (fail_task (some backend) thread e s).1.sessions) ≡ false))
  unfolding fail_task close_session
  fail_task-Closed backend thread session_cancelled s h = inl refl
  fail_task-Closed backend thread Session.no_checkpoint s h =
      inr (refl, member-close s.sessions thread h)
  fail_task-Closed backend thread Session.ended_without_done s h =
      inr (refl, member-close s.sessions thread h)
  fail_task-Closed backend thread Session.brain_failed s h =
      inr (refl, member-close s.sessions thread h)
  fail_task-Closed backend thread Session.store_failed s h =
      inr (refl, member-close s.sessions thread h)

  settle_task-Closed :
      (r : Runner W) (backend : Backend W) (event : Event) (intent : Intent)
      (p : Result SessionError (SessionResult Fields) × CockpitState W)
      → r.container ≡ some backend
      → IsDistinct p.1.sessions
      → ((settle_task r event intent p).0 ≡ raised cancelled)
        ⊎ (((settle_task r event intent p).0 ≡ raised failed)
            × (member event.thread_id (sessions (settle_task r event intent p).1.sessions) ≡ false))
        ⊎ ((result : SessionResult Fields) × ((settle_task r event intent p).0 ≡ ok result)
            × ((settle_task r event intent p).1 ≡ p.1))
  unfolding settle_task register_host
  settle_task-Closed r backend event intent (raised e, s) c h =
      elim (fail_task-Closed backend event.thread_id e s h) [
        | inl k ↦ inl (rw (c) k)
        | inr k ↦ inr (inl (rw (c) k))
      ]
  settle_task-Closed r backend event intent (ok result, s) c h =
      inr (inr (result, refl, rw (c) refl))

  -- The run of a task in a container (the body of the `try`, not what comes before and after it) ends
  -- in one of three ways, with distinct threads in the table: it was cancelled; or it failed, and the
  -- thread is not among the sessions that can be resumed; or it gave a result, and the table is as it
  -- was but for the container and the image that the start recorded for the thread.
  pub run_task-Closed :
      (r : Runner W) (backend : Backend W) (event : Event) (intent : Intent) (spec : LaunchSpec)
      (prompt : String) (s : CockpitState W)
      → r.container ≡ some backend
      → IsDistinct s.sessions
      → (let (result, s') =
            run_task r event intent
              (brain_of r.codec (provider_of backend event.thread_id spec))
              prompt
              s in
          (result ≡ raised cancelled)
          ⊎ ((result ≡ raised failed) × (member event.thread_id (sessions s'.sessions) ≡ false))
          ⊎ ((answer : SessionResult Fields) × (result ≡ ok answer)
              × IsArmed event.thread_id (backend.text_of spec.image) s.sessions s'.sessions))
  unfolding run_task
  run_task-Closed r backend event intent spec prompt s c h =
      let armed =
        run_session-IsArmed r.codec backend event.thread_id spec r event intent prompt s in
      elim (settle_task-Closed r backend event intent _ c
        (IsArmed-IsDistinct event.thread_id (backend.text_of spec.image) s.sessions _ armed h)) [
          | inl k ↦ inl k
          | inr (inl k) ↦ inr (inl k)
          | inr (inr (answer, k, same)) ↦ inr (
              inr (
                answer,
                k,
                subst
                    (λ t.
                      IsArmed event.thread_id (backend.text_of spec.image) s.sessions t.sessions)
                    (sym same) armed,
              ))
        ]

  pub select_brain-container :
      (r : Runner W) (backend : Backend W) (thread : String) (s : CockpitState W)
      → r.container ≡ some backend
      → select_brain r thread s ≡ container_brain r backend thread s
  unfolding select_brain
  select_brain-container r backend thread s c = rw (c, select_brain) refl

  container_brain-refused :
      (r : Runner W) (backend : Backend W) (thread : String) (s : CockpitState W)
      (spec : LaunchSpec) (v : MembraneViolation)
      → (backend.spec_for thread s.world).0 ≡ ok spec
      → validate_spec
          (backend.file_system (backend.spec_for thread s.world).1)
          backend.project_root
          spec
        ≡ raised v
      → container_brain r backend thread s
        ≡ (raised failed, record s { world = (backend.spec_for thread s.world).1 })
  unfolding container_brain at_world
  container_brain-refused r backend thread s spec v asked refused =
      rw (asked, refused, container_brain) refl

  -- Where the membrane refuses the spec of a session's container, the task raises, and all that was done
  -- is asking for the spec: no container starts, no session changes, no memory is read.
  handle_task-refused :
      (r : Runner W) (backend : Backend W) (event : Event) (intent : Intent) (s : CockpitState W)
      (spec : LaunchSpec) (v : MembraneViolation)
      → r.container ≡ some backend
      → (backend.spec_for event.thread_id s.world).0 ≡ ok spec
      → validate_spec
          (backend.file_system (backend.spec_for event.thread_id s.world).1)
          backend.project_root
          spec
        ≡ raised v
      → handle_task r event intent s
        ≡ (raised failed, record s { world = (backend.spec_for event.thread_id s.world).1 })
  unfolding handle_task
  handle_task-refused r backend event intent s spec v c asked refused =
      rw
        (
          select_brain-container r backend event.thread_id s c
              ∙ container_brain-refused r backend event.thread_id s spec v asked refused,
          handle_task,
        )
        refl
