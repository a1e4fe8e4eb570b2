-- ===== src/Cockpit/Serve/Tasks.antt =====
-- The whole of `_handle_task` in a container, with what comes before and after the run.
use kagura_agent.Prelude.{
  String, ◌≡◌, refl, sym, ◌∙◌, subst, false, some, Option-cases, Result, Result-cases, ok, raised,
  ◌⊎◌, inl, inr, ◌>>=◌, ◌>>◌, pure,
}
use kagura_agent.Prelude.Text.{member}
use kagura_agent.Prelude.Json.{Fields}
use kagura_agent.Core.Session.{SessionResult, Brain}
use kagura_agent.Membrane.Launcher.{LaunchSpec, validate_spec}
use kagura_agent.Cockpit.Sessions.{SessionRegistry, sessions}
use kagura_agent.Cockpit.Sessions.History.{IsDistinct}
use kagura_agent.Cockpit.Operator.{Event, Intent}
use kagura_agent.Cockpit.Core.{Error, failed, cancelled, CockpitState, Call, send}
use kagura_agent.Cockpit.Serve.{
  Backend, Runner, at_world, provider_of, brain_of, container_brain, select_brain,
}
use kagura_agent.Cockpit.Serve.Loop.{effective_prompt, keep_outcome, run_task, handle_task}
use kagura_agent.Cockpit.Serve.Armed.{IsArmed}
use kagura_agent.Cockpit.Serve.Runs.{run_task-Closed, select_brain-container}

module _ {W : Type 0} where
  -- What a task does before its run: the brain and the prompt.
  unfoldable pub prepare_run : Runner W → Event → Call W (Brain Fields (CockpitState W) × String)
  unfolding select_brain effective_prompt
  prepare_run r event = do
    brain ← select_brain r event.thread_id
    prompt ← effective_prompt r event
    pure (brain, prompt)

  effective_prompt-sessions :
      (r : Runner W) (event : Event) (s : CockpitState W)
      → (effective_prompt r event s).1.sessions ≡ s.sessions
  unfolding effective_prompt at_world
  effective_prompt-sessions r event s = elim (Option-cases r.memory) [
    | inl e ↦ rw (e, effective_prompt) refl
    | inr (_, e) ↦ rw (e, effective_prompt) refl
  ]

  keep_outcome-sessions :
      (r : Runner W) (event : Event) (text : String) (s : CockpitState W)
      → (keep_outcome r event text s).1.sessions ≡ s.sessions
  unfolding keep_outcome at_world
  keep_outcome-sessions r event text s = elim (Option-cases r.memory) [
    | inl e ↦ rw (e, keep_outcome) refl
    | inr (_, e) ↦ rw (e, keep_outcome) refl
  ]

  -- What a task does after a run that gave a result.
  abbrev pub reply : Runner W → Event → String → Call W (Unit {0})
  reply r event text = keep_outcome r event text >> send r.cockpit event.thread_id text

  reply-sessions :
      (r : Runner W) (event : Event) (text : String) (s : CockpitState W)
      → (reply r event text s).1.sessions ≡ s.sessions
  unfolding send
  reply-sessions r event text s = elim (Result-cases (keep_outcome r event text s).0) [
    | inl (_, e) ↦ rw e (keep_outcome-sessions r event text s)
    | inr (_, e) ↦ rw e (keep_outcome-sessions r event text s)
  ]

  -- The brain of a thread's container is made of a spec that the membrane accepted.
  abbrev pub IsSelected : Backend W → String → CockpitState W → LaunchSpec → Type 0
  IsSelected backend thread s valid =
      (spec : LaunchSpec) × ((backend.spec_for thread s.world).0 ≡ ok spec)
      × (validate_spec (backend.file_system (backend.spec_for thread s.world).1)
            backend.project_root spec
          ≡ ok valid)

  container_brain_cases :
      (r : Runner W) (backend : Backend W) (thread : String) (s : CockpitState W)
      → ((container_brain r backend thread s).1.sessions ≡ s.sessions)
        × (((e : Error) × ((container_brain r backend thread s).0 ≡ raised e))
            ⊎ ((valid : LaunchSpec) × IsSelected backend thread s valid
                × ((container_brain r backend thread s).0
                    ≡ ok (brain_of r.codec (provider_of backend thread valid)))))
  unfolding container_brain at_world
  container_brain_cases r backend thread s =
      elim (Result-cases (backend.spec_for thread s.world).0) [
        | inr (e, asked) ↦ rw (asked, container_brain) (refl, inl (e, refl))
        | inl (spec, asked) ↦
            elim (Result-cases (
              validate_spec (backend.file_system (backend.spec_for thread s.world).1)
                backend.project_root spec)) [
                  | inr (_, v) ↦ rw (asked, v, container_brain) (refl, inl (failed, refl))
                  | inl (valid, v) ↦
                      rw (asked, v, container_brain) (refl, inr (valid, (spec, refl, v), refl))
                ]
      ]

  abbrev finish_task :
      Runner W → Event → Intent → Brain Fields (CockpitState W) × String → Call W (Unit {0})
  finish_task r event intent (brain, prompt) =
      run_task r event intent brain prompt >>= λ result. reply r event result.text

  -- A task is its preparation, its run and its reply.
  handle_task-prepare_run :
      (r : Runner W) (event : Event) (intent : Intent) (s : CockpitState W)
      → handle_task r event intent s ≡ (prepare_run r event >>= finish_task r event intent) s
  unfolding handle_task prepare_run
  handle_task-prepare_run r event intent s =
      elim (Result-cases (select_brain r event.thread_id s).0) [
        | inr (_, e) ↦ rw (e, handle_task, prepare_run) refl
        | inl (brain, e) ↦
            elim (Result-cases (effective_prompt r event (select_brain r event.thread_id s).1).0) [
              | inr (_, d) ↦ rw (e, d, handle_task, prepare_run) refl
              | inl (prompt, d) ↦ rw (e, d, handle_task, prepare_run) refl
            ]
      ]

  -- What a preparation leaves: the table, and a brain in a container whose spec was accepted.
  abbrev IsPrepared :
      Runner W
      → Backend W
      → Event
      → CockpitState W
      → Result Error (Brain Fields (CockpitState W) × String) × CockpitState W
      → Type 0
  IsPrepared r backend event s prepared =
      (prepared.1.sessions ≡ s.sessions)
      × (((e : Error) × (prepared.0 ≡ raised e))
          ⊎ ((valid : LaunchSpec) × (prompt : String) × IsSelected backend event.thread_id s valid
              × (prepared.0
                  ≡ ok (brain_of r.codec (provider_of backend event.thread_id valid), prompt))))

  prepare_run-IsPrepared :
      (r : Runner W) (backend : Backend W) (event : Event) (s : CockpitState W)
      → r.container ≡ some backend
      → IsPrepared r backend event s (prepare_run r event s)
  unfolding prepare_run
  prepare_run-IsPrepared r backend event s c =
      let same = select_brain-container r backend event.thread_id s c in
      let (kept, ends) = container_brain_cases r backend event.thread_id s in
      let kept' =
        effective_prompt-sessions r event (container_brain r backend event.thread_id s).1 in
      elim ends [
        | inl (e, d) ↦ rw (same, d, prepare_run) (kept, inl (e, refl))
        | inr (valid, selected, d) ↦
            elim (Result-cases
              (effective_prompt r event (container_brain r backend event.thread_id s).1).0) [
                | inr (e, f) ↦ rw (same, d, f, prepare_run) (kept' ∙ kept, inl (e, refl))
                | inl (prompt, f) ↦
                    rw (same, d, f, prepare_run) (kept' ∙ kept, inr (valid, prompt, selected, refl))
              ]
      ]

  -- The three ends of a task that was prepared, of which `ran` is the run and `done` the whole.
  abbrev pub IsClosed :
      Runner W
      → Backend W
      → Event
      → LaunchSpec
      → SessionRegistry
      → Result Error (SessionResult Fields) × CockpitState W
      → Result Error (Unit {0}) × CockpitState W
      → Type 0
  IsClosed r backend event valid d ran done =
      ((ran.0 ≡ raised cancelled) × (done ≡ (raised cancelled, ran.1)))
      ⊎ ((ran.0 ≡ raised failed)
          × (done ≡ (raised failed, ran.1))
          × (member event.thread_id (sessions done.1.sessions) ≡ false))
      ⊎ ((answer : SessionResult Fields) × (ran.0 ≡ ok answer)
          × (done ≡ reply r event answer.text ran.1)
          × IsArmed event.thread_id (backend.text_of valid.image) d done.1.sessions)

  finish_task-IsClosed :
      (r : Runner W) (backend : Backend W) (event : Event) (intent : Intent) (valid : LaunchSpec)
      (prompt : String) (d : SessionRegistry) (s : CockpitState W)
      → r.container ≡ some backend
      → s.sessions ≡ d
      → IsDistinct d
      → let brain = brain_of r.codec (provider_of backend event.thread_id valid) in
        IsClosed r backend event valid d
          (run_task r event intent brain prompt s)
          (finish_task r event intent (brain, prompt) s)
  finish_task-IsClosed r backend event intent valid prompt d s c kept h =
      elim (run_task-Closed r backend event intent valid prompt s c
        (subst IsDistinct (sym kept) h)) [
          | inl e ↦ inl (e, rw e refl)
          | inr (inl (e, closed)) ↦ inr (inl (e, rw e refl, rw e closed))
          | inr (inr (answer, e, armed)) ↦
              inr (
                inr
                  (answer, e, rw e refl, rw (e, reply-sessions r event answer.text, ← kept) armed))
        ]

  -- A task in a container, with distinct threads in the table. Either it raises before its run (the
  -- spec, its check or the prompt), and then no session has changed; or the spec was accepted, and its
  -- run ends in one of three ways, and the task with it: the run was cancelled, and the task is; or
  -- the run failed, and so does the task, with the thread not among the sessions that can be resumed;
  -- or the run gave a result, the task goes on with the write of the outcome and the reply, and
  -- whatever these do the table ends as it was before the task but for the container and the image
  -- that the start recorded.
  pub handle_task-Closed :
      (r : Runner W) (backend : Backend W) (event : Event) (intent : Intent) (s : CockpitState W)
      → r.container ≡ some backend
      → IsDistinct s.sessions
      → (let prepared = prepare_run r event s in
          let done = handle_task r event intent s in
          ((e : Error) × (prepared.0 ≡ raised e)
            × (done ≡ (raised e, prepared.1))
            × (done.1.sessions ≡ s.sessions))
          ⊎ ((valid : LaunchSpec) × (prompt : String) × IsSelected backend event.thread_id s valid
              × (let brain = brain_of r.codec (provider_of backend event.thread_id valid) in
                  (prepared.0 ≡ ok (brain, prompt))
                  × IsClosed r backend event valid s.sessions
                      (run_task r event intent brain prompt prepared.1)
                      done)))
  handle_task-Closed r backend event intent s c h =
      let (kept, ends) = prepare_run-IsPrepared r backend event s c in
      elim ends [
        | inl (e, d) ↦ inl (
          e,
          d,
          rw (handle_task-prepare_run r event intent s, d) refl,
          rw (handle_task-prepare_run r event intent s, d) kept,
        )
        | inr (valid, prompt, selected, d) ↦ inr (
          valid,
          prompt,
          selected,
          (
            d,
            rw (handle_task-prepare_run r event intent s, d)
                (finish_task-IsClosed r backend event intent valid prompt s.sessions
                  (prepare_run r event s).1 c kept h),
          ),
        )
      ]
