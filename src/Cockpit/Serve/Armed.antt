-- ===== src/Cockpit/Serve/Armed.antt =====
-- A run in a container changes the session table only by the record of its start.
use kagura_agent.Prelude.{
  String, List, ◌≡◌, refl, sym, subst, Option, none, some, Option-cases, Result-cases, ◌⊎◌, inl,
  inr,
}
use kagura_agent.Prelude.Json.{Fields, Codec}
use kagura_agent.Core.Session
use kagura_agent.Core.Session.{
  Task, Checkpoint, BrainEvent, SessionError, session_cancelled, SessionResult, Brain,
  CheckpointStore, finish, drive, collect, resume, checkpoint_of,
}
use kagura_agent.Core.Container.{
  encode_run_input, announce, close_after, run_started, run_in_container,
}
use kagura_agent.Membrane.Launcher.{LaunchSpec}
use kagura_agent.Cockpit.Sessions.{SessionRegistry, set_container}
use kagura_agent.Cockpit.Sessions.History.{IsDistinct, put-IsDistinct}
use kagura_agent.Cockpit.Operator.{Event, Intent, launch, continues, status, approve, deny, kill}
use kagura_agent.Cockpit.Core.{CockpitState}
use kagura_agent.Cockpit.Serve.{
  Backend, Runner, at_world, record_start, seen_session, started, provider_of, brain_of, seen_store,
}
use kagura_agent.Cockpit.Serve.Loop.{run_session}

-- The table as it was, or with a container of that image recorded for the thread.
abbrev pub IsArmed : String → String → SessionRegistry → SessionRegistry → Type 0
IsArmed thread image d d' =
    (d' ≡ d) ⊎ ((cid : String) × (d' ≡ set_container d thread cid (some image)))

pub IsArmed-IsDistinct :
    (thread image : String) (d d' : SessionRegistry)
    → IsArmed thread image d d'
    → IsDistinct d
    → IsDistinct d'
unfolding set_container
IsArmed-IsDistinct thread image d d' (inl e) h = subst IsDistinct (sym e) h
IsArmed-IsDistinct thread image d d' (inr (cid, e)) h =
    subst IsDistinct (sym e) (put-IsDistinct d thread _ h)

module _ {W : Type 0} where
  module _ (brain : Brain Fields (CockpitState W)) (store : CheckpointStore Fields W) where
    finish-sessions :
        (task : Task) (m : List String × Option (String × Fields)) (s : CockpitState W)
        → (finish brain (seen_store store) task m s).1.sessions ≡ s.sessions
    unfolding finish seen_store at_world
    finish-sessions task (messages, none) s = refl
    finish-sessions task (messages, some (result, state)) s =
        elim (Result-cases
          (store.save (checkpoint_of brain (seen_store store) task state) s.world).0) [
            | inl (_, e) ↦ rw (e, finish) refl
            | inr (_, e) ↦ rw (e, finish) refl
          ]

    drive-sessions :
        (task : Task) (prior : Option (Checkpoint Fields)) (s : CockpitState W)
        → (drive brain (seen_store store) task prior s).1.sessions
          ≡ (brain.run task prior s).1.sessions
    unfolding drive
    drive-sessions task prior s = elim (Option-cases (brain.run task prior s).0.1) [
      | inl e ↦ rw (e, drive) (finish-sessions task _ _)
      | inr (_, e) ↦ rw (e, drive) refl
    ]

  module _ (codec : Codec) (backend : Backend W) (thread : String) (spec : LaunchSpec) where
    brain_of-IsArmed :
        (task : Task) (prior : Option (Checkpoint Fields)) (s : CockpitState W)
        → IsArmed thread
            (backend.text_of spec.image)
            s.sessions
            ((brain_of codec (provider_of backend thread spec)).run task prior s).1.sessions
    unfolding brain_of run_in_container run_started provider_of at_world started seen_session
        announce close_after record_start
    brain_of-IsArmed task prior s =
        elim (Result-cases (backend.start spec (encode_run_input codec task prior) s.world).0) [
          | inl (session, e) ↦ inr (session.container_id, rw (e) refl)
          | inr (_, e) ↦ inl (rw (e) refl)
        ]

    drive-IsArmed :
        (store : CheckpointStore Fields W) (task : Task) (prior : Option (Checkpoint Fields))
        (s : CockpitState W)
        → IsArmed thread
            (backend.text_of spec.image)
            s.sessions
            (drive
              (brain_of codec (provider_of backend thread spec))
              (seen_store store)
              task
              prior
              s).1.sessions
    drive-IsArmed store task prior s =
        subst (IsArmed thread (backend.text_of spec.image) s.sessions)
          (sym
            (drive-sessions (brain_of codec (provider_of backend thread spec)) store task prior s))
          (brain_of-IsArmed task prior s)

    resume-IsArmed :
        (store : CheckpointStore Fields W) (session prompt : String) (s : CockpitState W)
        → IsArmed thread
            (backend.text_of spec.image)
            s.sessions
            (resume
              (brain_of codec (provider_of backend thread spec))
              (seen_store store)
              session
              prompt
              s).1.sessions
    unfolding resume seen_store at_world
    resume-IsArmed store session prompt s = elim (Result-cases (store.load session s.world).0) [
      | inr (_, e) ↦ inl (rw (e, resume) refl)
      | inl (o, e) ↦ elim (Option-cases o) [
        | inl n ↦ inl (rw (e, n, resume) refl)
        | inr (prior, n) ↦ rw (e, n, resume) (drive-IsArmed store _ (some prior) _)
      ]
    ]

    pub run_session-IsArmed :
        (r : Runner W) (event : Event) (intent : Intent) (prompt : String) (s : CockpitState W)
        → IsArmed thread
            (backend.text_of spec.image)
            s.sessions
            (run_session r
              (brain_of codec (provider_of backend thread spec))
              event
              intent
              prompt
              s).1.sessions
    unfolding run_session Session.run
    run_session-IsArmed r event continues prompt s =
        resume-IsArmed r.checkpoints event.thread_id prompt s
    run_session-IsArmed r event launch prompt s = drive-IsArmed r.checkpoints _ none s
    run_session-IsArmed r event status prompt s = drive-IsArmed r.checkpoints _ none s
    run_session-IsArmed r event approve prompt s = drive-IsArmed r.checkpoints _ none s
    run_session-IsArmed r event deny prompt s = drive-IsArmed r.checkpoints _ none s
    run_session-IsArmed r event kill prompt s = drive-IsArmed r.checkpoints _ none s
