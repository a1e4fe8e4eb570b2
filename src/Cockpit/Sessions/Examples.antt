-- ===== src/Cockpit/Sessions/Examples.antt =====
-- Sessions at concrete events.
use kagura_agent.Prelude.Text.{member}
use kagura_agent.Prelude.{◌≡◌, refl, none, [], ◌∷◌}
use kagura_agent.Prelude.Dict
use kagura_agent.Cockpit.Sessions.{add, reconcile, set_container, sessions}
use kagura_agent.Cockpit.Sessions.History.{
  is_resumable, view, member-sessions_replay, adds, sets, reconciles, replay,
}

after_restart :
    sessions (
      replay (
        reconciles ("c2" ∷ [])
        ∷ sets "T3" "c3" none
        ∷ sets "T2" "c2" none
        ∷ adds "T1" none none []
        ∷ []))
    ≡ "T1" ∷ "T2" ∷ []
unfolding sessions replay Dict.put Dict.get reconcile set_container add
after_restart = refl

member-sessions_replay_example :
    member "T1" (sessions (replay (reconciles [] ∷ sets "T1" "c1" none ∷ [])))
    ≡ is_resumable (view "T1" (reconciles [] ∷ sets "T1" "c1" none ∷ []))
member-sessions_replay_example =
    member-sessions_replay "T1" (reconciles [] ∷ sets "T1" "c1" none ∷ [])
