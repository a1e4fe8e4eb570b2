-- ===== src/Cockpit/Core/Kill.antt =====
-- Who may kill a session, and what a kill leaves.
use kagura_agent.Prelude.Text.{member}
use kagura_agent.Prelude.{
  String, ◌≡◌, refl, ◌∙◌, ap, true, false, Option, none, some, Result, ok, raised, Bool-cases, ◌⊎◌,
  inl, inr, eq_refl,
}
use kagura_agent.Prelude.Dict
use kagura_agent.Cockpit.Sessions.{SessionRegistry, sessions, close}
use kagura_agent.Cockpit.Sessions.History.{
  Session, IsDistinct, close-IsDistinct, seen, seen-close, shut, is_resumable, member-sessions,
}
use kagura_agent.Cockpit.Operator.{Event}
use kagura_agent.Cockpit.Core.{
  Error, failed, cancelled, Outcome, Cockpit, CockpitState, outside, send, container_of,
  sender_is_operator, close_session, report_kill, after_kill, kill_session, handle_kill,
}

shut-is_resumable : (o : Option Session) → is_resumable (shut o) ≡ false
unfolding shut is_resumable
shut-is_resumable none = refl
shut-is_resumable (some s) = refl

-- A closed session cannot be resumed.
pub member-close :
    (d : SessionRegistry) (t : String) → IsDistinct d → member t (sessions (close d t)) ≡ false
member-close d t h =
    member-sessions (close d t) t (close-IsDistinct d t h)
    ∙ ap is_resumable (rw (seen-close d t t, eq_refl t) refl)
    ∙ shut-is_resumable (seen (Dict.get d t))

module _ {W : Type 0} (c : Cockpit W) where
  after_kill_lem :
      (thread : String) (r : Result Error (Unit {0})) (s : CockpitState W)
      → ((after_kill c thread r s).0 ≡ raised cancelled)
        ⊎ ((after_kill c thread r s).1.sessions ≡ close s.sessions thread)
  unfolding after_kill report_kill close_session send outside
  after_kill_lem thread (ok _) s = inr refl
  after_kill_lem thread (raised cancelled) s = inl refl
  after_kill_lem thread (raised failed) s = inr refl
  after_kill_lem thread (raised _) s = inr refl

  kill_session_lem :
      (thread : String) (k : Option (String → W → Outcome W)) (container : Option String)
      (s : CockpitState W)
      → ((kill_session c thread k container s).0 ≡ raised cancelled)
        ⊎ ((kill_session c thread k container s).1.sessions ≡ close s.sessions thread)
  unfolding kill_session outside report_kill close_session send
  kill_session_lem thread (some k) (some x) s = after_kill_lem thread _ _
  kill_session_lem thread (some k) none s = inr refl
  kill_session_lem thread none (some x) s = inr refl
  kill_session_lem thread none none s = inr refl

  -- With distinct threads in the table: from a sender who is no operator, `/kill` changes no session
  -- and does nothing outside but reply. From an operator, it raised a cancellation, or the session
  -- cannot be resumed afterwards, also when the container could not be killed.
  pub handle_kill_lem :
      (event : Event) (s : CockpitState W)
      → IsDistinct s.sessions
      → ((sender_is_operator c event ≡ false)
          × ((handle_kill c event s).1.sessions ≡ s.sessions)
          × ((handle_kill c event s).1.world
              ≡ (c.send event.thread_id "kill ignored: only the operator may kill a session"
                  s.world).1))
        ⊎ ((sender_is_operator c event ≡ true)
            × (((handle_kill c event s).0 ≡ raised cancelled)
                ⊎ (member event.thread_id (sessions (handle_kill c event s).1.sessions) ≡ false)))
  unfolding handle_kill send outside
  handle_kill_lem event s h = elim (Bool-cases (sender_is_operator c event)) [
    | inr denied ↦ inl (denied, rw denied refl, rw denied refl)
    | inl yes' ↦ inr (
      yes',
      rw yes'
          (elim (kill_session_lem event.thread_id c.kill
            (container_of (Dict.get s.sessions event.thread_id)) s) [
              | inl stopped ↦ inl stopped
              | inr shuts ↦ inr (rw shuts (member-close s.sessions event.thread_id h))
            ]),
    )
  ]
