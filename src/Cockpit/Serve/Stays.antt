-- ===== src/Cockpit/Serve/Stays.antt =====
-- The loop over the events goes on, whatever an event does.
use kagura_agent.Prelude.{◌≡◌, refl, List, [], ◌∷◌, ◌++◌, Result, ok, raised, ◌⊎◌, inl, inr}
use kagura_agent.Cockpit.Operator.{Event}
use kagura_agent.Cockpit.Core.{
  Error, pending_approval_exists, failed, cancelled, CockpitState, log_failure,
}
use kagura_agent.Cockpit.Serve.{Runner}
use kagura_agent.Cockpit.Serve.Loop.{handle_event, after_event, serve_event, serve_events}

log_failure_cases :
    (r : Result Error (Unit {0})) → (log_failure r ≡ raised cancelled) ⊎ (log_failure r ≡ ok tt)
unfolding log_failure
log_failure_cases (ok _) = inr refl
log_failure_cases (raised cancelled) = inl refl
log_failure_cases (raised failed) = inr refl
log_failure_cases (raised pending_approval_exists) = inr refl

module _ {W : Type 0} (r : Runner W) where
  after_event_cases :
      (event : Event) (p : Result Error (Unit {0}) × CockpitState W)
      → ((after_event r event p).0 ≡ raised cancelled) ⊎ ((after_event r event p).0 ≡ ok tt)
  unfolding after_event
  after_event_cases event (ok _, s) = inr refl
  after_event_cases event (raised cancelled, s) = inl refl
  after_event_cases event (raised failed, s) = log_failure_cases _
  after_event_cases event (raised pending_approval_exists, s) = log_failure_cases _

  -- Whatever the events `before` do, also where handling one of them raises and where the reply to that
  -- raises: either a cancellation ended the loop in them, or all of them were handled, and the loop goes on
  -- with the events after them in the state that they left.
  pub serve_events-append :
      (before after : List Event) (s : CockpitState W)
      → (((serve_events r before s).0 ≡ raised cancelled)
          × (serve_events r (before ++ after) s ≡ serve_events r before s))
        ⊎ (((serve_events r before s).0 ≡ ok tt)
            × (serve_events r (before ++ after) s
                ≡ serve_events r after (serve_events r before s).1))
  unfolding serve_events serve_event
  serve_events-append [] after s = inr (refl, refl)
  serve_events-append (event ∷ before) after s =
      elim (after_event_cases event (handle_event r event s)) [
        | inl c ↦ inl (rw (c) refl, rw (c) refl)
        | inr o ↦ elim (serve_events-append before after (serve_event r event s).1) [
          | inl (c, e) ↦ inl (rw (o) c, rw (o) e)
          | inr (c, e) ↦ inr (rw (o) c, rw (o) e)
        ]
      ]
