-- ===== src/Core/Session/Examples.antt =====
-- A brain that narrates once, ends, and talks on; its state is its turn.
use kagura_agent.Prelude.Json.{Value, int, pos}
use kagura_agent.Prelude.{ℕ, String, ◌≡◌, refl, Option, none, some, List, [], ◌∷◌, ◌⊎◌, ok, raised}
use kagura_agent.Core.Session.{
  Task, BrainEvent, message, done, SessionError, ended_without_done, Brain, CheckpointStore,
  checkpoint_of, drive,
}
use kagura_agent.Core.Session.Drive.{narration, first_done, drive_lem}

abbrev events : List (BrainEvent ℕ)
events = message "working" ∷ done "result" 1 ∷ message "late" ∷ done "forged" 9 ∷ []

-- The world is the list of the saved turns.
abbrev brain : Brain ℕ (List Value)
brain = record { run = λ task prior w. ((events, none), w); turn_of = λ n. int (pos n) }

abbrev store : CheckpointStore ℕ (List Value)
store = record { load = λ session w. (ok none, w); save = λ c w. (ok tt, c.turn ∷ w) }

abbrev task : Task
task = record { prompt = "p"; session_id = "S1" }

saved_once : (drive brain store task none []).1 ≡ int (pos 1) ∷ []
unfolding drive
saved_once = refl

drive_lem_example :
    ((e : SessionError) × (◌≡◌ {A = Option SessionError} none (some e))
      × (drive brain store task none [] ≡ (raised e, [])))
    ⊎ ((◌≡◌ {A = Option SessionError} none none)
        × (first_done events ≡ none)
        × (drive brain store task none [] ≡ (raised ended_without_done, [])))
    ⊎ ((d : String × ℕ) × (◌≡◌ {A = Option SessionError} none none)
        × (first_done events ≡ some d)
        × (drive brain store task none [] ≡ (
          ok (record {
            session_id = "S1";
            text = d.0;
            checkpoint = checkpoint_of brain store task d.1;
            messages = narration events;
          }),
          (checkpoint_of brain store task d.1).turn ∷ [],
        )))
drive_lem_example = drive_lem brain store task none []
