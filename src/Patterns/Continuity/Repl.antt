-- ===== src/Patterns/Continuity/Repl.antt =====
-- patterns/continuity.py: `run_repl`, over `ground_and_run`. Each line comes with the draws of its recall; what
-- was emitted is a list.
use Prim.Native.String.{◌++◌ as append}
use kagura_agent.Prelude.{
  String, Bool, true, false, ◌||◌, Option, none, some, List, [], ◌∷◌, ◌++◌, ◌==◌, Result, ok,
  raised,
}
use kagura_agent.Prelude.Text.{strip, is_empty}
use kagura_agent.Core.Session.{SessionResult, session_cancelled, Brain, CheckpointStore}
use kagura_agent.Patterns.Continuity.{GroundedError, session_raised, RunState, ground_and_run}

unfoldable pub is_quit : String → Bool
is_quit text = text == "/exit" || text == "/quit"

-- the line that a turn emits, none where a cancellation ends the loop
unfoldable pub turn_line :
    {S : Type 0} → (GroundedError → String) → Result GroundedError (SessionResult S) → Option String
turn_line text_of (ok result) = some result.text
turn_line text_of (raised (session_raised session_cancelled)) = none
turn_line text_of (raised e) =
    some (append "error: " (append (text_of e) " (session continues — type /exit to quit)"))

module _ {S W : Type 0} (brain : Brain S W) (store : CheckpointStore S W) where
  -- The lines emitted, whether the loop ran to its end, and the state.
  unfoldable pub run_repl :
      (GroundedError → String)
      → String
      → List (String × List Bool)
      → List String
      → RunState W
      → (List String × Bool) × RunState W
  unfolding strip is_empty is_quit turn_line ground_and_run
  run_repl text_of session [] emitted h = ((emitted, true), h)
  run_repl text_of session ((raw, draws) ∷ lines) emitted h =
      let text = strip raw in
      elim (is_empty text) [
        | true ↦ run_repl text_of session lines emitted h
        | false ↦ elim (is_quit text) [
          | true ↦ ((emitted, true), h)
          | false ↦
              let (r, h') = ground_and_run brain store session text draws h in
              elim (turn_line text_of r) [
                | none ↦ ((emitted, false), h')
                | some line ↦ run_repl text_of session lines (emitted ++ line ∷ []) h'
              ]
        ]
      ]
