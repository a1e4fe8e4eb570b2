-- ===== src/Patterns/Continuity.antt =====
-- patterns/continuity.py: `drive_task`, and `ground_and_run` over the host's `LocalMemoryClient`. The other lanes
-- of a local bootstrap, its instructions, its upcoming memories and its state, are empty. The hook for
-- live narration is left out.
pub mod Grounded
pub mod Recorded
pub mod Repl
mod Examples
use Prim.Native.String.{◌++◌ as append}
use kagura_agent.Prelude.{
  ℕ, zero, suc, String, Bool, true, false, Option, none, some, List, [], ◌∷◌, ◌++◌, map,
  if◌then◌else◌, Result, ok, raised,
}
use kagura_agent.Prelude.Text.{member, strip, is_empty}
use kagura_agent.Core.Session
use kagura_agent.Core.Session.{SessionError, SessionResult, Brain, CheckpointStore, drive}
use kagura_agent.Mcp.Local
use kagura_agent.Mcp.Local.{Memory, LocalMemory, MemoryError}
use kagura_agent.Mcp.Quarantine.{Bootstrap, compose_bootstrap}
use kagura_agent.Patterns.Provenance.{ProvenanceLog, record_grounding}

pub data GroundedError : Type 0 where
  session_raised : SessionError → GroundedError
  bootstrap_raised : MemoryError → GroundedError

-- The memory of the host, its log of provenance if it keeps one, and the world of the brain and of
-- the checkpoint store.
pub record RunState (W : Type 0) : Type 0 where
  pub memory : LocalMemory
  pub provenance : Option ProvenanceLog
  pub world : W

-- s[:k]
unfoldable pub take_text : ℕ → String → String
take_text zero s = ""
take_text (suc k) String.[] = ""
take_text (suc k) (String.◌∷◌ c s) = String.◌∷◌ c (take_text k s)

-- the memories of the list with a new id, and no id twice
unfoldable pub fresh_memories : List String → List Memory → List Memory
unfolding member
fresh_memories seen [] = []
fresh_memories seen (m ∷ ms) =
    let skipped = fresh_memories seen ms in
    let kept = fresh_memories (m.id ∷ seen) ms in if member m.id seen then skipped else m ∷ kept

-- `_dedupe_memories`
unfoldable pub dedupe_memories : List Memory → List Memory → List Memory
unfolding fresh_memories
dedupe_memories pinned recalled = fresh_memories [] (pinned ++ recalled)

-- "\n".join(f"- {memory.text}" ...)
unfoldable pub bullet_lines : List Memory → String
bullet_lines [] = ""
bullet_lines (m ∷ []) = append "- " m.text
bullet_lines (m ∷ n ∷ ms) = append "- " (append m.text (append "\n" (bullet_lines (n ∷ ms))))

unfoldable pub block : String → List Memory → List String
unfolding bullet_lines
block title [] = []
block title (m ∷ ms) = append title (bullet_lines (m ∷ ms)) ∷ []

-- "\n\n".join((*blocks, last))
unfoldable pub join_blocks : List String → String → String
join_blocks [] last = last
join_blocks (b ∷ bs) last = append b (append "\n\n" (join_blocks bs last))

-- `_render_bootstrap_prompt`
unfoldable pub render_bootstrap_prompt : Bootstrap → String → String
unfolding fresh_memories block join_blocks
render_bootstrap_prompt bootstrap prompt =
    let pinned = fresh_memories [] bootstrap.pinned in
    let recalled = fresh_memories (map (λ m. m.id) pinned) bootstrap.recalled in
    let blocks =
      block "Standing guardrails (always apply):\n" pinned
      ++ block "Relevant context from prior work:\n" recalled in
    elim blocks [ [] ↦ prompt | b ∷ bs ↦ join_blocks (b ∷ bs) (append "Task:\n" prompt) ]

-- `prepare_bootstrap_prompt`: the prompt and the memories in it
unfoldable pub prepare_bootstrap_prompt :
    LocalMemory → String → List Bool → Result MemoryError (String × List Memory)
unfolding take_text dedupe_memories render_bootstrap_prompt
prepare_bootstrap_prompt memory prompt draws =
    elim (compose_bootstrap memory (take_text 1024 prompt) 5 draws) [
      | raised e ↦ raised e
      | ok b ↦ ok (render_bootstrap_prompt b prompt, dedupe_memories b.pinned b.recalled)
    ]

-- `if provenance is not None and used`
unfoldable pub record_used : Option ProvenanceLog → String → List Memory → Option ProvenanceLog
record_used none session used = none
record_used (some log) session [] = some log
record_used (some log) session (m ∷ ms) =
    some (record_grounding log session (map (λ n. (n.id, n.trust_tier)) (m ∷ ms)))

unfoldable pub outcome_text : String → String → String → String
outcome_text session prompt result =
    append "Task (session "
      (append session (append "): " (append prompt (append "\nOutcome: " result))))

-- `remember_outcome`
unfoldable pub remember_outcome :
    LocalMemory → String → String → String → Result MemoryError String × LocalMemory
unfolding outcome_text
remember_outcome memory session prompt result =
    Local.remember memory (outcome_text session prompt result)
      ("task-summary" ∷ append "session:" session ∷ []) "quarantine" "on_recall"

module _ {S W : Type 0} (brain : Brain S W) (store : CheckpointStore S W) where
  unfoldable pub drive_task : String → String → W → Result SessionError (SessionResult S) × W
  drive_task session prompt w =
      let (loaded, w') = store.load session w in
      elim loaded [
        | raised e ↦ (raised e, w')
        | ok prior ↦ drive brain store (record { prompt = prompt; session_id = session }) prior w'
      ]

  -- what `ground_and_run` does with the result of the task
  unfoldable pub after_task :
      String
      → String
      → Result SessionError (SessionResult S)
      → RunState W
      → Result GroundedError (SessionResult S) × RunState W
  unfolding remember_outcome
  after_task session prompt (raised e) h = (raised (session_raised e), h)
  after_task session prompt (ok result) h =
      (ok result, record h { memory = (remember_outcome h.memory session prompt result.text).1 })

  unfoldable pub ground_and_run :
      String → String → List Bool → RunState W → Result GroundedError (SessionResult S) × RunState W
  unfolding prepare_bootstrap_prompt record_used drive_task after_task
  ground_and_run session prompt draws h = elim (prepare_bootstrap_prompt h.memory prompt draws) [
    | raised e ↦ (raised (bootstrap_raised e), h)
    | ok (effective, used) ↦
        let (r, w) = drive_task session effective h.world in
        after_task session prompt r
          (record h { provenance = record_used h.provenance session used; world = w })
  ]
