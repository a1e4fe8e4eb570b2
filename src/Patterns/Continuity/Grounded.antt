-- ===== src/Patterns/Continuity/Grounded.antt =====
-- What a grounded run leaves to the next one.
use Prim.Native.String.{◌++◌ as append}
use kagura_agent.Prelude.{
  ℕ, String, ◌≡◌, refl, sym, subst, Bool, true, List, [], ◌∷◌, Result, ok, raised, Result-cases,
  inl, inr,
}
use kagura_agent.Core.Session.{SessionError, SessionResult, Brain, CheckpointStore}
use kagura_agent.Mcp.Local.{LocalMemory, recall, load_pinned}
use kagura_agent.Mcp.Local.Valid.{IsValid}
use kagura_agent.Mcp.Quarantine.{
  Request, remembers, serve_one, serve_all, confined_remember, compose_bootstrap,
}
use kagura_agent.Mcp.Quarantine.Confined.{serve_all-keeps-bootstrap}
use kagura_agent.Patterns.Continuity.{
  RunState, prepare_bootstrap_prompt, record_used, outcome_text, remember_outcome, drive_task,
  after_task, ground_and_run,
}

-- A memory that gives the next session what this one gives.
abbrev pub KeepsBootstrap :
    LocalMemory → LocalMemory → String → List String → List Bool → ℕ → Type 0
KeepsBootstrap c d query tags draws recall_k =
    (recall d query true tags draws ≡ recall c query true tags draws)
    × (load_pinned d ≡ load_pinned c)
    × (compose_bootstrap d query recall_k draws ≡ compose_bootstrap c query recall_k draws)

module _ {S W : Type 0} (brain : Brain S W) (store : CheckpointStore S W) where
  -- After the task the memory is as it was, or a confined agent has written the summary.
  after_task-memory :
      (session prompt : String) (r : Result SessionError (SessionResult S)) (h : RunState W)
      → (rs : List Request) × ((after_task brain store session prompt r h).1.memory
          ≡ serve_all h.memory rs)
  unfolding after_task serve_all serve_one confined_remember remember_outcome
  after_task-memory session prompt (raised e) h = ([], refl)
  after_task-memory session prompt (ok result) h = (
    remembers (outcome_text session prompt result.text)
          ("task-summary" ∷ append "session:" session ∷ []) "quarantine" "on_recall"
        ∷ [],
    refl,
  )

  run-memory :
      (session prompt : String) (draws : List Bool) (h : RunState W)
      → (rs : List Request) × ((ground_and_run brain store session prompt draws h).1.memory
          ≡ serve_all h.memory rs)
  unfolding ground_and_run serve_all
  run-memory session prompt draws h =
      elim (Result-cases (prepare_bootstrap_prompt h.memory prompt draws)) [
        | inr (e, d) ↦ ([], rw (ground_and_run, d) refl)
        | inl ((effective, used), d) ↦
            let (r, w) = drive_task brain store session effective h.world in
            let (rs, e) =
              after_task-memory session prompt r
                (record h { provenance = record_used h.provenance session used; world = w }) in
            (rs, rw (ground_and_run, d) e)
      ]

  -- Whatever the brain does and however the run ends: from a valid memory, every recall of trusted
  -- memories, the pinned memories and the bootstrap of the next session are what they were before, so
  -- no summary that an agent wrote comes back as context by itself.
  pub ground_and_run-keeps-bootstrap :
      (session prompt : String) (draws : List Bool) (h : RunState W) (query : String)
      (tags : List String) (later : List Bool) (recall_k : ℕ)
      → IsValid h.memory
      → KeepsBootstrap h.memory
          (ground_and_run brain store session prompt draws h).1.memory
          query
          tags
          later
          recall_k
  ground_and_run-keeps-bootstrap session prompt draws h query tags later recall_k v =
      let (rs, e) = run-memory session prompt draws h in
      subst (λ d. KeepsBootstrap h.memory d query tags later recall_k) (sym e)
        (serve_all-keeps-bootstrap h.memory rs query tags later recall_k v)
