-- ===== src/Patterns/Prompt.antt =====
-- patterns/continuity.py over any memory client: the prompt that a bootstrap makes, with all its lanes, and
-- the grounding of a prompt in recalled memories. The client is a record of functions on a world; SHA-256
-- and `json.dumps` with sorted keys are functions.
use Prim.Native.String.{◌++◌ as append}
use kagura_agent.Prelude.{
  ℕ, String, Bool, true, ◌&&◌, ◌||◌, List, [], ◌∷◌, ◌++◌, map, if◌then◌else◌, Result, ok, raised,
  leb, eqb, length,
}
use kagura_agent.Prelude.Text.{codes, strip, is_empty}
use kagura_agent.Prelude.Json.{Fields, end, field}
use kagura_agent.Mcp.Local.{Memory, is_trusted, keep}
use kagura_agent.Mcp.RestBootstrap.{BootstrapError, AgentBootstrap}
use kagura_agent.Patterns.Continuity.{
  take_text, fresh_memories, bullet_lines, block, join_blocks, outcome_text,
}

pub record MemoryClient (W : Type 0) : Type 0 where
  pub get_agent_bootstrap : String → String → ℕ → W → Result BootstrapError AgentBootstrap × W
  pub remember : String → List String → String → String → W → Result BootstrapError String × W
  pub recall : String → Bool → List String → W → Result BootstrapError (List Memory) × W
  pub load_pinned : W → Result BootstrapError (List Memory) × W

pub record Tools : Type 0 where
  pub hexdigest : String → String
  pub dumps_sorted : Fields → String

-- [A-Za-z0-9._-]
unfoldable pub is_id_char : ℕ → Bool
is_id_char c =
    (leb 65 c && leb c 90)
    || (leb 97 c && leb c 122)
    || (leb 48 c && leb c 57)
    || eqb c 46
    || eqb c 95
    || eqb c 45

unfoldable pub all_id_chars : List ℕ → Bool
unfolding is_id_char
all_id_chars [] = true
all_id_chars (c ∷ cs) = is_id_char c && all_id_chars cs

-- `_BOOTSTRAP_SESSION_RE.fullmatch`
unfoldable pub is_session_id : String → Bool
unfolding all_id_chars
is_session_id s = leb 1 (length (codes s)) && leb (length (codes s)) 128 && all_id_chars (codes s)

unfoldable pub bootstrap_correlation_id : Tools → String → String
unfolding is_session_id take_text
bootstrap_correlation_id tools session =
    if is_session_id session
    then session
    else append "session-" (take_text 32 (tools.hexdigest session))

unfoldable pub instruction_block : String → List String
unfolding strip is_empty
instruction_block s =
    if is_empty (strip s) then [] else append "Bootstrap instructions:\n" (strip s) ∷ []

unfoldable pub state_block : Tools → Fields → List String
state_block tools end = []
state_block tools (field k v rest) =
    append "Agent state (advisory; session checkpoint remains authoritative):\n"
      (tools.dumps_sorted (field k v rest))
    ∷ []

-- `_render_bootstrap_prompt`
unfoldable pub render_prompt : Tools → AgentBootstrap → String → String
unfolding instruction_block fresh_memories block state_block join_blocks
render_prompt tools b prompt =
    let pinned = fresh_memories [] b.pinned in
    let recalled = fresh_memories (map (λ m. m.id) pinned) b.recall in
    let upcoming = fresh_memories (map (λ m. m.id) (pinned ++ recalled)) b.upcoming in
    let blocks =
      instruction_block b.instructions
      ++ block "Standing guardrails (always apply):\n" pinned
      ++ block "Relevant context from prior work:\n" recalled
      ++ block "Upcoming time memories:\n" upcoming
      ++ state_block tools b.state in
    elim blocks [ [] ↦ prompt | t ∷ ts ↦ join_blocks (t ∷ ts) (append "Task:\n" prompt) ]

-- `memories[:k]` of at most five
unfoldable pub first_memories : List Memory → List Memory
first_memories (a ∷ b ∷ c ∷ d ∷ e ∷ rest) = a ∷ b ∷ c ∷ d ∷ e ∷ []
first_memories ms = ms

-- the prompt of `_grounded_with_sources` and the memories in it
unfoldable pub grounded_with : String → List Memory → String × List Memory
unfolding first_memories bullet_lines
grounded_with prompt [] = (prompt, [])
grounded_with prompt (m ∷ ms) =
    let used = first_memories (m ∷ ms) in
    (
      append "Relevant context from prior work:\n"
          (append (bullet_lines used) (append "\n\nTask:\n" prompt)),
      used,
    )

-- the text of `load_guardrails`
unfoldable pub guardrails_text : List Memory → String
unfolding bullet_lines
guardrails_text [] = ""
guardrails_text (m ∷ ms) = append "Standing guardrails (always apply):\n" (bullet_lines (m ∷ ms))

unfoldable pub map_result : {E A B : Type 0} → (A → B) → Result E A → Result E B
map_result f (ok a) = ok (f a)
map_result f (raised e) = raised e

module _ {W : Type 0} (memory : MemoryClient W) where
  -- `prepare_bootstrap_prompt`: the prompt, the memories in it and the bootstrap
  unfoldable pub prepare_prompt :
      Tools
      → String
      → String
      → W
      → Result BootstrapError (String × (List Memory × AgentBootstrap)) × W
  unfolding bootstrap_correlation_id take_text render_prompt fresh_memories map_result
  prepare_prompt tools session prompt w =
      let (r, w') =
        memory.get_agent_bootstrap (bootstrap_correlation_id tools session) (take_text 1024 prompt)
          5 w in
      (
        map_result
            (λ b. (
              render_prompt tools b prompt,
              (fresh_memories [] (b.pinned ++ b.recall ++ b.upcoming), b),
            ))
            r,
        w',
      )

  -- `remember_outcome`
  unfoldable pub write_outcome : String → String → String → W → Result BootstrapError String × W
  unfolding outcome_text
  write_outcome session prompt result =
      memory.remember (outcome_text session prompt result)
        ("task-summary" ∷ append "session:" session ∷ []) "quarantine" "on_recall"

  unfoldable pub grounded_with_sources :
      String → W → Result BootstrapError (String × List Memory) × W
  unfolding map_result grounded_with
  grounded_with_sources prompt w =
      let (r, w') = memory.recall prompt true [] w in (map_result (grounded_with prompt) r, w')

  unfoldable pub ground_prompt : String → W → Result BootstrapError String × W
  unfolding grounded_with_sources map_result
  ground_prompt prompt w =
      let (r, w') = grounded_with_sources prompt w in
      (map_result (λ (p : String × List Memory). p.0) r, w')

  unfoldable pub load_guardrails : W → Result BootstrapError String × W
  unfolding map_result guardrails_text keep is_trusted
  load_guardrails w =
      let (r, w') = memory.load_pinned w in
      (map_result (λ ms. guardrails_text (keep is_trusted ms)) r, w')
