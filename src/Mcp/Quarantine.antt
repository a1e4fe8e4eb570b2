-- ===== src/Mcp/Quarantine.antt =====
-- mcp/memory_cloud.py: `QuarantinedMemoryClient`, the memory that a confined agent is given, over a
-- `LocalMemoryClient`; and `compose_agent_bootstrap`.
pub mod Confined
use kagura_agent.Prelude.{
  ℕ, zero, suc, ◌-◌, String, Bool, true, false, ◌&&◌, none, some, List, [], ◌∷◌, leb, if◌then◌else◌,
  Result, ok, raised,
}
use kagura_agent.Mcp.Local
use kagura_agent.Mcp.Local.{Memory, LocalMemory, MemoryError, value_error, is_trusted, keep}

-- The trust and the delivery that the agent asks for are ignored.
unfoldable pub confined_remember :
    LocalMemory → String → List String → String → String → Result MemoryError String × LocalMemory
confined_remember c text tags tier mode = Local.remember c text tags "quarantine" "on_recall"

unfoldable pub take_memories : ℕ → List Memory → List Memory
take_memories zero ms = []
take_memories (suc k) [] = []
take_memories (suc k) (m ∷ ms) = m ∷ take_memories k ms

-- What varies of an `AgentBootstrap` of a local memory.
pub record Bootstrap : Type 0 where
  pub pinned : List Memory
  pub recalled : List Memory

unfoldable pub compose_bootstrap :
    LocalMemory → String → ℕ → List Bool → Result MemoryError Bootstrap
unfolding keep take_memories is_trusted
compose_bootstrap c query recall_k draws =
    if leb 1 recall_k && leb recall_k 100
    then ok (record {
      pinned = keep is_trusted (Local.load_pinned c);
      recalled = take_memories recall_k (Local.recall c query true [] draws);
    })
    else raised value_error

-- What a confined agent can ask for that changes the memory; its other verbs only read.
pub data Request : Type 0 where
  remembers : String → List String → String → String → Request
  links : String → String → String → Request

unfoldable pub serve_one : LocalMemory → Request → LocalMemory
unfolding confined_remember
serve_one c (remembers text tags tier mode) = (confined_remember c text tags tier mode).1
serve_one c (links src dst type) = Local.create_edge c src dst type

-- The memory after the agent's requests, the first one first.
unfoldable pub serve_all : LocalMemory → List Request → LocalMemory
unfolding serve_one
serve_all c [] = c
serve_all c (r ∷ rs) = serve_all (serve_one c r) rs
