-- ===== src/Mcp/Reachable.antt =====
-- mcp/memory_cloud.py: `memory_reachable` and the gate at the start. The probe, the pause between two probes
-- and the settings are outside; fewer attempts than one count as one.
pub mod Retries
mod Examples
use kagura_agent.Prelude.{
  ℕ, zero, suc, Bool, true, false, Option, none, some, if◌then◌else◌, Result, ok, raised,
}

pub data MemoryUnreachableError : Type 0 where
  memory_unreachable : MemoryUnreachableError

-- max(1, n)
unfoldable pub at_least_one : ℕ → ℕ
at_least_one zero = 1
at_least_one (suc n) = suc n

module _ {W : Type 0} (probe : W → Bool × W) (sleep : W → W) where
  -- `if attempt + 1 < n: _sleep(backoff)`, with the attempts left
  unfoldable pub pause : ℕ → W → W
  pause zero w = w
  pause (suc k) w = sleep w

  unfoldable pub try_probes : ℕ → W → Bool × W
  unfolding pause
  try_probes zero w = (false, w)
  try_probes (suc left) w =
      let (reached, w') = probe w in
      let rest = try_probes left (pause left w') in if reached then (true, w') else rest

  unfoldable pub memory_reachable : ℕ → Option ℕ → W → Bool × W
  unfolding at_least_one try_probes
  memory_reachable default none w = try_probes (at_least_one default) w
  memory_reachable default (some attempts) w = try_probes (at_least_one attempts) w

unfoldable pub ensure_memory_reachable : Bool → Result MemoryUnreachableError (Unit {0})
ensure_memory_reachable reachable = if reachable then ok tt else raised memory_unreachable
