-- ===== src/Mcp/Reachable/Examples.antt =====
-- A probe that succeeds at the third attempt; the world counts the probes.
use kagura_agent.Prelude.{ℕ, suc, ◌≡◌, refl, Bool, true, some, ltb}
use kagura_agent.Mcp.Reachable.{memory_reachable}

abbrev probe : ℕ → Bool × ℕ
probe w = (ltb 1 w, suc w)

third_attempt : memory_reachable probe (λ w. w) 3 (some 3) 0 ≡ (true, 3)
unfolding memory_reachable
third_attempt = refl
