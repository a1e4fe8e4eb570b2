-- ===== src/Mcp/Reachable/Retries.antt =====
-- When the bounded retries find the memory.
use kagura_agent.Prelude.{
  ℕ, zero, suc, ◌<◌, ◌≡◌, refl, Bool, true, some, Bool-cases, inl, inr, arith, ◌↔◌,
}
use kagura_agent.Mcp.Reachable.{at_least_one, pause, try_probes, memory_reachable}

module _ {W : Type 0} (probe : W → Bool × W) (sleep : W → W) where
  -- The world of the `k`-th probe, from 0, where the earlier ones fail.
  abbrev pub before : ℕ → W → W
  before zero w = w
  before (suc k) w = before k (sleep (probe w).1)

  try_probes_sound :
      (n : ℕ) (w : W)
      → (try_probes probe sleep n w).0 ≡ true
      → (k : ℕ) × (k < n) × ((probe (before k w)).0 ≡ true)
  unfolding try_probes pause
  try_probes_sound zero w h = absurd (cc h)
  try_probes_sound (suc zero) w h = elim (Bool-cases (probe w).0) [
    | inl e ↦ (0, omega arith, e)
    | inr e ↦ absurd (cc (rw (try_probes, e) at h))
  ]
  try_probes_sound (suc (suc n)) w h = elim (Bool-cases (probe w).0) [
    | inl e ↦ (0, omega arith, e)
    | inr e ↦
        let (k, lt, d) = try_probes_sound (suc n) (sleep (probe w).1) (rw (try_probes, e) at h) in
        (suc k, omega (arith, lt), d)
  ]

  try_probes_complete :
      (n k : ℕ) (w : W)
      → k < n
      → (probe (before k w)).0 ≡ true
      → (try_probes probe sleep n w).0 ≡ true
  unfolding try_probes pause
  try_probes_complete zero k w lt h = absurd (omega (arith, lt))
  try_probes_complete (suc n) zero w lt h = rw h refl
  try_probes_complete (suc zero) (suc k) w lt h = absurd (omega (arith, lt))
  try_probes_complete (suc (suc n)) (suc k) w lt h = elim (Bool-cases (probe w).0) [
    | inl e ↦ rw e refl
    | inr e ↦
        rw (try_probes, e) (try_probes_complete (suc n) k (sleep (probe w).1) (omega (arith, lt)) h)
  ]

  -- The memory counts as reachable exactly if one of the attempts finds it, each made after a pause if
  -- the ones before it fail, and there is at least one.
  memory_reachable_iff :
      (default attempts : ℕ) (w : W)
      → ((memory_reachable probe sleep default (some attempts) w).0 ≡ true)
        ↔ ((k : ℕ) × (k < at_least_one attempts) × ((probe (before k w)).0 ≡ true))
  unfolding memory_reachable
  memory_reachable_iff default attempts w = (
    try_probes_sound (at_least_one attempts) w,
    λ (k, lt, d). try_probes_complete (at_least_one attempts) k w lt d,
  )
