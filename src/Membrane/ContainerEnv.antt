-- ===== src/Membrane/ContainerEnv.antt =====
-- membrane/lease.py, `CredentialBroker.container_env`: the leases' credentials become environment
-- variables of the container.
pub mod Complete
use kagura_agent.Prelude.{
  String, ◌≡◌, refl, Bool, true, false, not, ◌&&◌, Option, none, some, arith, Result, ok, raised,
  List, [], ◌∷◌, Option-cases, ◌==◌, eq_iff, if◌then◌else◌, ◌⊎◌, inl, inr, Bool-cases, All,
}
use kagura_agent.Prelude.Dict
use kagura_agent.Prelude.Dict.{Dict, get-put}
use kagura_agent.Membrane.Lease.{
  Error, value_error, key_error, Lease, Broker, CredProvider, find_provider,
}

-- `key in env and env[key] != value`
unfoldable pub conflicts : Dict String → String → String → Bool
conflicts env key value = elim (Dict.get env key) [ none ↦ false | some old ↦ not (old == value) ]

-- The inner loop: one credential's variables.
unfoldable pub add_vars : Dict String → Dict String → Result Error (Dict String)
unfolding conflicts
add_vars env [] = ok env
add_vars env ((key, value) ∷ vars) =
    let rest = add_vars (Dict.put env key value) vars in
    if conflicts env key value then raised value_error else rest

unfoldable pub and_then : {A B : Type 0} → Result Error A → (A → Result Error B) → Result Error B
and_then (ok a) f = f a
and_then (raised e) f = raised e

module _ {W : Type 0} where
  -- The variables of one lease's credential; a provider that is no `EnvCredProvider` has none.
  unfoldable pub cred_vars : CredProvider W → String → Result Error (Dict String)
  cred_vars p cred = elim p.cred_to_env [ none ↦ ok [] | some translate ↦ translate cred ]

  unfoldable pub add_lease : Broker W → Dict String → Lease → Result Error (Dict String)
  unfolding add_vars and_then find_provider cred_vars
  add_lease b env lease = elim lease.cred [
    | none ↦ ok env
    | some cred ↦
        and_then (find_provider b lease.provider) λ p. and_then (cred_vars p cred) (add_vars env)
  ]

  unfoldable pub add_leases : Broker W → Dict String → List Lease → Result Error (Dict String)
  unfolding add_lease
  add_leases b env [] = ok env
  add_leases b env (lease ∷ rest) = and_then (add_lease b env lease) λ env'. add_leases b env' rest

  unfoldable pub container_env : Broker W → List Lease → Result Error (Dict String)
  unfolding add_leases
  container_env b leases = add_leases b [] leases
