-- ===== src/Membrane/Granted/Examples.antt =====
-- The theorems on grants and on the container's environment at concrete inputs.
use kagura_agent.Prelude.{String, ◌≡◌, refl, Bool, [], ◌∷◌, ok, raised, ◌⊎◌, some, All}
use kagura_agent.Prelude.Dict
use kagura_agent.Prelude.Dict.{Dict}
use kagura_agent.Membrane.Lease.{
  Error, value_error, memory_write_locked, grant_denied, Lease, requires_write_approval,
}
use kagura_agent.Membrane.Lease
use kagura_agent.Membrane.Lease.Examples.{cloud, held_lease, half_spent, empty_state}
use kagura_agent.Membrane.ContainerEnv.{container_env}
use kagura_agent.Membrane.ContainerEnv.Complete.{Provided, Sets, container_env_exact}
use kagura_agent.Membrane.Grants.{parse_grants}
use kagura_agent.Membrane.Granted
use kagura_agent.Membrane.Granted.{GrantedBroker, granted_env, lease_requests}
use kagura_agent.Membrane.Granted.Refusals.{
  Refused, Authorised, acquire-Authorised, renew-Authorised,
}

abbrev granted_cloud : GrantedBroker Bool
granted_cloud = record {
  inner = cloud;
  grants = record { provider = "cf"; scope = "zone:read" } ∷ [];
}

acquire-Authorised_example :
    Refused empty_state (Granted.acquire granted_cloud "cf" "zone:edit" 60 half_spent empty_state)
    ⊎ Authorised granted_cloud "cf" "zone:edit"
acquire-Authorised_example =
    acquire-Authorised granted_cloud empty_state "cf" "zone:edit" 60 half_spent

ungranted :
    Granted.acquire granted_cloud "cf" "zone:edit" 60 half_spent empty_state
    ≡ (raised grant_denied, empty_state)
unfolding Granted.acquire
ungranted = refl

write_locked :
    Granted.acquire
      (record granted_cloud { grants = record { provider = "cf"; scope = " Memory:Write" } ∷ [] })
      "cf"
      " Memory:Write"
      60
      half_spent
      empty_state
    ≡ (raised memory_write_locked, empty_state)
unfolding Granted.acquire Lease.acquire Dict.get requires_write_approval
write_locked = refl

renew-Authorised_example :
    Refused empty_state (Granted.renew granted_cloud held_lease 60 empty_state)
    ⊎ Authorised granted_cloud "cf" "zone:read"
renew-Authorised_example = renew-Authorised granted_cloud empty_state held_lease 60

abbrev cloud_env : Dict String
cloud_env = ("CLOUDFLARE_API_TOKEN", "secret") ∷ []

cloud_env_lem : container_env cloud (held_lease ∷ []) ≡ ok cloud_env
unfolding container_env Dict.get Dict.put
cloud_env_lem = refl

container_env_exact_example :
    All (Provided cloud cloud_env) (held_lease ∷ [])
    × ((k v : String) → Dict.get cloud_env k ≡ some v → Sets cloud (held_lease ∷ []) k v)
container_env_exact_example = container_env_exact cloud (held_lease ∷ []) cloud_env cloud_env_lem

conflict :
    container_env cloud (held_lease ∷ record held_lease { cred = some "other" } ∷ [])
    ≡ raised value_error
unfolding container_env Dict.get Dict.put
conflict = refl

parsed :
    parse_grants (" cf : zone:read " ∷ "cf:zone:read" ∷ [])
    ≡ ok (record { provider = "cf"; scope = "zone:read" } ∷ [])
unfolding parse_grants
parsed = refl

malformed : parse_grants ("cf:zone:read" ∷ "cf: " ∷ []) ≡ raised value_error
unfolding parse_grants
malformed = refl

granted_env_ok : granted_env granted_cloud (held_lease ∷ []) ≡ ok cloud_env
unfolding granted_env container_env Dict.get Dict.put
granted_env_ok = refl
