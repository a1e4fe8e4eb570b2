-- ===== src/Membrane/Granted.antt =====
-- membrane/granted_broker.py: the broker behind a task's grants.
pub mod Refusals
mod Examples
use Prim.Native.Nat.{Ordering}
use Prim.Native.String.{compare}
use kagura_agent.Prelude.{
  ℕ, String, Bool, true, false, List, [], ◌∷◌, map, if◌then◌else◌, Result, ok, raised, ◌>>=◌, ◌>>◌,
  lift,
}
use kagura_agent.Prelude.Dict.{Dict}
use kagura_agent.Membrane.Lease
use kagura_agent.Membrane.Lease.{Error, grant_denied, Budget, Lease, Broker, State, Call}
use kagura_agent.Membrane.ContainerEnv.{and_then, container_env}
use kagura_agent.Membrane.Grants.{Grant, allows}

pub record GrantedBroker (W : Type 0) : Type 0 where
  pub inner : Broker W
  pub grants : List Grant

module _ {W : Type 0} where
  unfoldable pub require_grant : GrantedBroker W → String → String → Result Error (Unit {0})
  unfolding allows
  require_grant g provider scope =
      if allows g.grants provider scope then ok tt else raised grant_denied

  unfoldable pub acquire : GrantedBroker W → String → String → ℕ → Budget → Call W Lease
  unfolding require_grant
  acquire g provider scope ttl budget = do
    lift (require_grant g provider scope)
    Lease.acquire g.inner provider scope ttl budget

  unfoldable pub renew : GrantedBroker W → Lease → ℕ → Call W Lease
  unfolding require_grant
  renew g lease ttl = do
    lift (require_grant g lease.provider lease.scope)
    Lease.renew g.inner lease ttl

  unfoldable pub release : GrantedBroker W → Lease → Call W (Unit {0})
  release g lease = Lease.release g.inner lease

  -- the loop of `container_env` over the leases
  unfoldable pub require_all : GrantedBroker W → List Lease → Result Error (Unit {0})
  unfolding and_then require_grant
  require_all g [] = ok tt
  require_all g (lease ∷ rest) =
      and_then (require_grant g lease.provider lease.scope) λ _. require_all g rest

  unfoldable pub granted_env : GrantedBroker W → List Lease → Result Error (Dict String)
  unfolding and_then require_all
  granted_env g leases = and_then (require_all g leases) λ _. container_env g.inner leases

  unfoldable pub sweep : GrantedBroker W → Call W (Unit {0})
  sweep g = Lease.sweep g.inner

  unfoldable pub open_leases : GrantedBroker W → State W → List Lease
  open_leases g = Lease.open_leases

-- A planned lease for one grant.
pub record LeaseRequest : Type 0 where
  pub provider : String
  pub scope : String
  pub ttl : ℕ
  pub budget_seconds : ℕ

-- the order of the sort key `(g.provider, g.scope)`
unfoldable pub grant_le : Grant → Grant → Bool
grant_le a b = elim (compare a.provider b.provider) [
  | Ordering.lt ↦ true
  | Ordering.eq ↦ elim (compare a.scope b.scope) [ Ordering.gt ↦ false | _ ↦ true ]
  | Ordering.gt ↦ false
]

unfoldable pub insert_grant : Grant → List Grant → List Grant
unfolding grant_le
insert_grant g [] = g ∷ []
insert_grant g (h ∷ rest) = if grant_le g h then g ∷ h ∷ rest else h ∷ insert_grant g rest

unfoldable pub sort_grants : List Grant → List Grant
unfolding insert_grant
sort_grants [] = []
sort_grants (g ∷ rest) = insert_grant g (sort_grants rest)

unfoldable pub request_for : ℕ → ℕ → Grant → LeaseRequest
request_for ttl budget_seconds g = record {
  provider = g.provider;
  scope = g.scope;
  ttl = ttl;
  budget_seconds = budget_seconds;
}

unfoldable pub lease_requests : List Grant → ℕ → ℕ → List LeaseRequest
unfolding sort_grants request_for
lease_requests grants ttl budget_seconds = map (request_for ttl budget_seconds) (sort_grants grants)
