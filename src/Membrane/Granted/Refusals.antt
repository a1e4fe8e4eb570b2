-- ===== src/Membrane/Granted/Refusals.antt =====
-- Who can mint or materialise a credential through the granted broker.
use kagura_agent.Prelude.{
  ℕ, String, ◌≡◌, refl, true, false, List, [], ◌∷◌, Result, ok, raised, arith, ◌⊎◌, inl, inr, All,
  continue_rule, some,
}
use kagura_agent.Prelude.Dict.{Dict}
use kagura_agent.Membrane.Lease.{
  Error, Budget, Lease, CredProvider, State, assert_scope_allowed, requires_write_approval,
}
use kagura_agent.Membrane.Lease.Cases.{Registered, acquire_cases, renew_cases}
use kagura_agent.Membrane.ContainerEnv.{container_env}
use kagura_agent.Membrane.ContainerEnv.Complete.{and_then-ok}
use kagura_agent.Membrane.Grants.{allows}
use kagura_agent.Membrane.Granted
use kagura_agent.Membrane.Granted.{GrantedBroker, require_grant, require_all, granted_env}

-- The provider may mint the scope: it is no privileged memory scope, or the provider is the memory
-- provider with write approval.
abbrev pub MayMint : {W : Type 0} → CredProvider W → String → Type 0
MayMint p scope = (requires_write_approval scope ≡ false) ⊎ (p.write_approved ≡ some true)

MayMint-of_ok :
    {W : Type 0} (p : CredProvider W) (scope : String)
    → assert_scope_allowed p scope ≡ ok tt
    → MayMint p scope
unfolding assert_scope_allowed
MayMint-of_ok p scope h = ground arith

-- A mint was authorised: the pair is granted, the provider is registered and may mint the scope.
pub record Authorised {W : Type 0} (g : GrantedBroker W) (name scope : String) : Type 0 where
  pub granted : allows g.grants name scope ≡ true
  pub provider : CredProvider W
  pub registered : Registered g.inner name provider
  pub may_mint : MayMint provider scope

-- The call raised, and left the ledger and the outside world as they were.
abbrev pub Refused : {W R : Type 0} → State W → Result Error R × State W → Type 0
Refused s x = (e : Error) × (x ≡ (raised e, s))

allows_of_ok :
    {W : Type 0} (g : GrantedBroker W) (name scope : String) {u : Unit {0}}
    → require_grant g name scope ≡ ok u
    → allows g.grants name scope ≡ true
unfolding require_grant
allows_of_ok g name scope h = ground arith

authorised :
    {W : Type 0} (g : GrantedBroker W) (name scope : String) {u : Unit {0}}
    → require_grant g name scope ≡ ok u
    → (p : CredProvider W) → Registered g.inner name p
    → assert_scope_allowed p scope ≡ ok tt
    → Authorised g name scope
authorised g name scope granted p reg may = record {
  granted = allows_of_ok g name scope granted;
  provider = p;
  registered = reg;
  may_mint = MayMint-of_ok p scope may;
}

module _ {W : Type 0} (g : GrantedBroker W) (s : State W) where
  -- `acquire` either raises and changes nothing, at the providers neither, or the task's grants hold
  -- the pair and its provider is registered and may mint the scope.
  pub acquire-Authorised :
      (name scope : String) (ttl : ℕ) (budget : Budget)
      → Refused s (Granted.acquire g name scope ttl budget s) ⊎ Authorised g name scope
  unfolding Granted.acquire
  acquire-Authorised name scope ttl budget =
      continue_rule (λ x. Refused s x ⊎ Authorised g name scope) (require_grant g name scope) _ s
        (λ e _. inl (e, refl))
        λ u granted.
          acquire_cases g.inner s (λ x. Refused s x ⊎ Authorised g name scope) name scope ttl budget
            (λ e. inl (e, refl)) (λ p e reg may _. inr (authorised g name scope granted p reg may))
            (λ p _ _ _ reg may _ _ _ _. inr (authorised g name scope granted p reg may))

  -- The same of `renew`, for the pair of the lease that it is handed.
  pub renew-Authorised :
      (l : Lease) (ttl : ℕ) → Refused s (Granted.renew g l ttl s) ⊎ Authorised g l.provider l.scope
  unfolding Granted.renew
  renew-Authorised l ttl =
      continue_rule Q (require_grant g l.provider l.scope) _ s (λ e _. inl (e, refl))
        λ u granted.
          renew_cases g.inner s Q l ttl (λ e. inl (e, refl))
            (λ p e reg may _. inr (authorised g l.provider l.scope granted p reg may))
            (λ p _ _ _ reg may _ _.
              let a = authorised g l.provider l.scope granted p reg may in (λ _. inr a, λ _. inr a))
    where
      Q : Result Error Lease × State W → Type 0
      Q x = Refused s x ⊎ Authorised g l.provider l.scope

  require_all_lem :
      (ls : List Lease) {u : Unit {0}}
      → require_all g ls ≡ ok u
      → All (λ l. allows g.grants l.provider l.scope ≡ true) ls
  unfolding require_all
  require_all_lem [] h = tt
  require_all_lem (l ∷ ls) h =
      let (_, first, rest) = and_then-ok (require_grant g l.provider l.scope) _ h in
      (allows_of_ok g l.provider l.scope first, require_all_lem ls rest)

  -- The granted broker's `container_env` returns only what the inner broker returns, and only if the
  -- grants hold the pair of every lease.
  granted_env_lem :
      (ls : List Lease) {env : Dict String}
      → granted_env g ls ≡ ok env
      → (container_env g.inner ls ≡ ok env)
        × All (λ l. allows g.grants l.provider l.scope ≡ true) ls
  unfolding granted_env
  granted_env_lem ls h =
      let (_, first, rest) = and_then-ok (require_all g ls) _ h in (rest, require_all_lem ls first)
