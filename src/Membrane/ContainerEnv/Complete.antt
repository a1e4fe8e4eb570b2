-- ===== src/Membrane/ContainerEnv/Complete.antt =====
-- What `container_env` hands to the container: every variable of every live lease, none overwritten.
use kagura_agent.Prelude.{
  String, ◌≡◌, refl, false, none, some, arith, Result, ok, raised, List, [], ◌∷◌, Option-cases,
  ◌==◌, eq_iff, eq_refl, ◌⊎◌, inl, inr, Bool-cases, All,
}
use kagura_agent.Prelude.Dict
use kagura_agent.Prelude.Dict.{Dict, get-put}
use kagura_agent.Membrane.Lease.{Error, Lease, Broker, CredProvider, find_provider}
use kagura_agent.Membrane.Lease.Cases.{Registered-find}
use kagura_agent.Membrane.ContainerEnv.{
  add_vars, and_then, cred_vars, add_lease, add_leases, container_env, conflicts,
}

-- All that `d` maps, `e` maps to the same.
abbrev pub Extends : Dict String → Dict String → Type 0
Extends d e = (k v : String) → Dict.get d k ≡ some v → Dict.get e k ≡ some v

abbrev pub Has : Dict String → String × String → Type 0
Has e kv = Dict.get e kv.0 ≡ some kv.1

pub and_then-ok :
    {A B : Type 0} (r : Result Error A) (f : A → Result Error B) {y : B}
    → and_then r f ≡ ok y
    → (x : A) × (r ≡ ok x) × (f x ≡ ok y)
unfolding and_then
and_then-ok (ok a) f h = (a, refl, h)
and_then-ok (raised e) f h = cc

put-Extends :
    (env : Dict String) (key value : String)
    → conflicts env key value ≡ false
    → Extends env (Dict.put env key value)
unfolding conflicts
put-Extends env key value h k v e =
    ground (arith, get-put env key k value, eq_iff key k, eq_iff v value, e, h)

add_vars_lem :
    (vars env : Dict String) {env' : Dict String}
    → add_vars env vars ≡ ok env'
    → Extends env env' × All (Has env') vars
unfolding add_vars
add_vars_lem [] env h = (λ k v e. ground arith, tt)
add_vars_lem ((key, value) ∷ vars) env h = elim (Bool-cases (conflicts env key value)) [
  | inl t ↦ absurd (ground (arith, t, h))
  | inr f ↦
      let (grows, rest) = add_vars_lem vars (Dict.put env key value) (ground (arith, f, h)) in
      (
        λ k v e. grows k v (put-Extends env key value f k v e),
        (grows key value (rw (get-put env key key value, eq_refl key)), rest),
      )
]

All-Has :
    (d e : Dict String) (vars : Dict String) → Extends d e → All (Has d) vars → All (Has e) vars
All-Has d e [] x h = tt
All-Has d e (kv ∷ vars) x h = (x kv.0 kv.1 h.0, All-Has d e vars x h.1)

-- The list of pairs has this one.
abbrev pub Entry : Dict String → String → String → Type 0
Entry [] k v = ⊥
Entry (kv ∷ vars) k v = ((kv.0 ≡ k) × (kv.1 ≡ v)) ⊎ Entry vars k v

add_vars-from :
    (vars env : Dict String) {env' : Dict String} (k v : String)
    → add_vars env vars ≡ ok env'
    → Dict.get env' k ≡ some v
    → (Dict.get env k ≡ some v) ⊎ Entry vars k v
unfolding add_vars
add_vars-from [] env k v h found = inl (ground arith)
add_vars-from ((key, value) ∷ vars) env k v h found = elim (Bool-cases (conflicts env key value)) [
  | inl t ↦ absurd (ground (arith, t, h))
  | inr f ↦ elim (add_vars-from vars (Dict.put env key value) k v (ground (arith, f, h)) found) [
    | inr later ↦ inr (inr later)
    | inl put ↦ elim (Bool-cases (key == k)) [
      | inl same ↦
          inr (inl ((eq_iff key k).0 same, ground (arith, get-put env key k value, same, put)))
      | inr other ↦ inl (ground (arith, get-put env key k value, other, put))
    ]
  ]
]

module _ {W : Type 0} (b : Broker W) where
  -- A live credential of the lease translates to these variables.
  pub record Translates (l : Lease) (vars : Dict String) : Type 0 where
    pub cred : String
    pub live : l.cred ≡ some cred
    pub provider : CredProvider W
    pub registered : Dict.get b.providers l.provider ≡ some provider
    pub translated : cred_vars provider cred ≡ ok vars

  -- A checkpointed lease, without a credential, adds nothing; any other has all its variables in `env`.
  abbrev pub Provided : Dict String → Lease → Type 0
  Provided env l = (l.cred ≡ none) ⊎ ((vars : Dict String) × Translates l vars × All (Has env) vars)

  -- One of the leases sets the variable to this value.
  abbrev pub Sets : List Lease → String → String → Type 0
  Sets [] k v = ⊥
  Sets (l ∷ ls) k v = ((vars : Dict String) × Translates l vars × Entry vars k v) ⊎ Sets ls k v

  add_lease_lem :
      (l : Lease) (env : Dict String) {env' : Dict String}
      → add_lease b env l ≡ ok env'
      → ((env ≡ env') × (l.cred ≡ none))
        ⊎ ((vars : Dict String) × Translates l vars × (add_vars env vars ≡ ok env'))
  unfolding add_lease
  add_lease_lem l env {env'} h = elim (Option-cases l.cred) [
    | inl e ↦ inl (ground (arith, e, h), e)
    | inr (cred, e) ↦
        let (p, found, h') = and_then-ok (find_provider b l.provider) _ (
          let h' : and_then (find_provider b l.provider)
                (λ p. and_then (cred_vars p cred) (add_vars env))
              ≡ ok env' =
            rw (e, add_lease) at h in
          h') in
        let (vars, translated, h'') = and_then-ok (cred_vars p cred) (add_vars env) h' in
        inr (
          vars,
          record {
            cred = cred;
            live = e;
            provider = p;
            registered = Registered-find b l.provider p found;
            translated = translated;
          },
          h'',
        )
  ]

  Provided-mono : (d e : Dict String) (l : Lease) → Extends d e → Provided d l → Provided e l
  Provided-mono d e l x (inl dropped) = inl dropped
  Provided-mono d e l x (inr (vars, t, h)) = inr (vars, t, All-Has d e vars x h)

  add_lease-Provided :
      (l : Lease) (env : Dict String) {env' : Dict String}
      → add_lease b env l ≡ ok env'
      → Extends env env' × Provided env' l
  add_lease-Provided l env h = elim (add_lease_lem l env h) [
    | inl (same, dropped) ↦ (λ k v e. ground (arith, same, e), inl dropped)
    | inr (vars, t, h') ↦ let (grows, all) = add_vars_lem vars env h' in (grows, inr (vars, t, all))
  ]

  add_leases-Provided :
      (ls : List Lease) (env : Dict String) {env' : Dict String}
      → add_leases b env ls ≡ ok env'
      → Extends env env' × All (Provided env') ls
  unfolding add_leases
  add_leases-Provided [] env h = (λ k v e. ground arith, tt)
  add_leases-Provided (l ∷ ls) env {env'} h =
      let (mid, first, rest) = and_then-ok (add_lease b env l) _ h in
      let (grows, has) = add_lease-Provided l env first in
      let (grows', all) = add_leases-Provided ls mid rest in
      (λ k v e. grows' k v (grows k v e), (Provided-mono mid env' l grows' has, all))

  add_leases-from :
      (ls : List Lease) (env : Dict String) {env' : Dict String} (k v : String)
      → add_leases b env ls ≡ ok env'
      → Dict.get env' k ≡ some v
      → (Dict.get env k ≡ some v) ⊎ Sets ls k v
  unfolding add_leases
  add_leases-from [] env k v h found = inl (ground arith)
  add_leases-from (l ∷ ls) env k v h found =
      let (mid, first, rest) = and_then-ok (add_lease b env l) _ h in
      elim (add_leases-from ls mid k v rest found) [
        | inr later ↦ inr (inr later)
        | inl here ↦ elim (add_lease_lem l env first) [
          | inl (same, _) ↦ inl (ground (arith, same, here))
          | inr (vars, t, h') ↦ elim (add_vars-from vars env k v h' here) [
            | inl before ↦ inl before
            | inr entry ↦ inr (inl (vars, t, entry))
          ]
        ]
      ]

  -- If `container_env` returns an environment, every lease with a credential has each of its variables
  -- in it, with its own value, so no lease overwrites another; and every variable of the environment
  -- comes, with its value, from the credential of one of the leases.
  pub container_env_exact :
      (ls : List Lease) (env : Dict String)
      → container_env b ls ≡ ok env
      → All (Provided env) ls × ((k v : String) → Dict.get env k ≡ some v → Sets ls k v)
  unfolding container_env
  container_env_exact ls env h = (
    (add_leases-Provided ls [] h).1,
    λ k v found. elim (add_leases-from ls [] k v h found) [
      | inl e ↦ absurd (unfold Dict.get in cc e)
      | inr from ↦ from
    ],
  )
