-- ===== src/Membrane/Launcher/Routed.antt =====
-- What the arguments of `docker run` say of the proxy and of the confinement.
use kagura_agent.Prelude.{
  ℕ, ◌≡◌, refl, sym, ◌∙◌, subst, Option, none, some, List, [], ◌∷◌, ◌++◌, eqb, if◌then◌else◌, ok,
  ok_inj, bind_rule, inl, inr, ◌⊎◌,
}
use kagura_agent.Prelude.Text.{codes, eq_codes}
use kagura_agent.Membrane.Egress.{Host}
use kagura_agent.Membrane.Launcher.{LaunchSpec, from_spec}
use kagura_agent.Membrane.Launcher.Args.{
  run_options, Deployment, seccomp_profile, egress_proxy_endpoint, env_arg, enforcement,
  egress_enforcement_args, docker_run_args,
}

pub List-cases : {A : Type 0} (l : List A) → (l ≡ []) ⊎ ((x : A) × (xs : List A) × (l ≡ x ∷ xs))
List-cases [] = inl refl
List-cases (x ∷ xs) = inr (x, xs, refl)

-- what follows the prefix
unfoldable pub after : List ℕ → List ℕ → Option (List ℕ)
after [] s = some s
after (a ∷ p) [] = none
after (a ∷ p) (b ∷ s) = if eqb a b then after p s else none

-- The value that two neighbouring arguments give to the variable.
unfoldable pub env_value : List ℕ → List ℕ → List ℕ → Option (List ℕ)
unfolding after eq_codes
env_value key a b = if eq_codes a (codes "-e") then after (key ++ 61 ∷ []) b else none

-- The value of the variable in the last `-e` that sets it.
unfoldable pub last_env : List ℕ → List (List ℕ) → Option (List ℕ)
unfolding env_value
last_env key [] = none
last_env key (a ∷ []) = none
last_env key (a ∷ b ∷ l) = elim (last_env key (b ∷ l)) [
  | some v ↦ some v
  | none ↦ env_value key a b
]

last_env-cons :
    (key a v : List ℕ) (l : List (List ℕ)) → last_env key l ≡ some v → last_env key (a ∷ l) ≡ some v
unfolding last_env
last_env-cons key a v [] h = absurd (cc h)
last_env-cons key a v (b ∷ l) h = rw h refl

last_env-append :
    (key v : List ℕ) (xs ys : List (List ℕ))
    → last_env key ys ≡ some v
    → last_env key (xs ++ ys) ≡ some v
last_env-append key v [] ys h = h
last_env-append key v (x ∷ xs) ys h =
    last_env-cons key x v (xs ++ ys) (last_env-append key v xs ys h)

abbrev tail : List Host → List ℕ → List ℕ → List (List ℕ)
tail hosts endpoint image = enforcement hosts endpoint ++ codes "--" ∷ image ∷ []

-- The proxy variables in the two spellings that programs read.
abbrev IsRouted : List ℕ → List (List ℕ) → Type 0
IsRouted endpoint args =
    (last_env (codes "HTTP_PROXY") args ≡ some endpoint)
    × (last_env (codes "HTTPS_PROXY") args ≡ some endpoint)
    × (last_env (codes "http_proxy") args ≡ some endpoint)
    × (last_env (codes "https_proxy") args ≡ some endpoint)

tail-IsRouted :
    (hosts : List Host) (endpoint image : List ℕ) → IsRouted endpoint (tail hosts endpoint image)
unfolding last_env enforcement env_arg after env_value
tail-IsRouted hosts endpoint image = (refl, refl, refl, refl)

append-IsRouted :
    (endpoint : List ℕ) (xs ys : List (List ℕ))
    → IsRouted endpoint ys
    → IsRouted endpoint (xs ++ ys)
append-IsRouted endpoint xs ys (a, b, c, d) = (
  last_env-append _ endpoint xs ys a,
  last_env-append _ endpoint xs ys b,
  last_env-append _ endpoint xs ys c,
  last_env-append _ endpoint xs ys d,
)

when_sealed : {A : Type 0} (a b : A) (l : List Host) → l ≡ [] → elim l [ [] ↦ a | _ ∷ _ ↦ b ] ≡ a
when_sealed a b l e = subst (λ k. elim k [ [] ↦ a | _ ∷ _ ↦ b ] ≡ a) (sym e) refl

when_granted :
    {A : Type 0} (a b : A) {h : Host} {hs : List Host} (l : List Host)
    → l ≡ h ∷ hs
    → elim l [ [] ↦ a | _ ∷ _ ↦ b ] ≡ b
when_granted a b l e = subst (λ k. elim k [ [] ↦ a | _ ∷ _ ↦ b ] ≡ b) (sym e) refl

-- A sealed launch has no enforcement.
pub sealed_enforcement :
    (dep : Deployment) (spec : LaunchSpec) (enforced : List (List ℕ))
    → spec.egress_allow ≡ []
    → egress_enforcement_args dep spec ≡ ok enforced
    → enforced ≡ []
unfolding egress_enforcement_args
sealed_enforcement dep spec enforced e made =
    sym (ok_inj (sym (when_sealed (ok []) _ spec.egress_allow e) ∙ made))

-- The enforcement of a granted launch is that of a policy.
pub granted_enforcement :
    (dep : Deployment) (spec : LaunchSpec) (h : Host) (hs : List Host) (enforced : List (List ℕ))
    → spec.egress_allow ≡ h ∷ hs
    → egress_enforcement_args dep spec ≡ ok enforced
    → (hosts : List Host) × (enforcement hosts (egress_proxy_endpoint dep) ≡ enforced)
unfolding egress_enforcement_args
granted_enforcement dep spec h hs enforced granted made =
    bind_rule (from_spec spec) _ (λ hosts e same. (hosts, ok_inj same))
      (sym (when_granted (ok []) _ spec.egress_allow granted) ∙ made)

-- If egress is granted and the arguments are made, then the last `-e` of each proxy variable carries
-- the proxy's endpoint, whatever the environment of the spec sets.
pub docker_run_args-Routed :
    (dep : Deployment) (spec : LaunchSpec) (h : Host) (hs : List Host) (args : List (List ℕ))
    → spec.egress_allow ≡ h ∷ hs
    → docker_run_args dep spec ≡ ok args
    → (last_env (codes "HTTP_PROXY") args ≡ some (egress_proxy_endpoint dep))
      × (last_env (codes "HTTPS_PROXY") args ≡ some (egress_proxy_endpoint dep))
      × (last_env (codes "http_proxy") args ≡ some (egress_proxy_endpoint dep))
      × (last_env (codes "https_proxy") args ≡ some (egress_proxy_endpoint dep))
unfolding docker_run_args
docker_run_args-Routed dep spec h hs args granted made =
    bind_rule (seccomp_profile dep) _
      (λ profile e. bind_rule (egress_enforcement_args dep spec) _ (λ enforced d same.
        let endpoint = egress_proxy_endpoint dep in
        let (hosts, is_made) = granted_enforcement dep spec h hs enforced granted d in
        let routed : IsRouted endpoint (enforced ++ codes "--" ∷ spec.image ∷ []) =
          subst (λ l. IsRouted endpoint (l ++ codes "--" ∷ spec.image ∷ [])) is_made
            (tail-IsRouted hosts endpoint spec.image) in
        subst (IsRouted endpoint) (ok_inj same) (
          append-IsRouted endpoint (run_options profile spec)
            (enforced ++ codes "--" ∷ spec.image ∷ []) routed)))
      made
