-- ===== src/Membrane/Launcher/Args.antt =====
-- membrane/launcher.py, `docker_run_args`: the arguments of `docker run`. The variables of the environment
-- are `none` where they are not set.
use kagura_agent.Prelude.{
  ℕ, Option, none, some, List, [], ◌∷◌, ◌++◌, map, if◌then◌else◌, Result, ok, raised, bind,
}
use kagura_agent.Prelude.Text.{codes, lower, eq_codes}
use kagura_agent.Membrane.Egress.{Host, strip_host, is_nil, as_label}
use kagura_agent.Membrane.Launcher.{
  Mount, LaunchSpec, MembraneViolation, unconfined_seccomp, from_spec,
}

-- What the process has set: `KAGURA_SECCOMP_PROFILE`, `KAGURA_EGRESS_PROXY`, and where the package keeps
-- its profile.
pub record Deployment : Type 0 where
  pub seccomp : Option (List ℕ)
  pub proxy : Option (List ℕ)
  pub bundled_profile : List ℕ

-- `os.environ.get(key, "").strip() or default`
unfoldable pub override : Option (List ℕ) → List ℕ → List ℕ
unfolding strip_host is_nil
override none d = d
override (some s) d = if is_nil (strip_host s) then d else strip_host s

unfoldable pub seccomp_profile : Deployment → Result MembraneViolation (List ℕ)
unfolding override strip_host eq_codes lower
seccomp_profile dep =
    let profile = override dep.seccomp dep.bundled_profile in
    if eq_codes (lower (strip_host profile)) (codes "unconfined")
    then raised unconfined_seccomp
    else ok profile

unfoldable pub hardening : List (List ℕ)
hardening = map codes (
    "--user" ∷ "1000:1000" ∷ "--cap-drop" ∷ "ALL" ∷ "--security-opt" ∷ "no-new-privileges"
    ∷ "--read-only" ∷ "--tmpfs" ∷ "/tmp" ∷ "--pids-limit" ∷ "512" ∷ "--memory" ∷ "2g" ∷ "--cpus"
    ∷ "2" ∷ [])

unfoldable pub network_args : LaunchSpec → List (List ℕ)
network_args spec = elim spec.egress_allow [
  | [] ↦ codes "--network" ∷ codes "none" ∷ []
  | _ ∷ _ ↦ codes "--network" ∷ codes "agent-egress" ∷ []
]

unfoldable pub egress_proxy_endpoint : Deployment → List ℕ
unfolding override
egress_proxy_endpoint dep = override dep.proxy (codes "http://egress-proxy:3128")

-- `-e key=value`
unfoldable pub env_arg : List ℕ → List ℕ → List (List ℕ)
env_arg key value = codes "-e" ∷ (key ++ 61 ∷ value) ∷ []

unfoldable pub env_args : List (List ℕ × List ℕ) → List (List ℕ)
unfolding env_arg
env_args [] = []
env_args ((key, value) ∷ env) = env_arg key value ++ env_args env

-- the arguments for a policy and an endpoint
unfoldable pub enforcement : List Host → List ℕ → List (List ℕ)
unfolding env_arg as_label
enforcement hosts endpoint =
    (codes "--label" ∷ (codes "kagura.egress-allow=" ++ as_label hosts) ∷ [])
    ++ (env_arg (codes "HTTP_PROXY") endpoint
        ++ (env_arg (codes "HTTPS_PROXY") endpoint
            ++ (env_arg (codes "http_proxy") endpoint
                ++ (env_arg (codes "https_proxy") endpoint
                    ++ (env_arg (codes "NO_PROXY") (codes "localhost,127.0.0.1")
                        ++ env_arg (codes "no_proxy") (codes "localhost,127.0.0.1"))))))

unfoldable pub egress_enforcement_args :
    Deployment → LaunchSpec → Result MembraneViolation (List (List ℕ))
unfolding from_spec enforcement egress_proxy_endpoint
egress_enforcement_args dep spec = elim spec.egress_allow [
  | [] ↦ ok []
  | _ ∷ _ ↦ bind (from_spec spec) λ hosts. ok (enforcement hosts (egress_proxy_endpoint dep))
]

unfoldable pub mount_arg : Mount → List ℕ
mount_arg m = m.source ++ 58 ∷ (m.target ++ (if m.read_only then codes ":ro" else []))

unfoldable pub mount_args : List Mount → List (List ℕ)
unfolding mount_arg
mount_args [] = []
mount_args (m ∷ ms) = codes "-v" ∷ mount_arg m ∷ mount_args ms

-- the arguments up to those of the egress enforcement
unfoldable pub run_options : List ℕ → LaunchSpec → List (List ℕ)
unfolding hardening network_args mount_args env_args
run_options profile spec =
    map codes ("docker" ∷ "run" ∷ "--rm" ∷ "--label" ∷ "kagura-agent" ∷ [])
    ++ (hardening
        ++ ((codes "--security-opt" ∷ (codes "seccomp=" ++ profile) ∷ [])
            ++ (network_args spec ++ (mount_args spec.mounts ++ env_args spec.env))))

unfoldable pub docker_run_args : Deployment → LaunchSpec → Result MembraneViolation (List (List ℕ))
unfolding seccomp_profile run_options egress_enforcement_args
docker_run_args dep spec = bind (seccomp_profile dep) λ profile.
    bind (egress_enforcement_args dep spec)
      λ enforced. ok (run_options profile spec ++ (enforced ++ codes "--" ∷ spec.image ∷ []))
