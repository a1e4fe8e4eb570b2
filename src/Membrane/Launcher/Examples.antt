-- ===== src/Membrane/Launcher/Examples.antt =====
-- A project with one directory, launched with a proxy, and sealed.
use kagura_agent.Prelude.{ℕ, ◌≡◌, ◌≢◌, refl, true, false, none, some, List, [], ◌∷◌, ok, raised}
use kagura_agent.Prelude.Text.{codes}
use kagura_agent.Membrane.Egress.{Host, has_char, make_policy}
use kagura_agent.Membrane.Launcher.{
  LaunchSpec, FileSystem, FileType, socket, ordinary, Entry, dangerous, socket_inside, is_one_of,
  validate_spec, subtree_special_file_reason,
}
use kagura_agent.Membrane.Launcher.Subtree.{subtree_special_file_reason-returns}
use kagura_agent.Membrane.Launcher.Args.{
  Deployment, docker_run_args, egress_proxy_endpoint, network_args, hardening,
}
use kagura_agent.Membrane.Launcher.Accepted.{AllAccepted, validate_spec-Accepted}
use kagura_agent.Membrane.Launcher.Routed.{last_env, docker_run_args-Routed}
use kagura_agent.Membrane.Launcher.Words.{IsBare, allowed_words}

abbrev file_of : FileType → Entry
file_of t = record { path = codes "/w/a"; is_symlink = false; mode = some t; is_dir = false }

-- Each directory holds itself and one more file.
abbrev files : FileType → FileSystem
files t = record {
  realpath = some;
  stat = λ _. some ordinary;
  is_dir = λ _. true;
  scandir = λ _. (file_of t ∷ [], false);
}

abbrev looping : FileSystem
looping = record {
  realpath = some;
  stat = λ _. some ordinary;
  is_dir = λ _. true;
  scandir = λ d.
      (record { path = d; is_symlink = false; mode = some ordinary; is_dir = true } ∷ [], false);
}

abbrev launch : List Host → LaunchSpec
launch hosts = record {
  image = codes "agent";
  mounts = record { source = codes "/w/src"; target = codes "/workspace"; read_only = true } ∷ [];
  egress_allow = hosts;
  env = (codes "HTTP_PROXY", codes "http://evil") ∷ [];
}

abbrev granted : LaunchSpec
granted = launch (codes "api.example" ∷ [])

abbrev deployment : Deployment
deployment = record { seccomp = none; proxy = none; bundled_profile = codes "/s.json" }

accepted : validate_spec (files ordinary) (codes "/w") granted ≡ ok granted
unfolding validate_spec make_policy
accepted = refl

socket_found : validate_spec (files socket) (codes "/w") granted ≡ raised (dangerous socket_inside)
unfolding validate_spec make_policy
socket_found = refl

subtree_special_file_reason-returns_example :
    subtree_special_file_reason looping (codes "/w") ≢ none
subtree_special_file_reason-returns_example =
    subtree_special_file_reason-returns looping (codes "/w")

validate_spec-Accepted_example :
    AllAccepted (files ordinary) (codes "/w") granted.mounts granted.mounts
    × ((hosts : List Host) × (make_policy granted.egress_allow ≡ ok hosts))
    × (granted ≡ record granted { mounts = granted.mounts })
validate_spec-Accepted_example =
    validate_spec-Accepted (files ordinary) (codes "/w") granted granted accepted

abbrev arguments : LaunchSpec → List (List ℕ)
arguments spec = elim (docker_run_args deployment spec) [ ok args ↦ args | raised _ ↦ [] ]

granted_arguments : docker_run_args deployment granted ≡ ok (arguments granted)
unfolding docker_run_args make_policy
granted_arguments = refl

docker_run_args-Routed_example :
    (last_env (codes "HTTP_PROXY") (arguments granted) ≡ some (egress_proxy_endpoint deployment))
    × (last_env (codes "HTTPS_PROXY") (arguments granted) ≡ some (egress_proxy_endpoint deployment))
    × (last_env (codes "http_proxy") (arguments granted) ≡ some (egress_proxy_endpoint deployment))
    × (last_env (codes "https_proxy") (arguments granted) ≡ some (egress_proxy_endpoint deployment))
docker_run_args-Routed_example =
    docker_run_args-Routed deployment granted (codes "api.example") [] (arguments granted) refl
      granted_arguments

sealed_arguments : docker_run_args deployment (launch []) ≡ ok (arguments (launch []))
unfolding docker_run_args
sealed_arguments = refl

host-IsBare : IsBare (codes "agent-egress")
unfolding has_char
host-IsBare = (refl, refl)

host_refused : is_one_of (codes "agent-egress") (allowed_words (launch [])) ≡ false
unfolding is_one_of hardening network_args
host_refused = refl
