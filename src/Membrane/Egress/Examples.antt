-- ===== src/Membrane/Egress/Examples.antt =====
-- Two hosts through the label, and entries that are refused.
use kagura_agent.Prelude.{◌≡◌, refl, some, [], ◌∷◌, List, ok, raised}
use kagura_agent.Prelude.Text.{codes}
use kagura_agent.Membrane.Egress.{
  Host, not_plain, make_policy, allows_host, normalize_host, policy_from_label, as_label,
}
use kagura_agent.Membrane.Egress.Label.{label-allows}

abbrev hosts : List Host
hosts = codes "pypi.org" ∷ codes "api.github.com" ∷ []

normalized : normalize_host (codes " API.GitHub.com:443 ") ≡ codes "api.github.com"
unfolding normalize_host
normalized = refl

made : make_policy (codes "pypi.org" ∷ codes "API.github.com:443" ∷ []) ≡ ok hosts
unfolding make_policy
made = refl

wildcard : make_policy (codes "[*.github.com]" ∷ []) ≡ raised not_plain
unfolding make_policy
wildcard = refl

twice_normalized : make_policy (codes "[a:b]" ∷ []) ≡ raised not_plain
unfolding make_policy
twice_normalized = refl

labelled : as_label hosts ≡ codes "api.github.com,pypi.org"
unfolding as_label
labelled = refl

label-allows_example :
    allows_host (policy_from_label (some (as_label hosts))) (codes "pypi.org")
    ≡ allows_host hosts (codes "pypi.org")
label-allows_example =
    label-allows (codes "pypi.org" ∷ codes "API.github.com:443" ∷ []) hosts (codes "pypi.org") made
