-- ===== src/Membrane/Registry/Examples.antt =====
-- A registry with one provider for Cloudflare, accepted, and tables that are refused.
use kagura_agent.Prelude.{◌≡◌, refl, true, Option, some, List, [], ◌∷◌, ok, raised}
use kagura_agent.Prelude.Dict
use kagura_agent.Prelude.Dict.{Dict}
use kagura_agent.Prelude.Text.{codes}
use kagura_agent.Membrane.Registry.{
  text, Table, ProviderSpec, inline_secret, parse_one, parse_registry, is_provider_name,
}
use kagura_agent.Membrane.Registry.Accepted.{Accepted, parse_registry-Accepted}

abbrev fields : Table
fields = ("account_id", text "a1") ∷ ("parent_token_env", text "CF_TOKEN") ∷ []

abbrev cloudflare : Table
cloudflare = ("kind", text "cloudflare") ∷ fields

abbrev providers : Dict (Option Table)
providers = ("cf", some cloudflare) ∷ []

abbrev specs : List ProviderSpec
specs = record { name = "cf"; kind = "cloudflare"; fields = fields } ∷ []

accepted : parse_registry providers ≡ ok specs
unfolding parse_registry Dict.get
accepted = refl

parse_registry-Accepted_example : Accepted providers specs
parse_registry-Accepted_example = parse_registry-Accepted providers specs accepted

pasted :
    parse_one "cf" (some (("kind", text "cloudflare") ∷ ("parent_token", text "s3cr3t") ∷ []))
    ≡ raised inline_secret
unfolding parse_one Dict.get
pasted = refl

-- A name that ends with a line feed passes the test of the name.
line_feed : is_provider_name (codes "cf\n") ≡ true
unfolding is_provider_name
line_feed = refl
