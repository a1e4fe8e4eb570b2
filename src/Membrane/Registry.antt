-- ===== src/Membrane/Registry.antt =====
-- membrane/registry.py: the operator's table of providers, validated into `ProviderSpec`s that hold
-- references to secrets and never a secret.
-- A value of the table is a text, a Boolean, absent as `None`, or any other value, of which the code
-- only asks its truth. A provider's table is `none` where the value is no mapping. Each `ValueError`
-- has a constructor of its own. Sets of field names are lists.
pub mod Accepted
mod Examples
use Prim.Native.String.{◌++◌ as append}
use kagura_agent.Prelude.{
  ℕ, String, Bool, true, false, not, ◌&&◌, ◌||◌, Option, none, some, List, [], ◌∷◌, ◌++◌, map, ◌==◌,
  leb, eqb, if◌then◌else◌, Result, ok, raised, bind,
}
use kagura_agent.Prelude.Dict
use kagura_agent.Prelude.Dict.{Dict}
use kagura_agent.Prelude.Text.{codes, strip, is_empty, member}

pub data Value : Type 0 where
  null : Value
  text : String → Value
  boolean : Bool → Value
  other : Bool → Value

pub data ValueError : Type 0 where
  empty_name invalid_name no_table missing_kind unknown_kind inline_secret unknown_field :
      ValueError
  missing_field empty_field bad_consent ambiguous_secret bad_reference missing_secret : ValueError

pub record SecretRef : Type 0 where
  pub name : String
  pub required : Bool
  pub suffixes : List String

pub record FieldSchema : Type 0 where
  pub required : List String
  pub optional : List String
  pub secrets : List SecretRef

abbrev pub secret_suffixes : List String
secret_suffixes = "_env" ∷ "_file" ∷ "_keyring" ∷ []

-- a secret that every backend may hold
abbrev pub secret : String → Bool → SecretRef
secret name required = record { name = name; required = required; suffixes = secret_suffixes }

abbrev pub fields_of : List String → List String → SecretRef → FieldSchema
fields_of required optional ref = record {
  required = required;
  optional = optional;
  secrets = ref ∷ [];
}

unfoldable pub kind_schema : String → Option FieldSchema
kind_schema kind =
    if kind == "aws_sts"
    then some
        (fields_of ("role_arn" ∷ []) ("region" ∷ "session_name" ∷ []) (secret "parent_token" false))
    else if kind == "gcp_impersonation"
    then some (
        fields_of ("service_account" ∷ []) ("token_lifetime" ∷ "delegates" ∷ [])
          (secret "parent_token" false))
    else if kind == "github_app"
    then some (fields_of ("app_id" ∷ "installation_id" ∷ []) [] (secret "private_key" true))
    else if kind == "cloudflare"
    then some (fields_of ("account_id" ∷ []) ("zone_id" ∷ []) (secret "parent_token" true))
    else if kind == "memory_cloud"
    then some (fields_of [] ("base_url" ∷ "context_id" ∷ []) (secret "parent_token" true))
    else if kind == "static_env"
    then some (
        fields_of [] ("standing_secret" ∷ [])
          (record { name = "value"; required = true; suffixes = "_env" ∷ [] }))
    else none

abbrev pub bare_secret_denylist : List String
bare_secret_denylist =
    "parent_token" ∷ "private_key" ∷ "api_key" ∷ "api_secret" ∷ "api_token" ∷ "auth_token"
    ∷ "refresh_token" ∷ "oauth_token" ∷ "access_token" ∷ "bearer_token" ∷ "bot_token" ∷ "token"
    ∷ "secret" ∷ "secret_key" ∷ "service_key" ∷ "signing_secret" ∷ "webhook_secret"
    ∷ "client_secret" ∷ "password" ∷ "passwd" ∷ []

unfoldable pub is_letter : ℕ → Bool
is_letter c = (leb 65 c && leb c 90) || (leb 97 c && leb c 122)

unfoldable pub is_digit : ℕ → Bool
is_digit c = leb 48 c && leb c 57

-- `[A-Za-z0-9._-]`
unfoldable pub is_name_char : ℕ → Bool
unfolding is_letter is_digit
is_name_char c = is_letter c || is_digit c || eqb c 46 || eqb c 95 || eqb c 45

-- `[A-Za-z0-9._-]*$`: the `$` of `re.match` also stands before a line feed that ends the text.
unfoldable pub name_rest : List ℕ → Bool
unfolding is_name_char
name_rest [] = true
name_rest (c ∷ []) = is_name_char c || eqb c 10
name_rest (c ∷ d ∷ cs) = is_name_char c && name_rest (d ∷ cs)

-- `_PROVIDER_NAME_RE.match(name)`
unfoldable pub is_provider_name : List ℕ → Bool
unfolding name_rest is_name_char
is_provider_name [] = false
is_provider_name (c ∷ cs) = is_name_char c && name_rest cs

unfoldable pub env_rest : List ℕ → Bool
unfolding is_letter is_digit
env_rest [] = true
env_rest (c ∷ cs) = (is_letter c || is_digit c || eqb c 95) && env_rest cs

-- `_ENV_NAME_RE.fullmatch(val)`
unfoldable pub is_env_name : List ℕ → Bool
unfolding is_letter env_rest
is_env_name [] = false
is_env_name (c ∷ cs) = (is_letter c || eqb c 95) && env_rest cs

abbrev pub Table : Type 0
Table = Dict Value

unfoldable pub has_field : Table → String → Bool
has_field d k = elim (Dict.get d k) [ none ↦ false | some _ ↦ true ]

unfoldable pub present_of : String → List String → Table → List String
unfolding has_field
present_of name [] fields = []
present_of name (suf ∷ rest) fields =
    let others = present_of name rest fields in
    if has_field fields (append name suf) then suf ∷ others else others

-- `present_suffix_field`: the suffixes whose field is set
unfoldable pub present_suffix_field : SecretRef → Table → List String
unfolding present_of
present_suffix_field ref fields = present_of ref.name ref.suffixes fields

pub record ProviderSpec : Type 0 where
  pub name : String
  pub kind : String
  pub fields : Table

abbrev pub secret_names : List SecretRef → List String
secret_names = map (λ ref. ref.name)

abbrev pub ref_keys : List SecretRef → List String
ref_keys [] = []
ref_keys (ref ∷ refs) = map (append ref.name) ref.suffixes ++ ref_keys refs

abbrev pub allowed : FieldSchema → List String
allowed schema = schema.required ++ schema.optional ++ ref_keys schema.secrets ++ "kind" ∷ []

unfoldable pub check : Bool → ValueError → Result ValueError (Unit {0})
check true e = ok tt
check false e = raised e

unfoldable pub check_key : FieldSchema → String → Result ValueError (Unit {0})
unfolding member
check_key schema key =
    if member key (secret_names schema.secrets)
    then raised inline_secret
    else if member key bare_secret_denylist
    then raised inline_secret
    else if member key (allowed schema)
    then ok tt
    else raised unknown_field

-- the loop over the items of the table
unfoldable pub copy_fields : FieldSchema → Table → Result ValueError Table
unfolding check_key
copy_fields schema [] = ok []
copy_fields schema ((key, value) ∷ table) =
    let rest = copy_fields schema table in
    if key == "kind"
    then rest
    else bind (check_key schema key) λ _. bind rest λ fields. ok ((key, value) ∷ fields)

unfoldable pub all_present : List String → Table → Bool
unfolding has_field
all_present [] fields = true
all_present (k ∷ ks) fields = has_field fields k && all_present ks fields

unfoldable pub is_blank : Option Value → Bool
unfolding strip is_empty
is_blank none = true
is_blank (some null) = true
is_blank (some (text s)) = is_empty (strip s)
is_blank (some (boolean b)) = not b
is_blank (some (other t)) = not t

unfoldable pub none_blank : List String → Table → Bool
unfolding is_blank
none_blank [] fields = true
none_blank (k ∷ ks) fields = not (is_blank (Dict.get fields k)) && none_blank ks fields

unfoldable pub consent_ok : Option Value → Bool
consent_ok none = true
consent_ok (some null) = true
consent_ok (some (boolean b)) = true
consent_ok (some _) = false

unfoldable pub reference_ok : String → Option Value → Bool
unfolding is_env_name strip is_empty
reference_ok suf (some (text s)) =
    if suf == "_env" then is_env_name (codes s) else not (is_empty (strip s))
reference_ok suf _ = false

-- one turn of the loop over the secrets, for the suffixes that are present
unfoldable pub check_present : SecretRef → Table → List String → Result ValueError (Unit {0})
unfolding check reference_ok
check_present ref fields [] = check (not ref.required) missing_secret
check_present ref fields (suf ∷ []) =
    check (reference_ok suf (Dict.get fields (append ref.name suf))) bad_reference
check_present ref fields (_ ∷ _ ∷ _) = raised ambiguous_secret

unfoldable pub check_secrets : List SecretRef → Table → Result ValueError (Unit {0})
unfolding check_present present_suffix_field
check_secrets [] fields = ok tt
check_secrets (ref ∷ refs) fields =
    let rest = check_secrets refs fields in
    bind (check_present ref fields (present_suffix_field ref fields)) λ _. rest

-- `_parse_one` once the schema of the kind is known
unfoldable pub parse_as : FieldSchema → String → String → Table → Result ValueError ProviderSpec
unfolding copy_fields check all_present none_blank consent_ok check_secrets
parse_as schema name kind table = bind (copy_fields schema table) λ fields.
    bind (check (all_present schema.required fields) missing_field) λ _.
      bind (check (none_blank schema.required fields) empty_field) λ _.
        bind (check (consent_ok (Dict.get fields "standing_secret")) bad_consent) λ _.
          bind (check_secrets schema.secrets fields)
            λ _. ok (record { name = name; kind = kind; fields = fields })

unfoldable pub parse_kind : String → Table → Option Value → Result ValueError ProviderSpec
unfolding kind_schema parse_as
parse_kind name table none = raised missing_kind
parse_kind name table (some null) = raised missing_kind
parse_kind name table (some (text kind)) = elim (kind_schema kind) [
  | none ↦ raised unknown_kind
  | some schema ↦ parse_as schema name kind table
]
parse_kind name table (some _) = raised unknown_kind

unfoldable pub parse_one : String → Option Table → Result ValueError ProviderSpec
unfolding check is_provider_name strip is_empty parse_kind
parse_one name table = bind (check (not (is_empty (strip name))) empty_name) λ _.
    bind (check (is_provider_name (codes name)) invalid_name)
      λ _. elim table [ none ↦ raised no_table | some t ↦ parse_kind name t (Dict.get t "kind") ]

unfoldable pub parse_registry : Dict (Option Table) → Result ValueError (List ProviderSpec)
unfolding parse_one
parse_registry [] = ok []
parse_registry ((name, table) ∷ rest) =
    let others = parse_registry rest in
    bind (parse_one name table) λ spec. bind others λ specs. ok (spec ∷ specs)
