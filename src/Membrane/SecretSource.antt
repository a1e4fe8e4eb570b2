-- ===== src/Membrane/SecretSource.antt =====
-- membrane/secret_source.py: where the value behind a reference to a secret comes from. The environment, the
-- files and the keychain are parameters; `none` stands for an exception, and the keychain may raise a
-- SecretSourceError of its own. A field's name but for its suffix stands only in messages.
pub mod Nonblank
mod Examples
use Prim.Native.Char.{Char, code}
use kagura_agent.Prelude.{
  String, Bool, true, false, ◌||◌, Option, none, some, List, [], ◌∷◌, ◌==◌, eqb, if◌then◌else◌,
  Result, ok, raised, bind,
}
use kagura_agent.Prelude.Dict
use kagura_agent.Prelude.Dict.{Dict}
use kagura_agent.Prelude.Text.{strip, is_empty, split_at}
use kagura_agent.Membrane.Registry.{secret_suffixes}

pub data SecretSourceError : Type 0 where
  unset unreadable bad_keyring_reference no_source no_extra : SecretSourceError

pub record Backends : Type 0 where
  pub get_env : String → Option (Option String)
  pub read_file : String → Option String
  pub get_password : String → String → Result (Option SecretSourceError) (Option String)

unfoldable pub require_nonblank : Option String → Result SecretSourceError String
unfolding strip is_empty
require_nonblank none = raised unset
require_nonblank (some value) = if is_empty (strip value) then raised unset else ok value

unfoldable pub resolve_env : Backends → String → Result SecretSourceError String
unfolding require_nonblank
resolve_env b ref = elim (b.get_env ref) [
  | none ↦ raised unreadable
  | some value ↦ require_nonblank value
]

-- one step of `rstrip("\r\n")`, from the right end
unfoldable pub drop_line_end : Char → String → String
drop_line_end c String.[] = if eqb (code c) 10 || eqb (code c) 13 then "" else String.◌∷◌ c ""
drop_line_end c (String.◌∷◌ d s) = String.◌∷◌ c (String.◌∷◌ d s)

unfoldable pub drop_line_ends : String → String
unfolding drop_line_end
drop_line_ends String.[] = ""
drop_line_ends (String.◌∷◌ c s) = drop_line_end c (drop_line_ends s)

unfoldable pub resolve_file : Backends → String → Result SecretSourceError String
unfolding require_nonblank drop_line_ends
resolve_file b ref = elim (b.read_file ref) [
  | none ↦ raised unreadable
  | some contents ↦ require_nonblank (some (drop_line_ends contents))
]

unfoldable pub password_found :
    Result (Option SecretSourceError) (Option String) → Result SecretSourceError String
unfolding require_nonblank
password_found (ok value) = require_nonblank value
password_found (raised (some e)) = raised e
password_found (raised none) = raised unreadable

unfoldable pub resolve_keyring : Backends → String → Result SecretSourceError String
unfolding split_at strip is_empty password_found
resolve_keyring b ref = elim (split_at 47 ref) [
  | none ↦ raised bad_keyring_reference
  | some (service, username) ↦
      if is_empty (strip service) || is_empty (strip username)
      then raised bad_keyring_reference
      else password_found (b.get_password (strip service) (strip username))
]

abbrev pub Sources : Type 0
Sources = Dict (String → Result SecretSourceError String)

unfoldable pub default_sources : Backends → Sources
unfolding resolve_env resolve_file resolve_keyring
default_sources b =
    ("_env", resolve_env b) ∷ ("_file", resolve_file b) ∷ ("_keyring", resolve_keyring b) ∷ []

-- `s.endswith(t)`
unfoldable pub ends_in : String → String → Bool
ends_in String.[] t = String.[] == t
ends_in (String.◌∷◌ c s) t = String.◌∷◌ c s == t || ends_in s t

unfoldable pub first_suffix : List String → String → Option String
unfolding ends_in
first_suffix [] field = none
first_suffix (suffix ∷ more) field =
    let rest = first_suffix more field in if ends_in field suffix then some suffix else rest

unfoldable pub suffix_of : String → Option String
unfolding first_suffix
suffix_of field = first_suffix secret_suffixes field

unfoldable pub resolve_ref : String → String → Sources → Result SecretSourceError String
unfolding suffix_of
resolve_ref field ref sources = elim (suffix_of field) [
  | none ↦ raised no_source
  | some suffix ↦ elim (Dict.get sources suffix) [
    | none ↦ raised no_source
    | some resolve ↦ resolve ref
  ]
]

unfoldable pub resolve_secret_field : Backends → String → String → Result SecretSourceError String
unfolding resolve_ref default_sources
resolve_secret_field b field ref = resolve_ref field ref (default_sources b)
