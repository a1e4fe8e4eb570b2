-- ===== src/Membrane/SecretSource/Examples.antt =====
-- A host with one variable, one file and one password.
use kagura_agent.Prelude.{String, ◌≡◌, refl, Option, none, some, Result, ok, raised}
use kagura_agent.Membrane.SecretSource.{
  unset, bad_keyring_reference, Backends, resolve_secret_field,
}
use kagura_agent.Membrane.SecretSource.Nonblank.{
  GivenBy, IsNonblank, resolve_secret_field-IsNonblank,
}

abbrev backends : Backends
backends = record {
  get_env = λ ref. some (some "  ");
  read_file = λ ref. some "key\r\n";
  get_password = λ service username. ok (some service);
}

from_file : resolve_secret_field backends "parent_token_file" "/run/key" ≡ ok "key"
unfolding resolve_secret_field kagura_agent.Prelude.Dict.get
from_file = refl

blank_variable : resolve_secret_field backends "parent_token_env" "TOKEN" ≡ raised unset
unfolding resolve_secret_field kagura_agent.Prelude.Dict.get
blank_variable = refl

no_username :
    resolve_secret_field backends "value_keyring" "service/ " ≡ raised bad_keyring_reference
unfolding resolve_secret_field kagura_agent.Prelude.Dict.get
no_username = refl

resolve_secret_field-IsNonblank_example :
    GivenBy backends "parent_token_file" "/run/key" "key" × IsNonblank "key"
resolve_secret_field-IsNonblank_example =
    resolve_secret_field-IsNonblank backends "parent_token_file" "/run/key" "key" from_file
