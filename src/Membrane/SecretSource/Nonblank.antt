-- ===== src/Membrane/SecretSource/Nonblank.antt =====
-- A reference gives a secret that is not blank, or an error; and where it comes from.
use kagura_agent.Prelude.{
  String, ◌≡◌, sym, ◌∙◌, ap, false, ◌||◌, Option, none, some, ◌==◌, eq_iff, Result, ok, raised,
  ok_inj, Bool-cases, Option-cases, inl, inr, ◌⊎◌, subst,
}
use kagura_agent.Prelude.Dict
use kagura_agent.Prelude.Text.{strip, is_empty, split_at}
use kagura_agent.Membrane.SecretSource.{
  SecretSourceError, Backends, require_nonblank, resolve_env, resolve_file, drop_line_ends,
  password_found, resolve_keyring, default_sources, suffix_of, resolve_ref, resolve_secret_field,
}

-- The value has a character that is no white space.
abbrev pub IsNonblank : String → Type 0
IsNonblank v = is_empty (strip v) ≡ false

require_nonblank-IsNonblank :
    (o : Option String) (v : String) → require_nonblank o ≡ ok v → IsNonblank v
unfolding require_nonblank
require_nonblank-IsNonblank none v h = absurd (cc h)
require_nonblank-IsNonblank (some w) v h = elim (Bool-cases (is_empty (strip w))) [
  | inl e ↦ absurd (cc (rw (require_nonblank, e) at h))
  | inr e ↦ subst IsNonblank (ok_inj (rw (require_nonblank, e) at h)) e
]

resolve_env-IsNonblank : (b : Backends) (ref v : String) → resolve_env b ref ≡ ok v → IsNonblank v
unfolding resolve_env
resolve_env-IsNonblank b ref v h = elim (Option-cases (b.get_env ref)) [
  | inl e ↦ absurd (cc (rw (resolve_env, e) at h))
  | inr (o, e) ↦ require_nonblank-IsNonblank o v (rw (resolve_env, e) at h)
]

resolve_file-IsNonblank : (b : Backends) (ref v : String) → resolve_file b ref ≡ ok v → IsNonblank v
unfolding resolve_file
resolve_file-IsNonblank b ref v h = elim (Option-cases (b.read_file ref)) [
  | inl e ↦ absurd (cc (rw (resolve_file, e) at h))
  | inr (s, e) ↦ require_nonblank-IsNonblank (some (drop_line_ends s)) v (rw (resolve_file, e) at h)
]

password_found-IsNonblank :
    (r : Result (Option SecretSourceError) (Option String)) (v : String)
    → password_found r ≡ ok v
    → IsNonblank v
unfolding password_found
password_found-IsNonblank (ok o) v h = require_nonblank-IsNonblank o v h
password_found-IsNonblank (raised (some e)) v h = absurd (cc h)
password_found-IsNonblank (raised none) v h = absurd (cc h)

resolve_keyring-IsNonblank :
    (b : Backends) (ref v : String) → resolve_keyring b ref ≡ ok v → IsNonblank v
unfolding resolve_keyring
resolve_keyring-IsNonblank b ref v h = elim (Option-cases (split_at 47 ref)) [
  | inl e ↦ absurd (cc (rw (resolve_keyring, e) at h))
  | inr ((service, username), e) ↦
      elim (Bool-cases (is_empty (strip service) || is_empty (strip username))) [
        | inl d ↦ absurd (cc (rw (resolve_keyring, e, d) at h))
        | inr d ↦
            password_found-IsNonblank (b.get_password (strip service) (strip username)) v
              (rw (resolve_keyring, e, d) at h)
      ]
]

-- The backend of the field's suffix gave the value.
abbrev pub GivenBy : Backends → String → String → String → Type 0
GivenBy b field ref v =
    ((suffix_of field ≡ some "_env") × (resolve_env b ref ≡ ok v))
    ⊎ ((suffix_of field ≡ some "_file") × (resolve_file b ref ≡ ok v))
    ⊎ ((suffix_of field ≡ some "_keyring") × (resolve_keyring b ref ≡ ok v))

resolve_ref-GivenBy :
    (b : Backends) (field ref v suffix : String)
    → suffix_of field ≡ some suffix
    → resolve_ref field ref (default_sources b) ≡ ok v
    → GivenBy b field ref v
unfolding resolve_ref default_sources Dict.get
resolve_ref-GivenBy b field ref v suffix s h = elim (Bool-cases ("_env" == suffix)) [
  | inl e ↦ inl (s ∙ ap some (sym ((eq_iff "_env" suffix).0 e)), rw (resolve_ref, s, e) at h)
  | inr e ↦ elim (Bool-cases ("_file" == suffix)) [
    | inl d ↦
        inr (inl (s ∙ ap some (sym ((eq_iff "_file" suffix).0 d)), rw (resolve_ref, s, e, d) at h))
    | inr d ↦ elim (Bool-cases ("_keyring" == suffix)) [
      | inl c ↦ inr (
          inr
            (s ∙ ap some (sym ((eq_iff "_keyring" suffix).0 c)), rw (resolve_ref, s, e, d, c) at h))
      | inr c ↦ absurd (cc (rw (resolve_ref, s, e, d, c) at h))
    ]
  ]
]

-- A reference that resolves gives a value with a character that is no white space, from the backend
-- of the field's suffix; every other way ends in an error.
pub resolve_secret_field-IsNonblank :
    (b : Backends) (field ref v : String)
    → resolve_secret_field b field ref ≡ ok v
    → GivenBy b field ref v × IsNonblank v
unfolding resolve_secret_field
resolve_secret_field-IsNonblank b field ref v h = elim (Option-cases (suffix_of field)) [
  | inl e ↦ absurd (cc (rw (resolve_ref, e) at h))
  | inr (suffix, e) ↦
      let given = resolve_ref-GivenBy b field ref v suffix e h in
      (
        given,
        elim given [
          | inl (_, d) ↦ resolve_env-IsNonblank b ref v d
          | inr (inl (_, d)) ↦ resolve_file-IsNonblank b ref v d
          | inr (inr (_, d)) ↦ resolve_keyring-IsNonblank b ref v d
        ],
      )
]
