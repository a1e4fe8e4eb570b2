-- ===== src/Membrane/Registry/Accepted.antt =====
-- What a provider table that is accepted is like.
use kagura_agent.Prelude.{
  String, ◌≡◌, ◌≢◌, refl, sym, ap, subst, Bool, true, false, not, Option, none, some, List, [], ◌∷◌,
  ◌==◌, eq_iff, Bool-cases, Option-cases, if◌then◌else◌, ◌⊎◌, inl, inr, ok, raised, bind_rule,
  ok_inj, All, arith,
}
use kagura_agent.Prelude.Text.{codes, strip, is_empty, member}
use kagura_agent.Prelude.Dict
use kagura_agent.Prelude.Dict.{Dict}
use kagura_agent.Membrane.Registry.{
  Value, null, text, boolean, other, ValueError, empty_name, invalid_name, no_table, missing_field,
  empty_field, bad_consent, SecretRef, FieldSchema, kind_schema, bare_secret_denylist,
  is_provider_name, is_env_name, Table, present_suffix_field, ProviderSpec, secret_names, allowed,
  check, check_key, copy_fields, all_present, is_blank, none_blank, consent_ok, reference_ok,
  check_present, check_secrets, parse_as, parse_kind, parse_one, parse_registry,
}
use Prim.Native.String.{◌++◌ as append}

-- The entries of a table but its kind.
abbrev pub without_kind : Table → Table
without_kind [] = []
without_kind ((k, v) ∷ t) = let rest = without_kind t in if k == "kind" then rest else (k, v) ∷ rest

-- The field is one of the kind's, and it is not the bare name of a secret.
pub record IsField (schema : FieldSchema) (key : String) : Type 0 where
  pub in_schema : member key (allowed schema) ≡ true
  pub not_secret : member key (secret_names schema.secrets) ≡ false
  pub not_listed : member key bare_secret_denylist ≡ false

-- A reference: the name of an environment variable, or else a text that is not blank.
abbrev pub IsReference : String → Option Value → Type 0
IsReference suf v =
    (s : String) × (v ≡ some (text s))
    × (((suf ≡ "_env") × (is_env_name (codes s) ≡ true))
        ⊎ ((suf ≢ "_env") × (is_empty (strip s) ≡ false)))

-- An optional secret may be absent; otherwise exactly one of its suffixes is used, for a reference.
abbrev pub IsReferenced : Table → SecretRef → Type 0
IsReferenced fields ref =
    ((present_suffix_field ref fields ≡ []) × (ref.required ≡ false))
    ⊎ ((suf : String) × (present_suffix_field ref fields ≡ suf ∷ [])
        × IsReference suf (Dict.get fields (append ref.name suf)))

pub record IsReferenceOnly (table : Table) (spec : ProviderSpec) : Type 0 where
  pub schema : FieldSchema
  pub kind_is : Dict.get table "kind" ≡ some (text spec.kind)
  pub known : kind_schema spec.kind ≡ some schema
  pub fields_are : spec.fields ≡ without_kind table
  pub named : is_provider_name (codes spec.name) ≡ true
  pub keys : All (λ e. IsField schema e.0) spec.fields
  pub filled : All (λ k. is_blank (Dict.get spec.fields k) ≡ false) schema.required
  pub consented : consent_ok (Dict.get spec.fields "standing_secret") ≡ true
  pub referenced : All (IsReferenced spec.fields) schema.secrets

check-true : (b : Bool) (e : ValueError) {u : Unit} → check b e ≡ ok u → b ≡ true
unfolding check
check-true true e h = refl
check-true false e h = absurd (cc h)

check_key-IsField :
    (schema : FieldSchema) (key : String) {u : Unit}
    → check_key schema key ≡ ok u
    → IsField schema key
unfolding check_key
check_key-IsField schema key h = elim (Bool-cases (member key (secret_names schema.secrets))) [
  | inl a ↦ absurd (ground (arith, h, a))
  | inr a ↦ elim (Bool-cases (member key bare_secret_denylist)) [
    | inl b ↦ absurd (ground (arith, h, a, b))
    | inr b ↦ elim (Bool-cases (member key (allowed schema))) [
      | inr d ↦ absurd (ground (arith, h, a, b, d))
      | inl d ↦ record { in_schema = d; not_secret = a; not_listed = b }
    ]
  ]
]

module _ (schema : FieldSchema) where
  copy_fields_lem :
      (table fields : Table)
      → copy_fields schema table ≡ ok fields
      → (fields ≡ without_kind table) × All (λ e. IsField schema e.0) fields
  unfolding copy_fields
  copy_fields_lem [] fields h =
      subst (λ x. (x ≡ []) × All (λ e. IsField schema e.0) x) (ok_inj h) (refl, tt)
  copy_fields_lem ((k, v) ∷ table) fields h = elim (Bool-cases (k == "kind")) [
    | inl e ↦ rw e (copy_fields_lem table fields (simp e at h))
    | inr e ↦
        bind_rule (check_key schema k) _
          (λ _ field g.
            bind_rule (copy_fields schema table) _
              (λ d done f.
                let (same, fit) = copy_fields_lem table d done in
                rw e (
                  subst (λ x. (x ≡ (k, v) ∷ without_kind table) × All (λ e. IsField schema e.0) x)
                    (ok_inj f)
                    (ap (λ t. (k, v) ∷ t) same, (check_key-IsField schema k field, fit))))
              g)
          (simp e at h)
  ]

none_blank_lem :
    (ks : List String) (fields : Table)
    → none_blank ks fields ≡ true
    → All (λ k. is_blank (Dict.get fields k) ≡ false) ks
unfolding none_blank
none_blank_lem [] fields h = tt
none_blank_lem (k ∷ ks) fields h = (ground (arith, h), none_blank_lem ks fields (ground (arith, h)))

reference_ok_lem : (suf : String) (v : Option Value) → reference_ok suf v ≡ true → IsReference suf v
unfolding reference_ok
reference_ok_lem suf (some (text s)) h = elim (Bool-cases (suf == "_env")) [
  | inl e ↦ (s, refl, inl ((eq_iff suf "_env").0 e, ground (arith, e, h)))
  | inr e ↦
      (s, refl, inr (λ same. ground (arith, e, (eq_iff suf "_env").1 same), ground (arith, e, h)))
]
reference_ok_lem suf none h = absurd (cc h)
reference_ok_lem suf (some null) h = absurd (cc h)
reference_ok_lem suf (some (boolean b)) h = absurd (cc h)
reference_ok_lem suf (some (other t)) h = absurd (cc h)

check_present_lem :
    (ref : SecretRef) (fields : Table) (found : List String) {u : Unit}
    → check_present ref fields found ≡ ok u
    → ((found ≡ []) × (ref.required ≡ false))
      ⊎ ((suf : String) × (found ≡ suf ∷ [])
          × IsReference suf (Dict.get fields (append ref.name suf)))
unfolding check_present
check_present_lem ref fields [] h =
    let r : not ref.required ≡ true = check-true _ _ h in inl (refl, ground (arith, r))
check_present_lem ref fields (suf ∷ []) h =
    inr (suf, refl, reference_ok_lem suf _ (check-true _ _ h))
check_present_lem ref fields (_ ∷ _ ∷ _) h = absurd (cc h)

check_secrets_lem :
    (refs : List SecretRef) (fields : Table) {u : Unit}
    → check_secrets refs fields ≡ ok u
    → All (IsReferenced fields) refs
unfolding check_secrets
check_secrets_lem [] fields h = tt
check_secrets_lem (ref ∷ refs) fields h =
    bind_rule (check_present ref fields (present_suffix_field ref fields)) _
      (λ _ a b. (check_present_lem ref fields _ a, check_secrets_lem refs fields b)) h

module _ (schema : FieldSchema) (name kind : String) (table : Table) where
  parse_as-IsReferenceOnly :
      (spec : ProviderSpec)
      → is_provider_name (codes name) ≡ true
      → Dict.get table "kind" ≡ some (text kind)
      → kind_schema kind ≡ some schema
      → parse_as schema name kind table ≡ ok spec
      → (spec.name ≡ name) × IsReferenceOnly table spec
  unfolding parse_as
  parse_as-IsReferenceOnly spec named is_kind known =
      bind_rule (copy_fields schema table) _ λ fields copied.
        bind_rule (check (all_present schema.required fields) missing_field) _ λ _ _.
          bind_rule (check (none_blank schema.required fields) empty_field) _ λ _ filled.
            bind_rule (check (consent_ok (Dict.get fields "standing_secret")) bad_consent) _
              λ _ consent. bind_rule (check_secrets schema.secrets fields) _ λ _ secrets done.
                let (same, keys) = copy_fields_lem schema table fields copied in
                subst (λ x. (x.name ≡ name) × IsReferenceOnly table x) (ok_inj done)
                  (
                    refl,
                    record {
                      schema = schema;
                      kind_is = is_kind;
                      known = known;
                      fields_are = same;
                      named = named;
                      keys = keys;
                      filled = none_blank_lem schema.required fields (check-true _ _ filled);
                      consented = check-true _ _ consent;
                      referenced = check_secrets_lem schema.secrets fields secrets;
                    },
                  )

parse_kind-IsReferenceOnly :
    (name : String) (table : Table) (kind : Option Value) (spec : ProviderSpec)
    → is_provider_name (codes name) ≡ true
    → Dict.get table "kind" ≡ kind
    → parse_kind name table kind ≡ ok spec
    → (spec.name ≡ name) × IsReferenceOnly table spec
unfolding parse_kind
parse_kind-IsReferenceOnly name table none spec named found done = absurd (cc done)
parse_kind-IsReferenceOnly name table (some null) spec named found done = absurd (cc done)
parse_kind-IsReferenceOnly name table (some (boolean b)) spec named found done = absurd (cc done)
parse_kind-IsReferenceOnly name table (some (other t)) spec named found done = absurd (cc done)
parse_kind-IsReferenceOnly name table (some (text kind)) spec named found done =
    elim (Option-cases (kind_schema kind)) [
      | inl e ↦ absurd (cc (simp (e, parse_kind) at done))
      | inr (schema, e) ↦
          parse_as-IsReferenceOnly schema name kind table spec named found e
            (simp (e, parse_kind) at done)
    ]

parse_one-IsReferenceOnly :
    (name : String) (t : Option Table) (spec : ProviderSpec)
    → parse_one name t ≡ ok spec
    → (spec.name ≡ name) × ((table : Table) × (t ≡ some table) × IsReferenceOnly table spec)
unfolding parse_one
parse_one-IsReferenceOnly name t spec =
    bind_rule (check (not (is_empty (strip name))) empty_name) _ λ _ _.
      bind_rule (check (is_provider_name (codes name)) invalid_name) _
        λ _ named done. of_table t (check-true _ _ named) done
  where
    of_table :
        (t : Option Table)
        → is_provider_name (codes name) ≡ true
        → (elim t [ none ↦ raised no_table | some t ↦ parse_kind name t (Dict.get t "kind") ])
          ≡ ok spec
        → (spec.name ≡ name) × ((table : Table) × (t ≡ some table) × IsReferenceOnly table spec)
    of_table none named done = absurd (cc done)
    of_table (some table) named done =
        let (same, fine) = parse_kind-IsReferenceOnly name table _ spec named refl done in
        (same, (table, refl, fine))

-- Each provider's table gave its spec, in the order of the tables.
abbrev pub Accepted : Dict (Option Table) → List ProviderSpec → Type 0
Accepted [] specs = specs ≡ []
Accepted ((name, t) ∷ rest) specs =
    (spec : ProviderSpec) × (others : List ProviderSpec) × (specs ≡ spec ∷ others)
    × (spec.name ≡ name)
    × ((table : Table) × (t ≡ some table) × IsReferenceOnly table spec)
    × Accepted rest others

-- If a registry is accepted, every provider's table gave one spec, in order and under its name, with
-- the table's kind, which is known, and the table's own fields but the kind. Each of them is a field
-- of that kind and no bare secret; the required ones are there and not blank; consent to a standing
-- secret is a Boolean; and each secret, if it is required or set, is set by exactly one of its
-- suffixes, to the name of an environment variable or to a text that is not blank.
pub parse_registry-Accepted :
    (providers : Dict (Option Table)) (specs : List ProviderSpec)
    → parse_registry providers ≡ ok specs
    → Accepted providers specs
unfolding parse_registry
parse_registry-Accepted [] specs h = sym (ok_inj h)
parse_registry-Accepted ((name, t) ∷ rest) specs h =
    bind_rule (parse_one name t) _
      (λ spec one g.
        bind_rule (parse_registry rest) _
          (λ others all f.
            let (named, fine) = parse_one-IsReferenceOnly name t spec one in
            (spec, others, sym (ok_inj f), named, fine, parse_registry-Accepted rest others all))
          g)
      h
