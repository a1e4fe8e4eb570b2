-- ===== src/Membrane/Launcher/Words.antt =====
-- Which words `docker run` is given before the image.
use kagura_agent.Prelude.{
  ℕ, ◌≡◌, refl, sym, ◌∙◌, subst, false, ◌||◌, List, [], ◌∷◌, ◌++◌, eqb_iff, map, ok, ok_inj,
  bind_rule, Bool-cases, inl, inr, ◌⊎◌, arith,
}
use mathlib.Core.List.{append_assoc}
use kagura_agent.Prelude.Text.{codes, eq_codes}
use kagura_agent.Membrane.Egress.{Host, has_char, as_label}
use kagura_agent.Membrane.Egress.Label.{eq_codes_sound}
use kagura_agent.Membrane.Launcher.{Mount, LaunchSpec, is_one_of}
use kagura_agent.Membrane.Launcher.Args.{
  run_options, Deployment, seccomp_profile, hardening, network_args, egress_proxy_endpoint, env_arg,
  env_args, enforcement, egress_enforcement_args, mount_arg, mount_args, docker_run_args,
}
use kagura_agent.Membrane.Launcher.Routed.{List-cases, sealed_enforcement, granted_enforcement}

abbrev pub start_words : List (List ℕ)
start_words = map codes ("docker" ∷ "run" ∷ "--rm" ∷ "--label" ∷ "kagura-agent" ∷ [])

abbrev pub value_words : List (List ℕ)
value_words = map codes ("--security-opt" ∷ "-v" ∷ "-e" ∷ [])

abbrev pub fixed_words : List (List ℕ)
fixed_words = start_words ++ value_words

-- The words that every launch has: no network but that of the spec, and no word that opens the host.
abbrev pub allowed_words : LaunchSpec → List (List ℕ)
allowed_words spec = fixed_words ++ (hardening ++ network_args spec)

-- Neither `=` nor `:`; the values of the options have one.
abbrev pub IsBare : List ℕ → Type 0
IsBare w = (has_char 61 w ≡ false) × (has_char 58 w ≡ false)

one_of-append :
    (w : List ℕ) (xs ys : List (List ℕ))
    → is_one_of w (xs ++ ys) ≡ (is_one_of w xs || is_one_of w ys)
unfolding is_one_of
one_of-append w [] ys = refl
one_of-append w (x ∷ xs) ys = ground (arith, one_of-append w xs ys)

none_of-append :
    (w : List ℕ) (xs ys : List (List ℕ))
    → is_one_of w (xs ++ ys) ≡ false
    → (is_one_of w xs ≡ false) × (is_one_of w ys ≡ false)
none_of-append w xs ys h =
    (ground (arith, one_of-append w xs ys, h), ground (arith, one_of-append w xs ys, h))

none_of-cons :
    (w x : List ℕ) (xs : List (List ℕ))
    → is_one_of w (x ∷ xs) ≡ false
    → (eq_codes w x ≡ false) × (is_one_of w xs ≡ false)
unfolding is_one_of
none_of-cons w x xs h = (ground (arith, h), ground (arith, h))

none_of_nil : (w : List ℕ) → is_one_of w [] ≡ false
unfolding is_one_of
none_of_nil w = refl

append_none :
    (w : List ℕ) (xs ys : List (List ℕ))
    → is_one_of w xs ≡ false
    → is_one_of w ys ≡ false
    → is_one_of w (xs ++ ys) ≡ false
append_none w xs ys a b = ground (arith, one_of-append w xs ys, a, b)

has_char-append : (c : ℕ) (s t : List ℕ) → has_char c (s ++ t) ≡ (has_char c s || has_char c t)
unfolding has_char
has_char-append c [] t = refl
has_char-append c (d ∷ s) t = ground (arith, has_char-append c s t)

-- A bare word is not one with `c` in it.
bare_differs : (c : ℕ) (w s t : List ℕ) → has_char c w ≡ false → eq_codes w (s ++ c ∷ t) ≡ false
unfolding has_char
bare_differs c w s t bare = elim (Bool-cases (eq_codes w (s ++ c ∷ t))) [
  | inr e ↦ e
  | inl e ↦ absurd (
      ground
        (arith, bare, eq_codes_sound w (s ++ c ∷ t) e, has_char-append c s (c ∷ t), eqb_iff c c))
]

egress_cases :
    (dep : Deployment) (spec : LaunchSpec) (enforced : List (List ℕ))
    → egress_enforcement_args dep spec ≡ ok enforced
    → (enforced ≡ [])
      ⊎ ((hosts : List Host) × (enforcement hosts (egress_proxy_endpoint dep) ≡ enforced))
egress_cases dep spec enforced made = elim (List-cases spec.egress_allow) [
  | inl e ↦ inl (sealed_enforcement dep spec enforced e made)
  | inr (h, hs, e) ↦ inr (granted_enforcement dep spec h hs enforced e made)
]

module _ (w : List ℕ) (bare : IsBare w) where
  env_args-one_of :
      (env : List (List ℕ × List ℕ))
      → eq_codes w (codes "-e") ≡ false
      → is_one_of w (env_args env) ≡ false
  unfolding env_args env_arg is_one_of
  env_args-one_of [] no_e = refl
  env_args-one_of ((key, value) ∷ env) no_e =
      rw (no_e, bare_differs 61 w key value bare.0, env_args-one_of env no_e) refl

  mount_args-one_of :
      (ms : List Mount) → eq_codes w (codes "-v") ≡ false → is_one_of w (mount_args ms) ≡ false
  unfolding mount_args mount_arg is_one_of
  mount_args-one_of [] no_v = refl
  mount_args-one_of (m ∷ ms) no_v =
      rw (no_v, bare_differs 58 w m.source _ bare.1, mount_args-one_of ms no_v) refl

  seccomp_option-one_of :
      (profile : List ℕ)
      → eq_codes w (codes "--security-opt") ≡ false
      → is_one_of w (codes "--security-opt" ∷ (codes "seccomp=" ++ profile) ∷ []) ≡ false
  unfolding is_one_of
  seccomp_option-one_of profile no_opt =
      rw (no_opt, bare_differs 61 w (codes "seccomp") profile bare.0) refl

  enforcement-one_of :
      (hosts : List Host) (endpoint : List ℕ)
      → eq_codes w (codes "--label") ≡ false
      → eq_codes w (codes "-e") ≡ false
      → is_one_of w (enforcement hosts endpoint) ≡ false
  unfolding enforcement env_arg is_one_of
  enforcement-one_of hosts endpoint no_label no_e =
      let differs : (s t : List ℕ) → eq_codes w (s ++ 61 ∷ t) ≡ false =
        λ s t. bare_differs 61 w s t bare.0 in
      rw
        (
          no_label,
          no_e,
          differs (codes "kagura.egress-allow") (as_label hosts),
          differs (codes "HTTP_PROXY") endpoint,
          differs (codes "HTTPS_PROXY") endpoint,
          differs (codes "http_proxy") endpoint,
          differs (codes "https_proxy") endpoint,
          differs (codes "NO_PROXY") (codes "localhost,127.0.0.1"),
          differs (codes "no_proxy") (codes "localhost,127.0.0.1"),
        )
        refl

  -- The words of `allowed_words` that the values follow, and the others.
  record Refuses (spec : LaunchSpec) : Type 0 where
    start :
        is_one_of w (map codes ("docker" ∷ "run" ∷ "--rm" ∷ "--label" ∷ "kagura-agent" ∷ []))
        ≡ false
    label : eq_codes w (codes "--label") ≡ false
    opt : eq_codes w (codes "--security-opt") ≡ false
    volume : eq_codes w (codes "-v") ≡ false
    variable : eq_codes w (codes "-e") ≡ false
    hard : is_one_of w hardening ≡ false
    network : is_one_of w (network_args spec) ≡ false

  Refuses-each : (spec : LaunchSpec) → is_one_of w (allowed_words spec) ≡ false → Refuses spec
  unfolding is_one_of
  Refuses-each spec h =
      let (first, rest) = none_of-append w fixed_words (hardening ++ network_args spec) h in
      let (hard, network) = none_of-append w hardening (network_args spec) rest in
      let (start, last) = none_of-append w start_words value_words first in
      let (label, _) =
        none_of-cons w (codes "--label") (codes "kagura-agent" ∷ [])
          (none_of-append w (map codes ("docker" ∷ "run" ∷ "--rm" ∷ []))
            (map codes ("--label" ∷ "kagura-agent" ∷ [])) start).1 in
      let (opt, last1) =
        none_of-cons w (codes "--security-opt") (codes "-v" ∷ codes "-e" ∷ []) last in
      let (volume, last2) = none_of-cons w (codes "-v") (codes "-e" ∷ []) last1 in
      record {
        start = start;
        label = label;
        opt = opt;
        volume = volume;
        variable = (none_of-cons w (codes "-e") [] last2).0;
        hard = hard;
        network = network;
      }

  run_options-one_of :
      (profile : List ℕ) (spec : LaunchSpec)
      → Refuses spec
      → is_one_of w (run_options profile spec) ≡ false
  unfolding run_options
  run_options-one_of profile spec r = append_none w start_words _ r.start (
      append_none w hardening _ r.hard (
        append_none w (codes "--security-opt" ∷ (codes "seccomp=" ++ profile) ∷ []) _
          (seccomp_option-one_of profile r.opt)
          (append_none w (network_args spec) _ r.network (
            append_none w (mount_args spec.mounts) _ (mount_args-one_of spec.mounts r.volume)
              (env_args-one_of spec.env r.variable)))))

  enforced-one_of :
      (dep : Deployment) (spec : LaunchSpec) (enforced : List (List ℕ))
      → Refuses spec
      → egress_enforcement_args dep spec ≡ ok enforced
      → is_one_of w enforced ≡ false
  enforced-one_of dep spec enforced r made = elim (egress_cases dep spec enforced made) [
    | inl e ↦ subst (λ l. is_one_of w l ≡ false) (sym e) (none_of_nil w)
    | inr (hosts, e) ↦
        subst (λ l. is_one_of w l ≡ false) e
          (enforcement-one_of hosts (egress_proxy_endpoint dep) r.label r.variable)
  ]

-- Before the `--` and the image that end the arguments, every word that has neither `=` nor `:` is one
-- of those that each launch has, the network of the spec among them: no `--privileged`, no
-- `--device`, no `--cap-add`, no `host`, whatever the spec holds. The image is the last.
docker_run_args-bare_words :
    (dep : Deployment) (spec : LaunchSpec) (args : List (List ℕ)) (w : List ℕ)
    → docker_run_args dep spec ≡ ok args
    → IsBare w
    → is_one_of w (allowed_words spec) ≡ false
    → (options : List (List ℕ)) × (args ≡ options ++ codes "--" ∷ spec.image ∷ [])
      × (is_one_of w options ≡ false)
unfolding docker_run_args
docker_run_args-bare_words dep spec args w made bare other =
    let r = Refuses-each w bare spec other in
    bind_rule (seccomp_profile dep) _
      (λ profile e. bind_rule (egress_enforcement_args dep spec) _ (λ enforced d same. (
        run_options profile spec ++ enforced,
        sym (ok_inj same) ∙ sym (append_assoc (run_options profile spec) enforced _),
        rw
            (
              one_of-append w (run_options profile spec) enforced,
              run_options-one_of w bare profile spec r,
              enforced-one_of w bare dep spec enforced r d,
            )
            refl,
      )))
      made
