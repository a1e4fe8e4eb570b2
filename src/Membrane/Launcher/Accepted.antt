-- ===== src/Membrane/Launcher/Accepted.antt =====
-- What `validate_spec` promises of a launch that it accepts.
use kagura_agent.Prelude.{
  ℕ, ◌≡◌, refl, sym, ◌∙◌, ap, subst, true, false, Option, none, some, List, [], ◌∷◌, Result, ok,
  raised, ok_inj, bind_rule, Bool-cases, Option-cases, inl, inr, ◌⊎◌, arith,
}
use kagura_agent.Prelude.Text.{starts_with, lower}
use kagura_agent.Membrane.Egress.{Host, EgressError, has_char, make_policy}
use kagura_agent.Membrane.Launcher.{
  dangerous_sockets, is_one_of, Mount, LaunchSpec, FileSystem, Entry, Reason, MembraneViolation,
  bad_egress, is_socket, dangerous_mount_reason, is_within, check_subtree,
  subtree_special_file_reason, check_source, resolved, is_bad_target, resolve_mount, resolve_mounts,
  from_spec, validate_spec,
}
use kagura_agent.Membrane.Launcher.Subtree.{InTree, IsClear, subtree_special_file_reason-clears}

-- The mount that is run is the one that was asked for, with its source resolved: inside the project,
-- no socket, and where it is a directory, with no socket and no device below; its target is an
-- absolute path that ends no `-v` argument early.
pub record IsAccepted (fs : FileSystem) (project_root : List ℕ) (asked run : Mount) : Type 0 where
  pub resolves : fs.realpath asked.source ≡ some run.source
  pub inside :
      (root : List ℕ) × (fs.realpath project_root ≡ some root) × (is_within run.source root ≡ true)
  pub no_socket : is_socket (fs.stat run.source) ≡ false
  pub clear : (x : Entry) → fs.is_dir run.source ≡ true → InTree fs run.source x → IsClear x
  pub same_target : run.target ≡ asked.target
  pub same_mode : run.read_only ≡ asked.read_only
  pub no_colon : has_char 58 asked.target ≡ false
  pub absolute : starts_with asked.target (47 ∷ []) ≡ true

resolved_inv : (o : Option (List ℕ)) (p : List ℕ) → resolved o ≡ ok p → o ≡ some p
unfolding resolved
resolved_inv none p h = absurd (cc h)
resolved_inv (some q) p h = ap some (ok_inj h)

check_subtree_inv : (o : Option (Option Reason)) → check_subtree o ≡ ok tt → o ≡ some none
unfolding check_subtree
check_subtree_inv none h = absurd (cc h)
check_subtree_inv (some none) h = refl
check_subtree_inv (some (some r)) h = absurd (cc h)

-- What the checks of a source tell.
record Checked (fs : FileSystem) (source root : List ℕ) : Type 0 where
  reason : dangerous_mount_reason fs source ≡ none
  within : is_within source root ≡ true
  subtree : (fs.is_dir source ≡ false) ⊎ (subtree_special_file_reason fs source ≡ some none)

check_source-Checked :
    (fs : FileSystem) (source root : List ℕ)
    → check_source fs source root ≡ ok tt
    → Checked fs source root
unfolding check_source
check_source-Checked fs source root h = elim (Option-cases (dangerous_mount_reason fs source)) [
  | inr (r, e) ↦ absurd (cc (rw (check_source, e) at h))
  | inl e ↦ elim (Bool-cases (is_within source root)) [
    | inr w ↦ absurd (cc (rw (check_source, e, w) at h))
    | inl w ↦ elim (Bool-cases (fs.is_dir source)) [
      | inr d ↦ record { reason = e; within = w; subtree = inl d }
      | inl d ↦ record {
        reason = e;
        within = w;
        subtree = inr (check_subtree_inv _ (rw (check_source, e, w, d) at h));
      }
    ]
  ]
]

reason-no_socket :
    (fs : FileSystem) (source : List ℕ)
    → dangerous_mount_reason fs source ≡ none
    → is_socket (fs.stat source) ≡ false
unfolding dangerous_mount_reason
reason-no_socket fs source h = elim (Bool-cases (is_socket (fs.stat source))) [
  | inr e ↦ e
  | inl e ↦ elim (Bool-cases (is_one_of (lower source) dangerous_sockets)) [
    | inl d ↦ absurd (cc (rw (dangerous_mount_reason, d) at h))
    | inr d ↦ absurd (cc (rw (dangerous_mount_reason, d, e) at h))
  ]
]

accepted :
    (fs : FileSystem) (project_root : List ℕ) (asked run : Mount) (source root : List ℕ)
    → is_bad_target asked.target ≡ false
    → fs.realpath asked.source ≡ some source
    → fs.realpath project_root ≡ some root
    → Checked fs source root
    → record asked { source = source } ≡ run
    → IsAccepted fs project_root asked run
unfolding is_bad_target
accepted fs project_root asked run source root good e d c same =
    subst (IsAccepted fs project_root asked) same (record {
      resolves = e;
      inside = (root, d, c.within);
      no_socket = reason-no_socket fs source c.reason;
      clear = λ x is_dir t. elim c.subtree [
        | inl no_dir ↦ absurd (cc (sym is_dir ∙ no_dir))
        | inr cleared ↦ subtree_special_file_reason-clears fs source x cleared t
      ];
      same_target = refl;
      same_mode = refl;
      no_colon = ground (arith, good);
      absolute = ground (arith, good);
    })

resolve_mount-IsAccepted :
    (fs : FileSystem) (project_root : List ℕ) (asked run : Mount)
    → resolve_mount fs project_root asked ≡ ok run
    → IsAccepted fs project_root asked run
unfolding resolve_mount
resolve_mount-IsAccepted fs project_root asked run h =
    elim (Bool-cases (is_bad_target asked.target)) [
      | inl bad ↦ absurd (cc (rw bad at h))
      | inr good ↦
          bind_rule (resolved (fs.realpath asked.source)) _
            (λ source e. bind_rule (resolved (fs.realpath project_root)) _ (λ root d.
              bind_rule (check_source fs source root) _ (λ done c same.
                accepted fs project_root asked run source root good (resolved_inv _ source e)
                  (resolved_inv _ root d) (check_source-Checked fs source root c) (ok_inj same))))
            (rw good at h)
    ]

-- Each mount of the accepted launch comes from the one that was asked for in its place.
abbrev pub AllAccepted : FileSystem → List ℕ → List Mount → List Mount → Type 0
AllAccepted fs project_root [] [] = Unit
AllAccepted fs project_root [] (_ ∷ _) = ⊥
AllAccepted fs project_root (_ ∷ _) [] = ⊥
AllAccepted fs project_root (a ∷ more) (r ∷ rs) =
    IsAccepted fs project_root a r × AllAccepted fs project_root more rs

resolve_mounts-AllAccepted :
    (fs : FileSystem) (project_root : List ℕ) (asked run : List Mount)
    → resolve_mounts fs project_root asked ≡ ok run
    → AllAccepted fs project_root asked run
unfolding resolve_mounts
resolve_mounts-AllAccepted fs project_root [] run h =
    subst (AllAccepted fs project_root []) (ok_inj h) tt
resolve_mounts-AllAccepted fs project_root (a ∷ more) run h =
    bind_rule (resolve_mount fs project_root a) _
      (λ m e. bind_rule (resolve_mounts fs project_root more) _ (λ ms d same.
        subst (AllAccepted fs project_root (a ∷ more)) (ok_inj same) (
          resolve_mount-IsAccepted fs project_root a m e,
          resolve_mounts-AllAccepted fs project_root more ms d,
        )))
      h

from_spec_inv :
    (spec : LaunchSpec) (hosts : List Host)
    → from_spec spec ≡ ok hosts
    → make_policy spec.egress_allow ≡ ok hosts
unfolding from_spec
from_spec_inv spec hosts h = from_policy (make_policy spec.egress_allow) hosts h
  where
    from_policy :
        (r : Result EgressError (List Host)) (hosts : List Host)
        → ◌≡◌ {A = Result MembraneViolation (List Host)}
            (elim r [ raised e ↦ raised (bad_egress e) | ok hosts ↦ ok hosts ])
            (ok hosts)
        → r ≡ ok hosts
    from_policy (ok hs) hosts h = ap ok (ok_inj h)
    from_policy (raised e) hosts h = absurd (cc h)

-- If a launch is accepted: each mount that runs is the one asked for in its place with its source
-- resolved, inside the resolved project root, no socket and, where it is a directory, with no socket
-- and no device below it but behind links; its target is absolute and has no colon. The allowlist
-- makes a policy, and the image, the environment and the allowlist are as asked for.
pub validate_spec-Accepted :
    (fs : FileSystem) (project_root : List ℕ) (spec run : LaunchSpec)
    → validate_spec fs project_root spec ≡ ok run
    → AllAccepted fs project_root spec.mounts run.mounts
      × ((hosts : List Host) × (make_policy spec.egress_allow ≡ ok hosts))
      × (run ≡ record spec { mounts = run.mounts })
unfolding validate_spec
validate_spec-Accepted fs project_root spec run h =
    bind_rule (resolve_mounts fs project_root spec.mounts) _
      (λ ms e. bind_rule (from_spec spec) _ (λ hosts d same.
        let is_run = ok_inj same in
        (
          subst (AllAccepted fs project_root spec.mounts) (ap (λ r. r.mounts) is_run)
              (resolve_mounts-AllAccepted fs project_root spec.mounts ms e),
          (hosts, from_spec_inv spec hosts d),
          sym is_run ∙ ap (λ r. record spec { mounts = r.mounts }) is_run,
        )))
      h
