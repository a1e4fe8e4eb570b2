-- ===== src/Membrane/Outcome/Verdict.antt =====
-- What a verdict rests on.
use kagura_agent.Prelude.{
  String, zero, suc, ap, not, ◌≡◌, ◌≢◌, refl, ◌↔◌, Bool, true, false, ◌&&◌, Option, none, some,
  List, [], ◌∷◌, eq_iff, Bool-cases, ◌⊎◌, inl, inr, ok, raised, All, arith,
}
use kagura_agent.Prelude.Text.{member}
use kagura_agent.Membrane.Outcome.{
  ExitCode, pos, negsuc, two_verdicts, VerifiedOutcome, valid_sources, independent_sources,
  post_init, unverified, is_success, from_exit_code, from_hitl_approval, all_trusted,
  derive_input_trust, measure_outcome,
}

pub all_trusted_iff : (ts : List String) → (all_trusted ts ≡ true) ↔ All (λ t. t ≡ "trusted") ts
unfolding all_trusted
all_trusted_iff [] = (λ _. tt, λ _. refl)
all_trusted_iff (t ∷ ts) = (
  λ h. ((eq_iff t "trusted").0 (ground (arith, h)), (all_trusted_iff ts).0 (ground (arith, h))),
  λ h. rw ((eq_iff t "trusted").1 h.0) ((all_trusted_iff ts).1 h.1),
)

pub derive_cases :
    (ts : List String) → (derive_input_trust ts ≡ "untrusted") ⊎ (derive_input_trust ts ≡ "trusted")
unfolding derive_input_trust
derive_cases [] = inl refl
derive_cases (t ∷ ts) = elim (Bool-cases (all_trusted (t ∷ ts))) [
  | inl e ↦ inr (rw e refl)
  | inr e ↦ inl (rw e refl)
]

pub derive_iff :
    (ts : List String)
    → (derive_input_trust ts ≡ "trusted") ↔ ((ts ≢ []) × All (λ t. t ≡ "trusted") ts)
unfolding derive_input_trust
derive_iff [] = (λ h. absurd (cc h), λ h. absurd (h.0 refl))
derive_iff (t ∷ ts) = elim (Bool-cases (all_trusted (t ∷ ts))) [
  | inl e ↦ rw e (λ _. ((λ h. cc h), (all_trusted_iff (t ∷ ts)).0 e), λ _. refl)
  | inr e ↦ rw e (λ h. absurd (cc h), λ h. ground (arith, e, (all_trusted_iff (t ∷ ts)).1 h.1))
]

-- The outcome rests on the signals from outside and on the tiers.
pub record IsVerdict (o : VerifiedOutcome) (ts : List String) (code : Option ExitCode)
    (approved : Option Bool) : Type 0 where
  pub verified_iff : (o.verified ≡ true) ↔ ((code ≡ some (pos zero)) ⊎ (approved ≡ some true))
  pub trusted_iff : (o.input_trust ≡ "trusted") ↔ ((ts ≢ []) × All (λ t. t ≡ "trusted") ts)
  pub abstains_iff : (o.source ≡ "unverified") ↔ ((code ≡ none) × (approved ≡ none))

derive_valid :
    (ts : List String) → member (derive_input_trust ts) ("trusted" ∷ "untrusted" ∷ []) ≡ true
unfolding member
derive_valid ts = elim (derive_cases ts) [ inl e ↦ rw e refl | inr e ↦ rw e refl ]

-- An outcome of a valid source and a valid trust is made, if its source is independent or it is not
-- verified.
post_init_ok :
    (o : VerifiedOutcome)
    → member o.source valid_sources ≡ true
    → member o.input_trust ("trusted" ∷ "untrusted" ∷ []) ≡ true
    → (o.verified && not (member o.source independent_sources)) ≡ false
    → post_init o ≡ ok o
unfolding post_init
post_init_ok o source trust sound = rw (source, trust, sound) refl

and_false : (b : Bool) → (b && false) ≡ false
and_false true = refl
and_false false = refl

success_iff :
    (code : ExitCode)
    → (is_success code ≡ true)
      ↔ ((some code ≡ some (pos zero)) ⊎ (◌≡◌ {A = Option Bool} none (some true)))
unfolding is_success
success_iff (pos zero) = (λ _. inl refl, λ _. refl)
success_iff (pos (suc n)) = (λ h. cc h, λ h. elim h [ inl e ↦ ground (arith, e) | inr e ↦ cc e ])
success_iff (negsuc n) = (λ h. cc h, λ h. elim h [ inl e ↦ cc e | inr e ↦ cc e ])

-- Two signals raise. Otherwise the outcome is made: verified exactly when the check of the host exited
-- with zero or the operator approved, of trusted input exactly when there are tiers and all of them
-- are trusted, and of source `unverified` exactly when there was no signal.
pub measure_outcome_lem :
    (category : String) (ts : List String) (code : Option ExitCode) (approved : Option Bool)
    → ((code ≢ none)
        × (approved ≢ none)
        × (measure_outcome category ts code approved ≡ raised two_verdicts))
      ⊎ (((code ≡ none) ⊎ (approved ≡ none))
          × (o : VerifiedOutcome) × (measure_outcome category ts code approved ≡ ok o)
          × IsVerdict o ts code approved)
unfolding measure_outcome from_exit_code from_hitl_approval unverified member
measure_outcome_lem category ts (some code) (some a) = inl ((λ h. cc h), (λ h. cc h), refl)
measure_outcome_lem category ts none none = inr (
  inl refl,
  record {
    verified = false;
    category = category;
    input_trust = derive_input_trust ts;
    source = "unverified";
  },
  post_init_ok _ refl (derive_valid ts) refl,
  record {
    verified_iff = (λ h. cc h, λ h. elim h [ inl e ↦ cc e | inr e ↦ cc e ]);
    trusted_iff = derive_iff ts;
    abstains_iff = (λ _. (refl, refl), λ _. refl);
  },
)
measure_outcome_lem category ts none (some a) = inr (
  inl refl,
  record {
    verified = a;
    category = category;
    input_trust = derive_input_trust ts;
    source = "hitl_approval";
  },
  post_init_ok _ refl (derive_valid ts) (and_false a),
  record {
    verified_iff = (λ h. inr (ap some h), λ h. elim h [ inl e ↦ cc e | inr e ↦ ground (arith, e) ]);
    trusted_iff = derive_iff ts;
    abstains_iff = (λ h. absurd (cc ((eq_iff "hitl_approval" "unverified").1 h)), λ h. cc (h.1));
  },
)
measure_outcome_lem category ts (some code) none = inr (
  inr refl,
  record {
    verified = is_success code;
    category = category;
    input_trust = derive_input_trust ts;
    source = "exit_code";
  },
  post_init_ok _ refl (derive_valid ts) (and_false (is_success code)),
  record {
    verified_iff = success_iff code;
    trusted_iff = derive_iff ts;
    abstains_iff = (λ h. absurd (cc ((eq_iff "exit_code" "unverified").1 h)), λ h. cc (h.0));
  },
)
