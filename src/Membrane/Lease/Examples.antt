-- ===== src/Membrane/Lease/Examples.antt =====
-- A broker with one token provider, "cf", whose world is whether its token "t" is live: the theorems
-- on leases at concrete inputs.
use kagura_agent.Prelude.{
  ℕ, ◌+◌, String, ◌≡◌, ◌≢◌, refl, sym, ◌∙◌, ap, subst, Bool, true, false, ◌&&◌, Option, none, some,
  List, [], ◌∷◌, Result, ok, raised, arith, ◌⊎◌, inl, inr, Bool-cases, ◌==◌, eq_iff, if◌then◌else◌,
  ◌≤◌,
}
use kagura_agent.Prelude.Dict
use kagura_agent.Prelude.Dict.{Dict}
use kagura_agent.Membrane.Lease.{
  Error, cancelled, Budget, Lease, Broker, CredProvider, State, acquire, renew, release, sweep,
  open_leases, remaining,
}
use kagura_agent.Membrane.Lease.Keys.{has_colon}
use kagura_agent.Membrane.Lease.Cases.{Registered, Confirms}
use kagura_agent.Membrane.Lease.Tokens.{Live, IsContract, IsTracked}
use kagura_agent.Membrane.Lease.Safety.{IsGenuine}
use kagura_agent.Membrane.Lease.Histories.{AllRevocable, Step, Reach, acquire-IsGenuine, no_orphan}
use kagura_agent.Membrane.Lease.Clearing.{sweep_clears}
use kagura_agent.Membrane.Lease.Renewal.{renew_all, renew_all-within}

abbrev pub mint_t : String → ℕ → Bool → Result Error (String × Option String) × Bool
mint_t scope ttl w = (ok ("secret", some "t"), true)

abbrev pub revoke_t : Option String → Bool → Result Error (Unit {0}) × Bool
revoke_t none w = (ok tt, w)
revoke_t (some h) w = (ok tt, if h == "t" then false else w)

abbrev pub cloudflare : CredProvider Bool
cloudflare = record {
  stateful = true;
  write_approved = none;
  cred_to_env = some (λ c. ok (("CLOUDFLARE_API_TOKEN", c) ∷ []));
  mint = mint_t;
  revoke = revoke_t;
}

abbrev pub cloud : Broker Bool
cloud = record { providers = ("cf", cloudflare) ∷ []; clock = λ w. 100 }

abbrev live_t : Live Bool
live_t w m j = w && (m == "cf" && j == "t")

registered_lem :
    (n : String) (p : CredProvider Bool) → Registered cloud n p → ("cf" ≡ n) × (cloudflare ≡ p)
unfolding Dict.get
registered_lem n p h = elim (Bool-cases ("cf" == n)) [
  | inl t ↦ ((eq_iff "cf" n).0 t, ap or_cloudflare (rw t at h))
  | inr f ↦ absurd (ground (arith, f, h))
]
  where
    or_cloudflare : Option (CredProvider Bool) → CredProvider Bool
    or_cloudflare none = cloudflare
    or_cloudflare (some q) = q

-- What holds of "cf" and its provider holds of all that is registered.
registered_elim :
    (P : String → CredProvider Bool → Type 0) {n : String} {p : CredProvider Bool}
    → Registered cloud n p
    → P "cf" cloudflare
    → P n p
registered_elim P {n} {p} r h =
    let (name, provider) = registered_lem n p r in
    subst (P n) provider (subst (λ x. P x cloudflare) name h)

live_parts : (w : Bool) (m j : String) → live_t w m j ≡ true → (w ≡ true) × (m ≡ "cf") × (j ≡ "t")
live_parts w m j h =
    (ground arith, (eq_iff m "cf").0 (ground arith), (eq_iff j "t").0 (ground arith))

minted_t :
    (scope : String) (ttl : ℕ) (w : Bool) (m j : String)
    → live_t true m j ≡ true
    → (live_t w m j ≡ true)
      ⊎ ((m ≡ "cf")
          × (cloudflare.stateful ≡ true)
          × ((cred : String) × ((mint_t scope ttl w).0 ≡ ok (cred, some j))))
minted_t scope ttl w m j h =
    let (_, name, handle) = live_parts true m j h in
    inr (name, refl, ("secret", ap (λ x. ok ("secret", some x)) (sym handle)))

kept_t :
    (h : Option String) (w : Bool) (m j : String)
    → live_t (revoke_t h w).1 m j ≡ true
    → live_t w m j ≡ true
kept_t h w m j alive = ground arith

gone_t : (w : Bool) (j : String) → live_t (revoke_t (some j) w).1 "cf" j ≡ false
gone_t w j = ground arith

cloud-IsContract : IsContract cloud live_t
cloud-IsContract = record {
  named = λ n p r. registered_elim (λ x q. has_colon x ≡ false) r (unfold has_colon in refl);
  minted = λ n p scope ttl w m j r.
      registered_elim
        (λ x q.
          live_t (q.mint scope ttl w).1 m j ≡ true
          → (live_t w m j ≡ true)
            ⊎ ((m ≡ x)
                × (q.stateful ≡ true)
                × ((cred : String) × ((q.mint scope ttl w).0 ≡ ok (cred, some j)))))
        r (minted_t scope ttl w m j);
  kept = λ n p h w m j r.
      registered_elim (λ x q. live_t (q.revoke h w).1 m j ≡ true → live_t w m j ≡ true) r
        (kept_t h w m j);
  gone = λ n p j w r _.
      registered_elim (λ x q. live_t (q.revoke (some j) w).1 x j ≡ false) r (gone_t w j);
  owned = λ w m j alive.
      let (_, name, handle) = live_parts w m j alive in
      (
        subst (λ x. has_colon x ≡ false) (sym name) (unfold has_colon in refl),
        λ none. absurd (ground (arith, eq_iff "t" "None", sym handle ∙ none)),
      );
  stateful_only = λ w m j p _ r. registered_elim (λ x q. q.stateful ≡ true) r refl;
}

abbrev pub empty_state : State Bool
empty_state = record { ledger = []; world = false }

abbrev pub half_spent : Budget
half_spent = record { total_seconds = 3600; spent_seconds = 600 }

abbrev pub held_lease : Lease
held_lease = record {
  provider = "cf";
  scope = "zone:read";
  budget = half_spent;
  cred = some "secret";
  expires_at = 160;
  handle = some "t";
  stateful = true;
}

empty-IsTracked : IsTracked live_t empty_state
empty-IsTracked m j h = absurd (ground arith)

held-IsGenuine : IsGenuine cloud held_lease
unfolding acquire Dict.get kagura_agent.Membrane.Lease.requires_write_approval
held-IsGenuine =
    acquire-IsGenuine cloud live_t "cf" "zone:read" 60 half_spent empty_state held_lease refl

-- acquire, renew, release
abbrev pub one_lease : State Bool
one_lease = (acquire cloud "cf" "zone:read" 60 half_spent empty_state).1

abbrev renewed_once : State Bool
renewed_once = (renew cloud held_lease 60 one_lease).1

one_lease-Reach : Reach cloud live_t empty_state one_lease
one_lease-Reach = Reach.next Reach.here (Step.acquires "cf" "zone:read" 60 half_spent refl)

renewed_once-Reach : Reach cloud live_t empty_state renewed_once
renewed_once-Reach = Reach.next one_lease-Reach (Step.renews held_lease 60 held-IsGenuine refl)

no_orphan_example : AllRevocable renewed_once × IsTracked live_t renewed_once
no_orphan_example =
    no_orphan cloud live_t cloud-IsContract {s = empty_state} {t = renewed_once} tt empty-IsTracked
      renewed_once-Reach

-- The lease of the live token, by a caller who denies that the token is to be revoked: its release
-- leaves the token live and without an entry.
forged_release :
    release cloud (record held_lease { stateful = false }) one_lease
    ≡ (ok tt, record { ledger = []; world = true })
unfolding release acquire Dict.get Dict.put Dict.remove kagura_agent.Membrane.Lease.forget
    kagura_agent.Membrane.Lease.requires_write_approval kagura_agent.Membrane.Lease.record_lease
    kagura_agent.Membrane.Lease.lease_key
forged_release = refl

answered : (h : Option String) (w : Bool) → (revoke_t h w).0 ≢ raised cancelled
answered none w = cc
answered (some h) w = cc

confirmed : (h : Option String) (w : Bool) → Confirms (revoke_t h w).0
confirmed none w = inl refl
confirmed (some h) w = inl refl

sweep_clears_example : live_t (sweep cloud one_lease).1.world "cf" "t" ≡ false
sweep_clears_example =
    sweep_clears cloud live_t cloud-IsContract
      (λ n p h w r. registered_elim (λ x q. (q.revoke h w).0 ≢ raised cancelled) r (answered h w))
      "cf" cloudflare (unfold Dict.get in refl)
      (λ p h w r. registered_elim (λ x q. Confirms (q.revoke h w).0) r (confirmed h w)) "t"
      one_lease (unfold open_leases in sound.0) sound.1
  where
    sound : AllRevocable one_lease × IsTracked live_t one_lease
    sound =
        no_orphan cloud live_t cloud-IsContract {s = empty_state} {t = one_lease} tt empty-IsTracked
          one_lease-Reach

-- the second asks for more than the budget has left, and the third goes on with the lease of the first
abbrev renewals : List (ℕ × State Bool)
renewals = (60, one_lease) ∷ (5000, one_lease) ∷ (60, one_lease) ∷ []

renewals_granted : (renew_all cloud held_lease renewals).0 ≡ 120
unfolding renew_all renew acquire Dict.get Dict.put
    kagura_agent.Membrane.Lease.requires_write_approval
renewals_granted = refl

renew_all-within_example :
    ((renew_all cloud held_lease renewals).1.budget.total_seconds ≡ held_lease.budget.total_seconds)
    × ((renew_all cloud held_lease renewals).1.budget.spent_seconds
        ≡ held_lease.budget.spent_seconds + (renew_all cloud held_lease renewals).0)
    × ((renew_all cloud held_lease renewals).0 ≤ remaining held_lease.budget)
renew_all-within_example = renew_all-within cloud renewals held_lease (omega arith)

over_budget : (renew cloud held_lease 5000 one_lease).0 ≡ raised Error.budget_exhausted
unfolding renew acquire Dict.get Dict.put
over_budget = refl
