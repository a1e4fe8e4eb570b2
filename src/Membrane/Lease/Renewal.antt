-- ===== src/Membrane/Lease/Renewal.antt =====
-- Renewals under a budget: what `renew` and a chain of renewals may spend, and what a failed one leaves.
use kagura_agent.Prelude.{
  ℕ, ◌+◌, ◌≤◌, String, ◌≡◌, refl, ◌∙◌, List, [], ◌∷◌, Result, ok, raised, arith, ◌⊎◌, inl, inr,
  Option,
}
use kagura_agent.Membrane.Lease.{Error, cancelled, Lease, Broker, State, remaining, renew}
use kagura_agent.Membrane.Lease.Cases.{Renews, renew_cases, settle_cases}

-- No code of the program: how a caller may use `renew`, one renewal after another, each in whatever
-- state the broker is in by then, and of the lease that the caller then holds: the new one of a
-- renewal that returned, the old one again after a renewal that raised. The result is the sum of the
-- durations granted and the last lease.
unfoldable pub renew_all : {W : Type 0} → Broker W → Lease → List (ℕ × State W) → ℕ × Lease
renew_all b l [] = (0, l)
renew_all b l ((ttl, s) ∷ calls) = elim (renew b l ttl s).0 [
  | raised _ ↦ renew_all b l calls
  | ok new ↦ let (granted, last) = renew_all b new calls in (ttl + granted, last)
]

-- A lease that was returned has paid for its duration.
abbrev Renewed : Lease → ℕ → Result Error Lease → Type 0
Renewed l ttl r =
    (new : Lease)
    → r ≡ ok new
    → (new.budget.total_seconds ≡ l.budget.total_seconds)
      × (new.budget.spent_seconds ≡ l.budget.spent_seconds + ttl)
      × (l.budget.spent_seconds ≤ l.budget.total_seconds
          → new.budget.spent_seconds ≤ new.budget.total_seconds)

Renewed-of :
    (l new : Lease) (cred : String) (handle : Option String) (ttl : ℕ) (r : Result Error Lease)
    → Renews l new cred handle ttl
    → (r ≡ ok new) ⊎ (r ≡ raised cancelled)
    → Renewed l ttl r
Renewed-of l new cred handle ttl r c (inr e) new' h = cc
Renewed-of l new cred handle ttl r c (inl e) new' h =
    (ground (arith, c.same_total), ground (arith, c.spent), λ v. let w = c.within v in ground arith)

module _ {W : Type 0} (b : Broker W) where
  renew-Renewed : (l : Lease) (ttl : ℕ) (s : State W) → Renewed l ttl (renew b l ttl s).0
  renew-Renewed l ttl s =
      renew_cases b s Q l ttl (λ e new h. cc) (λ _ _ _ _ _ new h. cc)
        λ p cred handle new _ _ _ c.
          let done = Renewed-of l new cred handle ttl (ok new) c (inl refl) in
          (
            λ _. done,
            λ _.
                settle_cases b s Q p l new _ (λ _. done) (λ _ _. done)
                  (λ r' _ _ e. Renewed-of l new cred handle ttl r' c e),
          )
    where
      Q : Result Error Lease × State W → Type 0
      Q x = Renewed l ttl x.0

  Result-cases :
      (r : Result Error Lease) → ((e : Error) × (r ≡ raised e)) ⊎ ((l : Lease) × (r ≡ ok l))
  Result-cases (raised e) = inl (e, refl)
  Result-cases (ok l) = inr (l, refl)

  -- From a lease whose budget is not overspent, however many renewals follow, each in whatever state
  -- and of the lease that is then held (after one that raises, the old lease again): the budget of
  -- the last lease has the same total, it has spent what the first had and all the durations granted,
  -- and these together are at most what remained.
  pub renew_all-within :
      (calls : List (ℕ × State W)) (l : Lease)
      → l.budget.spent_seconds ≤ l.budget.total_seconds
      → ((renew_all b l calls).1.budget.total_seconds ≡ l.budget.total_seconds)
        × ((renew_all b l calls).1.budget.spent_seconds
            ≡ l.budget.spent_seconds + (renew_all b l calls).0)
        × ((renew_all b l calls).0 ≤ remaining l.budget)
  unfolding remaining renew_all
  renew_all-within [] l h = (refl, omega arith, omega arith)
  renew_all-within ((ttl, s) ∷ calls) l h = elim (Result-cases (renew b l ttl s).0) [
    | inl (e, failed) ↦ rw (failed, renew_all) (renew_all-within calls l h)
    | inr (new, done) ↦
        let (total, spent, within) = renew-Renewed l ttl s new done in
        let (total', spent', fits) = renew_all-within calls new (within h) in
        let bound = within h in rw (done, renew_all) (total' ∙ total, omega arith, omega arith)
  ]

  -- A renewal that raises leaves the ledger as it was, so the old lease stays tracked; only a
  -- cancellation while the old token is revoked comes after the new lease was recorded.
  renew_raised :
      (l : Lease) (ttl : ℕ) (s : State W) (e : Error)
      → (renew b l ttl s).0 ≡ raised e
      → ((renew b l ttl s).1.ledger ≡ s.ledger) ⊎ (e ≡ cancelled)
  renew_raised l ttl s =
      renew_cases b s Q l ttl (λ _ e _. inl refl) (λ _ _ _ _ _ e _. inl refl)
        λ p cred handle new _ _ _ c. (
          λ _ e h. cc,
          λ _.
              settle_cases b s Q p l new _ (λ _ e h. cc) (λ _ _ e h. cc)
                (λ r' _ _ ends e h. inr (ground (arith, ends))),
        )
    where
      Q : Result Error Lease × State W → Type 0
      Q x = (e : Error) → x.0 ≡ raised e → (x.1.ledger ≡ s.ledger) ⊎ (e ≡ cancelled)
