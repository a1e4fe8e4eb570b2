-- ===== src/Membrane/Lease/Cases.antt =====
-- The states in which the broker's operations can end, as rules for a predicate on states.
use kagura_agent.Prelude.{
  ℕ, ◌+◌, String, ◌≤◌, ◌≡◌, refl, continue, continue_rule, if_rule, true, false, Option, none, some,
  arith, Result, ok, raised, ◌⊎◌, inl, inr, Option-cases,
}
use kagura_agent.Prelude.Dict
use kagura_agent.Membrane.Lease.{
  Error, Call, revoke_permanent, Budget, Lease, Broker, CredProvider, State, spend, find_provider,
  assert_scope_allowed, is_tracked_kind, record_lease, forget, same_handle, after_revoke,
  settle_old, acquire, renew, release, already_gone, untrack, key_error, cancelled,
}

-- The provider answered that the token is gone: the revocation succeeded, or there was no such token.
abbrev pub Confirms : Result Error (Unit {0}) → Type 0
Confirms r = (r ≡ ok tt) ⊎ (r ≡ raised revoke_permanent)

abbrev pub Registered : {W : Type 0} → Broker W → String → CredProvider W → Type 0
Registered b name p = Dict.get b.providers name ≡ some p

pub Registered-find :
    {W : Type 0} (b : Broker W) (name : String) (p : CredProvider W)
    → find_provider b name ≡ ok p
    → Registered b name p
unfolding find_provider
Registered-find b name p h = ground arith

-- The lease that `renew` returns: the old one with a new budget, credential and handle.
pub record Renews (old new : Lease) (cred : String) (handle : Option String) (ttl : ℕ)
    : Type 0 where
  pub same_provider : new.provider ≡ old.provider
  pub same_stateful : new.stateful ≡ old.stateful
  pub same_scope : new.scope ≡ old.scope
  pub same_total : new.budget.total_seconds ≡ old.budget.total_seconds
  pub spent : new.budget.spent_seconds ≡ old.budget.spent_seconds + ttl
  pub within :
      old.budget.spent_seconds ≤ old.budget.total_seconds
      → new.budget.spent_seconds ≤ new.budget.total_seconds
  pub new_cred : new.cred ≡ some cred
  pub new_handle : new.handle ≡ handle

-- A payment from a budget adds up, and never passes the total.
pub spend_lem :
    (b c : Budget) (t : ℕ)
    → spend b t ≡ ok c
    → (c.total_seconds ≡ b.total_seconds)
      × (c.spent_seconds ≡ b.spent_seconds + t)
      × (b.spent_seconds ≤ b.total_seconds → c.spent_seconds ≤ c.total_seconds)
unfolding spend
spend_lem b c t h = (ground arith, ground arith, λ v. ground arith)

module _ {W : Type 0} (Q : Result Error Lease × State W → Type 0) (old new : Lease)
    (s : State W) where
  after_revoke_cases :
      (r : Result Error (Unit {0}))
      → (Confirms r → Q (ok new, record s { ledger = forget s.ledger old }))
      → ((r' : Result Error Lease)
          → ¬ Confirms r
          → (r' ≡ ok new) ⊎ (r' ≡ raised cancelled)
          → Q (r', s))
      → Q (after_revoke r old new s)
  unfolding after_revoke
  after_revoke_cases (ok tt) confirmed kept = confirmed (inl refl)
  after_revoke_cases (raised revoke_permanent) confirmed kept = confirmed (inr refl)
  after_revoke_cases (raised cancelled) confirmed kept =
      kept (raised cancelled) (λ c. grind arith) (inr refl)
  after_revoke_cases (raised _) confirmed kept = kept (ok new) (λ c. grind arith) (inl refl)

module _ {W : Type 0} (Q : Result Error (Unit {0}) × State W → Type 0) (l : Lease)
    (s : State W) where
  already_gone_cases :
      (r : Result Error (Unit {0}))
      → (Confirms r → Q (ok tt, record s { ledger = forget s.ledger l }))
      → ((e : Error) → ¬ Confirms r → r ≡ raised e → Q (raised e, s))
      → Q (continue (already_gone r) (λ _. untrack l) s)
  unfolding already_gone untrack
  already_gone_cases (ok tt) confirmed kept = confirmed (inl refl)
  already_gone_cases (raised revoke_permanent) confirmed kept = confirmed (inr refl)
  already_gone_cases (raised e) confirmed kept = kept e (λ c. grind arith) refl

module _ {W : Type 0} (b : Broker W) (s : State W) where
  pub acquire_cases :
      (Q : Result Error Lease × State W → Type 0) (name scope : String) (ttl : ℕ) (budget : Budget)
      → ((e : Error) → Q (raised e, s))
      → ((p : CredProvider W) (e : Error)
          → Registered b name p
          → assert_scope_allowed p scope ≡ ok tt
          → (p.mint scope ttl s.world).0 ≡ raised e
          → Q (raised e, record s { world = (p.mint scope ttl s.world).1 }))
      → ((p : CredProvider W) (cred : String) (handle : Option String) (l : Lease)
          → Registered b name p
          → assert_scope_allowed p scope ≡ ok tt
          → (p.mint scope ttl s.world).0 ≡ ok (cred, handle)
          → l.provider ≡ name
          → l.handle ≡ handle
          → l.stateful ≡ p.stateful
          → Q (
            ok l,
            record s { ledger = record_lease s.ledger l; world = (p.mint scope ttl s.world).1 },
          ))
      → Q (acquire b name scope ttl budget s)
  unfolding acquire
  acquire_cases Q name scope ttl budget early refused minted =
      continue_rule Q (find_provider b name) _ s (λ e _. early e)
        λ p found.
          continue_rule Q (assert_scope_allowed p scope) _ s (λ e _. early e)
            λ u allowed.
              continue_rule Q (p.mint scope ttl s.world).0 _ _
                (λ e h. refused p e (Registered-find b name p found) allowed h)
                λ m h. minted p m.0 m.1 _ (Registered-find b name p found) allowed h refl refl refl

  -- Once the replacement is minted, the state holds it in the ledger; then the old token is settled.
  abbrev minted_state : Lease → W → State W
  minted_state new w = record s { ledger = record_lease s.ledger new; world = w }

  pub settle_cases :
      (Q : Result Error Lease × State W → Type 0) (p : CredProvider W) (old new : Lease) (w : W)
      → (is_tracked_kind old ≡ false
          → Q (ok new, record s { ledger = forget (record_lease s.ledger new) old; world = w }))
      → (is_tracked_kind old ≡ true
          → Confirms (p.revoke old.handle w).0
          → Q (
            ok new,
            record s {
              ledger = forget (record_lease s.ledger new) old;
              world = (p.revoke old.handle w).1;
            },
          ))
      → ((r : Result Error Lease)
          → is_tracked_kind old ≡ true
          → ¬ Confirms (p.revoke old.handle w).0
          → (r ≡ ok new) ⊎ (r ≡ raised cancelled)
          → Q (r, minted_state new (p.revoke old.handle w).1))
      → Q (settle_old p old new (minted_state new w))
  unfolding settle_old
  settle_cases Q p old new w untracked confirmed kept =
      if_rule Q (is_tracked_kind old) _ _ _
        (λ t.
          after_revoke_cases Q old new (minted_state new (p.revoke old.handle w).1)
            (p.revoke old.handle w).0 (confirmed t) (λ r c e. kept r t c e))
        untracked

  pub renew_cases :
      (Q : Result Error Lease × State W → Type 0) (old : Lease) (ttl : ℕ)
      → ((e : Error) → Q (raised e, s))
      → ((p : CredProvider W) (e : Error)
          → Registered b old.provider p
          → assert_scope_allowed p old.scope ≡ ok tt
          → (p.mint old.scope ttl s.world).0 ≡ raised e
          → Q (raised e, record s { world = (p.mint old.scope ttl s.world).1 }))
      → ((p : CredProvider W) (cred : String) (handle : Option String) (new : Lease)
          → Registered b old.provider p
          → assert_scope_allowed p old.scope ≡ ok tt
          → (p.mint old.scope ttl s.world).0 ≡ ok (cred, handle)
          → Renews old new cred handle ttl
          → (same_handle old.handle handle ≡ true
              → Q (ok new, minted_state new (p.mint old.scope ttl s.world).1))
            × (same_handle old.handle handle ≡ false
                → Q (settle_old p old new (minted_state new (p.mint old.scope ttl s.world).1))))
      → Q (renew b old ttl s)
  unfolding renew
  renew_cases Q old ttl early refused minted =
      continue_rule Q (spend old.budget ttl) _ s (λ e _. early e)
        λ budget paid.
          continue_rule Q (find_provider b old.provider) _ s (λ e _. early e)
            λ p found.
              continue_rule Q (assert_scope_allowed p old.scope) _ s (λ e _. early e)
                λ u allowed.
                  continue_rule Q (p.mint old.scope ttl s.world).0 _ _
                    (λ e h. refused p e (Registered-find b old.provider p found) allowed h)
                    λ m h.
                      let (total, spent, within) = spend_lem old.budget budget ttl paid in
                      let clauses =
                        minted p m.0 m.1 _ (Registered-find b old.provider p found) allowed h
                          (record {
                            same_provider = refl;
                            same_stateful = refl;
                            same_scope = refl;
                            same_total = total;
                            spent = spent;
                            within = within;
                            new_cred = refl;
                            new_handle = refl;
                          }) in
                      if_rule Q (same_handle old.handle m.1) _ _ _ clauses.0 clauses.1

  find_cases :
      {A : Type 0} (Q : Result Error A × State W → Type 0) (f : CredProvider W → Call W A)
      (name : String)
      → (Dict.get b.providers name ≡ none → Q (raised key_error, s))
      → ((p : CredProvider W) → Registered b name p → Q (f p s))
      → Q (continue (find_provider b name) f s)
  unfolding find_provider
  find_cases Q f name unknown found = elim (Option-cases (Dict.get b.providers name)) [
    | inl e ↦ rw (e, find_provider) (unknown e)
    | inr (p, e) ↦ rw (e, find_provider) (found p e)
  ]

  pub release_cases :
      (Q : Result Error (Unit {0}) × State W → Type 0) (l : Lease)
      → (l.stateful ≡ true → Dict.get b.providers l.provider ≡ none → Q (raised key_error, s))
      → (l.stateful ≡ false → Q (ok tt, record s { ledger = forget s.ledger l }))
      → ((p : CredProvider W)
          → l.stateful ≡ true
          → Registered b l.provider p
          → Confirms (p.revoke l.handle s.world).0
          → Q (
            ok tt,
            record s { ledger = forget s.ledger l; world = (p.revoke l.handle s.world).1 },
          ))
      → ((p : CredProvider W) (e : Error)
          → l.stateful ≡ true
          → Registered b l.provider p
          → ¬ Confirms (p.revoke l.handle s.world).0
          → (p.revoke l.handle s.world).0 ≡ raised e
          → Q (raised e, record s { world = (p.revoke l.handle s.world).1 }))
      → Q (release b l s)
  unfolding release
  release_cases Q l unknown stateless confirmed refused =
      let rest : Call W (Unit {0}) = untrack l in
      let Q' = λ (x : Result Error (Unit {0}) × State W). Q (continue x.0 (λ _. rest) x.1) in
      if_rule Q' l.stateful _ _ s
        (λ t.
          find_cases Q' _ l.provider (unknown t)
            (λ p here. already_gone_cases Q l _ _ (confirmed p t here) (λ e. refused p e t here)))
        stateless
