-- ===== src/Membrane/Lease/Safety.antt =====
-- The broker's operations orphan no token: what is live at a provider stays in the ledger, where
-- the sweep of a restart finds it.
use kagura_agent.Prelude.{
  ℕ, String, ◌≡◌, sym, ◌∙◌, subst, ap, Bool, false, Option, none, some, arith, Result, ok, raised,
  inl, inr,
}
use kagura_agent.Membrane.Lease.{
  Error, Budget, Lease, Broker, CredProvider, State, record_lease, forget, is_tracked_kind, acquire,
  renew, release,
}
use kagura_agent.Membrane.Lease.Cases.{
  Confirms, Registered, acquire_cases, renew_cases, settle_cases, release_cases,
}
use kagura_agent.Membrane.Lease.Tokens.{
  Live, IsContract, IsTracked, Held-record, Held-record_self, Held-forget,
}

-- A lease that names a provider of the broker, and agrees with it on whether tokens are revoked.
pub record IsGenuine {W : Type 0} (b : Broker W) (l : Lease) : Type 0 where
  pub provider : CredProvider W
  pub registered : Registered b l.provider provider
  pub same_kind : l.stateful ≡ provider.stateful

abbrev kind_of : {W : Type 0} → Bool → Option (CredProvider W) → Bool
kind_of d none = d
kind_of d (some p) = p.stateful

pub genuine_kind :
    {W : Type 0} (b : Broker W) (l : Lease) (p : CredProvider W)
    → IsGenuine b l
    → Registered b l.provider p
    → l.stateful ≡ p.stateful
genuine_kind b l p g reg = g.same_kind ∙ ap (kind_of l.stateful) (sym g.registered ∙ reg)

module _ {W : Type 0} (b : Broker W) (live : Live W) (c : IsContract b live) (s : State W)
    (t : IsTracked live s) where
  -- A minted lease that is recorded keeps the ledger complete.
  minted-IsTracked :
      (p : CredProvider W) (scope : String) (ttl : ℕ) (cred : String) (handle : Option String)
      (l : Lease)
      → Registered b l.provider p
      → (p.mint scope ttl s.world).0 ≡ ok (cred, handle)
      → l.handle ≡ handle
      → l.stateful ≡ p.stateful
      → IsTracked live
          (record s { ledger = record_lease s.ledger l; world = (p.mint scope ttl s.world).1 })
  minted-IsTracked p scope ttl cred handle l reg answer h k m j alive =
      elim (c.minted l.provider p scope ttl s.world m j reg alive) [
        | inl before ↦
            Held-record s.ledger l m j (c.named l.provider p reg) (c.owned _ m j before).0
              (t m j before)
        | inr (names, stateful, (cred', answer')) ↦
            Held-record_self s.ledger l m j (sym names) (ground arith) (k ∙ stateful)
      ]

  -- A mint that raises makes no token.
  refused-IsTracked :
      (n : String) (p : CredProvider W) (scope : String) (ttl : ℕ) (e : Error)
      → Registered b n p
      → (p.mint scope ttl s.world).0 ≡ raised e
      → IsTracked live (record s { world = (p.mint scope ttl s.world).1 })
  refused-IsTracked n p scope ttl e reg answer m j alive =
      elim (c.minted n p scope ttl s.world m j reg alive) [
        | inl before ↦ t m j before
        | inr (names, stateful, (cred', answer')) ↦ absurd (cc)
      ]

  -- A revocation makes no token.
  pub revoked-IsTracked :
      (n : String) (p : CredProvider W) (handle : Option String)
      → Registered b n p
      → IsTracked live (record s { world = (p.revoke handle s.world).1 })
  revoked-IsTracked n p handle reg m j alive = t m j (c.kept n p handle s.world m j reg alive)

  -- A token that its provider confirmed to be gone may be forgotten.
  pub confirmed-IsTracked :
      (p : CredProvider W) (l : Lease)
      → Registered b l.provider p
      → Confirms (p.revoke l.handle s.world).0
      → IsTracked live
          (record s { ledger = forget s.ledger l; world = (p.revoke l.handle s.world).1 })
  confirmed-IsTracked p l reg confirms m j alive =
      let before = c.kept l.provider p l.handle s.world m j reg alive in
      Held-forget s.ledger l m j (c.named l.provider p reg) (c.owned _ m j before).0
        (c.owned _ m j before).1
        (λ same.
          let dead =
            c.gone l.provider p j s.world reg
              (subst (λ h. Confirms (p.revoke h s.world).0) same.1 confirms) in
          ground (arith, same.0, same.1))
        (t m j before)

  -- A lease that the ledger does not record stands for no live token.
  untracked-IsTracked :
      (l : Lease)
      → IsGenuine b l
      → is_tracked_kind l ≡ false
      → IsTracked live (record s { ledger = forget s.ledger l })
  unfolding is_tracked_kind
  untracked-IsTracked l g kind m j alive =
      Held-forget s.ledger l m j (c.named l.provider g.provider g.registered)
        (c.owned _ m j alive).0 (c.owned _ m j alive).1
        (λ same.
          let stateful =
            c.stateful_only s.world m j g.provider alive
              (subst (λ n. Registered b n g.provider) same.0 g.registered) in
          let kind' = g.same_kind in ground (arith, same.1))
        (t m j alive)

stateless-untracked : (l : Lease) → l.stateful ≡ false → is_tracked_kind l ≡ false
unfolding is_tracked_kind
stateless-untracked l h = ground arith

-- Statements about the state that an operation leaves, whatever its result.
abbrev pub After : {W R : Type 0} → (State W → Type 0) → Result Error R × State W → Type 0
After P x = P x.1

module _ {W : Type 0} (b : Broker W) (live : Live W) (c : IsContract b live) (s : State W) where
  -- If every live token is in the ledger before `acquire`, then every one is after it, the new one
  -- included, whether it returns or raises.
  pub acquire-IsTracked :
      IsTracked live s
      → (name scope : String) (ttl : ℕ) (budget : Budget)
      → IsTracked live (acquire b name scope ttl budget s).1
  acquire-IsTracked t name scope ttl budget =
      acquire_cases b s (After (IsTracked live)) name scope ttl budget (λ e. t)
        (λ p e reg _ answer. refused-IsTracked b live c s t name p scope ttl e reg answer)
        (λ p cred handle l reg _ answer n h k.
          minted-IsTracked b live c s t p scope ttl cred handle l
            (subst (λ x. Registered b x p) (sym n) reg) answer h k)

  -- The same of `release`, for a lease that agrees with its provider.
  pub release-IsTracked :
      IsTracked live s → (l : Lease) → IsGenuine b l → IsTracked live (release b l s).1
  release-IsTracked t l g =
      release_cases b s (After (IsTracked live)) l (λ _ _. t)
        (λ stateless. untracked-IsTracked b live c s t l g (stateless-untracked l stateless))
        (λ p _ reg confirms. confirmed-IsTracked b live c s t p l reg confirms)
        (λ p e _ reg _ _. revoked-IsTracked b live c s t l.provider p l.handle reg)

  -- The same of `renew`, for a lease that agrees with its provider: neither a failed mint, nor a
  -- failed revocation of the old token, nor a cancellation orphans the old token or the new one.
  pub renew-IsTracked :
      IsTracked live s → (l : Lease) (ttl : ℕ) → IsGenuine b l → IsTracked live (renew b l ttl s).1
  renew-IsTracked t l ttl g =
      renew_cases b s (After (IsTracked live)) l ttl (λ e. t)
        (λ p e reg _ answer. refused-IsTracked b live c s t l.provider p l.scope ttl e reg answer)
        λ p cred handle new reg _ answer r.
          let next = record s {
            ledger = record_lease s.ledger new;
            world = (p.mint l.scope ttl s.world).1;
          } in
          let t' =
            minted-IsTracked b live c s t p l.scope ttl cred handle new
              (subst (λ x. Registered b x p) (sym r.same_provider) reg) answer r.new_handle
              (r.same_stateful ∙ genuine_kind b l p g reg) in
          (
            λ _. t',
            λ _.
                settle_cases b s (After (IsTracked live)) p l new next.world
                  (untracked-IsTracked b live c next t' l g)
                  (λ _ confirms. confirmed-IsTracked b live c next t' p l reg confirms)
                  (λ r' _ _ _. revoked-IsTracked b live c next t' l.provider p l.handle reg),
          )
