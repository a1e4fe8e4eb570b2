-- ===== src/Membrane/Lease/Histories.antt =====
-- Every history of a broker: its operations in any order, with whatever the providers do on their
-- own in between.
use kagura_agent.Prelude.{
  ℕ, String, ◌≡◌, sym, ◌∙◌, subst, true, arith, inl, inr, [], ◌∷◌, Bool-cases, All, ◌==◌, Result,
  ok, ok_inj,
}
use kagura_agent.Prelude.Dict
use kagura_agent.Membrane.Lease.{
  Error, Budget, Lease, Ledger, Broker, State, record_lease, forget, acquire, renew, release, sweep,
  open_leases, is_tracked_kind,
}
use kagura_agent.Membrane.Lease.Cases.{
  Registered, acquire_cases, renew_cases, settle_cases, release_cases,
}
use kagura_agent.Membrane.Lease.Tokens.{Live, IsContract, IsTracked}
use kagura_agent.Membrane.Lease.Safety.{
  After, IsGenuine, genuine_kind, acquire-IsTracked, renew-IsTracked, release-IsTracked,
}
use kagura_agent.Membrane.Lease.Sweep.{IsRevocable, sweep_keeps, sweep-IsTracked}

All-put :
    (d : Ledger) (k : String) (l : Lease)
    → All IsRevocable (Dict.values d)
    → IsRevocable l
    → All IsRevocable (Dict.values (Dict.put d k l))
unfolding Dict.put
All-put [] k l h t = (t, tt)
All-put ((i, x) ∷ d) k l h t = elim (Bool-cases (i == k)) [
  | inl e ↦ rw e (t, h.1)
  | inr e ↦ rw e (h.0, All-put d k l h.1 t)
]

All-remove :
    (d : Ledger) (k : String)
    → All IsRevocable (Dict.values d)
    → All IsRevocable (Dict.values (Dict.remove d k))
unfolding Dict.remove
All-remove [] k h = tt
All-remove ((i, x) ∷ d) k h = elim (Bool-cases (i == k)) [
  | inl e ↦ rw e (All-remove d k h.1)
  | inr e ↦ rw e (h.0, All-remove d k h.1)
]

-- Every entry of the ledger can be revoked.
abbrev pub AllRevocable : {W : Type 0} → State W → Type 0
AllRevocable s = All IsRevocable (Dict.values s.ledger)

record-IsRevocable :
    (d : Ledger) (l : Lease)
    → All IsRevocable (Dict.values d)
    → All IsRevocable (Dict.values (record_lease d l))
unfolding record_lease
record-IsRevocable d l h = elim (Bool-cases (is_tracked_kind l)) [
  | inl t ↦ rw t (All-put d _ l h (ground arith))
  | inr f ↦ rw f h
]

forget-IsRevocable :
    (d : Ledger) (l : Lease)
    → All IsRevocable (Dict.values d)
    → All IsRevocable (Dict.values (forget d l))
unfolding forget
forget-IsRevocable d l h = All-remove d _ h

module _ {W : Type 0} (b : Broker W) (s : State W) (h : AllRevocable s) where
  acquire-AllRevocable :
      (name scope : String) (ttl : ℕ) (budget : Budget)
      → AllRevocable (acquire b name scope ttl budget s).1
  acquire-AllRevocable name scope ttl budget =
      acquire_cases b s (After AllRevocable) name scope ttl budget (λ _. h) (λ _ _ _ _ _. h)
        (λ p cred handle l _ _ _ _ _ _. record-IsRevocable s.ledger l h)

  renew-AllRevocable : (l : Lease) (ttl : ℕ) → AllRevocable (renew b l ttl s).1
  renew-AllRevocable l ttl =
      renew_cases b s (After AllRevocable) l ttl (λ _. h) (λ _ _ _ _ _. h)
        λ p cred handle new _ _ _ _.
          let h' = record-IsRevocable s.ledger new h in
          (
            λ _. h',
            λ _.
                settle_cases b s (After AllRevocable) p l new _ (λ _. forget-IsRevocable _ l h')
                  (λ _ _. forget-IsRevocable _ l h') (λ _ _ _ _. h'),
          )

  release-AllRevocable : (l : Lease) → AllRevocable (release b l s).1
  release-AllRevocable l =
      release_cases b s (After AllRevocable) l (λ _ _. h) (λ _. forget-IsRevocable s.ledger l h)
        (λ _ _ _ _. forget-IsRevocable s.ledger l h) (λ _ _ _ _ _ _. h)

  sweep-AllRevocable : AllRevocable (sweep b s).1
  sweep-AllRevocable =
      sweep_keeps b AllRevocable (λ _ _ _ g _. g) (λ s' _ l g _ _. forget-IsRevocable s'.ledger l g)
        s (unfold open_leases in h) h

module _ {W : Type 0} (b : Broker W) (live : Live W) where
  -- A lease that `acquire` returns names its provider and agrees with it.
  pub acquire-IsGenuine :
      (name scope : String) (ttl : ℕ) (budget : Budget) (s : State W) (l : Lease)
      → (acquire b name scope ttl budget s).0 ≡ ok l
      → IsGenuine b l
  acquire-IsGenuine name scope ttl budget s =
      acquire_cases b s Q name scope ttl budget (λ e l h. cc) (λ _ _ _ _ _ l h. cc)
        (λ p cred handle new reg _ _ named _ kind l h. subst (IsGenuine b) (ok_inj h) (record {
          provider = p;
          registered = subst (λ n. Registered b n p) (sym named) reg;
          same_kind = kind;
        }))
    where
      Q : Result Error Lease × State W → Type 0
      Q x = (l : Lease) → x.0 ≡ ok l → IsGenuine b l

  -- A lease that `renew` returns for such a lease is another one.
  renew-IsGenuine :
      (old : Lease) (ttl : ℕ) (s : State W)
      → IsGenuine b old
      → (new : Lease) → (renew b old ttl s).0 ≡ ok new
      → IsGenuine b new
  renew-IsGenuine old ttl s g =
      renew_cases b s Q old ttl (λ e l h. cc) (λ _ _ _ _ _ l h. cc)
        λ p cred handle new reg _ _ c.
          let new-IsGenuine : IsGenuine b new = record {
            provider = p;
            registered = subst (λ n. Registered b n p) (sym c.same_provider) reg;
            same_kind = c.same_stateful ∙ genuine_kind b old p g reg;
          } in
          (
            λ _ l h. subst (IsGenuine b) (ok_inj h) new-IsGenuine,
            λ _.
                settle_cases b s Q p old new _
                  (λ _ l h. subst (IsGenuine b) (ok_inj h) new-IsGenuine)
                  (λ _ _ l h. subst (IsGenuine b) (ok_inj h) new-IsGenuine)
                  (λ r _ _ ends l h. elim ends [
                    | inl e ↦ subst (IsGenuine b) (ok_inj (sym e ∙ h)) new-IsGenuine
                    | inr e ↦ absurd (cc (sym e ∙ h))
                  ]),
          )
    where
      Q : Result Error Lease × State W → Type 0
      Q x = (l : Lease) → x.0 ≡ ok l → IsGenuine b l

  -- One step: an operation, returned or raised, or a change outside that makes no token live. Leases are
  -- values that a caller hands in; those to renew or release are genuine ones here.
  pub data Step (s t : State W) : Type 0 where
    acquires :
        (name scope : String) (ttl : ℕ) (budget : Budget)
        → t ≡ (acquire b name scope ttl budget s).1
        → Step s t
    renews : (l : Lease) (ttl : ℕ) → IsGenuine b l → t ≡ (renew b l ttl s).1 → Step s t
    releases : (l : Lease) → IsGenuine b l → t ≡ (release b l s).1 → Step s t
    sweeps : t ≡ (sweep b s).1 → Step s t
    outside :
        (w : W)
        → ((m j : String) → live w m j ≡ true → live s.world m j ≡ true)
        → t ≡ record s { world = w }
        → Step s t

  pub data Reach (s : State W) : State W → Type 0 where
    here : Reach s s
    next : {t u : State W} → Reach s t → Step t u → Reach s u

  Sound : State W → Type 0
  Sound s = AllRevocable s × IsTracked live s

  Step-Sound : IsContract b live → {s t : State W} → Step s t → Sound s → Sound t
  unfolding Sound
  Step-Sound c {s} (acquires name scope ttl budget e) (r, h) = rw e (
    acquire-AllRevocable b s r name scope ttl budget,
    acquire-IsTracked b live c s h name scope ttl budget,
  )
  Step-Sound c {s} (renews l ttl g e) (r, h) =
      rw e (renew-AllRevocable b s r l ttl, renew-IsTracked b live c s h l ttl g)
  Step-Sound c {s} (releases l g e) (r, h) =
      rw e (release-AllRevocable b s r l, release-IsTracked b live c s h l g)
  Step-Sound c {s} (sweeps e) (r, h) =
      rw e (sweep-AllRevocable b s r, sweep-IsTracked b live c s (unfold open_leases in r) h)
  Step-Sound c {s} (outside w keeps e) (r, h) = rw e (r, λ m j alive. h m j (keeps m j alive))

  Reach-Sound : IsContract b live → {s t : State W} → Reach s t → Sound s → Sound t
  Reach-Sound c here h = h
  Reach-Sound c (next r st) h = Step-Sound c st (Reach-Sound c r h)

  -- With providers that keep the contract `IsContract`: from a broker state in which every ledger entry
  -- is revocable and every live token has its lease in the ledger, every history of acquire, renew,
  -- release and sweep (returning or raising), with expiries and revocations outside in between, ends in
  -- such a state, if each lease that is renewed or released is genuine: it names a registered provider,
  -- and agrees with it on whether its tokens are revoked.
  pub no_orphan :
      IsContract b live
      → {s t : State W} → AllRevocable s
      → IsTracked live s
      → Reach s t
      → AllRevocable t × IsTracked live t
  unfolding Sound
  no_orphan c r h path = Reach-Sound c path (r, h)
