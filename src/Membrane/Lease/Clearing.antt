-- ===== src/Membrane/Lease/Clearing.antt =====
-- What the sweep achieves: the tokens of a provider that answers are gone after it, also where the
-- revocations at other providers fail.
use kagura_agent.Prelude.{
  String, ◌≡◌, ◌≢◌, refl, sym, ◌∙◌, subst, false, Option, some, arith, Result, ok, raised, ◌⊎◌, inl,
  inr, List, [], ◌∷◌, Option-cases, Bool-cases, All, ◌==◌,
}
use kagura_agent.Prelude.Dict
use kagura_agent.Prelude.Dict.{Dict}
use kagura_agent.Membrane.Lease.{
  Error, cancelled, Lease, Ledger, Broker, CredProvider, State, sweep_one, sweep_all, sweep,
  open_leases, swallow,
}
use kagura_agent.Membrane.Lease.Cases.{Confirms, Registered, release_cases}
use kagura_agent.Membrane.Lease.Tokens.{Live, IsContract, IsTracked}
use kagura_agent.Membrane.Lease.Safety.{After}
use kagura_agent.Membrane.Lease.Sweep.{IsRevocable, sweep_all_keeps}

-- The list has a lease of this token.
abbrev Lists : List Lease → String → String → Type 0
Lists [] m j = ⊥
Lists (l ∷ ls) m j = ((l.provider ≡ m) × (l.handle ≡ some j)) ⊎ Lists ls m j

Held-Lists :
    (d : Ledger) (k : String) (l : Lease) (m j : String)
    → Dict.get d k ≡ some l
    → l.provider ≡ m
    → l.handle ≡ some j
    → Lists (Dict.values d) m j
unfolding Dict.get
Held-Lists [] k l m j found p h = cc
Held-Lists ((i, x) ∷ d) k l m j found p h = elim (Bool-cases (i == k)) [
  | inl t ↦ inl (ground (arith, t, found), ground (arith, t, found))
  | inr f ↦ inr (Held-Lists d k l m j (ground (arith, f, found)) p h)
]

module _ {W : Type 0} (b : Broker W) (live : Live W) (c : IsContract b live)
    (answers : (n : String) (p : CredProvider W) (h : Option String) (w : W)
      → Registered b n p
      → (p.revoke h w).0 ≢ raised cancelled)
    (m : String) (q : CredProvider W) (reg : Registered b m q)
    (certain : (p : CredProvider W) (h : Option String) (w : W)
      → Registered b m p
      → Confirms (p.revoke h w).0)
    (j : String) where
  abbrev IsDead : State W → Type 0
  IsDead s = live s.world m j ≡ false

  stays-IsDead :
      (s : State W) (p : CredProvider W) (l : Lease) (d : Ledger)
      → IsDead s
      → Registered b l.provider p
      → IsDead (record s { ledger = d; world = (p.revoke l.handle s.world).1 })
  stays-IsDead s p l d dead r = elim (Bool-cases (live (p.revoke l.handle s.world).1 m j)) [
    | inl t ↦ absurd (cc (sym dead ∙ c.kept l.provider p l.handle s.world m j r t))
    | inr f ↦ f
  ]

  killed :
      (l : Lease) (s : State W) (p : CredProvider W)
      → l.provider ≡ m
      → l.handle ≡ some j
      → Registered b l.provider p
      → live (p.revoke l.handle s.world).1 m j ≡ false
  killed l s p n h r = rw h (c.gone m p j s.world reg' (certain p (some j) s.world reg'))
    where
      reg' : Registered b m p
      reg' = subst (λ x. Registered b x p) n r

  kills :
      (l : Lease) (s : State W)
      → IsRevocable l
      → l.provider ≡ m
      → l.handle ≡ some j
      → IsDead (sweep_one b l s).1
  unfolding sweep_one
  kills l s t n h =
      rw (found, sweep_one)
        (release_cases b s (After IsDead) l (λ _ missing. absurd (cc (sym found ∙ missing)))
          (λ f. absurd (cc (sym t ∙ f))) (λ p _ r _. killed l s p n h r)
          (λ p _ _ r _ _. killed l s p n h r))
    where
      found : Registered b l.provider q
      found = subst (λ x. Registered b x q) (sym n) reg

  swallow_lem : (r : Result Error (Unit {0})) → r ≢ raised cancelled → swallow r ≡ ok tt
  unfolding swallow
  swallow_lem r h = ground arith

  -- A lease that cannot be revoked does not stop the sweep.
  goes_on : (l : Lease) (s : State W) → IsRevocable l → (sweep_one b l s).0 ≡ ok tt
  unfolding sweep_one swallow
  goes_on l s t = elim (Option-cases (Dict.get b.providers l.provider)) [
    | inl e ↦ rw (e, sweep_one)
    | inr (p, e) ↦
        rw (e, sweep_one)
          (release_cases b s (λ x. swallow x.0 ≡ ok tt) l (λ _ _. refl) (λ f. refl)
            (λ p' _ _ _. refl)
            (λ p' e' _ r _ answer.
              swallow_lem (raised e')
                (λ is. answers l.provider p' l.handle s.world r (answer ∙ is))))
  ]

  sweep_all_kills :
      (ls : List Lease) (s : State W)
      → All IsRevocable ls
      → Lists ls m j
      → IsDead (sweep_all b ls s).1
  unfolding sweep_all
  sweep_all_kills [] s t e = absurd e
  sweep_all_kills (l ∷ ls) s t (inl (n, h)) = rw (goes_on l s t.0) (
      sweep_all_keeps b IsDead (λ s' p l' dead r. stays-IsDead s' p l' s'.ledger dead r)
        (λ s' p l' dead r _. stays-IsDead s' p l' s'.ledger dead r) ls (sweep_one b l s).1 t.1
        (kills l s t.0 n h))
  sweep_all_kills (l ∷ ls) s t (inr rest) =
      rw (goes_on l s t.0) (sweep_all_kills ls (sweep_one b l s).1 t.1 rest)

  -- Let no revocation be cancelled, let every ledger entry be revocable and every live token be in the
  -- ledger. If the provider `m` is registered and confirms its revocations, then no token of `m` is
  -- live after the sweep, whatever the other providers answer.
  pub sweep_clears :
      (s : State W)
      → All IsRevocable (open_leases s)
      → IsTracked live s
      → live (sweep b s).1.world m j ≡ false
  unfolding sweep
  sweep_clears s t tracked = elim (Bool-cases (live s.world m j)) [
    | inl alive ↦
        let (l, found, n, h, _) = tracked m j alive in
        sweep_all_kills (open_leases s) s t
          (unfold open_leases in Held-Lists s.ledger _ l m j found n h)
    | inr dead ↦
        sweep_all_keeps b IsDead (λ s' p l' d r. stays-IsDead s' p l' s'.ledger d r)
          (λ s' p l' d r _. stays-IsDead s' p l' s'.ledger d r) (open_leases s) s t dead
  ]
