-- ===== src/Membrane/Lease/Sweep.antt =====
-- The sweep of a restart: `CredentialBroker.sweep`.
use kagura_agent.Prelude.{
  ◌≡◌, sym, ◌∙◌, true, inl, inr, List, [], ◌∷◌, continue_rule, Option-cases, All,
}
use kagura_agent.Prelude.Dict
use kagura_agent.Membrane.Lease.{
  Lease, Broker, CredProvider, State, forget, sweep_one, sweep_all, sweep, open_leases,
}
use kagura_agent.Membrane.Lease.Cases.{Confirms, Registered, release_cases}
use kagura_agent.Membrane.Lease.Tokens.{Live, IsContract, IsTracked}
use kagura_agent.Membrane.Lease.Safety.{After, confirmed-IsTracked, revoked-IsTracked}

abbrev pub IsRevocable : Lease → Type 0
IsRevocable l = l.stateful ≡ true

-- A predicate that every revocation of a registered lease keeps, forgotten or not, is kept by the
-- sweep.
module _ {W : Type 0} (b : Broker W) (P : State W → Type 0)
    (revoked : (s : State W) (p : CredProvider W) (l : Lease)
      → P s
      → Registered b l.provider p
      → P (record s { world = (p.revoke l.handle s.world).1 }))
    (confirmed : (s : State W) (p : CredProvider W) (l : Lease)
      → P s
      → Registered b l.provider p
      → Confirms (p.revoke l.handle s.world).0
      → P (record s { ledger = forget s.ledger l; world = (p.revoke l.handle s.world).1 })) where
  pub sweep_one_keeps : (l : Lease) (s : State W) → IsRevocable l → P s → P (sweep_one b l s).1
  unfolding sweep_one
  sweep_one_keeps l s t h = elim (Option-cases (Dict.get b.providers l.provider)) [
    | inl e ↦ rw (e, sweep_one) h
    | inr (q, e) ↦
        rw (e, sweep_one)
          (release_cases b s (After P) l (λ _ _. h) (λ f. absurd (cc (sym t ∙ f)))
            (λ p _ reg c. confirmed s p l h reg c) (λ p _ _ reg _ _. revoked s p l h reg))
  ]

  pub sweep_all_keeps :
      (ls : List Lease) (s : State W) → All IsRevocable ls → P s → P (sweep_all b ls s).1
  unfolding sweep_all
  sweep_all_keeps [] s t h = h
  sweep_all_keeps (l ∷ ls) s t h =
      continue_rule (After P) (sweep_one b l s).0 (λ _. sweep_all b ls) (sweep_one b l s).1
        (λ _ _. sweep_one_keeps l s t.0 h)
        (λ _ _. sweep_all_keeps ls (sweep_one b l s).1 t.1 (sweep_one_keeps l s t.0 h))

  pub sweep_keeps : (s : State W) → All IsRevocable (open_leases s) → P s → P (sweep b s).1
  unfolding sweep
  sweep_keeps s t h = sweep_all_keeps (open_leases s) s t h

module _ {W : Type 0} (b : Broker W) (live : Live W) (c : IsContract b live) (s : State W) where
  -- The sweep orphans no token: what is live after it is still in the ledger.
  pub sweep-IsTracked :
      All IsRevocable (open_leases s) → IsTracked live s → IsTracked live (sweep b s).1
  sweep-IsTracked =
      sweep_keeps b (IsTracked live)
        (λ s' p l t reg. revoked-IsTracked b live c s' t l.provider p l.handle reg)
        (λ s' p l t reg confirms. confirmed-IsTracked b live c s' t p l reg confirms) s
