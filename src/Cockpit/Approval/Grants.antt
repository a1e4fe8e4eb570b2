-- ===== src/Cockpit/Approval/Grants.antt =====
-- When a consumer sees an approval.
use kagura_agent.Prelude.{
  ℕ, ◌+◌, ◌≤◌, String, ◌≡◌, sym, ◌∙◌, ap, subst, Bool, true, false, Option, none, some, eqb,
  eqb_iff, arith, Bool-cases, ◌⊎◌, inl, inr, if◌then◌else◌,
}
use kagura_agent.Prelude.Dict
use kagura_agent.Prelude.Dict.{get-remove}
use kagura_agent.Cockpit.Approval.{
  CapabilityRequest, Future, waiting, decided, cancelled, Pending, Registry, settle, settle_at,
  set_result, expired, purge_if_expired, resolve,
}
use kagura_agent.Cockpit.Approval.Cases.{purge_cases, resolve_cases}
use kagura_agent.Cockpit.Approval.Futures.{get_elem?, settled, get_elem?-settle_at}
use kagura_agent.Cockpit.Approval.Invariant.{Approved, or_else}
use text.Mathlib.TextPositions.{eq_refl}

-- A settled future that is approved was approved before, or is the one that was settled, as approved.
approved_settle :
    (f : Option Future) (a : Bool)
    → settled a f ≡ some (decided true)
    → (f ≡ some (decided true)) ⊎ (a ≡ true)
unfolding settle
approved_settle none a h = cc
approved_settle (some waiting) a h = inr (ground arith)
approved_settle (some (decided b)) a h = inl h
approved_settle (some cancelled) a h = cc

pub Approved-settle_at :
    (r : Registry) (i j : ℕ) (a : Bool)
    → Approved (settle_at r.futures i a) j
    → Approved r.futures j ⊎ ((i ≡ j) × (a ≡ true))
Approved-settle_at r i j a h = elim (Bool-cases (eqb i j)) [
  | inr f ↦ inl (ground (arith, get-settled, f, h))
  | inl t ↦ elim (approved_settle (get_elem? r.futures j) a (ground (arith, get-settled, t, h))) [
    | inl before ↦ inl before
    | inr yes' ↦ inr ((eqb_iff i j).0 t, yes')
  ]
]
  where
    get-settled :
        get_elem? (settle_at r.futures i a) j
        ≡ (if eqb i j then settled a (get_elem? r.futures j) else get_elem? r.futures j)
    get-settled = get_elem?-settle_at r.futures i j a

module _ (r : Registry) (now : ℕ) (thread : String) (i : ℕ) where
  -- The purge approves nothing.
  pub purge-Approved : Approved (purge_if_expired r now thread).futures i → Approved r.futures i
  unfolding set_result
  purge-Approved =
      purge_cases r now thread (λ p. Approved p.futures i → Approved r.futures i) (λ _ h. h)
        (λ _ _ _ h. h)
        (λ e _ _ h. elim (Approved-settle_at r e.future i false h) [
          | inl before ↦ before
          | inr (_, never) ↦ cc
        ])

  -- What the purge leaves of the thread was there and is in time.
  pub purge-live :
      (e : Pending)
      → Dict.get (purge_if_expired r now thread).pending thread ≡ some e
      → (Dict.get r.pending thread ≡ some e) × (now ≤ e.created_at + r.ttl)
  unfolding set_result expired
  purge-live e =
      purge_cases r now thread
        (λ p.
          Dict.get p.pending thread ≡ some e
          → (Dict.get r.pending thread ≡ some e) × (now ≤ e.created_at + r.ttl))
        (λ absent h. absurd (cc (sym absent ∙ h)))
        (λ d here live h.
          let same : d ≡ e = ap (or_else d) (sym here ∙ h) in
          let bound : now ≤ d.created_at + r.ttl = ground (arith, live) in
          (h, subst (λ (x : Pending). now ≤ x.created_at + r.ttl) same bound))
        (λ d _ _ h. absurd (ground (arith, get-remove r.pending thread thread, eq_refl thread, h)))

  -- After `resolve`, an approved future was approved before, or the call approved the thread's own
  -- pending request within its time to live: a late approval, or a denial, grants nothing.
  resolve-Approved :
      (a : Bool)
      → Approved (resolve r now thread a).1.futures i
      → Approved r.futures i
        ⊎ ((e : Pending) × (a ≡ true)
            × (Dict.get r.pending thread ≡ some e)
            × (e.future ≡ i)
            × (now ≤ e.created_at + r.ttl))
  unfolding set_result
  resolve-Approved a =
      resolve_cases r now thread a Q (λ _ h. inl (purge-Approved h))
        (λ e here h. elim (Approved-settle_at (purge_if_expired r now thread) e.future i a h) [
          | inl before ↦ inl (purge-Approved before)
          | inr (same, granted) ↦
              let (was, live) = purge-live e here in inr (e, granted, was, same, live)
        ])
    where
      Q : Option CapabilityRequest × Registry → Type 0
      Q x =
          Approved x.1.futures i
          → Approved r.futures i
            ⊎ ((e : Pending) × (a ≡ true)
                × (Dict.get r.pending thread ≡ some e)
                × (e.future ≡ i)
                × (now ≤ e.created_at + r.ttl))
