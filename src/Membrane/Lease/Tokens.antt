-- ===== src/Membrane/Lease/Tokens.antt =====
-- No orphaned tokens: every token that is live at a provider has its lease in the ledger.
-- `Live` is the providers' own record of the tokens that are still valid; what the broker relies on
-- of the providers is `IsContract`.
use kagura_agent.Prelude.{
  ℕ, String, ◌≡◌, ◌≢◌, refl, sym, ap, Bool, true, false, Option, none, some, arith, ok, ◌⊎◌, inl,
  inr, ◌==◌, eq_iff, Bool-cases,
}
use kagura_agent.Prelude.Dict
use kagura_agent.Prelude.Dict.{get-put, get-remove}
use kagura_agent.Membrane.Lease.{
  Lease, Ledger, Broker, CredProvider, State, token_key, lease_key, record_lease, forget,
  is_tracked_kind,
}
use kagura_agent.Membrane.Lease.Keys.{has_colon, prefix_unique}
use kagura_agent.Membrane.Lease.Cases.{Confirms, Registered}

abbrev pub Live : Type 0 → Type 0
Live W = W → String → String → Bool

pub record IsContract {W : Type 0} (b : Broker W) (live : Live W) : Type 0 where
  -- names of providers pass the registry's name test
  pub named : (n : String) (p : CredProvider W) → Registered b n p → has_colon n ≡ false
  -- only a successful mint of a stateful provider makes a token live, and it returns its handle
  pub minted :
      (n : String) (p : CredProvider W) (scope : String) (ttl : ℕ) (w : W) (m j : String)
      → Registered b n p
      → live (p.mint scope ttl w).1 m j ≡ true
      → (live w m j ≡ true)
        ⊎ ((m ≡ n)
            × (p.stateful ≡ true)
            × ((cred : String) × ((p.mint scope ttl w).0 ≡ ok (cred, some j))))
  -- a revocation makes no token live
  pub kept :
      (n : String) (p : CredProvider W) (handle : Option String) (w : W) (m j : String)
      → Registered b n p
      → live (p.revoke handle w).1 m j ≡ true
      → live w m j ≡ true
  -- a confirmed revocation leaves the token dead
  pub gone :
      (n : String) (p : CredProvider W) (j : String) (w : W)
      → Registered b n p
      → Confirms (p.revoke (some j) w).0
      → live (p.revoke (some j) w).1 n j ≡ false
  -- live tokens belong to stateful providers; no provider hands out the handle "None"
  pub owned : (w : W) (m j : String) → live w m j ≡ true → (has_colon m ≡ false) × (j ≢ "None")
  pub stateful_only :
      (w : W) (m j : String) (p : CredProvider W)
      → live w m j ≡ true
      → Registered b m p
      → p.stateful ≡ true

-- The ledger holds a revocable lease of this token.
abbrev pub Held : Ledger → String → String → Type 0
Held d m j =
    (l : Lease) × (Dict.get d (token_key m (some j)) ≡ some l)
    × (l.provider ≡ m)
    × (l.handle ≡ some j)
    × (l.stateful ≡ true)

abbrev pub IsTracked : {W : Type 0} → Live W → State W → Type 0
IsTracked live s = (m j : String) → live s.world m j ≡ true → Held s.ledger m j

key_match :
    {n m : String} (h : Option String) (j : String)
    → has_colon n ≡ false
    → has_colon m ≡ false
    → token_key n h ≡ token_key m (some j)
    → (n ≡ m) × ((h ≡ some j) ⊎ ((h ≡ none) × (j ≡ "None")))
unfolding token_key
key_match none j cn cm e =
    let (names, ends) = prefix_unique _ _ "None" j cn cm e in (names, inr (refl, sym ends))
key_match (some h) j cn cm e =
    let (names, ends) = prefix_unique _ _ h j cn cm e in (names, inl (ap some ends))

module _ (d : Ledger) (l : Lease) (m j : String) where
  pub Held-record_self :
      l.provider ≡ m → l.handle ≡ some j → l.stateful ≡ true → Held (record_lease d l) m j
  unfolding record_lease lease_key
  Held-record_self p h t =
      let key = token_key l.provider l.handle in
      let wanted = token_key m (some j) in
      (l, ground (arith, get-put d key wanted l, eq_iff key wanted), p, h, t)

  module _ (cl : has_colon l.provider ≡ false) (cm : has_colon m ≡ false) where
    pub Held-record : Held d m j → Held (record_lease d l) m j
    unfolding record_lease lease_key
    Held-record (old, found, p, h, t) = elim (Bool-cases (is_tracked_kind l)) [
      | inr f ↦ rw f (old, found, p, h, t)
      | inl k ↦ elim (Bool-cases (token_key l.provider l.handle == token_key m (some j))) [
        | inl same ↦
            let (names, handles) = key_match l.handle j cl cm ((eq_iff _ _).0 same) in
            Held-record_self names (ground (arith, handles)) (ground arith)
        | inr other ↦ rw k (
          old,
          ground (arith, get-put d (token_key l.provider l.handle) (token_key m (some j)) l),
          p,
          h,
          t,
        )
      ]
    ]

    pub Held-forget :
        j ≢ "None" → ¬ ((l.provider ≡ m) × (l.handle ≡ some j)) → Held d m j → Held (forget d l) m j
    unfolding forget lease_key
    Held-forget named other (old, found, p, h, t) =
        elim (Bool-cases (token_key l.provider l.handle == token_key m (some j))) [
          | inl same ↦
              let (names, handles) = key_match l.handle j cl cm ((eq_iff _ _).0 same) in
              absurd (other (names, ground (arith, handles)))
          | inr differ ↦ (
            old,
            ground (arith, get-remove d (token_key l.provider l.handle) (token_key m (some j))),
            p,
            h,
            t,
          )
        ]
