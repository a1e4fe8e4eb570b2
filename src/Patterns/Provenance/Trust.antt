-- ===== src/Patterns/Provenance/Trust.antt =====
-- The log after any groundings: what it says of a session's trust and of its memories.
use kagura_agent.Prelude.{
  String, ◌≡◌, refl, sym, ◌∙◌, ap, subst, true, ◌&&◌, ◌||◌, List, [], ◌∷◌, ◌++◌, map, ◌==◌, eq_iff,
  Bool-cases, if◌then◌else◌, inl, inr, arith, ◌≢◌, eq_refl,
}
use kagura_agent.Prelude.Dict
use kagura_agent.Prelude.Dict.{Dict, get-put}
use kagura_agent.Prelude.Text.{member}
use kagura_agent.Membrane.Outcome.{all_trusted, derive_input_trust}
use kagura_agent.Membrane.Outcome.Verdict.{derive_cases, derive_iff, all_trusted_iff}
use kagura_agent.Patterns.Provenance.{
  ProvenanceLog, entries, add_new, add_entry, record_memories, record_ids, record_tiers,
  record_grounding, tiers_for,
}

-- A session and the memories that grounded it, with their trust.
abbrev pub Grounding : Type 0
Grounding = String × List (String × String)

-- The log after the groundings, the latest first.
unfoldable pub replay : List Grounding → ProvenanceLog
unfolding record_grounding
replay [] = record { by_memory = []; tiers_by_session = [] }
replay ((session, pairs) ∷ h) = record_grounding (replay h) session pairs

-- The trust of every memory that grounded the session, with repetitions.
unfoldable pub grounds : String → List Grounding → List String
grounds s [] = []
grounds s ((session, pairs) ∷ h) =
    let before = grounds s h in if session == s then before ++ map (λ p. p.1) pairs else before

member_append :
    (t : String) (xs ys : List String) → member t (xs ++ ys) ≡ (member t xs || member t ys)
unfolding member
member_append t [] ys = refl
member_append t (x ∷ xs) ys = ground (arith, member_append t xs ys)

-- Adding at the end, unless it is there, is the same for the tests of membership.
member-add_new :
    (t x : String) (xs : List String) → member t (add_new xs x) ≡ (member t xs || x == t)
unfolding add_new member
member-add_new t x xs = elim (Bool-cases (member x xs)) [
  | inl e ↦ rw e (elim (Bool-cases (x == t)) [
    | inl same ↦ ground (arith, same, subst (λ y. member y xs ≡ true) ((eq_iff x t).0 same) e)
    | inr other ↦ ground (arith, other)
  ])
  | inr e ↦ rw e (ground (arith, member_append t xs (x ∷ [])))
]

entries-add_entry :
    (d : Dict (List String)) (k j x : String)
    → entries (add_entry d k x) j ≡ (if k == j then add_new (entries d k) x else entries d j)
unfolding entries add_entry
entries-add_entry d k j x = elim (Bool-cases (k == j)) [
  | inl e ↦ rw (entries, get-put d k j (add_new (entries d k) x), e) refl
  | inr e ↦ rw (entries, get-put d k j (add_new (entries d k) x), e) refl
]

-- The sessions of a memory after a grounding are the old ones, and the new one if it used the memory.
pub member-record_memories :
    (s mid session : String) (ids : List String) (d : Dict (List String))
    → member s (entries (record_memories d session ids) mid)
      ≡ (member s (entries d mid) || (session == s && member mid ids))
unfolding record_memories member
member-record_memories s mid session [] d = ground arith
member-record_memories s mid session (x ∷ ids) d =
    member-record_memories s mid session ids (add_entry d x session)
    ∙ (elim (Bool-cases (x == mid)) [
      | inl e ↦
          rw (entries-add_entry d x mid session, e)
            (ground
              (arith, member-add_new s session (entries d x), ap (entries d) ((eq_iff x mid).0 e)))
      | inr e ↦ rw (entries-add_entry d x mid session, e) (ground arith)
    ])

-- The session's tiers after a grounding have the same members as the old ones with the new.
member-record_tiers :
    (s t session : String) (tiers : List String) (d : Dict (List String))
    → member t (entries (record_tiers d session tiers) s)
      ≡ (member t (entries d s) || (session == s && member t tiers))
unfolding record_tiers member
member-record_tiers s t session [] d = ground arith
member-record_tiers s t session (x ∷ tiers) d =
    member-record_tiers s t session tiers (add_entry d session x)
    ∙ (elim (Bool-cases (session == s)) [
      | inl e ↦
          rw (entries-add_entry d session s x, e)
            (ground (
              arith,
              member-add_new t x (entries d session),
              ap (entries d) ((eq_iff session s).0 e),
            ))
      | inr e ↦ rw (entries-add_entry d session s x, e) (ground arith)
    ])

-- The tiers that the log has of a session are, up to order and repetition, those of its groundings.
pub member-tiers_for :
    (s t : String) (h : List Grounding) → member t (tiers_for (replay h) s) ≡ member t (grounds s h)
unfolding tiers_for replay grounds record_ids
member-tiers_for s t [] = unfold entries Dict.get in refl
member-tiers_for s t ((session, pairs) ∷ h) =
    member-record_tiers s t session (map (λ p. p.1) pairs) (replay h).tiers_by_session
    ∙ (elim (Bool-cases (session == s)) [
      | inl e ↦ rw e (
          ground
            (arith, member-tiers_for s t h, member_append t (grounds s h) (map (λ p. p.1) pairs)))
      | inr e ↦ rw e (ground (arith, member-tiers_for s t h))
    ])

-- Every member of the one list is a member of the other.
abbrev Within : List String → List String → Type 0
Within xs ys = (t : String) → member t xs ≡ true → member t ys ≡ true

all_trusted_from :
    (ys : List String) → ((t : String) → member t ys ≡ true → t ≡ "trusted") → all_trusted ys ≡ true
unfolding all_trusted member
all_trusted_from [] f = refl
all_trusted_from (y ∷ ys) f =
    rw ((eq_iff y "trusted").1 (f y (rw (eq_refl y) refl)))
      (all_trusted_from ys (λ t h. f t (ground (arith, h))))

trusted_member :
    (xs : List String) (t : String) → all_trusted xs ≡ true → member t xs ≡ true → t ≡ "trusted"
unfolding all_trusted member
trusted_member [] t a m = absurd (cc m)
trusted_member (x ∷ xs) t a m = elim (Bool-cases (x == t)) [
  | inl e ↦
      let same : x ≡ "trusted" = (eq_iff x "trusted").0 (ground (arith, a)) in
      sym ((eq_iff x t).0 e) ∙ same
  | inr e ↦ trusted_member xs t (ground (arith, a)) (ground (arith, e, m))
]

still_some : (xs ys : List String) → Within xs ys → xs ≢ [] → ys ≢ []
unfolding member
still_some [] ys f h e = h refl
still_some (x ∷ xs) ys f h e =
    let there : member x ys ≡ true = f x (rw (eq_refl x) refl) in
    absurd (cc (subst (λ zs. member x zs ≡ true) e there))

trusted-Within :
    (xs ys : List String)
    → Within xs ys
    → Within ys xs
    → derive_input_trust xs ≡ "trusted"
    → derive_input_trust ys ≡ "trusted"
trusted-Within xs ys f g h =
    let (some', all) = (derive_iff xs).0 h in
    (derive_iff ys).1 (
      still_some xs ys f some',
      (all_trusted_iff ys).0
          (all_trusted_from ys λ t m. trusted_member xs t ((all_trusted_iff xs).1 all) (g t m)),
    )

-- After any groundings, the trust that is derived from the log for a session, which drops repetitions,
-- is the one that the trust of all the memories that ever grounded it gives.
pub derive-replay :
    (s : String) (h : List Grounding)
    → derive_input_trust (tiers_for (replay h) s) ≡ derive_input_trust (grounds s h)
derive-replay s h = elim (derive_cases (tiers_for (replay h) s)) [
  | inr a ↦ a ∙ sym (trusted-Within _ _ there back a)
  | inl a ↦ elim (derive_cases (grounds s h)) [
    | inl b ↦ a ∙ sym b
    | inr b ↦ trusted-Within _ _ back there b ∙ sym b
  ]
]
  where
    there : Within (tiers_for (replay h) s) (grounds s h)
    there t m = sym (member-tiers_for s t h) ∙ m

    back : Within (grounds s h) (tiers_for (replay h) s)
    back t m = member-tiers_for s t h ∙ m
