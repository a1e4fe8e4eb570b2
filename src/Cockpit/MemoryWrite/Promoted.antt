-- ===== src/Cockpit/MemoryWrite/Promoted.antt =====
-- The promotion of a batch in the local memory.
use mathlib.Core.List.{append-nil, append_assoc}
use kagura_agent.Prelude.{
  String, ◌≡◌, refl, sym, ◌∙◌, ap, Bool, ◌||◌, Option, none, some, List, [], ◌∷◌, ◌++◌, ◌==◌,
  if◌then◌else◌, ok, raised, arith, eq_iff, Option-cases, Bool-cases, inl, inr,
}
use kagura_agent.Prelude.Dict
use kagura_agent.Prelude.Dict.{get-put}
use kagura_agent.Prelude.Text.{member}
use kagura_agent.Mcp.Local
use kagura_agent.Mcp.Local.{Memory, LocalMemory, has_memory}
use kagura_agent.Cockpit.Core.{Outcome, failed}
use kagura_agent.Cockpit.MemoryWrite.{keep_promoted, promote_all}

-- `LocalMemoryClient.promote` as the gate's `promote`: a KeyError is an `Exception`.
abbrev pub local_promote : String → LocalMemory → Outcome LocalMemory
local_promote mid c = (
  elim (Local.promote c mid).0 [ ok _ ↦ ok tt | raised _ ↦ raised failed ],
  (Local.promote c mid).1,
)

-- the ids that the memory has
abbrev pub known : LocalMemory → List String → List String
known c [] = []
known c (mid ∷ ids) = let rest = known c ids in if has_memory c mid then mid ∷ rest else rest

abbrev pub trusted : Option Memory → Option Memory
trusted none = none
trusted (some m) = some (record m { trust_tier = "trusted" })

-- The memories of the batch are trusted, and the others are as they were.
pub record IsPromoted (ids : List String) (c d : LocalMemory) : Type 0 where
  pub lookup :
      (k : String)
      → Dict.get d.memories k
        ≡ (if member k ids then trusted (Dict.get c.memories k) else Dict.get c.memories k)

get-promote :
    (c : LocalMemory) (mid k : String)
    → Dict.get (Local.promote c mid).1.memories k
      ≡ (if mid == k then trusted (Dict.get c.memories k) else Dict.get c.memories k)
unfolding Local.promote
get-promote c mid k = elim (Option-cases (Dict.get c.memories mid)) [
  | inl e ↦ rw (Local.promote, e) (ground (arith, eq_iff mid k, e))
  | inr (m, e) ↦
      rw (Local.promote, e)
        (ground
          (arith, eq_iff mid k, e, get-put c.memories mid k (record m { trust_tier = "trusted" })))
]

has-promote :
    (c : LocalMemory) (mid k : String) → has_memory (Local.promote c mid).1 k ≡ has_memory c k
unfolding has_memory
has-promote c mid k = ground (arith, get-promote c mid k)

known-promote :
    (c : LocalMemory) (mid : String) (ids : List String)
    → known (Local.promote c mid).1 ids ≡ known c ids
known-promote c mid [] = refl
known-promote c mid (k ∷ ids) = rw (has-promote c mid k, known-promote c mid ids) refl

-- To trust a memory again changes nothing.
promoted_twice :
    (c : LocalMemory) (mid k : String) (later : Bool)
    → (if later
        then trusted (Dict.get (Local.promote c mid).1.memories k)
        else Dict.get (Local.promote c mid).1.memories k)
      ≡ (if mid == k || later then trusted (Dict.get c.memories k) else Dict.get c.memories k)
promoted_twice c mid k later = rw (get-promote c mid k) (elim (Bool-cases (mid == k)) [
  | inl e ↦ rw e (elim (Option-cases (Dict.get c.memories k)) [
    | inl a ↦ rw a (elim (Bool-cases later) [ inl b ↦ rw b refl | inr b ↦ rw b refl ])
    | inr (m, a) ↦ rw a (elim (Bool-cases later) [ inl b ↦ rw b refl | inr b ↦ rw b refl ])
  ])
  | inr e ↦ rw e refl
])

keep-local :
    (c : LocalMemory) (mid : String) (promoted : List String)
    → keep_promoted local_promote mid (local_promote mid c).0 promoted
      ≡ ok (if has_memory c mid then promoted ++ mid ∷ [] else promoted)
unfolding keep_promoted Local.promote has_memory
keep-local c mid promoted = elim (Option-cases (Dict.get c.memories mid)) [
  | inl e ↦ rw (keep_promoted, Local.promote, has_memory, e) refl
  | inr (m, e) ↦ rw (keep_promoted, Local.promote, has_memory, e) refl
]

add_known :
    (c : LocalMemory) (mid : String) (ids promoted : List String)
    → (if has_memory c mid then promoted ++ mid ∷ [] else promoted) ++ known c ids
      ≡ promoted ++ known c (mid ∷ ids)
add_known c mid ids promoted = elim (Bool-cases (has_memory c mid)) [
  | inl e ↦ rw e (append_assoc promoted (mid ∷ []) (known c ids))
  | inr e ↦ rw e refl
]

promote_all_from :
    (ids promoted : List String) (c : LocalMemory)
    → (d : LocalMemory) × (promote_all local_promote ids promoted c
        ≡ (ok (promoted ++ known c ids), d))
      × IsPromoted ids c d
unfolding promote_all member
promote_all_from [] promoted c =
    (c, ap (λ l. (ok l, c)) (sym (append-nil promoted)), record { lookup = λ k. refl })
promote_all_from (mid ∷ ids) promoted c =
    let noted = if has_memory c mid then promoted ++ mid ∷ [] else promoted in
    let (d, e, f) = promote_all_from ids noted (Local.promote c mid).1 in
    (
      d,
      rw (promote_all, keep-local c mid promoted)
          (e
            ∙ ap (λ l. (ok l, d))
                (ap (λ l. noted ++ l) (known-promote c mid ids) ∙ add_known c mid ids promoted)),
      record { lookup = λ k. f.lookup k ∙ promoted_twice c mid k (member k ids) },
    )

-- A batch that the gate promotes in the local memory goes through whatever ids it holds: those that
-- the memory knows are given back in their order, they are trusted afterwards, and every other
-- memory is as it was.
pub promote_all_lem :
    (ids : List String) (c : LocalMemory)
    → (d : LocalMemory) × (promote_all local_promote ids [] c ≡ (ok (known c ids), d))
      × IsPromoted ids c d
promote_all_lem ids c = promote_all_from ids [] c
