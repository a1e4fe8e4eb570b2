-- ===== src/Patterns/Erasure/Forgotten.antt =====
-- The summaries of one session.
use kagura_agent.Prelude.{
  String, ◌≡◌, refl, ◌∙◌, Bool, true, false, not, ◌&&◌, ◌||◌, Option, none, some, List, [], ◌∷◌,
  ◌++◌, ◌==◌, if◌then◌else◌, ok, eq_iff, Option-cases, Bool-cases, inl, inr, arith,
}
use kagura_agent.Prelude.Dict
use kagura_agent.Prelude.Dict.{Dict, get-remove}
use kagura_agent.Prelude.Text.{member}
use kagura_agent.Mcp.Local.{Memory, LocalMemory, has_memory, forget, tagged}
use kagura_agent.Mcp.Local.Valid.{IsValid, forget-IsValid}
use kagura_agent.Patterns.Erasure.{
  Cascade, session_tag, forget_noted, forget_summary, forget_summaries,
}

-- The memory, where it passes the test.
abbrev pub only_if : (Memory → Bool) → Option Memory → Option Memory
only_if p none = none
only_if p (some m) = if p m then some m else none

-- The memory is tagged as a summary of one of the sessions.
unfoldable pub is_summary_of : List String → Memory → Bool
is_summary_of [] m = false
is_summary_of (s ∷ sessions) m = member (session_tag s) m.tags || is_summary_of sessions m

pub get-forget :
    (c : LocalMemory) (mid j : String)
    → Dict.get (forget c mid).1.memories j ≡ (if mid == j then none else Dict.get c.memories j)
unfolding forget has_memory
get-forget c mid j = elim (Option-cases (Dict.get c.memories mid)) [
  | inr (m, e) ↦ rw (e, forget, has_memory) (get-remove c.memories mid j)
  | inl e ↦ rw (e, forget, has_memory) (ground (arith, eq_iff mid j, e))
]

forget-ok : (c : LocalMemory) (mid : String) → has_memory c mid ≡ true → (forget c mid).0 ≡ ok tt
unfolding forget
forget-ok c mid e = rw e refl

has_memory-none :
    (c : LocalMemory) (k : String) → has_memory c k ≡ false → Dict.get c.memories k ≡ none
unfolding has_memory
has_memory-none c k e = ground (arith, e)

pub member-tagged :
    (tag j : String) (d : Dict Memory)
    → Dict.IsDistinct d
    → member j (tagged tag d) ≡ elim (Dict.get d j) [ none ↦ false | some m ↦ member tag m.tags ]
unfolding tagged member Dict.get
member-tagged tag j [] h = refl
member-tagged tag j ((k, m) ∷ d) (a, h) = elim (Bool-cases (member tag m.tags)) [
  | inl e ↦ rw e (ground (arith, member-tagged tag j d h, e, eq_iff k j, a))
  | inr e ↦ rw e (ground (arith, member-tagged tag j d h, e, eq_iff k j, a))
]

module _ {W : Type 0} where
  -- The summaries among the ids are gone, and nothing else is.
  pub record Forgets (source : String) (ids : List String) (s t : Cascade W) : Type 0 where
    pub world : t.world ≡ s.world
    pub deleted : t.deleted ≡ s.deleted
    pub provenance : t.provenance ≡ s.provenance
    pub valid : IsValid t.memory
    pub lookup :
        (j : String)
        → Dict.get t.memory.memories j
          ≡ (if member j ids && not (j == source) then none else Dict.get s.memory.memories j)

  -- the state after `forget_noted`
  abbrev pub noted : String → Cascade W → Cascade W
  noted mid s = record s { memory = (forget s.memory mid).1; forgotten = s.forgotten ++ mid ∷ [] }

  pub forget_noted_lem :
      (mid : String) (s : Cascade W)
      → has_memory s.memory mid ≡ true
      → forget_noted mid s ≡ (ok tt, noted mid s)
  unfolding forget_noted forget
  forget_noted_lem mid s e = rw (forget_noted, forget-ok s.memory mid e) refl

  forget_summary_lem :
      (source mid : String) (s : Cascade W)
      → IsValid s.memory
      → (t : Cascade W) × (forget_summary source mid s ≡ (ok tt, t)) × Forgets source (mid ∷ []) s t
  unfolding forget_summary member
  forget_summary_lem source mid s v =
      elim (Bool-cases (not (mid == source) && has_memory s.memory mid)) [
        | inl e ↦ (
          noted mid s,
          rw e (forget_noted_lem mid s (ground (arith, e))),
          record {
            world = refl;
            deleted = refl;
            provenance = refl;
            valid = forget-IsValid s.memory v mid;
            lookup =
                λ j. ground (arith, get-forget s.memory mid j, eq_iff mid j, eq_iff mid source, e);
          },
        )
        | inr e ↦ (
          s,
          rw e refl,
          record {
            world = refl;
            deleted = refl;
            provenance = refl;
            valid = v;
            lookup = λ j. ground (arith, eq_iff mid j, has_memory-none s.memory mid, e);
          },
        )
      ]

  pub forget_summaries_lem :
      (source : String) (ids : List String) (s : Cascade W)
      → IsValid s.memory
      → (t : Cascade W) × (forget_summaries source ids s ≡ (ok tt, t)) × Forgets source ids s t
  unfolding forget_summaries member
  forget_summaries_lem source [] s v = (
    s,
    refl,
    record { world = refl; deleted = refl; provenance = refl; valid = v; lookup = λ j. refl },
  )
  forget_summaries_lem source (mid ∷ ids) s v =
      let (t, e, f) = forget_summary_lem source mid s v in
      let (u, d, g) = forget_summaries_lem source ids t f.valid in
      (
        u,
        rw e d,
        record {
          world = g.world ∙ f.world;
          deleted = g.deleted ∙ f.deleted;
          provenance = g.provenance ∙ f.provenance;
          valid = g.valid;
          lookup = λ j. ground (arith, g.lookup j, f.lookup j);
        },
      )
