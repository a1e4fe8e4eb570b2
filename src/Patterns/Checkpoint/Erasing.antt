-- ===== src/Patterns/Checkpoint/Erasing.antt =====
-- What the in-memory store keeps, and the cascade over it.
use kagura_agent.Prelude.{
  String, ◌≡◌, refl, sym, ◌∙◌, true, false, ok, raised, eq_refl, inl, inr, ◌⊎◌, arith,
}
use kagura_agent.Prelude.Dict.{Dict, get-remove}
use kagura_agent.Core.Session.{Checkpoint}
use kagura_agent.Mcp.Local.{LocalMemory, key_error, has_memory}
use kagura_agent.Mcp.Local.Valid.{IsValid}
use kagura_agent.Patterns.Provenance.{ProvenanceLog}
use kagura_agent.Patterns.Erasure.{memory_raised, CascadeResult, Cascade, forget_cascade}
use kagura_agent.Patterns.Erasure.Sessions.{Deletes}
use kagura_agent.Patterns.Erasure.Complete.{IsErased, start, forget_cascade_lem}
use kagura_agent.Patterns.Checkpoint.{load, delete, erasable}

module _ {S : Type 0} where
  pub erasable-Deletes : Deletes {W = Dict (Checkpoint S)} erasable
  unfolding erasable load delete
  erasable-Deletes = record {
    removes = λ w k h. ground (arith, get-remove w k k, eq_refl k);
    makes_none = λ w k j h. ground (arith, get-remove w k j, h);
  }

  erasable-never-fails : (k : String) (w : Dict (Checkpoint S)) → (erasable.delete k w).0 ≡ true
  unfolding erasable
  erasable-never-fails k w = refl

  -- Over a valid memory and the in-memory store every cascade ends in one of two ways: the id is
  -- unknown, which raises and changes nothing, or the cascade finishes.
  forget_cascade_total :
      (mid : String) (memory : LocalMemory) (log : ProvenanceLog) (w : Dict (Checkpoint S))
      → IsValid memory
      → ((has_memory memory mid ≡ false)
          × (forget_cascade erasable mid memory log w
              ≡ (raised (memory_raised key_error), start memory log w)))
        ⊎ ((result : CascadeResult) × (t : Cascade (Dict (Checkpoint S))) × (forget_cascade erasable
                mid memory log w
              ≡ (ok result, t))
            × IsErased erasable mid memory log result t)
  forget_cascade_total mid memory log w v =
      elim (forget_cascade_lem erasable erasable-Deletes mid memory log w v) [
        | inl h ↦ inl h
        | inr (inl (_, _, _, _, k, world, h)) ↦
            absurd (cc (sym (erasable-never-fails k world) ∙ h.1))
        | inr (inr h) ↦ inr h
      ]
