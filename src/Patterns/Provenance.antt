-- ===== src/Patterns/Provenance.antt =====
-- patterns/erasure.py, `ProvenanceLog`: which memories grounded which sessions, and of which trust.
-- A Python set of texts is a list without repetitions.
pub mod Trust
use kagura_agent.Prelude.{
  String, Bool, true, false, Option, none, some, List, [], ◌∷◌, ◌++◌, map, if◌then◌else◌,
}
use kagura_agent.Prelude.Dict
use kagura_agent.Prelude.Dict.{Dict}
use kagura_agent.Prelude.Text.{member}

pub record ProvenanceLog : Type 0 where
  pub by_memory : Dict (List String)
  pub tiers_by_session : Dict (List String)

-- d.get(k, ())
unfoldable pub entries : Dict (List String) → String → List String
entries d k = elim (Dict.get d k) [ none ↦ [] | some xs ↦ xs ]

-- `if x not in xs: xs.append(x)`, and `set.add`
unfoldable pub add_new : List String → String → List String
unfolding member
add_new xs x = if member x xs then xs else xs ++ x ∷ []

-- `d.setdefault(k, ...)` with the new entry added
unfoldable pub add_entry : Dict (List String) → String → String → Dict (List String)
unfolding entries add_new
add_entry d k x = Dict.put d k (add_new (entries d k) x)

unfoldable pub record_memories : Dict (List String) → String → List String → Dict (List String)
unfolding add_entry
record_memories d session [] = d
record_memories d session (mid ∷ rest) = record_memories (add_entry d mid session) session rest

-- `ProvenanceLog.record`
unfoldable pub record_ids : ProvenanceLog → String → List String → ProvenanceLog
unfolding record_memories
record_ids log session ids = record log { by_memory = record_memories log.by_memory session ids }

unfoldable pub record_tiers : Dict (List String) → String → List String → Dict (List String)
unfolding add_entry
record_tiers d session [] = d
record_tiers d session (tier ∷ rest) = record_tiers (add_entry d session tier) session rest

unfoldable pub record_grounding : ProvenanceLog → String → List (String × String) → ProvenanceLog
unfolding record_ids record_tiers
record_grounding log session pairs = record (record_ids log session (map (λ p. p.0) pairs)) {
  tiers_by_session = record_tiers log.tiers_by_session session (map (λ p. p.1) pairs);
}

unfoldable pub tiers_for : ProvenanceLog → String → List String
unfolding entries
tiers_for log session = entries log.tiers_by_session session

unfoldable pub sessions_for : ProvenanceLog → String → List String
unfolding entries
sessions_for log mid = entries log.by_memory mid

unfoldable pub memories_in : Dict (List String) → String → List String
unfolding member
memories_in [] session = []
memories_in ((mid, sessions) ∷ d) session =
    let rest = memories_in d session in if member session sessions then mid ∷ rest else rest

unfoldable pub memories_for : ProvenanceLog → String → List String
unfolding memories_in
memories_for log session = memories_in log.by_memory session

unfoldable pub forget_memory : ProvenanceLog → String → ProvenanceLog
forget_memory log mid = record log { by_memory = Dict.remove log.by_memory mid }

unfoldable pub forget_session_tiers : ProvenanceLog → String → ProvenanceLog
forget_session_tiers log session = record log {
  tiers_by_session = Dict.remove log.tiers_by_session session;
}
