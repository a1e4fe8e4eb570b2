-- ===== src/Patterns/Erasure/Sessions.antt =====
-- What the loop over the sessions erases.
use mathlib.Core.List.{append-nil, append_assoc}
use kagura_agent.Prelude.{
  String, ◌≡◌, refl, sym, ◌∙◌, ap, true, false, not, ◌||◌, List, [], ◌∷◌, ◌++◌, ◌==◌, if◌then◌else◌,
  ok, raised, eq_iff, eq_refl, Bool-cases, inl, inr, ◌⊎◌, arith,
}
use kagura_agent.Prelude.Dict
use kagura_agent.Prelude.Dict.{Dict, get-remove}
use kagura_agent.Prelude.Text.{member}
use kagura_agent.Mcp.Local.{ids_with_tag}
use kagura_agent.Mcp.Local.Valid.{IsValid}
use kagura_agent.Patterns.Provenance.{tiers_for, entries, forget_session_tiers}
use kagura_agent.Patterns.Erasure.{
  Store, delete_raised, Cascade, session_tag, forget_tagged, drop_tiers, delete_checkpoint,
  erase_session, erase_sessions,
}
use kagura_agent.Patterns.Erasure.Forgotten.{
  only_if, is_summary_of, member-tagged, Forgets, forget_summaries_lem,
}

module _ {W : Type 0} where
  -- What one session and all of them leave: the summaries are erased, with the tiers and the
  -- checkpoints of the sessions.
  pub record Erases (store : Store W) (source : String) (sessions : List String) (s t : Cascade W)
      : Type 0 where
    pub by_memory : t.provenance.by_memory ≡ s.provenance.by_memory
    pub valid : IsValid t.memory
    pub deleted : t.deleted ≡ s.deleted ++ sessions
    pub lookup :
        (j : String)
        → Dict.get t.memory.memories j
          ≡ only_if
              (λ m. j == source || not (is_summary_of sessions m))
              (Dict.get s.memory.memories j)
    pub tiers :
        (k : String)
        → tiers_for t.provenance k ≡ (if member k sessions then [] else tiers_for s.provenance k)
    pub checkpoints :
        (k : String) → member k sessions ≡ true → store.has_checkpoint t.world k ≡ false
    pub gone :
        (k : String)
        → store.has_checkpoint s.world k ≡ false
        → store.has_checkpoint t.world k ≡ false

  -- A delete that does not raise removes the checkpoint, and no delete makes one.
  pub record Deletes (store : Store W) : Type 0 where
    pub removes :
        (w : W) (k : String)
        → (store.delete k w).0 ≡ true
        → store.has_checkpoint (store.delete k w).1 k ≡ false
    pub makes_none :
        (w : W) (k j : String)
        → store.has_checkpoint w j ≡ false
        → store.has_checkpoint (store.delete k w).1 j ≡ false

  module _ (store : Store W) (deletes : Deletes store) (source : String) where
    -- The delete of one of the sessions raised, as the last that was done. The cascade can be run again:
    -- the source is there, with its trail.
    pub record Stops (sessions : List String) (s t : Cascade W) : Type 0 where
      pub by_memory : t.provenance.by_memory ≡ s.provenance.by_memory
      pub valid : IsValid t.memory
      pub lookup : Dict.get t.memory.memories source ≡ Dict.get s.memory.memories source
      pub session : String
      pub asked : member session sessions ≡ true
      pub before : W
      pub failed : (store.delete session before).0 ≡ false
      pub left : t.world ≡ (store.delete session before).1

    session_erased :
        (session : String) (s t : Cascade W)
        → IsValid s.memory
        → (store.delete session s.world).0 ≡ true
        → Forgets source
            (ids_with_tag s.memory (session_tag session))
            (record s {
              world = (store.delete session s.world).1;
              deleted = s.deleted ++ session ∷ [];
            })
            t
        → Erases store source
            (session ∷ [])
            s
            (record t { provenance = forget_session_tiers t.provenance session })
    unfolding ids_with_tag is_summary_of forget_session_tiers tiers_for entries member
    session_erased session s t v e f = record {
      by_memory = ap (λ p. p.by_memory) f.provenance;
      valid = f.valid;
      deleted = f.deleted;
      lookup = λ j.
          ground
            (arith, f.lookup j, member-tagged (session_tag session) j s.memory.memories v.distinct);
      tiers =
          λ k. rw f.provenance (ground (arith, get-remove s.provenance.tiers_by_session session k));
      checkpoints = λ k h.
          rw (f.world, ← (eq_iff session k).0 (ground (arith, h)))
            (deletes.removes s.world session e);
      gone = λ k h. rw f.world (deletes.makes_none s.world session k h);
    }

    erase_session_lem :
        (session : String) (s : Cascade W)
        → IsValid s.memory
        → ((t : Cascade W) × (erase_session store source session s ≡ (ok tt, t))
            × Erases store source (session ∷ []) s t)
          ⊎ ((t : Cascade W) × (erase_session store source session s ≡ (raised delete_raised, t))
              × Stops (session ∷ []) s t)
    unfolding erase_session delete_checkpoint member
    erase_session_lem session s v = elim (Bool-cases (store.delete session s.world).0) [
      | inr e ↦ inr (
        record s { world = (store.delete session s.world).1 },
        rw e refl,
        record {
          by_memory = refl;
          valid = v;
          lookup = refl;
          session = session;
          asked = ground (arith, eq_refl session);
          before = s.world;
          failed = e;
          left = refl;
        },
      )
      | inl e ↦
          let s1 : Cascade W = record s {
            world = (store.delete session s.world).1;
            deleted = s.deleted ++ session ∷ [];
          } in
          let (t, d, f) =
            forget_summaries_lem source (ids_with_tag s.memory (session_tag session)) s1 v in
          inl (
            record t { provenance = forget_session_tiers t.provenance session },
            rw (e, forget_tagged, d, drop_tiers) refl,
            session_erased session s t v e f,
          )
    ]

    -- Both ways to end a session leave the same for the next one to start from.
    then_erased :
        (session : String) (sessions : List String) (s t u : Cascade W)
        → Erases store source (session ∷ []) s t
        → Erases store source sessions t u
        → Erases store source (session ∷ sessions) s u
    unfolding member is_summary_of
    then_erased session sessions s t u f g = record {
      by_memory = g.by_memory ∙ f.by_memory;
      valid = g.valid;
      deleted = g.deleted ∙ rw (f.deleted, append_assoc s.deleted (session ∷ []) sessions) refl;
      lookup = λ j. ground (arith, g.lookup j, f.lookup j);
      tiers = λ k. ground (arith, g.tiers k, f.tiers k);
      checkpoints = λ k h. elim (Bool-cases (session == k)) [
        | inl e ↦ g.gone k (f.checkpoints k (ground (arith, e)))
        | inr e ↦ g.checkpoints k (ground (arith, e, h))
      ];
      gone = λ k h. g.gone k (f.gone k h);
    }

    pub source_kept :
        (sessions : List String) (s t : Cascade W)
        → Erases store source sessions s t
        → Dict.get t.memory.memories source ≡ Dict.get s.memory.memories source
    source_kept sessions s t f = ground (arith, f.lookup source, eq_refl source)

    first_stopped :
        (session : String) (sessions : List String) (s t : Cascade W)
        → Stops (session ∷ []) s t
        → Stops (session ∷ sessions) s t
    unfolding member
    first_stopped session sessions s t f = record {
      by_memory = f.by_memory;
      valid = f.valid;
      lookup = f.lookup;
      session = f.session;
      asked = ground (arith, f.asked);
      before = f.before;
      failed = f.failed;
      left = f.left;
    }

    then_stopped :
        (session : String) (sessions : List String) (s t u : Cascade W)
        → Erases store source (session ∷ []) s t
        → Stops sessions t u
        → Stops (session ∷ sessions) s u
    unfolding member
    then_stopped session sessions s t u f g = record {
      by_memory = g.by_memory ∙ f.by_memory;
      valid = g.valid;
      lookup = g.lookup ∙ source_kept (session ∷ []) s t f;
      session = g.session;
      asked = ground (arith, g.asked);
      before = g.before;
      failed = g.failed;
      left = g.left;
    }

    pub erase_sessions_lem :
        (sessions : List String) (s : Cascade W)
        → IsValid s.memory
        → ((t : Cascade W) × (erase_sessions store source sessions s ≡ (ok tt, t))
            × Erases store source sessions s t)
          ⊎ ((t : Cascade W) × (erase_sessions store source sessions s ≡ (raised delete_raised, t))
              × Stops sessions s t)
    unfolding erase_sessions is_summary_of member
    erase_sessions_lem [] s v = inl (
      s,
      refl,
      record {
        by_memory = refl;
        valid = v;
        deleted = sym (append-nil s.deleted);
        lookup = λ j. ground arith;
        tiers = λ k. refl;
        checkpoints = λ k h. absurd (cc h);
        gone = λ k h. h;
      },
    )
    erase_sessions_lem (session ∷ sessions) s v = elim (erase_session_lem session s v) [
      | inr (t, e, f) ↦ inr (t, rw e refl, first_stopped session sessions s t f)
      | inl (t, e, f) ↦ elim (erase_sessions_lem sessions t f.valid) [
        | inl (u, d, g) ↦ inl (u, rw e d, then_erased session sessions s t u f g)
        | inr (u, d, g) ↦ inr (u, rw e d, then_stopped session sessions s t u f g)
      ]
    ]
