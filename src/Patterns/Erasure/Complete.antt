-- ===== src/Patterns/Erasure/Complete.antt =====
-- What a cascade erases and what it leaves.
use kagura_agent.Prelude.{
  String, ◌≡◌, refl, sym, ◌∙◌, ap, true, false, not, ◌||◌, none, some, List, [], ◌∷◌, ◌++◌, ◌==◌,
  if◌then◌else◌, ok, raised, eq_iff, eq_refl, Bool-cases, inl, inr, ◌⊎◌, arith,
}
use kagura_agent.Prelude.Dict
use kagura_agent.Prelude.Dict.{Dict, get-remove}
use kagura_agent.Prelude.Text.{member}
use kagura_agent.Mcp.Local.{LocalMemory, key_error, has_memory}
use kagura_agent.Mcp.Local.Valid.{IsValid}
use kagura_agent.Patterns.Provenance.{
  ProvenanceLog, sessions_for, tiers_for, entries, forget_memory,
}
use kagura_agent.Patterns.Erasure.{
  Store, memory_raised, delete_raised, CascadeResult, Cascade, text_le, insert_text, sort_texts,
  conclude, forget_cascade,
}
use kagura_agent.Patterns.Erasure.Forgotten.{
  only_if, is_summary_of, get-forget, noted, forget_noted_lem,
}
use kagura_agent.Patterns.Erasure.Sessions.{Deletes, Erases, source_kept, erase_sessions_lem}

-- What a finished cascade leaves: the memory is gone, and so are the memories tagged with one of the
-- sessions that it grounded directly, the checkpoints and the tiers of these sessions, and its trail;
-- every other memory is as it was, also one that derives from an erased memory in turn; and the
-- result names exactly the sessions that the memory grounded directly.
pub record IsErased {W : Type 0} (store : Store W) (mid : String) (memory : LocalMemory)
    (log : ProvenanceLog) (result : CascadeResult) (t : Cascade W) : Type 0 where
  pub memories :
      (j : String)
      → Dict.get t.memory.memories j ≡ (
          if j == mid
          then none
          else only_if (λ m. not (is_summary_of result.sessions m)) (Dict.get memory.memories j))
  pub checkpoints :
      (k : String) → member k (sessions_for log mid) ≡ true → store.has_checkpoint t.world k ≡ false
  pub tiers : (k : String) → member k (sessions_for log mid) ≡ true → tiers_for t.provenance k ≡ []
  pub trail : sessions_for t.provenance mid ≡ []
  pub named : (k : String) → member k result.sessions ≡ member k (sessions_for log mid)
  pub audited : result.deleted_checkpoints ≡ result.sessions

member-insert_text :
    (k x : String) (xs : List String) → member k (insert_text x xs) ≡ (x == k || member k xs)
unfolding insert_text member
member-insert_text k x [] = refl
member-insert_text k x (y ∷ ys) = elim (Bool-cases (text_le x y)) [
  | inl e ↦ rw e refl
  | inr e ↦ rw e (ground (arith, member-insert_text k x ys))
]

member-sort_texts : (k : String) (xs : List String) → member k (sort_texts xs) ≡ member k xs
unfolding sort_texts member
member-sort_texts k [] = refl
member-sort_texts k (x ∷ xs) =
    member-insert_text k x (sort_texts xs) ∙ ap (λ b. x == k || b) (member-sort_texts k xs)

has_memory-get :
    (c d : LocalMemory) (k : String)
    → Dict.get d.memories k ≡ Dict.get c.memories k
    → has_memory d k ≡ has_memory c k
unfolding has_memory
has_memory-get c d k e = ap (λ o. elim o [ none ↦ false | some _ ↦ true ]) e

-- The state that a cascade starts from.
abbrev pub start : {W : Type 0} → LocalMemory → ProvenanceLog → W → Cascade W
start memory log w = record {
  memory = memory;
  provenance = log;
  world = w;
  forgotten = [];
  deleted = [];
}

module _ {W : Type 0} (store : Store W) (deletes : Deletes store) where
  concluded :
      (mid : String) (memory : LocalMemory) (log : ProvenanceLog) (w : W) (t : Cascade W)
      (sessions : List String) (result : CascadeResult)
      → sessions ≡ sort_texts (sessions_for log mid)
      → result.sessions ≡ sessions
      → result.deleted_checkpoints ≡ t.deleted
      → Erases store mid sessions (start memory log w) t
      → IsErased store mid memory log result
          (record (noted mid t) { provenance = forget_memory t.provenance mid })
  unfolding sessions_for forget_memory tiers_for entries
  concluded mid memory log w t sessions result e d c f =
      let same : (k : String) → member k sessions ≡ member k (sessions_for log mid) =
        λ k. rw e (member-sort_texts k (sessions_for log mid)) in
      record {
        memories = λ j.
            rw d
              (ground (arith, get-forget t.memory mid j, f.lookup j, eq_iff mid j, eq_iff j mid));
        checkpoints = λ k h. f.checkpoints k (same k ∙ h);
        tiers = λ k h. ground (arith, f.tiers k, same k, h);
        trail = ground (arith, get-remove t.provenance.by_memory mid mid, eq_refl mid);
        named = λ k. rw d (same k);
        audited = c ∙ f.deleted ∙ sym d;
      }

  -- Of a valid memory and a store whose deletes remove checkpoints and make none: an unknown id
  -- raises and changes nothing. Otherwise the cascade finishes, and then the memory is gone, with the
  -- memories tagged with one of the sessions that it grounded directly, the checkpoints and the tiers
  -- of these sessions and its trail, while every other memory is as it was; or the delete of the
  -- checkpoint of one of these sessions raised as the last that was done, and then the memory and its
  -- trail are still there for another run. No other call raises.
  pub forget_cascade_lem :
      (mid : String) (memory : LocalMemory) (log : ProvenanceLog) (w : W)
      → IsValid memory
      → ((has_memory memory mid ≡ false)
          × (forget_cascade store mid memory log w
              ≡ (raised (memory_raised key_error), start memory log w)))
        ⊎ ((t : Cascade W) × (forget_cascade store mid memory log w ≡ (raised delete_raised, t))
            × (has_memory t.memory mid ≡ true)
            × (sessions_for t.provenance mid ≡ sessions_for log mid)
            × (k : String) × (before : W) × ((member k (sessions_for log mid) ≡ true)
                × ((store.delete k before).0 ≡ false)
                × (t.world ≡ (store.delete k before).1)))
        ⊎ ((result : CascadeResult) × (t : Cascade W) × (forget_cascade store mid memory log w
              ≡ (ok result, t))
            × IsErased store mid memory log result t)
  unfolding forget_cascade conclude sessions_for entries
  forget_cascade_lem mid memory log w v =
      let sessions = sort_texts (sessions_for log mid) in
      elim (Bool-cases (has_memory memory mid)) [
        | inr e ↦ inl (e, rw e refl)
        | inl e ↦ inr (elim (erase_sessions_lem store deletes mid sessions (start memory log w) v) [
          | inr (t, d, f) ↦ inl (
            t,
            rw (e, d) refl,
            has_memory-get memory t.memory mid f.lookup ∙ e,
            ap (λ d. elim (Dict.get d mid) [ none ↦ [] | some xs ↦ xs ]) f.by_memory,
            f.session,
            f.before,
            (sym (member-sort_texts f.session (sessions_for log mid)) ∙ f.asked, f.failed, f.left),
          )
          | inl (t, d, f) ↦
              let there =
                has_memory-get memory t.memory mid
                  (source_kept store deletes mid sessions (start memory log w) t f)
                ∙ e in
              let r : CascadeResult = record {
                source_memory_id = mid;
                sessions = sessions;
                forgotten_memory_ids = t.forgotten ++ mid ∷ [];
                deleted_checkpoints = t.deleted;
              } in
              inr (
                r,
                record (noted mid t) { provenance = forget_memory t.provenance mid },
                rw (e, d, forget_noted_lem mid t there) refl,
                concluded mid memory log w t sessions r refl refl refl f,
              )
        ])
      ]
