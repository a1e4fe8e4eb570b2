-- ===== src/Patterns/Erasure.antt =====
-- patterns/erasure.py, `forget_cascade` and `CascadeResult`, over the host's `LocalMemoryClient` and its
-- `ProvenanceLog`. A checkpoint store is code behind an interface, on a world of its own; its `delete`
-- may raise.
pub mod Forgotten
pub mod Sessions
pub mod Complete
mod Examples
use Prim.Native.Nat.{Ordering}
use Prim.Native.String.{◌++◌ as append, compare}
use kagura_agent.Prelude.{
  String, Bool, true, false, not, ◌&&◌, Option, none, some, List, [], ◌∷◌, ◌++◌, ◌==◌,
  if◌then◌else◌, Result, ok, raised, Action, ◌>>=◌, ◌>>◌, pure, raise,
}
use kagura_agent.Mcp.Local
use kagura_agent.Mcp.Local.{LocalMemory, MemoryError, key_error}
use kagura_agent.Patterns.Provenance
use kagura_agent.Patterns.Provenance.{ProvenanceLog}

pub record Store (W : Type 0) : Type 0 where
  pub delete : String → W → Bool × W
  pub has_checkpoint : W → String → Bool

pub data CascadeError : Type 0 where
  memory_raised : MemoryError → CascadeError
  delete_raised : CascadeError

pub record CascadeResult : Type 0 where
  pub source_memory_id : String
  pub sessions : List String
  pub forgotten_memory_ids : List String
  pub deleted_checkpoints : List String

-- The three stores of the host, and the two lists that the cascade keeps.
pub record Cascade (W : Type 0) : Type 0 where
  pub memory : LocalMemory
  pub provenance : ProvenanceLog
  pub world : W
  pub forgotten : List String
  pub deleted : List String

unfoldable pub text_le : String → String → Bool
text_le a b = elim (compare a b) [ Ordering.gt ↦ false | _ ↦ true ]

unfoldable pub insert_text : String → List String → List String
unfolding text_le
insert_text x [] = x ∷ []
insert_text x (y ∷ ys) = let rest = insert_text x ys in if text_le x y then x ∷ y ∷ ys else y ∷ rest

-- `sorted(xs)`
unfoldable pub sort_texts : List String → List String
unfolding insert_text
sort_texts [] = []
sort_texts (x ∷ xs) = insert_text x (sort_texts xs)

unfoldable pub session_tag : String → String
session_tag session = append "session:" session

module _ {W : Type 0} where
  -- `memory.forget(mid)`, and the id noted as forgotten
  unfoldable pub forget_noted : String → Action (Cascade W) CascadeError (Unit {0})
  forget_noted mid s =
      let (done, memory) = Local.forget s.memory mid in
      elim done [
        | raised e ↦ (raised (memory_raised e), record s { memory = memory })
        | ok _ ↦ (ok tt, record s { memory = memory; forgotten = s.forgotten ++ mid ∷ [] })
      ]

  unfoldable pub forget_summary : String → String → Action (Cascade W) CascadeError (Unit {0})
  unfolding forget_noted
  forget_summary source mid s =
      (if not (mid == source) && Local.has_memory s.memory mid then forget_noted mid else pure tt) s

  unfoldable pub forget_summaries :
      String → List String → Action (Cascade W) CascadeError (Unit {0})
  unfolding forget_summary
  forget_summaries source [] = pure tt
  forget_summaries source (mid ∷ ids) = forget_summary source mid >> forget_summaries source ids

  unfoldable pub drop_tiers : String → Action (Cascade W) CascadeError (Unit {0})
  drop_tiers session s =
      (ok tt, record s { provenance = Provenance.forget_session_tiers s.provenance session })

  unfoldable pub forget_tagged : String → String → Action (Cascade W) CascadeError (Unit {0})
  unfolding session_tag forget_summaries
  forget_tagged source session s =
      forget_summaries source (Local.ids_with_tag s.memory (session_tag session)) s

  -- from the last `memory.forget` on
  unfoldable pub conclude : String → List String → Action (Cascade W) CascadeError CascadeResult
  conclude mid sessions s = (
    ok (record {
      source_memory_id = mid;
      sessions = sessions;
      forgotten_memory_ids = s.forgotten;
      deleted_checkpoints = s.deleted;
    }),
    record s { provenance = Provenance.forget_memory s.provenance mid },
  )

  module _ (store : Store W) where
    unfoldable pub delete_checkpoint : String → Action (Cascade W) CascadeError (Unit {0})
    delete_checkpoint session s =
        let (done, w) = store.delete session s.world in
        if done
        then (ok tt, record s { world = w; deleted = s.deleted ++ session ∷ [] })
        else (raised delete_raised, record s { world = w })

    unfoldable pub erase_session : String → String → Action (Cascade W) CascadeError (Unit {0})
    unfolding delete_checkpoint forget_tagged drop_tiers
    erase_session source session =
        delete_checkpoint session >> forget_tagged source session >> drop_tiers session

    unfoldable pub erase_sessions :
        String → List String → Action (Cascade W) CascadeError (Unit {0})
    unfolding erase_session
    erase_sessions source [] = pure tt
    erase_sessions source (session ∷ rest) =
        erase_session source session >> erase_sessions source rest

    unfoldable pub forget_cascade :
        String → LocalMemory → ProvenanceLog → W → Result CascadeError CascadeResult × Cascade W
    unfolding sort_texts erase_sessions forget_noted conclude
    forget_cascade mid memory log w =
        let start : Cascade W = record {
          memory = memory;
          provenance = log;
          world = w;
          forgotten = [];
          deleted = [];
        } in
        let sessions = sort_texts (Provenance.sessions_for log mid) in
        if Local.has_memory memory mid
        then (erase_sessions mid sessions >> forget_noted mid >> conclude mid sessions) start
        else (raised (memory_raised key_error), start)
