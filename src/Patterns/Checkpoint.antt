-- ===== src/Patterns/Checkpoint.antt =====
-- patterns/checkpoint.py: `InMemoryCheckpointStore`. The stores on disk and in the cloud, which write JSON,
-- are the children.
pub mod Erasing
pub mod Decode
pub mod File
pub mod Cloud
mod Examples
use kagura_agent.Prelude.{
  String, ◌≡◌, refl, Bool, true, false, Option, none, some, ok, if◌then◌else◌,
}
use kagura_agent.Prelude.Dict
use kagura_agent.Prelude.Dict.{Dict, get-put, get-remove}
use kagura_agent.Core.Session.{Checkpoint, CheckpointStore}
use kagura_agent.Patterns.Erasure.{Store}

module _ {S : Type 0} where
  unfoldable pub save : Checkpoint S → Dict (Checkpoint S) → Dict (Checkpoint S)
  save checkpoint w = Dict.put w checkpoint.session_id checkpoint

  unfoldable pub load : String → Dict (Checkpoint S) → Option (Checkpoint S)
  load session w = Dict.get w session

  unfoldable pub delete : String → Dict (Checkpoint S) → Dict (Checkpoint S)
  delete session w = Dict.remove w session

  -- The store as a session sees it, and as the cascade does.
  unfoldable pub in_memory : CheckpointStore S (Dict (Checkpoint S))
  unfolding save load
  in_memory = record {
    load = λ session w. (ok (load session w), w);
    save = λ checkpoint w. (ok tt, save checkpoint w);
  }

  unfoldable pub erasable : Store (Dict (Checkpoint S))
  unfolding load delete
  erasable = record {
    delete = λ session w. (true, delete session w);
    has_checkpoint = λ w session. elim (load session w) [ none ↦ false | some _ ↦ true ];
  }
