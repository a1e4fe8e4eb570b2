-- ===== src/Patterns/Checkpoint/Cloud.antt =====
-- patterns/checkpoint.py: `MemoryCloudCheckpointStore`, over the keys and values of the memory service,
-- which is outside.
use kagura_agent.Prelude.{String, ◌≡◌, refl, Option, none, some, Result, ok, raised}
use Prim.Native.String.{◌++◌ as append}
use kagura_agent.Prelude.Json.{Fields, Codec}
use kagura_agent.Core.Session.{Checkpoint}
use kagura_agent.Patterns.Checkpoint.Decode.{
  StoreError, checkpoint_value, decode_checkpoint, IsStorable, decode_checkpoint-dumps,
}

pub record StateBackend (W : Type 0) : Type 0 where
  pub get_state : String → W → Result StoreError (Option String) × W
  pub set_state : String → String → W → Result StoreError (Unit {0}) × W
  pub delete_state : String → W → Result StoreError (Unit {0}) × W

unfoldable pub state_key : String → String
state_key session = append "checkpoint:" session

unfoldable pub load_value :
    Codec → Result StoreError (Option String) → Result StoreError (Option (Checkpoint Fields))
unfolding decode_checkpoint
load_value c (raised e) = raised e
load_value c (ok none) = ok none
load_value c (ok (some raw)) = elim (decode_checkpoint c raw) [
  | raised e ↦ raised e
  | ok checkpoint ↦ ok (some checkpoint)
]

module _ {W : Type 0} where
  unfoldable pub save_cloud :
      StateBackend W → Codec → Checkpoint Fields → W → Result StoreError (Unit {0}) × W
  unfolding state_key checkpoint_value
  save_cloud backend c checkpoint w =
      backend.set_state (state_key checkpoint.session_id) (c.dumps (checkpoint_value checkpoint)) w

  unfoldable pub load_cloud :
      StateBackend W → Codec → String → W → Result StoreError (Option (Checkpoint Fields)) × W
  unfolding state_key load_value
  load_cloud backend c session w =
      let (r, w') = backend.get_state (state_key session) w in (load_value c r, w')

  unfoldable pub delete_cloud : StateBackend W → String → W → Result StoreError (Unit {0}) × W
  unfolding state_key
  delete_cloud backend session w = backend.delete_state (state_key session) w

  -- A value that was set without an exception is what the next read of its key gives.
  abbrev pub IsKept : StateBackend W → Type 0
  IsKept backend =
      (key value : String) (w : W)
      → (backend.set_state key value w).0 ≡ ok tt
      → (backend.get_state key (backend.set_state key value w).1).0 ≡ ok (some value)

  -- A checkpoint that was saved in the cloud without an exception loads back as it was saved, where the
  -- backend keeps what was set, the turn is an int and the codec reads the checkpoint back.
  pub load_cloud-save_cloud :
      (backend : StateBackend W) (c : Codec) (checkpoint : Checkpoint Fields) (w : W)
      → IsKept backend
      → IsStorable c checkpoint
      → (save_cloud backend c checkpoint w).0 ≡ ok tt
      → (load_cloud backend c checkpoint.session_id (save_cloud backend c checkpoint w).1).0
        ≡ ok (some checkpoint)
  unfolding load_cloud save_cloud
  load_cloud-save_cloud backend c checkpoint w kept h saved =
      rw
        (
          kept (state_key checkpoint.session_id) (c.dumps (checkpoint_value checkpoint)) w saved,
          load_value,
          decode_checkpoint-dumps c checkpoint h,
        )
        refl
