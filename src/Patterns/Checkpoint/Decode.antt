-- ===== src/Patterns/Checkpoint/Decode.antt =====
-- patterns/checkpoint.py: the JSON of a checkpoint, and `_decode_checkpoint`.
use kagura_agent.Prelude.{
  String, ◌≡◌, refl, true, Option, none, some, Result, ok, raised, bind, if◌then◌else◌,
}
use kagura_agent.Prelude.Json
use kagura_agent.Prelude.Json.{
  Value, str, object, Fields, end, field, Codec, as_text, as_object, is_int,
}
use kagura_agent.Core.Session.{Checkpoint}

-- `CheckpointError` where a stored payload is corrupt, cannot be read or cannot be unlink_result, and any other
-- exception of the store.
pub data StoreError : Type 0 where
  corrupt unreadable undeletable store_failed : StoreError

-- what `json.dumps` is given by each store
unfoldable pub checkpoint_value : Checkpoint Fields → Value
checkpoint_value c = object (
    field "session_id" (str c.session_id)
      (field "turn" c.turn (field "state" (object c.state) end)))

-- `data[key]`, corrupt where the key is missing
unfoldable pub data_entry : Fields → String → Result StoreError Value
data_entry fs key = elim (Json.get fs key) [ none ↦ raised corrupt | some v ↦ ok v ]

unfoldable pub typed : {A : Type 0} → Option A → Result StoreError A
typed none = raised corrupt
typed (some a) = ok a

-- the three type checks
unfoldable pub checked : Value → Value → Value → Result StoreError (Checkpoint Fields)
unfolding typed as_text as_object is_int
checked session turn state = bind (typed (as_text (some session))) (λ s.
    if is_int turn
    then bind (typed (as_object (some state)))
        (λ fs. ok (record { session_id = s; turn = turn; state = fs }))
    else raised corrupt)

unfoldable pub decode_checkpoint : Codec → String → Result StoreError (Checkpoint Fields)
unfolding typed as_object data_entry checked
decode_checkpoint c raw = bind (typed (as_object (c.loads raw))) (λ fields.
    bind (data_entry fields "session_id") (λ session.
      bind (data_entry fields "turn")
        (λ turn. bind (data_entry fields "state") (λ state. checked session turn state))))

-- The codec reads back what it writes for the checkpoint, whose turn is an int.
pub record IsStorable (c : Codec) (checkpoint : Checkpoint Fields) : Type 0 where
  pub typed_turn : is_int checkpoint.turn ≡ true
  pub reads : c.loads (c.dumps (checkpoint_value checkpoint)) ≡ some (checkpoint_value checkpoint)

pub decode_checkpoint-dumps :
    (c : Codec) (checkpoint : Checkpoint Fields)
    → IsStorable c checkpoint
    → decode_checkpoint c (c.dumps (checkpoint_value checkpoint)) ≡ ok checkpoint
unfolding decode_checkpoint checkpoint_value checked data_entry Json.get
decode_checkpoint-dumps c checkpoint h = rw (h.reads, decode_checkpoint, h.typed_turn) refl
