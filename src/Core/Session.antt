-- ===== src/Core/Session.antt =====
-- core/session.py: `Session` drives a brain through one task, and core/brain/base.py, the types that it
-- passes. A brain is code behind an interface: it gives its events and may fail after them. A state `S`
-- of the brain is opaque but for its `turn`, the entry of that name or 0. The hook for live narration,
-- which changes no result, is left out.
pub mod Drive
mod Examples
use kagura_agent.Prelude.Json.{Value}
use kagura_agent.Prelude.{String, Option, none, some, List, [], ◌∷◌, ◌++◌, Result, ok, raised}

pub record Task : Type 0 where
  pub prompt : String
  pub session_id : String

pub record Checkpoint (S : Type 0) : Type 0 where
  pub session_id : String
  pub turn : Value
  pub state : S

-- `other` is an event that is neither a message nor the end.
pub data BrainEvent (S : Type 0) : Type 0 where
  message : String → BrainEvent S
  done : String → S → BrainEvent S
  other : BrainEvent S

-- `session_cancelled` is a `BaseException` of the brain or the store.
pub data SessionError : Type 0 where
  no_checkpoint ended_without_done brain_failed store_failed session_cancelled : SessionError

pub record SessionResult (S : Type 0) : Type 0 where
  pub session_id : String
  pub text : String
  pub checkpoint : Checkpoint S
  pub messages : List String

-- `run` gives the events, and `some e` where the stream raises after them.
pub record Brain (S W : Type 0) : Type 0 where
  pub run : Task → Option (Checkpoint S) → W → (List (BrainEvent S) × Option SessionError) × W
  pub turn_of : S → Value

pub record CheckpointStore (S W : Type 0) : Type 0 where
  pub load : String → W → Result SessionError (Option (Checkpoint S)) × W
  pub save : Checkpoint S → W → Result SessionError (Unit {0}) × W

module _ {S : Type 0} where
  -- The loop over the events: the messages and the first end so far. After the end, the stream is
  -- drained.
  unfoldable pub collect :
      List (BrainEvent S) → List String → Option (String × S) → List String × Option (String × S)
  collect [] messages end = (messages, end)
  collect (event ∷ rest) messages (some d) = collect rest messages (some d)
  collect (message text ∷ rest) messages none = collect rest (messages ++ text ∷ []) none
  collect (done result state ∷ rest) messages none = collect rest messages (some (result, state))
  collect (other ∷ rest) messages none = collect rest messages none

  module _ {W : Type 0} (brain : Brain S W) (store : CheckpointStore S W) where
    unfoldable pub checkpoint_of : Task → S → Checkpoint S
    checkpoint_of task state = record {
      session_id = task.session_id;
      turn = brain.turn_of state;
      state = state;
    }

    -- what `_drive` does after the loop
    unfoldable pub finish :
        Task → List String × Option (String × S) → W → Result SessionError (SessionResult S) × W
    unfolding checkpoint_of
    finish task (messages, none) w = (raised ended_without_done, w)
    finish task (messages, some (result, state)) w =
        let checkpoint = checkpoint_of task state in
        let (saved, w') = store.save checkpoint w in
        elim saved [
          | raised e ↦ (raised e, w')
          | ok _ ↦ (
            ok (record {
              session_id = task.session_id;
              text = result;
              checkpoint = checkpoint;
              messages = messages;
            }),
            w',
          )
        ]

    -- `_drive`, and `drive`
    unfoldable pub drive :
        Task → Option (Checkpoint S) → W → Result SessionError (SessionResult S) × W
    unfolding collect finish
    drive task prior w =
        let ((events, failure), w') = brain.run task prior w in
        elim failure [ some e ↦ (raised e, w') | none ↦ finish task (collect events [] none) w' ]

    unfoldable pub run : Task → W → Result SessionError (SessionResult S) × W
    unfolding drive
    run task w = drive task none w

    unfoldable pub resume : String → String → W → Result SessionError (SessionResult S) × W
    unfolding drive
    resume session prompt w =
        let (loaded, w') = store.load session w in
        elim loaded [
          | raised e ↦ (raised e, w')
          | ok none ↦ (raised no_checkpoint, w')
          | ok (some prior) ↦
              drive (record { prompt = prompt; session_id = session }) (some prior) w'
        ]
