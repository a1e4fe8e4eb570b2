-- ===== src/Core/Container/Exchange.antt =====
-- What passes between the host and the brain in the container.
use Prim.Native.String.{◌++◌ as append}
use kagura_agent.Prelude.{
  String, ◌≡◌, refl, sym, ◌∙◌, true, false, Option, none, some, List, [], ◌∷◌, ok, ltb, length, All,
}
use kagura_agent.Prelude.Text.{codes, strip, is_empty}
use kagura_agent.Prelude.Json
use kagura_agent.Prelude.Json.{Value, Codec, Fields, is_int}
use kagura_agent.Core.Session.{Task, Checkpoint, BrainEvent, message, done, other, SessionError}
use kagura_agent.Core.Container.{
  max_event_chars, run_value, encode_run_input, decode_run_input, event_value, encode_event,
  decode_event, decode_stripped, decode_lines, emit_events, stream_brain_events,
}

-- The codec reads back what it writes for the event, as one line of an admitted length.
pub record IsReadable (c : Codec) (event : BrainEvent Fields) : Type 0 where
  pub value : Value
  pub is_value : event_value event ≡ some value
  pub reads : c.loads (c.dumps value) ≡ some value
  pub stripped : strip (c.dumps value) ≡ c.dumps value
  pub nonempty : is_empty (c.dumps value) ≡ false
  pub admitted : ltb max_event_chars (length (codes (c.dumps value))) ≡ false

-- The turn of a checkpoint is an int, as `Checkpoint` declares it.
abbrev pub IsTyped : Option (Checkpoint Fields) → Type 0
IsTyped none = Unit
IsTyped (some c) = is_int c.turn ≡ true

-- The codec reads back what it writes for the input of the run.
pub record IsSent (c : Codec) (task : Task) (resume : Option (Checkpoint Fields)) : Type 0 where
  pub typed : IsTyped resume
  pub reads :
      c.loads_bytes (c.encode (append (c.dumps (run_value task resume)) "\n"))
      ≡ some (run_value task resume)

module _ (c : Codec) where
  encode_event-IsReadable :
      (event : BrainEvent Fields) (r : IsReadable c event)
      → encode_event c event ≡ ok (c.dumps r.value)
  unfolding encode_event
  encode_event-IsReadable event r = rw (r.is_value, encode_event) refl

  decode_stripped-IsReadable :
      (event : BrainEvent Fields) (v : Value) (line : String)
      → event_value event ≡ some v
      → c.loads line ≡ event_value event
      → ltb max_event_chars (length (codes line)) ≡ false
      → decode_stripped c line ≡ ok (some event)
  unfolding decode_stripped event_value Json.get
  decode_stripped-IsReadable (message s) v line e r l = rw (l, decode_stripped, r) refl
  decode_stripped-IsReadable (done result state) v line e r l = rw (l, decode_stripped, r) refl
  decode_stripped-IsReadable other v line e r l = absurd (cc e)

  decode_event-encode_event :
      (event : BrainEvent Fields) (r : IsReadable c event)
      → decode_event c (c.dumps r.value) ≡ ok (some event)
  unfolding decode_event
  decode_event-encode_event event r =
      rw (r.stripped, r.nonempty, decode_event)
        (decode_stripped-IsReadable event r.value (c.dumps r.value) r.is_value
          (r.reads ∙ sym r.is_value) r.admitted)

  decode_run_input-encode_run_input :
      (task : Task) (resume : Option (Checkpoint Fields))
      → IsSent c task resume
      → decode_run_input c (encode_run_input c task resume) ≡ ok (task, resume)
  unfolding decode_run_input encode_run_input run_value Json.get
  decode_run_input-encode_run_input task none h = rw (h.reads, decode_run_input) refl
  decode_run_input-encode_run_input task (some k) h = rw (h.reads, decode_run_input, h.typed) refl

  decode_lines-emit_events :
      (events : List (BrainEvent Fields)) (failure : Option SessionError)
      → All (IsReadable c) events
      → decode_lines c (emit_events c events).0 failure ≡ (events, failure)
  unfolding decode_lines emit_events
  decode_lines-emit_events [] failure h = refl
  decode_lines-emit_events (event ∷ events) failure (r, h) =
      rw
        (
          encode_event-IsReadable event r,
          emit_events,
          decode_event-encode_event event r,
          decode_lines,
          decode_lines-emit_events events failure h,
        )
        refl

  -- What the host decodes from the lines that the container emits for an input is what the brain in the
  -- container gives for the task and the checkpoint of that input, event for event, and the failure of
  -- the stream if it has one; for an input and events that the codec reads back, each event as one line of
  -- at most 8388608 characters, and a checkpoint whose turn is an int.
  pub decode_lines-stream_brain_events :
      (brain : Task → Option (Checkpoint Fields) → List (BrainEvent Fields))
      → (task : Task) (resume : Option (Checkpoint Fields)) (failure : Option SessionError)
      → IsSent c task resume
      → All (IsReadable c) (brain task resume)
      → decode_lines c (stream_brain_events c (encode_run_input c task resume) brain).0 failure
        ≡ (brain task resume, failure)
  unfolding stream_brain_events
  decode_lines-stream_brain_events brain task resume failure sent h =
      rw (decode_run_input-encode_run_input task resume sent, stream_brain_events)
        (decode_lines-emit_events (brain task resume) failure h)
