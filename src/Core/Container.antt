-- ===== src/Core/Container.antt =====
-- core/brain/container.py: the run of a brain inside a container, the lines that it and the host
-- exchange, and the provider through which a session drives it. JSON is read and written by a codec. The
-- container is outside: what it writes is read whole, and its end `aclose` acts on the world.
pub mod Decoded
pub mod Exchange
mod Examples
use Prim.Native.String.{◌++◌ as append}
use kagura_agent.Prelude.{
  ℕ, String, Bool, true, false, Option, none, some, List, [], ◌∷◌, ◌==◌, if◌then◌else◌, ltb, length,
  Result, ok, raised, bind,
}
use kagura_agent.Prelude.Text.{codes, strip, is_empty}
use kagura_agent.Prelude.Json
use kagura_agent.Prelude.Json.{
  Value, null, str, object, Fields, end, field, Codec, as_text, as_object, is_int,
}
use kagura_agent.Core.Session.{
  Task, Checkpoint, BrainEvent, message, done, other, SessionError, brain_failed,
}

-- the one `ValueError` of the decoders, and the `TypeError` of `encode_event`
pub data WireError : Type 0 where
  malformed unencodable : WireError

unfoldable pub max_event_chars : ℕ
max_event_chars = 8388608

unfoldable pub task_value : Task → Value
task_value task =
    object (field "prompt" (str task.prompt) (field "session_id" (str task.session_id) end))

unfoldable pub resume_value : Option (Checkpoint Fields) → Value
resume_value none = null
resume_value (some c) = object (
    field "session_id" (str c.session_id)
      (field "turn" c.turn (field "state" (object c.state) end)))

-- the payload of `encode_run_input`
unfoldable pub run_value : Task → Option (Checkpoint Fields) → Value
unfolding task_value resume_value
run_value task resume =
    object (field "task" (task_value task) (field "resume" (resume_value resume) end))

unfoldable pub encode_run_input : Codec → Task → Option (Checkpoint Fields) → List ℕ
unfolding run_value
encode_run_input c task resume = c.encode (append (c.dumps (run_value task resume)) "\n")

unfoldable pub required_field : {A : Type 0} → Option A → Result WireError A
required_field none = raised malformed
required_field (some a) = ok a

unfoldable pub require_str : Fields → String → Result WireError String
unfolding required_field as_text
require_str fs key = required_field (as_text (Json.get fs key))

-- `resume["turn"]`, which must be an int
unfoldable pub require_int : Option Value → Result WireError Value
require_int none = raised malformed
require_int (some v) = if is_int v then ok v else raised malformed

unfoldable pub decode_task : Fields → Result WireError Task
unfolding require_str
decode_task t = bind (require_str t "prompt") (λ prompt.
    bind (require_str t "session_id")
      (λ session. ok (record { prompt = prompt; session_id = session })))

unfoldable pub decode_resume_object : Fields → Result WireError (Option (Checkpoint Fields))
unfolding require_int required_field as_object require_str
decode_resume_object r = bind (require_int (Json.get r "turn")) (λ turn.
    bind (required_field (as_object (Json.get r "state"))) (λ state.
      bind (require_str r "session_id")
        (λ session. ok (some (record { session_id = session; turn = turn; state = state })))))

unfoldable pub decode_resume : Option Value → Result WireError (Option (Checkpoint Fields))
unfolding decode_resume_object
decode_resume none = ok none
decode_resume (some null) = ok none
decode_resume (some (object r)) = decode_resume_object r
decode_resume (some _) = raised malformed

unfoldable pub decode_run_input :
    Codec → List ℕ → Result WireError (Task × Option (Checkpoint Fields))
unfolding required_field as_object decode_task decode_resume
decode_run_input c input = bind (required_field (as_object (c.loads_bytes input))) (λ obj.
    bind (required_field (as_object (Json.get obj "task"))) (λ t.
      bind (decode_task t)
        (λ task. bind (decode_resume (Json.get obj "resume")) (λ resume. ok (task, resume)))))

unfoldable pub event_value : BrainEvent Fields → Option Value
event_value (message s) = some (object (field "kind" (str "message") (field "text" (str s) end)))
event_value (done result state) = some (
    object
      (field "kind" (str "done") (field "result" (str result) (field "state" (object state) end))))
event_value other = none

unfoldable pub encode_event : Codec → BrainEvent Fields → Result WireError String
unfolding event_value
encode_event c event = elim (event_value event) [
  | none ↦ raised unencodable
  | some v ↦ ok (c.dumps v)
]

-- `obj.get("state", {})`, which must be an object
unfoldable pub state_of : Option Value → Result WireError Fields
state_of none = ok end
state_of (some (object state)) = ok state
state_of (some _) = raised malformed

unfoldable pub decode_done : Fields → Result WireError (Option (BrainEvent Fields))
unfolding state_of require_str
decode_done obj =
    bind (state_of (Json.get obj "state"))
      (λ state. bind (require_str obj "result") (λ result. ok (some (done result state))))

unfoldable pub decode_message : Fields → Result WireError (Option (BrainEvent Fields))
unfolding require_str
decode_message obj = bind (require_str obj "text") (λ s. ok (some (message s)))

-- the event of a JSON object, by its kind
unfoldable pub decode_kind : Fields → Option String → Result WireError (Option (BrainEvent Fields))
unfolding decode_message decode_done
decode_kind obj none = raised malformed
decode_kind obj (some kind) =
    if kind == "message"
    then decode_message obj
    else if kind == "done"
    then decode_done obj
    else raised malformed

unfoldable pub decode_stripped : Codec → String → Result WireError (Option (BrainEvent Fields))
unfolding max_event_chars required_field as_object as_text decode_kind
decode_stripped c stripped =
    if ltb max_event_chars (length (codes stripped))
    then raised malformed
    else bind (required_field (as_object (c.loads stripped)))
        (λ obj. decode_kind obj (as_text (Json.get obj "kind")))

unfoldable pub decode_event : Codec → String → Result WireError (Option (BrainEvent Fields))
unfolding strip is_empty decode_stripped
decode_event c line =
    let stripped = strip line in if is_empty stripped then ok none else decode_stripped c stripped

-- The loop over the lines: the events before the first line that is refused.
unfoldable pub decode_lines :
    Codec → List String → Option SessionError → List (BrainEvent Fields) × Option SessionError
unfolding decode_event
decode_lines c [] failure = ([], failure)
decode_lines c (line ∷ lines) failure =
    let (events, failed) = decode_lines c lines failure in
    elim (decode_event c line) [
      | raised _ ↦ ([], some brain_failed)
      | ok none ↦ (events, failed)
      | ok (some event) ↦ (event ∷ events, failed)
    ]

-- A started container: what it writes, and its end.
pub record ContainerSession (W : Type 0) : Type 0 where
  pub container_id : String
  pub events : W → List String × Option SessionError
  pub aclose : W → Option SessionError × W

pub record ContainerBrainProvider (W : Type 0) : Type 0 where
  pub start : List ℕ → W → Result SessionError (ContainerSession W) × W
  pub on_start : Option (String → W → Option SessionError × W)

module _ {W : Type 0} where
  -- `if self._on_start is not None`
  unfoldable pub announce :
      Option (String → W → Option SessionError × W) → String → W → Option SessionError × W
  announce none cid w = (none, w)
  announce (some f) cid w = f cid w

  -- what the `try` block gives
  unfoldable pub read_events :
      Codec
      → ContainerSession W
      → Option SessionError × W
      → List (BrainEvent Fields) × Option SessionError
  unfolding decode_lines
  read_events c session (some e, w) = ([], some e)
  read_events c session (none, w) =
      let (lines, failure) = session.events w in decode_lines c lines failure

  -- the `finally` around it: a failure of the end replaces that of the block
  unfoldable pub close_after :
      ContainerSession W
      → List (BrainEvent Fields) × Option SessionError
      → W
      → (List (BrainEvent Fields) × Option SessionError) × W
  close_after session (events, failure) w =
      let (closing, w') = session.aclose w in
      ((events, elim closing [ none ↦ failure | some e ↦ some e ]), w')

  unfoldable pub run_started :
      Codec
      → ContainerBrainProvider W
      → Result SessionError (ContainerSession W)
      → W
      → (List (BrainEvent Fields) × Option SessionError) × W
  unfolding announce read_events close_after
  run_started c provider (raised e) w = (([], some e), w)
  run_started c provider (ok session) w =
      let announced = announce provider.on_start session.container_id w in
      close_after session (read_events c session announced) announced.1

  unfoldable pub run_in_container :
      Codec
      → ContainerBrainProvider W
      → Task
      → Option (Checkpoint Fields)
      → W
      → (List (BrainEvent Fields) × Option SessionError) × W
  unfolding encode_run_input run_started
  run_in_container c provider task resume w =
      let (started, w') = provider.start (encode_run_input c task resume) w in
      run_started c provider started w'

-- the loop of the entry point: the lines before the first event that has none, and whether one did
unfoldable pub emit_events : Codec → List (BrainEvent Fields) → List String × Option WireError
unfolding encode_event
emit_events c [] = ([], none)
emit_events c (event ∷ events) =
    let (lines, failed) = emit_events c events in
    elim (encode_event c event) [ raised e ↦ ([], some e) | ok line ↦ (line ∷ lines, failed) ]

-- `stream_brain_events`: what it emits
unfoldable pub stream_brain_events :
    Codec
    → List ℕ
    → (Task → Option (Checkpoint Fields) → List (BrainEvent Fields))
    → List String × Option WireError
unfolding decode_run_input emit_events
stream_brain_events c input brain = elim (decode_run_input c input) [
  | raised e ↦ ([], some e)
  | ok (task, resume) ↦ emit_events c (brain task resume)
]
