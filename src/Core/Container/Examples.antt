-- ===== src/Core/Container/Examples.antt =====
-- One run with a message and an end, over a codec that knows their lines.
use kagura_agent.Prelude.{
  ℕ, String, ◌≡◌, refl, Bool, true, false, Option, none, some, List, [], ◌∷◌, ok, raised, ltb,
  length, ◌==◌, if◌then◌else◌,
}
use kagura_agent.Prelude.Text.{codes, eq_codes, strip}
use kagura_agent.Prelude.Json
use kagura_agent.Prelude.Json.{
  Value, null, str, int, pos, object, Codec, Fields, end, field, as_text,
}
use kagura_agent.Core.Session.{Task, Checkpoint, BrainEvent, message, done, brain_failed}
use kagura_agent.Core.Container.{
  max_event_chars, run_value, encode_run_input, decode_event, decode_lines, stream_brain_events,
  ContainerSession, ContainerBrainProvider, run_in_container,
}
use kagura_agent.Core.Container.Decoded.{Names, decode_event-Names}
use kagura_agent.Core.Container.Exchange.{IsReadable, IsSent, decode_lines-stream_brain_events}

abbrev state : Fields
state = field "turn" (int (pos 1)) end

abbrev message_value : Value
message_value = object (field "kind" (str "message") (field "text" (str "hi") end))

abbrev done_fields : Fields
done_fields =
    field "kind" (str "done") (field "result" (str "ok") (field "state" (object state) end))

abbrev task : Task
task = record { prompt = "p"; session_id = "S1" }

abbrev line_of : Option String → String
line_of none = "input"
line_of (some kind) = kind

abbrev codec : Codec
codec = record {
  dumps = λ v. elim v [ object fs ↦ line_of (as_text (Json.get fs "kind")) | _ ↦ "" ];
  loads = λ s.
      if s == "message"
      then some message_value
      else if s == "done"
      then some (object done_fields)
      else none;
  encode = codes;
  loads_bytes =
      λ input. if eq_codes input (codes "input\n") then some (run_value task none) else none;
}

abbrev brain : Task → Option (Checkpoint Fields) → List (BrainEvent Fields)
brain asked resume = message "hi" ∷ done "ok" state ∷ []

message_IsReadable : IsReadable codec (message "hi")
unfolding kagura_agent.Core.Container.event_value as_text Json.get strip
    kagura_agent.Prelude.Text.is_empty max_event_chars
message_IsReadable = record {
  value = message_value;
  is_value = refl;
  reads = refl;
  stripped = refl;
  nonempty = refl;
  admitted = refl;
}

done_IsReadable : IsReadable codec (done "ok" state)
unfolding kagura_agent.Core.Container.event_value as_text Json.get strip
    kagura_agent.Prelude.Text.is_empty max_event_chars
done_IsReadable = record {
  value = object done_fields;
  is_value = refl;
  reads = refl;
  stripped = refl;
  nonempty = refl;
  admitted = refl;
}

sent : IsSent codec task none
unfolding eq_codes run_value as_text Json.get
sent = record { typed = tt; reads = refl }

decode_lines-stream_brain_events_example :
    decode_lines codec (stream_brain_events codec (encode_run_input codec task none) brain).0 none
    ≡ (message "hi" ∷ done "ok" state ∷ [], none)
decode_lines-stream_brain_events_example =
    decode_lines-stream_brain_events codec brain task none none sent
      (message_IsReadable, (done_IsReadable, tt))

decode_event-Names_example :
    (ltb max_event_chars (length (codes (strip " done\n"))) ≡ false)
    × ((obj : Fields) × (codec.loads (strip " done\n") ≡ some (object obj))
        × Names obj (done "ok" state))
unfolding decode_event Json.get
decode_event-Names_example = decode_event-Names codec " done\n" (done "ok" state) refl

-- A container whose last line is garbled ends with a failure, and is reaped.
abbrev garbled : ContainerSession ℕ
garbled = record {
  container_id = "c1";
  events = λ w. ("message" ∷ "" ∷ "garbled" ∷ "done" ∷ [], none);
  aclose = λ w. (none, 7);
}

abbrev provider : ContainerBrainProvider ℕ
provider = record { start = λ input w. (ok garbled, w); on_start = none }

garbled_reaped :
    run_in_container codec provider task none 0 ≡ ((message "hi" ∷ [], some brain_failed), 7)
unfolding run_in_container Json.get
garbled_reaped = refl
