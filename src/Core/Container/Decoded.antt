-- ===== src/Core/Container/Decoded.antt =====
-- What the host lets through of the lines of a container, which it does not trust.
use kagura_agent.Prelude.{some_inj}
use kagura_agent.Prelude.Json.{as_object-some}
use kagura_agent.Prelude.{
  String, ◌≡◌, refl, ap, sym, ◌∙◌, eq_iff, false, Option, none, some, ok, ltb, length, ◌⊎◌, inl,
  inr, Bool-cases, bind, bind_rule, ok_inj, ◌==◌,
}
use kagura_agent.Prelude.Text.{codes, strip, is_empty}
use kagura_agent.Prelude.Json
use kagura_agent.Prelude.Json.{Value, str, object, Codec, Fields, end, as_text, as_object}
use kagura_agent.Core.Session.{BrainEvent, message, done}
use kagura_agent.Core.Container.{
  max_event_chars, decode_event, decode_stripped, decode_kind, decode_message, decode_done,
  required_field, require_str, state_of,
}

-- The event that the entries of a JSON object name: a message with its text, or an end with its result and
-- its state, empty where the object has none.
abbrev pub Names : Fields → BrainEvent Fields → Type 0
Names obj event =
    ((s : String) × (as_text (Json.get obj "kind") ≡ some "message")
      × (as_text (Json.get obj "text") ≡ some s)
      × (event ≡ message s))
    ⊎ ((result : String) × (state : Fields) × (as_text (Json.get obj "kind") ≡ some "done")
        × (as_text (Json.get obj "result") ≡ some result)
        × (((Json.get obj "state" ≡ none) × (state ≡ end))
            ⊎ (Json.get obj "state" ≡ some (object state)))
        × (event ≡ done result state))

required_field-ok : {A : Type 0} (o : Option A) {a : A} → required_field o ≡ ok a → o ≡ some a
unfolding required_field
required_field-ok none h = absurd (cc h)
required_field-ok (some a) h = ap some (ok_inj h)

state_of-ok :
    (o : Option Value) (state : Fields)
    → state_of o ≡ ok state
    → ((o ≡ none) × (state ≡ end)) ⊎ (o ≡ some (object state))
unfolding state_of
state_of-ok none state h = inl (refl, sym (ok_inj h))
state_of-ok (some Json.null) state h = absurd (cc h)
state_of-ok (some (Json.bool _)) state h = absurd (cc h)
state_of-ok (some (Json.int _)) state h = absurd (cc h)
state_of-ok (some (Json.float _)) state h = absurd (cc h)
state_of-ok (some (str _)) state h = absurd (cc h)
state_of-ok (some (Json.array _)) state h = absurd (cc h)
state_of-ok (some (object fs)) state h = inr (ap (λ x. some (object x)) (ok_inj h))

require_str-ok :
    (fs : Fields) (key : String) {s : String}
    → require_str fs key ≡ ok s
    → as_text (Json.get fs key) ≡ some s
unfolding require_str
require_str-ok fs key h = required_field-ok (as_text (Json.get fs key)) h

module _ (obj : Fields) (event : BrainEvent Fields) where
  decode_message-Names :
      as_text (Json.get obj "kind") ≡ some "message"
      → decode_message obj ≡ ok (some event)
      → Names obj event
  unfolding decode_message
  decode_message-Names k =
      bind_rule (require_str obj "text") (λ s. ok (some (message s)))
        (λ s e h. inl (s, k, require_str-ok obj "text" e, sym (some_inj (ok_inj h))))

  decode_done-Names :
      as_text (Json.get obj "kind") ≡ some "done"
      → decode_done obj ≡ ok (some event)
      → Names obj event
  unfolding decode_done
  decode_done-Names k =
      bind_rule (state_of (Json.get obj "state"))
        (λ state. bind (require_str obj "result") (λ result. ok (some (done result state))))
        (λ state f.
          bind_rule (require_str obj "result") (λ result. ok (some (done result state)))
            (λ result e h. inr (
              result,
              state,
              k,
              require_str-ok obj "result" e,
              state_of-ok (Json.get obj "state") state f,
              sym (some_inj (ok_inj h)),
            )))

  decode_kind-Names :
      (kind : Option String)
      → as_text (Json.get obj "kind") ≡ kind
      → decode_kind obj kind ≡ ok (some event)
      → Names obj event
  unfolding decode_kind
  decode_kind-Names none k h = absurd (cc h)
  decode_kind-Names (some kind) k h = elim (Bool-cases (kind == "message")) [
    | inl m ↦ decode_message-Names (k ∙ ap some ((eq_iff kind "message").0 m)) (rw (m) at h)
    | inr m ↦ elim (Bool-cases (kind == "done")) [
      | inl d ↦ decode_done-Names (k ∙ ap some ((eq_iff kind "done").0 d)) (rw (m, d) at h)
      | inr d ↦ absurd (cc (rw (m, d) at h))
    ]
  ]

-- The host takes an event from a line of a container only if the line, stripped of white space, has at
-- most 8388608 characters and is a JSON object whose entries name that event: a kind `message` and a text,
-- or a kind `done`, a text as its result, and an object as its state, which is empty where there is none.
pub decode_event-Names :
    (c : Codec) (line : String) (event : BrainEvent Fields)
    → decode_event c line ≡ ok (some event)
    → (ltb max_event_chars (length (codes (strip line))) ≡ false)
      × ((obj : Fields) × (c.loads (strip line) ≡ some (object obj)) × Names obj event)
unfolding decode_event decode_stripped
decode_event-Names c line event h = elim (Bool-cases (is_empty (strip line))) [
  | inl e ↦ absurd (cc (rw (e) at h))
  | inr e ↦ elim (Bool-cases (ltb max_event_chars (length (codes (strip line))))) [
    | inl l ↦ absurd (cc (rw (e, l) at h))
    | inr l ↦ (
      l,
      bind_rule (required_field (as_object (c.loads (strip line))))
          (λ obj. decode_kind obj (as_text (Json.get obj "kind")))
          (λ obj r k. (
            obj,
            as_object-some (c.loads (strip line))
                (required_field-ok (as_object (c.loads (strip line))) r),
            decode_kind-Names obj event (as_text (Json.get obj "kind")) refl k,
          ))
          (rw (e, l) at h),
    )
  ]
]
