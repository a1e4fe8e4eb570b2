-- ===== src/Mcp/RestBootstrap/Rows.antt =====
-- The memories of an accepted lane.
use kagura_agent.Prelude.{
  String, ◌≡◌, refl, sym, ap, subst, Bool, true, false, not, ◌&&◌, Option, none, some, List, [],
  ◌∷◌, Result, ok, ok_inj, bind_rule, map, All, ◌⊎◌, inl, inr, Bool-cases,
}
use kagura_agent.Prelude.Text.{strip, is_empty}
use kagura_agent.Prelude.Json
use kagura_agent.Prelude.Json.{Value, null, bool, str, object, Fields, Python, as_object, as_text}
use kagura_agent.Mcp.Local.{Memory}
use kagura_agent.Mcp.RestBootstrap.{
  BootstrapError, ComponentStatus, first_value, first_str_field, require, guard, memory_of,
  memories_of, find_records, trusted_component_memories, is_ok,
}
use kagura_agent.Mcp.RestBootstrap.Lanes.{lane, pin}

-- A memory of a lane: an id and a text that are not blank, and trusted.
pub record IsLaneMemory (m : Memory) : Type 0 where
  pub id : is_empty (strip m.id) ≡ false
  pub text : is_empty (strip m.text) ≡ false
  pub trust : m.trust_tier ≡ "trusted"

abbrev pub IsPinned : Memory → Type 0
IsPinned m = IsLaneMemory m × (m.delivery_mode ≡ "always")

pub guard-ok : (b : Bool) → guard b ≡ ok tt → b ≡ true
unfolding guard
guard-ok true h = refl
guard-ok false h = absurd (cc h)

pub require-ok : {A : Type 0} (o : Option A) (a : A) → require o ≡ ok a → o ≡ some a
unfolding require
require-ok none a h = absurd (cc h)
require-ok (some x) a h = ap some (ok_inj h)

first_value-ok :
    (o : Option Value) (later : Result BootstrapError String) (s : String)
    → first_value o later ≡ ok s
    → (is_empty (strip s) ≡ false) ⊎ (later ≡ ok s)
unfolding first_value
first_value-ok none later s h = inr h
first_value-ok (some null) later s h = inr h
first_value-ok (some (str t)) later s h = elim (Bool-cases (is_empty (strip t))) [
  | inl e ↦ absurd (cc (rw (e) at h))
  | inr e ↦ inl (subst (λ x. is_empty (strip x) ≡ false) (ok_inj (rw (e) at h)) e)
]
first_value-ok (some (bool _)) later s h = absurd (cc h)
first_value-ok (some (Json.int _)) later s h = absurd (cc h)
first_value-ok (some (Json.float _)) later s h = absurd (cc h)
first_value-ok (some (Json.array _)) later s h = absurd (cc h)
first_value-ok (some (object _)) later s h = absurd (cc h)

first_str_field-ok :
    (r : Fields) (keys : List String) (s : String)
    → first_str_field r keys ≡ ok s
    → (is_empty (strip s) ≡ false) ⊎ (s ≡ "")
unfolding first_str_field
first_str_field-ok r [] s h = inr (sym (ok_inj h))
first_str_field-ok r (key ∷ keys) s h =
    elim (first_value-ok (Json.get r key) (first_str_field r keys) s h) [
      | inl e ↦ inl e
      | inr e ↦ first_str_field-ok r keys s e
    ]

nonblank_of :
    (s : String)
    → (is_empty (strip s) ≡ false) ⊎ (s ≡ "")
    → is_empty s ≡ false
    → is_empty (strip s) ≡ false
unfolding is_empty
nonblank_of s (inl e) h = e
nonblank_of s (inr e) h = absurd (cc (rw (e) at h))

both : (a b : Bool) → (not a && not b) ≡ true → (a ≡ false) × (b ≡ false)
both true b h = absurd (cc h)
both false true h = absurd (cc h)
both false false h = (refl, refl)

memory_of-IsLaneMemory :
    (py : Python) (r : Fields) (m : Memory) → memory_of py r ≡ ok m → IsLaneMemory m
unfolding memory_of
memory_of-IsLaneMemory py r m = bind_rule (first_str_field r ("memory_id" ∷ "id" ∷ [])) _ (λ id i.
    bind_rule (first_str_field r ("summary" ∷ "text" ∷ "content" ∷ "details" ∷ [])) _ (λ text t.
      bind_rule (guard (not (is_empty id) && not (is_empty text))) _ (λ _ g h.
        let full = both (is_empty id) (is_empty text) (guard-ok _ g) in
        subst IsLaneMemory (ok_inj h) (record {
          id = nonblank_of id (first_str_field-ok r ("memory_id" ∷ "id" ∷ []) id i) full.0;
          text =
              nonblank_of text
                (first_str_field-ok r ("summary" ∷ "text" ∷ "content" ∷ "details" ∷ []) text t)
                full.1;
          trust = refl;
        }))))

memories_of-IsLaneMemory :
    (py : Python) (rs : List Fields) (ms : List Memory)
    → memories_of py rs ≡ ok ms
    → All IsLaneMemory ms
unfolding memories_of
memories_of-IsLaneMemory py [] ms h = subst (All IsLaneMemory) (ok_inj h) tt
memories_of-IsLaneMemory py (r ∷ rs) ms h =
    bind_rule (memory_of py r) _
      (λ m i. bind_rule (memories_of py rs) _ (λ others j k.
        subst (All IsLaneMemory) (ok_inj k)
          (memory_of-IsLaneMemory py r m i, memories_of-IsLaneMemory py rs others j)))
      h

pub lane-IsLaneMemory :
    (py : Python) (s : ComponentStatus) (component : Fields) (keys : List String) (ms : List Memory)
    → lane py (s, component) keys ≡ ok ms
    → All IsLaneMemory ms
unfolding lane trusted_component_memories
lane-IsLaneMemory py s component keys ms h = elim (Bool-cases (is_ok s)) [
  | inr e ↦ subst (All IsLaneMemory) (ok_inj (rw (e) at h)) tt
  | inl e ↦
      bind_rule (find_records component keys) (memories_of py)
        (λ rs _ k. memories_of-IsLaneMemory py rs ms k) (rw (e) at h)
]

pub lane-skips :
    (py : Python) (s : ComponentStatus) (component : Fields) (keys : List String) (ms : List Memory)
    → lane py (s, component) keys ≡ ok ms
    → is_ok s ≡ false
    → ms ≡ []
unfolding lane
lane-skips py s component keys ms h e = sym (ok_inj (rw (e) at h))

pub pin-IsPinned : (ms : List Memory) → All IsLaneMemory ms → All IsPinned (map pin ms)
unfolding pin
pin-IsPinned [] h = tt
pin-IsPinned (m ∷ ms) (h, hs) =
    ((record { id = h.id; text = h.text; trust = h.trust }, refl), pin-IsPinned ms hs)
