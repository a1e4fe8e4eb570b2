-- ===== src/Cockpit/Operator.antt =====
-- Who may steer: cockpit/transports/base.py, `Event` and `click_authorized`, and the routing of an
-- event by its text and its thread, cockpit/intent.py.
use kagura_agent.Prelude.Text.{member}
use kagura_agent.Prelude.{
  ℕ, String, Bool, true, false, not, ◌&&◌, Option, none, some, List, [], ◌∷◌, ◌==◌, if◌then◌else◌,
}
use kagura_agent.Prelude.Text.{codes, strip, lower, eq_codes, is_empty, is_space}

pub record Event : Type 0 where
  pub thread_id : String
  pub text : String
  pub is_thread_reply : Bool
  pub sender : Option String

-- `a == b` of two optional texts
unfoldable pub same : Option String → Option String → Bool
same none none = true
same (some a) (some b) = a == b
same _ _ = false

unfoldable pub click_authorized : Option String → Option String → Bool → Bool
unfolding same is_empty
click_authorized clicker operator require_operator = elim operator [
  | none ↦ not require_operator
  | some o ↦
      if require_operator then not (is_empty o) && same clicker (some o) else same clicker (some o)
]

pub data Intent : Type 0 where
  launch continues status approve deny kill : Intent

-- the code points up to the first white space
unfoldable pub first_word : List ℕ → List ℕ
unfolding is_space
first_word [] = []
first_word (c ∷ cs) = let rest = first_word cs in if is_space c then [] else c ∷ rest

-- `_COMMANDS.get(command)`
unfoldable pub command_of : List ℕ → Option Intent
unfolding eq_codes
command_of word =
    if eq_codes word (codes "/status")
    then some status
    else if eq_codes word (codes "/kill")
    then some kill
    else if eq_codes word (codes "/approve")
    then some approve
    else if eq_codes word (codes "/deny")
    then some deny
    else none

unfoldable pub classify : Event → List String → Intent
unfolding command_of first_word lower strip
classify event known = elim (command_of (lower (first_word (codes (strip event.text))))) [
  | some intent ↦ intent
  | none ↦ if event.is_thread_reply && member event.thread_id known then continues else launch
]
