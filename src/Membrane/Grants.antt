-- ===== src/Membrane/Grants.antt =====
-- The task-scoped grants of membrane/registry.py: `Grant`, `GrantSet` and `parse_grants`.
-- A `frozenset` of grants is a list that is only asked for membership. The entries are texts, so the
-- tests of their Python types have no counterpart.
use kagura_agent.Prelude.{
  String, Bool, false, ◌&&◌, ◌||◌, none, some, List, [], ◌∷◌, ◌==◌, if◌then◌else◌, Result, ok,
  raised,
}
use kagura_agent.Prelude.Text.{strip, split_at, is_empty}
use kagura_agent.Membrane.Lease.{Error, value_error}

pub record Grant : Type 0 where
  pub provider : String
  pub scope : String

-- equality of the frozen dataclass
unfoldable pub same_grant : Grant → Grant → Bool
same_grant a b = a.provider == b.provider && a.scope == b.scope

-- `Grant(provider, scope) in self.grants`
unfoldable pub allows : List Grant → String → String → Bool
unfolding same_grant
allows [] provider scope = false
allows (g ∷ grants) provider scope =
    same_grant g (record { provider = provider; scope = scope }) || allows grants provider scope

-- `set.add`
unfoldable pub add_grant : Grant → List Grant → List Grant
unfolding allows
add_grant g grants = if allows grants g.provider g.scope then grants else g ∷ grants

-- One entry: split at the first colon, so that a scope keeps its own colons.
unfoldable pub parse_grant : String → Result Error Grant
unfolding strip split_at is_empty
parse_grant raw = elim (split_at b':' (strip raw)) [
  | none ↦ raised value_error
  | some (left, right) ↦
      let provider = strip left in
      let scope = strip right in
      if is_empty provider || is_empty scope
      then raised value_error
      else ok (record { provider = provider; scope = scope })
]

unfoldable pub parse_from : List Grant → List String → Result Error (List Grant)
unfolding parse_grant add_grant
parse_from grants [] = ok grants
parse_from grants (raw ∷ rest) = elim (parse_grant raw) [
  | raised e ↦ raised e
  | ok g ↦ parse_from (add_grant g grants) rest
]

unfoldable pub parse_grants : List String → Result Error (List Grant)
unfolding parse_from
parse_grants specs = parse_from [] specs
