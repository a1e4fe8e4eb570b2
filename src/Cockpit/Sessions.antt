-- ===== src/Cockpit/Sessions.antt =====
-- cockpit/registry.py: the table of the sessions, one record for each thread.
pub mod History
mod Examples
use kagura_agent.Prelude.{
  String, Bool, true, false, not, ◌&&◌, ◌||◌, Option, none, some, List, [], ◌∷◌, ◌==◌,
  if◌then◌else◌,
}
use kagura_agent.Prelude.Text.{member}
use kagura_agent.Prelude.Dict
use kagura_agent.Prelude.Dict.{Dict}

pub data Status : Type 0 where
  running dead closed : Status

pub record SessionRecord : Type 0 where
  pub thread_id : String
  pub container_id : Option String
  pub image : Option String
  pub granted_caps : List String
  pub status : Status

abbrev pub SessionRegistry : Type 0
SessionRegistry = Dict SessionRecord

unfoldable pub is_running : SessionRecord → Bool
is_running rec = elim rec.status [ running ↦ true | _ ↦ false ]

-- what `add` stores
unfoldable pub new_record : String → Option String → Option String → List String → SessionRecord
new_record thread container image caps = record {
  thread_id = thread;
  container_id = container;
  image = image;
  granted_caps = caps;
  status = running;
}

unfoldable pub add :
    SessionRegistry → String → Option String → Option String → List String → SessionRegistry
unfolding new_record
add d thread container image caps = Dict.put d thread (new_record thread container image caps)

-- what `set_container` makes of the record of the thread
unfoldable pub armed : Option SessionRecord → String → String → Option String → SessionRecord
unfolding new_record
armed none thread container image = new_record thread (some container) image []
armed (some rec) thread container none = record rec {
  container_id = some container;
  status = running;
}
armed (some rec) thread container (some i) = record rec {
  container_id = some container;
  image = some i;
  status = running;
}

unfoldable pub set_container : SessionRegistry → String → String → Option String → SessionRegistry
unfolding armed
set_container d thread container image =
    Dict.put d thread (armed (Dict.get d thread) thread container image)

unfoldable pub has : SessionRegistry → String → Bool
has d thread = elim (Dict.get d thread) [ none ↦ false | some _ ↦ true ]

-- The threads whose session can be resumed.
unfoldable pub sessions : SessionRegistry → List String
unfolding is_running
sessions [] = []
sessions ((thread, rec) ∷ d) =
    let rest = sessions d in if is_running rec then thread ∷ rest else rest

unfoldable pub close : SessionRegistry → String → SessionRegistry
close d thread = elim (Dict.get d thread) [
  | none ↦ d
  | some rec ↦ Dict.put d thread (record rec { status = closed })
]

-- one step of the loop of `reconcile`
unfoldable pub reconcile_one : List String → SessionRecord → SessionRecord
unfolding member
reconcile_one live rec = elim rec.container_id [
  | none ↦ rec
  | some c ↦ if not (member c live) then record rec { status = dead } else rec
]

unfoldable pub reconcile : SessionRegistry → List String → SessionRegistry
unfolding reconcile_one
reconcile [] live = []
reconcile ((thread, rec) ∷ d) live = (thread, reconcile_one live rec) ∷ reconcile d live
