-- ===== src/Cockpit/Approval.antt =====
-- cockpit/approval.py: the pending capability requests, one for each thread.
-- A future is an index into the list of all futures made so far, the oldest first, so that the
-- registry and the consumer share it. Each operation takes the readings of the clock that it makes, in
-- whole ticks; `clock() - created_at > ttl` of the source is `created_at + ttl < clock()`.
pub mod Cases
pub mod Futures
pub mod Invariant
pub mod Grants
mod Examples
use kagura_agent.Prelude.{
  ℕ, zero, suc, ◌+◌, String, Bool, true, false, Option, none, some, List, [], ◌∷◌, ◌++◌, ltb,
  length, if◌then◌else◌, Result, ok, raised,
}
use kagura_agent.Prelude.Dict
use kagura_agent.Prelude.Dict.{Dict}

pub record CapabilityRequest : Type 0 where
  pub thread_id : String
  pub capability : String
  pub reason : String

-- `decided a` holds `Decision(approved=a)`; a consumer's timeout cancels its future.
pub data Future : Type 0 where
  waiting : Future
  decided : Bool → Future
  cancelled : Future

pub record Pending : Type 0 where
  pub request : CapabilityRequest
  pub future : ℕ
  pub created_at : ℕ

pub record Registry : Type 0 where
  pub ttl : ℕ
  pub pending : Dict Pending
  pub futures : List Future

pub data Error : Type 0 where
  pending_approval_exists : Error

-- `if not future.done(): future.set_result(...)`
unfoldable pub settle : Future → Bool → Future
settle waiting approved = decided approved
settle f approved = f

unfoldable pub settle_at : List Future → ℕ → Bool → List Future
unfolding settle
settle_at [] i approved = []
settle_at (f ∷ fs) zero approved = settle f approved ∷ fs
settle_at (f ∷ fs) (suc i) approved = f ∷ settle_at fs i approved

unfoldable pub set_result : Registry → ℕ → Bool → Registry
unfolding settle_at
set_result r i approved = record r { futures = settle_at r.futures i approved }

unfoldable pub expired : Registry → ℕ → Pending → Bool
expired r now entry = ltb (entry.created_at + r.ttl) now

-- what `_purge_if_expired` does to an entry that is there
unfoldable pub purge_entry : Registry → ℕ → String → Pending → Registry
unfolding expired set_result
purge_entry r now thread entry =
    if expired r now entry
    then record (set_result r entry.future false) { pending = Dict.remove r.pending thread }
    else r

unfoldable pub purge_if_expired : Registry → ℕ → String → Registry
unfolding purge_entry
purge_if_expired r now thread = elim (Dict.get r.pending thread) [
  | none ↦ r
  | some entry ↦ purge_entry r now thread entry
]

-- the rest of `register`, after the purge
unfoldable pub add_pending : Registry → ℕ → CapabilityRequest → Result Error ℕ × Registry
add_pending r now request =
    let future = length r.futures in
    let entry : Pending = record { request = request; future = future; created_at = now } in
    elim (Dict.get r.pending request.thread_id) [
      | some _ ↦ (raised pending_approval_exists, r)
      | none ↦ (
        ok future,
        record r {
          pending = Dict.put r.pending request.thread_id entry;
          futures = r.futures ++ waiting ∷ [];
        },
      )
    ]

unfoldable pub register : Registry → ℕ → ℕ → CapabilityRequest → Result Error ℕ × Registry
unfolding purge_if_expired add_pending
register r now created request =
    add_pending (purge_if_expired r now request.thread_id) created request

unfoldable pub is_pending : Registry → ℕ → String → Bool × Registry
unfolding purge_if_expired
is_pending r now thread =
    let r' = purge_if_expired r now thread in
    (elim (Dict.get r'.pending thread) [ none ↦ false | some _ ↦ true ], r')

-- `self._pending.pop(thread_id, None)`
unfoldable pub pop : Registry → String → Option Pending × Registry
pop r thread = (Dict.get r.pending thread, record r { pending = Dict.remove r.pending thread })

unfoldable pub claim : Registry → ℕ → String → Option (CapabilityRequest × ℕ) × Registry
unfolding purge_if_expired pop
claim r now thread =
    let (entry, r') = pop (purge_if_expired r now thread) thread in
    (elim entry [ none ↦ none | some e ↦ some (e.request, e.future) ], r')

unfoldable pub resolve : Registry → ℕ → String → Bool → Option CapabilityRequest × Registry
unfolding purge_if_expired pop set_result
resolve r now thread approved =
    let (entry, r') = pop (purge_if_expired r now thread) thread in
    elim entry [ none ↦ (none, r') | some e ↦ (some e.request, set_result r' e.future approved) ]
