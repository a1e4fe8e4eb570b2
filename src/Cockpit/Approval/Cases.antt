-- ===== src/Cockpit/Approval/Cases.antt =====
-- The ways in which the registry's operations end, as rules for a predicate on what they return.
use kagura_agent.Prelude.{
  ℕ, String, ◌≡◌, Bool, true, false, Option, none, some, [], ◌∷◌, ◌++◌, length, Result, ok, raised,
  Option-cases, Bool-cases, inl, inr,
}
use kagura_agent.Prelude.Dict
use kagura_agent.Cockpit.Approval.{
  CapabilityRequest, waiting, Pending, Registry, Error, pending_approval_exists, set_result,
  expired, purge_if_expired, add_pending, resolve,
}

module _ (r : Registry) (now : ℕ) (thread : String) where
  pub purge_cases :
      (P : Registry → Type 0)
      → (Dict.get r.pending thread ≡ none → P r)
      → ((e : Pending) → Dict.get r.pending thread ≡ some e → expired r now e ≡ false → P r)
      → ((e : Pending)
          → Dict.get r.pending thread ≡ some e
          → expired r now e ≡ true
          → P (record (set_result r e.future false) { pending = Dict.remove r.pending thread }))
      → P (purge_if_expired r now thread)
  unfolding purge_if_expired
  purge_cases P absent live late = elim (Option-cases (Dict.get r.pending thread)) [
    | inl e ↦ rw (e, purge_if_expired) (absent e)
    | inr (x, e) ↦
        rw (e, purge_if_expired)
          (elim (Bool-cases (expired r now x)) [
            | inl t ↦ rw t (late x e t)
            | inr f ↦ rw f (live x e f)
          ])
  ]

  pub resolve_cases :
      (a : Bool) (Q : Option CapabilityRequest × Registry → Type 0)
      → (let p = purge_if_expired r now thread in
          (Dict.get p.pending thread ≡ none
            → Q (none, record p { pending = Dict.remove p.pending thread }))
          → ((e : Pending)
              → Dict.get p.pending thread ≡ some e
              → Q (
                some e.request,
                set_result (record p { pending = Dict.remove p.pending thread }) e.future a,
              ))
          → Q (resolve r now thread a))
  unfolding resolve
  resolve_cases a Q absent found =
      elim (Option-cases (Dict.get (purge_if_expired r now thread).pending thread)) [
        | inl e ↦ rw (e, resolve) (absent e)
        | inr (x, e) ↦ rw (e, resolve) (found x e)
      ]

pub add_cases :
    (r : Registry) (now : ℕ) (q : CapabilityRequest) (Q : Result Error ℕ × Registry → Type 0)
    → (Dict.get r.pending q.thread_id ≡ none
        → Q (
          ok (length r.futures),
          record r {
            pending =
                Dict.put r.pending q.thread_id
                  (record { request = q; future = length r.futures; created_at = now });
            futures = r.futures ++ waiting ∷ [];
          },
        ))
    → ((e : Pending)
        → Dict.get r.pending q.thread_id ≡ some e
        → Q (raised pending_approval_exists, r))
    → Q (add_pending r now q)
unfolding add_pending
add_cases r now q Q fresh taken = elim (Option-cases (Dict.get r.pending q.thread_id)) [
  | inl e ↦ rw (e, add_pending) (fresh e)
  | inr (x, e) ↦ rw (e, add_pending) (taken x e)
]
