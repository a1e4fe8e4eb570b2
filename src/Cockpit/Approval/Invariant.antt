-- ===== src/Cockpit/Approval/Invariant.antt =====
-- The registry's invariant, and when an approval is granted.
use kagura_agent.Prelude.{
  ℕ, ◌<◌, String, ◌≡◌, ◌≢◌, sym, ◌∙◌, ap, subst, Bool, true, false, Option, none, some, List, [],
  ◌∷◌, ◌++◌, eqb, eqb_iff, length, arith, Bool-cases, ◌⊎◌, inl, inr, ◌==◌, eq_iff,
}
use kagura_agent.Prelude.Dict
use kagura_agent.Prelude.Dict.{Dict, get-put, get-remove}
use kagura_agent.Cockpit.Approval.{
  CapabilityRequest, Future, waiting, decided, cancelled, Pending, Registry, set_result,
  purge_if_expired, register, add_pending, is_pending, claim, resolve,
}
use kagura_agent.Cockpit.Approval.Cases.{purge_cases, resolve_cases, add_cases}
use kagura_agent.Cockpit.Approval.Futures.{
  get_elem?, get_elem?-settle_at, get_elem?-append, get_elem?_bound,
}

-- The consumer of this future sees an approval.
abbrev pub Approved : List Future → ℕ → Type 0
Approved fs i = get_elem? fs i ≡ some (decided true)

-- The future is not decided: it waits, or its consumer has given it up.
abbrev pub IsOpen : List Future → ℕ → Type 0
IsOpen fs i = (get_elem? fs i ≡ some waiting) ⊎ (get_elem? fs i ≡ some cancelled)

-- An entry stands under its own thread, no two entries share a future, and none is decided yet.
pub record IsValid (r : Registry) : Type 0 where
  pub keyed : (k : String) (e : Pending) → Dict.get r.pending k ≡ some e → e.request.thread_id ≡ k
  pub unique :
      (j k : String) (d e : Pending)
      → Dict.get r.pending j ≡ some d
      → Dict.get r.pending k ≡ some e
      → d.future ≡ e.future
      → j ≡ k
  pub undecided :
      (k : String) (e : Pending) → Dict.get r.pending k ≡ some e → IsOpen r.futures e.future

-- The entry of a thread is taken out, and its future settled or left to the caller.
module _ (r : Registry) (v : IsValid r) (thread : String) where
  found :
      (k : String) (d : Pending)
      → Dict.get (Dict.remove r.pending thread) k ≡ some d
      → (thread ≢ k) × (Dict.get r.pending k ≡ some d)
  found k d h = (
    λ t. ground (arith, get-remove r.pending thread k, eq_iff thread k, t, h),
    ground (arith, get-remove r.pending thread k, h),
  )

  popped-IsValid : IsValid (record r { pending = Dict.remove r.pending thread })
  popped-IsValid = record {
    keyed = λ k e h. v.keyed k e (found k e h).1;
    unique = λ j k d e h i. v.unique j k d e (found j d h).1 (found k e i).1;
    undecided = λ k e h. v.undecided k e (found k e h).1;
  }

  settled-IsValid :
      (e : Pending) (a : Bool)
      → Dict.get r.pending thread ≡ some e
      → IsValid (set_result (record r { pending = Dict.remove r.pending thread }) e.future a)
  unfolding set_result
  settled-IsValid e a here = record {
    keyed = popped-IsValid.keyed;
    unique = popped-IsValid.unique;
    undecided = λ k d h. elim (Bool-cases (eqb e.future d.future)) [
      | inl t ↦
          let same = v.unique thread k e d here (found k d h).1 ((eqb_iff e.future d.future).0 t) in
          absurd ((found k d h).0 same)
      | inr f ↦
          rw (get_elem?-settle_at r.futures e.future d.future a, f)
            (v.undecided k d (found k d h).1)
    ];
  }

pub purge-IsValid :
    (r : Registry) (now : ℕ) (thread : String) → IsValid r → IsValid (purge_if_expired r now thread)
unfolding set_result
purge-IsValid r now thread v =
    purge_cases r now thread IsValid (λ _. v) (λ _ _ _. v)
      (λ e here _. settled-IsValid r v thread e false here)

pub claim-IsValid :
    (r : Registry) (now : ℕ) (thread : String) → IsValid r → IsValid (claim r now thread).1
unfolding claim
claim-IsValid r now thread v =
    popped-IsValid (purge_if_expired r now thread) (purge-IsValid r now thread v) thread

pub resolve-IsValid :
    (r : Registry) (now : ℕ) (thread : String) (a : Bool)
    → IsValid r
    → IsValid (resolve r now thread a).1
resolve-IsValid r now thread a v =
    let v' = purge-IsValid r now thread v in
    resolve_cases r now thread a (λ x. IsValid x.1) (λ _. popped-IsValid _ v' thread)
      (λ e here. settled-IsValid _ v' thread e a here)

abbrev pub or_else : Pending → Option Pending → Pending
or_else new none = new
or_else new (some e) = e

-- An entry after a write is the one that was written, or was there.
put_cases :
    (d : Dict Pending) (thread k : String) (new e : Pending)
    → Dict.get (Dict.put d thread new) k ≡ some e
    → ((thread ≡ k) × (new ≡ e)) ⊎ ((thread ≢ k) × (Dict.get d k ≡ some e))
put_cases d thread k new e h = elim (Bool-cases (thread == k)) [
  | inl t ↦
      let written : some new ≡ some e = ground (arith, get-put d thread k new, t, h) in
      inl ((eq_iff thread k).0 t, ap (or_else new) written)
  | inr f ↦ inr (
    λ same. ground (arith, eq_iff thread k, same, f),
    ground (arith, get-put d thread k new, f, h),
  )
]

open_bound : (fs : List Future) (i : ℕ) → IsOpen fs i → i < length fs
open_bound fs i (inl w) = get_elem?_bound fs i waiting w
open_bound fs i (inr c) = get_elem?_bound fs i cancelled c

IsOpen-append : (fs : List Future) (i : ℕ) → IsOpen fs i → IsOpen (fs ++ waiting ∷ []) i
IsOpen-append fs i o =
    let below = open_bound fs i o in
    let apart : eqb i (length fs) ≡ false = ground arith in
    rw (get_elem?-append fs waiting i, apart) o

module _ (r : Registry) (now : ℕ) (q : CapabilityRequest) (v : IsValid r) where
  added : Pending
  added = record { request = q; future = length r.futures; created_at = now }

  -- no old entry has the new future
  fresh : (k : String) (e : Pending) → Dict.get r.pending k ≡ some e → e.future ≢ length r.futures
  fresh k e h same = let below = open_bound r.futures e.future (v.undecided k e h) in omega arith

  add-IsValid : IsValid (add_pending r now q).1
  unfolding added
  add-IsValid =
      add_cases r now q (λ x. IsValid x.1)
        (λ absent. record {
          keyed = λ k e h. elim (put_cases r.pending q.thread_id k added e h) [
            | inl (t, new) ↦ ap (λ (x : Pending). x.request.thread_id) (sym new) ∙ t
            | inr (_, old) ↦ v.keyed k e old
          ];
          unique = λ j k d e h i same. elim (put_cases r.pending q.thread_id j added d h) [
            | inl (t, new) ↦ elim (put_cases r.pending q.thread_id k added e i) [
              | inl (u, _) ↦ sym t ∙ u
              | inr (_, old) ↦
                  absurd (fresh k e old (sym same ∙ ap (λ (x : Pending). x.future) (sym new)))
            ]
            | inr (_, old) ↦ elim (put_cases r.pending q.thread_id k added e i) [
              | inl (u, new) ↦
                  absurd (fresh j d old (same ∙ ap (λ (x : Pending). x.future) (sym new)))
              | inr (_, old') ↦ v.unique j k d e old old' same
            ]
          ];
          undecided = λ k e h. elim (put_cases r.pending q.thread_id k added e h) [
            | inl (_, new) ↦
                subst (λ (x : Pending). IsOpen (r.futures ++ waiting ∷ []) x.future) new
                  (inl (get_elem?-append r.futures waiting (length r.futures) ∙ ground arith))
            | inr (_, old) ↦ IsOpen-append r.futures e.future (v.undecided k e old)
          ];
        })
        (λ _ _. v)

module _ (r : Registry) (v : IsValid r) where
  -- `register`, the query for a pending request, `claim` and `resolve` keep the invariant: every entry
  -- stands under its own thread, no two share a future, and none is decided.
  pub operations-IsValid :
      (now created : ℕ) (q : CapabilityRequest) (thread : String) (a : Bool)
      → IsValid (register r now created q).1
        × IsValid (is_pending r now thread).1
        × IsValid (claim r now thread).1
        × IsValid (resolve r now thread a).1
  unfolding register is_pending
  operations-IsValid now created q thread a = (
    add-IsValid (purge_if_expired r now q.thread_id) created q (purge-IsValid r now q.thread_id v),
    purge-IsValid r now thread v,
    claim-IsValid r now thread v,
    resolve-IsValid r now thread a v,
  )
