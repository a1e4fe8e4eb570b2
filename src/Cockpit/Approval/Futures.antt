-- ===== src/Cockpit/Approval/Futures.antt =====
-- A future keeps the first thing that happened to it.
use kagura_agent.Prelude.{
  ℕ, zero, suc, ◌≤◌, ◌<◌, String, ◌≡◌, ◌≢◌, refl, ap, Bool, false, Option, none, some, List, [],
  ◌∷◌, ◌++◌, eqb, length, if◌then◌else◌, arith, length-append,
}
use kagura_agent.Cockpit.Approval.Cases.{purge_cases, resolve_cases, add_cases}
use kagura_agent.Cockpit.Approval.{
  CapabilityRequest, Future, waiting, decided, cancelled, Registry, settle, settle_at, set_result,
  purge_if_expired, register, is_pending, claim, resolve,
}

abbrev pub get_elem? : List Future → ℕ → Option Future
get_elem? [] i = none
get_elem? (f ∷ fs) zero = some f
get_elem? (f ∷ fs) (suc i) = get_elem? fs i

-- The futures only grow, and those that are done stay what they are.
pub record Grows (fs gs : List Future) : Type 0 where
  pub done_kept :
      (i : ℕ) (f : Future) → get_elem? fs i ≡ some f → f ≢ waiting → get_elem? gs i ≡ some f
  pub none_lost : length fs ≤ length gs

pub Grows-refl : (fs : List Future) → Grows fs fs
Grows-refl fs = record { done_kept = λ i f e _. e; none_lost = omega arith }

pub Grows-trans : {fs gs hs : List Future} → Grows fs gs → Grows gs hs → Grows fs hs
Grows-trans a b = record {
  done_kept = λ i f e n. b.done_kept i f (a.done_kept i f e n) n;
  none_lost = (let x = a.none_lost in let y = b.none_lost in omega arith);
}

abbrev pub settled : Bool → Option Future → Option Future
settled a none = none
settled a (some f) = some (settle f a)

pub get_elem?-settle_at :
    (fs : List Future) (i j : ℕ) (a : Bool)
    → get_elem? (settle_at fs i a) j
      ≡ (if eqb i j then settled a (get_elem? fs j) else get_elem? fs j)
unfolding settle_at
get_elem?-settle_at [] i j a = ground arith
get_elem?-settle_at (f ∷ fs) zero zero a = refl
get_elem?-settle_at (f ∷ fs) zero (suc j) a = ground arith
get_elem?-settle_at (f ∷ fs) (suc i) zero a = ground arith
get_elem?-settle_at (f ∷ fs) (suc i) (suc j) a = ground (arith, get_elem?-settle_at fs i j a)

pub length-settle_at : (fs : List Future) (i : ℕ) (a : Bool) → length (settle_at fs i a) ≡ length fs
unfolding settle_at
length-settle_at [] i a = refl
length-settle_at (f ∷ fs) zero a = refl
length-settle_at (f ∷ fs) (suc i) a = ap suc (length-settle_at fs i a)

settled_done : (f : Future) (a : Bool) → f ≢ waiting → settle f a ≡ f
unfolding settle
settled_done waiting a h = absurd (h refl)
settled_done (decided b) a h = refl
settled_done cancelled a h = refl

pub Grows-settle_at : (fs : List Future) (i : ℕ) (a : Bool) → Grows fs (settle_at fs i a)
Grows-settle_at fs i a = record {
  done_kept = λ j f e n. ground (arith, get_elem?-settle_at fs i j a, settled_done f a n, e);
  none_lost = omega (arith, length-settle_at fs i a);
}

pub get_elem?-append :
    (fs : List Future) (f : Future) (i : ℕ)
    → get_elem? (fs ++ f ∷ []) i ≡ (if eqb i (length fs) then some f else get_elem? fs i)
get_elem?-append [] f zero = refl
get_elem?-append [] f (suc i) = ground arith
get_elem?-append (x ∷ fs) f zero = ground arith
get_elem?-append (x ∷ fs) f (suc i) = ground (arith, get_elem?-append fs f i)

pub get_elem?_bound :
    (fs : List Future) (i : ℕ) (f : Future) → get_elem? fs i ≡ some f → i < length fs
get_elem?_bound [] i f e = cc
get_elem?_bound (x ∷ fs) zero f e = omega arith
get_elem?_bound (x ∷ fs) (suc i) f e = omega (arith, get_elem?_bound fs i f e)

pub Grows-append : (fs : List Future) (f : Future) → Grows fs (fs ++ f ∷ [])
Grows-append fs f = record {
  done_kept = λ i g e _. ground (arith, get_elem?-append fs f i, get_elem?_bound fs i g e, e);
  none_lost = omega (arith, length-append fs (f ∷ []));
}

module _ (r : Registry) (now : ℕ) (thread : String) where
  pub purge-Grows : Grows r.futures (purge_if_expired r now thread).futures
  unfolding set_result
  purge-Grows =
      purge_cases r now thread (λ p. Grows r.futures p.futures) (λ _. Grows-refl r.futures)
        (λ _ _ _. Grows-refl r.futures) (λ e _ _. Grows-settle_at r.futures e.future false)

  pub claim-Grows : Grows r.futures (claim r now thread).1.futures
  unfolding claim
  claim-Grows = purge-Grows

  pub resolve-Grows : (a : Bool) → Grows r.futures (resolve r now thread a).1.futures
  unfolding set_result
  resolve-Grows a =
      resolve_cases r now thread a (λ x. Grows r.futures x.1.futures) (λ _. purge-Grows)
        (λ e _. Grows-trans purge-Grows (Grows-settle_at _ e.future a))

  pub is_pending-Grows : Grows r.futures (is_pending r now thread).1.futures
  unfolding is_pending
  is_pending-Grows = purge-Grows

pub register-Grows :
    (r : Registry) (now created : ℕ) (q : CapabilityRequest)
    → Grows r.futures (register r now created q).1.futures
unfolding register
register-Grows r now created q =
    add_cases (purge_if_expired r now q.thread_id) created q (λ x. Grows r.futures x.1.futures)
      (λ _. Grows-trans (purge-Grows r now q.thread_id) (Grows-append _ waiting))
      (λ _ _. purge-Grows r now q.thread_id)

-- Every operation of the registry keeps each future that is decided or cancelled as it is: the first
-- decision on a request is its last.
pub operations-Grows :
    (r : Registry) (now created : ℕ) (q : CapabilityRequest) (thread : String) (a : Bool)
    → Grows r.futures (register r now created q).1.futures
      × Grows r.futures (is_pending r now thread).1.futures
      × Grows r.futures (claim r now thread).1.futures
      × Grows r.futures (resolve r now thread a).1.futures
      × ((i : ℕ) → Grows r.futures (set_result r i a).futures)
unfolding set_result
operations-Grows r now created q thread a = (
  register-Grows r now created q,
  is_pending-Grows r now thread,
  claim-Grows r now thread,
  resolve-Grows r now thread a,
  λ i. Grows-settle_at r.futures i a,
)
