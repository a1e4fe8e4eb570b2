-- ===== src/Prelude/Outcome.antt =====
-- The result of a call that may raise, for an exception type of the component's own, and the
-- actions that also change a state. What was written before a raise stays written, so the state
-- comes back beside the exception too.

use mathlib.Core.Path.{◌≡◌, refl, ap}
use mathlib.Core.Logic.{◌⊎◌, inl, inr}
use mathlib.Core.Bool.{Bool, true, false}
use kagura_agent.Prelude.Tests.{if◌then◌else◌}

pub data Result {ℓ} (E A : Type ℓ) : Type ℓ where
  ok : A → Result E A
  raised : E → Result E A

abbrev pub Action : Type 0 → Type 0 → Type 0 → Type 0
Action S E A = S → Result E A × S

abbrev pub continue : {S E A B : Type 0} → Result E A → (A → Action S E B) → Action S E B
continue (ok a) f s = f a s
continue (raised e) f s = (raised e, s)

infixl 10 ◌>>=◌ ◌>>◌
abbrev pub ◌>>=◌ : {S E A B : Type 0} → Action S E A → (A → Action S E B) → Action S E B
◌>>=◌ m f s = let (r, s') = m s in continue r f s'

abbrev pub ◌>>◌ : {S E A B : Type 0} → Action S E A → Action S E B → Action S E B
m >> n = m >>= λ _. n

abbrev pub pure : {S E A : Type 0} → A → Action S E A
pure a s = (ok a, s)

abbrev pub raise : {S E A : Type 0} → E → Action S E A
raise e s = (raised e, s)

abbrev pub lift : {S E A : Type 0} → Result E A → Action S E A
lift r s = (r, s)

-- The rule for a step of a `do` block: what holds of an exception and of every way to go on holds
-- of the whole.
pub continue_rule :
    {S E A B : Type 0} (Q : Result E B × S → Type 0) (r : Result E A) (f : A → Action S E B) (s : S)
    → ((e : E) → r ≡ raised e → Q (raised e, s))
    → ((a : A) → r ≡ ok a → Q (f a s))
    → Q (continue r f s)
continue_rule Q (ok a) f s stop go = go a refl
continue_rule Q (raised e) f s stop go = stop e refl

-- The rule for a branch.
pub if_rule :
    {S E A : Type 0} (Q : Result E A × S → Type 0) (b : Bool) (m n : Action S E A) (s : S)
    → (b ≡ true → Q (m s))
    → (b ≡ false → Q (n s))
    → Q ((if b then m else n) s)
if_rule Q true m n s t f = t refl
if_rule Q false m n s t f = f refl

-- The next step of a chain of tests that may raise.
abbrev pub bind : {E A B : Type 0} → Result E A → (A → Result E B) → Result E B
bind (ok a) f = f a
bind (raised e) f = raised e

-- The rule for a step of the chain: what follows from each way to go on follows from the whole.
pub bind_rule :
    {E A B : Type 0} {Q : Type 0} (r : Result E A) (f : A → Result E B) {b : B}
    → ((a : A) → r ≡ ok a → f a ≡ ok b → Q)
    → bind r f ≡ ok b
    → Q
bind_rule (ok a) f go h = go a refl h
bind_rule (raised e) f go h = absurd (cc h)

pub ok_inj : {E A : Type 0} {a b : A} → ◌≡◌ {A = Result E A} (ok a) (ok b) → a ≡ b
ok_inj {a = a} = ap (λ r. elim r [ ok x ↦ x | raised _ ↦ a ])

pub Result-cases :
    {E A : Type 0} (r : Result E A) → ((a : A) × (r ≡ ok a)) ⊎ ((e : E) × (r ≡ raised e))
Result-cases (ok a) = inl (a, refl)
Result-cases (raised e) = inr (e, refl)
