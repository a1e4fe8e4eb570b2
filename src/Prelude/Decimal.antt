-- ===== src/Prelude/Decimal.antt =====
-- `f"{n}"`: a natural number in decimal digits. Each digit takes a unit of fuel, and `n + 1` is enough.
use Prim.Native.Char.{Char, code}
use Prim.Native.Nat.{ℕ, zero, suc, ◌+◌, ◌-◌, ◌*◌, ◌/◌, ◌%◌, ◌<◌}
use Prim.Native.String.{String}
use mathlib.Core.Path.{◌≡◌, refl, sym, ◌∙◌, ap}
use mathlib.Core.Logic.{inl, inr}
use native.Mathlib.Omega.{arith}
use kagura_agent.Prelude.Tests.{ltb, if◌then◌else◌, Bool-cases}

abbrev digit : ℕ → Char
digit zero = "0"
digit (suc zero) = "1"
digit (suc (suc zero)) = "2"
digit (suc (suc (suc zero))) = "3"
digit (suc (suc (suc (suc zero)))) = "4"
digit (suc (suc (suc (suc (suc zero))))) = "5"
digit (suc (suc (suc (suc (suc (suc zero)))))) = "6"
digit (suc (suc (suc (suc (suc (suc (suc zero))))))) = "7"
digit (suc (suc (suc (suc (suc (suc (suc (suc zero)))))))) = "8"
digit _ = "9"

-- The digits of `n` before the text `s`.
unfoldable pub digits : ℕ → ℕ → String → String
digits zero n s = s
digits (suc fuel) n s =
    let more = digits fuel (n / 10) (String.◌∷◌ (digit (n % 10)) s) in
    if ltb n 10 then String.◌∷◌ (digit n) s else more

unfoldable pub decimal : ℕ → String
unfolding digits
decimal n = digits (suc n) n ""

-- The number that a text of digits stands for, after one that stands for `v`.
value : ℕ → String → ℕ
value v String.[] = v
value v (String.◌∷◌ c s) = value (v * 10 + (code c - b'0')) s

code-digit : (d : ℕ) → d < 10 → code (digit d) - b'0' ≡ d
code-digit zero h = refl
code-digit (suc zero) h = refl
code-digit (suc (suc zero)) h = refl
code-digit (suc (suc (suc zero))) h = refl
code-digit (suc (suc (suc (suc zero)))) h = refl
code-digit (suc (suc (suc (suc (suc zero))))) h = refl
code-digit (suc (suc (suc (suc (suc (suc zero)))))) h = refl
code-digit (suc (suc (suc (suc (suc (suc (suc zero))))))) h = refl
code-digit (suc (suc (suc (suc (suc (suc (suc (suc zero)))))))) h = refl
code-digit (suc (suc (suc (suc (suc (suc (suc (suc (suc d))))))))) h = omega arith

value-digits : (fuel n : ℕ) (s : String) → n < fuel → value 0 (digits fuel n s) ≡ value n s
unfolding digits value
value-digits zero n s h = absurd (omega arith)
value-digits (suc fuel) n s h = elim (Bool-cases (ltb n 10)) [
  | inl e ↦ rw e (ap (λ k. value k s) (ground (arith, e, code-digit n)))
  | inr e ↦ rw e (
      value-digits fuel (n / 10) (String.◌∷◌ (digit (n % 10)) s) (ground (arith, e))
      ∙ ap (λ k. value k s) (omega (arith, code-digit (n % 10) (omega arith))))
]

pub decimal_inj : {m n : ℕ} → decimal m ≡ decimal n → m ≡ n
unfolding decimal value
decimal_inj {m = m} {n = n} e =
    sym (value-digits (suc m) m "" (omega arith))
    ∙ ap (value 0) e
    ∙ value-digits (suc n) n "" (omega arith)
