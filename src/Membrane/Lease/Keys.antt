-- ===== src/Membrane/Lease/Keys.antt =====
-- The ledger's keys, `provider:handle`: a provider's name holds no colon (membrane/registry.py), so
-- a key stands for one provider and one handle.
use Prim.Native.Char.{Char, code}
use Prim.Native.String.{◌++◌ as append}
use kagura_agent.Prelude.{String, ◌≡◌, refl, ap, ◌∙◌, Bool, false, ◌||◌, some, arith, eqb}
use mathlib.Core.Path.{ap₂}
use text.Mathlib.TextLemmas.{cons-eq-cons, nil-append, cons-append}
use kagura_agent.Membrane.Lease.{token_key}

-- Does the text hold a colon?
unfoldable pub has_colon : String → Bool
has_colon String.[] = false
has_colon (String.◌∷◌ c s) = eqb (code c) b':' || has_colon s

abbrev colon : Char
colon = ":"

append-colon : (s : String) → append ":" s ≡ String.◌∷◌ colon s
append-colon s = cons-append colon "" s ∙ ap (String.◌∷◌ colon) (nil-append s)

pub prefix_unique :
    (m n s t : String)
    → has_colon m ≡ false
    → has_colon n ≡ false
    → append m (append ":" s) ≡ append n (append ":" t)
    → (m ≡ n) × (s ≡ t)
unfolding has_colon
prefix_unique String.[] String.[] s t hm hn e =
    (refl, (cons-eq-cons.0 (simp (nil-append, append-colon) at e)).1)
prefix_unique String.[] (String.◌∷◌ c n) s t hm hn e =
    absurd (
      ground
        (arith, ap code (cons-eq-cons.0 (simp (nil-append, cons-append, append-colon) at e)).0))
prefix_unique (String.◌∷◌ c m) String.[] s t hm hn e =
    absurd (
      ground
        (arith, ap code (cons-eq-cons.0 (simp (nil-append, cons-append, append-colon) at e)).0))
prefix_unique (String.◌∷◌ c m) (String.◌∷◌ d n) s t hm hn e =
    let (same, rest) = cons-eq-cons.0 (simp cons-append at e) in
    let (names, ends) = prefix_unique m n s t (ground arith) (ground arith) rest in
    (ap₂ String.◌∷◌ same names, ends)

-- Two keys are the same text exactly when they name the same token.
pub token_key-eq :
    {m n : String} (h k : String)
    → has_colon m ≡ false
    → has_colon n ≡ false
    → token_key m (some h) ≡ token_key n (some k)
    → (m ≡ n) × (h ≡ k)
unfolding token_key
token_key-eq h k hm hn e = prefix_unique _ _ h k hm hn e
