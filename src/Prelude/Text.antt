-- ===== src/Prelude/Text.antt =====
-- Python's text methods: `strip`, `find` with slices, and on the code points of a text `lower`,
-- `casefold` and `startswith`.
-- White space and letter case are those of ASCII.
use Prim.Native.Char.{Char, code}
use kagura_agent.Prelude.Tests.{if◌then◌else◌, leb, eqb}
use Prim.Native.Nat.{ℕ, ◌+◌}
use Prim.Native.String.{String}
use mathlib.Core.Bool.{Bool, true, false, ◌&&◌, ◌||◌}
use text.Mathlib.Text.{◌==◌}
use mathlib.Core.List.{List, [], ◌∷◌, map}
use mathlib.Core.Option.{Option, none, some}

-- The code points of a text. `String` has its own `[]` and `∷`.
abbrev pub codes : String → List ℕ
codes String.[] = []
codes (String.◌∷◌ c s) = code c ∷ codes s

-- `c.isspace()`
unfoldable pub is_space : ℕ → Bool
is_space c = (leb 9 c && leb c 13) || (leb 28 c && leb c 32)

unfoldable pub lstrip : String → String
lstrip String.[] = ""
lstrip (String.◌∷◌ c s) = let rest = lstrip s in if is_space (code c) then rest else String.◌∷◌ c s

-- one step of `rstrip`, from the right end
unfoldable pub rstrip_cons : Char → String → String
rstrip_cons c String.[] = if is_space (code c) then "" else String.◌∷◌ c ""
rstrip_cons c (String.◌∷◌ d s) = String.◌∷◌ c (String.◌∷◌ d s)

unfoldable pub rstrip : String → String
unfolding rstrip_cons
rstrip String.[] = ""
rstrip (String.◌∷◌ c s) = rstrip_cons c (rstrip s)

-- `s.strip()`
unfoldable pub strip : String → String
unfolding lstrip rstrip is_space
strip s = rstrip (lstrip s)

-- `s[:i]` and `s[i + 1:]` at the first place `i` of the character, `none` where `s.find` gives -1
unfoldable pub split_at : ℕ → String → Option (String × String)
split_at d String.[] = none
split_at d (String.◌∷◌ c s) =
    if eqb (code c) d
    then some ("", s)
    else elim (split_at d s) [ none ↦ none | some (a, b) ↦ some (String.◌∷◌ c a, b) ]

-- `not s`
unfoldable pub is_empty : String → Bool
is_empty String.[] = true
is_empty (String.◌∷◌ c s) = false

unfoldable pub lower_char : ℕ → ℕ
lower_char c = if leb 65 c && leb c 90 then c + 32 else c

-- `s.lower()`, `s.casefold()`
unfoldable pub lower : List ℕ → List ℕ
unfolding lower_char
lower = map lower_char

-- `s == t`
unfoldable pub eq_codes : List ℕ → List ℕ → Bool
eq_codes [] [] = true
eq_codes (a ∷ s) (b ∷ t) = eqb a b && eq_codes s t
eq_codes _ _ = false

-- `s.startswith(t)`
unfoldable pub starts_with : List ℕ → List ℕ → Bool
starts_with s [] = true
starts_with [] (b ∷ t) = false
starts_with (a ∷ s) (b ∷ t) = eqb a b && starts_with s t

-- `t in (x, ...)`
unfoldable pub member : String → List String → Bool
member t [] = false
member t (x ∷ xs) = x == t || member t xs

unfoldable pub push_char : ℕ → List (List ℕ) → List (List ℕ)
push_char c [] = (c ∷ []) ∷ []
push_char c (w ∷ ws) = (c ∷ w) ∷ ws

-- the text cut at each white space, with the empty pieces
unfoldable pub pieces : List ℕ → List (List ℕ)
unfolding push_char is_space
pieces [] = [] ∷ []
pieces (c ∷ s) = let rest = pieces s in if is_space c then [] ∷ rest else push_char c rest

unfoldable pub drop_empty : List (List ℕ) → List (List ℕ)
drop_empty [] = []
drop_empty ([] ∷ ws) = drop_empty ws
drop_empty ((c ∷ w) ∷ ws) = (c ∷ w) ∷ drop_empty ws

-- `s.split()`
unfoldable pub words : List ℕ → List (List ℕ)
unfolding pieces drop_empty
words s = drop_empty (pieces s)

-- `t in s`
unfoldable pub has_text : List ℕ → List ℕ → Bool
unfolding starts_with
has_text t [] = starts_with [] t
has_text t (c ∷ s) = starts_with (c ∷ s) t || has_text t s
