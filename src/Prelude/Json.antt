-- ===== src/Prelude/Json.antt =====
-- JSON values as Python's json module reads and writes them. A float is held by its literal, an object by
-- its keys in their order. The module itself is outside, a parameter.
use kagura_agent.Prelude.Tests.{if◌then◌else◌}
use Prim.Native.Nat.{ℕ, zero, suc}
use Prim.Native.String.{String}
use mathlib.Core.Bool.{Bool, true, false, not}
use mathlib.Core.Path.{◌≡◌}
use mathlib.Core.Option.{Option, none, some}
use mathlib.Core.List.{List, [], ◌∷◌}
use text.Mathlib.Text.{◌==◌}

pub data ℤ : Type 0 where
  pos negsuc : ℕ → ℤ

mutual
  pub data Value : Type 0 where
    null : Value
    bool : Bool → Value
    int : ℤ → Value
    float : String → Value
    str : String → Value
    array : Items → Value
    object : Fields → Value

  pub data Items : Type 0 where
    nil : Items
    cons : Value → Items → Items

  pub data Fields : Type 0 where
    end : Fields
    field : String → Value → Fields → Fields

-- `loads` is `none` where `json.loads` raises; `encode` is UTF-8.
pub record Codec : Type 0 where
  pub dumps : Value → String
  pub loads : String → Option Value
  pub encode : String → List ℕ
  pub loads_bytes : List ℕ → Option Value

-- obj.get(key)
unfoldable pub get : Fields → String → Option Value
get end key = none
get (field k v rest) key = let later = get rest key in if k == key then some v else later

-- isinstance(value, str), and the text
unfoldable pub as_text : Option Value → Option String
as_text (some (str s)) = some s
as_text _ = none

-- isinstance(value, dict), and its entries
unfoldable pub as_object : Option Value → Option Fields
as_object (some (object fs)) = some fs
as_object _ = none

-- isinstance(value, int) and not isinstance(value, bool)
unfoldable pub is_int : Value → Bool
is_int (int _) = true
is_int _ = false

-- What Python makes of values beyond this model: `str(value)`, and whether a float is zero.
pub record Python : Type 0 where
  pub str_of : Value → String
  pub is_zero : String → Bool

-- `str(value)`, a text itself
unfoldable pub to_text : Python → Value → String
to_text py (str s) = s
to_text py v = py.str_of v

-- `bool(value)`
unfoldable pub truthy : Python → Value → Bool
truthy py null = false
truthy py (bool b) = b
truthy py (int (pos zero)) = false
truthy py (int (pos (suc _))) = true
truthy py (int (negsuc _)) = true
truthy py (float s) = not (py.is_zero s)
truthy py (str s) = not (s == "")
truthy py (array nil) = false
truthy py (array (cons _ _)) = true
truthy py (object end) = false
truthy py (object (field _ _ _)) = true

-- the items as a list
unfoldable pub items : Items → List Value
items nil = []
items (cons v vs) = v ∷ items vs

-- the entries but for those of a key
unfoldable pub without : String → Fields → Fields
without key end = end
without key (field k v rest) =
    let others = without key rest in if k == key then others else field k v others

pub as_object-some : (o : Option Value) {fs : Fields} → as_object o ≡ some fs → o ≡ some (object fs)
unfolding as_object
as_object-some none h = absurd (cc h)
as_object-some (some null) h = absurd (cc h)
as_object-some (some (bool _)) h = absurd (cc h)
as_object-some (some (int _)) h = absurd (cc h)
as_object-some (some (float _)) h = absurd (cc h)
as_object-some (some (str _)) h = absurd (cc h)
as_object-some (some (array _)) h = absurd (cc h)
as_object-some (some (object fs)) h = cc h
