-- ===== src/Eval/Corpus.antt =====
-- eval/bootstrap_ab.py: the fixed tasks, the memories that they are asked over, and the checks on both.
-- Regular expressions are a parameter. A score is held as the hits and the number of values. Texts are
-- folded as ASCII.
pub mod Tasks
pub mod Accepted
mod Examples
use Prim.Native.String.{◌++◌ as append}
use kagura_agent.Prelude.{
  ℕ, zero, suc, ◌+◌, String, Bool, true, false, not, ◌&&◌, ◌||◌, Option, none, some, List, [], ◌∷◌,
  ◌++◌, ◌==◌, eqb, leb, length, map, if◌then◌else◌, Result, ok, raised, bind,
}
use kagura_agent.Prelude.Text.{codes, strip, is_empty, lower, eq_codes, has_text, words, member}
use kagura_agent.Prelude.Json
use kagura_agent.Prelude.Json.{
  Value, str, array, object, Fields, Python, as_text, as_object, to_text, truthy, items,
}

pub data CorpusError : Type 0 where
  corpus_error : CorpusError

pub record Regex : Type 0 where
  pub compiles : String → Bool
  pub search : String → String → Bool

pub data CheckKind : Type 0 where
  contains_all exact regex : CheckKind

pub record ObjectiveCheck : Type 0 where
  pub kind : CheckKind
  pub values : List String

pub record TaskSpec : Type 0 where
  pub id : String
  pub category : String
  pub query : String
  pub prompt : String
  pub check : ObjectiveCheck
  pub gold_memory_id : String
  pub candidate_memory_ids : List String
  pub tail : Bool
  pub held_out : Bool

pub record SnapshotMemory : Type 0 where
  pub logical_id : String
  pub summary : String
  pub content : String
  pub tags : List String
  pub delivery_mode : String
  pub trust_tier : String

pub record BootstrapSnapshot : Type 0 where
  pub name : String
  pub memories : List SnapshotMemory

unfoldable pub demand : Bool → Result CorpusError (Unit {0})
demand true = ok tt
demand false = raised corpus_error

unfoldable pub given : {A : Type 0} → Option A → Result CorpusError A
given none = raised corpus_error
given (some a) = ok a

-- `_require_string`
unfoldable pub require_string : Option Value → Result CorpusError String
unfolding given as_text demand strip is_empty
require_string value =
    bind (given (as_text value)) (λ s. bind (demand (not (is_empty (strip s)))) (λ _. ok (strip s)))

-- The texts of the list, if all of its values are texts.
unfoldable pub all_texts : List Value → Option (List String)
unfolding as_text
all_texts [] = some []
all_texts (v ∷ vs) =
    let rest = all_texts vs in
    elim (as_text (some v)) [
      | none ↦ none
      | some s ↦ elim rest [ none ↦ none | some ss ↦ some (s ∷ ss) ]
    ]

-- isinstance(values, list) and all(isinstance(value, str) ...)
unfoldable pub text_list : Option Value → Option (List String)
unfolding items all_texts
text_list (some (array vs)) = all_texts (items vs)
text_list _ = none

unfoldable pub none_empty : List String → Bool
unfolding is_empty
none_empty [] = true
none_empty (s ∷ ss) = not (is_empty s) && none_empty ss

unfoldable pub has_values : List String → Bool
has_values [] = false
has_values (_ ∷ _) = true

unfoldable pub all_compile : Regex → List String → Bool
all_compile re [] = true
all_compile re (p ∷ ps) = re.compiles p && all_compile re ps

unfoldable pub is_one : List String → Bool
is_one (_ ∷ []) = true
is_one _ = false

-- the checks of a kind
unfoldable pub fits_kind : Regex → ObjectiveCheck → Bool
unfolding is_one all_compile
fits_kind re check = elim check.kind [
  | exact ↦ is_one check.values
  | regex ↦ all_compile re check.values
  | contains_all ↦ true
]

-- `ObjectiveCheck.__post_init__`
unfoldable pub valid_check : Regex → ObjectiveCheck → Result CorpusError ObjectiveCheck
unfolding demand has_values none_empty fits_kind
valid_check re check =
    bind (demand (has_values check.values && none_empty check.values))
      (λ _. bind (demand (fits_kind re check)) (λ _. ok check))

unfoldable pub check_kind_of : Option String → Option CheckKind
check_kind_of none = none
check_kind_of (some s) =
    if s == "contains_all"
    then some contains_all
    else if s == "exact"
    then some exact
    else if s == "regex"
    then some regex
    else none

-- `ObjectiveCheck.from_dict`
unfoldable pub check_from_dict : Regex → Fields → Result CorpusError ObjectiveCheck
unfolding given check_kind_of as_text text_list valid_check
check_from_dict re raw = bind (given (check_kind_of (as_text (Json.get raw "kind")))) (λ kind.
    bind (given (text_list (Json.get raw "values")))
      (λ values. valid_check re (record { kind = kind; values = values })))

unfoldable pub fold : String → List ℕ
unfolding lower
fold s = lower (codes s)

unfoldable pub join_spaces : List (List ℕ) → List ℕ
join_spaces [] = []
join_spaces (w ∷ []) = w
join_spaces (w ∷ v ∷ ws) = w ++ 32 ∷ join_spaces (v ∷ ws)

-- " ".join(text.casefold().split())
unfoldable pub normalized_text : String → List ℕ
unfolding fold words join_spaces
normalized_text text = join_spaces (words (fold text))

unfoldable pub count_true : List Bool → ℕ
count_true [] = 0
count_true (b ∷ bs) = let rest = count_true bs in if b then suc rest else rest

-- the hits of `ObjectiveCheck.score`, out of how many
unfoldable pub score : Regex → ObjectiveCheck → String → ℕ × ℕ
unfolding normalized_text fold has_text eq_codes count_true
score re check text = elim check.kind [
  | exact ↦ elim check.values [
    | [] ↦ (0, 1)
    | v ∷ _ ↦ (if eq_codes (normalized_text text) (normalized_text v) then 1 else 0, 1)
  ]
  | contains_all ↦ (
    count_true (map (λ v. has_text (fold v) (normalized_text text)) check.values),
    length check.values,
  )
  | regex ↦ (count_true (map (λ p. re.search p text) check.values), length check.values)
]

-- `score(text) == 1.0`
unfoldable pub is_full : ℕ × ℕ → Bool
is_full (hits, total) = eqb hits total

-- the values of a check that stand in a folded text
unfoldable pub leaks : List ℕ → List String → Bool
unfolding has_text fold
leaks text [] = false
leaks text (v ∷ vs) = has_text (fold v) text || leaks text vs

unfoldable pub task_text : String → String → List ℕ
unfolding fold
task_text query prompt = fold (append query (append "\n" prompt))
