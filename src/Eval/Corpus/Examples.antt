-- ===== src/Eval/Corpus/Examples.antt =====
-- Twenty tasks in four categories, each over its own memory.
use kagura_agent.Prelude.{
  ℕ, zero, suc, ◌+◌, String, ◌≡◌, refl, Bool, true, false, Option, none, some, List, [], ◌∷◌,
  Result, ok, raised, map, All, leb, length,
}
use Prim.Native.String.{◌++◌ as append}
use kagura_agent.Prelude.Json.{
  Value, bool, str, array, nil, cons, object, Fields, end, field, Python,
}
use kagura_agent.Eval.Corpus.{Regex, TaskSpec, SnapshotMemory, BootstrapSnapshot, contains_all}
use kagura_agent.Eval.Corpus.Tasks.{load_tasks, all_distinct, validate_corpus}
use kagura_agent.Eval.Corpus.Accepted.{IsFair, validate_corpus-IsFair}

abbrev python : Python
python = record { str_of = λ v. "?"; is_zero = λ s. false }

abbrev no_regex : Regex
no_regex = record { compiles = λ p. false; search = λ p s. false }

abbrev raw : String → String → Fields
raw n category = field "id" (str n) (
    field "category" (str category) (
      field "query" (str "deploy") (
        field "prompt" (str "how") (
          field "check"
            (object (
              field "kind" (str "contains_all")
                (field "values" (array (cons (str (append "blue" n)) nil)) end)))
            (field "gold_memory_id" (str n) (
              field "candidate_memory_ids" (array (cons (str n) nil))
                (field "tail" (bool true) (field "held_out" (bool true) end))))))))

abbrev task : String → String → TaskSpec
task n category = record {
  id = n;
  category = category;
  query = "deploy";
  prompt = "how";
  check = record { kind = contains_all; values = append "blue" n ∷ [] };
  gold_memory_id = n;
  candidate_memory_ids = n ∷ [];
  tail = true;
  held_out = true;
}

abbrev memory : String → SnapshotMemory
memory n = record {
  logical_id = n;
  summary = append "use BLUE" n;
  content = "c";
  tags = [];
  delivery_mode = "on_recall";
  trust_tier = "trusted";
}

abbrev names : List (String × String)
names =
    ("a", "x")
    ∷ ("b", "x")
    ∷ ("c", "x")
    ∷ ("d", "x")
    ∷ ("e", "x")
    ∷ ("f", "y")
    ∷ ("g", "y")
    ∷ ("h", "y")
    ∷ ("i", "y")
    ∷ ("j", "y")
    ∷ ("k", "z")
    ∷ ("l", "z")
    ∷ ("m", "z")
    ∷ ("n", "z")
    ∷ ("o", "z")
    ∷ ("p", "w")
    ∷ ("q", "w")
    ∷ ("r", "w")
    ∷ ("s", "w")
    ∷ ("t", "w")
    ∷ []

abbrev raws : List Fields
raws = map (λ (p : String × String). raw p.0 p.1) names

abbrev tasks : List TaskSpec
tasks = map (λ (p : String × String). task p.0 p.1) names

abbrev snapshot : BootstrapSnapshot
snapshot = record { name = "s"; memories = map (λ (p : String × String). memory p.0) names }

loaded : load_tasks python no_regex raws ≡ ok tasks
unfolding load_tasks kagura_agent.Prelude.Json.get
loaded = refl

corpus_accepted : validate_corpus no_regex snapshot tasks ≡ ok tt
unfolding validate_corpus
corpus_accepted = refl

validate_corpus-IsFair_example :
    (leb 20 (length tasks) ≡ true)
    × (all_distinct (map (λ (t : TaskSpec). t.id) tasks) ≡ true)
    × All (IsFair no_regex snapshot.memories) tasks
validate_corpus-IsFair_example =
    validate_corpus-IsFair python no_regex snapshot raws tasks loaded corpus_accepted
