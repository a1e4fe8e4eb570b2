-- ===== src/Eval/Corpus/Tasks.antt =====
-- eval/bootstrap_ab.py: `TaskSpec.from_dict`, `BootstrapSnapshot.from_dict`, and `validate_corpus`, which an
-- experiment starts with.
use kagura_agent.Prelude.{
  ℕ, suc, String, Bool, true, false, not, ◌&&◌, ◌||◌, Option, none, some, List, [], ◌∷◌, ◌==◌, leb,
  length, map, if◌then◌else◌, Result, ok, bind,
}
use kagura_agent.Prelude.Text.{member}
use kagura_agent.Prelude.Json
use kagura_agent.Prelude.Json.{
  Value, str, array, object, Fields, end, field, Python, as_text, as_object, to_text, truthy, items,
}
use kagura_agent.Eval.Corpus.{
  CorpusError, Regex, ObjectiveCheck, TaskSpec, SnapshotMemory, BootstrapSnapshot, demand, given,
  require_string, text_list, none_empty, check_from_dict, score, is_full, leaks, task_text,
}

-- bool(raw.get(key, False))
unfoldable pub flag : Python → Option Value → Bool
unfolding truthy
flag py none = false
flag py (some v) = truthy py v

-- the two tests after the construction
unfoldable pub admitted_task : TaskSpec → Result CorpusError TaskSpec
unfolding demand member leaks task_text
admitted_task task = bind (demand (member task.gold_memory_id task.candidate_memory_ids)) (λ _.
    bind (demand (not (leaks (task_text task.query task.prompt) task.check.values))) (λ _. ok task))

unfoldable pub task_from_dict : Python → Regex → Fields → Result CorpusError TaskSpec
unfolding given as_object text_list demand none_empty require_string check_from_dict flag
    admitted_task
task_from_dict py re raw = bind (given (as_object (Json.get raw "check"))) (λ check_fields.
    bind (given (text_list (Json.get raw "candidate_memory_ids"))) (λ candidates.
      bind (demand (none_empty candidates)) (λ _. bind (require_string (Json.get raw "id")) (λ id.
        bind (require_string (Json.get raw "category")) (λ category.
          bind (require_string (Json.get raw "query")) (λ query.
            bind (require_string (Json.get raw "prompt")) (λ prompt.
              bind (check_from_dict re check_fields) (λ check.
                bind (require_string (Json.get raw "gold_memory_id")) (λ gold.
                  admitted_task (record {
                    id = id;
                    category = category;
                    query = query;
                    prompt = prompt;
                    check = check;
                    gold_memory_id = gold;
                    candidate_memory_ids = candidates;
                    tail = flag py (Json.get raw "tail");
                    held_out = flag py (Json.get raw "held_out");
                  }))))))))))

unfoldable pub tags_or_none : Option Value → Option (List String)
unfolding text_list
tags_or_none none = some []
tags_or_none (some v) = text_list (some v)

-- str(value.get(key, default))
unfoldable pub text_or : Python → String → Option Value → String
unfolding to_text
text_or py default none = default
text_or py default (some v) = to_text py v

unfoldable pub memory_from_dict : Python → Fields → Result CorpusError SnapshotMemory
unfolding given tags_or_none require_string text_or
memory_from_dict py value = bind (given (tags_or_none (Json.get value "tags"))) (λ tags.
    bind (require_string (Json.get value "logical_id")) (λ id.
      bind (require_string (Json.get value "summary")) (λ summary.
        bind (require_string (Json.get value "content")) (λ content. ok (record {
          logical_id = id;
          summary = summary;
          content = content;
          tags = tags;
          delivery_mode = text_or py "on_recall" (Json.get value "delivery_mode");
          trust_tier = text_or py "trusted" (Json.get value "trust_tier");
        })))))

unfoldable pub memories_from_list : Python → List Value → Result CorpusError (List SnapshotMemory)
unfolding given as_object memory_from_dict
memories_from_list py [] = ok []
memories_from_list py (v ∷ vs) = bind (given (as_object (some v))) (λ fields.
    bind (memory_from_dict py fields) (λ m. bind (memories_from_list py vs) (λ ms. ok (m ∷ ms))))

-- len(ids) == len(set(ids))
unfoldable pub all_distinct : List String → Bool
unfolding member
all_distinct [] = true
all_distinct (x ∷ xs) = not (member x xs) && all_distinct xs

-- isinstance(values, list) and values
unfoldable pub nonempty_list : Option Value → Option (List Value)
unfolding items
nonempty_list (some (array (Json.cons v vs))) = some (v ∷ items vs)
nonempty_list _ = none

unfoldable pub snapshot_from_dict : Python → Fields → Result CorpusError BootstrapSnapshot
unfolding given nonempty_list memories_from_list demand all_distinct require_string
snapshot_from_dict py raw = bind (given (nonempty_list (Json.get raw "memories"))) (λ values.
    bind (memories_from_list py values) (λ memories.
      bind (demand (all_distinct (map (λ m. m.logical_id) memories))) (λ _.
        bind (require_string (Json.get raw "name"))
          (λ name. ok (record { name = name; memories = memories })))))

unfoldable pub count_of : String → List String → ℕ
count_of s [] = 0
count_of s (x ∷ xs) = let rest = count_of s xs in if x == s then suc rest else rest

-- each category of the list has at least three tasks
unfoldable pub all_three : List String → List String → Bool
unfolding count_of
all_three categories [] = true
all_three categories (c ∷ cs) = leb 3 (count_of c categories) && all_three categories cs

-- the distinct_texts ones
unfoldable pub distinct_texts : List String → List String
unfolding member
distinct_texts [] = []
distinct_texts (x ∷ xs) = let rest = distinct_texts xs in if member x xs then rest else x ∷ rest

unfoldable pub any_tail : List TaskSpec → Bool
any_tail [] = false
any_tail (t ∷ ts) = t.tail || any_tail ts

unfoldable pub any_held_out : List TaskSpec → Bool
any_held_out [] = false
any_held_out (t ∷ ts) = t.held_out || any_held_out ts

-- the memory of an id, the last one of it, as in the dictionary `by_id`
unfoldable pub memory_by_id : List SnapshotMemory → String → Option SnapshotMemory
memory_by_id [] id = none
memory_by_id (m ∷ ms) id = elim (memory_by_id ms id) [
  | some n ↦ some n
  | none ↦ if m.logical_id == id then some m else none
]

unfoldable pub all_known : List SnapshotMemory → List String → Bool
unfolding memory_by_id
all_known ms [] = true
all_known ms (id ∷ ids) =
    elim (memory_by_id ms id) [ none ↦ false | some _ ↦ true ] && all_known ms ids

-- the summary of the gold memory satisfies the check; a gold memory that is missing is a `KeyError`, an error
-- too
unfoldable pub is_answerable : Regex → Option SnapshotMemory → ObjectiveCheck → Bool
unfolding score is_full
is_answerable re none check = false
is_answerable re (some m) check = is_full (score re check m.summary)

-- the loop over the tasks, with the gold memories so far
unfoldable pub validate_tasks :
    Regex → List SnapshotMemory → List String → List TaskSpec → Result CorpusError (Unit {0})
unfolding demand all_known member is_answerable memory_by_id
validate_tasks re memories gold [] = ok tt
validate_tasks re memories gold (t ∷ ts) =
    bind (demand (all_known memories t.candidate_memory_ids)) (λ _.
      bind (demand (not (member t.gold_memory_id gold))) (λ _.
        bind (demand (is_answerable re (memory_by_id memories t.gold_memory_id) t.check))
          (λ _. validate_tasks re memories (t.gold_memory_id ∷ gold) ts)))

unfoldable pub validate_corpus :
    Regex → BootstrapSnapshot → List TaskSpec → Result CorpusError (Unit {0})
unfolding demand all_distinct distinct_texts all_three any_tail any_held_out validate_tasks
validate_corpus re snapshot tasks =
    let categories = map (λ (t : TaskSpec). t.category) tasks in
    bind (demand (leb 20 (length tasks))) (λ _.
      bind (demand (all_distinct (map (λ (t : TaskSpec). t.id) tasks))) (λ _.
        bind
          (demand (leb 3 (length (distinct_texts categories)) && all_three categories categories))
          (λ _. bind (demand (any_tail tasks)) (λ _.
            bind (demand (any_held_out tasks))
              (λ _. validate_tasks re snapshot.memories [] tasks)))))

-- the loop of `load_default_tasks`
unfoldable pub load_tasks : Python → Regex → List Fields → Result CorpusError (List TaskSpec)
unfolding task_from_dict
load_tasks py re [] = ok []
load_tasks py re (raw ∷ raws) =
    bind (task_from_dict py re raw) (λ t. bind (load_tasks py re raws) (λ ts. ok (t ∷ ts)))

-- the root of the snapshot's file
unfoldable pub load_snapshot : Python → Value → Result CorpusError BootstrapSnapshot
unfolding given as_object snapshot_from_dict
load_snapshot py raw = bind (given (as_object (some raw))) (snapshot_from_dict py)

-- `TaskSpec.actor_payload`: what an actor sees of a task, neither the check nor the gold memory
unfoldable pub actor_payload : TaskSpec → Value
actor_payload task = object (
    field "id" (str task.id) (
      field "category" (str task.category)
        (field "query" (str task.query) (field "prompt" (str task.prompt) end))))
