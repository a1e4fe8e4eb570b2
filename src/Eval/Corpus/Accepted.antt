-- ===== src/Eval/Corpus/Accepted.antt =====
-- What an accepted corpus promises of its tasks.
use kagura_agent.Prelude.{not-true}
use kagura_agent.Prelude.{
  String, ◌≡◌, refl, subst, Bool, true, false, not, ◌&&◌, Option, none, some, List, [], ◌∷◌, ok,
  ok_inj, bind_rule, map, All, leb, length,
}
use kagura_agent.Prelude.Text.{member}
use kagura_agent.Prelude.Json
use kagura_agent.Prelude.Json.{Fields, Python, as_object}
use kagura_agent.Eval.Corpus.{
  Regex, TaskSpec, SnapshotMemory, BootstrapSnapshot, demand, given, require_string, text_list,
  none_empty, check_from_dict, score, is_full, leaks, task_text,
}
use kagura_agent.Eval.Corpus.Tasks.{
  flag, admitted_task, task_from_dict, load_tasks, all_distinct, distinct_texts, all_three,
  any_tail, any_held_out, memory_by_id, all_known, is_answerable, validate_tasks, validate_corpus,
}

-- The answer of a task is not in its text and can be found: no value of its check stands in its query or
-- its prompt, in whatever case; its id and category may hold one. Its gold memory is one of its candidates, and the summary of that memory satisfies the check.
pub record IsFair (re : Regex) (memories : List SnapshotMemory) (t : TaskSpec) : Type 0 where
  pub hidden : leaks (task_text t.query t.prompt) t.check.values ≡ false
  pub candidate : member t.gold_memory_id t.candidate_memory_ids ≡ true
  pub known : all_known memories t.candidate_memory_ids ≡ true
  pub gold : SnapshotMemory
  pub found : memory_by_id memories t.gold_memory_id ≡ some gold
  pub answers : is_full (score re t.check gold.summary) ≡ true

demand-ok : (b : Bool) → demand b ≡ ok tt → b ≡ true
unfolding demand
demand-ok true h = refl
demand-ok false h = absurd (cc h)

abbrev IsHidden : TaskSpec → Type 0
IsHidden t =
    (member t.gold_memory_id t.candidate_memory_ids ≡ true)
    × (leaks (task_text t.query t.prompt) t.check.values ≡ false)

admitted_task-IsHidden : (t u : TaskSpec) → admitted_task t ≡ ok u → IsHidden u
unfolding admitted_task
admitted_task-IsHidden t u =
    bind_rule (demand (member t.gold_memory_id t.candidate_memory_ids)) _ (λ _ m.
      bind_rule (demand (not (leaks (task_text t.query t.prompt) t.check.values))) _
        (λ _ l h. subst IsHidden (ok_inj h) (demand-ok _ m, not-true _ (demand-ok _ l))))

task_from_dict-IsHidden :
    (py : Python) (re : Regex) (raw : Fields) (t : TaskSpec)
    → task_from_dict py re raw ≡ ok t
    → IsHidden t
unfolding task_from_dict
task_from_dict-IsHidden py re raw t = bind_rule (given (as_object (Json.get raw "check"))) _ (λ c _.
    bind_rule (given (text_list (Json.get raw "candidate_memory_ids"))) _ (λ cs _.
      bind_rule (demand (none_empty cs)) _ (λ _ _.
        bind_rule (require_string (Json.get raw "id")) _ (λ i _.
          bind_rule (require_string (Json.get raw "category")) _ (λ k _.
            bind_rule (require_string (Json.get raw "query")) _ (λ q _.
              bind_rule (require_string (Json.get raw "prompt")) _ (λ p _.
                bind_rule (check_from_dict re c) _ (λ check _.
                  bind_rule (require_string (Json.get raw "gold_memory_id")) _ (λ g _ h.
                    admitted_task-IsHidden
                      (record {
                        id = i;
                        category = k;
                        query = q;
                        prompt = p;
                        check = check;
                        gold_memory_id = g;
                        candidate_memory_ids = cs;
                        tail = flag py (Json.get raw "tail");
                        held_out = flag py (Json.get raw "held_out");
                      })
                      t h)))))))))

load_tasks-IsHidden :
    (py : Python) (re : Regex) (raws : List Fields) (ts : List TaskSpec)
    → load_tasks py re raws ≡ ok ts
    → All IsHidden ts
unfolding load_tasks
load_tasks-IsHidden py re [] ts h = subst (All IsHidden) (ok_inj h) tt
load_tasks-IsHidden py re (raw ∷ raws) ts h =
    bind_rule (task_from_dict py re raw) _
      (λ t i. bind_rule (load_tasks py re raws) _ (λ us j k.
        subst (All IsHidden) (ok_inj k)
          (task_from_dict-IsHidden py re raw t i, load_tasks-IsHidden py re raws us j)))
      h

answerable_memory :
    (re : Regex) (o : Option SnapshotMemory) (t : TaskSpec)
    → is_answerable re o t.check ≡ true
    → (m : SnapshotMemory) × (o ≡ some m) × (is_full (score re t.check m.summary) ≡ true)
unfolding is_answerable
answerable_memory re none t h = absurd (cc h)
answerable_memory re (some m) t h = (m, refl, h)

validate_tasks-IsFair :
    (re : Regex) (memories : List SnapshotMemory) (gold : List String) (ts : List TaskSpec)
    → validate_tasks re memories gold ts ≡ ok tt
    → All IsHidden ts
    → All (IsFair re memories) ts
unfolding validate_tasks
validate_tasks-IsFair re memories gold [] h hidden = tt
validate_tasks-IsFair re memories gold (t ∷ ts) h (i, hidden) =
    bind_rule (demand (all_known memories t.candidate_memory_ids)) _
      (λ _ k. bind_rule (demand (not (member t.gold_memory_id gold))) _ (λ _ _.
        bind_rule (demand (is_answerable re (memory_by_id memories t.gold_memory_id) t.check)) _
          (λ _ a rest.
            let (m, f, s) =
              answerable_memory re (memory_by_id memories t.gold_memory_id) t (demand-ok _ a) in
            (
              record {
                hidden = i.1;
                candidate = i.0;
                known = demand-ok _ k;
                gold = m;
                found = f;
                answers = s;
              },
              validate_tasks-IsFair re memories (t.gold_memory_id ∷ gold) ts rest hidden,
            ))))
      h

-- The corpus that an experiment accepts, of tasks that were read from JSON, has at least twenty tasks with
-- distinct ids, and each of them is fair: no value of its hidden check stands in its query or its prompt (its id
-- and its category, which the actor sees as well, are not looked at), and its gold memory, which is among its
-- candidates, is in the snapshot with a summary that satisfies the check.
pub validate_corpus-IsFair :
    (py : Python) (re : Regex) (snapshot : BootstrapSnapshot) (raws : List Fields)
    (tasks : List TaskSpec)
    → load_tasks py re raws ≡ ok tasks
    → validate_corpus re snapshot tasks ≡ ok tt
    → (leb 20 (length tasks) ≡ true)
      × (all_distinct (map (λ (t : TaskSpec). t.id) tasks) ≡ true)
      × All (IsFair re snapshot.memories) tasks
unfolding validate_corpus
validate_corpus-IsFair py re snapshot raws tasks loaded =
    let categories = map (λ (t : TaskSpec). t.category) tasks in
    bind_rule (demand (leb 20 (length tasks))) _ (λ _ n.
      bind_rule (demand (all_distinct (map (λ (t : TaskSpec). t.id) tasks))) _ (λ _ d.
        bind_rule
          (demand (leb 3 (length (distinct_texts categories)) && all_three categories categories)) _
          (λ _ _. bind_rule (demand (any_tail tasks)) _ (λ _ _.
            bind_rule (demand (any_held_out tasks)) _ (λ _ _ rest. (
              demand-ok _ n,
              demand-ok _ d,
              validate_tasks-IsFair re snapshot.memories [] tasks rest
                  (load_tasks-IsHidden py re raws tasks loaded),
            ))))))
