-- ===== src/Mcp/Local.antt =====
-- mcp/memory_cloud.py: `LocalMemoryClient`, the memory of a self-hosted agent, and `forget`, `promote`
-- and the other verbs of the host.
-- `itertools.count` is the next number. The score of a memory lies between -3 and 3 and is kept as the
-- natural number that is 3 more. Whether a draw of the random number generator falls below
-- `explore_epsilon` is an argument of `recall`, a Boolean for each match; no draws are an epsilon of 0.
pub mod Ranking
pub mod Valid
use Prim.Native.String.{◌++◌ as append}
use kagura_agent.Prelude.{
  ℕ, ◌+◌, ◌-◌, String, Bool, true, false, not, ◌&&◌, ◌||◌, Option, none, some, List, [], ◌∷◌, ◌++◌,
  map, ◌==◌, leb, if◌then◌else◌, Result, ok, raised,
}
use kagura_agent.Prelude.Dict
use kagura_agent.Prelude.Dict.{Dict}
use kagura_agent.Prelude.Text.{codes, lower, member, words, has_text}
use kagura_agent.Prelude.Decimal.{decimal}

pub record Memory : Type 0 where
  pub id : String
  pub text : String
  pub tags : List String
  pub trust_tier : String
  pub delivery_mode : String

pub record FeedbackRecord : Type 0 where
  pub memory_id : String
  pub query : String
  pub helpful : Bool

pub record LocalMemory : Type 0 where
  pub memories : Dict Memory
  pub edges : Dict (List (String × String))
  pub feedback : Dict (List FeedbackRecord)
  pub next_id : ℕ
  pub rerank_feedback : Bool

-- `__init__`; `itertools.count(1)`
unfoldable pub new_client : Bool → LocalMemory
new_client rerank = record {
  memories = [];
  edges = [];
  feedback = [];
  next_id = 1;
  rerank_feedback = rerank;
}

pub data MemoryError : Type 0 where
  key_error value_error : MemoryError

-- d.get(k, [])
unfoldable pub list_at : {A : Type 0} → Dict (List A) → String → List A
list_at d k = elim (Dict.get d k) [ none ↦ [] | some xs ↦ xs ]

unfoldable pub is_delivery_mode : String → Bool
is_delivery_mode mode = mode == "always" || mode == "on_recall"

unfoldable pub memory_id : ℕ → String
memory_id n = append "m" (decimal n)

unfoldable pub remember :
    LocalMemory → String → List String → String → String → Result MemoryError String × LocalMemory
remember c text tags tier mode =
    let mid = memory_id c.next_id in
    let mem : Memory = record {
      id = mid;
      text = text;
      tags = tags;
      trust_tier = tier;
      delivery_mode = mode;
    } in
    if not (is_delivery_mode mode)
    then (raised value_error, c)
    else (ok mid, record c { memories = Dict.put c.memories mid mem; next_id = c.next_id + 1 })

unfoldable pub is_trusted : Memory → Bool
is_trusted m = m.trust_tier == "trusted"

-- set(tags) & set(mem.tags)
unfoldable pub shares_tag : List String → List String → Bool
unfolding member
shares_tag [] own = false
shares_tag (t ∷ tags) own = member t own || shares_tag tags own

unfoldable pub is_none : List String → Bool
is_none [] = true
is_none (_ ∷ _) = false

unfoldable pub has_term : List (List ℕ) → List ℕ → Bool
unfolding has_text
has_term [] text = false
has_term (t ∷ terms) text = has_text t text || has_term terms text

-- the tests of the loop of `recall`
unfoldable pub matches : List (List ℕ) → Bool → List String → Memory → Bool
unfolding is_trusted shares_tag is_none has_term lower
matches terms trusted_only tags m =
    not (trusted_only && not (is_trusted m))
    && (is_none tags || shares_tag tags m.tags)
    && has_term terms (lower (codes m.text))

unfoldable pub keep : (Memory → Bool) → List Memory → List Memory
keep p [] = []
keep p (m ∷ ms) = let rest = keep p ms in if p m then m ∷ rest else rest

unfoldable pub terms_of : String → List (List ℕ)
unfolding words lower
terms_of query = map lower (words (codes query))

unfoldable pub count_votes : Bool → List FeedbackRecord → ℕ
count_votes helpful [] = 0
count_votes helpful (f ∷ fs) =
    let rest = count_votes helpful fs in
    if (if f.helpful then helpful else not helpful) then rest + 1 else rest

-- `_feedback_score`, and 3: the difference of the votes, cut off at 0 and 6
unfoldable pub feedback_score : LocalMemory → String → ℕ
unfolding list_at count_votes
feedback_score c mid =
    let votes = list_at c.feedback mid in
    let score = count_votes true votes + 3 - count_votes false votes in
    if leb score 6 then score else 6

-- `_rerank_key` for each match in turn
unfoldable pub rank_all : LocalMemory → List Bool → List Memory → List (ℕ × Memory)
unfolding feedback_score
rank_all c draws [] = []
rank_all c [] (m ∷ ms) = (feedback_score c m.id, m) ∷ rank_all c [] ms
rank_all c (d ∷ draws) (m ∷ ms) = (if d then 6 else feedback_score c m.id, m) ∷ rank_all c draws ms

unfoldable pub insert_ranked : ℕ × Memory → List (ℕ × Memory) → List (ℕ × Memory)
insert_ranked x [] = x ∷ []
insert_ranked x (y ∷ ys) =
    let rest = insert_ranked x ys in if leb y.0 x.0 then x ∷ y ∷ ys else y ∷ rest

-- `sort(reverse=True)`, which keeps the order of equal keys
unfoldable pub sort_ranked : List (ℕ × Memory) → List (ℕ × Memory)
unfolding insert_ranked
sort_ranked [] = []
sort_ranked (x ∷ xs) = insert_ranked x (sort_ranked xs)

unfoldable pub recall : LocalMemory → String → Bool → List String → List Bool → List Memory
unfolding terms_of matches keep rank_all sort_ranked
recall c query trusted_only tags draws =
    let found = keep (matches (terms_of query) trusted_only tags) (Dict.values c.memories) in
    if c.rerank_feedback then map (λ x. x.1) (sort_ranked (rank_all c draws found)) else found

unfoldable pub is_pinned : Memory → Bool
is_pinned m = m.delivery_mode == "always"

unfoldable pub load_pinned : LocalMemory → List Memory
unfolding keep is_pinned
load_pinned c = keep is_pinned (Dict.values c.memories)

unfoldable pub create_edge : LocalMemory → String → String → String → LocalMemory
unfolding list_at
create_edge c src dst type = record c {
  edges = Dict.put c.edges src (list_at c.edges src ++ (dst, type) ∷ []);
}

unfoldable pub edges_of : LocalMemory → String → List (String × String)
unfolding list_at
edges_of c src = list_at c.edges src

unfoldable pub has_memory : LocalMemory → String → Bool
has_memory c mid = elim (Dict.get c.memories mid) [ none ↦ false | some _ ↦ true ]

unfoldable pub promote : LocalMemory → String → Result MemoryError (Unit {0}) × LocalMemory
promote c mid = elim (Dict.get c.memories mid) [
  | none ↦ (raised key_error, c)
  | some m ↦
      (ok tt, record c { memories = Dict.put c.memories mid (record m { trust_tier = "trusted" }) })
]

unfoldable pub record_feedback :
    LocalMemory → String → String → Bool → Result MemoryError (Unit {0}) × LocalMemory
unfolding has_memory list_at
record_feedback c mid query helpful =
    let fact : FeedbackRecord = record { memory_id = mid; query = query; helpful = helpful } in
    if has_memory c mid
    then (
      ok tt,
      record c { feedback = Dict.put c.feedback mid (list_at c.feedback mid ++ fact ∷ []) },
    )
    else (raised key_error, c)

unfoldable pub feedback_for : LocalMemory → String → List FeedbackRecord
unfolding list_at
feedback_for c mid = list_at c.feedback mid

unfoldable pub edges_not_to : String → List (String × String) → List (String × String)
edges_not_to mid [] = []
edges_not_to mid ((dst, type) ∷ es) =
    let rest = edges_not_to mid es in if dst == mid then rest else (dst, type) ∷ rest

-- the loop over the edges; to write a list back that lost nothing changes nothing
unfoldable pub drop_edges_to :
    String → Dict (List (String × String)) → Dict (List (String × String))
unfolding edges_not_to
drop_edges_to mid [] = []
drop_edges_to mid ((src, dsts) ∷ d) = (src, edges_not_to mid dsts) ∷ drop_edges_to mid d

unfoldable pub forget : LocalMemory → String → Result MemoryError (Unit {0}) × LocalMemory
unfolding has_memory drop_edges_to
forget c mid =
    if has_memory c mid
    then (
      ok tt,
      record c {
        memories = Dict.remove c.memories mid;
        edges = drop_edges_to mid (Dict.remove c.edges mid);
        feedback = Dict.remove c.feedback mid;
      },
    )
    else (raised key_error, c)

unfoldable pub tagged : String → Dict Memory → List String
unfolding member
tagged tag [] = []
tagged tag ((mid, m) ∷ d) =
    let rest = tagged tag d in if member tag m.tags then mid ∷ rest else rest

unfoldable pub ids_with_tag : LocalMemory → String → List String
unfolding tagged
ids_with_tag c tag = tagged tag c.memories
