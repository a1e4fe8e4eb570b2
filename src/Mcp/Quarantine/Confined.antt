-- ===== src/Mcp/Quarantine/Confined.antt =====
-- What the requests of a confined agent leave as they were.
use kagura_agent.Prelude.{
  ℕ, String, ◌≡◌, refl, ◌∙◌, ap, Bool, true, false, none, List, [], ◌∷◌, ◌++◌, ◌==◌, arith,
  Bool-cases, inl, inr,
}
use kagura_agent.Prelude.Dict
use kagura_agent.Prelude.Dict.{Dict}
use kagura_agent.Mcp.Local.{
  Memory, LocalMemory, memory_id, is_delivery_mode, remember, is_trusted, matches, keep,
  feedback_score, rank_all, recall, is_pinned, load_pinned, create_edge, terms_of,
}
use kagura_agent.Mcp.Local.Valid.{IsValid, remember-IsValid, create_edge-IsValid}
use kagura_agent.Mcp.Quarantine.{
  confined_remember, Request, remembers, links, serve_one, serve_all, compose_bootstrap,
}

-- The memories that a confined agent writes.
abbrev pub IsConfined : Memory → Type 0
IsConfined m = (is_trusted m ≡ false) × (is_pinned m ≡ false)

-- A filter that no confined memory passes.
abbrev Excludes : (Memory → Bool) → Type 0
Excludes p = (m : Memory) → IsConfined m → p m ≡ false

values-put :
    {V : Type 0} (d : Dict V) (k : String) (v : V)
    → Dict.get d k ≡ none
    → Dict.values (Dict.put d k v) ≡ Dict.values d ++ v ∷ []
unfolding Dict.get Dict.put
values-put [] k v h = refl
values-put ((j, w) ∷ d) k v h = elim (Bool-cases (j == k)) [
  | inl q ↦ absurd (ground (arith, h, q))
  | inr q ↦ rw q (ap (λ vs. w ∷ vs) (values-put d k v (ground (arith, h, q))))
]

keep-append :
    (p : Memory → Bool) (ms : List Memory) (m : Memory)
    → p m ≡ false
    → keep p (ms ++ m ∷ []) ≡ keep p ms
unfolding keep
keep-append p [] m h = rw h refl
keep-append p (n ∷ ms) m h = rw (keep-append p ms m h) refl

-- The second memory has the first one's, feedback and settings, and confined memories besides.
record Grows (c d : LocalMemory) : Type 0 where
  feedback : d.feedback ≡ c.feedback
  rerank : d.rerank_feedback ≡ c.rerank_feedback
  kept :
      (p : Memory → Bool)
      → Excludes p
      → keep p (Dict.values d.memories) ≡ keep p (Dict.values c.memories)

serve_one-Grows : (c : LocalMemory) → IsValid c → (r : Request) → Grows c (serve_one c r)
unfolding serve_one confined_remember remember create_edge is_delivery_mode is_trusted is_pinned
serve_one-Grows c v (remembers text tags tier mode) = record {
  feedback = refl;
  rerank = refl;
  kept = λ p e.
      ap (keep p) (values-put c.memories (memory_id c.next_id) _ (v.fresh c.next_id (omega arith)))
      ∙ keep-append p (Dict.values c.memories) _ (e _ (refl, refl));
}
serve_one-Grows c v (links src dst type) = record {
  feedback = refl;
  rerank = refl;
  kept = λ p e. refl;
}

serve_one-IsValid : (c : LocalMemory) → IsValid c → (r : Request) → IsValid (serve_one c r)
unfolding serve_one confined_remember
serve_one-IsValid c v (remembers text tags tier mode) =
    remember-IsValid c v text tags "quarantine" "on_recall"
serve_one-IsValid c v (links src dst type) = create_edge-IsValid c v src dst type

serve_all-Grows : (c : LocalMemory) → IsValid c → (rs : List Request) → Grows c (serve_all c rs)
unfolding serve_all
serve_all-Grows c v [] = record { feedback = refl; rerank = refl; kept = λ p e. refl }
serve_all-Grows c v (r ∷ rs) =
    let first = serve_one-Grows c v r in
    let rest = serve_all-Grows (serve_one c r) (serve_one-IsValid c v r) rs in
    record {
      feedback = rest.feedback ∙ first.feedback;
      rerank = rest.rerank ∙ first.rerank;
      kept = λ p e. rest.kept p e ∙ first.kept p e;
    }

rank_all-feedback :
    (c d : LocalMemory) (draws : List Bool) (ms : List Memory)
    → d.feedback ≡ c.feedback
    → rank_all d draws ms ≡ rank_all c draws ms
unfolding rank_all feedback_score
rank_all-feedback c d draws [] h = refl
rank_all-feedback c d [] (m ∷ ms) h = rw (h, rank_all-feedback c d [] ms h) refl
rank_all-feedback c d (b ∷ draws) (m ∷ ms) h = rw (h, rank_all-feedback c d draws ms h) refl

untrusted_excluded :
    (terms : List (List ℕ)) (tags : List String) → Excludes (matches terms true tags)
unfolding matches
untrusted_excluded terms tags m (t, _) = rw t refl

recall-Grows :
    (c d : LocalMemory) (query : String) (tags : List String) (draws : List Bool)
    → Grows c d
    → recall d query true tags draws ≡ recall c query true tags draws
unfolding recall
recall-Grows c d query tags draws g =
    rw
      (
        g.kept (matches (terms_of query) true tags) (untrusted_excluded (terms_of query) tags),
        g.rerank,
        rank_all-feedback c d draws _ g.feedback,
      )
      refl

-- Whatever a confined agent asks a valid memory to remember or to link, with whatever trust and
-- delivery it claims: every recall of trusted memories, the pinned memories and the bootstrap of the
-- next session are what they were before.
pub serve_all-keeps-bootstrap :
    (c : LocalMemory) (rs : List Request) (query : String) (tags : List String) (draws : List Bool)
    (recall_k : ℕ)
    → IsValid c
    → (recall (serve_all c rs) query true tags draws ≡ recall c query true tags draws)
      × (load_pinned (serve_all c rs) ≡ load_pinned c)
      × (compose_bootstrap (serve_all c rs) query recall_k draws
          ≡ compose_bootstrap c query recall_k draws)
unfolding load_pinned compose_bootstrap
serve_all-keeps-bootstrap c rs query tags draws recall_k v =
    let g = serve_all-Grows c v rs in
    let pinned = g.kept is_pinned (λ m h. h.1) in
    (
      recall-Grows c (serve_all c rs) query tags draws g,
      pinned,
      rw (pinned, recall-Grows c (serve_all c rs) query [] draws g) refl,
    )
