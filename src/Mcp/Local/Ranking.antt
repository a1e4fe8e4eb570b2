-- ===== src/Mcp/Local/Ranking.antt =====
-- The order in which a recall gives its memories.
use mathlib.Core.List.{Perm}
use mathlib.Core.List.Perm
use kagura_agent.Prelude.{
  ℕ, ◌≤◌, String, ◌≡◌, refl, sym, subst, All, Bool, true, false, List, [], ◌∷◌, map, leb,
  Bool-cases, inl, inr, arith,
}
use kagura_agent.Prelude.Dict
use kagura_agent.Mcp.Local.{
  is_trusted, Memory, LocalMemory, matches, keep, terms_of, feedback_score, rank_all, insert_ranked,
  sort_ranked, recall,
}

-- The number is not below the first of the list.
abbrev pub IsAbove : ℕ → List ℕ → Type 0
IsAbove a [] = Unit
IsAbove a (b ∷ l) = b ≤ a

-- No number is followed by a greater one.
abbrev pub Descends : List ℕ → Type 0
Descends [] = Unit
Descends (a ∷ l) = IsAbove a l × Descends l

abbrev ranks : List (ℕ × Memory) → List ℕ
ranks = map (λ e. e.0)

abbrev ranked : List (ℕ × Memory) → List Memory
ranked = map (λ e. e.1)

insert_ranked-perm :
    (x : ℕ × Memory) (ys : List (ℕ × Memory)) → Perm (ranked (insert_ranked x ys)) (x.1 ∷ ranked ys)
unfolding insert_ranked
insert_ranked-perm x [] = Perm.rfl
insert_ranked-perm x (y ∷ ys) = elim (Bool-cases (leb y.0 x.0)) [
  | inl e ↦ rw e Perm.rfl
  | inr e ↦
      rw e (Perm.trans (Perm.cons y.1 (insert_ranked-perm x ys)) (Perm.swap x.1 y.1 (ranked ys)))
]

sort_ranked-perm : (xs : List (ℕ × Memory)) → Perm (ranked (sort_ranked xs)) (ranked xs)
unfolding sort_ranked
sort_ranked-perm [] = Perm.rfl
sort_ranked-perm (x ∷ xs) =
    Perm.trans (insert_ranked-perm x (sort_ranked xs)) (Perm.cons x.1 (sort_ranked-perm xs))

insert_ranked-IsAbove :
    (a : ℕ) (x : ℕ × Memory) (ys : List (ℕ × Memory))
    → x.0 ≤ a
    → IsAbove a (ranks ys)
    → IsAbove a (ranks (insert_ranked x ys))
unfolding insert_ranked
insert_ranked-IsAbove a x [] h _ = h
insert_ranked-IsAbove a x (y ∷ ys) h g = elim (Bool-cases (leb y.0 x.0)) [
  | inl e ↦ rw e h
  | inr e ↦ rw e g
]

insert_ranked-Descends :
    (x : ℕ × Memory) (ys : List (ℕ × Memory))
    → Descends (ranks ys)
    → Descends (ranks (insert_ranked x ys))
unfolding insert_ranked
insert_ranked-Descends x [] h = (tt, tt)
insert_ranked-Descends x (y ∷ ys) (above, h) = elim (Bool-cases (leb y.0 x.0)) [
  | inl e ↦ rw e (ground (arith, e), (above, h))
  | inr e ↦
      rw e (insert_ranked-IsAbove y.0 x ys (ground (arith, e)) above, insert_ranked-Descends x ys h)
]

sort_ranked-Descends : (xs : List (ℕ × Memory)) → Descends (ranks (sort_ranked xs))
unfolding sort_ranked
sort_ranked-Descends [] = tt
sort_ranked-Descends (x ∷ xs) = insert_ranked-Descends x (sort_ranked xs) (sort_ranked-Descends xs)

ranked-rank_all :
    (c : LocalMemory) (draws : List Bool) (ms : List Memory) → ranked (rank_all c draws ms) ≡ ms
unfolding rank_all
ranked-rank_all c draws [] = refl
ranked-rank_all c [] (m ∷ ms) = rw (ranked-rank_all c [] ms) refl
ranked-rank_all c (d ∷ draws) (m ∷ ms) = rw (ranked-rank_all c draws ms) refl

-- Each entry stands beside the score of its memory.
abbrev IsScored : LocalMemory → List (ℕ × Memory) → Type 0
IsScored c = All (λ e. e.0 ≡ feedback_score c e.1.id)

abbrev scores : LocalMemory → List Memory → List ℕ
scores c = map (λ m. feedback_score c m.id)

scores-ranked :
    (c : LocalMemory) (xs : List (ℕ × Memory)) → IsScored c xs → scores c (ranked xs) ≡ ranks xs
scores-ranked c [] h = refl
scores-ranked c (x ∷ xs) (e, h) = rw (e, scores-ranked c xs h) refl

rank_all-IsScored : (c : LocalMemory) (ms : List Memory) → IsScored c (rank_all c [] ms)
unfolding rank_all
rank_all-IsScored c [] = tt
rank_all-IsScored c (m ∷ ms) = (refl, rank_all-IsScored c ms)

insert_ranked-IsScored :
    (c : LocalMemory) (x : ℕ × Memory) (ys : List (ℕ × Memory))
    → x.0 ≡ feedback_score c x.1.id
    → IsScored c ys
    → IsScored c (insert_ranked x ys)
unfolding insert_ranked
insert_ranked-IsScored c x [] e h = (e, tt)
insert_ranked-IsScored c x (y ∷ ys) e (d, h) = elim (Bool-cases (leb y.0 x.0)) [
  | inl q ↦ rw q (e, (d, h))
  | inr q ↦ rw q (d, insert_ranked-IsScored c x ys e h)
]

sort_ranked-IsScored :
    (c : LocalMemory) (xs : List (ℕ × Memory)) → IsScored c xs → IsScored c (sort_ranked xs)
unfolding sort_ranked
sort_ranked-IsScored c [] h = tt
sort_ranked-IsScored c (x ∷ xs) (e, h) =
    insert_ranked-IsScored c x (sort_ranked xs) e (sort_ranked-IsScored c xs h)

-- What holds of the memories found holds of those given.
insert_ranked-All :
    (P : Memory → Type 0) (x : ℕ × Memory) (ys : List (ℕ × Memory))
    → P x.1
    → All P (ranked ys)
    → All P (ranked (insert_ranked x ys))
unfolding insert_ranked
insert_ranked-All P x [] e h = (e, tt)
insert_ranked-All P x (y ∷ ys) e (d, h) = elim (Bool-cases (leb y.0 x.0)) [
  | inl q ↦ rw q (e, (d, h))
  | inr q ↦ rw q (d, insert_ranked-All P x ys e h)
]

sort_ranked-All :
    (P : Memory → Type 0) (xs : List (ℕ × Memory))
    → All P (ranked xs)
    → All P (ranked (sort_ranked xs))
unfolding sort_ranked
sort_ranked-All P [] h = tt
sort_ranked-All P (x ∷ xs) (e, h) =
    insert_ranked-All P x (sort_ranked xs) e (sort_ranked-All P xs h)

pub keep-All :
    (p q : Memory → Bool) (ms : List Memory)
    → ((m : Memory) → p m ≡ true → q m ≡ true)
    → All (λ m. q m ≡ true) (keep p ms)
unfolding keep
keep-All p q [] f = tt
keep-All p q (m ∷ ms) f = elim (Bool-cases (p m)) [
  | inl e ↦ rw e (f m e, keep-All p q ms f)
  | inr e ↦ rw e (keep-All p q ms f)
]

matches-trusted :
    (terms : List (List ℕ)) (tags : List String) (m : Memory)
    → matches terms true tags m ≡ true
    → is_trusted m ≡ true
unfolding matches
matches-trusted terms tags m h = elim (Bool-cases (is_trusted m)) [
  | inl e ↦ e
  | inr e ↦ absurd (cc (rw (matches, e) at h))
]

pub recall-trusted :
    (c : LocalMemory) (query : String) (tags : List String) (draws : List Bool)
    → All (λ m. is_trusted m ≡ true) (recall c query true tags draws)
unfolding recall
recall-trusted c query tags draws =
    let p = matches (terms_of query) true tags in
    let found = keep p (Dict.values c.memories) in
    let trusted =
      keep-All p is_trusted (Dict.values c.memories) (matches-trusted (terms_of query) tags) in
    elim (Bool-cases c.rerank_feedback) [
      | inr e ↦ rw e trusted
      | inl e ↦ rw e (
          sort_ranked-All (λ m. is_trusted m ≡ true) (rank_all c draws found)
            (subst (All (λ m. is_trusted m ≡ true)) (sym (ranked-rank_all c draws found)) trusted))
    ]

-- The same memory without the ranking.
abbrev pub unranked : LocalMemory → LocalMemory
unranked c = record c { rerank_feedback = false }

-- With the ranking on, and whatever the draws of the exploration, a recall gives the same memories
-- as without the ranking, none lost and none added; and without exploration it gives them in
-- descending order of their feedback.
recall-Ranked :
    (c : LocalMemory) (query : String) (trusted_only : Bool) (tags : List String)
    (draws : List Bool)
    → c.rerank_feedback ≡ true
    → Perm (recall c query trusted_only tags draws) (recall (unranked c) query trusted_only tags [])
      × Descends (map (λ m. feedback_score c m.id) (recall c query trusted_only tags []))
unfolding recall
recall-Ranked c query trusted_only tags draws e =
    let found = keep (matches (terms_of query) trusted_only tags) (Dict.values c.memories) in
    let sorted = sort_ranked (rank_all c [] found) in
    (
      rw e (
          subst (λ ms. Perm (ranked (sort_ranked (rank_all c draws found))) ms)
            (ranked-rank_all c draws found) (sort_ranked-perm (rank_all c draws found))),
      rw e (
          subst Descends
            (sym (scores-ranked c sorted (sort_ranked-IsScored c _ (rank_all-IsScored c found))))
            (sort_ranked-Descends (rank_all c [] found))),
    )
