-- ===== src/Patterns/Continuity/Recorded.antt =====
-- What the log keeps of the memories that a run was given.
use kagura_agent.Prelude.{
  ℕ, zero, suc, String, ◌≡◌, refl, ◌∙◌, ap, subst, Bool, true, ◌&&◌, some, List, [], ◌∷◌, ◌++◌, map,
  All, Result, ok, raised, Result-cases, ok_inj, leb, inl, inr, arith, eq_refl, Bool-cases,
}
use kagura_agent.Prelude.Text.{member}
use kagura_agent.Core.Session.{SessionError, SessionResult, Brain, CheckpointStore}
use kagura_agent.Mcp.Local.{Memory, LocalMemory, is_trusted, load_pinned}
use kagura_agent.Mcp.Local.Ranking.{keep-All, recall-trusted}
use kagura_agent.Mcp.Quarantine.{Bootstrap, take_memories, compose_bootstrap}
use kagura_agent.Patterns.Provenance.{ProvenanceLog, record_ids, record_grounding, sessions_for}
use kagura_agent.Patterns.Provenance.Trust.{member-record_memories}
use kagura_agent.Patterns.Continuity.{
  RunState, fresh_memories, dedupe_memories, take_text, prepare_bootstrap_prompt, record_used,
  drive_task, after_task, ground_and_run,
}

take_memories-All :
    (P : Memory → Type 0) (k : ℕ) (ms : List Memory) → All P ms → All P (take_memories k ms)
unfolding take_memories
take_memories-All P zero ms h = tt
take_memories-All P (suc k) [] h = tt
take_memories-All P (suc k) (m ∷ ms) (p, h) = (p, take_memories-All P k ms h)

append-All : (P : Memory → Type 0) (xs ys : List Memory) → All P xs → All P ys → All P (xs ++ ys)
append-All P [] ys a b = b
append-All P (x ∷ xs) ys (p, a) b = (p, append-All P xs ys a b)

fresh_memories-All :
    (P : Memory → Type 0) (seen : List String) (ms : List Memory)
    → All P ms
    → All P (fresh_memories seen ms)
unfolding fresh_memories
fresh_memories-All P seen [] h = tt
fresh_memories-All P seen (m ∷ ms) (p, h) = elim (Bool-cases (member m.id seen)) [
  | inl e ↦ rw e (fresh_memories-All P seen ms h)
  | inr e ↦ rw e (p, fresh_memories-All P (m.id ∷ seen) ms h)
]

abbrev pub IsTrusted : Memory → Type 0
IsTrusted m = is_trusted m ≡ true

record Trusted (b : Bootstrap) : Type 0 where
  pinned : All IsTrusted b.pinned
  recalled : All IsTrusted b.recalled

compose-Trusted :
    (c : LocalMemory) (query : String) (k : ℕ) (draws : List Bool) (b : Bootstrap)
    → compose_bootstrap c query k draws ≡ ok b
    → Trusted b
unfolding compose_bootstrap
compose-Trusted c query k draws b h = elim (Bool-cases (leb 1 k && leb k 100)) [
  | inr e ↦ absurd (cc (rw (compose_bootstrap, e) at h))
  | inl e ↦ subst Trusted (ok_inj (rw (compose_bootstrap, e) at h)) (record {
    pinned = keep-All is_trusted is_trusted (load_pinned c) (λ m t. t);
    recalled = take_memories-All IsTrusted k _ (recall-trusted c query [] draws);
  })
]

used-IsTrusted :
    (c : LocalMemory) (prompt : String) (draws : List Bool) (effective : String)
    (used : List Memory)
    → prepare_bootstrap_prompt c prompt draws ≡ ok (effective, used)
    → All IsTrusted used
unfolding prepare_bootstrap_prompt dedupe_memories
used-IsTrusted c prompt draws effective used h =
    elim (Result-cases (compose_bootstrap c (take_text 1024 prompt) 5 draws)) [
      | inr (e, d) ↦ absurd (cc (rw (prepare_bootstrap_prompt, d) at h))
      | inl (b, d) ↦
          let t = compose-Trusted c (take_text 1024 prompt) 5 draws b d in
          subst (All IsTrusted) (ap (λ p. p.1) (ok_inj (rw (prepare_bootstrap_prompt, d) at h))) (
            fresh_memories-All IsTrusted [] (b.pinned ++ b.recalled)
              (append-All IsTrusted b.pinned b.recalled t.pinned t.recalled))
    ]

-- The log has the session under each of the memories.
abbrev pub AllRecorded : ProvenanceLog → String → List Memory → Type 0
AllRecorded log session = All (λ m. member session (sessions_for log m.id) ≡ true)

pairs_ids :
    (ms : List Memory)
    → ◌≡◌ {A = List String}
        (map (λ (p : String × String). p.0) (map (λ n. (n.id, n.trust_tier)) ms))
        (map (λ m. m.id) ms)
pairs_ids [] = refl
pairs_ids (m ∷ ms) = ap (λ l. m.id ∷ l) (pairs_ids ms)

sessions-recorded :
    (log : ProvenanceLog) (session k : String) (ms : List Memory)
    → member k (map (λ m. m.id) ms) ≡ true
    → member session
        (sessions_for (record_grounding log session (map (λ n. (n.id, n.trust_tier)) ms)) k)
      ≡ true
unfolding sessions_for record_grounding record_ids
sessions-recorded log session k ms h = rw (pairs_ids ms) (
    ground (
      arith,
      member-record_memories session k session (map (λ m. m.id) ms) log.by_memory,
      eq_refl session,
      h,
    ))

All-members :
    (P : String → Type 0) (ms : List Memory)
    → ((k : String) → member k (map (λ m. m.id) ms) ≡ true → P k)
    → All (λ m. P m.id) ms
unfolding member
All-members P [] f = tt
All-members P (m ∷ ms) f =
    (f m.id (ground (arith, eq_refl m.id)), All-members P ms (λ k h. f k (ground (arith, h))))

record_used-recorded :
    (log : ProvenanceLog) (session : String) (used : List Memory)
    → (now : ProvenanceLog) × (record_used (some log) session used ≡ some now)
      × AllRecorded now session used
unfolding record_used
record_used-recorded log session [] = (log, refl, tt)
record_used-recorded log session (m ∷ ms) = (
  record_grounding log session (map (λ n. (n.id, n.trust_tier)) (m ∷ ms)),
  refl,
  All-members
      (λ k.
        member session
          (sessions_for (record_grounding log session (map (λ n. (n.id, n.trust_tier)) (m ∷ ms))) k)
        ≡ true)
      (m ∷ ms) (λ k. sessions-recorded log session k (m ∷ ms)),
)

module _ {S W : Type 0} (brain : Brain S W) (store : CheckpointStore S W) where
  after_task-provenance :
      (session prompt : String) (r : Result SessionError (SessionResult S)) (h : RunState W)
      → (after_task brain store session prompt r h).1.provenance ≡ h.provenance
  unfolding after_task
  after_task-provenance session prompt (raised e) h = refl
  after_task-provenance session prompt (ok result) h = refl

  -- If the host keeps a log and a run is given the memories `used`, then each of them is trusted, and
  -- the log has the session under each of them afterwards, also where the run fails: so an erasure of
  -- any of them reaches this session.
  pub ground_and_run-recorded :
      (session prompt effective : String) (draws : List Bool) (used : List Memory) (h : RunState W)
      (log : ProvenanceLog)
      → h.provenance ≡ some log
      → prepare_bootstrap_prompt h.memory prompt draws ≡ ok (effective, used)
      → (now : ProvenanceLog) × ((ground_and_run brain store session prompt draws h).1.provenance
          ≡ some now)
        × All (λ m. is_trusted m ≡ true) used
        × AllRecorded now session used
  unfolding ground_and_run
  ground_and_run-recorded session prompt effective draws used h log kept d =
      let (now, e, recorded) = record_used-recorded log session used in
      let (r, w) = drive_task brain store session effective h.world in
      (
        now,
        rw (ground_and_run, d)
            (after_task-provenance session prompt r
                (record h { provenance = record_used h.provenance session used; world = w })
              ∙ (ap (λ p. record_used p session used) kept ∙ e)),
        used-IsTrusted h.memory prompt draws effective used d,
        recorded,
      )
