-- ===== src/Patterns/Reinforce/Feedback.antt =====
-- What feedback a finished run writes.
use kagura_agent.Prelude.{
  ℕ, suc, ◌+◌, String, ◌≡◌, ◌≢◌, refl, sym, ◌∙◌, ap, Bool, Option, none, List, [], ◌∷◌, ◌==◌,
  eq_iff, length, Bool-cases, ◌⊎◌, inl, inr, if◌then◌else◌, ok, raised, arith,
}
use kagura_agent.Membrane.Outcome.{ExitCode, two_verdicts, VerifiedOutcome}
use kagura_agent.Membrane.Outcome.Verdict.{IsVerdict, measure_outcome_lem}
use kagura_agent.Patterns.Provenance.{ProvenanceLog, tiers_for, memories_for}
use kagura_agent.Patterns.Reinforce.{FeedbackSink, reinforce_all, reinforce, reinforce_run}

module _ {W : Type 0} (sink : FeedbackSink W) where
  -- Feedback neither makes nor removes a memory.
  abbrev pub KeepsMemories : Type 0
  KeepsMemories =
      (w : W) (mid query : String) (helpful : Bool) (k : String)
      → sink.has_memory (sink.record_feedback w mid query helpful) k ≡ sink.has_memory w k

  abbrev pub existing : W → List String → List String
  existing w [] = []
  existing w (mid ∷ ids) =
      let rest = existing w ids in if sink.has_memory w mid then mid ∷ rest else rest

  -- one record of feedback after the other
  abbrev pub write_all : Bool → String → List String → W → W
  write_all helpful query [] w = w
  write_all helpful query (mid ∷ ids) w =
      write_all helpful query ids (sink.record_feedback w mid query helpful)

  module _ (keeps : KeepsMemories) where
    existing_kept :
        (w : W) (mid query : String) (helpful : Bool) (ids : List String)
        → existing (sink.record_feedback w mid query helpful) ids ≡ existing w ids
    existing_kept w mid query helpful [] = refl
    existing_kept w mid query helpful (k ∷ ids) =
        rw (keeps w mid query helpful k, existing_kept w mid query helpful ids) refl

    reinforce_all_lem :
        (helpful : Bool) (query : String) (ids : List String) (n : ℕ) (w : W)
        → reinforce_all sink helpful query ids n w
          ≡ (n + length (existing w ids), write_all helpful query (existing w ids) w)
    unfolding reinforce_all
    reinforce_all_lem helpful query [] n w = ap (λ k. (k, w)) (omega arith)
    reinforce_all_lem helpful query (mid ∷ ids) n w = elim (Bool-cases (sink.has_memory w mid)) [
      | inr e ↦ rw e (reinforce_all_lem helpful query ids n w)
      | inl e ↦ rw e (
          reinforce_all_lem helpful query ids (suc n) (sink.record_feedback w mid query helpful)
          ∙ rw (existing_kept w mid query helpful ids) (
              ap
                (λ k. (
                  k,
                  write_all helpful query (existing w ids)
                      (sink.record_feedback w mid query helpful),
                ))
                (omega arith)))
    ]

    -- If feedback neither makes nor removes a memory: either there are two signals, and the call raises
    -- and writes nothing; or one of them is missing, and the call returns an outcome that rests on the
    -- signals and on the session's tiers. Without any signal it then writes nothing, and with one it
    -- writes the outcome's verdict for each memory that grounded the session and is still there.
    pub reinforce_run_lem :
        (log : ProvenanceLog) (session category query : String) (code : Option ExitCode)
        (approved : Option Bool) (w : W)
        → ((code ≢ none)
            × (approved ≢ none)
            × (reinforce_run sink log session category query code approved w
                ≡ (raised two_verdicts, w)))
          ⊎ (((code ≡ none) ⊎ (approved ≡ none))
              × (o : VerifiedOutcome) × IsVerdict o (tiers_for log session) code approved
              × (((code ≡ none)
                    × (approved ≡ none)
                    × (reinforce_run sink log session category query code approved w ≡ (ok o, w)))
                  ⊎ ((o.source ≢ "unverified")
                      × (reinforce_run sink log session category query code approved w ≡ (
                        ok o,
                        write_all o.verified query (existing w (memories_for log session)) w,
                      )))))
    unfolding reinforce_run reinforce
    reinforce_run_lem log session category query code approved w =
        elim (measure_outcome_lem category (tiers_for log session) code approved) [
          | inl (c, a, e) ↦ inl (c, a, rw (e, reinforce_run) refl)
          | inr (missing, o, e, v) ↦ inr (
            missing,
            o,
            v,
            elim (Bool-cases (o.source == "unverified")) [
              | inl a ↦
                  let (c, d) = v.abstains_iff.0 ((eq_iff _ _).0 a) in
                  inl (c, d, rw (e, reinforce_run, a) refl)
              | inr a ↦ inr (
                (λ h. absurd (cc (sym ((eq_iff _ _).1 h) ∙ a))),
                rw (e, reinforce_run, a)
                    (ap (λ x. (ok o, x.1))
                      (reinforce_all_lem o.verified query (memories_for log session) 0 w)),
              )
            ],
          )
        ]
