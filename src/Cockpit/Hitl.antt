-- ===== src/Cockpit/Hitl.antt =====
-- cockpit/hitl.py: `HitlGate.review`. The question to the human and the record of the answer are functions on a
-- world; a question that fails gives the name of its exception, none for a cancellation.
mod Examples
use kagura_agent.Prelude.{
  ℕ, String, ◌≡◌, refl, ap, Bool, true, false, Option, none, some, List, [], ◌∷◌, Result, ok,
  raised, ok_inj, sym, subst, ◌∙◌, Bool-cases, ◌⊎◌, inl, inr, Result-cases, Option-cases,
}
use Prim.Native.String.{◌++◌ as append}
use kagura_agent.Prelude.Text.{codes, strip, lower, eq_codes}
use kagura_agent.Cockpit.Approval.{CapabilityRequest}
use kagura_agent.Cockpit.Core.{Error, cancelled, Outcome, decision_text}

pub record HitlGate (W : Type 0) : Type 0 where
  pub ask : String → String → List String → W → Result (Option String) String × W
  pub remember : String → List String → W → Outcome W

unfoldable pub question : CapabilityRequest → String
question request =
    append "grant " (append request.capability (append "? (" (append request.reason ")")))

-- answer.strip().lower() == "approve"
unfoldable pub is_approval : String → Bool
unfolding strip lower eq_codes
is_approval answer = eq_codes (lower (codes (strip answer))) (codes "approve")

unfoldable pub answer_of : Result (Option String) String → String
answer_of (ok answer) = answer
answer_of (raised _) = "deny"

unfoldable pub failure_of : Result (Option String) String → Option String
failure_of (raised (some name)) = some name
failure_of _ = none

-- `Decision(approved=approved)` where the record was written
unfoldable pub decision_of : Bool → Result Error (Unit {0}) → Result Error Bool
decision_of approved (ok _) = ok approved
decision_of approved (raised e) = raised e

module _ {W : Type 0} where
  unfoldable pub record_and_decide :
      HitlGate W → CapabilityRequest → Bool → Option String → W → Result Error Bool × W
  unfolding decision_text decision_of
  record_and_decide gate request approved failure w =
      let (r, w') =
        gate.remember (decision_text request approved failure) ("hitl" ∷ "graduation-trail" ∷ [])
          w in
      (decision_of approved r, w')

  unfoldable pub review_answer :
      HitlGate W → CapabilityRequest → Result (Option String) String × W → Result Error Bool × W
  unfolding is_approval answer_of failure_of record_and_decide
  review_answer gate request (raised none, w) = (raised cancelled, w)
  review_answer gate request (answer, w) =
      record_and_decide gate request (is_approval (answer_of answer)) (failure_of answer) w

  unfoldable pub review : HitlGate W → CapabilityRequest → W → Result Error Bool × W
  unfolding question review_answer
  review gate request w =
      review_answer gate request
        (gate.ask request.thread_id (question request) ("approve" ∷ "deny" ∷ []) w)

decision_of-ok :
    (approved : Bool) (r : Result Error (Unit {0})) (b : Bool)
    → decision_of approved r ≡ ok b
    → (r ≡ ok tt) × (approved ≡ b)
unfolding decision_of
decision_of-ok approved (ok _) b h = (refl, ok_inj h)
decision_of-ok approved (raised e) b h = absurd (cc h)

module _ {W : Type 0} (gate : HitlGate W) (request : CapabilityRequest) where
  -- What stands behind a decision: a written record of it, and for an approval, an answer that says so.
  abbrev IsBacked : Result (Option String) String × W → Bool → Type 0
  IsBacked (answer, w) approved =
      ((approved ≡ false) ⊎ ((text : String) × (answer ≡ ok text) × (is_approval text ≡ true)))
      × ((failure : Option String) × ((gate.remember (decision_text request approved failure)
              ("hitl" ∷ "graduation-trail" ∷ []) w).0
            ≡ ok tt))

  recorded-ok :
      (decision : Bool) (failure : Option String) (w : W) (approved : Bool)
      → (record_and_decide gate request decision failure w).0 ≡ ok approved
      → ((gate.remember
            (decision_text request approved failure)
            ("hitl" ∷ "graduation-trail" ∷ [])
            w).0
          ≡ ok tt)
        × (decision ≡ approved)
  unfolding record_and_decide
  recorded-ok decision failure w approved h =
      let d = decision_of-ok decision _ approved h in
      (
        subst
            (λ b.
              (gate.remember (decision_text request b failure) ("hitl" ∷ "graduation-trail" ∷ [])
                w).0
              ≡ ok tt)
            d.1 d.0,
        d.1,
      )

  review_answer-IsBacked :
      (p : Result (Option String) String × W) (approved : Bool)
      → (review_answer gate request p).0 ≡ ok approved
      → IsBacked p approved
  unfolding review_answer record_and_decide answer_of failure_of
  review_answer-IsBacked (raised none, w) approved h = absurd (cc h)
  review_answer-IsBacked (raised (some name), w) approved h =
      let d = recorded-ok (is_approval "deny") (some name) w approved h in
      (inl (sym d.1), (some name, d.0))
  review_answer-IsBacked (ok text, w) approved h =
      let d = recorded-ok (is_approval text) none w approved h in
      (
        elim (Bool-cases (is_approval text)) [
          | inl yes' ↦ inr (text, refl, yes')
          | inr no' ↦ inl (sym d.1 ∙ no')
        ],
        (none, d.0),
      )

  -- A review that returns has written its decision to the memory before, and approves only if the human was
  -- reached and the answer, stripped of white space and in lower case, is `approve`: a question that fails
  -- is a denial, and a decision that could not be written is none.
  pub review-IsBacked :
      (w : W) (approved : Bool)
      → (review gate request w).0 ≡ ok approved
      → IsBacked
          (gate.ask request.thread_id (question request) ("approve" ∷ "deny" ∷ []) w)
          approved
  unfolding review
  review-IsBacked w approved h = review_answer-IsBacked _ approved h
