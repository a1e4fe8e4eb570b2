-- ===== src/Core/Session/Drive.antt =====
-- What a run of the brain leaves.
use kagura_agent.Prelude.{
  String, ◌≡◌, refl, ◌∙◌, ap, Option, none, some, List, [], ◌∷◌, ◌++◌, Option-cases, ok, raised,
  ◌⊎◌, inl, inr,
}
use kagura_agent.Core.Session.{
  Task, Checkpoint, BrainEvent, message, done, other, SessionError, ended_without_done, Brain,
  CheckpointStore, collect, checkpoint_of, finish, drive,
}

append_assoc :
    (xs : List String) (y : String) (zs : List String) → (xs ++ y ∷ []) ++ zs ≡ xs ++ y ∷ zs
append_assoc [] y zs = refl
append_assoc (x ∷ xs) y zs = ap (λ t. x ∷ t) (append_assoc xs y zs)

append_nil : (xs : List String) → xs ≡ xs ++ []
append_nil [] = refl
append_nil (x ∷ xs) = ap (λ t. x ∷ t) (append_nil xs)

module _ {S : Type 0} where
  -- The texts of the messages before the first end.
  abbrev pub narration : List (BrainEvent S) → List String
  narration [] = []
  narration (message text ∷ rest) = text ∷ narration rest
  narration (done _ _ ∷ rest) = []
  narration (other ∷ rest) = narration rest

  abbrev pub first_done : List (BrainEvent S) → Option (String × S)
  first_done [] = none
  first_done (done result state ∷ rest) = some (result, state)
  first_done (message _ ∷ rest) = first_done rest
  first_done (other ∷ rest) = first_done rest

  drained :
      (events : List (BrainEvent S)) (messages : List String) (d : String × S)
      → collect events messages (some d) ≡ (messages, some d)
  unfolding collect
  drained [] messages d = refl
  drained (_ ∷ rest) messages d = drained rest messages d

  collect_lem :
      (events : List (BrainEvent S)) (messages : List String)
      → collect events messages none ≡ (messages ++ narration events, first_done events)
  unfolding collect
  collect_lem [] messages = ap (λ m. (m, none)) (append_nil messages)
  collect_lem (message text ∷ rest) messages =
      collect_lem rest (messages ++ text ∷ [])
      ∙ ap (λ m. (m, first_done rest)) (append_assoc messages text (narration rest))
  collect_lem (done result state ∷ rest) messages =
      drained rest messages (result, state)
      ∙ ap (λ m. (m, some (result, state))) (append_nil messages)
  collect_lem (other ∷ rest) messages = collect_lem rest messages

  module _ {W : Type 0} (brain : Brain S W) (store : CheckpointStore S W) where
    -- The result and the checkpoint of a run come from the events up to the first end: the messages
    -- before it, its text and its state. Without an end, or where the brain fails, the run raises and
    -- saves nothing.
    pub drive_lem :
        (task : Task) (prior : Option (Checkpoint S)) (w : W)
        → (let ((events, failure), w') = brain.run task prior w in
            ((e : SessionError) × (failure ≡ some e)
              × (drive brain store task prior w ≡ (raised e, w')))
            ⊎ ((failure ≡ none)
                × (first_done events ≡ none)
                × (drive brain store task prior w ≡ (raised ended_without_done, w')))
            ⊎ ((d : String × S) × (failure ≡ none)
                × (first_done events ≡ some d)
                × (drive brain store task prior w ≡ (
                    let (saved, w'') = store.save (checkpoint_of brain store task d.1) w' in
                    elim saved [
                      | raised e ↦ (raised e, w'')
                      | ok _ ↦ (
                        ok (record {
                          session_id = task.session_id;
                          text = d.0;
                          checkpoint = checkpoint_of brain store task d.1;
                          messages = narration events;
                        }),
                        w'',
                      )
                    ]))))
    unfolding drive finish
    drive_lem task prior w = elim (Option-cases (brain.run task prior w).0.1) [
      | inr (e, f) ↦ inl (e, f, rw (f, drive) refl)
      | inl f ↦ elim (Option-cases (first_done (brain.run task prior w).0.0)) [
        | inl n ↦
            inr (inl (f, n, rw (f, drive, collect_lem (brain.run task prior w).0.0 [], n) refl))
        | inr (d, n) ↦
            inr (inr (d, f, n, rw (f, drive, collect_lem (brain.run task prior w).0.0 [], n) refl))
      ]
    ]
