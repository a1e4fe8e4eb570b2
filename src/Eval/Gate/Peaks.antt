-- ===== src/Eval/Gate/Peaks.antt =====
-- Running maxima over floats that are numbers: what they bound.
use kagura_agent.Prelude.{or_false}
use kagura_agent.Prelude.{
  ◌≡◌, true, false, Option, none, some, List, [], ◌∷◌, All, Bool-cases, inl, inr,
}
use kagura_agent.Eval.Gate.{Float, GenerationMetrics, max_of, regress, worst_tail, falls}

-- What Python's comparison of floats and their subtraction do, but for NaN.
pub record IsOrdered {F : Type 0} (float : Float F) : Type 0 where
  pub asym : (a b : F) → float.lt a b ≡ true → float.lt b a ≡ false
  pub mono : (l a b : F) → float.lt a b ≡ false → float.lt l b ≡ true → float.lt l a ≡ true
  pub sub_mono :
      (l a b w : F)
      → float.lt a b ≡ false
      → float.lt l (float.sub b w) ≡ true
      → float.lt l (float.sub a w) ≡ true

module _ {F : Type 0} (float : Float F) where
  -- A generation regresses by no more than the limit, where both arms have tail tasks.
  abbrev pub IsSteady : F → Option F → Option F → Type 0
  IsSteady l (some a) (some b) = float.lt l (float.sub a b) ≡ false
  IsSteady l _ _ = Unit

  -- No value lies below an earlier one by more than the limit.
  abbrev pub NoFall : F → List F → Type 0
  NoFall l [] = Unit
  NoFall l (v ∷ vs) = All (λ w. float.lt l (float.sub v w) ≡ false) vs × NoFall l vs

module _ {F : Type 0} (float : Float F) (o : IsOrdered float) where
  -- A bound of the greater one is a bound of both, for the values and for their distances to a third.
  max_of-bounds :
      (l a b : F)
      → float.lt l (max_of float a b) ≡ false
      → (float.lt l a ≡ false) × (float.lt l b ≡ false)
  unfolding max_of
  max_of-bounds l a b h = elim (Bool-cases (float.lt a b)) [
    | inl t ↦ (
      elim (Bool-cases (float.lt l a)) [
        | inr f ↦ f
        | inl y ↦ absurd (cc (rw (t, max_of) at h, o.mono l b a (o.asym a b t) y))
      ],
      rw (t, max_of) at h,
    )
    | inr t ↦ (
      rw (t, max_of) at h,
      elim (Bool-cases (float.lt l b)) [
        | inr f ↦ f
        | inl y ↦ absurd (cc (rw (t, max_of) at h, o.mono l a b t y))
      ],
    )
  ]

  max_of-sub_bounds :
      (l a b w : F)
      → float.lt l (float.sub (max_of float a b) w) ≡ false
      → (float.lt l (float.sub a w) ≡ false) × (float.lt l (float.sub b w) ≡ false)
  unfolding max_of
  max_of-sub_bounds l a b w h = elim (Bool-cases (float.lt a b)) [
    | inl t ↦ (
      elim (Bool-cases (float.lt l (float.sub a w))) [
        | inr f ↦ f
        | inl y ↦ absurd (cc (rw (t, max_of) at h, o.sub_mono l b a w (o.asym a b t) y))
      ],
      rw (t, max_of) at h,
    )
    | inr t ↦ (
      rw (t, max_of) at h,
      elim (Bool-cases (float.lt l (float.sub b w))) [
        | inr f ↦ f
        | inl y ↦ absurd (cc (rw (t, max_of) at h, o.sub_mono l a b w t y))
      ],
    )
  ]

  regress-bounds :
      (l worst : F) (c t : Option F)
      → float.lt l (regress float worst c t) ≡ false
      → (float.lt l worst ≡ false) × IsSteady float l c t
  unfolding regress
  regress-bounds l worst none t h = (h, tt)
  regress-bounds l worst (some a) none h = (h, tt)
  regress-bounds l worst (some a) (some b) h = max_of-bounds l worst (float.sub a b) h

  pub worst_tail-IsSteady :
      (l worst : F) (ps : List (GenerationMetrics F × GenerationMetrics F))
      → float.lt l (worst_tail float worst ps) ≡ false
      → (float.lt l worst ≡ false)
        × All
            (λ (p : GenerationMetrics F × GenerationMetrics F).
              IsSteady float l p.0.tail_success p.1.tail_success)
            ps
  unfolding worst_tail
  worst_tail-IsSteady l worst [] h = (h, tt)
  worst_tail-IsSteady l worst ((c, t) ∷ ps) h =
      let later = worst_tail-IsSteady l (regress float worst c.tail_success t.tail_success) ps h in
      let (w, s) = regress-bounds l worst c.tail_success t.tail_success later.0 in (w, (s, later.1))

  both_bounds :
      (l a b : F) (ws : List F)
      → All (λ w. float.lt l (float.sub (max_of float a b) w) ≡ false) ws
      → All (λ w. float.lt l (float.sub a w) ≡ false) ws
        × All (λ w. float.lt l (float.sub b w) ≡ false) ws
  both_bounds l a b [] h = (tt, tt)
  both_bounds l a b (w ∷ ws) (x, h) =
      let (p, q) = max_of-sub_bounds l a b w x in
      let (ps, qs) = both_bounds l a b ws h in ((p, ps), (q, qs))

  pub falls-NoFall :
      (l peak : F) (vs : List F)
      → falls float l peak vs ≡ false
      → All (λ w. float.lt l (float.sub peak w) ≡ false) vs × NoFall float l vs
  unfolding falls
  falls-NoFall l peak [] h = (tt, tt)
  falls-NoFall l peak (v ∷ vs) h =
      let (x, rest) = or_false (float.lt l (float.sub (max_of float peak v) v)) _ h in
      let (later, none') = falls-NoFall l (max_of float peak v) vs rest in
      let (ps, qs) = both_bounds l peak v vs later in
      (((max_of-sub_bounds l peak v v x).0, ps), (qs, none'))
