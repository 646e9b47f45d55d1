-- ===== src/Core/Penalty/Bounds.antt =====
-- The bounds of the penalty, and its course in the score (engines/penalty.py).
use sitescore.Common.{Bool, true, false, ◌||◌, ◌≡◌, refl, subst, inl, inr, arith, if◌then◌else◌}
use sitescore.Common.Action.{ok}
use sitescore.Core.Numbers.{Num, Laws, zero, one, hundred, lt, eq, is_between}
use sitescore.Core.Penalty.{deficit_penalty, penalty, calculate_penalty}

module _ (N : Num) (laws : Laws N) where
  module _ (threshold max_penalty : N.F) (pos : lt N (zero N) threshold ≡ true)
      (low : N.le (zero N) max_penalty ≡ true) where
    -- The deficit ratio lies between 0 and 1.
    module _ (score : N.F) (some_score : N.le (zero N) score ≡ true)
        (below : N.le score threshold ≡ true) where
      ratio_pos : N.le (zero N) (N.div (N.sub threshold score) threshold) ≡ true
      ratio_pos = laws.div_pos _ threshold pos (laws.sub_pos score threshold below)

      ratio_one : N.le (N.div (N.sub threshold score) threshold) (one N) ≡ true
      ratio_one = laws.div_one _ threshold pos (
          subst (λ x. N.le (N.sub threshold score) x ≡ true) (laws.sub_zero threshold)
            (laws.sub_le threshold (zero N) score some_score))

      deficit_penalty-low :
          N.le (N.sub (one N) max_penalty) (deficit_penalty N score threshold max_penalty) ≡ true
      unfolding deficit_penalty
      deficit_penalty-low = laws.sub_le (one N) _ max_penalty (
          subst
            (λ x.
              N.le (N.mul max_penalty (N.square (N.div (N.sub threshold score) threshold))) x
              ≡ true)
            (laws.mul_one max_penalty)
            (laws.mul_le max_penalty _ (one N) low (laws.square_one _ ratio_pos ratio_one)))

      deficit_penalty-high : N.le (deficit_penalty N score threshold max_penalty) (one N) ≡ true
      unfolding deficit_penalty
      deficit_penalty-high =
          subst (λ x. N.le (deficit_penalty N score threshold max_penalty) x ≡ true)
            (laws.sub_zero (one N))
            (laws.sub_le (one N) (zero N) _ (laws.mul_pos max_penalty _ low (laws.square_pos _)))

    -- A higher score has no lower penalty factor.
    deficit_penalty-le :
        (a b : N.F)
        → N.le a b ≡ true
        → N.le b threshold ≡ true
        → N.le
            (deficit_penalty N a threshold max_penalty)
            (deficit_penalty N b threshold max_penalty)
          ≡ true
    unfolding deficit_penalty
    deficit_penalty-le a b h t = laws.sub_le (one N) _ _ (
        laws.mul_le max_penalty _ _ low (
          laws.square_le _ _ (laws.div_pos _ threshold pos (laws.sub_pos b threshold t))
            (laws.div_le _ _ threshold pos (laws.sub_le threshold a b h))))

  module _ (threshold max_penalty : N.F) where
    -- What is left where no penalty is waived.
    module _ (score : N.F) (b : (eq N threshold (zero N) || N.le threshold score) ≡ false)
        (t : N.le (zero N) threshold ≡ true) where
      threshold_pos : lt N (zero N) threshold ≡ true
      threshold_pos = ground (arith, laws.less_le (zero N) threshold)

      score_below : N.le score threshold ≡ true
      score_below = elim (laws.le_total score threshold) [ inl h ↦ h | inr h ↦ ground arith ]

    either_above :
        (low x y : N.F) (b : Bool)
        → (b ≡ true → N.le low x ≡ true)
        → (b ≡ false → N.le low y ≡ true)
        → N.le low (if b then x else y) ≡ true
    either_above low x y true f g = f refl
    either_above low x y false f g = g refl

    either_below :
        (high x y : N.F) (b : Bool)
        → (b ≡ true → N.le x high ≡ true)
        → (b ≡ false → N.le y high ≡ true)
        → N.le (if b then x else y) high ≡ true
    either_below high x y true f g = f refl
    either_below high x y false f g = g refl

    module _ (t : N.le (zero N) threshold ≡ true) (low : N.le (zero N) max_penalty ≡ true)
        (high : N.le max_penalty (one N) ≡ true) where
      factor_high : N.le (N.sub (one N) max_penalty) (one N) ≡ true
      factor_high =
          subst (λ x. N.le (N.sub (one N) max_penalty) x ≡ true) (laws.sub_zero (one N))
            (laws.sub_le (one N) (zero N) max_penalty low)

      pub penalty-low :
          (score : N.F)
          → N.le (zero N) score ≡ true
          → N.le (N.sub (one N) max_penalty) (penalty N score threshold max_penalty) ≡ true
      unfolding penalty
      penalty-low score s =
          either_above _ _ _ _ (λ _. factor_high)
            λ b.
              deficit_penalty-low threshold max_penalty (threshold_pos score b t) low score s
                (score_below score b t)

      pub penalty-high :
          (score : N.F)
          → N.le (zero N) score ≡ true
          → N.le (penalty N score threshold max_penalty) (one N) ≡ true
      unfolding penalty
      penalty-high score s =
          either_below _ _ _ _ (λ _. laws.le_refl (one N))
            λ b.
              deficit_penalty-high threshold max_penalty (threshold_pos score b t) low score s
                (score_below score b t)

      pub penalty-le :
          (a b : N.F)
          → N.le (zero N) a ≡ true
          → N.le a b ≡ true
          → N.le (penalty N a threshold max_penalty) (penalty N b threshold max_penalty) ≡ true
      unfolding penalty
      penalty-le a b s h =
          either_above _ _ _ _ (λ _. penalty-high a s)
            λ g.
              either_below (deficit_penalty N b threshold max_penalty) (one N)
                (deficit_penalty N a threshold max_penalty) _
                (λ w. ground (arith, laws.le_trans threshold a b))
                λ f.
                  deficit_penalty-le threshold max_penalty (threshold_pos b g t) low a b h
                    (score_below b g t)

  -- What the checks of the arguments let through.
  record IsChecked (score threshold max_penalty p : N.F) : Type 0 where
    score_low : N.le (zero N) score ≡ true
    threshold_low : N.le (zero N) threshold ≡ true
    penalty_low : N.le (zero N) max_penalty ≡ true
    penalty_high : N.le max_penalty (one N) ≡ true
    value : penalty N score threshold max_penalty ≡ p

  checked :
      (score threshold max_penalty p : N.F)
      → calculate_penalty N score threshold max_penalty ≡ ok p
      → IsChecked score threshold max_penalty p
  unfolding calculate_penalty
  checked score threshold max_penalty p h = record {
    score_low = ground arith;
    threshold_low = ground (arith, laws.less_le threshold (zero N));
    penalty_low = ground arith;
    penalty_high = ground arith;
    value = ground arith;
  }

  -- A penalty factor lies between 1 less the largest penalty, which is not negative, and 1.
  pub calculate_penalty-bounds :
      (score threshold max_penalty p : N.F)
      → calculate_penalty N score threshold max_penalty ≡ ok p
      → (N.le (N.sub (one N) max_penalty) p ≡ true)
        × ((N.le p (one N) ≡ true) × (N.le (zero N) p ≡ true))
  calculate_penalty-bounds score threshold max_penalty p h =
      let c = checked score threshold max_penalty p h in
      let low =
        penalty-low threshold max_penalty c.threshold_low c.penalty_low c.penalty_high score
          c.score_low in
      let high =
        penalty-high threshold max_penalty c.threshold_low c.penalty_low c.penalty_high score
          c.score_low in
      let left = laws.sub_pos max_penalty (one N) c.penalty_high in
      let above = laws.le_trans _ _ (penalty N score threshold max_penalty) left low in
      subst
        (λ x.
          (N.le (N.sub (one N) max_penalty) x ≡ true)
          × ((N.le x (one N) ≡ true) × (N.le (zero N) x ≡ true)))
        c.value (low, (high, above))

  -- Of two scores under the same rule the higher one has no lower penalty factor.
  pub calculate_penalty-monotone :
      (a b threshold max_penalty p q : N.F)
      → calculate_penalty N a threshold max_penalty ≡ ok p
      → calculate_penalty N b threshold max_penalty ≡ ok q
      → N.le a b ≡ true
      → N.le p q ≡ true
  calculate_penalty-monotone a b threshold max_penalty p q h g l =
      let c = checked a threshold max_penalty p h in
      let d = checked b threshold max_penalty q g in
      subst (λ x. N.le x q ≡ true) c.value
        (subst (λ x. N.le (penalty N a threshold max_penalty) x ≡ true) d.value
          (penalty-le threshold max_penalty c.threshold_low c.penalty_low c.penalty_high a b
            c.score_low l))

  -- The checks raise for no score in [0, 100] under a rule of the configuration.
  pub calculate_penalty-answers :
      (score threshold max_penalty : N.F)
      → is_between N (zero N) (hundred N) score ≡ true
      → N.le (zero N) threshold ≡ true
      → is_between N (zero N) (one N) max_penalty ≡ true
      → calculate_penalty N score threshold max_penalty ≡ ok (penalty N score threshold max_penalty)
  unfolding calculate_penalty
  calculate_penalty-answers score threshold max_penalty s t m =
      ground (arith, laws.less_le threshold (zero N))
