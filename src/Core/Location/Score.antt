-- ===== src/Core/Location/Score.antt =====
-- The penalties, the multiplier and the final score of a location (engines/location.py).
use sitescore.Common.{
  ◌≤◌, Bool, true, false, ◌&&◌, ◌≡◌, refl, sym, subst, ap, ◌∙◌, ◌⊎◌, inl, inr, arith, some,
}
use sitescore.Common.Action.{ok}
use sitescore.Core.Numbers.{Num, Laws, zero, one, hundred, is_between}
use sitescore.Core.Config.{Sector, Category, weight_of, get_rule}
use sitescore.Core.Penalty.{penalty}
use sitescore.Core.Penalty.Bounds.{calculate_penalty-answers, calculate_penalty-bounds}
use sitescore.Core.Location.{
  and_then, CategoryScores, is_bounded, LocationResult, weight, score_of, weights_differ,
  base_score, category_penalty, lower, dominant, Penalized, location_result, penalized,
  calculate_location_score,
}

rule_unit : (sector : Sector) (c : Category) → (get_rule sector c).max_penalty ≤ 100
rule_unit sector c = ground arith

both_true : {a b : Bool} → a ≡ true → b ≡ true → (a && b) ≡ true
both_true h g = ground arith

module _ (N : Num) (laws : Laws N) where
  -- The penalty of a category.
  unfoldable pub factor : Sector → CategoryScores N → Category → N.F
  factor sector s c =
      penalty N (score_of N s c) (N.hundredths (get_rule sector c).threshold)
        (N.hundredths (get_rule sector c).max_penalty)

  module _ (sector : Sector) (s : CategoryScores N) (b : is_bounded N s ≡ true) where
    score_bounded : (c : Category) → is_between N (zero N) (hundred N) (score_of N s c) ≡ true
    unfolding is_bounded
    score_bounded c = ground arith

    category_penalty-answers :
        (c : Category) → category_penalty N sector s c ≡ ok (factor sector s c)
    unfolding category_penalty factor
    category_penalty-answers c =
        calculate_penalty-answers N laws _ _ _ (score_bounded c)
          (laws.hundredths_le 0 _ (ground arith))
          (both_true (laws.hundredths_le 0 _ (ground arith))
            (laws.hundredths_le _ 100 (rule_unit sector c)))

    score_low : (c : Category) → N.le (zero N) (score_of N s c) ≡ true
    score_low c = ground (arith, score_bounded c)

    factor_unit : (c : Category) → N.le (factor sector s c) (one N) ≡ true
    unfolding category_penalty
    factor_unit c = (calculate_penalty-bounds N laws _ _ _ _ (category_penalty-answers c)).1.0

    factor_pos : (c : Category) → N.le (zero N) (factor sector s c) ≡ true
    unfolding category_penalty
    factor_pos c = (calculate_penalty-bounds N laws _ _ _ _ (category_penalty-answers c)).1.1

  -- The lower of two penalties.
  module _ (a b : Penalized N) where
    lower_left : N.le (lower N a b).1 a.1 ≡ true
    unfolding lower
    lower_left = ground (arith, laws.less_le b.1 a.1, laws.le_total b.1 a.1, laws.le_refl a.1)

    lower_right : N.le (lower N a b).1 b.1 ≡ true
    unfolding lower
    lower_right = ground (arith, laws.less_le b.1 a.1, laws.le_total a.1 b.1, laws.le_refl b.1)

    lower_either : (lower N a b ≡ a) ⊎ (lower N a b ≡ b)
    unfolding lower
    lower_either = ground arith

  -- A category with its own penalty.
  module _ (f : Category → N.F) where
    IsOwn : Penalized N → Type 0
    IsOwn p = p.1 ≡ f p.0

    lower-IsOwn : (a b : Penalized N) → IsOwn a → IsOwn b → IsOwn (lower N a b)
    lower-IsOwn a b i j = elim (lower_either a b) [
      | inl e ↦ subst IsOwn (sym e) i
      | inr e ↦ subst IsOwn (sym e) j
    ]

    -- The dominant penalty of all four.
    least : Penalized N
    least =
        dominant N (f Category.demand) (f Category.competition) (f Category.accessibility)
          (f Category.economics)

    least-IsOwn : IsOwn least
    unfolding least dominant IsOwn
    least-IsOwn = lower-IsOwn _ _ (lower-IsOwn _ _ (lower-IsOwn _ _ refl refl) refl) refl

    least_le : (c : Category) → N.le least.1 (f c) ≡ true
    unfolding least dominant
    least_le Category.economics = lower_right _ _
    least_le Category.accessibility = laws.le_trans _ _ _ (lower_left _ _) (lower_right _ _)
    least_le Category.competition =
        laws.le_trans _ _ _ (lower_left _ _)
          (laws.le_trans _ _ _ (lower_left _ _) (lower_right _ _))
    least_le Category.demand =
        laws.le_trans _ _ _ (lower_left _ _) (laws.le_trans _ _ _ (lower_left _ _) (lower_left _ _))

  -- The result of a location.
  pub record IsScored (sector : Sector) (s : CategoryScores N) (r : LocationResult N) : Type 0 where
    pub final_low : N.le (zero N) r.final_score ≡ true
    pub final_high : N.le r.final_score r.base_score ≡ true
    pub multiplier_least :
        (c : Category) → N.le r.penalty_multiplier (N.round6 (factor sector s c)) ≡ true
    pub multiplier_own :
        (c : Category)
        → r.dominant_risk_category ≡ some c
        → r.penalty_multiplier ≡ N.round6 (factor sector s c)

  module _ (sector : Sector) (s : CategoryScores N) (b : is_bounded N s ≡ true) where
    penalized-answers : penalized N sector s ≡ ok (least (factor sector s))
    unfolding penalized and_then least
    penalized-answers =
        rw
          (
            category_penalty-answers sector s b Category.demand,
            category_penalty-answers sector s b Category.competition,
            category_penalty-answers sector s b Category.accessibility,
            category_penalty-answers sector s b Category.economics,
          )
          refl

    part_pos : (c : Category) → N.le (zero N) (N.mul (weight N sector c) (score_of N s c)) ≡ true
    part_pos c =
        laws.mul_pos _ _ (laws.hundredths_le 0 (weight_of sector c) (ground arith))
          (score_low sector s b c)

    base_score-pos : N.le (zero N) (base_score N sector s) ≡ true
    unfolding base_score is_bounded
    base_score-pos =
        laws.add_pos _ _
          (laws.add_pos _ _
            (laws.add_pos _ _ (laws.add_pos _ _ (laws.le_refl (zero N)) (part_pos Category.demand))
              (part_pos Category.competition))
            (part_pos Category.accessibility))
          (part_pos Category.economics)

    least_unit : N.le (least (factor sector s)).1 (one N) ≡ true
    unfolding IsOwn
    least_unit =
        subst (λ x. N.le x (one N) ≡ true) (sym (least-IsOwn (factor sector s)))
          (factor_unit sector s b _)

    least_pos : N.le (zero N) (least (factor sector s)).1 ≡ true
    unfolding IsOwn
    least_pos =
        subst (λ x. N.le (zero N) x ≡ true) (sym (least-IsOwn (factor sector s)))
          (factor_pos sector s b _)

    own_of :
        (p : Penalized N) (c : Category)
        → IsOwn (factor sector s) p
        → p.0 ≡ c
        → p.1 ≡ factor sector s c
    unfolding IsOwn
    own_of p c i e = i ∙ ap (factor sector s) e

    named :
        (base : N.F) (p : Penalized N) (c : Category)
        → (location_result N base p).dominant_risk_category ≡ some c
        → p.0 ≡ c
    unfolding location_result
    named base p c h = ground arith

    result-IsScored :
        IsScored sector s (location_result N (base_score N sector s) (least (factor sector s)))
    unfolding location_result
    result-IsScored = record {
      final_low =
          subst
            (λ x.
              N.le x (N.round6 (N.mul (base_score N sector s) (least (factor sector s)).1)) ≡ true)
            (laws.round6_hundredths 0)
            (laws.round6_le _ _ (laws.mul_pos _ _ base_score-pos least_pos));
      final_high = laws.round6_le _ _ (
          subst (λ x. N.le (N.mul (base_score N sector s) (least (factor sector s)).1) x ≡ true)
            (laws.mul_one (base_score N sector s))
            (laws.mul_le _ _ (one N) base_score-pos least_unit));
      multiplier_least = λ c. laws.round6_le _ _ (least_le (factor sector s) c);
      multiplier_own = λ c h. ap N.round6 (
          own_of (least (factor sector s)) c (least-IsOwn (factor sector s))
            (named (base_score N sector s) (least (factor sector s)) c h));
    }

    -- For scores in [0, 100], and if the weights of the sector sum to 1: a result is given, its final
    -- score is not negative and no higher than its base score, its multiplier is the lowest of the
    -- penalties, and that of the dominant category if one is named.
    pub calculate_location_score-IsScored :
        weights_differ N sector ≡ false
        → (r : LocationResult N) × ((calculate_location_score N sector s ≡ ok r)
            × IsScored sector s r)
    unfolding calculate_location_score and_then
    calculate_location_score-IsScored w = (
      location_result N (base_score N sector s) (least (factor sector s)),
      (rw (w, penalized-answers) refl, result-IsScored),
    )
