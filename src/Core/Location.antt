-- ===== src/Core/Location.antt =====
-- The score of a location (engines/location.py, schemas/location.py).
pub mod Score
use sitescore.Common.{Bool, ◌&&◌, not, Option, none, some, if◌then◌else◌}
use sitescore.Common.Action.{Result, ok, err, value_error}
use sitescore.Core.Numbers.{Num, zero, one, hundred, lt, eq, is_between}
use sitescore.Core.Config.{
  Sector, Category, weight_of, get_rule, location_strong_min, location_conditional_min,
}
use sitescore.Core.Penalty.{calculate_penalty}

pub data StructuralBand : Type 0 where
  strong conditional weak : StructuralBand

-- What follows a value.
unfoldable pub and_then : {A B : Type 0} → Result A → (A → Result B) → Result B
and_then (ok a) f = f a
and_then (err e) f = err e

module _ (N : Num) where
  pub record CategoryScores : Type 0 where
    pub demand : N.F
    pub competition : N.F
    pub accessibility : N.F
    pub economics : N.F

  -- `__post_init__`: every score lies in [0, 100].
  unfoldable pub is_bounded : CategoryScores → Bool
  is_bounded s =
      is_between N (zero N) (hundred N) s.demand
      && is_between N (zero N) (hundred N) s.competition
      && is_between N (zero N) (hundred N) s.accessibility
      && is_between N (zero N) (hundred N) s.economics

  pub record LocationResult : Type 0 where
    pub base_score : N.F
    pub penalty_multiplier : N.F
    pub final_score : N.F
    pub structural_band : StructuralBand
    pub dominant_risk_category : Option Category

  unfoldable pub structural_band : N.F → StructuralBand
  structural_band score =
      if N.le (location_strong_min N) score
      then strong
      else if N.le (location_conditional_min N) score
      then conditional
      else weak

  abbrev pub weight : Sector → Category → N.F
  weight sector c = N.hundredths (weight_of sector c)

  -- `sum(...)` over the categories.
  abbrev pub sum_of : (Category → N.F) → N.F
  sum_of f =
      N.add
        (N.add (N.add (N.add (zero N) (f Category.demand)) (f Category.competition))
          (f Category.accessibility))
        (f Category.economics)

  abbrev pub score_of : CategoryScores → Category → N.F
  score_of s Category.demand = s.demand
  score_of s Category.competition = s.competition
  score_of s Category.accessibility = s.accessibility
  score_of s Category.economics = s.economics

  unfoldable pub weights_differ : Sector → Bool
  weights_differ sector = lt N N.tolerance (N.abs (N.sub (sum_of (λ c. weight sector c)) (one N)))

  unfoldable pub base_score : Sector → CategoryScores → N.F
  base_score sector s = sum_of (λ c. N.mul (weight sector c) (score_of s c))

  unfoldable pub category_penalty : Sector → CategoryScores → Category → Result N.F
  unfolding calculate_penalty
  category_penalty sector s c =
      calculate_penalty N (score_of s c) (N.hundredths (get_rule sector c).threshold)
        (N.hundredths (get_rule sector c).max_penalty)

  -- A category with its penalty.
  abbrev pub Penalized : Type 0
  Penalized = Category × N.F

  -- The first of two with the lower penalty.
  unfoldable pub lower : Penalized → Penalized → Penalized
  lower a b = if lt N b.1 a.1 then b else a

  -- `min(penalties, key=penalties.get)`
  unfoldable pub dominant : N.F → N.F → N.F → N.F → Penalized
  unfolding lower
  dominant d c a e =
      lower
        (lower (lower (Category.demand, d) (Category.competition, c)) (Category.accessibility, a))
        (Category.economics, e)

  unfoldable pub location_result : N.F → Penalized → LocationResult
  unfolding structural_band
  location_result base (category, multiplier) = record {
    base_score = N.round6 base;
    penalty_multiplier = N.round6 multiplier;
    final_score = N.round6 (N.mul base multiplier);
    structural_band = structural_band (N.mul base multiplier);
    dominant_risk_category = if eq N multiplier (one N) then none else some category;
  }

  unfoldable pub penalized : Sector → CategoryScores → Result Penalized
  unfolding and_then category_penalty dominant
  penalized sector s = and_then (category_penalty sector s Category.demand) λ d.
      and_then (category_penalty sector s Category.competition) λ c.
        and_then (category_penalty sector s Category.accessibility)
          λ a. and_then (category_penalty sector s Category.economics) λ e. ok (dominant d c a e)

  unfoldable pub calculate_location_score : Sector → CategoryScores → Result LocationResult
  unfolding penalized location_result weights_differ base_score and_then
  calculate_location_score sector s =
      if weights_differ sector
      then err (value_error "Category weights must sum to 1.0")
      else and_then (penalized sector s) λ p. ok (location_result (base_score sector s) p)
