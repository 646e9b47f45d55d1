-- ===== src/Core/Tests.antt =====
-- Runs of the engines in hundredths, and instances of what is proved of them.
use sitescore.Common.{
  ℕ, ◌≤◌, Bool, leb, str_eq, if◌then◌else◌, true, false, ◌≡◌, ◌≢◌, refl, none, some, arith,
}
use sitescore.Common.Action.{ok}
use sitescore.Core.Fixed.{fixed, fixed_laws}
use sitescore.Core.Config.{Sector}
use sitescore.Core.Penalty.{calculate_penalty, penalty, deficit_penalty}
use sitescore.Core.Penalty.Bounds.{calculate_penalty-bounds, calculate_penalty-monotone}
use sitescore.Core.Location.{
  StructuralBand, CategoryScores, is_bounded, LocationResult, weights_differ,
  calculate_location_score, structural_band,
}
use sitescore.Core.Location.Score.{IsScored, calculate_location_score-IsScored}
use sitescore.Core.Revenue.{
  RevenueScenarios, GymRevenueInput, gym_input, calculate_revenue, are_rates, accepts_gym,
}
use sitescore.Core.Revenue.Scenarios.{gym, HasScenarios, calculate_revenue-HasScenarios}
use sitescore.Core.Financial.{
  FinancialResult, calculate_financial_metrics, with_fixed_costs, with_variable_cost,
  with_break_even, calculate_fixed_costs, calculate_variable_cost, calculate_break_even_revenue,
  break_even_volume, financial_result, coverage, rent_burden, rent_severity, operating_margin,
  RentBurdenSeverity, finite,
}
use sitescore.Core.Confidence.{
  Dict, or_missing, ℤ, ConfidenceLabel, ConfidenceResult, coverage_level, input_quality,
  calculate_confidence, confidence_result, data_coverage_score, input_completeness_score, weigh_all,
  weigh, geographic_precision_score, data_vintage_score, overall, label,
}
use sitescore.Core.Confidence.Course.{
  IsLower, IsGiven, calculate_confidence-monotone, calculate_confidence-IsGiven,
}
use sitescore.Core.Decision.{FinancialBand, calculate_decision}
use sitescore.Core.Decision.Classes.{class_of, calculate_decision-class, calculate_decision-passed}

-- A demand of 10 under the rule of a coffee shop.
low_penalty : calculate_penalty fixed 1000 3500 45 ≡ ok 78
unfolding calculate_penalty penalty deficit_penalty
low_penalty = refl

lower_penalty : calculate_penalty fixed 500 3500 45 ≡ ok 68
unfolding calculate_penalty penalty deficit_penalty
lower_penalty = refl

bounds_example : (leb 55 78 ≡ true) × ((leb 78 100 ≡ true) × (leb 0 78 ≡ true))
bounds_example = calculate_penalty-bounds fixed fixed_laws 1000 3500 45 78 low_penalty

monotone_example : leb 68 78 ≡ true
monotone_example =
    calculate_penalty-monotone fixed fixed_laws 500 1000 3500 45 68 78 lower_penalty low_penalty
      refl

abbrev quiet_corner : CategoryScores fixed
quiet_corner = record { demand = 1000; competition = 8000; accessibility = 9000; economics = 7000 }

corner_bounded : is_bounded fixed quiet_corner ≡ true
unfolding is_bounded
corner_bounded = refl

weights_sum : weights_differ fixed Sector.coffee ≡ false
unfolding weights_differ
weights_sum = refl

scored_example :
    (r : LocationResult fixed) × ((calculate_location_score fixed Sector.coffee quiet_corner ≡ ok r)
      × IsScored fixed fixed_laws Sector.coffee quiet_corner r)
scored_example =
    calculate_location_score-IsScored fixed fixed_laws Sector.coffee quiet_corner corner_bounded
      weights_sum

abbrev small_gym : GymRevenueInput fixed
small_gym = record {
  target_population = 500000;
  penetration_rates = record { conservative = 2; base = 5; optimistic = 10 };
  usable_area = 20000;
  members_per_area_unit = 150;
  monthly_membership_fee = 4000;
}

gym_accepted : accepts_gym fixed small_gym ≡ true
unfolding accepts_gym are_rates
gym_accepted = refl

revenue_example :
    HasScenarios fixed fixed_laws (calculate_revenue fixed Sector.gym (gym_input small_gym))
revenue_example =
    calculate_revenue-HasScenarios fixed fixed_laws Sector.gym (gym_input small_gym)
      (gym gym_accepted)

abbrev revenues : RevenueScenarios fixed
revenues = record { conservative = 400000; base = 1000000; optimistic = 1200000 }

abbrev plaza : LocationResult fixed
plaza = record {
  base_score = 8000;
  penalty_multiplier = 100;
  final_score = 8000;
  structural_band = StructuralBand.strong;
  dominant_risk_category = none;
}

abbrev economics : FinancialResult fixed
economics = record {
  revenue = revenues;
  variable_cost_base = 50000;
  contribution_margin_base = 950000;
  fixed_costs = 300000;
  operating_profit_base = 650000;
  break_even_revenue = 315789;
  bec_base = finite 316;
  bec_conservative = finite 126;
  rent_burden_pct = finite 1000;
  rent_burden_severity = RentBurdenSeverity.normal;
  operating_margin_pct = 6500;
  break_even_volume = some 7894;
  stress_test_failed = false;
}

metrics_run :
    calculate_financial_metrics fixed Sector.gym revenues 100000 150000 50000 (some 4000)
    ≡ ok economics
unfolding calculate_financial_metrics with_fixed_costs with_variable_cost with_break_even
    calculate_fixed_costs calculate_variable_cost calculate_break_even_revenue break_even_volume
    financial_result coverage rent_burden rent_severity operating_margin
metrics_run = refl

class_example :
    (calculate_decision fixed plaza economics).decision_class
    ≡ class_of
        (structural_band fixed 8000)
        (calculate_decision fixed plaza economics).financial_band
class_example = calculate_decision-class fixed fixed_laws plaza economics

passed_example :
    (calculate_decision fixed plaza economics).financial_band ≢ FinancialBand.non_viable
passed_example =
    calculate_decision-passed fixed fixed_laws Sector.gym revenues 100000 150000 50000 (some 4000)
      plaza economics refl metrics_run refl

-- A county with one input that is known, and then a tract with two.
abbrev thin_data : Dict
thin_data name = if str_eq name "rent" then some "user" else none

abbrev fair_data : Dict
fair_data name =
    if str_eq name "rent" then some "user" else if str_eq name "price" then some "default" else none

abbrev no_data : Dict
no_data name = none

abbrev confidence_of : ℕ → ℕ → ℕ → ℕ → ConfidenceResult fixed
confidence_of overall geographic vintage inputs = record {
  overall_score = overall;
  label = ConfidenceLabel.low;
  geographic_precision = geographic;
  data_vintage = vintage;
  data_coverage = 0;
  input_completeness = inputs;
}

thin_confidence :
    calculate_confidence fixed Sector.gym "county" (some (ℤ.pos 4)) no_data thin_data
    ≡ ok (confidence_of 2600 2500 5500 3000)
unfolding calculate_confidence confidence_result data_coverage_score input_completeness_score
    weigh_all weigh coverage_level input_quality geographic_precision_score data_vintage_score
    overall label
thin_confidence = refl

fair_confidence :
    calculate_confidence fixed Sector.gym "tract" (some (ℤ.pos 4)) no_data fair_data
    ≡ ok (confidence_of 4475 7500 5500 4500)
unfolding calculate_confidence confidence_result data_coverage_score input_completeness_score
    weigh_all weigh coverage_level input_quality geographic_precision_score data_vintage_score
    overall label
fair_confidence = refl

no_data-IsLower : IsLower coverage_level no_data no_data
unfolding IsLower
no_data-IsLower name m n h k = ground arith

qualities_le :
    (a b : Bool) (m n : ℕ)
    → input_quality (or_missing (if a then some "user" else none)) ≡ some m
    → input_quality (or_missing (if a then some "user" else if b then some "default" else none))
      ≡ some n
    → m ≤ n
unfolding input_quality
qualities_le true b m n h k = ground arith
qualities_le false true m n h k = ground arith
qualities_le false false m n h k = ground arith

data-IsLower : IsLower input_quality thin_data fair_data
unfolding IsLower
data-IsLower name m n h k = qualities_le (str_eq name "rent") (str_eq name "price") m n h k

confidence_example : leb 2600 4475 ≡ true
unfolding geographic_precision_score data_vintage_score
confidence_example =
    calculate_confidence-monotone fixed fixed_laws Sector.gym "county" "tract" (some (ℤ.pos 4))
      (some (ℤ.pos 4)) no_data no_data thin_data fair_data (confidence_of 2600 2500 5500 3000)
      (confidence_of 4475 7500 5500 4500) refl refl no_data-IsLower data-IsLower thin_confidence
      fair_confidence

some_confidence_example :
    IsGiven fixed fixed_laws true
      (calculate_confidence fixed Sector.gym "county" none no_data thin_data)
unfolding coverage_level input_quality
some_confidence_example =
    calculate_confidence-IsGiven fixed fixed_laws Sector.gym "county" none no_data thin_data
