-- ===== src/Core/Confidence.antt =====
-- The confidence in an analysis (engines/confidence.py, config/confidence_rules.py). Literals are in
-- hundredths, a dictionary is the function `get`, and an error does not keep the name of the level.
pub mod Course
use sitescore.Common.{
  ℕ, leb, ◌==◌, nat_eq, Eq, String, str_eq, Option, none, some, List, [], ◌∷◌, if◌then◌else◌,
}
use sitescore.Common.Action.{Result, ok, err, Error, value_error}
use sitescore.Core.Numbers.{Num, zero}
use sitescore.Core.Config.{Sector, Category, weight_of}

abbrev pub Dict : Type 0
Dict = String → Option String

pub data ℤ : Type 0 where
  pos negsuc : ℕ → ℤ

pub data ConfidenceLabel : Type 0 where
  high moderate limited low : ConfidenceLabel

-- GEOGRAPHIC_PRECISION_SCORES
abbrev pub geographic_score : String → ℕ
geographic_score level =
    if str_eq level "block_group"
    then 10000
    else if str_eq level "tract"
    then 7500
    else if str_eq level "zcta"
    then 5000
    else if str_eq level "county"
    then 2500
    else 0

-- DATA_VINTAGE_SCORES, and 30 from five years on
abbrev pub vintage_score : ℕ → ℕ
vintage_score age =
    if leb 5 age
    then 3000
    else if leb age 1
    then 10000
    else if age == 2
    then 9000
    else if age == 3
    then 7500
    else 5500

-- DATA_COVERAGE_LEVELS
unfoldable pub coverage_level : String → Option ℕ
coverage_level level =
    if str_eq level "full"
    then some 10000
    else if str_eq level "degraded"
    then some 6000
    else if str_eq level "missing"
    then some 0
    else none

-- INPUT_QUALITY_SCORES
unfoldable pub input_quality : String → Option ℕ
input_quality quality =
    if str_eq quality "user"
    then some 10000
    else if str_eq quality "default"
    then some 5000
    else if str_eq quality "missing"
    then some 0
    else none

-- `get(name, "missing")`
abbrev pub or_missing : Option String → String
or_missing none = "missing"
or_missing (some level) = level

-- The categories, by their values, with their weights.
abbrev pub category_weights : Sector → List (ℕ × String)
category_weights sector =
    (weight_of sector Category.demand, "demand")
    ∷ (weight_of sector Category.competition, "competition")
    ∷ (weight_of sector Category.accessibility, "accessibility")
    ∷ (weight_of sector Category.economics, "economics")
    ∷ []

-- INPUT_WEIGHTS
abbrev pub input_weights : List (ℕ × String)
input_weights = (30, "rent") ∷ (30, "price") ∷ (25, "capacity") ∷ (15, "schedule") ∷ []

module _ (N : Num) where
  pub record ConfidenceResult : Type 0 where
    pub overall_score : N.F
    pub label : ConfidenceLabel
    pub geographic_precision : N.F
    pub data_vintage : N.F
    pub data_coverage : N.F
    pub input_completeness : N.F

  unfoldable pub geographic_precision_score : String → N.F
  geographic_precision_score level = N.hundredths (geographic_score level)

  unfoldable pub data_vintage_score : Option ℤ → N.F
  data_vintage_score none = zero N
  data_vintage_score (some (ℤ.negsuc _)) = zero N
  data_vintage_score (some (ℤ.pos n)) = N.hundredths (vintage_score n)

  -- One turn of the loops: an unknown level raises, another one is weighed.
  unfoldable pub weigh : Error → ℕ → Option ℕ → (N.F → Result N.F) → N.F → Result N.F
  weigh e w none k total = err e
  weigh e w (some n) k total = k (N.add total (N.mul (N.hundredths w) (N.hundredths n)))

  unfoldable pub weigh_all :
      Error → (String → Option ℕ) → Dict → List (ℕ × String) → N.F → Result N.F
  unfolding weigh
  weigh_all e score d [] total = ok total
  weigh_all e score d ((w, name) ∷ rest) total =
      weigh e w (score (or_missing (d name))) (weigh_all e score d rest) total

  unfoldable pub data_coverage_score : Sector → Dict → Result N.F
  unfolding weigh_all
  data_coverage_score sector coverage =
      weigh_all (value_error "Unknown coverage level") coverage_level coverage
        (category_weights sector) (zero N)

  unfoldable pub input_completeness_score : Dict → Result N.F
  unfolding weigh_all
  input_completeness_score qualities =
      weigh_all (value_error "Unknown input quality") input_quality qualities input_weights (zero N)

  -- `_label`
  unfoldable pub label : N.F → ConfidenceLabel
  label score =
      if N.le (N.hundredths 8500) score
      then ConfidenceLabel.high
      else if N.le (N.hundredths 7000) score
      then ConfidenceLabel.moderate
      else if N.le (N.hundredths 5000) score
      then ConfidenceLabel.limited
      else ConfidenceLabel.low

  unfoldable pub overall : N.F → N.F → N.F → N.F → N.F
  overall g v c i =
      N.add
        (N.add (N.add (N.mul (N.hundredths 30) g) (N.mul (N.hundredths 20) v))
          (N.mul (N.hundredths 25) c))
        (N.mul (N.hundredths 25) i)

  unfoldable pub confidence_result : N.F → N.F → Result N.F → Result N.F → Result ConfidenceResult
  unfolding overall label
  confidence_result g v (err e) i = err e
  confidence_result g v (ok c) (err e) = err e
  confidence_result g v (ok c) (ok i) = ok (record {
    overall_score = N.round6 (overall g v c i);
    label = label (overall g v c i);
    geographic_precision = g;
    data_vintage = v;
    data_coverage = N.round6 c;
    input_completeness = N.round6 i;
  })

  unfoldable pub calculate_confidence :
      Sector → String → Option ℤ → Dict → Dict → Result ConfidenceResult
  unfolding confidence_result
  calculate_confidence sector geographic_level data_age_years coverage input_qualities =
      confidence_result (geographic_precision_score geographic_level)
        (data_vintage_score data_age_years) (data_coverage_score sector coverage)
        (input_completeness_score input_qualities)
