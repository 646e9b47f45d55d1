-- ===== src/Core/Config.antt =====
-- The sectors, categories, weights, penalty rules, thresholds and priors (config/).
use sitescore.Common.{ℕ}
use sitescore.Core.Numbers.{Num}

pub data Sector : Type 0 where
  coffee restaurant gym beauty : Sector

pub data Category : Type 0 where
  demand competition accessibility economics : Category

-- SECTOR_CATEGORY_WEIGHTS in hundredths
abbrev pub weight_of : Sector → Category → ℕ
weight_of Sector.coffee Category.demand = 40
weight_of Sector.coffee Category.competition = 30
weight_of Sector.coffee Category.accessibility = 20
weight_of Sector.coffee Category.economics = 10
weight_of Sector.restaurant Category.demand = 25
weight_of Sector.restaurant Category.competition = 20
weight_of Sector.restaurant Category.accessibility = 30
weight_of Sector.restaurant Category.economics = 25
weight_of Sector.gym Category.demand = 30
weight_of Sector.gym Category.competition = 15
weight_of Sector.gym Category.accessibility = 30
weight_of Sector.gym Category.economics = 25
weight_of Sector.beauty Category.demand = 20
weight_of Sector.beauty Category.competition = 25
weight_of Sector.beauty Category.accessibility = 20
weight_of Sector.beauty Category.economics = 35

-- DEALBREAKERS in hundredths
pub record DealbreakerRule : Type 0 where
  pub threshold : ℕ
  pub max_penalty : ℕ

abbrev pub rule : ℕ → ℕ → DealbreakerRule
rule t m = record { threshold = t; max_penalty = m }

abbrev pub get_rule : Sector → Category → DealbreakerRule
get_rule Sector.coffee Category.demand = rule 3500 45
get_rule Sector.coffee Category.competition = rule 3000 40
get_rule Sector.coffee Category.accessibility = rule 3000 40
get_rule Sector.coffee Category.economics = rule 0 0
get_rule Sector.restaurant Category.demand = rule 3000 35
get_rule Sector.restaurant Category.competition = rule 2000 20
get_rule Sector.restaurant Category.accessibility = rule 2500 30
get_rule Sector.restaurant Category.economics = rule 2500 30
get_rule Sector.gym Category.demand = rule 2500 30
get_rule Sector.gym Category.competition = rule 2000 25
get_rule Sector.gym Category.accessibility = rule 3000 40
get_rule Sector.gym Category.economics = rule 2000 25
get_rule Sector.beauty Category.demand = rule 2000 25
get_rule Sector.beauty Category.competition = rule 2500 35
get_rule Sector.beauty Category.accessibility = rule 2000 20
get_rule Sector.beauty Category.economics = rule 3500 45

-- FINANCIAL_PRIORS in hundredths
pub record FinancialPrior : Type 0 where
  pub variable_cost_ratio : ℕ
  pub rent_burden_warning_pct : ℕ

abbrev pub prior_of : Sector → FinancialPrior
prior_of Sector.coffee = record { variable_cost_ratio = 30; rent_burden_warning_pct = 1500 }
prior_of Sector.restaurant = record { variable_cost_ratio = 35; rent_burden_warning_pct = 1200 }
prior_of Sector.gym = record { variable_cost_ratio = 5; rent_burden_warning_pct = 2500 }
prior_of Sector.beauty = record { variable_cost_ratio = 55; rent_burden_warning_pct = 1500 }

module _ (N : Num) where
  abbrev pub location_strong_min : N.F
  location_strong_min = N.hundredths 7500

  abbrev pub location_conditional_min : N.F
  location_conditional_min = N.hundredths 5000

  abbrev pub bec_strong_min : N.F
  bec_strong_min = N.hundredths 150

  abbrev pub bec_thin_min : N.F
  bec_thin_min = N.hundredths 100
