-- ===== src/Core/Financial.antt =====
-- The economics of a site (engines/financial.py, engines/costs.py, FinancialResult of
-- schemas/financial.py).
use sitescore.Common.{Bool, true, false, ◌&&◌, not, Option, none, some, if◌then◌else◌}
use sitescore.Common.Action.{Result, ok, err, value_error}
use sitescore.Core.Numbers.{Num, zero, one, hundred, lt, eq}
use sitescore.Core.Config.{Sector, prior_of}
use sitescore.Core.Location.{and_then}
use sitescore.Core.Revenue.{RevenueScenarios, minimum}

pub data RentBurdenSeverity : Type 0 where
  normal elevated severe : RentBurdenSeverity

module _ (N : Num) where
  -- A quotient, or float("inf").
  pub data Ratio : Type 0 where
    infinite : Ratio
    finite : N.F → Ratio

  -- `x <= bound`
  abbrev pub ratio_below : Ratio → N.F → Bool
  ratio_below infinite bound = false
  ratio_below (finite x) bound = N.le x bound

  -- `x >= bound`
  abbrev pub ratio_above : Ratio → N.F → Bool
  ratio_above infinite bound = true
  ratio_above (finite x) bound = N.le bound x

  abbrev pub round_ratio : Ratio → Ratio
  round_ratio infinite = infinite
  round_ratio (finite x) = finite (N.round6 x)

  pub record FinancialResult : Type 0 where
    pub revenue : RevenueScenarios N
    pub variable_cost_base : N.F
    pub contribution_margin_base : N.F
    pub fixed_costs : N.F
    pub operating_profit_base : N.F
    pub break_even_revenue : N.F
    pub bec_base : Ratio
    pub bec_conservative : Ratio
    pub rent_burden_pct : Ratio
    pub rent_burden_severity : RentBurdenSeverity
    pub operating_margin_pct : N.F
    pub break_even_volume : Option N.F
    pub stress_test_failed : Bool

  unfoldable pub calculate_variable_cost : N.F → N.F → Result N.F
  calculate_variable_cost revenue variable_cost_ratio =
      if lt N revenue (zero N)
      then err (value_error "revenue cannot be negative")
      else if not (N.le (zero N) variable_cost_ratio && lt N variable_cost_ratio (one N))
      then err (value_error "variable_cost_ratio must be in [0, 1)")
      else ok (N.mul revenue variable_cost_ratio)

  unfoldable pub calculate_fixed_costs : N.F → N.F → N.F → Result N.F
  unfolding minimum
  calculate_fixed_costs rent fixed_labor fixed_overhead =
      if lt N (minimum N (minimum N rent fixed_labor) fixed_overhead) (zero N)
      then err (value_error "fixed costs cannot be negative")
      else ok (N.add (N.add rent fixed_labor) fixed_overhead)

  unfoldable pub calculate_break_even_revenue : N.F → N.F → Result N.F
  calculate_break_even_revenue fixed_costs contribution_margin_ratio =
      if lt N fixed_costs (zero N)
      then err (value_error "fixed_costs cannot be negative")
      else if not
          (lt N (zero N) contribution_margin_ratio && N.le contribution_margin_ratio (one N))
      then err (value_error "contribution_margin_ratio must be in (0, 1]")
      else ok (N.div fixed_costs contribution_margin_ratio)

  -- `_rent_severity`
  unfoldable pub rent_severity : Ratio → N.F → RentBurdenSeverity
  rent_severity rbi threshold =
      if ratio_below rbi threshold
      then normal
      else if ratio_below rbi (N.mul threshold (N.hundredths 125))
      then elevated
      else severe

  -- Revenue over the break-even revenue.
  unfoldable pub coverage : N.F → N.F → Ratio
  coverage revenue break_even_revenue =
      if eq N break_even_revenue (zero N)
      then infinite
      else finite (N.div revenue break_even_revenue)

  unfoldable pub rent_burden : N.F → N.F → Ratio
  rent_burden rent base =
      if eq N base (zero N) && eq N rent (zero N)
      then finite (zero N)
      else if eq N base (zero N)
      then infinite
      else finite (N.mul (N.div rent base) (hundred N))

  unfoldable pub operating_margin : N.F → N.F → N.F
  operating_margin profit base =
      if eq N base (zero N) then zero N else N.mul (N.div profit base) (hundred N)

  unfoldable pub break_even_volume : N.F → Option N.F → Result (Option N.F)
  break_even_volume break_even_revenue none = ok none
  break_even_volume break_even_revenue (some unit_price) =
      if N.le unit_price (zero N)
      then err (value_error "unit_price must be > 0")
      else ok (some (N.div break_even_revenue unit_price))

  abbrev pub round_volume : Option N.F → Option N.F
  round_volume none = none
  round_volume (some x) = some (N.round6 x)

  -- The result, from what is computed first.
  unfoldable pub financial_result :
      Sector → RevenueScenarios N → N.F → N.F → N.F → N.F → Option N.F → FinancialResult
  unfolding coverage rent_burden rent_severity operating_margin
  financial_result sector revenue rent fixed variable break_even volume =
      let margin = N.sub revenue.base variable in
      let profit = N.sub margin fixed in
      let burden = rent_burden rent revenue.base in
      record {
        revenue = revenue;
        variable_cost_base = N.round6 variable;
        contribution_margin_base = N.round6 margin;
        fixed_costs = N.round6 fixed;
        operating_profit_base = N.round6 profit;
        break_even_revenue = N.round6 break_even;
        bec_base = round_ratio (coverage revenue.base break_even);
        bec_conservative = round_ratio (coverage revenue.conservative break_even);
        rent_burden_pct = round_ratio burden;
        rent_burden_severity =
            rent_severity burden (N.hundredths (prior_of sector).rent_burden_warning_pct);
        operating_margin_pct = N.round6 (operating_margin profit revenue.base);
        break_even_volume = round_volume volume;
        stress_test_failed = not (ratio_above (coverage revenue.conservative break_even) (one N));
      }

  abbrev pub variable_cost_ratio : Sector → N.F
  variable_cost_ratio sector = N.hundredths (prior_of sector).variable_cost_ratio

  -- What follows the break-even revenue.
  unfoldable pub with_break_even :
      Sector → RevenueScenarios N → N.F → Option N.F → N.F → N.F → N.F → Result FinancialResult
  unfolding and_then break_even_volume financial_result
  with_break_even sector revenue rent unit_price fixed variable break_even =
      and_then (break_even_volume break_even unit_price)
        λ volume. ok (financial_result sector revenue rent fixed variable break_even volume)

  -- What follows the variable cost.
  unfoldable pub with_variable_cost :
      Sector → RevenueScenarios N → N.F → Option N.F → N.F → N.F → Result FinancialResult
  unfolding and_then calculate_break_even_revenue with_break_even
  with_variable_cost sector revenue rent unit_price fixed variable =
      and_then (calculate_break_even_revenue fixed (N.sub (one N) (variable_cost_ratio sector)))
        (with_break_even sector revenue rent unit_price fixed variable)

  -- What follows the fixed costs.
  unfoldable pub with_fixed_costs :
      Sector → RevenueScenarios N → N.F → Option N.F → N.F → Result FinancialResult
  unfolding and_then calculate_variable_cost with_variable_cost
  with_fixed_costs sector revenue rent unit_price fixed =
      and_then (calculate_variable_cost revenue.base (variable_cost_ratio sector))
        (with_variable_cost sector revenue rent unit_price fixed)

  unfoldable pub calculate_financial_metrics :
      Sector → RevenueScenarios N → N.F → N.F → N.F → Option N.F → Result FinancialResult
  unfolding and_then calculate_fixed_costs with_fixed_costs
  calculate_financial_metrics sector revenue rent fixed_labor fixed_overhead unit_price =
      and_then (calculate_fixed_costs rent fixed_labor fixed_overhead)
        (with_fixed_costs sector revenue rent unit_price)
