-- ===== src/Core/Revenue.antt =====
-- The revenue of a site in three scenarios (engines/revenue.py, schemas/revenue_inputs.py,
-- RevenueScenarios of schemas/financial.py).
pub mod Scenarios
use sitescore.Common.{Bool, ◌&&◌, not, if◌then◌else◌}
use sitescore.Common.Action.{Result, ok, err, value_error, type_error}
use sitescore.Core.Numbers.{Num, zero, one, lt, is_between}
use sitescore.Core.Config.{Sector}

module _ (N : Num) where
  -- A rate for each scenario.
  pub record Rates : Type 0 where
    pub conservative : N.F
    pub base : N.F
    pub optimistic : N.F

  pub record RevenueScenarios : Type 0 where
    pub conservative : N.F
    pub base : N.F
    pub optimistic : N.F

  -- `min(a, b)`
  unfoldable pub minimum : N.F → N.F → N.F
  minimum a b = if lt N b a then b else a

  -- The constructor of RevenueScenarios.
  unfoldable pub revenue_scenarios : N.F → N.F → N.F → Result RevenueScenarios
  unfolding minimum
  revenue_scenarios c b o =
      if lt N (minimum (minimum c b) o) (zero N)
      then err (value_error "Revenue scenarios cannot be negative")
      else if not (N.le c b && N.le b o)
      then err (value_error "Revenue scenarios must satisfy conservative <= base <= optimistic")
      else ok (record { conservative = c; base = b; optimistic = o })

  -- Rates in [0, 1], in their order.
  unfoldable pub are_rates : Rates → Bool
  are_rates r =
      is_between N (zero N) (one N) r.conservative
      && is_between N (zero N) (one N) r.base
      && is_between N (zero N) (one N) r.optimistic
      && N.le r.conservative r.base
      && N.le r.base r.optimistic

  pub record CoffeeRevenueInput : Type 0 where
    pub target_population : N.F
    pub target_rate : N.F
    pub capture_rates : Rates
    pub visit_frequency_per_month : N.F
    pub average_ticket : N.F

  pub record RestaurantRevenueInput : Type 0 where
    pub seats : N.F
    pub turnover_per_day : N.F
    pub utilization : Rates
    pub average_ticket : N.F
    pub operating_days_per_month : N.F

  pub record GymRevenueInput : Type 0 where
    pub target_population : N.F
    pub penetration_rates : Rates
    pub usable_area : N.F
    pub members_per_area_unit : N.F
    pub monthly_membership_fee : N.F

  pub record BeautyRevenueInput : Type 0 where
    pub stations : N.F
    pub operating_hours_per_week : N.F
    pub average_service_duration_hours : N.F
    pub utilization : Rates
    pub average_ticket : N.F

  -- What the constructors of the inputs accept.
  unfoldable pub accepts_coffee : CoffeeRevenueInput → Bool
  unfolding are_rates
  accepts_coffee d =
      not (lt N d.target_population (zero N))
      && is_between N (zero N) (one N) d.target_rate
      && are_rates d.capture_rates
      && not (lt N d.visit_frequency_per_month (zero N))
      && not (N.le d.average_ticket (zero N))

  unfoldable pub accepts_restaurant : RestaurantRevenueInput → Bool
  unfolding are_rates
  accepts_restaurant d =
      not (N.le d.seats (zero N))
      && not (lt N d.turnover_per_day (zero N))
      && are_rates d.utilization
      && not (N.le d.average_ticket (zero N))
      && not (N.le d.operating_days_per_month (zero N))

  unfoldable pub accepts_gym : GymRevenueInput → Bool
  unfolding are_rates
  accepts_gym d =
      not (lt N d.target_population (zero N))
      && are_rates d.penetration_rates
      && not (N.le d.usable_area (zero N))
      && not (N.le d.members_per_area_unit (zero N))
      && not (N.le d.monthly_membership_fee (zero N))

  unfoldable pub accepts_beauty : BeautyRevenueInput → Bool
  unfolding are_rates
  accepts_beauty d =
      not (N.le d.stations (zero N))
      && not (N.le d.operating_hours_per_week (zero N))
      && not (N.le d.average_service_duration_hours (zero N))
      && are_rates d.utilization
      && not (N.le d.average_ticket (zero N))

  -- The `scenario` of each sector at a rate.
  unfoldable pub coffee_scenario : CoffeeRevenueInput → N.F → N.F
  coffee_scenario d capture_rate =
      N.mul
        (N.mul (N.mul (N.mul d.target_population d.target_rate) capture_rate)
          d.visit_frequency_per_month)
        d.average_ticket

  unfoldable pub restaurant_scenario : RestaurantRevenueInput → N.F → N.F
  restaurant_scenario d utilization =
      N.mul (N.mul (N.mul (N.mul d.seats d.turnover_per_day) utilization) d.average_ticket)
        d.operating_days_per_month

  unfoldable pub gym_capacity : GymRevenueInput → N.F
  gym_capacity d = N.mul d.usable_area d.members_per_area_unit

  unfoldable pub gym_scenario : GymRevenueInput → N.F → N.F
  unfolding minimum gym_capacity
  gym_scenario d penetration_rate =
      N.mul (minimum (N.mul d.target_population penetration_rate) (gym_capacity d))
        d.monthly_membership_fee

  unfoldable pub max_weekly_slots : BeautyRevenueInput → N.F
  max_weekly_slots d =
      N.div (N.mul d.stations d.operating_hours_per_week) d.average_service_duration_hours

  unfoldable pub beauty_scenario : BeautyRevenueInput → N.F → N.F
  unfolding max_weekly_slots
  beauty_scenario d utilization =
      N.mul (N.mul (N.mul (max_weekly_slots d) utilization) d.average_ticket) (N.hundredths 433)

  -- `RevenueScenarios(scenario(..), scenario(..), scenario(..))`
  unfoldable pub at_rates : (N.F → N.F) → Rates → Result RevenueScenarios
  unfolding revenue_scenarios
  at_rates scenario r =
      revenue_scenarios (scenario r.conservative) (scenario r.base) (scenario r.optimistic)

  pub data RevenueInput : Type 0 where
    coffee_input : CoffeeRevenueInput → RevenueInput
    restaurant_input : RestaurantRevenueInput → RevenueInput
    gym_input : GymRevenueInput → RevenueInput
    beauty_input : BeautyRevenueInput → RevenueInput

  unfoldable pub calculate_coffee_revenue : CoffeeRevenueInput → Result RevenueScenarios
  unfolding at_rates coffee_scenario
  calculate_coffee_revenue d = at_rates (coffee_scenario d) d.capture_rates

  unfoldable pub calculate_restaurant_revenue : RestaurantRevenueInput → Result RevenueScenarios
  unfolding at_rates restaurant_scenario
  calculate_restaurant_revenue d = at_rates (restaurant_scenario d) d.utilization

  unfoldable pub calculate_gym_revenue : GymRevenueInput → Result RevenueScenarios
  unfolding at_rates gym_scenario
  calculate_gym_revenue d = at_rates (gym_scenario d) d.penetration_rates

  unfoldable pub calculate_beauty_revenue : BeautyRevenueInput → Result RevenueScenarios
  unfolding at_rates beauty_scenario
  calculate_beauty_revenue d = at_rates (beauty_scenario d) d.utilization

  unfoldable pub calculate_revenue : Sector → RevenueInput → Result RevenueScenarios
  unfolding calculate_coffee_revenue calculate_restaurant_revenue calculate_gym_revenue
      calculate_beauty_revenue
  calculate_revenue Sector.coffee (coffee_input d) = calculate_coffee_revenue d
  calculate_revenue Sector.coffee _ = err (type_error "Coffee sector requires CoffeeRevenueInput")
  calculate_revenue Sector.restaurant (restaurant_input d) = calculate_restaurant_revenue d
  calculate_revenue Sector.restaurant _ =
      err (type_error "Restaurant sector requires RestaurantRevenueInput")
  calculate_revenue Sector.gym (gym_input d) = calculate_gym_revenue d
  calculate_revenue Sector.gym _ = err (type_error "Gym sector requires GymRevenueInput")
  calculate_revenue Sector.beauty (beauty_input d) = calculate_beauty_revenue d
  calculate_revenue Sector.beauty _ = err (type_error "Beauty sector requires BeautyRevenueInput")
