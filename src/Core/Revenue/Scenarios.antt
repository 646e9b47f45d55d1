-- ===== src/Core/Revenue/Scenarios.antt =====
-- The scenarios of the inputs that are accepted (engines/revenue.py).
use sitescore.Common.{true, false, ◌≡◌, arith}
use sitescore.Common.Action.{Result, ok}
use sitescore.Core.Numbers.{Num, Laws, zero, lt}
use sitescore.Core.Config.{Sector}
use sitescore.Core.Revenue.{
  Rates, RevenueScenarios, minimum, revenue_scenarios, are_rates, CoffeeRevenueInput,
  RestaurantRevenueInput, GymRevenueInput, BeautyRevenueInput, accepts_coffee, accepts_restaurant,
  accepts_gym, accepts_beauty, coffee_scenario, restaurant_scenario, gym_capacity, gym_scenario,
  max_weekly_slots, beauty_scenario, at_rates, RevenueInput, coffee_input, restaurant_input,
  gym_input, beauty_input, calculate_coffee_revenue, calculate_restaurant_revenue,
  calculate_gym_revenue, calculate_beauty_revenue, calculate_revenue,
}

module _ (N : Num) (laws : Laws N) where
  -- Not negative and not falling.
  record IsRising (f : N.F → N.F) : Type 0 where
    pos : (a : N.F) → N.le (zero N) a ≡ true → N.le (zero N) (f a) ≡ true
    rising : (a b : N.F) → N.le (zero N) a ≡ true → N.le a b ≡ true → N.le (f a) (f b) ≡ true

  positive : (a : N.F) → N.le a (zero N) ≡ false → N.le (zero N) a ≡ true
  positive a h = ground (arith, laws.le_total (zero N) a)

  not_negative : (a : N.F) → lt N a (zero N) ≡ false → N.le (zero N) a ≡ true
  not_negative a h = ground (arith, laws.less_le a (zero N))

  above : (a : N.F) → N.le a (zero N) ≡ false → lt N (zero N) a ≡ true
  above a h = ground (arith, laws.less_le (zero N) a)

  -- A rate times what is not negative, before or after.
  scaled-IsRising : (c : N.F) → N.le (zero N) c ≡ true → IsRising (N.mul c)
  scaled-IsRising c h = record {
    pos = λ a p. laws.mul_pos c a h p;
    rising = λ a b p q. laws.mul_le c a b h q;
  }

  times-IsRising :
      (f : N.F → N.F) (c : N.F)
      → IsRising f
      → N.le (zero N) c ≡ true
      → IsRising (λ a. N.mul (f a) c)
  times-IsRising f c i h = record {
    pos = λ a p. laws.mul_pos (f a) c (i.pos a p) h;
    rising = λ a b p q. laws.mul_le_left c (f a) (f b) h (i.rising a b p q);
  }

  minimum_pos :
      (a c : N.F)
      → N.le (zero N) a ≡ true
      → N.le (zero N) c ≡ true
      → N.le (zero N) (minimum N a c) ≡ true
  unfolding minimum
  minimum_pos a c h g = ground arith

  minimum_le : (a b c : N.F) → N.le a b ≡ true → N.le (minimum N a c) (minimum N b c) ≡ true
  unfolding minimum
  minimum_le a b c h = ground (
    arith,
    laws.le_trans c a b,
    laws.le_refl c,
    laws.le_total a c,
    laws.le_total c b,
    laws.less_le c a,
    laws.less_le c b,
  )

  capped-IsRising :
      (f : N.F → N.F) (c : N.F)
      → IsRising f
      → N.le (zero N) c ≡ true
      → IsRising (λ a. minimum N (f a) c)
  capped-IsRising f c i h = record {
    pos = λ a p. minimum_pos (f a) c (i.pos a p) h;
    rising = λ a b p q. minimum_le (f a) (f b) c (i.rising a b p q);
  }

  -- Scenarios in their order are accepted.
  ordered_accepted :
      (c b o : N.F)
      → N.le (zero N) c ≡ true
      → N.le c b ≡ true
      → N.le b o ≡ true
      → revenue_scenarios N c b o ≡ ok (record { conservative = c; base = b; optimistic = o })
  unfolding revenue_scenarios minimum
  ordered_accepted c b o p q r = ground (
    arith,
    laws.le_trans (zero N) c b,
    laws.le_trans (zero N) b o,
    laws.less_le b c,
    laws.less_le o c,
    laws.less_le o b,
    laws.less_le c (zero N),
    laws.less_le b (zero N),
    laws.less_le o (zero N),
  )

  -- The scenarios at rates.
  abbrev pub scenarios_at : (N.F → N.F) → Rates N → RevenueScenarios N
  scenarios_at f r = record {
    conservative = f r.conservative;
    base = f r.base;
    optimistic = f r.optimistic;
  }

  at_rates-answers :
      (f : N.F → N.F) (r : Rates N)
      → IsRising f
      → are_rates N r ≡ true
      → at_rates N f r ≡ ok (scenarios_at f r)
  unfolding at_rates are_rates
  at_rates-answers f r i h =
      ordered_accepted _ _ _ (i.pos r.conservative (ground arith))
        (i.rising r.conservative r.base (ground arith) (ground arith))
        (i.rising r.base r.optimistic (ground arith) (ground arith))

  coffee-IsRising :
      (d : CoffeeRevenueInput N) → accepts_coffee N d ≡ true → IsRising (coffee_scenario N d)
  unfolding coffee_scenario accepts_coffee
  coffee-IsRising d h =
      times-IsRising _ d.average_ticket
        (times-IsRising _ d.visit_frequency_per_month
          (scaled-IsRising _ (
            laws.mul_pos d.target_population d.target_rate
              (not_negative d.target_population (ground arith)) (ground arith)))
          (not_negative d.visit_frequency_per_month (ground arith)))
        (positive d.average_ticket (ground arith))

  restaurant-IsRising :
      (d : RestaurantRevenueInput N)
      → accepts_restaurant N d ≡ true
      → IsRising (restaurant_scenario N d)
  unfolding restaurant_scenario accepts_restaurant
  restaurant-IsRising d h =
      times-IsRising _ d.operating_days_per_month
        (times-IsRising _ d.average_ticket
          (scaled-IsRising _ (
            laws.mul_pos d.seats d.turnover_per_day (positive d.seats (ground arith))
              (not_negative d.turnover_per_day (ground arith))))
          (positive d.average_ticket (ground arith)))
        (positive d.operating_days_per_month (ground arith))

  capacity_pos :
      (d : GymRevenueInput N) → accepts_gym N d ≡ true → N.le (zero N) (gym_capacity N d) ≡ true
  unfolding accepts_gym gym_capacity
  capacity_pos d h =
      laws.mul_pos d.usable_area d.members_per_area_unit (positive d.usable_area (ground arith))
        (positive d.members_per_area_unit (ground arith))

  gym-IsRising : (d : GymRevenueInput N) → accepts_gym N d ≡ true → IsRising (gym_scenario N d)
  unfolding gym_scenario accepts_gym
  gym-IsRising d h =
      times-IsRising _ d.monthly_membership_fee
        (capped-IsRising (N.mul d.target_population) (gym_capacity N d)
          (scaled-IsRising d.target_population (not_negative d.target_population (ground arith)))
          (capacity_pos d h))
        (positive d.monthly_membership_fee (ground arith))

  beauty-IsRising :
      (d : BeautyRevenueInput N) → accepts_beauty N d ≡ true → IsRising (beauty_scenario N d)
  unfolding beauty_scenario accepts_beauty max_weekly_slots
  beauty-IsRising d h =
      times-IsRising _ (N.hundredths 433)
        (times-IsRising _ d.average_ticket
          (scaled-IsRising _ (
            laws.div_pos _ d.average_service_duration_hours
              (above d.average_service_duration_hours (ground arith))
              (laws.mul_pos d.stations d.operating_hours_per_week
                (positive d.stations (ground arith))
                (positive d.operating_hours_per_week (ground arith)))))
          (positive d.average_ticket (ground arith)))
        (laws.hundredths_le 0 433 (ground arith))

  coffee_rates :
      (d : CoffeeRevenueInput N) → accepts_coffee N d ≡ true → are_rates N d.capture_rates ≡ true
  unfolding accepts_coffee
  coffee_rates d h = ground arith

  restaurant_rates :
      (d : RestaurantRevenueInput N)
      → accepts_restaurant N d ≡ true
      → are_rates N d.utilization ≡ true
  unfolding accepts_restaurant
  restaurant_rates d h = ground arith

  gym_rates :
      (d : GymRevenueInput N) → accepts_gym N d ≡ true → are_rates N d.penetration_rates ≡ true
  unfolding accepts_gym
  gym_rates d h = ground arith

  beauty_rates :
      (d : BeautyRevenueInput N) → accepts_beauty N d ≡ true → are_rates N d.utilization ≡ true
  unfolding accepts_beauty
  beauty_rates d h = ground arith

  -- An input with the sector that it is for.
  pub data Accepted : Sector → RevenueInput N → Type 0 where
    coffee :
        {d : CoffeeRevenueInput N}
        → accepts_coffee N d ≡ true
        → Accepted Sector.coffee (coffee_input d)
    restaurant :
        {d : RestaurantRevenueInput N}
        → accepts_restaurant N d ≡ true
        → Accepted Sector.restaurant (restaurant_input d)
    gym : {d : GymRevenueInput N} → accepts_gym N d ≡ true → Accepted Sector.gym (gym_input d)
    beauty :
        {d : BeautyRevenueInput N}
        → accepts_beauty N d ≡ true
        → Accepted Sector.beauty (beauty_input d)

  -- Revenues that are given, not negative and in their order.
  pub HasScenarios : Result (RevenueScenarios N) → Type 0
  HasScenarios o =
      (r : RevenueScenarios N) × ((o ≡ ok r)
        × ((N.le (zero N) r.conservative ≡ true)
            × ((N.le r.conservative r.base ≡ true) × (N.le r.base r.optimistic ≡ true))))

  rising-HasScenarios :
      (f : N.F → N.F) (r : Rates N)
      → IsRising f
      → are_rates N r ≡ true
      → HasScenarios (at_rates N f r)
  unfolding HasScenarios are_rates
  rising-HasScenarios f r i h = (
    scenarios_at f r,
    (
      at_rates-answers f r i h,
      (
        i.pos r.conservative (ground arith),
        (
          i.rising r.conservative r.base (ground arith) (ground arith),
          i.rising r.base r.optimistic (ground arith) (ground arith),
        ),
      ),
    ),
  )

  -- In numbers that satisfy the laws, so without NaN, infinities and overflow: an input that its
  -- constructor accepts, for its own sector, has revenues that are accepted in turn, which are not
  -- negative and rise from the conservative to the optimistic scenario.
  pub calculate_revenue-HasScenarios :
      (sector : Sector) (d : RevenueInput N)
      → Accepted sector d
      → HasScenarios (calculate_revenue N sector d)
  unfolding calculate_revenue calculate_coffee_revenue calculate_restaurant_revenue
      calculate_gym_revenue calculate_beauty_revenue
  calculate_revenue-HasScenarios _ _ (coffee {d} h) =
      rising-HasScenarios (coffee_scenario N d) d.capture_rates (coffee-IsRising d h)
        (coffee_rates d h)
  calculate_revenue-HasScenarios _ _ (restaurant {d} h) =
      rising-HasScenarios (restaurant_scenario N d) d.utilization (restaurant-IsRising d h)
        (restaurant_rates d h)
  calculate_revenue-HasScenarios _ _ (gym {d} h) =
      rising-HasScenarios (gym_scenario N d) d.penetration_rates (gym-IsRising d h) (gym_rates d h)
  calculate_revenue-HasScenarios _ _ (beauty {d} h) =
      rising-HasScenarios (beauty_scenario N d) d.utilization (beauty-IsRising d h)
        (beauty_rates d h)
