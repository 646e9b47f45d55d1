-- ===== src/Core/Decision/Classes.antt =====
-- The class of a decision, and what the stress test says of its band (engines/decision.py,
-- engines/financial.py).
use sitescore.Common.{true, false, ◌≡◌, ◌≢◌, refl, ap, ◌∙◌, subst, arith, Option}
use sitescore.Common.Action.{Result, ok, err}
use sitescore.Core.Numbers.{Num, Laws, zero, one}
use sitescore.Core.Config.{Sector, bec_thin_min, bec_strong_min}
use sitescore.Core.Location.{StructuralBand, structural_band, LocationResult, and_then}
use sitescore.Core.Revenue.{RevenueScenarios}
use sitescore.Core.Financial.{
  FinancialResult, Ratio, infinite, finite, ratio_above, round_ratio, coverage, financial_result,
  calculate_financial_metrics, calculate_break_even_revenue, calculate_fixed_costs,
  calculate_variable_cost, break_even_volume, variable_cost_ratio, with_break_even,
  with_variable_cost, with_fixed_costs,
}
use sitescore.Core.Decision.{
  DecisionClass, FinancialBand, financial_band, decision_class, calculate_decision,
}

-- The class for a band of the location and a band of the economics.
unfoldable pub class_of : StructuralBand → FinancialBand → DecisionClass
class_of StructuralBand.strong FinancialBand.strong = DecisionClass.prime_opportunity
class_of StructuralBand.strong FinancialBand.thin = DecisionClass.strong_site_thin_economics
class_of StructuralBand.strong FinancialBand.non_viable = DecisionClass.tourist_trap
class_of StructuralBand.conditional FinancialBand.strong = DecisionClass.hidden_gem
class_of StructuralBand.conditional FinancialBand.thin = DecisionClass.conditional_site
class_of StructuralBand.conditional FinancialBand.non_viable =
    DecisionClass.weak_site_weak_economics
class_of StructuralBand.weak FinancialBand.non_viable = DecisionClass.dead_end
class_of StructuralBand.weak _ = DecisionClass.structural_risk

module _ (N : Num) (laws : Laws N) where
  -- Above the strong minimum a ratio is above the thin one too.
  strong_is_thin :
      (r : Ratio N)
      → ratio_above N r (bec_strong_min N) ≡ true
      → ratio_above N r (bec_thin_min N) ≡ true
  strong_is_thin infinite h = refl
  strong_is_thin (finite x) h =
      laws.le_trans (bec_thin_min N) (bec_strong_min N) x
        (laws.hundredths_le 100 150 (ground arith)) h

  -- The class of a decision is the one for the band of the reported final score of the location and
  -- the band of the economics.
  pub calculate_decision-class :
      (l : LocationResult N) (f : FinancialResult N)
      → (calculate_decision N l f).decision_class
        ≡ class_of (structural_band N l.final_score) (calculate_decision N l f).financial_band
  unfolding calculate_decision decision_class financial_band structural_band class_of
  calculate_decision-class l f = ground (arith, strong_is_thin f.bec_base)

  -- The break-even coverage of the base scenario is no lower than that of the conservative one.
  module _ (conservative base break_even : N.F) (rising : N.le conservative base ≡ true)
      (be : N.le (zero N) break_even ≡ true) where
    coverage_rises :
        ratio_above N (coverage N conservative break_even) (one N) ≡ true
        → ratio_above N (coverage N base break_even) (one N) ≡ true
    unfolding coverage
    coverage_rises h = ground (
      arith,
      laws.less_le (zero N) break_even,
      laws.div_le conservative base break_even,
      laws.le_trans (one N) (N.div conservative break_even) (N.div base break_even),
    )

  rounded_above :
      (r : Ratio N)
      → ratio_above N r (one N) ≡ true
      → ratio_above N (round_ratio N r) (one N) ≡ true
  rounded_above infinite h = refl
  rounded_above (finite x) h =
      subst (λ y. N.le y (N.round6 x) ≡ true) (laws.round6_hundredths 100)
        (laws.round6_le (one N) x h)

  viable :
      (r : Ratio N) → ratio_above N r (one N) ≡ true → financial_band N r ≢ FinancialBand.non_viable
  unfolding financial_band
  viable r h e = ground arith

  -- What `and_then` gives comes from both.
  from_both :
      {A B : Type 0} (x : Result A) (f : A → Result B) (b : B)
      → and_then x f ≡ ok b
      → (a : A) × ((x ≡ ok a) × (f a ≡ ok b))
  unfolding and_then
  from_both (ok a) f b h = (a, (refl, h))
  from_both (err e) f b h = ground arith

  ok_injective : {A : Type 0} (a b : A) → ok a ≡ ok b → a ≡ b
  ok_injective a b h = ground arith

  quotient :
      (fixed cmr be : N.F) → calculate_break_even_revenue N fixed cmr ≡ ok be → N.div fixed cmr ≡ be
  unfolding calculate_break_even_revenue
  quotient fixed cmr be h = ground arith

  break_even_pos :
      (fixed cmr be : N.F)
      → calculate_break_even_revenue N fixed cmr ≡ ok be
      → N.le (zero N) be ≡ true
  unfolding calculate_break_even_revenue
  break_even_pos fixed cmr be h =
      subst (λ x. N.le (zero N) x ≡ true) (quotient fixed cmr be h)
        (laws.div_pos fixed cmr (ground arith) (ground (arith, laws.less_le fixed (zero N))))

  result_passed :
      (sector : Sector) (revenue : RevenueScenarios N) (rent fixed variable break_even : N.F)
      (volume : Option N.F)
      → N.le revenue.conservative revenue.base ≡ true
      → N.le (zero N) break_even ≡ true
      → (financial_result N sector revenue rent fixed variable break_even volume).stress_test_failed
        ≡ false
      → financial_band N
          (financial_result N sector revenue rent fixed variable break_even volume).bec_base
        ≢ FinancialBand.non_viable
  unfolding financial_result
  result_passed sector revenue rent fixed variable break_even volume rising be passed =
      viable (round_ratio N (coverage N revenue.base break_even)) (
        rounded_above (coverage N revenue.base break_even)
          (coverage_rises revenue.conservative revenue.base break_even rising be (ground arith)))

  -- Where the stress test of the economics is passed, the decision finds them at least thin.
  pub calculate_decision-passed :
      (sector : Sector) (revenue : RevenueScenarios N) (rent labor overhead : N.F)
      (unit_price : Option N.F) (l : LocationResult N) (f : FinancialResult N)
      → N.le revenue.conservative revenue.base ≡ true
      → calculate_financial_metrics N sector revenue rent labor overhead unit_price ≡ ok f
      → f.stress_test_failed ≡ false
      → (calculate_decision N l f).financial_band ≢ FinancialBand.non_viable
  unfolding calculate_financial_metrics with_fixed_costs with_variable_cost with_break_even
      calculate_decision
  calculate_decision-passed sector revenue rent labor overhead unit_price l f rising h passed =
      let (fixed, (_, h₁)) =
        from_both (calculate_fixed_costs N rent labor overhead)
          (with_fixed_costs N sector revenue rent unit_price) f h in
      let (variable, (_, h₂)) =
        from_both (calculate_variable_cost N revenue.base (variable_cost_ratio N sector))
          (with_variable_cost N sector revenue rent unit_price fixed) f h₁ in
      let cmr = N.sub (one N) (variable_cost_ratio N sector) in
      let (break_even, (q, h₃)) =
        from_both (calculate_break_even_revenue N fixed cmr)
          (with_break_even N sector revenue rent unit_price fixed variable) f h₂ in
      let (volume, (_, h₄)) =
        from_both (break_even_volume N break_even unit_price)
          (λ volume. ok (financial_result N sector revenue rent fixed variable break_even volume)) f
          h₃ in
      let same =
        ok_injective (financial_result N sector revenue rent fixed variable break_even volume) f
          h₄ in
      subst (λ x. financial_band N x.bec_base ≢ FinancialBand.non_viable) same
        (result_passed sector revenue rent fixed variable break_even volume rising
          (break_even_pos fixed cmr break_even q)
          (ap (λ (x : FinancialResult N). x.stress_test_failed) same ∙ passed))
