-- ===== src/Core/Decision.antt =====
-- The decision on a site (engines/decision.py, schemas/decision.py).
pub mod Classes
use sitescore.Common.{Bool, true, false, String, List, [], ◌∷◌, ◌++◌, if◌then◌else◌}
use sitescore.Core.Numbers.{Num, zero, lt}
use sitescore.Core.Config.{
  location_strong_min, location_conditional_min, bec_strong_min, bec_thin_min,
}
use sitescore.Core.Location.{StructuralBand, LocationResult}
use sitescore.Core.Financial.{FinancialResult, Ratio, ratio_above, RentBurdenSeverity}

pub data DecisionClass : Type 0 where
  prime_opportunity strong_site_thin_economics tourist_trap hidden_gem : DecisionClass
  conditional_site weak_site_weak_economics structural_risk dead_end : DecisionClass

pub data FinancialBand : Type 0 where
  strong thin non_viable : FinancialBand

pub data RiskFlag : Type 0 where
  high_rent_burden severe_rent_burden stress_test_failed : RiskFlag
  negative_base_operating_margin : RiskFlag

pub record DecisionResult : Type 0 where
  pub decision_class : DecisionClass
  pub structural_band : StructuralBand
  pub financial_band : FinancialBand
  pub headline : String
  pub risk_flags : List RiskFlag

abbrev pub headline_of : DecisionClass → String
headline_of prime_opportunity = "Strong Location / Strong Economics"
headline_of strong_site_thin_economics = "Strong Location / Thin Economics"
headline_of tourist_trap = "Strong Location / Toxic Economics"
headline_of hidden_gem = "Conditional Location / Strong Economics"
headline_of conditional_site = "Conditional Location / Thin Economics"
headline_of weak_site_weak_economics = "Conditional Location / Weak Economics"
headline_of structural_risk = "Weak Location / Financially Viable"
headline_of dead_end = "Weak Location / Weak Economics"

module _ (N : Num) where
  -- `_financial_band`
  unfoldable pub financial_band : Ratio N → FinancialBand
  financial_band bec =
      if ratio_above N bec (bec_strong_min N)
      then strong
      else if ratio_above N bec (bec_thin_min N)
      then thin
      else non_viable

  unfoldable pub decision_class : N.F → Ratio N → DecisionClass
  decision_class score bec =
      if N.le (location_strong_min N) score
      then if ratio_above N bec (bec_strong_min N)
        then prime_opportunity
        else if ratio_above N bec (bec_thin_min N)
        then strong_site_thin_economics
        else tourist_trap
      else if N.le (location_conditional_min N) score
      then if ratio_above N bec (bec_strong_min N)
        then hidden_gem
        else if ratio_above N bec (bec_thin_min N)
        then conditional_site
        else weak_site_weak_economics
      else if ratio_above N bec (bec_thin_min N)
      then structural_risk
      else dead_end

  abbrev pub rent_flags : RentBurdenSeverity → List RiskFlag
  rent_flags RentBurdenSeverity.elevated = high_rent_burden ∷ []
  rent_flags RentBurdenSeverity.severe = severe_rent_burden ∷ []
  rent_flags RentBurdenSeverity.normal = []

  abbrev pub flag_if : Bool → RiskFlag → List RiskFlag
  flag_if true f = f ∷ []
  flag_if false f = []

  unfoldable pub risk_flags : FinancialResult N → List RiskFlag
  risk_flags f =
      rent_flags f.rent_burden_severity
      ++ flag_if f.stress_test_failed stress_test_failed
      ++ flag_if (lt N f.operating_margin_pct (zero N)) negative_base_operating_margin

  unfoldable pub calculate_decision : LocationResult N → FinancialResult N → DecisionResult
  unfolding decision_class financial_band risk_flags
  calculate_decision location financial =
      let c = decision_class location.final_score financial.bec_base in
      record {
        decision_class = c;
        structural_band = location.structural_band;
        financial_band = financial_band financial.bec_base;
        headline = headline_of c;
        risk_flags = risk_flags financial;
      }
