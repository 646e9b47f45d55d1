-- ===== src/Core/Confidence/Course.antt =====
-- When a confidence is given, and its course in what it is made from (engines/confidence.py).
use sitescore.Common.{
  ℕ, ◌≤◌, Bool, true, false, ◌&&◌, is_none, not, ◌≡◌, refl, arith, String, Option, none, some, List,
  [], ◌∷◌,
}
use sitescore.Common.Action.{Result, ok, err, Error}
use sitescore.Core.Numbers.{Num, Laws}
use sitescore.Core.Config.{Sector}
use sitescore.Core.Confidence.{
  Dict, ℤ, coverage_level, input_quality, or_missing, category_weights, input_weights,
  ConfidenceResult, geographic_precision_score, data_vintage_score, weigh, weigh_all,
  data_coverage_score, input_completeness_score, overall, confidence_result, calculate_confidence,
}

-- Where two dictionaries have known levels, the second one's scores no less.
unfoldable pub IsLower : (String → Option ℕ) → Dict → Dict → Type 0
IsLower score d e =
    (name : String) (m n : ℕ)
    → score (or_missing (d name)) ≡ some m
    → score (or_missing (e name)) ≡ some n
    → m ≤ n

-- Whether every level that is looked up is known.
abbrev pub are_known : (String → Option ℕ) → Dict → List (ℕ × String) → Bool
are_known score d [] = true
are_known score d ((w, name) ∷ rest) =
    not (is_none (score (or_missing (d name)))) && are_known score d rest

module _ (N : Num) (laws : Laws N) where
  part_le :
      (w m n : ℕ)
      → m ≤ n
      → N.le (N.mul (N.hundredths w) (N.hundredths m)) (N.mul (N.hundredths w) (N.hundredths n))
        ≡ true
  part_le w m n h =
      laws.mul_le _ _ _ (laws.hundredths_le 0 w (ground arith)) (laws.hundredths_le m n h)

  -- Results in order, as far as both are given.
  InOrder : Result N.F → Result N.F → Type 0
  InOrder r q = (x y : N.F) → r ≡ ok x → q ≡ ok y → N.le x y ≡ true

  ok-InOrder : (t u : N.F) → N.le t u ≡ true → InOrder (ok t) (ok u)
  unfolding InOrder
  ok-InOrder t u h x y e f = ground arith

  weigh-InOrder :
      (e : Error) (w : ℕ) (o p : Option ℕ) (k l : N.F → Result N.F) (t u : N.F)
      → ((m n : ℕ) → o ≡ some m → p ≡ some n → m ≤ n)
      → ((a b : N.F) → N.le a b ≡ true → InOrder (k a) (l b))
      → N.le t u ≡ true
      → InOrder (weigh N e w o k t) (weigh N e w p l u)
  unfolding weigh InOrder
  weigh-InOrder e w none p k l t u f g h x y i j = ground arith
  weigh-InOrder e w (some m) none k l t u f g h x y i j = ground arith
  weigh-InOrder e w (some m) (some n) k l t u f g h x y i j =
      g _ _ (laws.add_le _ _ _ _ h (part_le w m n (f m n refl refl))) x y i j

  weigh_all-InOrder :
      (e : Error) (score : String → Option ℕ) (c d : Dict) (names : List (ℕ × String))
      → IsLower score c d
      → (t u : N.F) → N.le t u ≡ true
      → InOrder (weigh_all N e score c names t) (weigh_all N e score d names u)
  unfolding weigh_all IsLower
  weigh_all-InOrder e score c d [] f t u h = ok-InOrder t u h
  weigh_all-InOrder e score c d ((w, name) ∷ rest) f t u h =
      weigh-InOrder e w _ _ _ _ t u (f name) (weigh_all-InOrder e score c d rest f) h

  overall-le :
      (g g' v v' c c' i i' : N.F)
      → N.le g g' ≡ true
      → N.le v v' ≡ true
      → N.le c c' ≡ true
      → N.le i i' ≡ true
      → N.le (overall N g v c i) (overall N g' v' c' i') ≡ true
  unfolding overall
  overall-le g g' v v' c c' i i' a b d e =
      laws.add_le _ _ _ _
        (laws.add_le _ _ _ _ (laws.add_le _ _ _ _ (scaled 30 g g' a) (scaled 20 v v' b))
          (scaled 25 c c' d))
        (scaled 25 i i' e)
    where
      scaled :
          (n : ℕ) (x y : N.F)
          → N.le x y ≡ true
          → N.le (N.mul (N.hundredths n) x) (N.mul (N.hundredths n) y) ≡ true
      scaled n x y h = laws.mul_le _ x y (laws.hundredths_le 0 n (ground arith)) h

  confidence_result-le :
      (g g' v v' : N.F) (c c' i i' : Result N.F) (r r' : ConfidenceResult N)
      → N.le g g' ≡ true
      → N.le v v' ≡ true
      → InOrder c c'
      → InOrder i i'
      → confidence_result N g v c i ≡ ok r
      → confidence_result N g' v' c' i' ≡ ok r'
      → N.le r.overall_score r'.overall_score ≡ true
  unfolding confidence_result InOrder
  confidence_result-le g g' v v' (ok c) (ok c') (ok i) (ok i') r r' a b d e h k =
      let l =
        laws.round6_le _ _
          (overall-le g g' v v' c c' i i' a b (d c c' refl refl) (e i i' refl refl)) in
      ground arith
  confidence_result-le g g' v v' (err x) c' i i' r r' a b d e h k = ground arith
  confidence_result-le g g' v v' (ok c) (err x) i i' r r' a b d e h k = ground arith
  confidence_result-le g g' v v' (ok c) (ok c') (err x) i' r r' a b d e h k = ground arith
  confidence_result-le g g' v v' (ok c) (ok c') (ok i) (err x) r r' a b d e h k = ground arith

  -- A geographic level and an age of the data that score no less, with levels of coverage and
  -- qualities of the inputs that score no less, give no lower overall score.
  pub calculate_confidence-monotone :
      (sector : Sector) (level level' : String) (age age' : Option ℤ) (c c' i i' : Dict)
      (r r' : ConfidenceResult N)
      → N.le (geographic_precision_score N level) (geographic_precision_score N level') ≡ true
      → N.le (data_vintage_score N age) (data_vintage_score N age') ≡ true
      → IsLower coverage_level c c'
      → IsLower input_quality i i'
      → calculate_confidence N sector level age c i ≡ ok r
      → calculate_confidence N sector level' age' c' i' ≡ ok r'
      → N.le r.overall_score r'.overall_score ≡ true
  unfolding calculate_confidence data_coverage_score input_completeness_score
  calculate_confidence-monotone sector level level' age age' c c' i i' r r' a b d e h k =
      confidence_result-le _ _ _ _ _ _ _ _ r r' a b
        (weigh_all-InOrder _ coverage_level c c' (category_weights sector) d _ _ (laws.le_refl _))
        (weigh_all-InOrder _ input_quality i i' input_weights e _ _ (laws.le_refl _)) h k

  -- What is given exactly if all levels are known.
  pub IsGiven : {A : Type 0} → Bool → Result A → Type 0
  IsGiven {A = A} true r = (x : A) × (r ≡ ok x)
  IsGiven {A = A} false r = (e : Error) × (r ≡ err e)

  weigh-IsGiven :
      (e : Error) (w : ℕ) (o : Option ℕ) (k : N.F → Result N.F) (b : Bool)
      → ((u : N.F) → IsGiven b (k u))
      → (t : N.F) → IsGiven (not (is_none o) && b) (weigh N e w o k t)
  unfolding weigh IsGiven
  weigh-IsGiven e w none k b f t = (e, refl)
  weigh-IsGiven e w (some n) k b f t = f _

  weigh_all-IsGiven :
      (e : Error) (score : String → Option ℕ) (d : Dict) (names : List (ℕ × String)) (t : N.F)
      → IsGiven (are_known score d names) (weigh_all N e score d names t)
  unfolding weigh_all IsGiven
  weigh_all-IsGiven e score d [] t = (t, refl)
  weigh_all-IsGiven e score d ((w, name) ∷ rest) t =
      weigh-IsGiven e w (score (or_missing (d name))) _ _ (weigh_all-IsGiven e score d rest) t

  confidence_result-IsGiven :
      (a b : Bool) (g v : N.F) (c i : Result N.F)
      → IsGiven a c
      → IsGiven b i
      → IsGiven (a && b) (confidence_result N g v c i)
  unfolding confidence_result IsGiven
  confidence_result-IsGiven true true g v c i (x, h) (y, k) = rw (h, k) (_, refl)
  confidence_result-IsGiven true false g v c i (x, h) (e, k) = rw (h, k) (e, refl)
  confidence_result-IsGiven false b g v c i (e, h) k = rw h (e, refl)

  -- A confidence is given if every level of coverage and every quality of an input that is looked up
  -- is a known one, and an exception is raised if one of them is not.
  pub calculate_confidence-IsGiven :
      (sector : Sector) (level : String) (age : Option ℤ) (c i : Dict)
      → IsGiven
          (are_known coverage_level c (category_weights sector)
            && are_known input_quality i input_weights)
          (calculate_confidence N sector level age c i)
  unfolding calculate_confidence data_coverage_score input_completeness_score
  calculate_confidence-IsGiven sector level age c i =
      confidence_result-IsGiven _ _ _ _ _ _
        (weigh_all-IsGiven _ coverage_level c (category_weights sector) _)
        (weigh_all-IsGiven _ input_quality i input_weights _)
