-- ===== src/Core/Penalty.antt =====
-- The penalty for a category score below its threshold (engines/penalty.py).
pub mod Bounds
use sitescore.Common.{Bool, ◌||◌, not, if◌then◌else◌}
use sitescore.Common.Action.{Result, ok, err, value_error}
use sitescore.Core.Numbers.{Num, zero, one, hundred, lt, eq, is_between}

module _ (N : Num) where
  -- Of a score below a threshold that is not zero.
  unfoldable pub deficit_penalty : N.F → N.F → N.F → N.F
  deficit_penalty score threshold max_penalty =
      N.sub (one N) (N.mul max_penalty (N.square (N.div (N.sub threshold score) threshold)))

  -- The value of `calculate_penalty`, once its arguments have been checked.
  unfoldable pub penalty : N.F → N.F → N.F → N.F
  unfolding deficit_penalty
  penalty score threshold max_penalty =
      if eq N threshold (zero N) || N.le threshold score
      then one N
      else deficit_penalty score threshold max_penalty

  unfoldable pub calculate_penalty : N.F → N.F → N.F → Result N.F
  unfolding penalty
  calculate_penalty score threshold max_penalty =
      if not (is_between N (zero N) (hundred N) score)
      then err (value_error "score must be in [0, 100]")
      else if lt N threshold (zero N)
      then err (value_error "threshold cannot be negative")
      else if not (is_between N (zero N) (one N) max_penalty)
      then err (value_error "max_penalty must be in [0, 1]")
      else ok (penalty score threshold max_penalty)
