-- ===== src/Api/Sound.antt =====
-- Soundness of the row of an analysis: the check constraints of its table (db_models.py) and what
-- its end states carry, under every operation of the service (lifecycle.py, worker.py).
use sitescore.Common.{ℕ, ◌<◌, Bool, true, false, not, none, some, is_none, ◌≡◌, ◌⊎◌, arith}
use sitescore.Common.Action.{calls}
use sitescore.Commerce.Rows.{Json}
use sitescore.Api.Rows.{AnalysisRow, PublicState, is_terminal, is_completed}
use sitescore.Api.Row.{
  persist_not_score_ready, persist_completed, complete, mark_success,
  record_canonical_success_boundary, start, fail, end_not_score_ready, end_completed, expire,
}

pub record IsSound (r : AnalysisRow) : Type 0 where
  -- ck_not_score_ready_no_scored_result, and no other state but `completed` has a result
  pub unscored : is_completed r.state ≡ false → r.result_body ≡ none
  -- ck_nonterminal_not_finished, and its converse
  pub unfinished : is_none r.finished_at ≡ not (is_terminal r.state)
  -- ck_canonical_success_before_deadline
  pub early : (t : ℕ) → r.canonical_success_at ≡ some t → t < r.deadline_at
  -- ck_canonical_success_state
  pub marked :
      (r.canonical_success_at ≡ none)
      ⊎ ((r.state ≡ PublicState.running) ⊎ (r.state ≡ PublicState.completed))
  pub scored :
      is_completed r.state ≡ true
      → (is_none r.result_body ≡ false)
        × ((r.failure_code ≡ none) × (is_none r.canonical_success_at ≡ false))
  pub timeout : r.state ≡ PublicState.timed_out → r.failure_code ≡ some "analysis_deadline_exceeded"

module _ (now : ℕ) (row : AnalysisRow) (i : IsSound row) where
  pub expire-IsSound : (authority : Bool) → IsSound (expire now authority row)
  unfolding expire
  expire-IsSound authority = record {
    unscored = ground (arith, i.unscored);
    unfinished = ground (arith, i.unfinished);
    early = λ t h. ground (arith, i.early t);
    marked = ground (arith, i.marked, i.unfinished);
    scored = ground (arith, i.scored);
    timeout = ground (arith, i.timeout);
  }

  pub fail-IsSound : IsSound (fail now row).1
  unfolding fail
  fail-IsSound = record {
    unscored = ground (arith, i.unscored);
    unfinished = ground (arith, i.unfinished);
    early = λ t h. ground (arith, i.early t);
    marked = ground (arith, i.marked, i.unfinished);
    scored = ground (arith, i.scored);
    timeout = ground (arith, i.timeout);
  }

  pub persist_not_score_ready-IsSound :
      (readiness_projection : Json)
      → IsSound (persist_not_score_ready now readiness_projection row).1
  unfolding persist_not_score_ready calls
  persist_not_score_ready-IsSound readiness_projection = record {
    unscored = ground (arith, i.unscored);
    unfinished = ground (arith, i.unfinished);
    early = λ t h. ground (arith, i.early t);
    marked = ground (arith, i.marked, i.unfinished);
    scored = ground (arith, i.scored);
    timeout = ground (arith, i.timeout);
  }

  pub persist_completed-IsSound :
      (result_body : Json) → IsSound (persist_completed now result_body row).1
  unfolding persist_completed complete
  persist_completed-IsSound result_body = record {
    unscored = ground (arith, i.unscored);
    unfinished = ground (arith, i.unfinished);
    early = λ t h. ground (arith, i.early t);
    marked = ground (arith, i.marked, i.unfinished);
    scored = ground (arith, i.scored);
    timeout = ground (arith, i.timeout);
  }

  pub boundary-IsSound : IsSound (record_canonical_success_boundary now row).1
  unfolding record_canonical_success_boundary mark_success
  boundary-IsSound = record {
    unscored = ground (arith, i.unscored);
    unfinished = ground (arith, i.unfinished);
    early = λ t h. ground (arith, i.early t);
    marked = ground (arith, i.marked, i.unfinished);
    scored = ground (arith, i.scored);
    timeout = ground (arith, i.timeout);
  }

  pub start-IsSound : IsSound (start now row).1
  unfolding start calls
  start-IsSound = record {
    unscored = ground (arith, i.unscored);
    unfinished = ground (arith, i.unfinished);
    early = λ t h. ground (arith, i.early t);
    marked = ground (arith, i.marked, i.unfinished);
    scored = ground (arith, i.scored);
    timeout = ground (arith, i.timeout);
  }

  pub end_not_score_ready-IsSound :
      (readiness_projection : Json) → IsSound (end_not_score_ready now readiness_projection row).1
  unfolding end_not_score_ready persist_not_score_ready
  end_not_score_ready-IsSound readiness_projection = record {
    unscored = ground (arith, i.unscored);
    unfinished = ground (arith, i.unfinished);
    early = λ t h. ground (arith, i.early t);
    marked = ground (arith, i.marked, i.unfinished);
    scored = ground (arith, i.scored);
    timeout = ground (arith, i.timeout);
  }

  pub end_completed-IsSound : (result_body : Json) → IsSound (end_completed now result_body row).1
  unfolding end_completed persist_completed complete
  end_completed-IsSound result_body = record {
    unscored = ground (arith, i.unscored);
    unfinished = ground (arith, i.unfinished);
    early = λ t h. ground (arith, i.early t);
    marked = ground (arith, i.marked, i.unfinished);
    scored = ground (arith, i.scored);
    timeout = ground (arith, i.timeout);
  }
