-- ===== src/Api/Row.antt =====
-- What the lifecycle and the worker do to the row of an analysis (lifecycle.py, worker.py).
use sitescore.Common.{
  ℕ, leb, Bool, true, false, not, ◌&&◌, Option, none, some, is_none, if◌then◌else◌,
}
use sitescore.Common.Action.{
  Ending, commits, rolls_back, Action, value_error, retryable_report_finalization, Result, ok, err,
  calls,
}
use sitescore.Commerce.Rows.{Json}
use sitescore.Api.Rows.{AnalysisRow, PublicState, is_terminal}

-- `row.state = "timed_out"` and what goes with it.
abbrev pub timeout_row : ℕ → AnalysisRow → AnalysisRow
timeout_row now row = record row {
  state = PublicState.timed_out;
  updated_at = now;
  finished_at = some now;
  failure_code = some "analysis_deadline_exceeded";
  failure_message = some "analysis exceeded its server-owned deadline";
}

abbrev pub not_score_ready_row : ℕ → Json → AnalysisRow → AnalysisRow
not_score_ready_row now readiness_projection row = record row {
  state = PublicState.not_score_ready;
  result_body = none;
  readiness_body = some readiness_projection;
  failure_code = none;
  failure_message = none;
  finished_at = some now;
  updated_at = now;
}

-- Without the changes of a transaction, or with those to be committed.
unfoldable pub persist_not_score_ready : ℕ → Json → Action AnalysisRow Bool
unfolding calls
persist_not_score_ready now readiness_projection row =
    if is_terminal row.state
    then (ok false, row)
    else if not (is_none row.canonical_success_at)
    then (ok false, row)
    else if leb row.deadline_at now
    then (ok false, timeout_row now row)
    else (ok true, not_score_ready_row now readiness_projection row)

abbrev pub completed_row : ℕ → Option ℕ → Json → AnalysisRow → AnalysisRow
completed_row now success_at result_body row = record row {
  canonical_success_at = success_at;
  state = PublicState.completed;
  result_body = some result_body;
  readiness_body = none;
  failure_code = none;
  failure_message = none;
  finished_at = some now;
  updated_at = now;
}

-- `persist_completed` of a row that is not terminal, by its success marker.
unfoldable pub complete : ℕ → Json → Option ℕ → Action AnalysisRow Bool
complete now result_body none row =
    if leb row.deadline_at now
    then (ok false, timeout_row now row)
    else (ok true, completed_row now (some now) result_body row)
complete now result_body (some marked) row =
    if leb row.deadline_at marked
    then (err (value_error "canonical success marker must precede the analysis deadline"), row)
    else (ok true, completed_row now (some marked) result_body row)

unfoldable pub persist_completed : ℕ → Json → Action AnalysisRow Bool
unfolding complete
persist_completed now result_body row =
    if is_terminal row.state
    then (ok false, row)
    else complete now result_body row.canonical_success_at row

-- What the worker answers.
pub data Verdict : Type 0 where
  busy missing protected retry : Verdict
  state : PublicState → Verdict

abbrev pub protected_row : Option ℕ → ℕ → AnalysisRow → AnalysisRow
protected_row success_at updated_at row = record row {
  canonical_success_at = success_at;
  state = PublicState.running;
  updated_at = updated_at;
  finished_at = none;
  failure_code = none;
  failure_message = none;
}

-- The row and the state that it has now.
abbrev pub with_state : AnalysisRow → Result (Ending Verdict) × AnalysisRow
with_state row = (ok (commits (state row.state)), row)

-- `_record_canonical_success_boundary`, by the marker of the row.
unfoldable pub mark_success : ℕ → Option ℕ → Action AnalysisRow (Ending Verdict)
mark_success success_at (some marked) row =
    if leb row.deadline_at marked
    then (err (value_error "canonical success marker must precede the analysis deadline"), row)
    else if is_terminal row.state
    then (ok (rolls_back (state row.state)), row)
    else (ok (commits protected), protected_row (some marked) row.updated_at row)
mark_success success_at none row =
    if leb row.deadline_at success_at
    then with_state (if is_terminal row.state then row else timeout_row success_at row)
    else if is_terminal row.state
    then (ok (rolls_back (state row.state)), row)
    else (ok (commits protected), protected_row (some success_at) success_at row)

unfoldable pub record_canonical_success_boundary : ℕ → Action AnalysisRow (Ending Verdict)
unfolding mark_success
record_canonical_success_boundary success_at row =
    mark_success success_at row.canonical_success_at row

-- What a worker takes from the row that it starts on.
pub record Job : Type 0 where
  pub request_payload : Json
  pub creation_request_id : ℕ
  pub analysis_id : ℕ
  pub consumer_id : ℕ

pub data Start : Type 0 where
  ended : Verdict → Start
  started : Job → Start

abbrev pub job_of : AnalysisRow → Job
job_of row = record {
  request_payload = row.request_payload;
  creation_request_id = row.creation_request_id;
  analysis_id = row.analysis_id;
  consumer_id = row.consumer_id;
}

abbrev pub first_start : Option ℕ → ℕ → Option ℕ
first_start none now = some now
first_start (some t) now = some t

-- The first transaction of `execute_analysis`.
unfoldable pub start : ℕ → Action AnalysisRow (Ending Start)
unfolding calls
start now row =
    if is_terminal row.state
    then (ok (rolls_back (ended (state row.state))), row)
    else if is_none row.canonical_success_at && leb row.deadline_at now
    then (ok (commits (ended (state PublicState.timed_out))), timeout_row now row)
    else (
      ok (commits (started (job_of row))),
      record row {
        started_at = first_start row.started_at now;
        state = PublicState.running;
        updated_at = now;
      },
    )

abbrev pub failed_row : ℕ → AnalysisRow → AnalysisRow
failed_row now row = record row {
  state = PublicState.failed;
  failure_code = some "analysis_execution_failed";
  failure_message = some "analysis execution failed";
  finished_at = some now;
  updated_at = now;
}

-- The handler of an exception in `execute_analysis`.
unfoldable pub fail : ℕ → Action AnalysisRow (Ending Verdict)
fail now row =
    if is_terminal row.state
    then (ok (commits (state row.state)), row)
    else if not (is_none row.canonical_success_at)
    then (err (retryable_report_finalization "post-success worker failure requires retry"), row)
    else if leb row.deadline_at now
    then (ok (commits (state PublicState.timed_out)), timeout_row now row)
    else (ok (commits (state PublicState.failed)), failed_row now row)

-- The second transaction, for an outcome without a score.
unfoldable pub end_not_score_ready : ℕ → Json → Action AnalysisRow (Ending Verdict)
unfolding persist_not_score_ready
end_not_score_ready outcome_at readiness_projection row =
    if not (is_none row.canonical_success_at)
    then (
      err (
          retryable_report_finalization
            "post-success canonical retry did not reproduce completed outcome"),
      row,
    )
    else let (r, row') = persist_not_score_ready outcome_at readiness_projection row in
      (ok (commits (state row'.state)), row')

-- The second transaction, for a score and without a report generator.
unfoldable pub end_completed : ℕ → Json → Action AnalysisRow (Ending Verdict)
unfolding persist_completed
end_completed outcome_at result_body row =
    let (r, row') = persist_completed outcome_at result_body row in
    elim r [ ok _ ↦ (ok (commits (state row'.state)), row') | err e ↦ (err e, row') ]

-- The timeout of `retrieve`. `authority` says whether no worker holds the lock of the analysis.
unfoldable pub expire : ℕ → Bool → AnalysisRow → AnalysisRow
expire now authority row =
    if not (is_terminal row.state)
      && is_none row.canonical_success_at
      && leb row.deadline_at now
      && authority
    then timeout_row now row
    else row
