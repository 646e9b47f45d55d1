-- ===== src/Api/Worker.antt =====
-- The worker that executes an analysis (`execute_analysis` of worker.py). The execution itself and
-- the generator of reports are parameters.
pub mod Keeping
pub mod Pairing
use sitescore.Common.{ℕ, Bool, true, false, not, ◌&&◌, Option, none, some, is_none, if◌then◌else◌}
use sitescore.Common.Action.{
  Ending, commits, rolls_back, Action, Error, Result, ok, err, execution_error,
  retryable_report_finalization, lift, pure, raise, ◌>>=◌, ◌>>◌,
}
use sitescore.Commerce.Rows.{Json}
use sitescore.Api.Rows.{
  AnalysisRow, PublicState, PreparedReportArtifact, Store, get_analysis, write_analysis,
}
use sitescore.Api.Row.{
  Verdict, busy, missing, protected, retry, state, Job, Start, ended, started, start, fail,
  record_canonical_success_boundary, end_not_score_ready, end_completed,
}
use sitescore.Api.Session.{World, Env, transact, attempt, clock}
use sitescore.Api.Finalize.{Head, persist_completed_report_pair}

-- What the execution gives: a score, or the reasons for having none.
pub data Outcome : Type 0 where
  completed not_score_ready : Json → Outcome

-- The artifact for a consumer's analysis, its result and a time, unless the generator raises.
abbrev pub Generator : Type 0
Generator = ℕ → ℕ → Json → ℕ → Option PreparedReportArtifact

-- What the worker is given: the execution of a job at a time, which may raise, the generator of
-- reports, if there is one, and what the storage knows of an object.
pub record Services : Type 0 where
  pub execute : ℕ → Job → Option Outcome
  pub report_artifacts : Option Generator
  pub head : Head

-- A transaction on the row of an analysis, with the answer for its absence.
unfoldable pub update_row :
    {A : Type 0}
    → (AnalysisRow → Result (Ending A) × AnalysisRow)
    → Ending A
    → Option AnalysisRow
    → Action Store (Ending A)
update_row f gone none s = (ok gone, s)
update_row f gone (some row) s = let (r, row') = f row in (r, write_analysis row' s)

unfoldable pub on_row :
    {A : Type 0}
    → (ℕ → AnalysisRow → Result (Ending A) × AnalysisRow)
    → Ending A
    → ℕ
    → ℕ
    → Action Store (Ending A)
unfolding update_row
on_row f gone analysis_id now s = update_row (f now) gone (get_analysis analysis_id s) s

-- The transaction after an outcome.
abbrev pub outcome_row :
    Option Generator → ℕ → Outcome → AnalysisRow → Result (Ending Verdict) × AnalysisRow
unfolding end_not_score_ready end_completed record_canonical_success_boundary
outcome_row g outcome_at (not_score_ready body) row = end_not_score_ready outcome_at body row
outcome_row none outcome_at (completed body) row = end_completed outcome_at body row
outcome_row (some g) outcome_at (completed body) row =
    record_canonical_success_boundary outcome_at row

abbrev pub give_up : Verdict → Action World Verdict
give_up Verdict.retry =
    raise (retryable_report_finalization "paired report finalization requires worker retry")
give_up v = pure v

-- The report, once the score is protected.
unfoldable pub finish_report :
    Env → Head → ℕ → Json → ℕ → Option PreparedReportArtifact → Action World Verdict
unfolding persist_completed_report_pair
finish_report env head analysis_id body outcome_at none =
    raise (retryable_report_finalization "report generator requires worker retry")
finish_report env head analysis_id body outcome_at (some a) =
    persist_completed_report_pair env head analysis_id body a outcome_at >>= give_up

-- What follows the transaction after an outcome.
unfoldable pub after_outcome :
    Env → Head → Option Generator → ℕ → Job → Outcome → ℕ → Verdict → Action World Verdict
unfolding finish_report
after_outcome env head (some g) analysis_id job (completed body) outcome_at Verdict.protected =
    finish_report env head analysis_id body outcome_at
      (g job.consumer_id analysis_id body outcome_at)
after_outcome env head g analysis_id job outcome outcome_at v = pure v

unfoldable pub record_outcome : Env → Services → ℕ → Job → Option Outcome → Action World Verdict
unfolding on_row after_outcome
record_outcome env services analysis_id job none = raise execution_error
record_outcome env services analysis_id job (some outcome) = do
  outcome_at ← clock env
  v ← transact env (
      on_row (λ now. outcome_row services.report_artifacts outcome_at outcome) (rolls_back missing)
        analysis_id)
  after_outcome env services.head services.report_artifacts analysis_id job outcome outcome_at v

unfoldable pub perform : Env → Services → ℕ → Start → Action World Verdict
unfolding record_outcome
perform env services analysis_id (ended v) = pure v
perform env services analysis_id (started job) = do
  now ← clock env
  record_outcome env services analysis_id job (services.execute now job)

-- The body of the `try` of `execute_analysis`.
unfoldable pub run : Env → Services → ℕ → Action World Verdict
unfolding on_row start perform
run env services analysis_id = do
  s ← transact env (on_row start (rolls_back (ended missing)) analysis_id)
  perform env services analysis_id s

-- Its handlers.
unfoldable pub on_error : Env → ℕ → Result Verdict → Action World Verdict
unfolding on_row fail
on_error env analysis_id (ok v) = pure v
on_error env analysis_id (err (retryable_report_finalization m)) =
    raise (retryable_report_finalization m)
on_error env analysis_id (err e) =
    transact env (on_row fail (commits (state PublicState.failed)) analysis_id)

abbrev pub lock_answer : Bool → Ending Bool
lock_answer true = commits true
lock_answer false = rolls_back false

unfoldable pub run_if : Env → Services → ℕ → Bool → Action World Verdict
unfolding run on_error
run_if env services analysis_id true =
    attempt (run env services analysis_id) (on_error env analysis_id)
run_if env services analysis_id false = pure busy

-- `pg_try_advisory_lock`
unfoldable pub try_lock : Env → Action World Bool
try_lock env w = transact env (λ now s. (ok (lock_answer (env.authority w.turn)), s)) w

-- The release of the lock changes no row.
unfoldable pub execute_analysis : Env → Services → ℕ → Action World Verdict
unfolding try_lock run_if
execute_analysis env services analysis_id = try_lock env >>= run_if env services analysis_id
