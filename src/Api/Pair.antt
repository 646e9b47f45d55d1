-- ===== src/Api/Pair.antt =====
-- The completion of an analysis together with its report (worker.py). The deletion of stored
-- objects changes nothing in the database and is left out.
pub mod Keeping
use sitescore.Common.{
  ℕ, Bool, true, false, not, ◌&&◌, Option, none, some, is_none, opt_eq, if◌then◌else◌,
}
use sitescore.Common.Action.{
  Ending, commits, rolls_back, Action, Result, ok, err, pure, ◌>>=◌, ◌>>◌,
}
use sitescore.Commerce.Rows.{Json}
use sitescore.Commerce.Json.{json_eq}
use sitescore.Api.Rows.{
  AnalysisRow, PublicState, PreparedReportArtifact, ReportRow, ReportState, Store, get_analysis,
  write_analysis, is_completed, is_terminal, is_ready,
}
use sitescore.Api.Row.{Verdict, missing, retry, state, persist_completed}
use sitescore.Api.Session.{World, Env, transact, attempt}
use sitescore.Api.Report.{
  key_of_artifact, get_report, persist_report_artifact, require_match, failed_report_artifact,
}
use sitescore.Api.Reconcile.{
  StoredObjectMetadata, Reconciliation, Resource, reconcile_paired_commit, reconcile_report_commit,
  resource_state, transition_resource_to_failed,
}

abbrev pub completed_verdict : Verdict
completed_verdict = state PublicState.completed

abbrev pub ended : Verdict → Result (Unit {0}) × Store → Result (Ending Verdict) × Store
ended v (ok _, s) = (ok (commits v), s)
ended v (err e, s) = (err e, s)

-- The report of an analysis that has been completed, and the comparison with what it should be.
unfoldable pub with_report :
    ℕ → AnalysisRow → PreparedReportArtifact → Action Store (Ending Verdict)
unfolding persist_report_artifact require_match
with_report now row a s =
    ended completed_verdict (require_match a (persist_report_artifact now row a s))

-- What `persist_completed` has done to the row, and the rest; `unpersisted` says how a transaction
-- ends that has not completed the analysis.
unfoldable pub pair_completed :
    (Verdict → Ending Verdict)
    → ℕ
    → PreparedReportArtifact
    → Result Bool × AnalysisRow
    → Action Store (Ending Verdict)
unfolding with_report
pair_completed unpersisted now a (err e, row) s = (err e, s)
pair_completed unpersisted now a (ok false, row) s =
    (ok (unpersisted (state row.state)), write_analysis row s)
pair_completed unpersisted now a (ok true, row) s = with_report now row a (write_analysis row s)

-- The transaction of `_persist_completed_report_pair`, with the selection before it.
unfoldable pub pair_row :
    ℕ → Json → PreparedReportArtifact → Option AnalysisRow → Action Store (Ending Verdict)
unfolding pair_completed persist_completed
pair_row completed_at body a none s = (ok (rolls_back missing), s)
pair_row completed_at body a (some row) s =
    pair_completed commits completed_at a (persist_completed completed_at body row) s

unfoldable pub pair_rows : ℕ → ℕ → Json → PreparedReportArtifact → ℕ → Action Store (Ending Verdict)
unfolding pair_row
pair_rows analysis_id completed_at body a now s =
    pair_row completed_at body a (get_analysis analysis_id s) s

-- A report, or another attempt.
abbrev pub completed_or_retry : Option ReportRow → Verdict
completed_or_retry none = retry
completed_or_retry (some _) = completed_verdict

-- The first transaction of `_persist_failed_pair_fresh`.
unfoldable pub failed_pair_row :
    ℕ → Json → PreparedReportArtifact → Option AnalysisRow → Action Store (Ending Verdict)
unfolding pair_completed persist_completed
failed_pair_row now body failed none s = (ok (rolls_back missing), s)
failed_pair_row now body failed (some row) s =
    if is_completed row.state
    then (ok (rolls_back (completed_or_retry (get_report (key_of_artifact failed) s))), s)
    else if is_terminal row.state
    then (ok (rolls_back (state row.state)), s)
    else pair_completed rolls_back now failed (persist_completed now body row) s

unfoldable pub failed_pair_rows : Json → PreparedReportArtifact → ℕ → Action Store (Ending Verdict)
unfolding failed_pair_row
failed_pair_rows body failed now s =
    failed_pair_row now body failed (get_analysis failed.analysis_id s) s

-- Whether there is a report and it has failed.
abbrev pub has_failed : Option ReportRow → Bool
has_failed none = false
has_failed (some r) = not (is_ready r.artifact.state)

abbrev pub completed_alone : Result Bool × AnalysisRow → Action Store (Ending Verdict)
completed_alone (err e, row) s = (err e, s)
completed_alone (ok false, row) s = (ok (rolls_back (state row.state)), s)
completed_alone (ok true, row) s = (ok (commits completed_verdict), write_analysis row s)

-- The first transaction of `_complete_analysis_with_failed_resource`.
unfoldable pub complete_row :
    ℕ → Json → Option ReportRow → Option AnalysisRow → Action Store (Ending Verdict)
unfolding persist_completed
complete_row now body report none s = (ok (rolls_back missing), s)
complete_row now body report (some row) s =
    if is_completed row.state
    then (ok (rolls_back (completed_or_retry report)), s)
    else if is_terminal row.state
    then (ok (rolls_back (state row.state)), s)
    else if has_failed report
    then completed_alone (persist_completed now body row) s
    else (ok (rolls_back retry), s)

unfoldable pub complete_rows : Json → PreparedReportArtifact → ℕ → Action Store (Ending Verdict)
unfolding complete_row
complete_rows body a now s =
    complete_row now body (get_report (key_of_artifact a) s) (get_analysis a.analysis_id s) s

abbrev pub is_confirmed : Json → Option AnalysisRow → Option ReportRow → Bool
is_confirmed body none report = false
is_confirmed body (some row) report =
    is_completed row.state
    && opt_eq json_eq row.result_body (some body)
    && is_none row.failure_code
    && has_failed report

-- Its second transaction, after the first has raised.
unfoldable pub confirm : Json → PreparedReportArtifact → ℕ → Action Store (Ending Verdict)
unfolding json_eq
confirm body a now s = (
  ok (
      rolls_back (
        if is_confirmed body (get_analysis a.analysis_id s) (get_report (key_of_artifact a) s)
        then completed_verdict
        else retry)),
  s,
)

abbrev pub or_retry : Result Verdict → Action World Verdict
or_retry (ok v) w = (ok v, w)
or_retry (err e) w = (ok retry, w)

abbrev pub or_confirmed : Action World Verdict → Result Verdict → Action World Verdict
or_confirmed second (ok v) w = (ok v, w)
or_confirmed second (err e) w = attempt second or_retry w

unfoldable pub complete_analysis_with_failed_resource :
    Env → Json → PreparedReportArtifact → Action World Verdict
unfolding complete_rows confirm
complete_analysis_with_failed_resource env body a =
    attempt (transact env (complete_rows body a)) (or_confirmed (transact env (confirm body a)))

-- The transaction of `_persist_failed_report_fresh`.
unfoldable pub failed_report_row :
    ℕ → PreparedReportArtifact → Option AnalysisRow → Action Store (Ending Verdict)
unfolding with_report
failed_report_row now failed none s = (ok (rolls_back missing), s)
failed_report_row now failed (some row) s =
    if is_completed row.state then with_report now row failed s else (ok (rolls_back retry), s)

unfoldable pub failed_report_rows : PreparedReportArtifact → ℕ → Action Store (Ending Verdict)
unfolding failed_report_row
failed_report_rows failed now s = failed_report_row now failed (get_analysis failed.analysis_id s) s
