-- ===== src/Api/Finalize.antt =====
-- How the worker ends the completion of an analysis with its report, after each outcome of a commit
-- (worker.py).
pub mod Keeping
use sitescore.Common.{ℕ, Bool, true, false, String, Option, none, some}
use sitescore.Common.Action.{session_unavailable, Action, Result, ok, err, pure, ◌>>=◌, ◌>>◌}
use sitescore.Commerce.Rows.{Json}
use sitescore.Api.Rows.{PreparedReportArtifact, ReportState}
use sitescore.Api.Row.{Verdict, missing, retry, state}
use sitescore.Api.Session.{World, Env, transact, attempt}
use sitescore.Api.Report.{failed_report_artifact}
use sitescore.Api.Reconcile.{
  StoredObjectMetadata, Reconciliation, Resource, reconcile_paired_commit, reconcile_report_commit,
  resource_state, transition_resource_to_failed,
}
use sitescore.Api.Pair.{
  pair_rows, failed_pair_rows, failed_report_rows, completed_verdict,
  complete_analysis_with_failed_resource,
}

abbrev pub Head : Type 0
Head = ℕ → String → Option StoredObjectMetadata

-- After the transaction of `_persist_failed_report_fresh`, whose answer is not used.
abbrev pub or_reconcile : Action World Reconciliation → Result Verdict → Action World (Unit {0})
or_reconcile read (ok v) w = (ok tt, w)
or_reconcile read (err e) w = (read >> pure tt) w

unfoldable pub persist_failed_report_fresh :
    Env → Head → PreparedReportArtifact → Action World (Unit {0})
unfolding failed_report_rows failed_report_artifact reconcile_report_commit
persist_failed_report_fresh env head a =
    let failed = failed_report_artifact a in
    attempt (transact env (failed_report_rows failed))
      (or_reconcile (reconcile_report_commit env head failed))

-- "completed" if the resource has failed now.
abbrev pub resource_verdict : Resource → Verdict
resource_verdict (Resource.state ReportState.failed) = completed_verdict
resource_verdict _ = retry

-- What follows "completed_missing".
unfoldable pub repair_missing : Env → Head → PreparedReportArtifact → Action World Verdict
unfolding persist_failed_report_fresh resource_state
repair_missing env head a = do
  persist_failed_report_fresh env head a
  resource ← resource_state env false a
  pure (resource_verdict resource)

-- What follows "conflict".
abbrev pub complete_if : Env → Json → PreparedReportArtifact → Bool → Action World Verdict
complete_if env body a true = complete_analysis_with_failed_resource env body a
complete_if env body a false = pure retry

unfoldable pub fail_resource : Env → Json → PreparedReportArtifact → Action World Verdict
unfolding transition_resource_to_failed complete_analysis_with_failed_resource
fail_resource env body a = transition_resource_to_failed env a >>= complete_if env body a

-- The rest of `_persist_failed_pair_fresh`, by the reconciliation.
unfoldable pub settle_failed_pair :
    Env → Head → Json → PreparedReportArtifact → Reconciliation → Action World Verdict
unfolding fail_resource repair_missing
settle_failed_pair env head body failed Reconciliation.failed = pure completed_verdict
settle_failed_pair env head body failed Reconciliation.ready = pure completed_verdict
settle_failed_pair env head body failed Reconciliation.conflict = fail_resource env body failed
settle_failed_pair env head body failed Reconciliation.completed_missing =
    repair_missing env head failed
settle_failed_pair env head body failed _ = pure retry

abbrev pub or_settle :
    Action World Reconciliation
    → (Reconciliation → Action World Verdict)
    → Result Verdict
    → Action World Verdict
or_settle read go (ok v) w = (ok v, w)
or_settle read go (err e) w = (read >>= go) w

unfoldable pub persist_failed_pair_fresh :
    Env → Head → Json → PreparedReportArtifact → Action World Verdict
unfolding failed_report_artifact failed_pair_rows reconcile_paired_commit settle_failed_pair
persist_failed_pair_fresh env head body a =
    let failed = failed_report_artifact a in
    attempt (transact env (failed_pair_rows body failed)) (
      or_settle (reconcile_paired_commit env head body failed)
        (settle_failed_pair env head body failed))

-- The rest of `_persist_completed_report_pair`, by the reconciliation.
unfoldable pub settle_pair :
    Env → Head → Json → PreparedReportArtifact → Reconciliation → Action World Verdict
unfolding fail_resource repair_missing persist_failed_pair_fresh
settle_pair env head body a Reconciliation.ready = pure completed_verdict
settle_pair env head body a Reconciliation.failed = pure completed_verdict
settle_pair env head body a Reconciliation.ready_invalid = fail_resource env body a
settle_pair env head body a Reconciliation.conflict = fail_resource env body a
settle_pair env head body a Reconciliation.completed_missing = repair_missing env head a
settle_pair env head body a Reconciliation.unknown = pure retry
settle_pair env head body a Reconciliation.missing = pure missing
settle_pair env head body a Reconciliation.absent = persist_failed_pair_fresh env head body a

-- An exception of the selection is not caught here.
abbrev pub or_settle_selected :
    Action World Reconciliation
    → (Reconciliation → Action World Verdict)
    → Result Verdict
    → Action World Verdict
or_settle_selected read go (ok v) w = (ok v, w)
or_settle_selected read go (err session_unavailable) w = (err session_unavailable, w)
or_settle_selected read go (err e) w = (read >>= go) w

-- `_persist_completed_report_pair`, with the selection of the row before it.
unfoldable pub persist_completed_report_pair :
    Env → Head → ℕ → Json → PreparedReportArtifact → ℕ → Action World Verdict
unfolding pair_rows reconcile_paired_commit settle_pair
persist_completed_report_pair env head analysis_id body a completed_at =
    attempt (transact env (pair_rows analysis_id completed_at body a))
      (or_settle_selected (reconcile_paired_commit env head body a) (settle_pair env head body a))
