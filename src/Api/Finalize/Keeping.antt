-- ===== src/Api/Finalize/Keeping.antt =====
-- The store under the end of a completion (worker.py).
use sitescore.Common.{ℕ, Bool, true, false, ◌≡◌, refl}
use sitescore.Common.Action.{Action, Result, ok, err, session_unavailable}
use sitescore.Commerce.Rows.{Json}
use sitescore.Api.Rows.{PreparedReportArtifact, Store}
use sitescore.Api.Row.{Verdict, retry}
use sitescore.Api.Session.{World, Env}
use sitescore.Api.Keeps.{
  Keeps, OthersKeep, transact-Keeps, transact-kept-Keeps, attempt-Keeps, pure-Keeps, bind-Keeps,
  then-Keeps,
}
use sitescore.Api.Report.{report_artifact_version, failed_report_artifact}
use sitescore.Api.Admits.{Admits}
use sitescore.Api.Reconcile.{Reconciliation}
use sitescore.Api.Reconcile.Keeping.{
  reconcile_paired_commit-Keeps, reconcile_report_commit-Keeps, resource_state-Keeps,
  transition_resource_to_failed-Keeps,
}
use sitescore.Api.Pair.{
  pair_rows, failed_pair_rows, failed_report_rows, complete_rows, confirm, or_retry, or_confirmed,
  complete_analysis_with_failed_resource,
}
use sitescore.Api.Pair.Keeping.{
  pair_row_keeps, failed_pair_row_keeps, failed_report_row_keeps, complete_row_keeps,
}
use sitescore.Api.Finalize.{
  Head, or_reconcile, persist_failed_report_fresh, resource_verdict, repair_missing, complete_if,
  fail_resource, settle_failed_pair, or_settle, persist_failed_pair_fresh, settle_pair,
  or_settle_selected, persist_completed_report_pair,
}

module _ (P : Store → Type 0) (env : Env) (others : OthersKeep env P) (unreported : Bool)
    (admits : Admits unreported P) (head : Head) (body : Json) where
  or_retry-Keeps : (r : Result Verdict) → Keeps P (or_retry r)
  unfolding Keeps
  or_retry-Keeps (ok v) = λ w p. p
  or_retry-Keeps (err e) = λ w p. p

  or_confirmed-Keeps :
      (m : Action World Verdict) (r : Result Verdict) → Keeps P m → Keeps P (or_confirmed m r)
  unfolding Keeps
  or_confirmed-Keeps m (ok v) h = λ w p. p
  or_confirmed-Keeps m (err e) h = attempt-Keeps P m or_retry h or_retry-Keeps

  or_reconcile-Keeps :
      (m : Action World Reconciliation) (r : Result Verdict)
      → Keeps P m
      → Keeps P (or_reconcile m r)
  unfolding Keeps
  or_reconcile-Keeps m (ok v) h = λ w p. p
  or_reconcile-Keeps m (err e) h = then-Keeps P m _ h (pure-Keeps P _ tt)

  or_settle-Keeps :
      (m : Action World Reconciliation) (go : Reconciliation → Action World Verdict)
      (r : Result Verdict)
      → Keeps P m
      → ((x : Reconciliation) → Keeps P (go x))
      → Keeps P (or_settle m go r)
  unfolding Keeps
  or_settle-Keeps m go (ok v) h g = λ w p. p
  or_settle-Keeps m go (err e) h g = bind-Keeps P m go h g

  or_settle_selected-Keeps :
      (m : Action World Reconciliation) (go : Reconciliation → Action World Verdict)
      (r : Result Verdict)
      → Keeps P m
      → ((x : Reconciliation) → Keeps P (go x))
      → Keeps P (or_settle_selected m go r)
  unfolding Keeps
  or_settle_selected-Keeps m go (ok v) h g = λ w p. p
  or_settle_selected-Keeps m go (err session_unavailable) h g = λ w p. p
  or_settle_selected-Keeps m go (err e) h g = bind-Keeps P m go h g

  module _ (a : PreparedReportArtifact)
      (current : a.report_artifact_version ≡ report_artifact_version) where
    complete-Keeps : Keeps P (complete_analysis_with_failed_resource env body a)
    unfolding complete_analysis_with_failed_resource complete_rows confirm
    complete-Keeps =
        attempt-Keeps P _ _
          (transact-kept-Keeps P env others _
            λ now s p. complete_row_keeps P unreported admits a current s p now body _ refl)
          λ r. or_confirmed-Keeps _ r (transact-Keeps P env others _ λ now s p. p)

    complete_if-Keeps : (b : Bool) → Keeps P (complete_if env body a b)
    complete_if-Keeps true = complete-Keeps
    complete_if-Keeps false = pure-Keeps P _ retry

    fail_resource-Keeps : Keeps P (fail_resource env body a)
    unfolding fail_resource
    fail_resource-Keeps =
        bind-Keeps P _ _ (transition_resource_to_failed-Keeps P env others unreported admits a)
          complete_if-Keeps

    persist_failed_report_fresh-Keeps : Keeps P (persist_failed_report_fresh env head a)
    unfolding persist_failed_report_fresh failed_report_rows failed_report_artifact
    persist_failed_report_fresh-Keeps =
        let failed = failed_report_artifact a in
        attempt-Keeps P _ _
          (transact-kept-Keeps P env others _ λ now s p.
            failed_report_row_keeps P unreported admits failed current s p failed.analysis_id now _
              refl)
          λ r. or_reconcile-Keeps _ r (reconcile_report_commit-Keeps P env others head failed)

    repair_missing-Keeps : Keeps P (repair_missing env head a)
    unfolding repair_missing
    repair_missing-Keeps = then-Keeps P _ _ persist_failed_report_fresh-Keeps (
        bind-Keeps P _ _ (resource_state-Keeps P env others false a)
          λ r. pure-Keeps P _ (resource_verdict r))

    settle_failed_pair-Keeps : (r : Reconciliation) → Keeps P (settle_failed_pair env head body a r)
    unfolding settle_failed_pair
    settle_failed_pair-Keeps Reconciliation.failed = pure-Keeps P _ _
    settle_failed_pair-Keeps Reconciliation.ready = pure-Keeps P _ _
    settle_failed_pair-Keeps Reconciliation.conflict = fail_resource-Keeps
    settle_failed_pair-Keeps Reconciliation.completed_missing = repair_missing-Keeps
    settle_failed_pair-Keeps _ = pure-Keeps P _ _

  module _ (a : PreparedReportArtifact)
      (current : a.report_artifact_version ≡ report_artifact_version) where
    persist_failed_pair_fresh-Keeps : Keeps P (persist_failed_pair_fresh env head body a)
    unfolding persist_failed_pair_fresh failed_pair_rows failed_report_artifact
    persist_failed_pair_fresh-Keeps =
        let failed = failed_report_artifact a in
        attempt-Keeps P _ _
          (transact-kept-Keeps P env others _ λ now s p.
            failed_pair_row_keeps P unreported admits failed current s p failed.analysis_id now body
              _ refl)
          λ r.
            or_settle-Keeps _ _ r (reconcile_paired_commit-Keeps P env others head body failed)
              (settle_failed_pair-Keeps failed current)

    settle_pair-Keeps : (r : Reconciliation) → Keeps P (settle_pair env head body a r)
    unfolding settle_pair
    settle_pair-Keeps Reconciliation.ready = pure-Keeps P _ _
    settle_pair-Keeps Reconciliation.failed = pure-Keeps P _ _
    settle_pair-Keeps Reconciliation.ready_invalid = fail_resource-Keeps a current
    settle_pair-Keeps Reconciliation.conflict = fail_resource-Keeps a current
    settle_pair-Keeps Reconciliation.completed_missing = repair_missing-Keeps a current
    settle_pair-Keeps Reconciliation.unknown = pure-Keeps P _ _
    settle_pair-Keeps Reconciliation.missing = pure-Keeps P _ _
    settle_pair-Keeps Reconciliation.absent = persist_failed_pair_fresh-Keeps

    pub persist_completed_report_pair-Keeps :
        (analysis_id completed_at : ℕ)
        → Keeps P (persist_completed_report_pair env head analysis_id body a completed_at)
    unfolding persist_completed_report_pair pair_rows
    persist_completed_report_pair-Keeps analysis_id completed_at =
        attempt-Keeps P _ _
          (transact-kept-Keeps P env others _ λ now s p.
            pair_row_keeps P unreported admits a current s p analysis_id completed_at body _ refl)
          λ r.
            or_settle_selected-Keeps _ _ r (reconcile_paired_commit-Keeps P env others head body a)
              settle_pair-Keeps
