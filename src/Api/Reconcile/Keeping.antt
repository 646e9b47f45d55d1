-- ===== src/Api/Reconcile/Keeping.antt =====
-- The store under the readings and the failing of reports (worker.py).
use sitescore.Common.{
  ℕ, zero, suc, ◌==◌, not, ◌||◌, String, Bool, true, false, ◌≡◌, refl, Option, none, some,
}
use sitescore.Common.Action.{Action, Result, ok, err}
use sitescore.Commerce.Rows.{Json}
use sitescore.Api.Rows.{PreparedReportArtifact, ReportRow, ReportState, Store, is_ready}
use sitescore.Api.Session.{World, Env}
use sitescore.Api.Keeps.{Keeps, OthersKeep, transact-Keeps, attempt-Keeps, pure-Keeps, bind-Keeps}
use sitescore.Api.Report.{
  key_of_artifact, get_report, write_report, report_key_eq, fail_row_from_candidate,
  failed_report_artifact,
}
use sitescore.Api.Admits.{Admits, put-Covers}
use sitescore.Api.Reconcile.{
  Reconciliation, Resource, known, known_resource, reconcile_paired_commit, reconcile_report_commit,
  select_report, only_if, fail_if, resource_state, fail_selected, fail_report, or_again, tried,
  transition, transition_resource_to_failed, StoredObjectMetadata,
}

module _ (P : Store → Type 0) (env : Env) (others : OthersKeep env P) where
  known-Keeps : (r : Result Reconciliation) → Keeps P (known r)
  unfolding Keeps
  known-Keeps (ok r) = λ w p. p
  known-Keeps (err e) = λ w p. p

  known_resource-Keeps : (r : Result Resource) → Keeps P (known_resource r)
  unfolding Keeps
  known_resource-Keeps (ok r) = λ w p. p
  known_resource-Keeps (err e) = λ w p. p

  pub reconcile_paired_commit-Keeps :
      (head : ℕ → String → Option StoredObjectMetadata) (body : Json) (a : PreparedReportArtifact)
      → Keeps P (reconcile_paired_commit env head body a)
  unfolding reconcile_paired_commit Keeps
  reconcile_paired_commit-Keeps head body a w =
      attempt-Keeps P _ _ (transact-Keeps P env others _ λ now s p. p) known-Keeps w

  pub reconcile_report_commit-Keeps :
      (head : ℕ → String → Option StoredObjectMetadata) (a : PreparedReportArtifact)
      → Keeps P (reconcile_report_commit env head a)
  unfolding reconcile_report_commit Keeps
  reconcile_report_commit-Keeps head a w =
      attempt-Keeps P _ _ (transact-Keeps P env others _ λ now s p. p) known-Keeps w

  pub resource_state-Keeps :
      (same_identity : Bool) (a : PreparedReportArtifact)
      → Keeps P (resource_state env same_identity a)
  unfolding resource_state
  resource_state-Keeps same_identity a =
      attempt-Keeps P _ _ (transact-Keeps P env others _ λ now s p. p) known_resource-Keeps

  module _ (unreported : Bool) (admits : Admits unreported P) where
    failed-Covers :
        (a : PreparedReportArtifact) (now : ℕ) (row : ReportRow) (s : Store)
        → get_report (key_of_artifact a) s ≡ some row
        → P s
        → P (write_report (fail_row_from_candidate now a row) s)
    unfolding fail_row_from_candidate failed_report_artifact
    failed-Covers a now row s h p =
        admits.report s _ (put-Covers (fail_row_from_candidate now a row) row s.reports h) p

    fail_if_keeps :
        (b : Bool) (row : ReportRow) (s : Store)
        → P s
        → P (write_report row s)
        → P (fail_if b row s).1
    fail_if_keeps true row s p q = q
    fail_if_keeps false row s p q = p

    only_if_keeps :
        (a : PreparedReportArtifact) (now : ℕ) (row : ReportRow) (s : Store) (b : Bool)
        → P s
        → P (write_report (fail_row_from_candidate now a row) s)
        → P (fail_selected a now (only_if b row) s).1
    unfolding fail_selected
    only_if_keeps a now row s true p q = fail_if_keeps (is_ready row.artifact.state) _ s p q
    only_if_keeps a now row s false p q = p

    fail_selected_keeps :
        (a : PreparedReportArtifact) (now : ℕ) (same_identity : Bool) (o : Option ReportRow)
        (s : Store)
        → get_report (key_of_artifact a) s ≡ o
        → P s
        → P (fail_selected a now (select_report same_identity a o) s).1
    unfolding fail_selected select_report
    fail_selected_keeps a now same_identity none s h p = p
    fail_selected_keeps a now same_identity (some row) s h p =
        only_if_keeps a now row s (not same_identity || row.artifact.report_id == a.report_id) p
          (failed-Covers a now row s h p)

    fail_report_keeps :
        (same_identity : Bool) (a : PreparedReportArtifact) (now : ℕ) (s : Store)
        → P s
        → P (fail_report same_identity a now s).1
    unfolding fail_report
    fail_report_keeps same_identity a now s = fail_selected_keeps a now same_identity _ s refl

    or_again-Keeps : (m : Action World Bool) (r : Resource) → Keeps P m → Keeps P (or_again m r)
    unfolding Keeps
    or_again-Keeps m Resource.absent h = h
    or_again-Keeps m Resource.unknown h = λ w p. p
    or_again-Keeps m (Resource.state ReportState.failed) h = λ w p. p
    or_again-Keeps m (Resource.state ReportState.ready) h = h

    tried-Keeps :
        (read : Action World Resource) (m : Action World Bool) (r : Result Bool)
        → Keeps P read
        → Keeps P m
        → Keeps P (tried read m r)
    unfolding Keeps
    tried-Keeps read m (ok b) g h = λ w p. p
    tried-Keeps read m (err e) g h = bind-Keeps P read (or_again m) g λ r. or_again-Keeps m r h

    transition-Keeps :
        (same_identity : Bool) (a : PreparedReportArtifact) (n : ℕ)
        → Keeps P (transition env same_identity a n)
    unfolding transition
    transition-Keeps same_identity a zero = pure-Keeps P Bool false
    transition-Keeps same_identity a (suc n) =
        attempt-Keeps P _ _ (transact-Keeps P env others _ (fail_report_keeps same_identity a)) λ r.
          tried-Keeps _ _ r (resource_state-Keeps same_identity a)
            (transition-Keeps same_identity a n)

    pub transition_resource_to_failed-Keeps :
        (a : PreparedReportArtifact) → Keeps P (transition_resource_to_failed env a)
    unfolding transition_resource_to_failed
    transition_resource_to_failed-Keeps a = transition-Keeps false a 3
