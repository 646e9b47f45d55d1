-- ===== src/Api/Reconcile.antt =====
-- What the worker reads after a commit whose end it does not know, and how it makes a report fail
-- (worker.py). What the storage knows of an object is a parameter.
pub mod Keeping
use sitescore.Common.{
  ℕ, zero, suc, ◌==◌, Bool, true, false, not, ◌&&◌, ◌||◌, String, str_eq, Option, none, some,
  is_none, opt_eq, if◌then◌else◌,
}
use sitescore.Common.Action.{Ending, commits, rolls_back, Action, Result, ok, err, pure, ◌>>=◌}
use sitescore.Commerce.Rows.{Json}
use sitescore.Commerce.Json.{json_eq}
use sitescore.Api.Rows.{
  AnalysisRow, PublicState, PreparedReportArtifact, ReportRow, ReportState, Store, get_analysis,
  is_ready,
}
use sitescore.Api.Session.{World, Env, transact, attempt}
use sitescore.Api.Report.{
  ReportKey, key_of_artifact, get_report, write_report, report_row_matches_artifact,
  failed_report_artifact, fail_row_from_candidate, report_mime_type,
}

pub record StoredObjectMetadata : Type 0 where
  pub byte_length : ℕ
  pub content_type : Option String

-- `content_type in (None, mime_type)`
abbrev pub is_type : Option String → Option String → Bool
is_type none mime_type = true
is_type (some t) mime_type = opt_eq str_eq (some t) mime_type

abbrev pub same_object : Option ℕ → Option String → Option StoredObjectMetadata → Bool
same_object byte_length mime_type none = false
same_object byte_length mime_type (some m) =
    opt_eq (λ x y. x == y) (some m.byte_length) byte_length && is_type m.content_type mime_type

-- `_ready_object_matches`, by the storage key.
unfoldable pub object_matches :
    (String → Option StoredObjectMetadata) → PreparedReportArtifact → Option String → Bool
object_matches head a none = false
object_matches head a (some key) =
    is_ready a.state
    && not (is_none a.byte_length)
    && opt_eq str_eq a.mime_type (some report_mime_type)
    && same_object a.byte_length a.mime_type (head key)

pub data Reconciliation : Type 0 where
  absent ready ready_invalid failed conflict unknown completed_missing missing : Reconciliation

-- A report with the identity of the artifact.
unfoldable pub identified :
    (String → Option StoredObjectMetadata) → PreparedReportArtifact → ReportRow → Reconciliation
unfolding object_matches report_row_matches_artifact failed_report_artifact
identified head a row =
    if report_row_matches_artifact row a
    then if is_ready a.state
      then if object_matches head a a.storage_key then ready else ready_invalid
      else failed
    else if report_row_matches_artifact row (failed_report_artifact a)
    then failed
    else conflict

abbrev pub reported :
    (String → Option StoredObjectMetadata)
    → PreparedReportArtifact
    → Reconciliation
    → Option ReportRow
    → Reconciliation
unfolding identified
reported head a without none = without
reported head a without (some row) =
    if row.artifact.report_id == a.report_id then identified head a row else conflict

unfoldable pub paired :
    (String → Option StoredObjectMetadata)
    → Json
    → PreparedReportArtifact
    → Option AnalysisRow
    → Option ReportRow
    → Reconciliation
unfolding json_eq reported
paired head body a none report = missing
paired head body a (some analysis) report = elim analysis.state [
  | PublicState.completed ↦
      (if opt_eq json_eq analysis.result_body (some body)
          && is_none analysis.readiness_body
          && is_none analysis.failure_code
          && is_none analysis.failure_message
        then reported head a completed_missing report
        else conflict)
  | PublicState.queued ↦ (if is_none report then absent else conflict)
  | PublicState.running ↦ (if is_none report then absent else conflict)
  | _ ↦ conflict
]

abbrev pub known : Result Reconciliation → Action World Reconciliation
known (ok r) w = (ok r, w)
known (err e) w = (ok unknown, w)

unfoldable pub reconcile_paired_commit :
    Env
    → (ℕ → String → Option StoredObjectMetadata)
    → Json
    → PreparedReportArtifact
    → Action World Reconciliation
unfolding paired
reconcile_paired_commit env head body a w =
    attempt
      (transact env (λ now s. (
        ok (
            rolls_back (
              paired (head w.turn) body a (get_analysis a.analysis_id s)
                (get_report (key_of_artifact a) s))),
        s,
      )))
      known w

unfoldable pub reconcile_report_commit :
    Env
    → (ℕ → String → Option StoredObjectMetadata)
    → PreparedReportArtifact
    → Action World Reconciliation
unfolding reported
reconcile_report_commit env head a w =
    attempt
      (transact env (λ now s.
        (ok (rolls_back (reported (head w.turn) a absent (get_report (key_of_artifact a) s))), s)))
      known w

abbrev pub only_if : Bool → ReportRow → Option ReportRow
only_if true row = some row
only_if false row = none

-- `_same_identity_state` and `_resource_state`: the row of the artifact's key, in the former case
-- only if it has the artifact's identity too.
unfoldable pub select_report : Bool → PreparedReportArtifact → Option ReportRow → Option ReportRow
select_report same_identity a none = none
select_report same_identity a (some row) =
    only_if (not same_identity || row.artifact.report_id == a.report_id) row

pub data Resource : Type 0 where
  absent unknown : Resource
  state : ReportState → Resource

abbrev pub resource_of : Option ReportRow → Resource
resource_of none = Resource.absent
resource_of (some row) = Resource.state row.artifact.state

abbrev pub known_resource : Result Resource → Action World Resource
known_resource (ok r) w = (ok r, w)
known_resource (err e) w = (ok Resource.unknown, w)

unfoldable pub resource_state : Env → Bool → PreparedReportArtifact → Action World Resource
unfolding select_report
resource_state env same_identity a =
    attempt
      (transact env (λ now s. (
        ok (
            rolls_back
              (resource_of (select_report same_identity a (get_report (key_of_artifact a) s)))),
        s,
      )))
      known_resource

-- The failed row is written if the row was ready.
abbrev pub fail_if : Bool → ReportRow → Action Store (Ending Bool)
fail_if true row s = (ok (commits true), write_report row s)
fail_if false row s = (ok (rolls_back true), s)

-- One attempt to make the row fail.
unfoldable pub fail_selected :
    PreparedReportArtifact → ℕ → Option ReportRow → Action Store (Ending Bool)
unfolding fail_row_from_candidate
fail_selected a now none s = (ok (rolls_back false), s)
fail_selected a now (some row) s =
    fail_if (is_ready row.artifact.state) (fail_row_from_candidate now a row) s

unfoldable pub fail_report : Bool → PreparedReportArtifact → ℕ → Action Store (Ending Bool)
unfolding select_report fail_selected
fail_report same_identity a now s =
    fail_selected a now (select_report same_identity a (get_report (key_of_artifact a) s)) s

-- After an attempt that raised: the state that is read then, and `again`, the attempts that are left.
abbrev pub or_again : Action World Bool → Resource → Action World Bool
or_again again Resource.absent w = again w
or_again again Resource.unknown w = (ok false, w)
or_again again (Resource.state ReportState.failed) w = (ok true, w)
or_again again (Resource.state ReportState.ready) w = again w

abbrev pub tried : Action World Resource → Action World Bool → Result Bool → Action World Bool
tried read again (ok b) w = (ok b, w)
tried read again (err e) w = (read >>= λ r. or_again again r) w

unfoldable pub transition : Env → Bool → PreparedReportArtifact → ℕ → Action World Bool
unfolding resource_state fail_report
transition env same_identity a zero = pure false
transition env same_identity a (suc n) =
    attempt (transact env (fail_report same_identity a))
      (tried (resource_state env same_identity a) (transition env same_identity a n))

-- `_transition_same_identity_to_failed`
unfoldable pub transition_same_identity_to_failed : Env → PreparedReportArtifact → Action World Bool
unfolding transition
transition_same_identity_to_failed env a = transition env true a 3

-- `_transition_resource_to_failed`
unfoldable pub transition_resource_to_failed : Env → PreparedReportArtifact → Action World Bool
unfolding transition
transition_resource_to_failed env a = transition env false a 3
