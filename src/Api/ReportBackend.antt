-- ===== src/Api/ReportBackend.antt =====
-- The reading of reports and of their content (PostgresReportArtifactBackend of
-- report_artifacts.py). The object storage and SHA-256 are parameters.
pub mod Answers
use sitescore.Common.{
  ℕ, ◌==◌, Bool, true, false, not, ◌&&◌, ◌||◌, String, str_eq, Option, none, some, List, is_none,
  opt_eq, find, nat_eq, if◌then◌else◌,
}
use sitescore.Common.Action.{
  Ending, rolls_back, Action, Error, Result, ok, err, report_not_found, report_not_yet_reportable,
  analysis_not_reportable, report_content_unavailable, report_artifact_integrity,
  report_invariant_violation, lift, pure, raise, raise_if, ◌>>=◌, ◌>>◌,
}
use sitescore.Api.Rows.{
  AnalysisRow, PublicState, PreparedReportArtifact, Provenance, ReportRow, ReportState, Store,
  get_analysis, is_ready,
}
use sitescore.Api.Session.{World, Env, transact}
use sitescore.Api.Report.{get_report, report_artifact_version, report_mime_type}
use sitescore.Api.Reconcile.{StoredObjectMetadata, is_type}

-- The answer on a report has no storage key.
pub record RetrievedReportResource : Type 0 where
  pub report_id : ℕ
  pub analysis_id : ℕ
  pub report_artifact_version : String
  pub state : ReportState
  pub provenance : Provenance
  pub content_sha256 : Option ℕ
  pub mime_type : Option String
  pub filename : Option String
  pub byte_length : Option ℕ
  pub failure_code : Option String
  pub failure_message : Option String
  pub created_at : ℕ
  pub updated_at : ℕ

abbrev pub resource_of : ReportRow → RetrievedReportResource
resource_of row = record {
  report_id = row.artifact.report_id;
  analysis_id = row.artifact.analysis_id;
  report_artifact_version = row.artifact.report_artifact_version;
  state = row.artifact.state;
  provenance = row.artifact.provenance;
  content_sha256 = row.artifact.content_sha256;
  mime_type = row.artifact.mime_type;
  filename = row.artifact.filename;
  byte_length = row.artifact.byte_length;
  failure_code = row.artifact.failure_code;
  failure_message = row.artifact.failure_message;
  created_at = row.created_at;
  updated_at = row.updated_at;
}

-- The analysis of a consumer.
abbrev pub of_consumer : ℕ → Option AnalysisRow → Option AnalysisRow
of_consumer consumer_id none = none
of_consumer consumer_id (some r) = if r.consumer_id == consumer_id then some r else none

abbrev pub reported : Option ReportRow → Result RetrievedReportResource
reported none = err report_invariant_violation
reported (some row) = ok (resource_of row)

abbrev pub by_state : PublicState → Option ReportRow → Result RetrievedReportResource
by_state PublicState.queued o = err report_not_yet_reportable
by_state PublicState.running o = err report_not_yet_reportable
by_state PublicState.not_score_ready o = err analysis_not_reportable
by_state PublicState.failed o = err analysis_not_reportable
by_state PublicState.timed_out o = err analysis_not_reportable
by_state PublicState.completed o = reported o

unfoldable pub resolved : Option AnalysisRow → Option ReportRow → Result RetrievedReportResource
resolved none o = err report_not_found
resolved (some r) o = by_state r.state o

abbrev pub reading : {A : Type 0} → Result A → Result (Ending A)
reading (ok a) = ok (rolls_back a)
reading (err e) = err e

unfoldable pub resolve_row : ℕ → ℕ → Store → Result RetrievedReportResource
unfolding resolved
resolve_row analysis_id consumer_id s =
    resolved (of_consumer consumer_id (get_analysis analysis_id s))
      (get_report (analysis_id, report_artifact_version) s)

unfoldable pub resolve : Env → ℕ → ℕ → Action World RetrievedReportResource
unfolding resolve_row
resolve env analysis_id consumer_id =
    transact env λ now s. (reading (resolve_row analysis_id consumer_id s), s)

abbrev pub identity_of : ReportRow → ℕ
identity_of r = r.artifact.report_id

abbrev pub found_for : ℕ → Store → Option ReportRow → Option ReportRow
found_for consumer_id s none = none
found_for consumer_id s (some row) =
    if is_none (of_consumer consumer_id (get_analysis row.artifact.analysis_id s))
    then none
    else some row

-- A report joined with its analysis, which has to be the consumer's.
unfoldable pub report_of_consumer : ℕ → ℕ → Store → Option ReportRow
report_of_consumer report_id consumer_id s =
    found_for consumer_id s (find identity_of report_id s.reports)

abbrev pub or_not_found : Option ReportRow → Result ReportRow
or_not_found none = err report_not_found
or_not_found (some row) = ok row

unfoldable pub select_row : Env → ℕ → ℕ → Action World ReportRow
unfolding report_of_consumer
select_row env report_id consumer_id =
    transact env λ now s. (reading (or_not_found (report_of_consumer report_id consumer_id s)), s)

unfoldable pub retrieve : Env → ℕ → ℕ → Action World RetrievedReportResource
unfolding select_row
retrieve env report_id consumer_id = do
  row ← select_row env report_id consumer_id
  pure (resource_of row)

-- An object's bytes: how many, their SHA-256 digest, and whether they begin with "%PDF-".
pub record Payload : Type 0 where
  pub length : ℕ
  pub digest : ℕ
  pub is_pdf : Bool

-- The object storage; a call that raises gives nothing. `get` is given the most bytes allowed.
pub record Storage : Type 0 where
  pub head : String → Option StoredObjectMetadata
  pub get : String → ℕ → Option Payload

-- What a ready report binds.
pub record Binding : Type 0 where
  pub storage_key : String
  pub content_sha256 : ℕ
  pub byte_length : ℕ
  pub mime_type : Option String

abbrev pub binding_of :
    Option String → Option ℕ → Option ℕ → Option String → Option String → Option Binding
binding_of (some key) (some sha) (some n) mime_type (some filename) =
    if opt_eq str_eq mime_type (some report_mime_type)
    then some
        (record { storage_key = key; content_sha256 = sha; byte_length = n; mime_type = mime_type })
    else none
binding_of _ _ _ _ _ = none

unfoldable pub binding : PreparedReportArtifact → Option Binding
binding a = binding_of a.storage_key a.content_sha256 a.byte_length a.mime_type a.filename

abbrev pub checked_payload : Binding → Option Payload → Result Payload
checked_payload b none = err report_artifact_integrity
checked_payload b (some p) =
    if p.length == b.byte_length && p.digest == b.content_sha256 && p.is_pdf
    then ok p
    else err report_artifact_integrity

abbrev pub with_metadata : Storage → ℕ → Binding → Option StoredObjectMetadata → Result Payload
with_metadata storage max_bytes b none = err report_artifact_integrity
with_metadata storage max_bytes b (some m) =
    if m.byte_length == b.byte_length && is_type m.content_type b.mime_type
    then checked_payload b (storage.get b.storage_key max_bytes)
    else err report_artifact_integrity

abbrev pub bound_content : Storage → ℕ → Option Binding → Result Payload
bound_content storage max_bytes none = err report_artifact_integrity
bound_content storage max_bytes (some b) =
    with_metadata storage max_bytes b (storage.head b.storage_key)

-- The bytes of a report that has been selected.
unfoldable pub content_of : Storage → ℕ → ReportRow → Result Payload
unfolding binding
content_of storage max_bytes row =
    if is_ready row.artifact.state
    then bound_content storage max_bytes (binding row.artifact)
    else err report_content_unavailable

unfoldable pub content :
    Env → Storage → ℕ → ℕ → ℕ → Action World (RetrievedReportResource × Payload)
unfolding select_row content_of
content env storage max_bytes report_id consumer_id = do
  row ← select_row env report_id consumer_id
  payload ← lift (content_of storage max_bytes row)
  pure (resource_of row, payload)
