-- ===== src/Api/Report.antt =====
-- The report of an analysis: its row, the comparison of that with a prepared artifact, and its
-- change to failed (report_artifacts.py, worker.py).
use sitescore.Common.{
  ℕ, ◌==◌, Bool, true, not, ◌&&◌, String, str_eq, Option, none, some, ◌∷◌, opt_eq, Eq, ◌≡◌, ◌↔◌,
  eq_iff, arith, find, put, if◌then◌else◌,
}
use sitescore.Common.Action.{Action, Result, ok, err, value_error, report_invariant_violation}
use sitescore.Api.Rows.{
  AnalysisRow, PreparedReportArtifact, Provenance, ReportRow, ReportState, Store, is_ready,
}

-- REPORT_ARTIFACT_VERSION
abbrev pub report_artifact_version : String
report_artifact_version = "sitescore-report-artifact-v1"

abbrev pub report_mime_type : String
report_mime_type = "application/pdf"

abbrev pub report_state_eq : ReportState → ReportState → Bool
report_state_eq ReportState.ready b = is_ready b
report_state_eq ReportState.failed b = not (is_ready b)

unfoldable pub provenance_eq : Provenance → Provenance → Bool
provenance_eq a b =
    str_eq a.analysis_fingerprint b.analysis_fingerprint
    && str_eq a.report_schema_version b.report_schema_version
    && str_eq a.report_projection_version b.report_projection_version
    && str_eq a.narrative_prompt_version b.narrative_prompt_version
    && str_eq a.narrative_schema_version b.narrative_schema_version
    && str_eq a.narrative_provider b.narrative_provider
    && opt_eq str_eq a.narrative_model_id b.narrative_model_id
    && opt_eq str_eq a.narrative_generation_mode b.narrative_generation_mode
    && opt_eq str_eq a.narrative_fallback_version b.narrative_fallback_version
    && str_eq a.presentation_schema_version b.presentation_schema_version
    && str_eq a.presentation_policy_version b.presentation_policy_version
    && str_eq a.template_version b.template_version
    && str_eq a.stylesheet_version b.stylesheet_version
    && str_eq a.chart_version b.chart_version
    && str_eq a.renderer_version b.renderer_version
    && a.generated_at == b.generated_at

-- Equality of all _REPORT_ARTIFACT_FIELDS.
unfoldable pub artifact_eq : PreparedReportArtifact → PreparedReportArtifact → Bool
unfolding provenance_eq
artifact_eq a b =
    a.report_id == b.report_id
    && a.analysis_id == b.analysis_id
    && str_eq a.report_artifact_version b.report_artifact_version
    && report_state_eq a.state b.state
    && provenance_eq a.provenance b.provenance
    && opt_eq (λ x y. x == y) a.content_sha256 b.content_sha256
    && opt_eq str_eq a.mime_type b.mime_type
    && opt_eq str_eq a.filename b.filename
    && opt_eq (λ x y. x == y) a.byte_length b.byte_length
    && opt_eq str_eq a.storage_key b.storage_key
    && opt_eq str_eq a.failure_code b.failure_code
    && opt_eq str_eq a.failure_message b.failure_message

unfoldable pub report_row_matches_artifact : ReportRow → PreparedReportArtifact → Bool
unfolding artifact_eq
report_row_matches_artifact row artifact = artifact_eq row.artifact artifact

-- `_failed_report_artifact`
unfoldable pub failed_report_artifact : PreparedReportArtifact → PreparedReportArtifact
failed_report_artifact a = record a {
  state = ReportState.failed;
  content_sha256 = none;
  mime_type = none;
  filename = none;
  byte_length = none;
  storage_key = none;
  failure_code = some "report_generation_failed";
  failure_message = some "report artifact generation failed";
}

-- The unique key of `reports`.
abbrev pub ReportKey : Type 0
ReportKey = ℕ × String

abbrev pub key_eq : ReportKey → ReportKey → Bool
key_eq (a, v) (b, u) = a == b && str_eq v u

pub key_beq_iff : (a b : ReportKey) → (key_eq a b ≡ true) ↔ (a ≡ b)
key_beq_iff (a, v) (b, u) = ground (arith, eq_iff v u)

instance abbrev pub report_key_eq : Eq ReportKey
report_key_eq = record { beq = key_eq; beq_iff = key_beq_iff }

abbrev pub key_of_artifact : PreparedReportArtifact → ReportKey
key_of_artifact a = (a.analysis_id, a.report_artifact_version)

abbrev pub report_key : ReportRow → ReportKey
report_key r = key_of_artifact r.artifact

abbrev pub get_report : ReportKey → Store → Option ReportRow
get_report k s = find report_key k s.reports

abbrev pub write_report : ReportRow → Store → Store
write_report r s = record s { reports = put report_key r s.reports }

-- `_fail_row_from_candidate`
unfoldable pub fail_row_from_candidate : ℕ → PreparedReportArtifact → ReportRow → ReportRow
unfolding failed_report_artifact
fail_row_from_candidate now artifact row = record row {
  artifact = record (failed_report_artifact artifact) { report_id = row.artifact.report_id };
  updated_at = now;
}

abbrev pub new_report : ℕ → PreparedReportArtifact → ReportRow
new_report now artifact = record { artifact = artifact; created_at = now; updated_at = now }

-- The rest of `persist_report_artifact`, once the row of the artifact's key has been selected.
unfoldable pub persist_report :
    ℕ → PreparedReportArtifact → Option ReportRow → Action Store ReportRow
persist_report now artifact none s =
    let row = new_report now artifact in (ok row, record s { reports = row ∷ s.reports })
persist_report now artifact (some existing) s =
    if existing.artifact.report_id == artifact.report_id
    then (ok existing, s)
    else (err report_invariant_violation, s)

unfoldable pub persist_report_artifact :
    ℕ → AnalysisRow → PreparedReportArtifact → Action Store ReportRow
unfolding persist_report
persist_report_artifact now analysis artifact s =
    if analysis.analysis_id == artifact.analysis_id
    then persist_report now artifact
        (get_report (analysis.analysis_id, artifact.report_artifact_version) s) s
    else (err (value_error "report artifact analysis binding mismatch"), s)

-- The row that is kept has to be that of the artifact.
unfoldable pub require_match :
    PreparedReportArtifact → Result ReportRow × Store → Result (Unit {0}) × Store
unfolding report_row_matches_artifact
require_match artifact (err e, s) = (err e, s)
require_match artifact (ok row, s) =
    if report_row_matches_artifact row artifact
    then (ok tt, s)
    else (err (value_error "existing report row is not semantically equivalent"), s)
