-- ===== src/Api/Rows.antt =====
-- The tables of the analysis service (db_models.py) and a prepared report (report_artifacts.py). A
-- UUID is its number, a time is a number, and a SHA-256 digest is its number.
use sitescore.Common.{ℕ, Bool, true, false, String, Option, List, find, put, nat_eq}
use sitescore.Commerce.Rows.{Json}

-- PUBLIC_STATES
pub data PublicState : Type 0 where
  queued running completed not_score_ready failed timed_out : PublicState

-- TERMINAL_STATES
abbrev pub is_terminal : PublicState → Bool
is_terminal PublicState.queued = false
is_terminal PublicState.running = false
is_terminal _ = true

-- REPORT_STATES
pub data ReportState : Type 0 where
  ready failed : ReportState

abbrev pub is_completed : PublicState → Bool
is_completed PublicState.completed = true
is_completed _ = false

abbrev pub is_ready : ReportState → Bool
is_ready ReportState.ready = true
is_ready ReportState.failed = false

-- `analyses`
pub record AnalysisRow : Type 0 where
  pub analysis_id : ℕ
  pub consumer_id : ℕ
  pub creation_request_id : ℕ
  pub api_version : String
  pub state : PublicState
  pub request_payload : Json
  pub request_hash : ℕ
  pub idempotency_key : String
  pub task_id : ℕ
  pub created_at : ℕ
  pub updated_at : ℕ
  pub started_at : Option ℕ
  pub finished_at : Option ℕ
  pub deadline_at : ℕ
  pub canonical_success_at : Option ℕ
  pub result_body : Option Json
  pub readiness_body : Option Json
  pub failure_code : Option String
  pub failure_message : Option String

-- `dispatch_outbox`, whose primary key is left out: an analysis has one row.
pub record DispatchRow : Type 0 where
  pub analysis_id : ℕ
  pub task_id : ℕ
  pub created_at : ℕ
  pub dispatched_at : Option ℕ
  pub attempt_count : ℕ
  pub last_error_code : Option String
  pub last_error_message : Option String

-- The versions and the origin that a report carries.
pub record Provenance : Type 0 where
  pub analysis_fingerprint : String
  pub report_schema_version : String
  pub report_projection_version : String
  pub narrative_prompt_version : String
  pub narrative_schema_version : String
  pub narrative_provider : String
  pub narrative_model_id : Option String
  pub narrative_generation_mode : Option String
  pub narrative_fallback_version : Option String
  pub presentation_schema_version : String
  pub presentation_policy_version : String
  pub template_version : String
  pub stylesheet_version : String
  pub chart_version : String
  pub renderer_version : String
  pub generated_at : ℕ

pub record PreparedReportArtifact : Type 0 where
  pub report_id : ℕ
  pub analysis_id : ℕ
  pub report_artifact_version : String
  pub state : ReportState
  pub provenance : Provenance
  pub content_sha256 : Option ℕ
  pub mime_type : Option String
  pub filename : Option String
  pub byte_length : Option ℕ
  pub storage_key : Option String
  pub failure_code : Option String
  pub failure_message : Option String

-- `reports`: the columns of an artifact, and two times.
pub record ReportRow : Type 0 where
  pub artifact : PreparedReportArtifact
  pub created_at : ℕ
  pub updated_at : ℕ

pub record Store : Type 0 where
  pub analyses : List AnalysisRow
  pub dispatches : List DispatchRow
  pub reports : List ReportRow

abbrev pub analysis_key : AnalysisRow → ℕ
analysis_key r = r.analysis_id

abbrev pub dispatch_key : DispatchRow → ℕ
dispatch_key r = r.analysis_id

abbrev pub get_analysis : ℕ → Store → Option AnalysisRow
get_analysis k s = find analysis_key k s.analyses

abbrev pub get_dispatch : ℕ → Store → Option DispatchRow
get_dispatch k s = find dispatch_key k s.dispatches

abbrev pub write_analysis : AnalysisRow → Store → Store
write_analysis r s = record s { analyses = put analysis_key r s.analyses }

abbrev pub write_dispatch : DispatchRow → Store → Store
write_dispatch r s = record s { dispatches = put dispatch_key r s.dispatches }
