-- ===== src/Commerce/SiteScoreClient.antt =====
-- The client of SiteScore's API (SiteScoreHttpGateway of fulfillment.py): what it makes of an HTTP
-- answer. The HTTP client and the reading of a UUID are parameters.
pub mod Answers
use sitescore.Common.{
  ℕ, ◌==◌, ltb, leb, Bool, true, false, not, ◌&&◌, ◌||◌, String, str_eq, Option, none, some,
  is_none, opt_eq, if◌then◌else◌,
}
use Prim.Native.String.{◌++◌}
use sitescore.Commerce.Contracts.{AnalysisState, ReportState, is_analysis_state, is_report_state}
use sitescore.Commerce.Rows.{Json}
use sitescore.Commerce.Evidence.{Metadata, get, AnalysisOperation, AnalysisEvidence, ReportEvidence}
use sitescore.Common.Action.{
  Error, Result, ok, err, sitescore_provider_unavailable, fulfillment_invariant,
}
use sitescore.Commerce.Fulfillment.{analysis_operation_version}
use sitescore.Commerce.Uuid.{uuid_text}

-- A request, less the headers that are the same for every request. The body of a report's request
-- is the analysis that it names.
pub data Body : Type 0 where
  no_body : Body
  analysis_body : Json → Body
  report_body : String → Body

pub record Request : Type 0 where
  pub method : String
  pub base_url : String
  pub path : String
  pub json_body : Body
  pub idempotency_key : Option String

abbrev pub get_request : String → String → Request
get_request base_url path = record {
  method = "GET";
  base_url = base_url;
  path = path;
  json_body = no_body;
  idempotency_key = none;
}

-- An answer: its status, and the entries of its JSON object by the `str` of their values, or none
-- where the text is not a JSON object.
pub record Response : Type 0 where
  pub status_code : ℕ
  pub data_fields : Option Metadata

rejected : String → Error
rejected code = sitescore_provider_unavailable code false

is_retryable : ℕ → Bool
is_retryable n = n == 429 || n == 500 || n == 502 || n == 503 || n == 504

-- `_request`, on the answer of the HTTP client: none where the request failed.
unfoldable pub request_result : Option Response → Result Metadata
unfolding rejected is_retryable
request_result none = err (sitescore_provider_unavailable "sitescore_network_error" true)
request_result (some response) =
    let n = response.status_code in
    if ltb n 200 || leb 300 n
    then err (
        if is_retryable n
        then sitescore_provider_unavailable "sitescore_retryable_http_error" true
        else if n == 404
        then rejected "sitescore_resource_not_found"
        else if n == 401 || n == 403
        then rejected "sitescore_auth_error"
        else rejected "sitescore_http_error")
    else elim response.data_fields [
      | none ↦ err (rejected "sitescore_malformed_response")
      | some fields ↦ ok fields
    ]

-- `data.get("state", "")`
abbrev text_of : Option String → String
text_of none = ""
text_of (some t) = t

unfoldable pub analysis_state_of : String → AnalysisState
analysis_state_of t =
    if str_eq t "queued"
    then AnalysisState.queued
    else if str_eq t "running"
    then AnalysisState.running
    else if str_eq t "completed"
    then AnalysisState.completed
    else if str_eq t "not_score_ready"
    then AnalysisState.not_score_ready
    else if str_eq t "failed"
    then AnalysisState.failed
    else if str_eq t "timed_out"
    then AnalysisState.timed_out
    else AnalysisState.other t

unfoldable pub report_state_of : String → ReportState
report_state_of t =
    if str_eq t "ready"
    then ReportState.ready
    else if str_eq t "failed"
    then ReportState.failed
    else ReportState.other t

-- The expected identity, if there is one, is the one that came.
expects : Option ℕ → ℕ → Bool
expects none id = true
expects (some expected) id = expected == id

-- `_api_v1`
is_v1 : Metadata → Bool
is_v1 fields = opt_eq str_eq (get "api_version" fields) (some "v1")

module _ (http : Request → Option Response) (parse_uuid : String → Option ℕ) where
  -- `_uuid`; `str(None)` is no UUID.
  uuid_of : Option String → Option ℕ
  uuid_of none = none
  uuid_of (some t) = parse_uuid t

  -- `_analysis`
  analysis_of : Metadata → Option ℕ → Result AnalysisEvidence
  unfolding rejected is_v1 uuid_of analysis_state_of expects
  analysis_of fields expected_id =
      if not (is_v1 fields)
      then err (rejected "sitescore_api_version_mismatch")
      else elim (uuid_of (get "analysis_id" fields)) [
        | none ↦ err (rejected "sitescore_analysis_id_invalid")
        | some id ↦
            let state = analysis_state_of (text_of (get "state" fields)) in
            if not (is_analysis_state state)
            then err (rejected "sitescore_analysis_state_unknown")
            else if not (expects expected_id id)
            then err (rejected "sitescore_analysis_id_mismatch")
            else ok (record { analysis_id = id; state = state })
      ]

  read_analysis : Option ℕ → Result Metadata → Result AnalysisEvidence
  unfolding analysis_of
  read_analysis expected_id (ok fields) = analysis_of fields expected_id
  read_analysis expected_id (err e) = err e

  unfoldable pub submit_analysis : AnalysisOperation → Result AnalysisEvidence
  unfolding request_result read_analysis
  submit_analysis operation =
      if not (str_eq operation.operation_version analysis_operation_version)
      then err (fulfillment_invariant "unsupported analysis operation version")
      else read_analysis operation.analysis_id (
          request_result (
            http (record {
              method = "POST";
              base_url = operation.base_url;
              path = "/v1/analyses";
              json_body = analysis_body operation.request_json;
              idempotency_key = some operation.idempotency_key;
            })))

  unfoldable pub get_analysis : String → ℕ → Result AnalysisEvidence
  unfolding request_result read_analysis
  get_analysis base_url analysis_id =
      read_analysis (some analysis_id)
        (request_result (http (get_request base_url ("/v1/analyses/" ++ uuid_text analysis_id))))

  -- `_report`, where the analysis that is expected is the one that the answer names for a report that
  -- is read again.
  report_of : Metadata → Option ℕ → Option ℕ → Result ReportEvidence
  unfolding rejected is_v1 uuid_of report_state_of expects
  report_of fields expected_analysis_id expected_report_id =
      if not (is_v1 fields)
      then err (rejected "sitescore_api_version_mismatch")
      else elim (uuid_of (get "report_id" fields)) [
        | none ↦ err (rejected "sitescore_report_id_invalid")
        | some id ↦ elim (uuid_of (get "analysis_id" fields)) [
          | none ↦ err (rejected "sitescore_report_analysis_id_invalid")
          | some analysis_id ↦
              let state = report_state_of (text_of (get "state" fields)) in
              if not (is_report_state state)
              then err (rejected "sitescore_report_state_unknown")
              else if not (expects expected_analysis_id analysis_id)
              then err (rejected "sitescore_report_analysis_id_mismatch")
              else if not (expects expected_report_id id)
              then err (rejected "sitescore_report_id_mismatch")
              else ok (record { report_id = id; analysis_id = analysis_id; state = state })
        ]
      ]

  read_report : Option ℕ → Option ℕ → Result Metadata → Result ReportEvidence
  unfolding report_of
  read_report analysis_id report_id (ok fields) = report_of fields analysis_id report_id
  read_report analysis_id report_id (err e) = err e

  unfoldable pub resolve_report : String → ℕ → Result ReportEvidence
  unfolding request_result read_report
  resolve_report base_url analysis_id = read_report (some analysis_id) none (
      request_result (
        http (record {
          method = "POST";
          base_url = base_url;
          path = "/v1/reports";
          json_body = report_body (uuid_text analysis_id);
          idempotency_key = none;
        })))

  -- The answer's own analysis, whose text is read before anything else.
  reread_report : ℕ → Result Metadata → Result ReportEvidence
  unfolding rejected uuid_of report_of
  reread_report report_id (err e) = err e
  reread_report report_id (ok fields) =
      if is_none (uuid_of (get "analysis_id" fields))
      then err (rejected "sitescore_report_analysis_id_invalid")
      else report_of fields (uuid_of (get "analysis_id" fields)) (some report_id)

  unfoldable pub get_report : String → ℕ → Result ReportEvidence
  unfolding request_result reread_report
  get_report base_url report_id =
      reread_report report_id
        (request_result (http (get_request base_url ("/v1/reports/" ++ uuid_text report_id))))
