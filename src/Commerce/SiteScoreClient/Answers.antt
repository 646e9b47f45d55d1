-- ===== src/Commerce/SiteScoreClient/Answers.antt =====
-- The answers of the client of SiteScore (fulfillment.py).
use sitescore.Common.{ℕ, true, ◌≡◌, String, Option, some, arith}
use sitescore.Commerce.Contracts.{is_analysis_state, is_report_state}
use sitescore.Commerce.Evidence.{Metadata, get, AnalysisEvidence, ReportEvidence}
use sitescore.Common.Action.{Result, ok, err}
use Prim.Native.String.{◌++◌}
use sitescore.Commerce.Uuid.{uuid_text}
use sitescore.Commerce.SiteScoreClient.{
  get_request, request_result, Request, Response, expects, uuid_of, analysis_of, read_analysis,
  get_analysis, report_of, reread_report, get_report,
}

module _ (http : Request → Option Response) (parse_uuid : String → Option ℕ) where
  analysis_checked :
      (fields : Metadata) (id : ℕ) (e : AnalysisEvidence)
      → analysis_of http parse_uuid fields (some id) ≡ ok e
      → (e.analysis_id ≡ id) × (is_analysis_state e.state ≡ true)
  unfolding analysis_of expects
  analysis_checked fields id e h = (ground arith, ground arith)

  answer_checked :
      (r : Result Metadata) (id : ℕ) (e : AnalysisEvidence)
      → read_analysis http parse_uuid (some id) r ≡ ok e
      → (e.analysis_id ≡ id) × (is_analysis_state e.state ≡ true)
  unfolding read_analysis
  answer_checked (ok fields) id e h = analysis_checked fields id e h
  answer_checked (err x) id e h = ground arith

  -- An analysis that is read is the one that was asked for, in a known state.
  pub get_analysis-checked :
      (base_url : String) (id : ℕ) (e : AnalysisEvidence)
      → get_analysis http parse_uuid base_url id ≡ ok e
      → (e.analysis_id ≡ id) × (is_analysis_state e.state ≡ true)
  unfolding get_analysis
  get_analysis-checked base_url id e h =
      answer_checked
        (request_result (http (get_request base_url ("/v1/analyses/" ++ uuid_text id)))) id e h

  report_checked :
      (fields : Metadata) (analysis : Option ℕ) (id : ℕ) (e : ReportEvidence)
      → report_of http parse_uuid fields analysis (some id) ≡ ok e
      → (e.report_id ≡ id) × (is_report_state e.state ≡ true)
  unfolding report_of expects
  report_checked fields analysis id e h = (ground arith, ground arith)

  reread_checked :
      (r : Result Metadata) (id : ℕ) (e : ReportEvidence)
      → reread_report http parse_uuid id r ≡ ok e
      → (e.report_id ≡ id) × (is_report_state e.state ≡ true)
  unfolding reread_report
  reread_checked (ok fields) id e h =
      ground
        (arith, report_checked fields (uuid_of http parse_uuid (get "analysis_id" fields)) id e)
  reread_checked (err x) id e h = ground arith

  -- A report that is read again is the one that was asked for, in a known state.
  pub get_report-checked :
      (base_url : String) (id : ℕ) (e : ReportEvidence)
      → get_report http parse_uuid base_url id ≡ ok e
      → (e.report_id ≡ id) × (is_report_state e.state ≡ true)
  unfolding get_report
  get_report-checked base_url id e h =
      reread_checked (request_result (http (get_request base_url ("/v1/reports/" ++ uuid_text id))))
        id e h
