-- ===== src/Api/ReportBackend/Answers.antt =====
-- The answers on reports and on their content (report_artifacts.py).
use sitescore.Common.{
  ℕ, true, false, ◌≡◌, ◌≢◌, refl, ap, ◌∙◌, Option, none, some, arith, is_none, List, [], ◌∷◌,
  Member, find-Member, find, Eq, find_key, nat_eq,
}
use sitescore.Common.Action.{ok, err, report_invariant_violation}
use sitescore.Api.Rows.{
  AnalysisRow, PublicState, ReportRow, Store, get_analysis, analysis_key, is_completed, is_ready,
}
use sitescore.Api.Report.{get_report, report_key, report_key_eq, report_artifact_version}
use sitescore.Api.Admits.{IsPaired, HasReport, current_key}
use sitescore.Api.ReportBackend.{
  of_consumer, by_state, reported, resolved, resolve_row, Payload, Storage, binding, content_of,
}

-- A key that some row has is found.
module _ {A K : Type 0} ⦃e : Eq K⦄ (key : A → K) where
  found_some :
      (k : K) (rs : List A) (r : A) → Member r rs → key r ≡ k → is_none (find key k rs) ≡ false
  found_some k [] r m h = elim m [ ]
  found_some k (x ∷ rs) r m h = ground (arith, e.beq_iff (key x) k, found_some k rs r)

completed_not_missing :
    (o : Option ReportRow) → is_none o ≡ false → reported o ≢ err report_invariant_violation
completed_not_missing none h e = ground arith
completed_not_missing (some r) h e = ground arith

state_not_missing :
    (st : PublicState) (o : Option ReportRow)
    → (is_completed st ≡ true → is_none o ≡ false)
    → by_state st o ≢ err report_invariant_violation
state_not_missing PublicState.completed o h e = completed_not_missing o (h refl) e
state_not_missing PublicState.queued o h e = ground arith
state_not_missing PublicState.running o h e = ground arith
state_not_missing PublicState.not_score_ready o h e = ground arith
state_not_missing PublicState.failed o h e = ground arith
state_not_missing PublicState.timed_out o h e = ground arith

resolved_not_missing :
    (a : Option AnalysisRow) (o : Option ReportRow)
    → ((r : AnalysisRow) → a ≡ some r → is_completed r.state ≡ true → is_none o ≡ false)
    → resolved a o ≢ err report_invariant_violation
unfolding resolved
resolved_not_missing none o h e = ground arith
resolved_not_missing (some r) o h e = state_not_missing r.state o (h r refl) e

of_consumer-some :
    (consumer_id : ℕ) (o : Option AnalysisRow) (r : AnalysisRow)
    → of_consumer consumer_id o ≡ some r
    → o ≡ some r
of_consumer-some consumer_id none r h = h
of_consumer-some consumer_id (some x) r h = ground arith

HasReport-found :
    (analysis_id : ℕ) (r : AnalysisRow) (s : Store)
    → get_analysis analysis_id s ≡ some r
    → HasReport (current_key r.analysis_id) s.reports
    → is_none (get_report (analysis_id, report_artifact_version) s) ≡ false
unfolding HasReport
HasReport-found analysis_id r s h (x, (m, e)) =
    found_some report_key (current_key analysis_id) s.reports x m
      (e ∙ ap current_key (find_key analysis_key analysis_id s.analyses r h))

-- Where every completed analysis has its report, a report that is looked for by its analysis is
-- never found missing.
pub resolve_row-found :
    (analysis_id consumer_id : ℕ) (s : Store)
    → IsPaired s
    → resolve_row analysis_id consumer_id s ≢ err report_invariant_violation
unfolding resolve_row IsPaired
resolve_row-found analysis_id consumer_id s p =
    resolved_not_missing (of_consumer consumer_id (get_analysis analysis_id s))
      (get_report (analysis_id, report_artifact_version) s)
      λ r h c.
        let g = of_consumer-some consumer_id (get_analysis analysis_id s) r h in
        HasReport-found analysis_id r s g
          (p r (find-Member analysis_key analysis_id s.analyses r g) c)

-- Bytes are given only for a ready report, and they are those that it binds.
pub content_of-bound :
    (storage : Storage) (max_bytes : ℕ) (row : ReportRow) (p : Payload)
    → content_of storage max_bytes row ≡ ok p
    → (is_ready row.artifact.state ≡ true)
      × ((row.artifact.content_sha256 ≡ some p.digest)
          × ((row.artifact.byte_length ≡ some p.length) × (p.is_pdf ≡ true)))
unfolding content_of binding
content_of-bound storage max_bytes row p h = ground arith
