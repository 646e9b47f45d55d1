-- ===== src/Api/Pair/Keeping.antt =====
-- The store under the completion of an analysis together with its report (worker.py).
use sitescore.Common.{
  ℕ, ◌==◌, Bool, true, false, ◌≡◌, refl, sym, ap, subst, ◌∙◌, inl, inr, Option, none, some, List,
  ◌∷◌, arith, find-Member, find_key, nat_eq, if◌then◌else◌,
}
use sitescore.Common.Action.{Ending, commits, rolls_back, Result, ok, err, Error}
use sitescore.Commerce.Rows.{Json}
use sitescore.Api.Rows.{
  AnalysisRow, PreparedReportArtifact, ReportRow, Store, get_analysis, write_analysis, analysis_key,
  is_completed, is_terminal,
}
use sitescore.Api.Row.{Verdict, persist_completed, complete}
use sitescore.Api.Moves.{Moves, Request, persist_completed-Moves}
use sitescore.Api.Sound.{IsSound, persist_completed-IsSound}
use sitescore.Api.Keeps.{kept}
use sitescore.Api.Report.{
  key_of_artifact, report_key, report_key_eq, get_report, persist_report, persist_report_artifact,
  require_match, new_report, report_row_matches_artifact, report_artifact_version,
}
use sitescore.Api.Admits.{
  Admits, Covers, HasReport, MayComplete, current_key, same-Covers, cons-Covers,
}
use sitescore.Api.Pair.{
  completed_verdict, ended, with_report, pair_completed, pair_row, failed_pair_row, completed_alone,
  complete_row, failed_report_row, has_failed,
}

module _ (P : Store → Type 0) (s : Store) (p : P s) where
  ended_if_keeps :
      (v : Verdict) (b : Bool) (e : Error) (t : Store)
      → P t
      → P (kept s (ended v (if b then (ok tt, t) else (err e, t))))
  unfolding kept
  ended_if_keeps v true e t q = q
  ended_if_keeps v false e t q = p

  ended_keeps :
      (v : Verdict) (a : PreparedReportArtifact) (o : Result ReportRow × Store)
      → ((row : ReportRow) → o.0 ≡ ok row → P o.1)
      → P (kept s (ended v (require_match a o)))
  unfolding require_match kept
  ended_keeps v a (err e, t) h = p
  ended_keeps v a (ok row, t) h =
      ended_if_keeps v (report_row_matches_artifact row a) _ t (h row refl)

-- `persist_completed` completes the analysis only if it says so.
refused-completed :
    (now : ℕ) (body : Json) (row : AnalysisRow)
    → (persist_completed now body row).0 ≡ ok false
    → is_completed (persist_completed now body row).1.state ≡ true
    → is_completed row.state ≡ true
unfolding persist_completed complete
refused-completed now body row = ground arith

moved_id :
    (k : ℕ) (s : Store) (row row' : AnalysisRow)
    → get_analysis k s ≡ some row
    → Moves row row'
    → row'.analysis_id ≡ k
moved_id k s row row' h m =
    ap (λ (r : Request). r.analysis_id) m.request ∙ find_key analysis_key k s.analyses row h

either_kept :
    (P : Store → Type 0) (s : Store) (b : Bool) (x y : Result (Ending Verdict) × Store)
    → P (kept s x)
    → P (kept s y)
    → P (kept s (if b then x else y))
either_kept P s true x y p q = p
either_kept P s false x y p q = q

-- What has to hold of the store that the persisting of a report leaves, where it raises nothing.
module _ (P : Store → Type 0) (a : PreparedReportArtifact) (now : ℕ) (t : Store) where
  existing_keeps :
      (b : Bool) (x y : Result ReportRow × Store) → P x.1 → P y.1 → P (if b then x else y).1
  existing_keeps true x y p q = p
  existing_keeps false x y p q = q

  persist_report_keeps :
      (o : Option ReportRow) (row : ReportRow)
      → (o ≡ none → P (record t { reports = new_report now a ∷ t.reports }))
      → ((r : ReportRow) → o ≡ some r → P t)
      → (persist_report now a o t).0 ≡ ok row
      → P (persist_report now a o t).1
  unfolding persist_report
  persist_report_keeps none row f g h = f refl
  persist_report_keeps (some r) row f g h =
      existing_keeps (r.artifact.report_id == a.report_id) _ _ (g r refl) (g r refl)

  bound_keeps :
      (b : Bool) (o : Result ReportRow × Store) (e : Error) (row : ReportRow)
      → (b ≡ true → o.0 ≡ ok row → P o.1)
      → (if b then o else (err e, t)).0 ≡ ok row
      → P (if b then o else (err e, t)).1
  bound_keeps true o e row f h = f refl h
  bound_keeps false o e row f h = ground arith

module _ (P : Store → Type 0) (unreported : Bool) (admits : Admits unreported P)
    (a : PreparedReportArtifact)
    (current : a.report_artifact_version ≡ report_artifact_version) where
  -- An analysis that is completed together with its report.
  module _ (k now : ℕ) (s : Store) (row row' : AnalysisRow) (h : get_analysis k s ≡ some row)
      (m : Moves row row') (i : IsSound row → IsSound row') (p : P s) where
    paired_keeps :
        (rs : List ReportRow)
        → Covers s.reports rs
        → HasReport (row'.analysis_id, a.report_artifact_version) rs
        → P (record (write_analysis row' s) { reports = rs })
    unfolding MayComplete
    paired_keeps rs c r =
        admits.write k s row row' rs h m i c
          (λ _. inr (inl (subst (λ v. HasReport (row'.analysis_id, v) rs) current r))) p

    selected_keeps :
        (o : Option ReportRow) (r : ReportRow)
        → get_report (row'.analysis_id, a.report_artifact_version) s ≡ o
        → row'.analysis_id ≡ a.analysis_id
        → (persist_report now a o (write_analysis row' s)).0 ≡ ok r
        → P (persist_report now a o (write_analysis row' s)).1
    unfolding HasReport
    selected_keeps o r g e =
        persist_report_keeps P a now (write_analysis row' s) o r
          (λ _.
            paired_keeps _ (cons-Covers (new_report now a) s.reports)
              (new_report now a, (inl refl, ap (λ n. (n, a.report_artifact_version)) (sym e))))
          (λ x q. paired_keeps _ (same-Covers s.reports) (
            x,
            (
              find-Member report_key _ s.reports x (g ∙ q),
              find_key report_key _ s.reports x (g ∙ q),
            ),
          ))

    with_report_keeps : P (kept s (with_report now row' a (write_analysis row' s)))
    unfolding with_report persist_report_artifact
    with_report_keeps = ended_keeps P s p completed_verdict a _ λ r.
        bound_keeps P a now (write_analysis row' s) (row'.analysis_id == a.analysis_id) _ _ r
          λ e. selected_keeps _ r refl (ground arith)

    -- `persist_completed` and what follows it, by what it has given.
    pair_completed_keeps :
        (u : Verdict → Ending Verdict) (r : Result Bool)
        → (r ≡ ok false → is_completed row'.state ≡ true → is_completed row.state ≡ true)
        → P (kept s (pair_completed u now a (r, row') s))
    unfolding pair_completed kept MayComplete
    pair_completed_keeps u (err e) c = p
    pair_completed_keeps u (ok false) c =
        admits.write k s row row' s.reports h m i (same-Covers s.reports) (λ e. inl (c refl e)) p
    pair_completed_keeps u (ok true) c = with_report_keeps

    completed_alone_keeps :
        (r : Result Bool)
        → HasReport (current_key k) s.reports
        → P (kept s (completed_alone (r, row') s))
    unfolding kept MayComplete
    completed_alone_keeps (err e) g = p
    completed_alone_keeps (ok false) g = p
    completed_alone_keeps (ok true) g =
        admits.write k s row row' s.reports h m i (same-Covers s.reports)
          (λ e. inr (
            inl (
              subst (λ n. HasReport (current_key n) s.reports) (sym (moved_id k s row row' h m))
                g)))
          p

  -- The bodies of the transactions.
  module _ (s : Store) (p : P s) where
    pub pair_row_keeps :
        (k completed_at : ℕ) (body : Json) (o : Option AnalysisRow)
        → get_analysis k s ≡ o
        → P (kept s (pair_row completed_at body a o s))
    unfolding pair_row kept
    pair_row_keeps k completed_at body none h = p
    pair_row_keeps k completed_at body (some row) h =
        pair_completed_keeps k completed_at s row _ h
          (persist_completed-Moves completed_at row body)
          (λ i. persist_completed-IsSound completed_at row i body) p commits _
          (refused-completed completed_at body row)

    pub failed_pair_row_keeps :
        (k now : ℕ) (body : Json) (o : Option AnalysisRow)
        → get_analysis k s ≡ o
        → P (kept s (failed_pair_row now body a o s))
    unfolding failed_pair_row kept
    failed_pair_row_keeps k now body none h = p
    failed_pair_row_keeps k now body (some row) h = either_kept P s (is_completed row.state) _ _ p (
        either_kept P s (is_terminal row.state) _ _ p (
          pair_completed_keeps k now s row _ h (persist_completed-Moves now row body)
            (λ i. persist_completed-IsSound now row i body) p rolls_back _
            (refused-completed now body row)))

    report_alone_keeps : (now : ℕ) (row : AnalysisRow) → P (kept s (with_report now row a s))
    unfolding with_report persist_report_artifact
    report_alone_keeps now row = ended_keeps P s p completed_verdict a _ λ r.
        bound_keeps P a now s (row.analysis_id == a.analysis_id) _ _ r λ e.
          persist_report_keeps P a now s _ r
            (λ _. admits.report s _ (cons-Covers (new_report now a) s.reports) p) (λ _ _. p)

    pub failed_report_row_keeps :
        (k now : ℕ) (o : Option AnalysisRow)
        → get_analysis k s ≡ o
        → P (kept s (failed_report_row now a o s))
    unfolding failed_report_row kept
    failed_report_row_keeps k now none h = p
    failed_report_row_keeps k now (some row) h =
        either_kept P s (is_completed row.state) _ _ (report_alone_keeps now row) p

    complete_if_failed :
        (k now : ℕ) (body : Json) (row : AnalysisRow) (report : Option ReportRow)
        → get_analysis k s ≡ some row
        → get_report (k, a.report_artifact_version) s ≡ report
        → P (
            kept s (
              if has_failed report
              then completed_alone (persist_completed now body row) s
              else (ok (rolls_back Verdict.retry), s)))
    unfolding kept HasReport
    complete_if_failed k now body row none h g = p
    complete_if_failed k now body row (some r) h g =
        either_kept P s (has_failed (some r)) _ _
          (completed_alone_keeps k now s row _ h (persist_completed-Moves now row body)
            (λ i. persist_completed-IsSound now row i body) p _
            (
              r,
              (
                find-Member report_key _ s.reports r g,
                find_key report_key _ s.reports r g ∙ ap (λ v. (k, v)) current,
              ),
            ))
          p

    pub complete_row_keeps :
        (now : ℕ) (body : Json) (o : Option AnalysisRow)
        → get_analysis a.analysis_id s ≡ o
        → P (kept s (complete_row now body (get_report (key_of_artifact a) s) o s))
    unfolding complete_row kept
    complete_row_keeps now body none h = p
    complete_row_keeps now body (some row) h = either_kept P s (is_completed row.state) _ _ p (
        either_kept P s (is_terminal row.state) _ _ p
          (complete_if_failed a.analysis_id now body row _ h refl))
