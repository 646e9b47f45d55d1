-- ===== src/Api/Admits.antt =====
-- What a predicate on the store has to withstand under the worker (worker.py): the changes of an
-- analysis and of reports that it commits.
use sitescore.Common.{
  ℕ, Bool, true, false, ◌≡◌, sym, ap, subst, ◌∙◌, ◌⊎◌, inl, inr, some, List, ◌∷◌, Member,
  find-Member, put-Member, put_rest, put_new, find, put, find_key, nat_eq, arith,
}
use sitescore.Api.Rows.{
  AnalysisRow, ReportRow, Store, get_analysis, write_analysis, analysis_key, is_completed,
}
use sitescore.Api.Moves.{Moves, Request}
use sitescore.Api.Sound.{IsSound}
use sitescore.Api.Evolves.{Evolves, trans-Evolves, write-Evolves, reports-Evolves}
use sitescore.Api.Report.{ReportKey, report_key, report_artifact_version, report_key_eq}

-- A report with the key.
unfoldable pub HasReport : ReportKey → List ReportRow → Type 0
HasReport k rs = (r : ReportRow) × (Member r rs × (report_key r ≡ k))

-- No key is lost.
unfoldable pub Covers : List ReportRow → List ReportRow → Type 0
Covers rs rs' = (k : ReportKey) → HasReport k rs → HasReport k rs'

-- The key of the report of an analysis.
abbrev pub current_key : ℕ → ReportKey
current_key analysis_id = (analysis_id, report_artifact_version)

-- Why an analysis may be completed: it was before, it has its report, or none is made.
unfoldable pub MayComplete : Bool → AnalysisRow → AnalysisRow → List ReportRow → Type 0
MayComplete unreported row row' rs =
    is_completed row'.state ≡ true
    → (is_completed row.state ≡ true)
      ⊎ (HasReport (current_key row'.analysis_id) rs ⊎ (unreported ≡ true))

pub record Admits (unreported : Bool) (P : Store → Type 0) : Type 0 where
  pub write :
      (k : ℕ) (s : Store) (row row' : AnalysisRow) (rs : List ReportRow)
      → get_analysis k s ≡ some row
      → Moves row row'
      → (IsSound row → IsSound row')
      → Covers s.reports rs
      → MayComplete unreported row row' rs
      → P s
      → P (record s { analyses = put analysis_key row' s.analyses; reports = rs })
  pub report :
      (s : Store) (rs : List ReportRow) → Covers s.reports rs → P s → P (record s { reports = rs })

pub Evolves-Admits : (unreported : Bool) (s₀ : Store) → Admits unreported (Evolves s₀)
Evolves-Admits unreported s₀ = record {
  write = λ k s row row' rs h m i c d p. trans-Evolves s₀ s _ p (
      trans-Evolves s (write_analysis row' s) _ (write-Evolves k s row row' h m i)
        (reports-Evolves (write_analysis row' s) rs));
  report = λ s rs c p. trans-Evolves s₀ s _ p (reports-Evolves s rs);
}

-- Every completed analysis has a report.
unfoldable pub IsPaired : Store → Type 0
IsPaired s =
    (r : AnalysisRow)
    → Member r s.analyses
    → is_completed r.state ≡ true
    → HasReport (current_key r.analysis_id) s.reports

paired_write :
    (k : ℕ) (s : Store) (row row' : AnalysisRow) (rs : List ReportRow)
    → get_analysis k s ≡ some row
    → Moves row row'
    → Covers s.reports rs
    → MayComplete false row row' rs
    → IsPaired s
    → is_completed row'.state ≡ true
    → HasReport (current_key row'.analysis_id) rs
unfolding IsPaired MayComplete Covers
paired_write k s row row' rs h m c d p e = elim (d e) [
  | inl was ↦ c _ (
      subst (λ i. HasReport (current_key i) s.reports)
        (sym (ap (λ (q : Request). q.analysis_id) m.request))
        (p row (find-Member analysis_key k s.analyses row h) was))
  | inr (inl has) ↦ has
  | inr (inr made) ↦ ground arith
]

pub IsPaired-Admits : Admits false IsPaired
unfolding IsPaired Covers
IsPaired-Admits = record {
  write = λ k s row row' rs h m i c d p r g e. elim (put-Member analysis_key row' s.analyses r g) [
    | inl q ↦
        subst (λ x. HasReport (current_key x.analysis_id) rs) (sym q)
          (paired_write k s row row' rs h m c d p
            (ap (λ (x : AnalysisRow). is_completed x.state) (sym q) ∙ e))
    | inr g' ↦ c _ (p r g' e)
  ];
  report = λ s rs c p r g e. c _ (p r g e);
}

pub same-Covers : (rs : List ReportRow) → Covers rs rs
unfolding Covers
same-Covers rs k h = h

pub cons-Covers : (r : ReportRow) (rs : List ReportRow) → Covers rs (r ∷ rs)
unfolding Covers HasReport
cons-Covers r rs k (x, (m, e)) = (x, (inr m, e))

pub put-Covers :
    (r old : ReportRow) (rs : List ReportRow)
    → find report_key (report_key r) rs ≡ some old
    → Covers rs (put report_key r rs)
unfolding Covers HasReport
put-Covers r old rs h k (x, (m, e)) = elim (put_rest report_key r rs old x h m) [
  | inl q ↦ (
    r,
    (
      put_new report_key r rs old h,
      sym (find_key report_key (report_key r) rs old h)
          ∙ ap (λ (y : ReportRow). report_key y) (sym q)
          ∙ e,
    ),
  )
  | inr m' ↦ (x, (m', e))
]
