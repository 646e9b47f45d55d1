-- ===== src/Api/Worker/Keeping.antt =====
-- The store under the worker (`execute_analysis` of worker.py).
use sitescore.Common.{
  ℕ, Bool, true, false, ◌≡◌, refl, ◌⊎◌, inl, inr, Option, none, some, is_none, arith,
}
use sitescore.Common.Action.{
  Ending, rolls_back, Result, ok, err, retryable_report_finalization, calls,
}
use sitescore.Commerce.Rows.{Json}
use sitescore.Api.Rows.{AnalysisRow, PreparedReportArtifact, Store, get_analysis, is_completed}
use sitescore.Api.Row.{
  Verdict, Job, Start, ended, started, start, fail, record_canonical_success_boundary, mark_success,
  end_not_score_ready, end_completed, persist_not_score_ready,
}
use sitescore.Api.Moves.{
  Moves, start-Moves, fail-Moves, boundary-Moves, end_not_score_ready-Moves, end_completed-Moves,
}
use sitescore.Api.Sound.{
  IsSound, start-IsSound, fail-IsSound, boundary-IsSound, end_not_score_ready-IsSound,
  end_completed-IsSound,
}
use sitescore.Api.Session.{Env, transact}
use sitescore.Api.Keeps.{
  Keeps, OthersKeep, transact-Keeps, attempt-Keeps, pure-Keeps, raise-Keeps, bind-Keeps,
  clock-Keeps,
}
use sitescore.Api.Report.{report_artifact_version}
use sitescore.Api.Admits.{Admits, MayComplete, same-Covers}
use sitescore.Api.Finalize.Keeping.{persist_completed_report_pair-Keeps}
use sitescore.Api.Worker.{
  Outcome, completed, not_score_ready, Generator, Services, update_row, on_row, outcome_row,
  give_up, finish_report, after_outcome, record_outcome, perform, run, on_error, lock_answer,
  try_lock, run_if, execute_analysis,
}

-- A step that completes no analysis, unless no reports are made.
record IsRowStep (unreported : Bool) (row row' : AnalysisRow) : Type 0 where
  moves : Moves row row'
  sound : IsSound row → IsSound row'
  may : is_completed row'.state ≡ true → (is_completed row.state ≡ true) ⊎ (unreported ≡ true)

module _ (unreported : Bool) (now : ℕ) (row : AnalysisRow) where
  start-IsRowStep : IsRowStep unreported row (start now row).1
  unfolding start calls
  start-IsRowStep = record {
    moves = start-Moves now row;
    sound = λ i. start-IsSound now row i;
    may = ground arith;
  }

  fail-IsRowStep : IsRowStep unreported row (fail now row).1
  unfolding fail
  fail-IsRowStep = record {
    moves = fail-Moves now row;
    sound = λ i. fail-IsSound now row i;
    may = ground arith;
  }

  boundary-IsRowStep : IsRowStep unreported row (record_canonical_success_boundary now row).1
  unfolding record_canonical_success_boundary mark_success
  boundary-IsRowStep = record {
    moves = boundary-Moves now row;
    sound = λ i. boundary-IsSound now row i;
    may = ground arith;
  }

  end_not_score_ready-IsRowStep :
      (body : Json) → IsRowStep unreported row (end_not_score_ready now body row).1
  unfolding end_not_score_ready persist_not_score_ready
  end_not_score_ready-IsRowStep body = record {
    moves = end_not_score_ready-Moves now row body;
    sound = λ i. end_not_score_ready-IsSound now row i body;
    may = ground arith;
  }

  end_completed-IsRowStep :
      (body : Json) → unreported ≡ true → IsRowStep unreported row (end_completed now body row).1
  end_completed-IsRowStep body u = record {
    moves = end_completed-Moves now row body;
    sound = λ i. end_completed-IsSound now row i body;
    may = λ _. inr u;
  }

outcome-IsRowStep :
    (g : Option Generator) (now : ℕ) (outcome : Outcome) (row : AnalysisRow)
    → IsRowStep (is_none g) row (outcome_row g now outcome row).1
unfolding outcome_row end_not_score_ready end_completed record_canonical_success_boundary
outcome-IsRowStep g now (not_score_ready body) row =
    end_not_score_ready-IsRowStep (is_none g) now row body
outcome-IsRowStep none now (completed body) row = end_completed-IsRowStep true now row body refl
outcome-IsRowStep (some g) now (completed body) row = boundary-IsRowStep false now row

-- The generator gives reports of the current version.
unfoldable pub IsCurrent : Option Generator → Type 0
IsCurrent o =
    (g : Generator) (consumer_id analysis_id : ℕ) (body : Json) (now : ℕ)
    (a : PreparedReportArtifact)
    → o ≡ some g
    → g consumer_id analysis_id body now ≡ some a
    → a.report_artifact_version ≡ report_artifact_version

module _ (P : Store → Type 0) (env : Env) (others : OthersKeep env P) (services : Services)
    (admits : Admits (is_none services.report_artifacts) P)
    (current : IsCurrent services.report_artifacts) where
  update_row_keeps :
      {A : Type 0} (f : AnalysisRow → Result (Ending A) × AnalysisRow) (gone : Ending A) (k : ℕ)
      (o : Option AnalysisRow) (s : Store)
      → ((row : AnalysisRow) → IsRowStep (is_none services.report_artifacts) row (f row).1)
      → get_analysis k s ≡ o
      → P s
      → P (update_row f gone o s).1
  unfolding update_row MayComplete
  update_row_keeps f gone k none s i h p = p
  update_row_keeps f gone k (some row) s i h p =
      admits.write k s row _ s.reports h (i row).moves (i row).sound (same-Covers s.reports)
        (λ e. elim ((i row).may e) [ inl c ↦ inl c | inr u ↦ inr (inr u) ]) p

  on_row-Keeps :
      {A : Type 0} (f : ℕ → AnalysisRow → Result (Ending A) × AnalysisRow) (gone : Ending A) (k : ℕ)
      → ((now : ℕ) (row : AnalysisRow)
          → IsRowStep (is_none services.report_artifacts) row (f now row).1)
      → Keeps P (transact env (on_row f gone k))
  unfolding on_row
  on_row-Keeps f gone k i =
      transact-Keeps P env others _ λ now s. update_row_keeps (f now) gone k _ s (i now) refl

  give_up-Keeps : (v : Verdict) → Keeps P (give_up v)
  give_up-Keeps Verdict.retry = raise-Keeps P _ _
  give_up-Keeps v = pure-Keeps P _ _

  finish_report-Keeps :
      (analysis_id : ℕ) (body : Json) (outcome_at : ℕ) (o : Option PreparedReportArtifact)
      → ((a : PreparedReportArtifact)
          → o ≡ some a
          → a.report_artifact_version ≡ report_artifact_version)
      → Keeps P (finish_report env services.head analysis_id body outcome_at o)
  unfolding finish_report
  finish_report-Keeps analysis_id body outcome_at none c = raise-Keeps P _ _
  finish_report-Keeps analysis_id body outcome_at (some a) c =
      bind-Keeps P _ give_up
        (persist_completed_report_pair-Keeps P env others (is_none services.report_artifacts) admits
          services.head body a (c a refl) analysis_id outcome_at)
        give_up-Keeps

  after_outcome-Keeps :
      (o : Option Generator) (analysis_id : ℕ) (job : Job) (outcome : Outcome) (outcome_at : ℕ)
      (v : Verdict)
      → IsCurrent o
      → Keeps P (after_outcome env services.head o analysis_id job outcome outcome_at v)
  unfolding after_outcome IsCurrent
  after_outcome-Keeps (some g) analysis_id job (completed body) outcome_at Verdict.protected c =
      finish_report-Keeps analysis_id body outcome_at _
        λ a e. c g job.consumer_id analysis_id body outcome_at a refl e
  after_outcome-Keeps _ analysis_id job outcome outcome_at _ c = pure-Keeps P _ _

  record_outcome-Keeps :
      (analysis_id : ℕ) (job : Job) (o : Option Outcome)
      → Keeps P (record_outcome env services analysis_id job o)
  unfolding record_outcome
  record_outcome-Keeps analysis_id job none = raise-Keeps P _ _
  record_outcome-Keeps analysis_id job (some outcome) = bind-Keeps P _ _ (clock-Keeps P env) λ now.
      bind-Keeps P _ _
        (on_row-Keeps (λ _. outcome_row services.report_artifacts now outcome)
          (rolls_back Verdict.missing) analysis_id
          λ _. outcome-IsRowStep services.report_artifacts now outcome)
        λ v. after_outcome-Keeps services.report_artifacts analysis_id job outcome now v current

  perform-Keeps : (analysis_id : ℕ) (s : Start) → Keeps P (perform env services analysis_id s)
  unfolding perform
  perform-Keeps analysis_id (ended v) = pure-Keeps P _ v
  perform-Keeps analysis_id (started job) =
      bind-Keeps P _ _ (clock-Keeps P env) λ now. record_outcome-Keeps analysis_id job _

  run-Keeps : (analysis_id : ℕ) → Keeps P (run env services analysis_id)
  unfolding run
  run-Keeps analysis_id =
      bind-Keeps P _ _
        (on_row-Keeps start _ analysis_id (start-IsRowStep (is_none services.report_artifacts)))
        (perform-Keeps analysis_id)

  on_error-Keeps : (analysis_id : ℕ) (r : Result Verdict) → Keeps P (on_error env analysis_id r)
  unfolding on_error
  on_error-Keeps analysis_id (ok v) = pure-Keeps P _ v
  on_error-Keeps analysis_id (err (retryable_report_finalization m)) = raise-Keeps P _ _
  on_error-Keeps analysis_id (err e) =
      on_row-Keeps fail _ analysis_id (fail-IsRowStep (is_none services.report_artifacts))

  run_if-Keeps : (analysis_id : ℕ) (b : Bool) → Keeps P (run_if env services analysis_id b)
  unfolding run_if
  run_if-Keeps analysis_id true =
      attempt-Keeps P _ _ (run-Keeps analysis_id) (on_error-Keeps analysis_id)
  run_if-Keeps analysis_id false = pure-Keeps P _ _

  try_lock-Keeps : Keeps P (try_lock env)
  unfolding try_lock Keeps
  try_lock-Keeps w =
      transact-Keeps P env others (λ now s. (ok (lock_answer (env.authority w.turn)), s))
        (λ now s p. p) w

  pub execute_analysis-Keeps :
      (analysis_id : ℕ) → Keeps P (execute_analysis env services analysis_id)
  unfolding execute_analysis
  execute_analysis-Keeps analysis_id = bind-Keeps P _ _ try_lock-Keeps (run_if-Keeps analysis_id)
