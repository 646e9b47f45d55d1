-- ===== src/Api/Service.antt =====
-- The calls of the analysis service one after another (lifecycle.py, dispatcher.py, worker.py), each
-- with all that others do meanwhile, and the stores that it reaches.
use sitescore.Common.{ℕ, Bool, true, ◌≡◌, false, ◌≢◌, ap, subst, is_none, [], Member, arith}
use sitescore.Api.Rows.{AnalysisRow, PublicState, Store, is_terminal}
use sitescore.Api.Moves.{Request}
use sitescore.Api.Session.{World, Env}
use sitescore.Api.Evolves.{
  Evolves, same-Evolves, trans-Evolves, OthersEvolve, others-Evolves, Keeps-Evolves, Successor,
  IsSoundStore, IsTasked, IsUnique,
}
use sitescore.Api.Admits.{Evolves-Admits}
use sitescore.Api.Dispatcher.{dispatch_analysis, drain_pending}
use sitescore.Api.Dispatcher.Keeping.{dispatch_analysis-Keeps, drain_pending-Keeps}
use sitescore.Api.Lifecycle.{Submission, submit, retrieve, reconcile_expired}
use sitescore.Api.Lifecycle.Keeping.{submit-Keeps, retrieve-Keeps, reconcile_expired-Keeps}
use sitescore.Api.Worker.{Services, execute_analysis}
use sitescore.Api.Worker.Keeping.{execute_analysis-Keeps, IsCurrent}

-- A call of the service, by a process whose reports are of the current version.
pub data Step (env : Env) (s : World) : World → Type 0 where
  submitted :
      (deadline_seconds task_id : ℕ) (c : Submission)
      → Step env s (submit env deadline_seconds task_id c s).1
  retrieved : (analysis_id consumer_id : ℕ) → Step env s (retrieve env analysis_id consumer_id s).1
  dispatched : (analysis_id : ℕ) → Step env s (dispatch_analysis env analysis_id s).1
  drained : (limit : ℕ) → Step env s (drain_pending env limit s).1
  swept :
      (selected authority : ℕ → Bool) → Step env s (reconcile_expired env selected authority s).1
  executed :
      (services : Services) (analysis_id : ℕ)
      → IsCurrent services.report_artifacts
      → Step env s (execute_analysis env services analysis_id s).1

pub data Steps (env : Env) (s : World) : World → Type 0 where
  stop : Steps env s s
  step : {t u : World} → Steps env s t → Step env t u → Steps env s u

module _ (env : Env) (others : OthersEvolve env) where
  step-Evolves : (s t : World) → Step env s t → Evolves s.store t.store
  step-Evolves s t (submitted d k c) =
      Keeps-Evolves _ s (submit-Keeps s.store env (others-Evolves env s.store others) d k c)
  step-Evolves s t (retrieved a c) =
      Keeps-Evolves _ s (retrieve-Keeps s.store env (others-Evolves env s.store others) a c)
  step-Evolves s t (dispatched a) =
      Keeps-Evolves _ s (dispatch_analysis-Keeps s.store env (others-Evolves env s.store others) a)
  step-Evolves s t (drained n) =
      Keeps-Evolves _ s (drain_pending-Keeps s.store env (others-Evolves env s.store others) n)
  step-Evolves s t (swept p q) =
      Keeps-Evolves _ s
        (reconcile_expired-Keeps s.store env p q (others-Evolves env s.store others))
  step-Evolves s t (executed services a c) = Keeps-Evolves _ s (
      execute_analysis-Keeps (Evolves s.store) env (others-Evolves env s.store others) services
        (Evolves-Admits _ s.store) c a)

  -- Any sequence of calls lets the store evolve.
  pub steps-Evolves : (s t : World) → Steps env s t → Evolves s.store t.store
  steps-Evolves s t stop = same-Evolves s.store
  steps-Evolves s t (step {t = u} h g) =
      trans-Evolves s.store u.store t.store (steps-Evolves s u h) (step-Evolves u t g)

  -- An analysis that has ended stays in the store as it is, whatever calls follow and whatever others
  -- do meanwhile.
  pub terminal-stays :
      (s t : World) (r : AnalysisRow)
      → Steps env s t
      → Member r s.store.analyses
      → is_terminal r.state ≡ true
      → Member r t.store.analyses
  unfolding Successor
  terminal-stays s t r h m e =
      let (r', (m', v)) = (steps-Evolves s t h).rows r m in
      subst (λ x. Member x t.store.analyses) (v.final e) m'

  -- An analysis whose success is recorded has a row after any calls, and that has not timed out.
  pub marked-stays :
      (s t : World) (r : AnalysisRow)
      → Steps env s t
      → IsSoundStore s.store
      → Member r s.store.analyses
      → is_none r.canonical_success_at ≡ false
      → (r' : AnalysisRow) × (Member r' t.store.analyses
          × ((r'.analysis_id ≡ r.analysis_id) × (r'.state ≢ PublicState.timed_out)))
  unfolding Successor IsSoundStore
  marked-stays s t r h i m e =
      let (r', (m', v)) = (steps-Evolves s t h).rows r m in
      let sound = i r m in
      (
        r',
        (
          m',
          (
            ap (λ (q : Request). q.analysis_id) v.request,
            λ late. ground (arith, v.timeout, sound.marked, late),
          ),
        ),
      )

abbrev pub empty_store : Store
empty_store = record { analyses = []; dispatches = []; reports = [] }

-- What holds of the rows of every store that the service reaches.
pub record IsConsistent (s : Store) : Type 0 where
  pub sound : IsSoundStore s
  pub tasked : IsTasked s
  pub unique : IsUnique s

-- Whatever calls are made and whatever others do meanwhile, starting from an empty store: every row
-- of an analysis satisfies the checks of its table and carries what its state says, every analysis
-- has a row in the outbox with its task, and a key of a consumer stands for one request.
pub reached-IsConsistent :
    (env : Env) (s t : World)
    → OthersEvolve env
    → s.store ≡ empty_store
    → Steps env s t
    → IsConsistent t.store
unfolding IsSoundStore IsTasked IsUnique
reached-IsConsistent env s t others e h =
    let v = subst (λ x. Evolves x t.store) e (steps-Evolves env others s t h) in
    record {
      sound = v.sound λ r m. elim m [ ];
      tasked = v.tasked λ r m. elim m [ ];
      unique = v.unique λ r r' m. elim m [ ];
    }
