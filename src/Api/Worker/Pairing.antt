-- ===== src/Api/Worker/Pairing.antt =====
-- Completed analyses and their reports under the worker (worker.py).
use sitescore.Common.{ℕ, ◌≡◌, sym, subst, ap, Option, some, is_none}
use sitescore.Api.Session.{World, Env}
use sitescore.Api.Keeps.{Keeps, OthersKeep}
use sitescore.Api.Admits.{Admits, IsPaired, IsPaired-Admits}
use sitescore.Api.Worker.{Services, Generator, execute_analysis}
use sitescore.Api.Worker.Keeping.{IsCurrent, execute_analysis-Keeps}

-- x
pub execute_analysis-IsPaired :
    (env : Env) (services : Services) (g : Generator) (analysis_id : ℕ) (w : World)
    → OthersKeep env IsPaired
    → services.report_artifacts ≡ some g
    → IsCurrent services.report_artifacts
    → IsPaired w.store
    → IsPaired (execute_analysis env services analysis_id w).1.store
unfolding Keeps
execute_analysis-IsPaired env services g analysis_id w others made current =
    execute_analysis-Keeps IsPaired env others services
      (subst (λ b. Admits b IsPaired) (sym (ap (λ (o : Option Generator). is_none o) made))
        IsPaired-Admits)
      current analysis_id w
