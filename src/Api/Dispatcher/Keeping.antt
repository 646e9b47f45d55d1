-- ===== src/Api/Dispatcher/Keeping.antt =====
-- The analyses and their tasks under the dispatcher (dispatcher.py).
use sitescore.Common.{ℕ, true, false, ◌≡◌, refl, Option, none, some, List, [], ◌∷◌, is_none}
use sitescore.Common.Action.{Result, ok, err}
use sitescore.Api.Rows.{DispatchRow, Store, get_dispatch}
use sitescore.Api.Session.{Env, transact}
use sitescore.Api.Keeps.{
  Keeps, OthersKeep, transact-Keeps, send_task-Keeps, attempt-Keeps, pure-Keeps, raise-Keeps,
  bind-Keeps, then-Keeps,
}
use sitescore.Api.Evolves.{Evolves, trans-Evolves, same-Evolves, write_dispatch-Evolves}
use sitescore.Api.Dispatcher.{
  select_pending, failed_attempt, dispatched, update_pending, update_if, record_attempt,
  record_published, publish, dispatch_analysis, pending_ids, drain, drain_pending,
}

-- A change of a row of the outbox that keeps its task.
KeepsTask : (ℕ → DispatchRow → DispatchRow) → Type 0
KeepsTask change =
    (now : ℕ) (d : DispatchRow)
    → ((change now d).analysis_id ≡ d.analysis_id) × ((change now d).task_id ≡ d.task_id)

dispatched-KeepsTask : KeepsTask dispatched
unfolding KeepsTask dispatched
dispatched-KeepsTask now d = (refl, refl)

failed_attempt-KeepsTask : KeepsTask failed_attempt
unfolding KeepsTask failed_attempt
failed_attempt-KeepsTask now d = (refl, refl)

module _ (s₀ : Store) where
  update_pending-Evolves :
      (change : DispatchRow → DispatchRow) (k : ℕ) (s : Store) (o : Option DispatchRow)
      → ((d : DispatchRow)
          → ((change d).analysis_id ≡ d.analysis_id) × ((change d).task_id ≡ d.task_id))
      → get_dispatch k s ≡ o
      → Evolves s (update_pending change o s).1
  unfolding update_pending
  update_pending-Evolves change k s none c h = same-Evolves s
  update_pending-Evolves change k s (some d) c h =
      elim (is_none d.dispatched_at) as (λ b. Evolves s (update_if b change d s).1) [
        | true ↦ write_dispatch-Evolves k s d (change d) h (c d).0 (c d).1
        | false ↦ same-Evolves s
      ]

  module _ (env : Env) (others : OthersKeep env (Evolves s₀)) where
    record_attempt-Keeps :
        (change : ℕ → DispatchRow → DispatchRow) (k : ℕ)
        → KeepsTask change
        → Keeps (Evolves s₀) (transact env (record_attempt change k))
    unfolding record_attempt KeepsTask
    record_attempt-Keeps change k c =
        transact-Keeps (Evolves s₀) env others _
          λ now s p. trans-Evolves s₀ s _ p (update_pending-Evolves (change now) k s _ (c now) refl)

    record_published-Keeps :
        (k : ℕ) (r : Result (Unit {0})) → Keeps (Evolves s₀) (record_published env k r)
    unfolding record_published Keeps
    record_published-Keeps k (ok _) = record_attempt-Keeps dispatched k dispatched-KeepsTask
    record_published-Keeps k (err e) =
        then-Keeps (Evolves s₀) _ _ (record_attempt-Keeps failed_attempt k failed_attempt-KeepsTask)
          (raise-Keeps (Evolves s₀) _ e)

    publish-Keeps : (k : ℕ) (o : Option DispatchRow) → Keeps (Evolves s₀) (publish env k o)
    unfolding publish Keeps
    publish-Keeps k none = λ w p. p
    publish-Keeps k (some d) =
        attempt-Keeps (Evolves s₀) _ _ (send_task-Keeps (Evolves s₀) env k d.task_id)
          (record_published-Keeps k)

    pub dispatch_analysis-Keeps : (k : ℕ) → Keeps (Evolves s₀) (dispatch_analysis env k)
    unfolding dispatch_analysis select_pending
    dispatch_analysis-Keeps k =
        bind-Keeps (Evolves s₀) _ _ (transact-Keeps (Evolves s₀) env others _ λ now s p. p)
          (publish-Keeps k)

    drain-Keeps : (ids : List ℕ) → Keeps (Evolves s₀) (drain env ids)
    unfolding drain
    drain-Keeps [] = pure-Keeps (Evolves s₀) ℕ 0
    drain-Keeps (k ∷ ks) =
        attempt-Keeps (Evolves s₀) _ _ (dispatch_analysis-Keeps k)
          λ r. bind-Keeps (Evolves s₀) _ _ (drain-Keeps ks) λ n. pure-Keeps (Evolves s₀) ℕ _

    pub drain_pending-Keeps : (limit : ℕ) → Keeps (Evolves s₀) (drain_pending env limit)
    unfolding drain_pending pending_ids
    drain_pending-Keeps limit =
        bind-Keeps (Evolves s₀) _ _ (transact-Keeps (Evolves s₀) env others _ λ now s p. p)
          drain-Keeps
