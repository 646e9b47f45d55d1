-- ===== src/Commerce/Advance/Consistent.antt =====
-- Consistency of the store under the driver of a paid order (fulfillment_runtime.py).
use sitescore.Common.{ℕ, Bool, true, false, String, Option, none, some, is_none, arith}
use sitescore.Commerce.Contracts.{FulfillmentState}
use sitescore.Commerce.Rows.{OrderRow, CheckoutSessionRow, Reason, Store}
use sitescore.Commerce.Tables.{get_order, get_checkout, get_binding_row, get_eligibility}
use sitescore.Commerce.Evidence.{AnalysisOperation, RefundEvidence, RefundOperation}
use sitescore.Common.Action.{Result, ok, err, fulfillment_invariant, fulfillment_not_found}
use sitescore.Commerce.Keeps.{kept, kept_select, kept-pure, kept-gets}
use sitescore.Commerce.Session.{World, Env, submitted, refund_created}
use sitescore.Commerce.Consistency.{IsConsistent, IsSound}
use sitescore.Commerce.Stable.{
  Stable, Stable-pure, Stable-raise, Stable-lift, Stable-require, Stable-raise_if, Stable-send,
  Stable-bind, Stable-then, Stable-if, Stable-catch, Stable-read, sound, announced, IsAnnounced,
}
use sitescore.Commerce.Fulfillment.{FulfillmentSettings, get_binding}
use sitescore.Commerce.Fulfillment.Consistent.{
  prepare_analysis_operation-IsConsistent, bind_analysis-IsConsistent, bind_report-IsConsistent,
}
use sitescore.Commerce.Refund.{reason_resource, reason_terminal_state, load_refund_context}
use sitescore.Commerce.Refund.Consistent.{
  persist_refund_eligibility-IsConsistent, prepare_refund_operation-IsConsistent,
  prepare_refund_operation_outbox, load_refund_context_paid, load_refund_context_same,
}
use sitescore.Commerce.RefundBinding.Consistent.{
  bind_refund-IsConsistent, mark_attention-IsConsistent, bind_refund_outbox, mark_attention_outbox,
}
use sitescore.Commerce.Status.{get_status}
use sitescore.Commerce.RefundPlan.{
  RefundPlan, attend, adopt, adopt_external, create, is_bad_payment_intent,
  validate_refund_for_operation, refund_plan,
}
use sitescore.Commerce.Advance.{
  Gateways, is_at_rest, status, bound, ensure_analysis, reconcile_bound, reconcile_analysis,
  report_bound, ensure_report, reprove_eligibility, attention, bind, follow, refund_payment,
  pay_back, ensure_refund, pending_analysis, step, advance, on_invariant,
}

-- Reading leaves the store.
get_status-IsConsistent :
    (k order_id : ℕ) (s : Store)
    → IsConsistent k s
    → IsConsistent k (kept s (get_status order_id s))
unfolding get_status
get_status-IsConsistent k order_id s i =
    kept_select (IsConsistent k) s s i (get_order order_id)
      (fulfillment_not_found "order not found") _ λ order _. kept-pure (IsConsistent k) s s _ i

get_binding-IsConsistent :
    (k order_id : ℕ) (s : Store)
    → IsConsistent k s
    → IsConsistent k (kept s (get_binding order_id s))
unfolding get_binding
get_binding-IsConsistent k order_id s i =
    kept-gets (IsConsistent k) s s (get_binding_row order_id) _ (kept-pure (IsConsistent k) s s _ i)

load_refund_context-IsConsistent :
    (k order_id : ℕ) (s : Store)
    → IsConsistent k s
    → IsConsistent k (kept s (load_refund_context order_id s))
unfolding load_refund_context
load_refund_context-IsConsistent k order_id s i =
    kept_select (IsConsistent k) s s i (get_order order_id)
      (fulfillment_not_found "order not found") _
      λ order _.
        kept_select (IsConsistent k) s s i (get_checkout order_id)
          (fulfillment_invariant "refund context is incomplete") _
          λ checkout _.
            kept_select (IsConsistent k) s s i (get_eligibility order_id)
              (fulfillment_invariant "refund context is incomplete") _
              λ _ _. kept-pure (IsConsistent k) s s _ i

module _ (env : Env) (settings : FulfillmentSettings) (gateways : Gateways) (order_id : ℕ) where
  bound-Stable : Stable IsSound (bound env settings gateways order_id)
  unfolding bound
  bound-Stable = sound env _ _ λ k _ _ s i. get_binding-IsConsistent k order_id s (i k)

  ensure_analysis-Stable : Stable IsSound (ensure_analysis env settings gateways order_id)
  unfolding ensure_analysis
  ensure_analysis-Stable =
      Stable-bind IsSound _ _
        (sound env _ _ λ k now _ s i.
          prepare_analysis_operation-IsConsistent k now order_id s (i k) (i order_id) settings)
        λ operation. Stable-then IsSound _ _ (Stable-send IsSound (submitted operation)) (
          Stable-bind IsSound _ _ (Stable-lift IsSound (gateways.submit_analysis operation))
            λ evidence.
              Stable-then IsSound _ _
                (sound env _ _ λ k now _ s i.
                  bind_analysis-IsConsistent k now order_id s (i k) (i order_id) evidence)
                (Stable-pure IsSound tt))

  reconcile_bound-Stable :
      (operation : Option AnalysisOperation)
      → Stable IsSound (reconcile_bound env settings gateways order_id operation)
  unfolding reconcile_bound
  reconcile_bound-Stable none = Stable-raise IsSound _ _
  reconcile_bound-Stable (some operation) =
      Stable-bind IsSound _ _ (Stable-require IsSound operation.analysis_id _) λ analysis_id.
        Stable-bind IsSound _ _
          (Stable-lift IsSound (gateways.get_analysis operation.base_url analysis_id))
          λ evidence.
            Stable-then IsSound _ _
              (sound env _ _ λ k now _ s i.
                bind_analysis-IsConsistent k now order_id s (i k) (i order_id) evidence)
              (Stable-pure IsSound tt)

  reconcile_analysis-Stable : Stable IsSound (reconcile_analysis env settings gateways order_id)
  unfolding reconcile_analysis
  reconcile_analysis-Stable = Stable-bind IsSound _ _ bound-Stable reconcile_bound-Stable

  report_bound-Stable :
      (operation : Option AnalysisOperation)
      → Stable IsSound (report_bound env settings gateways order_id operation)
  unfolding report_bound
  report_bound-Stable none = Stable-raise IsSound _ _
  report_bound-Stable (some operation) =
      Stable-bind IsSound _ _ (Stable-require IsSound operation.analysis_id _) λ analysis_id.
        Stable-then IsSound _ _ (Stable-raise_if IsSound _ _) (
          Stable-bind IsSound _ _ (Stable-lift IsSound _) λ evidence.
            Stable-then IsSound _ _
              (sound env _ _ λ k now _ s i.
                bind_report-IsConsistent k now order_id s (i k) (i order_id) evidence)
              (Stable-pure IsSound tt))

  ensure_report-Stable : Stable IsSound (ensure_report env settings gateways order_id)
  unfolding ensure_report
  ensure_report-Stable = Stable-bind IsSound _ _ bound-Stable report_bound-Stable

  pending-Stable :
      (operation : Option AnalysisOperation)
      → Stable IsSound (pending_analysis env settings gateways order_id operation)
  unfolding pending_analysis
  pending-Stable none = ensure_analysis-Stable
  pending-Stable (some operation) =
      Stable-if IsSound (is_none operation.analysis_id) _ _ ensure_analysis-Stable
        reconcile_analysis-Stable

-- From here on the order is known to have been paid.
module _ (env : Env) (settings : FulfillmentSettings) (gateways : Gateways) (order_id : ℕ) where
  attention-Stable :
      (code : String) (refund_failure : Bool)
      → Stable (IsAnnounced order_id) (attention env settings gateways order_id code refund_failure)
  unfolding attention
  attention-Stable code refund_failure =
      announced order_id env _ _
        (λ k now _ s i a.
          mark_attention-IsConsistent k now s (i k) order_id code refund_failure
            (λ _. ground (arith, a, (i order_id).announced)))
        (λ now _ s. mark_attention_outbox now order_id code refund_failure s)

  bind-Stable :
      (operation : RefundOperation) (evidence : RefundEvidence) (external_full : Bool)
      → Stable (IsAnnounced order_id) (bind env settings gateways operation evidence external_full)
  unfolding bind
  bind-Stable operation evidence external_full =
      announced order_id env _ _
        (λ k now _ s i _.
          bind_refund-IsConsistent k now s (i k) operation evidence external_full
            (i operation.order_id))
        (λ now _ s. bind_refund_outbox now operation evidence external_full s)

  on_invariant-Stable :
      (code : String) (r : Result (Unit {0}))
      → Stable
          (IsAnnounced order_id)
          (on_invariant (attention env settings gateways order_id code true) r)
  on_invariant-Stable code (ok _) = Stable-pure (IsAnnounced order_id) tt
  on_invariant-Stable code (err (fulfillment_invariant _)) = attention-Stable code true
  on_invariant-Stable code (err e) = Stable-raise (IsAnnounced order_id) _ e

  follow-Stable :
      (operation : RefundOperation) (plan : RefundPlan)
      → Stable (IsAnnounced order_id) (follow env settings gateways order_id operation plan)
  unfolding follow
  follow-Stable operation (attend code) = attention-Stable code true
  follow-Stable operation (adopt evidence) =
      Stable-catch (IsAnnounced order_id) _ _
        (Stable-then (IsAnnounced order_id) _ _
          (Stable-lift (IsAnnounced order_id) (validate_refund_for_operation evidence operation))
          (bind-Stable operation evidence false))
        (on_invariant-Stable "matching_refund_conflict")
  follow-Stable operation (adopt_external evidence) = bind-Stable operation evidence true
  follow-Stable operation create =
      Stable-catch (IsAnnounced order_id) _ _
        (Stable-then (IsAnnounced order_id) _ _
          (Stable-send (IsAnnounced order_id) (refund_created operation))
          (Stable-bind (IsAnnounced order_id) _ _
            (Stable-lift (IsAnnounced order_id) (gateways.create_refund operation))
            λ evidence.
              Stable-then (IsAnnounced order_id) _ _
                (Stable-lift (IsAnnounced order_id)
                  (validate_refund_for_operation evidence operation))
                (bind-Stable operation evidence false)))
        (on_invariant-Stable "refund_provider_binding_mismatch")

  refund_payment-Stable :
      (order : OrderRow) (checkout : CheckoutSessionRow) (id : String)
      → Stable
          (IsAnnounced order_id)
          (refund_payment env settings gateways order_id order checkout id)
  unfolding refund_payment
  refund_payment-Stable order checkout id =
      let P = IsAnnounced order_id in
      Stable-bind P _ _ (Stable-lift P (gateways.retrieve_payment_intent id)) λ payment_intent.
        Stable-if P
          (is_bad_payment_intent payment_intent order checkout settings.stripe_expected_livemode) _
          _ (attention-Stable _ false)
          (Stable-bind P _ _
            (announced order_id env _ _
              (λ k now _ s i _.
                prepare_refund_operation-IsConsistent k now order_id s (i k) payment_intent)
              (λ now _ s. prepare_refund_operation_outbox now order_id payment_intent s))
            λ operation.
              Stable-bind P _ _
                (Stable-lift P (gateways.list_refunds operation.stripe_payment_intent_id))
                λ refunds. follow-Stable operation (refund_plan operation refunds))

  payment-Stable :
      (order : OrderRow) (checkout : CheckoutSessionRow) (id : Option String)
      → Stable (IsAnnounced order_id) (pay_back env settings gateways order_id order checkout id)
  unfolding pay_back
  payment-Stable order checkout none = attention-Stable _ false
  payment-Stable order checkout (some id) = refund_payment-Stable order checkout id

  reprove-Stable :
      (reason : Reason) → Stable IsSound (reprove_eligibility env settings gateways order_id reason)
  unfolding reprove_eligibility
  reprove-Stable reason =
      Stable-bind IsSound _ _ (bound-Stable env settings gateways order_id) λ operation.
        Stable-bind IsSound _ _ (Stable-require IsSound operation _) λ _. Stable-lift IsSound _

  ensure_refund-Stable :
      (reason : Reason) → Stable IsSound (ensure_refund env settings gateways order_id reason)
  unfolding ensure_refund IsSound IsAnnounced
  ensure_refund-Stable reason = Stable-bind IsSound _ _ (reprove-Stable reason) λ resource_id.
      Stable-then IsSound _ _
        (sound env _ _ λ k now _ s i.
          persist_refund_eligibility-IsConsistent k now order_id s (i k) reason
            (reason_resource reason) resource_id (reason_terminal_state reason))
        (Stable-read IsSound (IsAnnounced order_id) env _ (λ _ _. load_refund_context order_id) _
          (λ _ _ s. load_refund_context_same order_id s)
          (λ _ _ s r e i. (i, load_refund_context_paid order_id s r e (i order_id))) (λ s (i, _). i)
          (λ (order, checkout). payment-Stable order checkout checkout.stripe_payment_intent_id))

  step-Stable : (f : FulfillmentState) → Stable IsSound (step env settings gateways order_id f)
  unfolding step
  step-Stable FulfillmentState.not_started = ensure_analysis-Stable env settings gateways order_id
  step-Stable FulfillmentState.analysis_pending =
      Stable-bind IsSound _ _ (bound-Stable env settings gateways order_id)
        (pending-Stable env settings gateways order_id)
  step-Stable FulfillmentState.analysis_running =
      reconcile_analysis-Stable env settings gateways order_id
  step-Stable FulfillmentState.report_pending = ensure_report-Stable env settings gateways order_id
  step-Stable FulfillmentState.not_score_ready =
      ensure_refund-Stable Reason.analysis_not_score_ready
  step-Stable FulfillmentState.analysis_failed = ensure_refund-Stable Reason.analysis_failed
  step-Stable FulfillmentState.analysis_timed_out = ensure_refund-Stable Reason.analysis_timed_out
  step-Stable FulfillmentState.report_failed = ensure_refund-Stable Reason.report_failed
  step-Stable FulfillmentState.delivery_pending = Stable-pure IsSound tt
  step-Stable FulfillmentState.completed = Stable-pure IsSound tt
  step-Stable FulfillmentState.delivery_failed = Stable-pure IsSound tt

  status-Stable : Stable IsSound (status env settings gateways order_id)
  unfolding status
  status-Stable = sound env _ _ λ k _ _ s i. get_status-IsConsistent k order_id s (i k)

  advance-Stable : Stable IsSound (advance env settings gateways order_id)
  unfolding advance
  advance-Stable = Stable-bind IsSound _ _ status-Stable λ s.
      Stable-if IsSound (is_at_rest s) _ _ (Stable-pure IsSound s)
        (Stable-then IsSound _ _ (step-Stable s.fulfillment_state) status-Stable)

-- Whatever SiteScore, Stripe and the database answer, a call of the driver keeps a consistent store
-- consistent.
pub advance-IsConsistent :
    (env : Env) (settings : FulfillmentSettings) (gateways : Gateways) (order_id : ℕ) (w : World)
    → ((j : ℕ) → IsConsistent j w.store)
    → (k : ℕ) → IsConsistent k (advance env settings gateways order_id w).1.store
unfolding Stable IsSound
advance-IsConsistent env settings gateways order_id w i =
    advance-Stable env settings gateways order_id w i
