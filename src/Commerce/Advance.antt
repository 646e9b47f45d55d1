-- ===== src/Commerce/Advance.antt =====
-- The driver of a paid order (fulfillment_runtime.py, on the steps of fulfillment.py): it reads the
-- status, makes the one step that the status asks for, and reads the status again.
pub mod Consistent
pub mod Rest
pub mod Asks
use sitescore.Common.{
  ℕ, ◌==◌, Bool, true, false, not, ◌&&◌, ◌||◌, String, Option, none, some, List, opt_eq, is_none,
  if◌then◌else◌,
}
use sitescore.Commerce.Contracts.{
  OrderState, PaymentState, FulfillmentState, AnalysisState, ReportState, order_eq, payment_eq,
  is_completed,
}
use sitescore.Commerce.Rows.{OrderRow, CheckoutSessionRow, Reason, ResourceType, TerminalState}
use sitescore.Commerce.Evidence.{
  AnalysisOperation, AnalysisEvidence, ReportEvidence, PaymentIntentEvidence, RefundEvidence,
  RefundOperation,
}
use sitescore.Common.Action.{
  Action, Result, ok, err, fulfillment_invariant, pure, raise, require, lift, raise_if, ◌>>=◌, ◌>>◌,
}
use sitescore.Commerce.Fulfillment.{
  FulfillmentSettings, prepare_analysis_operation, get_binding, bind_analysis, bind_report,
}
use sitescore.Commerce.Refund.{
  refund_reason, reason_resource, reason_terminal_state, persist_refund_eligibility,
  load_refund_context, prepare_refund_operation,
}
use sitescore.Commerce.RefundBinding.{bind_refund, mark_attention}
use sitescore.Commerce.Status.{AutomationStatus, get_status}
use sitescore.Commerce.RefundPlan.{
  RefundPlan, attend, adopt, adopt_external, create, is_bad_payment_intent,
  validate_refund_for_operation, refund_plan,
}
use sitescore.Commerce.Session.{World, Env, submitted, refund_created, transaction, send, catch}

-- The providers (`SiteScoreGateway`, `RefundGateway`) as they answer during one request.
pub record Gateways : Type 0 where
  pub submit_analysis : AnalysisOperation → Result AnalysisEvidence
  pub get_analysis : String → ℕ → Result AnalysisEvidence
  pub resolve_report : String → ℕ → Result ReportEvidence
  pub get_report : String → ℕ → Result ReportEvidence
  pub retrieve_payment_intent : String → Result PaymentIntentEvidence
  pub list_refunds : String → Result (List RefundEvidence)
  pub create_refund : RefundOperation → Result RefundEvidence

-- Whether an analysis, or a report, is in the terminal state of a reason.
shows_analysis : TerminalState → AnalysisState → Bool
shows_analysis TerminalState.not_score_ready AnalysisState.not_score_ready = true
shows_analysis TerminalState.failed AnalysisState.failed = true
shows_analysis TerminalState.timed_out AnalysisState.timed_out = true
shows_analysis _ _ = false

shows_report : TerminalState → ReportState → Bool
shows_report TerminalState.failed ReportState.failed = true
shows_report _ _ = false

-- `except FulfillmentInvariantError`, with the handler of that exception.
abbrev on_invariant : Action World (Unit {0}) → Result (Unit {0}) → Action World (Unit {0})
on_invariant handler (err (fulfillment_invariant _)) = handler
on_invariant handler (err e) = raise e
on_invariant handler (ok _) = pure tt

abbrev unavailable : String
unavailable = "fulfillment persistence is unavailable"

-- Whether `advance` returns the status at once.
unfoldable pub is_at_rest : AutomationStatus → Bool
is_at_rest s =
    order_eq s.order_state OrderState.refunded
    || order_eq s.order_state OrderState.fulfilled
    || order_eq s.order_state OrderState.expired
    || order_eq s.order_state OrderState.attention_required
    || (not (payment_eq s.payment_state PaymentState.paid)
        && is_none (refund_reason s.fulfillment_state))

module _ (env : Env) (settings : FulfillmentSettings) (gateways : Gateways) where
  status : ℕ → Action World AutomationStatus
  status order_id = transaction env "fulfillment status is unavailable" (λ _ _. get_status order_id)

  bound : ℕ → Action World (Option AnalysisOperation)
  bound order_id = transaction env unavailable (λ _ _. get_binding order_id)

  -- `_ensure_analysis`
  ensure_analysis : ℕ → Action World (Unit {0})
  ensure_analysis order_id = do
    operation ←
        transaction env unavailable (λ now _. prepare_analysis_operation settings now order_id)
    send (submitted operation)
    evidence ← lift (gateways.submit_analysis operation)
    transaction env "analysis binding could not be persisted"
        (λ now _. bind_analysis now order_id evidence)
    pure tt

  -- `_reconcile_analysis`, on the binding that it has read.
  reconcile_bound : ℕ → Option AnalysisOperation → Action World (Unit {0})
  reconcile_bound order_id none = raise (fulfillment_invariant "bound analysis is unavailable")
  reconcile_bound order_id (some operation) = do
    analysis_id ←
        require operation.analysis_id (fulfillment_invariant "bound analysis is unavailable")
    evidence ← lift (gateways.get_analysis operation.base_url analysis_id)
    transaction env "analysis binding could not be persisted"
        (λ now _. bind_analysis now order_id evidence)
    pure tt

  reconcile_analysis : ℕ → Action World (Unit {0})
  unfolding bound reconcile_bound
  reconcile_analysis order_id = do operation ← bound order_id; reconcile_bound order_id operation

  -- The report of a completed analysis, resolved once and read again from then on.
  report_evidence : AnalysisOperation → ℕ → Result ReportEvidence
  report_evidence operation analysis_id = elim operation.report_id [
    | none ↦ gateways.resolve_report operation.base_url analysis_id
    | some report_id ↦ elim (gateways.get_report operation.base_url report_id) [
      | err e ↦ err e
      | ok evidence ↦
          if evidence.analysis_id == analysis_id
          then ok evidence
          else err (fulfillment_invariant "report analysis binding mismatch")
    ]
  ]

  -- `_ensure_report`, on the binding that it has read.
  report_bound : ℕ → Option AnalysisOperation → Action World (Unit {0})
  unfolding report_evidence
  report_bound order_id none = raise (fulfillment_invariant "completed bound analysis is required")
  report_bound order_id (some operation) = do
    analysis_id ←
        require operation.analysis_id (fulfillment_invariant "completed bound analysis is required")
    raise_if (not (is_completed operation.analysis_state))
        (fulfillment_invariant "completed bound analysis is required")
    evidence ← lift (report_evidence operation analysis_id)
    transaction env "report binding could not be persisted"
        (λ now _. bind_report now order_id evidence)
    pure tt

  ensure_report : ℕ → Action World (Unit {0})
  unfolding bound report_bound
  ensure_report order_id = do operation ← bound order_id; report_bound order_id operation

  -- The resource whose terminal failure a reason names, as the provider reports it now.
  reprove_resource : Reason → AnalysisOperation → Result ℕ
  unfolding shows_analysis shows_report
  reprove_resource reason operation = elim (reason_resource reason) [
    | ResourceType.analysis ↦ elim operation.analysis_id [
      | none ↦ err (fulfillment_invariant "analysis refund evidence is unavailable")
      | some analysis_id ↦ elim (gateways.get_analysis operation.base_url analysis_id) [
        | err e ↦ err e
        | ok evidence ↦
            if shows_analysis (reason_terminal_state reason) evidence.state
            then ok analysis_id
            else err (fulfillment_invariant "analysis terminal refund truth changed")
      ]
    ]
    | ResourceType.report ↦ elim operation.report_id [
      | none ↦ err (fulfillment_invariant "report refund evidence is unavailable")
      | some report_id ↦ elim (gateways.get_report operation.base_url report_id) [
        | err e ↦ err e
        | ok report ↦
            if opt_eq ◌==◌ (some report.analysis_id) operation.analysis_id
              && shows_report (reason_terminal_state reason) report.state
            then ok report_id
            else err (fulfillment_invariant "report terminal refund truth changed")
      ]
    ]
  ]

  -- `_reprove_eligibility`
  reprove_eligibility : ℕ → Reason → Action World ℕ
  unfolding bound reprove_resource
  reprove_eligibility order_id reason = do
    operation ← bound order_id
    operation' ← require operation (fulfillment_invariant "fulfillment binding is unavailable")
    lift (reprove_resource reason operation')

  attention : ℕ → String → Bool → Action World (Unit {0})
  attention order_id code refund_failure =
      transaction env "attention state could not be persisted"
        (λ now _. mark_attention now order_id code refund_failure)

  bind : RefundOperation → RefundEvidence → Bool → Action World (Unit {0})
  bind operation evidence external_full =
      transaction env "refund reconciliation could not be persisted"
        (λ now _. bind_refund now operation evidence external_full)

  -- Acts on what the provider's refunds ask for.
  unfoldable pub follow : ℕ → RefundOperation → RefundPlan → Action World (Unit {0})
  unfolding attention bind
  follow order_id operation (attend code) = attention order_id code true
  follow order_id operation (adopt evidence) =
      catch
        (do lift (validate_refund_for_operation evidence operation); bind operation evidence false)
        (on_invariant (attention order_id "matching_refund_conflict" true))
  follow order_id operation (adopt_external evidence) = bind operation evidence true
  follow order_id operation create =
      catch
        (do
          send (refund_created operation)
          evidence ← lift (gateways.create_refund operation)
          lift (validate_refund_for_operation evidence operation)
          bind operation evidence false)
        (on_invariant (attention order_id "refund_provider_binding_mismatch" true))

  -- The refund of a payment whose identity the order's session holds.
  refund_payment : ℕ → OrderRow → CheckoutSessionRow → String → Action World (Unit {0})
  unfolding follow attention
  refund_payment order_id order checkout payment_intent_id = do
    payment_intent ← lift (gateways.retrieve_payment_intent payment_intent_id)
    if is_bad_payment_intent payment_intent order checkout settings.stripe_expected_livemode
        then attention order_id "payment_intent_binding_mismatch" false
        else (do
          operation ←
              transaction env "refund operation could not be persisted"
                (λ now _. prepare_refund_operation now order_id payment_intent)
          refunds ← lift (gateways.list_refunds operation.stripe_payment_intent_id)
          follow order_id operation (refund_plan operation refunds))

  -- A session without a payment is left to a person.
  pay_back : ℕ → OrderRow → CheckoutSessionRow → Option String → Action World (Unit {0})
  unfolding attention refund_payment
  pay_back order_id order checkout none = attention order_id "payment_intent_missing" false
  pay_back order_id order checkout (some id) = refund_payment order_id order checkout id

  -- `_ensure_refund`
  ensure_refund : ℕ → Reason → Action World (Unit {0})
  unfolding reprove_eligibility pay_back
  ensure_refund order_id reason = do
    resource_id ← reprove_eligibility order_id reason
    transaction env "refund eligibility could not be persisted" (λ now _.
        persist_refund_eligibility now order_id reason (reason_resource reason) resource_id
          (reason_terminal_state reason))
    (order, checkout) ←
        transaction env "refund context is unavailable" (λ _ _. load_refund_context order_id)
    pay_back order_id order checkout checkout.stripe_payment_intent_id

  -- An analysis that is pending is submitted again unless its answer was bound.
  pending_analysis : ℕ → Option AnalysisOperation → Action World (Unit {0})
  unfolding ensure_analysis reconcile_analysis
  pending_analysis order_id none = ensure_analysis order_id
  pending_analysis order_id (some operation) =
      if is_none operation.analysis_id
      then ensure_analysis order_id
      else reconcile_analysis order_id

  -- The step that the fulfillment state asks for.
  step : ℕ → FulfillmentState → Action World (Unit {0})
  unfolding ensure_analysis bound pending_analysis reconcile_analysis ensure_report ensure_refund
  step order_id FulfillmentState.not_started = ensure_analysis order_id
  step order_id FulfillmentState.analysis_pending = do
    operation ← bound order_id
    pending_analysis order_id operation
  step order_id FulfillmentState.analysis_running = reconcile_analysis order_id
  step order_id FulfillmentState.report_pending = ensure_report order_id
  step order_id FulfillmentState.not_score_ready =
      ensure_refund order_id Reason.analysis_not_score_ready
  step order_id FulfillmentState.analysis_failed = ensure_refund order_id Reason.analysis_failed
  step order_id FulfillmentState.analysis_timed_out =
      ensure_refund order_id Reason.analysis_timed_out
  step order_id FulfillmentState.report_failed = ensure_refund order_id Reason.report_failed
  step order_id _ = pure tt

  unfoldable pub advance : ℕ → Action World AutomationStatus
  unfolding status step
  advance order_id = do
    s ← status order_id
    if is_at_rest s then pure s else (do step order_id s.fulfillment_state; status order_id)
