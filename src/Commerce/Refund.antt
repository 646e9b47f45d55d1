-- ===== src/Commerce/Refund.antt =====
-- Refunds in the fulfillment store (fulfillment.py): the eligibility of an order on a terminal
-- failure that was observed, the durable operation of one full refund, and its binding.
pub mod Consistent
use sitescore.Common.{
  ℕ, ◌==◌, Bool, not, ◌&&◌, ◌||◌, String, str_eq, Option, none, some, [], ◌∷◌, opt_eq,
}
use Prim.Native.String.{◌++◌}
use sitescore.Commerce.Contracts.{
  OrderState, PaymentState, FulfillmentState, order_eq, payment_eq, fulfillment_eq,
}
use sitescore.Commerce.Rows.{
  OrderRow, CheckoutSessionRow, RefundEligibilityRow, RefundOperationRow, Reason, ResourceType,
  TerminalState, Store,
}
use sitescore.Commerce.Tables.{
  select_or, get_checkout, get_binding_row, get_eligibility, get_refund,
}
use sitescore.Commerce.Evidence.{Metadata, PaymentIntentEvidence, RefundOperation}
use sitescore.Common.Action.{
  Action, fulfillment_invariant, pure, require, gets, modify, raise_if, ◌>>=◌, ◌>>◌,
}
use sitescore.Commerce.Uuid.{uuid_text}
use sitescore.Commerce.Fulfillment.{load_order_for_update}

abbrev pub refund_operation_version : String
refund_operation_version = "stripe_full_refund_v1"

-- `_refund_provider_key`
unfoldable pub refund_provider_key : ℕ → String
refund_provider_key order_id = "sitescore:refund:v1:" ++ uuid_text order_id

-- `REFUND_REASONS`: the fulfillment states from which an order is refunded.
abbrev pub refund_reason : FulfillmentState → Option Reason
refund_reason FulfillmentState.not_score_ready = some Reason.analysis_not_score_ready
refund_reason FulfillmentState.analysis_failed = some Reason.analysis_failed
refund_reason FulfillmentState.analysis_timed_out = some Reason.analysis_timed_out
refund_reason FulfillmentState.report_failed = some Reason.report_failed
refund_reason _ = none

-- `REFUND_REASON_STATES`
abbrev pub reason_resource : Reason → ResourceType
reason_resource Reason.report_failed = ResourceType.report
reason_resource _ = ResourceType.analysis

abbrev pub reason_terminal_state : Reason → TerminalState
reason_terminal_state Reason.analysis_not_score_ready = TerminalState.not_score_ready
reason_terminal_state Reason.analysis_timed_out = TerminalState.timed_out
reason_terminal_state _ = TerminalState.failed

abbrev reason_rank : Reason → ℕ
reason_rank Reason.analysis_not_score_ready = 0
reason_rank Reason.analysis_failed = 1
reason_rank Reason.analysis_timed_out = 2
reason_rank Reason.report_failed = 3

abbrev resource_rank : ResourceType → ℕ
resource_rank ResourceType.analysis = 0
resource_rank ResourceType.report = 1

abbrev terminal_rank : TerminalState → ℕ
terminal_rank TerminalState.not_score_ready = 0
terminal_rank TerminalState.failed = 1
terminal_rank TerminalState.timed_out = 2

reason_text : Reason → String
reason_text Reason.analysis_not_score_ready = "analysis_not_score_ready"
reason_text Reason.analysis_failed = "analysis_failed"
reason_text Reason.analysis_timed_out = "analysis_timed_out"
reason_text Reason.report_failed = "report_failed"

-- `RefundOperation.metadata`
unfoldable pub operation_metadata : RefundOperation → Metadata
unfolding reason_text
operation_metadata operation =
    ("sitescore_order_id", uuid_text operation.order_id)
    ∷ ("sitescore_refund_operation", operation.operation_version)
    ∷ ("sitescore_refund_reason", reason_text operation.eligibility_reason)
    ∷ []

-- An order that is fulfilled is not refunded.
unfoldable pub is_fulfilled : OrderRow → Bool
is_fulfilled order =
    order_eq order.order_state OrderState.fulfilled
    || fulfillment_eq order.fulfillment_state FulfillmentState.completed

-- `payment_state in {paid, refund_pending, refund_failed}`
is_refundable : PaymentState → Bool
is_refundable p =
    payment_eq p PaymentState.paid
    || payment_eq p PaymentState.refund_pending
    || payment_eq p PaymentState.refund_failed

same_eligibility : RefundEligibilityRow → Reason → ResourceType → ℕ → TerminalState → String → Bool
same_eligibility row reason resource_type resource_id terminal_state target =
    reason_rank row.eligibility_reason == reason_rank reason
    && resource_rank row.resource_type == resource_rank resource_type
    && row.resource_id == resource_id
    && terminal_rank row.server_observed_terminal_state == terminal_rank terminal_state
    && str_eq row.sitescore_api_target_id target

-- The eligibility of the order, which is written if there is none.
ensure_eligibility :
    ℕ
    → ℕ
    → Reason
    → ResourceType
    → ℕ
    → TerminalState
    → String
    → Option RefundEligibilityRow
    → Action Store (Unit {0})
unfolding same_eligibility
ensure_eligibility now order_id reason resource_type resource_id terminal_state target (some row) =
    raise_if (not (same_eligibility row reason resource_type resource_id terminal_state target))
      (fulfillment_invariant "refund eligibility identity conflict")
ensure_eligibility now order_id reason resource_type resource_id terminal_state target none =
    modify (λ s. record s {
      eligibility =
          record {
            order_id = order_id;
            eligibility_reason = reason;
            resource_type = resource_type;
            resource_id = resource_id;
            server_observed_terminal_state = terminal_state;
            observed_at = now;
            sitescore_api_target_id = target;
          }
          ∷ s.eligibility;
    })

unfoldable pub persist_refund_eligibility :
    ℕ → ℕ → Reason → ResourceType → ℕ → TerminalState → Action Store (Unit {0})
unfolding is_fulfilled is_refundable ensure_eligibility
persist_refund_eligibility now order_id reason resource_type resource_id terminal_state = do
  raise_if
      (not (resource_rank (reason_resource reason) == resource_rank resource_type)
        || not (terminal_rank (reason_terminal_state reason) == terminal_rank terminal_state))
      (fulfillment_invariant "refund eligibility evidence mismatch")
  order ← load_order_for_update order_id
  binding ←
      select_or (get_binding_row order_id)
        (fulfillment_invariant "refund eligibility requires a fulfillment binding")
  raise_if (is_fulfilled order)
      (fulfillment_invariant "fulfilled order is not automatically refundable")
  raise_if (not (is_refundable order.payment_state))
      (fulfillment_invariant "refund eligibility requires paid money authority")
  existing ← gets (get_eligibility order_id)
  ensure_eligibility now order_id reason resource_type resource_id terminal_state
      binding.sitescore_api_target_id existing

-- `load_refund_context`; the parts that its callers read.
unfoldable pub load_refund_context : ℕ → Action Store (OrderRow × CheckoutSessionRow)
load_refund_context order_id = do
  order ← load_order_for_update order_id
  checkout ←
      select_or (get_checkout order_id) (fulfillment_invariant "refund context is incomplete")
  _ ← select_or (get_eligibility order_id) (fulfillment_invariant "refund context is incomplete")
  pure (order, checkout)

new_refund : ℕ → ℕ → RefundEligibilityRow → PaymentIntentEvidence → RefundOperationRow
unfolding refund_provider_key
new_refund now order_id eligibility payment_intent = record {
  order_id = order_id;
  operation_version = refund_operation_version;
  provider_idempotency_key = refund_provider_key order_id;
  eligibility_reason = eligibility.eligibility_reason;
  eligibility_resource_type = eligibility.resource_type;
  eligibility_resource_id = eligibility.resource_id;
  stripe_payment_intent_id = payment_intent.payment_intent_id;
  original_amount_received = payment_intent.amount_received;
  currency = payment_intent.currency;
  stripe_refund_id = none;
  stripe_refund_status = none;
  stripe_refund_amount = none;
  failure_code = none;
  created_at = now;
  updated_at = now;
  last_reconciled_at = none;
}

-- `identity == expected`
same_refund : ℕ → RefundOperationRow → RefundEligibilityRow → PaymentIntentEvidence → Bool
unfolding refund_provider_key
same_refund order_id row eligibility payment_intent =
    str_eq row.operation_version refund_operation_version
    && str_eq row.provider_idempotency_key (refund_provider_key order_id)
    && reason_rank row.eligibility_reason == reason_rank eligibility.eligibility_reason
    && resource_rank row.eligibility_resource_type == resource_rank eligibility.resource_type
    && row.eligibility_resource_id == eligibility.resource_id
    && str_eq row.stripe_payment_intent_id payment_intent.payment_intent_id
    && row.original_amount_received == payment_intent.amount_received
    && str_eq row.currency payment_intent.currency

unfoldable pub refund_from_row : RefundOperationRow → RefundOperation
refund_from_row row = record {
  order_id = row.order_id;
  operation_version = row.operation_version;
  provider_idempotency_key = row.provider_idempotency_key;
  eligibility_reason = row.eligibility_reason;
  eligibility_resource_type = row.eligibility_resource_type;
  eligibility_resource_id = row.eligibility_resource_id;
  stripe_payment_intent_id = row.stripe_payment_intent_id;
  original_amount_received = row.original_amount_received;
  currency = row.currency;
}

-- The operation of the order, which is written if there is none.
ensure_refund_row :
    ℕ
    → ℕ
    → RefundEligibilityRow
    → PaymentIntentEvidence
    → Option RefundOperationRow
    → Action Store RefundOperationRow
unfolding new_refund
ensure_refund_row now order_id eligibility payment_intent (some row) = pure row
ensure_refund_row now order_id eligibility payment_intent none = do
  let row = new_refund now order_id eligibility payment_intent
  modify (λ s. record s { refunds = row ∷ s.refunds })
  pure row

unfoldable pub prepare_refund_operation :
    ℕ → ℕ → PaymentIntentEvidence → Action Store RefundOperation
unfolding is_fulfilled ensure_refund_row same_refund refund_from_row
prepare_refund_operation now order_id payment_intent = do
  order ← load_order_for_update order_id
  checkout ←
      select_or (get_checkout order_id)
        (fulfillment_invariant "refund operation prerequisites are unavailable")
  eligibility ←
      select_or (get_eligibility order_id)
        (fulfillment_invariant "refund operation prerequisites are unavailable")
  raise_if (is_fulfilled order)
      (fulfillment_invariant "fulfilled order is not automatically refundable")
  raise_if
      (not
        (opt_eq str_eq checkout.stripe_payment_intent_id (some payment_intent.payment_intent_id)))
      (fulfillment_invariant "PaymentIntent binding mismatch")
  raise_if (payment_intent.amount_received == 0 || not (str_eq payment_intent.currency "USD"))
      (fulfillment_invariant "PaymentIntent amount/currency invariant failed")
  existing ← gets (get_refund order_id)
  row ← ensure_refund_row now order_id eligibility payment_intent existing
  raise_if (not (same_refund order_id row eligibility payment_intent))
      (fulfillment_invariant "durable refund operation identity conflict")
  pure (refund_from_row row)
