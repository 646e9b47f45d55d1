-- ===== src/Commerce/RefundPlan.antt =====
-- The checks of a refund's evidence (fulfillment.py), and what the refunds that Stripe lists for a
-- payment ask for (fulfillment_runtime.py).
pub mod Choice
use sitescore.Common.{
  ◌==◌, Bool, true, false, not, ◌&&◌, ◌||◌, String, str_eq, Option, none, some, List, [], ◌∷◌,
  opt_eq, bool_eq, length, filter_by, if◌then◌else◌,
}
use text.Mathlib.Text.{starts_with}
use sitescore.Commerce.Contracts.{RefundStatus, is_refund_status}
use sitescore.Commerce.Rows.{OrderRow, CheckoutSessionRow}
use sitescore.Commerce.Evidence.{
  get, holds, intersects, PaymentIntentEvidence, RefundEvidence, RefundOperation,
}
use sitescore.Common.Action.{Result, ok, err, fulfillment_invariant}
use sitescore.Commerce.Uuid.{uuid_text}
use sitescore.Commerce.Refund.{operation_metadata}

-- `validate_payment_intent`: whether it raises.
unfoldable pub is_bad_payment_intent :
    PaymentIntentEvidence → OrderRow → CheckoutSessionRow → Bool → Bool
is_bad_payment_intent evidence order checkout expected_livemode =
    not (starts_with evidence.payment_intent_id "pi_")
    || not (opt_eq str_eq checkout.stripe_payment_intent_id (some evidence.payment_intent_id))
    || not (str_eq evidence.currency "USD")
    || evidence.amount_received == 0
    || not (bool_eq evidence.livemode expected_livemode)
    || not (
        opt_eq str_eq (get "sitescore_order_id" evidence.metadata)
          (some (uuid_text order.order_id)))
    || not
        (opt_eq str_eq (get "sitescore_product_code" evidence.metadata) (some order.product_code))

-- `validate_refund_for_operation` with `require_metadata=True`: the text that it raises, if it does.
unfoldable pub refund_fault : RefundEvidence → RefundOperation → Option String
refund_fault evidence operation =
    if not (starts_with evidence.refund_id "re_")
    then some "Refund identity is invalid"
    else if not (is_refund_status evidence.status)
    then some "unknown Stripe Refund status"
    else if not (str_eq evidence.payment_intent_id operation.stripe_payment_intent_id)
    then some "Refund PaymentIntent mismatch"
    else if not (evidence.amount == operation.original_amount_received)
        || not (str_eq evidence.currency operation.currency)
    then some "Refund money binding mismatch"
    else if not (holds (operation_metadata operation) evidence.metadata)
    then some "Refund metadata binding mismatch"
    else none

unfoldable pub validate_refund_for_operation : RefundEvidence → RefundOperation → Result (Unit {0})
unfolding refund_fault
validate_refund_for_operation evidence operation = elim (refund_fault evidence operation) [
  | some message ↦ err (fulfillment_invariant message)
  | none ↦ ok tt
]

-- `_is_matching_refund`
is_matching_refund : RefundOperation → RefundEvidence → Bool
is_matching_refund operation refund = holds (operation_metadata operation) refund.metadata

is_succeeded : RefundStatus → Bool
is_succeeded RefundStatus.succeeded = true
is_succeeded _ = false

-- One external refund of the whole amount that has succeeded.
is_external_full : RefundEvidence → RefundOperation → Bool
unfolding is_succeeded
is_external_full refund operation =
    str_eq refund.payment_intent_id operation.stripe_payment_intent_id
    && str_eq refund.currency operation.currency
    && refund.amount == operation.original_amount_received
    && is_succeeded refund.status

-- What the list of refunds at the provider asks for.
pub data RefundPlan : Type 0 where
  attend : String → RefundPlan
  adopt adopt_external : RefundEvidence → RefundPlan
  create : RefundPlan

plan_unmatched : RefundOperation → List RefundEvidence → RefundPlan
unfolding is_external_full
plan_unmatched operation [] = create
plan_unmatched operation (existing ∷ []) =
    if intersects (operation_metadata operation) existing.metadata
    then attend "conflicting_refund_metadata"
    else if is_external_full existing operation
    then adopt_external existing
    else attend "conflicting_existing_refund"
plan_unmatched operation _ = attend "conflicting_existing_refunds"

plan_matching : RefundOperation → List RefundEvidence → List RefundEvidence → RefundPlan
unfolding plan_unmatched
plan_matching operation refunds [] = plan_unmatched operation refunds
plan_matching operation refunds (match ∷ []) =
    if length refunds == 1 then adopt match else attend "conflicting_existing_refunds"
plan_matching operation refunds _ = attend "conflicting_existing_refunds"

unfoldable pub refund_plan : RefundOperation → List RefundEvidence → RefundPlan
unfolding plan_matching is_matching_refund
refund_plan operation refunds =
    plan_matching operation refunds (filter_by (is_matching_refund operation) refunds)
