-- ===== src/Commerce/RefundBinding.antt =====
-- The binding of a Stripe refund to its operation, and the marking of an order for attention
-- (fulfillment.py).
pub mod Consistent
pub mod Money
use sitescore.Common.{
  ℕ, zero, suc, ◌==◌, Bool, false, not, ◌&&◌, ◌||◌, String, str_eq, Option, none, some, List, any,
  opt_eq, is_none, if◌then◌else◌,
}
use sitescore.Commerce.Contracts.{OrderState, PaymentState, RefundStatus, is_refund_status}
use sitescore.Commerce.Rows.{OrderRow, RefundOperationRow, Store}
use sitescore.Commerce.Tables.{select_or, get_refund, write_order, write_refund}
use sitescore.Commerce.Evidence.{holds, RefundEvidence, RefundOperation}
use sitescore.Common.Action.{
  Action, ok, err, fulfillment_invariant, pure, require, lift, gets, modify, raise_if, ◌>>=◌, ◌>>◌,
}
use sitescore.Commerce.Fulfillment.{load_order_for_update}
use sitescore.Commerce.Refund.{operation_metadata}

-- The checks of the evidence that stand before the transaction.
unfoldable pub refund_mismatch : RefundOperation → RefundEvidence → Bool → Option String
refund_mismatch operation evidence external_full =
    if not (is_refund_status evidence.status)
    then some "unknown Stripe Refund status"
    else if not (str_eq evidence.payment_intent_id operation.stripe_payment_intent_id)
    then some "Refund PaymentIntent mismatch"
    else if not (evidence.amount == operation.original_amount_received)
        || not (str_eq evidence.currency operation.currency)
    then some "Refund amount/currency mismatch"
    else if not external_full && not (holds (operation_metadata operation) evidence.metadata)
    then some "Refund metadata binding mismatch"
    else none

-- `evidence.refund_id or row.stripe_refund_id`
new_refund_id : String → Option String → Option String
new_refund_id id old = if str_eq id "" then old else some id

failure_of : RefundStatus → Bool → Option String
failure_of RefundStatus.failed external_full = some "stripe_refund_failed"
failure_of RefundStatus.canceled external_full = some "stripe_refund_canceled"
failure_of _ external_full = if external_full then some "provider_already_fully_refunded" else none

-- What the status of the refund makes of the order.
unfoldable pub refunded_order : RefundStatus → ℕ → OrderRow → OrderRow
refunded_order RefundStatus.succeeded now order = record order {
  order_state = OrderState.refunded;
  payment_state = PaymentState.refunded;
  updated_at = now;
}
refunded_order RefundStatus.pending now order = record order {
  payment_state = PaymentState.refund_pending;
  updated_at = now;
}
refunded_order RefundStatus.requires_action now order = record order {
  order_state = OrderState.attention_required;
  payment_state = PaymentState.refund_pending;
  updated_at = now;
}
refunded_order RefundStatus.failed now order = record order {
  order_state = OrderState.attention_required;
  payment_state = PaymentState.refund_failed;
  updated_at = now;
}
refunded_order RefundStatus.canceled now order = record order {
  order_state = OrderState.attention_required;
  payment_state = PaymentState.refund_failed;
  updated_at = now;
}
refunded_order (RefundStatus.other _) now order = record order { updated_at = now }

bound_refund : ℕ → RefundEvidence → Bool → RefundOperationRow → RefundOperationRow
unfolding new_refund_id failure_of
bound_refund now evidence external_full row = record row {
  stripe_refund_id = new_refund_id evidence.refund_id row.stripe_refund_id;
  stripe_refund_status = some evidence.status;
  stripe_refund_amount = some evidence.amount;
  failure_code = failure_of evidence.status external_full;
  updated_at = now;
  last_reconciled_at = some now;
}

-- Whether the refund of another order has the identity that this one is given.
unfoldable pub refund_bound_elsewhere : RefundOperationRow → List RefundOperationRow → Bool
refund_bound_elsewhere row rows =
    not (is_none row.stripe_refund_id)
    && any
        (λ r.
          not (r.order_id == row.order_id) && opt_eq str_eq r.stripe_refund_id row.stripe_refund_id)
        rows

-- `row.stripe_refund_id is not None and row.stripe_refund_id != evidence.refund_id`
other_refund : Option String → String → Bool
other_refund none id = false
other_refund (some old) id = not (str_eq old id)

unfoldable pub bind_refund : ℕ → RefundOperation → RefundEvidence → Bool → Action Store (Unit {0})
unfolding other_refund bound_refund refund_bound_elsewhere
bind_refund now operation evidence external_full = do
  lift (elim (refund_mismatch operation evidence external_full) [
    | some message ↦ err (fulfillment_invariant message)
    | none ↦ ok tt
  ])
  order ← load_order_for_update operation.order_id
  row ←
      select_or (get_refund operation.order_id)
        (fulfillment_invariant "refund operation snapshot is unavailable")
  raise_if (other_refund row.stripe_refund_id evidence.refund_id)
      (fulfillment_invariant "refund binding conflict")
  let row' = bound_refund now evidence external_full row
  taken ← gets (λ s. refund_bound_elsewhere row' s.refunds)
  raise_if taken (fulfillment_invariant "Stripe Refund identity is already bound to another order")
  modify (λ s. write_order (refunded_order evidence.status now order) (write_refund row' s))

-- `code[:n]`
take_text : ℕ → String → String
take_text zero s = ""
take_text (suc n) String.[] = ""
take_text (suc n) (String.◌∷◌ c s) = String.◌∷◌ c (take_text n s)

-- The failure is also noted at the refund operation, if there is one.
note_failure : ℕ → String → Option RefundOperationRow → Action Store (Unit {0})
unfolding take_text
note_failure now code none = pure tt
note_failure now code (some row) =
    modify (write_refund (record row { failure_code = some (take_text 80 code); updated_at = now }))

attended_order : ℕ → Bool → OrderRow → OrderRow
attended_order now refund_failure order = record order {
  order_state = OrderState.attention_required;
  payment_state = if refund_failure then PaymentState.refund_failed else order.payment_state;
  updated_at = now;
}

unfoldable pub mark_attention : ℕ → ℕ → String → Bool → Action Store (Unit {0})
unfolding note_failure attended_order
mark_attention now order_id code refund_failure = do
  order ← load_order_for_update order_id
  modify (write_order (attended_order now refund_failure order))
  operation ← gets (get_refund order_id)
  note_failure now code operation
