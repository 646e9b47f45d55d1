-- ===== src/Commerce/RefundBinding/Money.antt =====
-- The money under bind_refund (fulfillment.py).
use sitescore.Common.{
  ℕ, Bool, true, false, ◌≡◌, str_eq, Option, none, some, is_none, ap, ◌∙◌, Option-cases, inl, inr,
  arith,
}
use sitescore.Commerce.Contracts.{RefundStatus, PaymentState}
use sitescore.Commerce.Rows.{OrderRow, Store}
use sitescore.Commerce.Tables.{select_or, get_order, get_order_key, get_order-write}
use sitescore.Common.Action.{ok, calls}
use sitescore.Commerce.Evidence.{RefundEvidence, RefundOperation}
use sitescore.Commerce.RefundBinding.{refunded_order, bind_refund, refund_mismatch}

abbrev pub payment_of : Option OrderRow → Option PaymentState
payment_of none = none
payment_of (some o) = some o.payment_state

-- What each status of a refund means for the payment.
abbrev pub payment_after : RefundStatus → Option PaymentState
payment_after RefundStatus.succeeded = some PaymentState.refunded
payment_after RefundStatus.pending = some PaymentState.refund_pending
payment_after RefundStatus.requires_action = some PaymentState.refund_pending
payment_after RefundStatus.failed = some PaymentState.refund_failed
payment_after RefundStatus.canceled = some PaymentState.refund_failed
payment_after (RefundStatus.other _) = none

mismatch_money :
    (operation : RefundOperation) (evidence : RefundEvidence) (external_full : Bool)
    → refund_mismatch operation evidence external_full ≡ none
    → (evidence.amount ≡ operation.original_amount_received)
      × (str_eq evidence.currency operation.currency ≡ true)
      × (str_eq evidence.payment_intent_id operation.stripe_payment_intent_id ≡ true)
unfolding refund_mismatch
mismatch_money operation evidence external_full h = ground arith

module _ (now : ℕ) (operation : RefundOperation) (evidence : RefundEvidence) (external_full : Bool)
    (s s' : Store) where
  bound_money :
      bind_refund now operation evidence external_full s ≡ (ok tt, s')
      → (evidence.amount ≡ operation.original_amount_received)
        × (str_eq evidence.currency operation.currency ≡ true)
        × (str_eq evidence.payment_intent_id operation.stripe_payment_intent_id ≡ true)
  unfolding bind_refund calls
  bound_money h = ground (arith, mismatch_money operation evidence external_full)

  bound_order :
      (order : OrderRow)
      → bind_refund now operation evidence external_full s ≡ (ok tt, s')
      → get_order operation.order_id s ≡ some order
      → get_order operation.order_id s' ≡ some (refunded_order evidence.status now order)
  unfolding bind_refund calls select_or refunded_order
  bound_order order h o = ground (
    arith,
    get_order_key operation.order_id s order,
    get_order-write operation.order_id (refunded_order evidence.status now order) s order,
  )

  found_order :
      bind_refund now operation evidence external_full s ≡ (ok tt, s')
      → is_none (get_order operation.order_id s) ≡ false
  unfolding bind_refund calls select_or
  found_order h = ground arith

  known_status :
      (order : OrderRow)
      → bind_refund now operation evidence external_full s ≡ (ok tt, s')
      → some (refunded_order evidence.status now order).payment_state
        ≡ payment_after evidence.status
  unfolding bind_refund calls refund_mismatch refunded_order
  known_status order h = ground arith

  -- A refund is bound only if it is of the whole amount received, in the currency and for the payment
  -- of the durable operation; the order is then refunded if the refund has succeeded, awaits it if it
  -- is pending or requires action, and has a failed refund if it failed or was canceled.
  pub bind_refund-money :
      bind_refund now operation evidence external_full s ≡ (ok tt, s')
      → (evidence.amount ≡ operation.original_amount_received)
        × (str_eq evidence.currency operation.currency ≡ true)
        × (str_eq evidence.payment_intent_id operation.stripe_payment_intent_id ≡ true)
        × (payment_of (get_order operation.order_id s') ≡ payment_after evidence.status)
  bind_refund-money h =
      let (a, c, p) = bound_money h in
      elim (Option-cases (get_order operation.order_id s)) [
        | inl o ↦ ground (arith, found_order h)
        | inr (order, o) ↦ (a, c, p, ap payment_of (bound_order order h o) ∙ known_status order h)
      ]
