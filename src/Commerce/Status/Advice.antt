-- ===== src/Commerce/Status/Advice.antt =====
-- The status of an order for automation beside the driver (fulfillment.py, fulfillment_runtime.py).
use sitescore.Common.{Bool, true, false, not, ◌||◌, ◌≡◌, arith}
use sitescore.Commerce.Contracts.{OrderState, PaymentState, payment_eq}
use sitescore.Commerce.Rows.{OrderRow}
use sitescore.Commerce.Advance.{is_at_rest}
use sitescore.Commerce.Status.{NextAction, is_terminal, advice, status_of}

abbrev is_settled : OrderState → Bool
is_settled OrderState.refunded = true
is_settled OrderState.fulfilled = true
is_settled OrderState.expired = true
is_settled OrderState.attention_required = true
is_settled _ = false

-- Whether the driver leaves an order alone for which the action is named.
abbrev pub stops : NextAction → OrderRow → Bool
stops NextAction.advance order = false
stops NextAction.wait order = true
stops NextAction.no_action order = true
stops NextAction.refund order = is_settled order.order_state
stops NextAction.delivery order =
    is_settled order.order_state || not (payment_eq order.payment_state PaymentState.paid)

-- The driver returns the status at once exactly if automation is told to wait or to do nothing, or is
-- told to refund or to deliver an order that is refunded, fulfilled, expired or in need of attention,
-- or is told to deliver an order that is not paid.
pub status_of-stops :
    (order : OrderRow) → is_at_rest (status_of order) ≡ stops (status_of order).next_action order
unfolding status_of advice is_terminal is_at_rest
status_of-stops order = ground arith
