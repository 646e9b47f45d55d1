-- ===== src/Commerce/Status.antt =====
-- The status of an order for automation (fulfillment.py): what it is told to do next.
pub mod Advice
use sitescore.Common.{ℕ, Bool, true, false, not, ◌||◌, is_none, if◌then◌else◌}
use sitescore.Commerce.Contracts.{
  OrderState, PaymentState, FulfillmentState, order_eq, payment_eq, fulfillment_eq,
}
use sitescore.Commerce.Rows.{OrderRow, Store}
use sitescore.Common.Action.{Action, pure, ◌>>=◌}
use sitescore.Commerce.Fulfillment.{load_order_for_update}
use sitescore.Commerce.Refund.{refund_reason}

-- `next_action`; `no_action` is the text "none".
pub data NextAction : Type 0 where
  delivery refund advance wait no_action : NextAction

pub record AutomationStatus : Type 0 where
  pub order_id : ℕ
  pub order_state : OrderState
  pub payment_state : PaymentState
  pub fulfillment_state : FulfillmentState
  pub retryable : Bool
  pub terminal : Bool
  pub next_action : NextAction

unfoldable pub is_terminal : OrderState → Bool
is_terminal o =
    order_eq o OrderState.refunded
    || order_eq o OrderState.fulfilled
    || order_eq o OrderState.expired

-- What automation is told to do, and whether to try again.
unfoldable pub advice : OrderState → PaymentState → FulfillmentState → NextAction × Bool
unfolding is_terminal
advice o p f =
    if fulfillment_eq f FulfillmentState.delivery_pending
    then (NextAction.delivery, false)
    else if not (is_none (refund_reason f))
    then (NextAction.refund, true)
    else if is_terminal o || order_eq o OrderState.attention_required
    then (NextAction.no_action, false)
    else if payment_eq p PaymentState.paid
    then (NextAction.advance, true)
    else (NextAction.wait, false)

unfoldable pub status_of : OrderRow → AutomationStatus
unfolding advice
status_of order =
    let (next, again) = advice order.order_state order.payment_state order.fulfillment_state in
    record {
      order_id = order.order_id;
      order_state = order.order_state;
      payment_state = order.payment_state;
      fulfillment_state = order.fulfillment_state;
      retryable = again;
      terminal = is_terminal order.order_state;
      next_action = next;
    }

unfoldable pub get_status : ℕ → Action Store AutomationStatus
unfolding status_of
get_status order_id = do order ← load_order_for_update order_id; pure (status_of order)
