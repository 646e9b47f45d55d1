-- ===== src/Commerce/Advance/Rest.antt =====
-- The driver at an order whose status is at rest (fulfillment_runtime.py).
use sitescore.Common.{ℕ, Bool, true, false, ◌≡◌, ◌≢◌, refl, some, arith, subst, if◌then◌else◌}
use sitescore.Commerce.Contracts.{OrderState, PaymentState, FulfillmentState}
use sitescore.Commerce.Rows.{OrderRow, Store}
use sitescore.Commerce.Tables.{select_or, get_order}
use sitescore.Common.Action.{Action, ok, pure, calls}
use sitescore.Commerce.Session.{World, Env}
use sitescore.Commerce.Stable.{read_then}
use sitescore.Commerce.Fulfillment.{FulfillmentSettings}
use sitescore.Commerce.Status.{AutomationStatus, status_of, get_status}
use sitescore.Commerce.Advance.{Gateways, is_at_rest, status, advance}

read_status :
    (order_id : ℕ) (order : OrderRow) (s : Store) (a : AutomationStatus)
    → get_order order_id s ≡ some order
    → (get_status order_id s).0 ≡ ok a
    → status_of order ≡ a
unfolding get_status calls select_or
read_status order_id order s a o h = ground arith

status_same : (order_id : ℕ) (s : Store) → (get_status order_id s).1 ≡ s
unfolding get_status calls select_or
status_same order_id s = ground arith

-- The states in which an order is left alone, written out.
pub data IsResting (order : OrderRow) : Type 0 where
  refunded : order.order_state ≡ OrderState.refunded → IsResting order
  fulfilled : order.order_state ≡ OrderState.fulfilled → IsResting order
  expired : order.order_state ≡ OrderState.expired → IsResting order
  in_need : order.order_state ≡ OrderState.attention_required → IsResting order
  unpaid :
      order.payment_state ≢ PaymentState.paid
      → order.fulfillment_state ≢ FulfillmentState.not_score_ready
      → order.fulfillment_state ≢ FulfillmentState.analysis_failed
      → order.fulfillment_state ≢ FulfillmentState.analysis_timed_out
      → order.fulfillment_state ≢ FulfillmentState.report_failed
      → IsResting order

at_rest : (order : OrderRow) → IsResting order → is_at_rest (status_of order) ≡ true
unfolding is_at_rest status_of
at_rest order (refunded h) = ground arith
at_rest order (fulfilled h) = ground arith
at_rest order (expired h) = ground arith
at_rest order (in_need h) = ground arith
at_rest order (unpaid p a b c d) = ground (arith, p, a, b, c, d)

-- The same store, and no call more.
pub IsUntouched : World → World → Type 0
IsUntouched w v = (v.store ≡ w.store) × (v.calls ≡ w.calls)

module _ (env : Env) (settings : FulfillmentSettings) (gateways : Gateways) (order_id : ℕ) where
  rest_kept :
      (w : World) (b : Bool) (a : AutomationStatus) (m : Action World AutomationStatus) (v : World)
      → b ≡ true
      → IsUntouched w v
      → IsUntouched w ((if b then pure a else m) v).1
  unfolding calls
  rest_kept w true a m v h u = u
  rest_kept w false a m v h u = ground arith

  at_rest_kept :
      (order : OrderRow) (w : World)
      → get_order order_id w.store ≡ some order
      → is_at_rest (status_of order) ≡ true
      → IsUntouched w (advance env settings gateways order_id w).1
  unfolding advance status IsUntouched
  at_rest_kept order w o r =
      read_then (IsUntouched w) _ env "fulfillment status is unavailable"
        (λ _ _. get_status order_id) w (λ _ _. status_same order_id w.store) (refl, refl)
        λ _ _ a v e same sent.
          rest_kept w (is_at_rest a) a _ v
            (subst (λ x. is_at_rest x ≡ true) (read_status order_id order w.store a o e) r)
            (same, sent)

  -- The driver leaves the store as it is and calls no provider for a change, if the order is refunded,
  -- fulfilled, expired or in need of attention, or is not paid and its fulfillment has not failed.
  pub advance-rest :
      (order : OrderRow) (w : World)
      → get_order order_id w.store ≡ some order
      → IsResting order
      → IsUntouched w (advance env settings gateways order_id w).1
  advance-rest order w o r = at_rest_kept order w o (at_rest order r)
