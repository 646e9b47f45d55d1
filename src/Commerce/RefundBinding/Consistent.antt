-- ===== src/Commerce/RefundBinding/Consistent.antt =====
-- Consistency of the tables under bind_refund and mark_attention (fulfillment.py).
use sitescore.Common.{ℕ, Bool, true, ◌≡◌, refl, String, Option, none, some, arith}
use sitescore.Commerce.Contracts.{RefundStatus}
use sitescore.Commerce.Rows.{OrderRow, RefundOperationRow, Store}
use sitescore.Commerce.Tables.{
  select_or, get_order, get_order_key, get_refund, get_refund_key, write_order, write_refund,
}
use sitescore.Common.Action.{fulfillment_invariant, fulfillment_not_found, calls}
use sitescore.Commerce.Evidence.{RefundEvidence, RefundOperation}
use sitescore.Commerce.Keeps.{
  kept, kept_select, kept-raise_if, kept-pure, kept_write, kept-gets, kept-modify, kept_guard,
}
use sitescore.Commerce.Consistency.{
  is_funded, is_funded_row, IsConsistent, write_order-IsConsistent, write_refund-IsConsistent,
}
use sitescore.Commerce.RefundBinding.{
  refunded_order, bound_refund, bind_refund, mark_attention, note_failure, attended_order,
}

-- An order that is funded stays so, whatever becomes of its refund.
refunded_order_funded :
    (status : RefundStatus) (now : ℕ) (order : OrderRow)
    → is_funded order.payment_state ≡ true
    → is_funded (refunded_order status now order).payment_state ≡ true
unfolding refunded_order
refunded_order_funded status now order h = ground arith

refunded_order_id :
    (status : RefundStatus) (now : ℕ) (order : OrderRow)
    → (refunded_order status now order).order_id ≡ order.order_id
unfolding refunded_order
refunded_order_id status now order = ground arith

module _ (k now : ℕ) (s : Store) (i : IsConsistent k s) where
  pub bind_refund-IsConsistent :
      (operation : RefundOperation) (evidence : RefundEvidence) (external_full : Bool)
      → IsConsistent operation.order_id s
      → IsConsistent k (kept s (bind_refund now operation evidence external_full s))
  unfolding bind_refund bound_refund
  bind_refund-IsConsistent operation evidence external_full j =
      let P = IsConsistent k in
      let id = operation.order_id in
      kept_guard P s s i _ _ (
        kept_select P s s i (get_order id) (fulfillment_not_found "order not found") _ λ order o.
          kept_select P s s i (get_refund id)
            (fulfillment_invariant "refund operation snapshot is unavailable") _
            λ row r. kept-raise_if P s s i _ _ _ λ _. kept-gets P s s _ _ (
              kept-raise_if P s s i _ _ _ λ _. kept-modify P s s _ (
                let row' = bound_refund now evidence external_full row in
                let order' = refunded_order evidence.status now order in
                write_order-IsConsistent k (write_refund row' s) order order'
                  (ground (
                    arith,
                    o,
                    refunded_order_id evidence.status now order,
                    get_order_key id s order,
                  ))
                  (ground (
                    arith,
                    o,
                    r,
                    j.refunding,
                    j.eligible,
                    j.bound,
                    refunded_order_funded evidence.status now order,
                  ))
                  (write_refund-IsConsistent k s row row'
                    (ground (arith, r, get_refund_key id s row)) i))))

  note_failure-IsConsistent :
      (s' : Store) (code : String) (order_id : ℕ) (operation : Option RefundOperationRow)
      → get_refund order_id s' ≡ operation
      → IsConsistent k s'
      → IsConsistent k (kept s (note_failure now code operation s'))
  unfolding note_failure
  note_failure-IsConsistent s' code order_id none r j = kept-pure (IsConsistent k) s s' tt j
  note_failure-IsConsistent s' code order_id (some row) r j =
      kept-modify (IsConsistent k) s s' _
        (write_refund-IsConsistent k s' row _ (ground (arith, r, get_refund_key order_id s' row)) j)

  -- An order that is marked because of its refund must be funded.
  pub mark_attention-IsConsistent :
      (order_id : ℕ) (code : String) (refund_failure : Bool)
      → (refund_failure ≡ true → is_funded_row (get_order order_id s) ≡ true)
      → IsConsistent k (kept s (mark_attention now order_id code refund_failure s))
  unfolding mark_attention attended_order
  mark_attention-IsConsistent order_id code refund_failure f =
      let P = IsConsistent k in
      kept_select P s s i (get_order order_id) (fulfillment_not_found "order not found") _
        λ order o. kept_write P s s _ _ (
          kept-gets P s _ (get_refund order_id) _ (
            note_failure-IsConsistent (write_order (attended_order now refund_failure order) s) code
              order_id (get_refund order_id s) refl
              (write_order-IsConsistent k s order (attended_order now refund_failure order)
                (ground (arith, o, get_order_key order_id s order)) (ground (arith, f, o)) i)))

-- Neither touches the outbox.
pub bind_refund_outbox :
    (now : ℕ) (operation : RefundOperation) (evidence : RefundEvidence) (external_full : Bool)
    (s : Store)
    → (kept s (bind_refund now operation evidence external_full s)).outbox ≡ s.outbox
unfolding bind_refund kept calls select_or
bind_refund_outbox now operation evidence external_full s = ground arith

pub mark_attention_outbox :
    (now order_id : ℕ) (code : String) (refund_failure : Bool) (s : Store)
    → (kept s (mark_attention now order_id code refund_failure s)).outbox ≡ s.outbox
unfolding mark_attention kept calls select_or
mark_attention_outbox now order_id code refund_failure s = ground arith
