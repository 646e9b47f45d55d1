-- ===== src/Commerce/Payment/Consistent.antt =====
-- Consistency of the tables under the transition of an order's payment (db.py).
use sitescore.Common.{
  ℕ, ◌≤◌, ◌==◌, true, false, ◌≡◌, refl, String, Option, none, some, List, [], ◌∷◌, arith,
  if◌then◌else◌,
}
use sitescore.Commerce.Contracts.{PaymentState}
use sitescore.Commerce.Rows.{OrderRow, CheckoutSessionRow, OutboxEventRow, Target, Store}
use sitescore.Commerce.Tables.{
  get_order, get_order-write, get_order_key, has_paid_event, write_checkout,
}
use sitescore.Commerce.Evidence.{StripeCheckoutEvidence}
use sitescore.Commerce.Keeps.{kept}
use sitescore.Commerce.Consistency.{events_of, IsConsistent, framed}
use sitescore.Commerce.Payment.{
  settle, enqueue, observe, apply_payment_transition_locked, reconcile_rows, apply_reconciliation,
  apply_poll_reconciliation,
}
use sitescore.Commerce.Payment.Truth.{verdict_transition, taken_to}
use sitescore.Commerce.Payment.Keeps.{
  poll_rows_keeps, apply_reconciliation_keeps, apply_poll_reconciliation_keeps,
}

-- An order is announced by its event, which is written once.
enqueue_has :
    (now fresh order_id k : ℕ) (es : List OutboxEventRow)
    → has_paid_event k (enqueue now fresh order_id es)
      ≡ (if order_id == k then true else has_paid_event k es)
unfolding enqueue
enqueue_has now fresh order_id k es = ground arith

events_none : (k : ℕ) (es : List OutboxEventRow) → has_paid_event k es ≡ false → events_of k es ≡ 0
events_none k [] h = refl
events_none k (e ∷ es) h = ground (arith, events_none k es)

enqueue_once :
    (now fresh order_id k : ℕ) (es : List OutboxEventRow)
    → events_of k es ≤ 1
    → events_of k (enqueue now fresh order_id es) ≤ 1
unfolding enqueue
enqueue_once now fresh order_id k es h = ground (arith, events_none k es)

module _ (now fresh k : ℕ) (order : OrderRow) (t : Target) (s : Store) where
  settle-IsConsistent :
      get_order order.order_id s ≡ some order
      → order.payment_state ≡ PaymentState.pending
      → IsConsistent k s
      → IsConsistent k (settle now fresh t order s)
  unfolding settle
  settle-IsConsistent h p c = elim t as (λ t. IsConsistent k (settle now fresh t order s)) [
    | Target.paid ↦ record {
      announced = ground (
        arith,
        enqueue_has now fresh order.order_id k s.outbox,
        c.announced,
        get_order-write k (taken_to now Target.paid order) s order h,
      );
      once = enqueue_once now fresh order.order_id k s.outbox c.once;
      bound = ground (arith, c.bound, get_order-write k (taken_to now Target.paid order) s order h);
      eligible = c.eligible;
      refunding = c.refunding;
    }
    | Target.expired ↦ record {
      announced = ground (
        arith,
        c.announced,
        get_order_key k s order,
        get_order-write k (taken_to now Target.expired order) s order h,
      );
      once = c.once;
      bound =
          ground (arith, c.bound, get_order-write k (taken_to now Target.expired order) s order h);
      eligible = c.eligible;
      refunding = c.refunding;
    }
  ]

module _ (now fresh k : ℕ) (order : OrderRow) (t : Target) (s : Store) where
  written-IsConsistent :
      (w : CheckoutSessionRow) → IsConsistent k s → IsConsistent k (write_checkout w s)
  written-IsConsistent w c = record {
    announced = c.announced;
    once = c.once;
    bound = c.bound;
    eligible = c.eligible;
    refunding = c.refunding;
  }

  transition-IsConsistent :
      (checkout : CheckoutSessionRow) (evidence : StripeCheckoutEvidence) (event_id : Option String)
      → get_order order.order_id s ≡ some order
      → IsConsistent k s
      → IsConsistent k
          (apply_payment_transition_locked now fresh order checkout evidence t event_id s).1
  unfolding apply_payment_transition_locked
  transition-IsConsistent checkout evidence event_id h c =
      let w = observe now event_id evidence checkout in
      let v = verdict_transition t order.order_state order.payment_state in
      let m = λ (p : order.payment_state ≡ PaymentState.pending).
        settle-IsConsistent now fresh k order t (write_checkout w s) h p
          (written-IsConsistent w c) in
      ground (arith, v, m, c, written-IsConsistent w c)

module _ (now fresh k : ℕ) (evidence : StripeCheckoutEvidence) (t : Target) (s : Store)
    (c : IsConsistent k s) where
  -- A reconciliation after a webhook event, and one of a poll, keep the tables consistent, also
  -- where an exception takes their writes back.
  pub apply_reconciliation-IsConsistent :
      (event_id : String) (order_id : ℕ)
      → IsConsistent k (kept s (apply_reconciliation now fresh event_id order_id evidence t s))
  unfolding reconcile_rows
  apply_reconciliation-IsConsistent event_id order_id =
      apply_reconciliation_keeps (IsConsistent k) now fresh order_id evidence t s c event_id
        λ row order checkout h. framed k _ _ refl refl refl refl refl (
          transition-IsConsistent now fresh k order t s checkout evidence (some row.stripe_event_id)
            (ground (arith, get_order_key order_id s order h)) c)

  pub apply_poll_reconciliation-IsConsistent :
      (receipt_id order_id sha observed_at : ℕ)
      → IsConsistent k (
          kept s
            (apply_poll_reconciliation now fresh receipt_id order_id evidence t sha observed_at s))
  apply_poll_reconciliation-IsConsistent receipt_id order_id sha observed_at =
      apply_poll_reconciliation_keeps (IsConsistent k) now fresh receipt_id order_id evidence t sha
        observed_at s c
        λ order checkout h.
          poll_rows_keeps (IsConsistent k) now fresh receipt_id order checkout evidence t sha
            observed_at s (λ rs s'. framed k s' _ refl refl refl refl refl)
            (transition-IsConsistent now fresh k order t s checkout evidence none
              (ground (arith, get_order_key order_id s order h)) c)
