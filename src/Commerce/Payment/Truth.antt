-- ===== src/Commerce/Payment/Truth.antt =====
-- The orders under _apply_payment_transition_locked and the two transactions round it (db.py).
use sitescore.Common.{
  subst, ℕ, ◌==◌, Bool, true, false, ◌&&◌, ◌≡◌, refl, inl, inr, String, Option, none, some, arith,
  ◌∙◌, Bool-cases, if◌then◌else◌,
}
use sitescore.Commerce.Contracts.{OrderState, PaymentState}
use sitescore.Commerce.Rows.{StripeEventInboxRow, OrderRow, CheckoutSessionRow, Target, Store}
use sitescore.Commerce.Tables.{get_order, get_order-write, get_order_key, write_checkout}
use sitescore.Commerce.Evidence.{StripeCheckoutEvidence}
use sitescore.Commerce.Keeps.{kept}
use sitescore.Commerce.Payment.Keeps.{
  poll_rows_keeps, apply_reconciliation_keeps, apply_poll_reconciliation_keeps,
}
use sitescore.Commerce.Payment.{
  poll_rows, reconcile_rows, apply_poll_reconciliation, verdict, settle, observe,
  apply_payment_transition_locked, apply_reconciliation,
}

-- The states that a transition to the target gives.
abbrev pub target_order_state : Target → OrderState
target_order_state Target.paid = OrderState.paid
target_order_state Target.expired = OrderState.expired

abbrev pub target_payment_state : Target → PaymentState
target_payment_state Target.paid = PaymentState.paid
target_payment_state Target.expired = PaymentState.expired

-- An order is taken to the target at `now`.
abbrev pub taken_to : ℕ → Target → OrderRow → OrderRow
taken_to now t o = record o {
  order_state = target_order_state t;
  payment_state = target_payment_state t;
  updated_at = now;
}

-- A transition is made exactly from the states (pending_payment, pending).
pub verdict_transition :
    (t : Target) (o : OrderState) (p : PaymentState)
    → (verdict t o p).0 ≡ true
    → (o ≡ OrderState.pending_payment) × (p ≡ PaymentState.pending) × ((verdict t o p).1 ≡ none)
unfolding verdict
verdict_transition Target.paid o p h = ground arith
verdict_transition Target.expired o p h = ground arith

settle_order :
    (now fresh k : ℕ) (t : Target) (o : OrderRow) (s : Store)
    → get_order o.order_id s ≡ some o
    → get_order k (settle now fresh t o s)
      ≡ (if o.order_id == k then some (taken_to now t o) else get_order k s)
unfolding settle
settle_order now fresh k Target.paid o s h = get_order-write k (taken_to now Target.paid o) s o h
settle_order now fresh k Target.expired o s h =
    get_order-write k (taken_to now Target.expired o) s o h

module _ (now fresh k : ℕ) (order : OrderRow) (checkout : CheckoutSessionRow)
    (evidence : StripeCheckoutEvidence) (t : Target) (event_id : Option String) (s : Store) where
  abbrev applied : (Bool × Option String) × Store
  applied = apply_payment_transition_locked now fresh order checkout evidence t event_id s

  -- A refusal changes nothing, and says so.
  pub transition_refused :
      (c : String) → applied.0.1 ≡ some c → (applied.0.0 ≡ false) × (applied.1 ≡ s)
  unfolding apply_payment_transition_locked
  transition_refused c h = ground arith

  -- A transition is made of an order that awaits its payment.
  pub transition_from :
      applied.0.0 ≡ true
      → (order.order_state ≡ OrderState.pending_payment)
        × (order.payment_state ≡ PaymentState.pending)
  unfolding apply_payment_transition_locked
  transition_from h = ground (arith, verdict_transition t order.order_state order.payment_state)

  -- The order is taken to the target if a transition is made; every other order stays.
  pub transition_order :
      get_order order.order_id s ≡ some order
      → get_order k applied.1 ≡ (
          if applied.0.0 && order.order_id == k then some (taken_to now t order) else get_order k s)
  unfolding apply_payment_transition_locked
  transition_order h = ground (
    arith,
    verdict_transition t order.order_state order.payment_state,
    settle_order now fresh k t order (write_checkout (observe now event_id evidence checkout) s) h,
  )

-- What a reconciliation may do to the order under `k`.
pub data Change (now order_id k : ℕ) (t : Target) (before after : Option OrderRow) : Type 0 where
  unchanged : after ≡ before → Change now order_id k t before after
  settled :
      (o : OrderRow)
      → before ≡ some o
      → order_id ≡ k
      → o.order_state ≡ OrderState.pending_payment
      → o.payment_state ≡ PaymentState.pending
      → after ≡ some (taken_to now t o)
      → Change now order_id k t before after

module _ (now fresh k : ℕ) (order : OrderRow) (checkout : CheckoutSessionRow)
    (evidence : StripeCheckoutEvidence) (t : Target) (event_id : Option String) (s : Store) where
  pub transition-Change :
      get_order order.order_id s ≡ some order
      → Change now order.order_id k t (get_order k s) (
          get_order k
            (apply_payment_transition_locked now fresh order checkout evidence t event_id s).1)
  transition-Change h =
      let r = apply_payment_transition_locked now fresh order checkout evidence t event_id s in
      elim (Bool-cases (r.0.0 && order.order_id == k)) [
        | inl moved ↦
            let from =
              transition_from now fresh k order checkout evidence t event_id s (ground arith) in
            settled order (ground arith) (ground arith) from.0 from.1
              (transition_order now fresh k order checkout evidence t event_id s h ∙ rw moved refl)
        | inr still ↦
            unchanged
              (transition_order now fresh k order checkout evidence t event_id s h ∙ rw still refl)
      ]

module _ (now fresh k : ℕ) (evidence : StripeCheckoutEvidence) (t : Target) (s : Store) where
  rows-Change :
      (row : StripeEventInboxRow) (order : OrderRow) (checkout : CheckoutSessionRow)
      → get_order order.order_id s ≡ some order
      → Change now order.order_id k t
          (get_order k s)
          (get_order k (reconcile_rows now fresh row order checkout evidence t s))
  unfolding reconcile_rows
  rows-Change row order checkout h =
      transition-Change now fresh k order checkout evidence t (some row.stripe_event_id) s h

  polled-Change :
      (order : OrderRow) (checkout : CheckoutSessionRow) (receipt_id sha observed_at : ℕ)
      → get_order order.order_id s ≡ some order
      → Change now order.order_id k t (get_order k s) (
          get_order k
            (poll_rows now fresh receipt_id order checkout evidence t sha observed_at s).1)
  polled-Change order checkout receipt_id sha observed_at h =
      poll_rows_keeps (λ s'. Change now order.order_id k t (get_order k s) (get_order k s')) now
        fresh receipt_id order checkout evidence t sha observed_at s (λ _ _ c. c)
        (transition-Change now fresh k order checkout evidence t none s h)

  selected : (id : ℕ) (o : OrderRow) → get_order id s ≡ some o → get_order o.order_id s ≡ some o
  selected id o h = ground (arith, get_order_key id s o h)

  -- A reconciliation after a webhook event leaves every order as it was, or takes the order that it is
  -- about, if that awaits its payment, to the target; the same holds where an exception takes its
  -- writes back.
  pub reconciliation-Change :
      (event_id : String) (order_id : ℕ)
      → Change now order_id k t
          (get_order k s)
          (get_order k (kept s (apply_reconciliation now fresh event_id order_id evidence t s)))
  reconciliation-Change event_id order_id =
      apply_reconciliation_keeps (λ s'. Change now order_id k t (get_order k s) (get_order k s'))
        now fresh order_id evidence t s (unchanged refl) event_id
        λ row order checkout h.
          subst
            (λ id.
              Change now id k t (get_order k s)
                (get_order k (reconcile_rows now fresh row order checkout evidence t s)))
            (get_order_key order_id s order h)
            (rows-Change row order checkout (selected order_id order h))

  -- A poll leaves every order as it was, or takes the order that was polled, if it awaits its payment,
  -- to the target; the same holds where an exception takes its writes back.
  pub poll-Change :
      (receipt_id order_id sha observed_at : ℕ)
      → Change now order_id k t (get_order k s) (
          get_order k (
            kept s (
              apply_poll_reconciliation now fresh receipt_id order_id evidence t sha observed_at
                s)))
  poll-Change receipt_id order_id sha observed_at =
      apply_poll_reconciliation_keeps
        (λ s'. Change now order_id k t (get_order k s) (get_order k s')) now fresh receipt_id
        order_id evidence t sha observed_at s (unchanged refl)
        λ order checkout h.
          subst
            (λ id. Change now id k t (get_order k s) (
              get_order k
                (poll_rows now fresh receipt_id order checkout evidence t sha observed_at s).1))
            (get_order_key order_id s order h)
            (polled-Change order checkout receipt_id sha observed_at (selected order_id order h))
