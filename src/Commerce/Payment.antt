-- ===== src/Commerce/Payment.antt =====
-- Payment truth (db.py): the transition of an order to paid or expired, which writes the paid-order
-- outbox event with it, and the two ways in: a webhook event and a server poll. An `Action` on the
-- store is the body of one transaction; `now` is `utcnow()` and `fresh` is `uuid4()`.
pub mod Truth
pub mod Consistent
mod Keeps
use sitescore.Common.{
  ℕ, ◌==◌, Bool, true, false, not, ◌&&◌, ◌||◌, String, str_eq, Option, none, some, List, ◌∷◌, any,
  opt_eq, is_none, if◌then◌else◌,
}
use sitescore.Commerce.Contracts.{OrderState, PaymentState, order_eq, payment_eq}
use sitescore.Commerce.Rows.{
  OrderRow, CheckoutSessionRow, OutboxEventRow, StripeEventInboxRow, ProcessingState, processed,
  attention_required, Target, Store,
}
use sitescore.Commerce.Tables.{
  get_order, get_checkout, get_event, has_paid_event, write_order, write_checkout, write_event,
  select, session_clash,
}
use sitescore.Commerce.Evidence.{StripeCheckoutEvidence}
use sitescore.Common.Action.{
  Action, ok, persistence_unavailable, pure, raise, raise_if, gets, modify, ◌>>=◌, ◌>>◌,
}

-- Whether the states of the order admit the target: whether it is a transition, or why not.
unfoldable pub verdict : Target → OrderState → PaymentState → Bool × Option String
verdict Target.paid o p =
    if order_eq o OrderState.expired || payment_eq p PaymentState.expired
    then (false, some "contradictory_terminal_payment_truth")
    else if order_eq o OrderState.pending_payment && payment_eq p PaymentState.pending
    then (true, none)
    else if order_eq o OrderState.paid && payment_eq p PaymentState.paid
    then (false, none)
    else (false, some "invalid_payment_state_transition")
verdict Target.expired o p =
    if order_eq o OrderState.paid || payment_eq p PaymentState.paid
    then (false, some "late_expiration_after_paid")
    else if order_eq o OrderState.pending_payment && payment_eq p PaymentState.pending
    then (true, none)
    else if order_eq o OrderState.expired && payment_eq p PaymentState.expired
    then (false, none)
    else (false, some "invalid_expiration_state_transition")

-- What the session row records of the evidence.
observe : ℕ → Option String → StripeCheckoutEvidence → CheckoutSessionRow → CheckoutSessionRow
observe now event_id evidence checkout = record checkout {
  stripe_checkout_session_id =
      if is_none checkout.stripe_checkout_session_id
      then some evidence.session_id
      else checkout.stripe_checkout_session_id;
  stripe_payment_intent_id = evidence.payment_intent_id;
  stripe_session_status = some evidence.status;
  stripe_payment_status = some evidence.payment_status;
  stripe_livemode = some evidence.livemode;
  reconciled_at = some now;
  last_reconciliation_event_id =
      if is_none event_id then checkout.last_reconciliation_event_id else event_id;
  updated_at = now;
}

-- The outbox with an event for the order, which is added unless there is one.
enqueue : ℕ → ℕ → ℕ → List OutboxEventRow → List OutboxEventRow
enqueue now fresh order_id events =
    if has_paid_event order_id events
    then events
    else record { outbox_id = fresh; order_id = order_id; created_at = now; published_at = none }
      ∷ events

-- The order's part of a transition.
settle : ℕ → ℕ → Target → OrderRow → Store → Store
unfolding enqueue
settle now fresh Target.paid order s =
    let s' =
      write_order
        (record order {
          order_state = OrderState.paid;
          payment_state = PaymentState.paid;
          updated_at = now;
        })
        s in
    record s' { outbox = enqueue now fresh order.order_id s.outbox }
settle now fresh Target.expired order s =
    write_order
      (record order {
        order_state = OrderState.expired;
        payment_state = PaymentState.expired;
        updated_at = now;
      })
      s

-- `_apply_payment_transition_locked`, on the rows that its caller has locked.
unfoldable pub apply_payment_transition_locked :
    ℕ
    → ℕ
    → OrderRow
    → CheckoutSessionRow
    → StripeCheckoutEvidence
    → Target
    → Option String
    → Store
    → (Bool × Option String) × Store
unfolding verdict observe settle
apply_payment_transition_locked now fresh order checkout evidence target event_id s =
    if not (is_none checkout.stripe_checkout_session_id)
      && not (opt_eq str_eq checkout.stripe_checkout_session_id (some evidence.session_id))
    then ((false, some "local_session_binding_conflict"), s)
    else let (transitioned, code) = verdict target order.order_state order.payment_state in
      if not (is_none code)
      then ((false, code), s)
      else let s' = write_checkout (observe now event_id evidence checkout) s in
        ((transitioned, none), if transitioned then settle now fresh target order s' else s')

-- How an event left the inbox.
abbrev pub close_event :
    ℕ → ProcessingState → Option String → StripeEventInboxRow → StripeEventInboxRow
close_event now state code row = record row {
  processing_state = state;
  failure_code = code;
  processed_at = some now;
}

unfoldable pub is_processed : ProcessingState → Bool
is_processed processed = true
is_processed _ = false

-- The rest of `apply_reconciliation`, once its three rows are locked.
pub reconcile_rows :
    ℕ
    → ℕ
    → StripeEventInboxRow
    → OrderRow
    → CheckoutSessionRow
    → StripeCheckoutEvidence
    → Target
    → Store
    → Store
unfolding apply_payment_transition_locked
reconcile_rows now fresh row order checkout evidence target s =
    let (verdict, s') =
      apply_payment_transition_locked now fresh order checkout evidence target
        (some row.stripe_event_id) s in
    write_event
      (close_event now (if is_none verdict.1 then processed else attention_required) verdict.1 row)
      s'

unfoldable pub apply_reconciliation :
    ℕ → ℕ → String → ℕ → StripeCheckoutEvidence → Target → Action Store (Unit {0})
unfolding reconcile_rows is_processed
apply_reconciliation now fresh event_id order_id evidence target = do
  row ← select (get_event event_id)
  if is_processed row.processing_state then pure tt else (do
    order ← select (get_order order_id)
    checkout ← select (get_checkout order_id)
    modify (reconcile_rows now fresh row order checkout evidence target)
    clash ← gets (session_clash order_id)
    raise_if clash (persistence_unavailable "payment reconciliation could not be persisted"))

-- The result of `apply_poll_reconciliation`.
pub data PollResult : Type 0 where
  attention : String → PollResult
  already_terminal transitioned : PollResult

-- What a poll answers to the result of the transition, and the receipt that it writes for one.
unfoldable pub poll_outcome :
    ℕ
    → ℕ
    → OrderRow
    → StripeCheckoutEvidence
    → Target
    → ℕ
    → ℕ
    → Bool × Option String
    → Action Store PollResult
poll_outcome now receipt_id order evidence target sha observed_at (_, some code) s =
    (ok (attention code), s)
poll_outcome now receipt_id order evidence target sha observed_at (false, none) s =
    (ok already_terminal, s)
poll_outcome now receipt_id order evidence target sha observed_at (true, none) s = (
  ok transitioned,
  record s {
    receipts =
        record {
          receipt_id = receipt_id;
          order_id = order.order_id;
          stripe_checkout_session_id = evidence.session_id;
          observed_session_status = evidence.status;
          observed_payment_status = evidence.payment_status;
          observed_payment_intent_id = evidence.payment_intent_id;
          observed_livemode = evidence.livemode;
          evidence_sha256 = sha;
          transition_target = target;
          observed_at = observed_at;
          created_at = now;
        }
        ∷ s.receipts;
  },
)

-- The rest of `apply_poll_reconciliation`, once its two rows are locked.
unfoldable pub poll_rows :
    ℕ
    → ℕ
    → ℕ
    → OrderRow
    → CheckoutSessionRow
    → StripeCheckoutEvidence
    → Target
    → ℕ
    → ℕ
    → Action Store PollResult
unfolding apply_payment_transition_locked poll_outcome
poll_rows now fresh receipt_id order checkout evidence target sha observed_at s =
    let (result, s') =
      apply_payment_transition_locked now fresh order checkout evidence target none s in
    poll_outcome now receipt_id order evidence target sha observed_at result s'

-- The insertion of a second receipt for an order is refused by a unique constraint.
abbrev check_receipt : Bool → PollResult → Action Store PollResult
check_receipt true transitioned = raise (
    persistence_unavailable "payment poll reconciliation receipt conflicted with durable authority")
check_receipt _ result = pure result

-- A receipt of the order, which the unique constraint on its order allows once.
abbrev has_receipt : ℕ → Store → Bool
has_receipt order_id s = any (λ r. r.order_id == order_id) s.receipts

unfoldable pub apply_poll_reconciliation :
    ℕ → ℕ → ℕ → ℕ → StripeCheckoutEvidence → Target → ℕ → ℕ → Action Store PollResult
unfolding poll_rows
apply_poll_reconciliation now fresh receipt_id order_id evidence target evidence_sha256
      observed_at =
    do
      order ← select (get_order order_id)
      checkout ← select (get_checkout order_id)
      already ← gets (has_receipt order_id)
      result ←
          poll_rows now fresh receipt_id order checkout evidence target evidence_sha256 observed_at
      clash ← gets (session_clash order_id)
      raise_if clash (
          persistence_unavailable
            "payment poll reconciliation receipt conflicted with durable authority")
      check_receipt already result
