-- ===== src/Commerce/Tables.antt =====
-- The selections and updates by primary key that the transactions of the commerce service make.
use sitescore.Common.{
  ℕ, ◌==◌, Bool, false, not, ◌&&◌, String, str_eq, Option, none, some, List, ◌≡◌, any, opt_eq, find,
  put, find-put, find_key, nat_eq, string_eq, if◌then◌else◌,
}
use sitescore.Commerce.Rows.{
  OrderRow, OrderIdempotencyRow, CheckoutSessionRow, StripeEventInboxRow, OutboxEventRow,
  FulfillmentBindingRow, RefundEligibilityRow, RefundOperationRow, Store,
}
use sitescore.Common.Action.{Action, Error, persistence_unavailable, require, calls}

abbrev pub order_key : OrderRow → ℕ
order_key r = r.order_id

abbrev pub idempotency_key : OrderIdempotencyRow → ℕ
idempotency_key r = r.key_digest

abbrev pub checkout_key : CheckoutSessionRow → ℕ
checkout_key r = r.order_id

abbrev pub inbox_key : StripeEventInboxRow → String
inbox_key r = r.stripe_event_id

abbrev pub outbox_key : OutboxEventRow → ℕ
outbox_key r = r.outbox_id

abbrev pub binding_key : FulfillmentBindingRow → ℕ
binding_key r = r.order_id

abbrev pub eligibility_key : RefundEligibilityRow → ℕ
eligibility_key r = r.order_id

abbrev pub refund_key : RefundOperationRow → ℕ
refund_key r = r.order_id

abbrev pub get_order : ℕ → Store → Option OrderRow
get_order k s = find order_key k s.orders

abbrev pub get_idempotency : ℕ → Store → Option OrderIdempotencyRow
get_idempotency k s = find idempotency_key k s.idempotency

abbrev pub get_checkout : ℕ → Store → Option CheckoutSessionRow
get_checkout k s = find checkout_key k s.checkouts

abbrev pub get_event : String → Store → Option StripeEventInboxRow
get_event k s = find inbox_key k s.inbox

abbrev pub get_outbox_event : ℕ → Store → Option OutboxEventRow
get_outbox_event k s = find outbox_key k s.outbox

abbrev pub get_binding_row : ℕ → Store → Option FulfillmentBindingRow
get_binding_row k s = find binding_key k s.bindings

abbrev pub get_eligibility : ℕ → Store → Option RefundEligibilityRow
get_eligibility k s = find eligibility_key k s.eligibility

abbrev pub get_refund : ℕ → Store → Option RefundOperationRow
get_refund k s = find refund_key k s.refunds

-- Whether the outbox holds an event of the order.
abbrev pub has_paid_event : ℕ → List OutboxEventRow → Bool
has_paid_event k events = any (λ r. r.order_id == k) events

abbrev pub write_order : OrderRow → Store → Store
write_order r s = record s { orders = put order_key r s.orders }

abbrev pub write_checkout : CheckoutSessionRow → Store → Store
write_checkout r s = record s { checkouts = put checkout_key r s.checkouts }

abbrev pub write_event : StripeEventInboxRow → Store → Store
write_event r s = record s { inbox = put inbox_key r s.inbox }

abbrev pub write_outbox_event : OutboxEventRow → Store → Store
write_outbox_event r s = record s { outbox = put outbox_key r s.outbox }

abbrev pub write_binding : FulfillmentBindingRow → Store → Store
write_binding r s = record s { bindings = put binding_key r s.bindings }

abbrev pub write_refund : RefundOperationRow → Store → Store
write_refund r s = record s { refunds = put refund_key r s.refunds }

-- `scalar_one()` on no row, which the callers turn into a failure of the persistence.
abbrev pub no_row : Error
no_row = persistence_unavailable "commerce persistence is unavailable"

-- A row that a transaction selects, with the exception that it raises where there is none.
unfoldable pub select_or : {A : Type 0} → (Store → Option A) → Error → Action Store A
unfolding calls
select_or f e s = require (f s) e s

-- A row that a transaction selects with `scalar_one()`.
abbrev pub select : {A : Type 0} → (Store → Option A) → Action Store A
select f = select_or f no_row

-- Whether another order's session has the identity of this order's one, which a unique constraint
-- refuses.
unfoldable pub session_clash : ℕ → Store → Bool
session_clash order_id s = elim (get_checkout order_id s) [
  | none ↦ false
  | some row ↦ elim row.stripe_checkout_session_id [
    | none ↦ false
    | some id ↦
        any
          (λ r.
            not (r.order_id == order_id) && opt_eq str_eq r.stripe_checkout_session_id (some id))
          s.checkouts
  ]
]

-- The row of an order after a write, and its key.
pub get_order-write :
    (k : ℕ) (new : OrderRow) (s : Store) (old : OrderRow)
    → get_order new.order_id s ≡ some old
    → get_order k (write_order new s) ≡ (if new.order_id == k then some new else get_order k s)
get_order-write k new s old h = find-put order_key k new s.orders old h

pub get_order_key : (k : ℕ) (s : Store) (o : OrderRow) → get_order k s ≡ some o → o.order_id ≡ k
get_order_key k s o h = find_key order_key k s.orders o h

pub get_binding-write :
    (k : ℕ) (new : FulfillmentBindingRow) (s : Store) (old : FulfillmentBindingRow)
    → get_binding_row new.order_id s ≡ some old
    → get_binding_row k (write_binding new s)
      ≡ (if new.order_id == k then some new else get_binding_row k s)
get_binding-write k new s old h = find-put binding_key k new s.bindings old h

pub get_binding_key :
    (k : ℕ) (s : Store) (r : FulfillmentBindingRow) → get_binding_row k s ≡ some r → r.order_id ≡ k
get_binding_key k s r h = find_key binding_key k s.bindings r h

pub get_refund-write :
    (k : ℕ) (new : RefundOperationRow) (s : Store) (old : RefundOperationRow)
    → get_refund new.order_id s ≡ some old
    → get_refund k (write_refund new s) ≡ (if new.order_id == k then some new else get_refund k s)
get_refund-write k new s old h = find-put refund_key k new s.refunds old h

pub get_refund_key :
    (k : ℕ) (s : Store) (r : RefundOperationRow) → get_refund k s ≡ some r → r.order_id ≡ k
get_refund_key k s r h = find_key refund_key k s.refunds r h
