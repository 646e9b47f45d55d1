-- ===== src/Commerce/Orders.antt =====
-- The creation of orders (db.py): an order, its idempotency key and its checkout operation are
-- written together, and a key that was used gives the order that it made.
pub mod Consistent
pub mod Replay
use sitescore.Common.{
  ℕ, ◌==◌, not, ◌||◌, String, str_eq, Option, none, some, ◌∷◌, opt_eq, is_none, if◌then◌else◌,
}
use Prim.Native.String.{◌++◌}
use sitescore.Commerce.Contracts.{OrderState, PaymentState, FulfillmentState}
use sitescore.Commerce.Rows.{Json, OrderRow, OrderIdempotencyRow, CheckoutSessionRow, Store}
use sitescore.Commerce.Tables.{
  get_order, get_idempotency, get_checkout, write_checkout, select, session_clash,
}
use sitescore.Common.Action.{
  Action, ok, persistence_unavailable, idempotency_conflict, pure, raise, modify, gets, raise_if,
  ◌>>=◌, ◌>>◌,
}
use sitescore.Commerce.Uuid.{uuid_text}

-- What `get_or_create_order` is given: the parts of `OrderCreateRequest` with the digest of its
-- canonical text, and the catalog entry and URLs of the checkout.
pub record OrderRequest : Type 0 where
  pub customer_email : String
  pub purchase_intent : Json
  pub canonical_hash : ℕ
  pub catalog_version : String
  pub price_id : String
  pub quantity : ℕ
  pub operation_version : String
  pub checkout_success_url : String
  pub checkout_cancel_url : String

abbrev pub product_code : String
product_code = "location_report_v1"

-- `provider_operation_key`
unfoldable pub provider_operation_key : ℕ → String
provider_operation_key order_id = "sitescore:checkout:v1:" ++ uuid_text order_id

new_order : ℕ → ℕ → OrderRequest → OrderRow
new_order now order_id request = record {
  order_id = order_id;
  product_code = product_code;
  catalog_version = request.catalog_version;
  customer_email = request.customer_email;
  purchase_intent = request.purchase_intent;
  canonical_request_hash = request.canonical_hash;
  order_state = OrderState.pending_payment;
  payment_state = PaymentState.pending;
  fulfillment_state = FulfillmentState.not_started;
  created_at = now;
  updated_at = now;
}

new_checkout : ℕ → ℕ → OrderRequest → CheckoutSessionRow
unfolding provider_operation_key
new_checkout now order_id request = record {
  order_id = order_id;
  stripe_checkout_session_id = none;
  provider_idempotency_key = provider_operation_key order_id;
  operation_version = request.operation_version;
  catalog_version = request.catalog_version;
  product_code = product_code;
  stripe_price_id = request.price_id;
  quantity = request.quantity;
  customer_email = request.customer_email;
  success_url = request.checkout_success_url;
  cancel_url = request.checkout_cancel_url;
  checkout_url = none;
  checkout_expires_at = none;
  stripe_payment_intent_id = none;
  stripe_session_status = none;
  stripe_payment_status = none;
  stripe_livemode = none;
  reconciled_at = none;
  last_reconciliation_event_id = none;
  created_at = now;
  updated_at = now;
}

-- The order of a key that is taken, if it was taken by the same request.
replayed : ℕ → OrderIdempotencyRow → Action Store ℕ
replayed request_hash existing =
    if existing.canonical_request_hash == request_hash
    then pure existing.order_id
    else raise (idempotency_conflict "idempotency key was already used with a different request")

-- `except IntegrityError`: the key is read again.
reconciled : ℕ → Option OrderIdempotencyRow → Action Store ℕ
unfolding replayed
reconciled request_hash none =
    raise (persistence_unavailable "order idempotency race could not be reconciled")
reconciled request_hash (some existing) = replayed request_hash existing

-- The three insertions, which a primary key that is taken by now refuses together.
insert_order : ℕ → ℕ → ℕ → OrderRequest → Action Store ℕ
unfolding new_order new_checkout reconciled
insert_order now order_id key_digest request s =
    if not (is_none (get_order order_id s)) || not (is_none (get_idempotency key_digest s))
    then reconciled request.canonical_hash (get_idempotency key_digest s) s
    else (
      ok order_id,
      record s {
        orders = new_order now order_id request ∷ s.orders;
        idempotency =
            record {
              key_digest = key_digest;
              canonical_request_hash = request.canonical_hash;
              order_id = order_id;
              created_at = now;
            }
            ∷ s.idempotency;
        checkouts = new_checkout now order_id request ∷ s.checkouts;
      },
    )

-- `get_or_create_order`, where `seen` is what the transaction read under the key: by the time of
-- the insertions another transaction may have taken the key.
unfoldable pub get_or_create_order :
    ℕ → ℕ → ℕ → OrderRequest → Option OrderIdempotencyRow → Action Store ℕ
unfolding insert_order replayed
get_or_create_order now order_id key_digest request (some existing) =
    replayed request.canonical_hash existing
get_or_create_order now order_id key_digest request none =
    insert_order now order_id key_digest request

-- The session is written where the row has none, and compared where it has one.
unfoldable pub bind_row :
    ℕ
    → ℕ
    → String
    → String
    → Option ℕ
    → CheckoutSessionRow
    → Option String
    → Action Store CheckoutSessionRow
bind_row now order_id stripe_session_id checkout_url expires_at row none = do
  let row' = record row {
    stripe_checkout_session_id = some stripe_session_id;
    checkout_url = some checkout_url;
    checkout_expires_at = expires_at;
    updated_at = now;
  }
  modify (write_checkout row')
  clash ← gets (session_clash order_id)
  raise_if clash (persistence_unavailable "commerce checkout binding could not be persisted")
  pure row'
bind_row now order_id stripe_session_id checkout_url expires_at row (some bound) = do
  raise_if (not (str_eq bound stripe_session_id))
      (persistence_unavailable "checkout binding invariant failed")
  pure row

-- `bind_checkout`
unfoldable pub bind_checkout : ℕ → ℕ → String → String → Option ℕ → Action Store CheckoutSessionRow
unfolding bind_row
bind_checkout now order_id stripe_session_id checkout_url expires_at = do
  row ← select (get_checkout order_id)
  bind_row now order_id stripe_session_id checkout_url expires_at row row.stripe_checkout_session_id
