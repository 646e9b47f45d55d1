-- ===== src/Commerce/CreateOrder.antt =====
-- The service that takes an order (service.py): it makes or finds the order of an idempotency key,
-- and its checkout session at Stripe.
pub mod Open
pub mod Answers
use sitescore.Common.{
  ℕ, ◌+◌, ◌==◌, ltb, leb, Bool, true, not, ◌&&◌, ◌||◌, String, str_eq, Option, none, some,
  if◌then◌else◌,
}
use Prim.Native.Char.{Char, code, len_utf8}
use sitescore.Commerce.Contracts.{
  OrderState, PaymentState, FulfillmentState, order_eq, payment_eq, fulfillment_eq,
}
use sitescore.Commerce.Rows.{Json, OrderRow, CheckoutSessionRow}
use sitescore.Commerce.Tables.{get_idempotency}
use sitescore.Common.Action.{
  Action, Result, ok, err, checkout_invariant, runtime_error, invalid_idempotency_key, pure, lift,
  raise_if, ◌>>=◌, ◌>>◌,
}
use sitescore.Commerce.Orders.{OrderRequest, product_code, get_or_create_order, bind_checkout}
use sitescore.Commerce.Webhook.{load_order_and_checkout}
use sitescore.Commerce.Session.{World, Env, transaction}
use sitescore.Commerce.Checkout.{
  CheckoutSettings, CheckoutOperation, CheckoutResult, SessionParams, checkout_operation_version,
  catalog_from_settings, success_url, cancel_url, create_checkout, checkout_fault,
}

-- `str.isspace` of a character.
is_space : Char → Bool
is_space c =
    let n = code c in
    (leb 9 n && leb n 13)
    || (leb 28 n && leb n 32)
    || n == 133
    || n == 160
    || n == 5760
    || (leb 8192 n && leb n 8202)
    || n == 8232
    || n == 8233
    || n == 8239
    || n == 8287
    || n == 12288

-- `not value.strip()`
is_blank : String → Bool
unfolding is_space
is_blank String.[] = true
is_blank (String.◌∷◌ c s) = let rest = is_blank s in is_space c && rest

-- `len(value.encode("utf-8"))`
utf8_length : String → ℕ
utf8_length String.[] = 0
utf8_length (String.◌∷◌ c s) = len_utf8 c + utf8_length s

-- `digest_idempotency_key`, where `sha256` is that of the UTF-8 text.
unfoldable pub digest_idempotency_key : (String → ℕ) → String → Result ℕ
unfolding is_blank utf8_length
digest_idempotency_key sha256 value =
    if is_blank value
    then err (invalid_idempotency_key "Idempotency-Key must not be blank")
    else if ltb 200 (utf8_length value)
    then err (invalid_idempotency_key "Idempotency-Key exceeds 200 UTF-8 bytes")
    else ok (sha256 value)

-- The parts of `OrderCreateRequest`, and the digest of its canonical text.
pub record OrderCreateRequest : Type 0 where
  pub customer_email : String
  pub analysis_request : Json
  pub canonical_hash : ℕ

-- The parts of `OrderCreateResponse` that are not fixed by their types.
pub record OrderCreateResponse : Type 0 where
  pub request_id : ℕ
  pub order_id : ℕ
  pub checkout_url : String
  pub checkout_expires_at : Option ℕ

-- What the store is asked for.
order_request :
    CheckoutSettings → (OrderCreateRequest → Json) → OrderCreateRequest → ℕ → OrderRequest
unfolding catalog_from_settings success_url cancel_url
order_request settings intent request candidate =
    let entry = catalog_from_settings settings in
    record {
      customer_email = request.customer_email;
      purchase_intent = intent request;
      canonical_hash = request.canonical_hash;
      catalog_version = entry.catalog_version;
      price_id = entry.stripe_price_id;
      quantity = entry.quantity;
      operation_version = checkout_operation_version;
      checkout_success_url = success_url settings candidate;
      checkout_cancel_url = cancel_url settings candidate;
    }

-- The durable operation. `ProductCode` knows one code.
checkout_operation : ℕ → CheckoutSessionRow → Result CheckoutOperation
checkout_operation order_id checkout =
    if not (str_eq checkout.product_code product_code)
    then err (checkout_invariant "durable checkout operation snapshot is invalid")
    else ok (record {
      order_id = order_id;
      provider_idempotency_key = checkout.provider_idempotency_key;
      operation_version = checkout.operation_version;
      product_code = checkout.product_code;
      catalog_version = checkout.catalog_version;
      stripe_price_id = checkout.stripe_price_id;
      quantity = checkout.quantity;
      customer_email = checkout.customer_email;
      success_url = checkout.success_url;
      cancel_url = checkout.cancel_url;
    })

is_unbound : CheckoutOperation → OrderRow → Bool
is_unbound operation order =
    not (str_eq operation.customer_email order.customer_email)
    || not (str_eq operation.product_code order.product_code)
    || not (str_eq operation.catalog_version order.catalog_version)

pub is_started : OrderRow → Bool
is_started order =
    not (order_eq order.order_state OrderState.pending_payment)
    || not (payment_eq order.payment_state PaymentState.pending)
    || not (fulfillment_eq order.fulfillment_state FulfillmentState.not_started)

validated : CheckoutResult → CheckoutOperation → Result CheckoutResult
validated result operation = elim (checkout_fault result operation) [
  | some message ↦ err (checkout_invariant message)
  | none ↦ ok result
]

-- `OrderService`, with Stripe's client, SHA-256 of a text, and the JSON of a request. The UUIDs of the
-- order and of the response are those of the transactions.
module _ (env : Env) (settings : CheckoutSettings) (create : SessionParams → Option CheckoutResult)
    (sha256 : String → ℕ) (intent : OrderCreateRequest → Json) where
  -- The session row with a session: the one that it has, or a new one at Stripe.
  ensure_checkout :
      ℕ → CheckoutOperation → CheckoutSessionRow → Option String → Action World CheckoutSessionRow
  unfolding create_checkout validated
  ensure_checkout order_id operation checkout (some _) = pure checkout
  ensure_checkout order_id operation checkout none = do
    session ← lift (create_checkout create operation)
    result ← lift (validated session operation)
    transaction env "commerce checkout binding could not be persisted"
        (λ now _. bind_checkout now order_id result.session_id result.url result.expires_at)

  respond : ℕ → CheckoutSessionRow → Option String → Action World OrderCreateResponse
  respond order_id checkout none w = (err (runtime_error "checkout binding invariant failed"), w)
  respond order_id checkout (some url) w = (
    ok (record {
      request_id = env.fresh w.transactions;
      order_id = order_id;
      checkout_url = url;
      checkout_expires_at = checkout.checkout_expires_at;
    }),
    w,
  )

  unfoldable pub create_order : OrderCreateRequest → String → Action World OrderCreateResponse
  unfolding digest_idempotency_key order_request checkout_operation is_unbound is_started
      ensure_checkout respond
  create_order request idempotency_key = do
    key_digest ← lift (digest_idempotency_key sha256 idempotency_key)
    order_id ← transaction env "commerce persistence is unavailable" (λ now fresh s.
        get_or_create_order now fresh key_digest (order_request settings intent request fresh)
          (get_idempotency key_digest s) s)
    (order, checkout) ←
        transaction env "commerce persistence is unavailable"
          (λ _ _. load_order_and_checkout order_id)
    operation ← lift (checkout_operation order_id checkout)
    raise_if (is_unbound operation order)
        (checkout_invariant "durable checkout operation/order binding mismatch")
    checkout' ← ensure_checkout order_id operation checkout checkout.checkout_url
    raise_if (is_started order) (runtime_error "6.0 order state invariant failed")
    respond order_id checkout' checkout'.checkout_url
