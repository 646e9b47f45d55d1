-- ===== src/Commerce/Checkout.antt =====
-- The checkout of an order at Stripe (checkout.py). The client of Stripe is a parameter.
use sitescore.Common.{
  ℕ, ◌==◌, not, String, str_eq, Option, none, some, List, [], ◌∷◌, if◌then◌else◌,
}
use Prim.Native.String.{◌++◌}
use text.Mathlib.Text.{starts_with}
use sitescore.Commerce.Evidence.{Metadata, holds}
use sitescore.Common.Action.{Result, ok, err, checkout_invariant, checkout_provider_unavailable}
use sitescore.Commerce.Orders.{product_code}
use sitescore.Commerce.Uuid.{uuid_text}

abbrev pub checkout_operation_version : String
checkout_operation_version = "stripe_checkout_v1"

pub record ProductCatalogEntry : Type 0 where
  pub product_code : String
  pub catalog_version : String
  pub quantity : ℕ
  pub currency_expectation : String
  pub stripe_price_id : String

pub record CheckoutOperation : Type 0 where
  pub order_id : ℕ
  pub provider_idempotency_key : String
  pub operation_version : String
  pub product_code : String
  pub catalog_version : String
  pub stripe_price_id : String
  pub quantity : ℕ
  pub customer_email : String
  pub success_url : String
  pub cancel_url : String

pub record CheckoutResult : Type 0 where
  pub session_id : String
  pub url : String
  pub expires_at : Option ℕ
  pub mode : String
  pub client_reference_id : String
  pub metadata : Metadata

-- The parts of `Settings` that a checkout reads.
pub record CheckoutSettings : Type 0 where
  pub stripe_price_location_report_v1 : String
  pub success_url_base : String
  pub cancel_url_base : String

unfoldable pub catalog_from_settings : CheckoutSettings → ProductCatalogEntry
catalog_from_settings settings = record {
  product_code = product_code;
  catalog_version = "v1";
  quantity = 1;
  currency_expectation = "USD";
  stripe_price_id = settings.stripe_price_location_report_v1;
}

-- The text of a UUID has no character that `quote` changes.
unfoldable pub success_url : CheckoutSettings → ℕ → String
success_url settings order_id =
    settings.success_url_base
    ++ ("?order_id=" ++ (uuid_text order_id ++ "&session_id={CHECKOUT_SESSION_ID}"))

unfoldable pub cancel_url : CheckoutSettings → ℕ → String
cancel_url settings order_id = settings.cancel_url_base ++ ("?order_id=" ++ uuid_text order_id)

-- What a session is made with: the `params` that depend on the order. The mode "payment", the UI
-- mode "hosted", the method "card" and the API version are the same for every order.
pub record SessionParams : Type 0 where
  pub line_items : List (String × ℕ)
  pub client_reference_id : String
  pub customer_email : String
  pub success_url : String
  pub cancel_url : String
  pub metadata : Metadata
  pub payment_intent_metadata : Metadata
  pub idempotency_key : String

unfoldable pub operation_metadata : CheckoutOperation → Metadata
operation_metadata operation =
    ("sitescore_order_id", uuid_text operation.order_id)
    ∷ ("sitescore_product_code", operation.product_code)
    ∷ ("sitescore_catalog_version", operation.catalog_version)
    ∷ []

unfoldable pub session_params : CheckoutOperation → SessionParams
unfolding operation_metadata
session_params operation = record {
  line_items = (operation.stripe_price_id, operation.quantity) ∷ [];
  client_reference_id = uuid_text operation.order_id;
  customer_email = operation.customer_email;
  success_url = operation.success_url;
  cancel_url = operation.cancel_url;
  metadata = operation_metadata operation;
  payment_intent_metadata =
      ("sitescore_order_id", uuid_text operation.order_id)
      ∷ ("sitescore_product_code", operation.product_code)
      ∷ [];
  idempotency_key = operation.provider_idempotency_key;
}

-- `StripeCheckoutGateway.create_checkout`, where `create` is the call of Stripe's client: the
-- session as the gateway reads it, or none where the client raises.
unfoldable pub create_checkout :
    (SessionParams → Option CheckoutResult) → CheckoutOperation → Result CheckoutResult
unfolding session_params
create_checkout create operation =
    if not (str_eq operation.operation_version checkout_operation_version)
    then err (checkout_invariant "unsupported durable checkout operation version")
    else if not (operation.quantity == 1)
    then err (checkout_invariant "checkout quantity invariant failed")
    else elim (create (session_params operation)) [
      | none ↦ err checkout_provider_unavailable
      | some session ↦ ok session
    ]

-- `validate_checkout_result`: the text of the exception that it raises, if it raises one.
unfoldable pub checkout_fault : CheckoutResult → CheckoutOperation → Option String
unfolding operation_metadata
checkout_fault result operation =
    if not (starts_with result.session_id "cs_")
    then some "checkout provider returned an invalid session identity"
    else if not (starts_with result.url "https://")
    then some "checkout provider returned an invalid hosted URL"
    else if not (str_eq result.mode "payment")
    then some "checkout mode binding mismatch"
    else if not (str_eq result.client_reference_id (uuid_text operation.order_id))
    then some "checkout order binding mismatch"
    else if not (holds (operation_metadata operation) result.metadata)
    then some "checkout metadata binding mismatch"
    else none
