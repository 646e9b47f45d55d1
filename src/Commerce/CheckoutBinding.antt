-- ===== src/Commerce/CheckoutBinding.antt =====
-- The checks of a Stripe session against the order that it is said to pay (webhook.py).
use sitescore.Common.{
  ◌==◌, Bool, not, ◌&&◌, ◌||◌, String, str_eq, Option, none, some, List, [], ◌∷◌, bool_eq, opt_eq,
  is_none, if◌then◌else◌,
}
use sitescore.Commerce.Rows.{OrderRow, CheckoutSessionRow}
use sitescore.Commerce.Evidence.{Metadata, holds, StripeLineItemEvidence, StripeCheckoutEvidence}
use sitescore.Commerce.Uuid.{uuid_text}

-- The single line item, its price, quantity and currency.
line_item_mismatch : List StripeLineItemEvidence → CheckoutSessionRow → Option String
line_item_mismatch (item ∷ []) checkout =
    if not (str_eq item.price_id checkout.stripe_price_id)
    then some "Checkout Price binding mismatch"
    else if not (item.quantity == checkout.quantity) || not (item.quantity == 1)
    then some "Checkout quantity mismatch"
    else if not (str_eq item.currency "USD")
    then some "Checkout currency mismatch"
    else none
line_item_mismatch _ checkout = some "Checkout line-item count mismatch"

expected_metadata : OrderRow → Metadata
expected_metadata order =
    ("sitescore_order_id", uuid_text order.order_id)
    ∷ ("sitescore_product_code", order.product_code)
    ∷ ("sitescore_catalog_version", order.catalog_version)
    ∷ []

-- `validate_binding`: the text of the exception that it raises, if it raises one.
unfoldable pub binding_mismatch :
    StripeCheckoutEvidence → OrderRow → CheckoutSessionRow → Bool → Option String
unfolding line_item_mismatch expected_metadata
binding_mismatch evidence order checkout expected_livemode =
    if not (str_eq evidence.object_type "checkout.session")
    then some "Stripe object type mismatch"
    else if not (str_eq evidence.mode "payment")
    then some "Checkout mode mismatch"
    else if not (bool_eq evidence.livemode expected_livemode)
    then some "Checkout livemode mismatch"
    else if not (str_eq evidence.client_reference_id (uuid_text order.order_id))
    then some "Checkout client reference mismatch"
    else if not (holds (expected_metadata order) evidence.metadata)
    then some "Checkout metadata binding mismatch"
    else if not (is_none checkout.stripe_checkout_session_id)
        && not (opt_eq str_eq (some evidence.session_id) checkout.stripe_checkout_session_id)
    then some "Checkout Session identity mismatch"
    else line_item_mismatch evidence.line_items checkout

-- What the evidence must say for a completed session, and for an expired one. A payment intent
-- that is the empty text counts as missing.
unfoldable pub is_paid_evidence : StripeCheckoutEvidence → Bool
is_paid_evidence evidence =
    str_eq evidence.status "complete"
    && str_eq evidence.payment_status "paid"
    && not (is_none evidence.payment_intent_id)
    && not (opt_eq str_eq evidence.payment_intent_id (some ""))

unfoldable pub is_expired_evidence : StripeCheckoutEvidence → Bool
is_expired_evidence evidence =
    str_eq evidence.status "expired" && str_eq evidence.payment_status "unpaid"
