-- ===== src/Commerce/Webhook.antt =====
-- The handler of Stripe webhooks (webhook.py). The signature check and the reading of a session are
-- Stripe's client, and the reading of a UUID is Python's: they come with the record `Stripe`.
pub mod Paid
use sitescore.Common.{
  ℕ, ltb, Bool, true, false, not, ◌&&◌, ◌||◌, String, str_eq, Option, none, some, List, bool_eq,
  opt_eq, is_none, length, if◌then◌else◌,
}
use sitescore.Commerce.Rows.{OrderRow, CheckoutSessionRow, ProcessingState, received, Target, Store}
use sitescore.Commerce.Tables.{select_or, get_order, get_checkout}
use sitescore.Commerce.Evidence.{StripeEventEnvelope, StripeCheckoutEvidence}
use sitescore.Commerce.CheckoutBinding.{binding_mismatch, is_paid_evidence, is_expired_evidence}
use sitescore.Common.Action.{
  Action, Error, Result, ok, err, persistence_unavailable, webhook_body_too_large,
  webhook_verification, pure, raise, lift, raise_if, ◌>>=◌, ◌>>◌,
}
use sitescore.Commerce.Payment.{apply_reconciliation}
use sitescore.Commerce.Inbox.{
  record_stripe_event, get_event_state, mark_event_attention, mark_event_ignored,
}
use sitescore.Commerce.Session.{World, Env, transaction, catch}

-- 256 * 1024
abbrev pub max_webhook_body_bytes : ℕ
max_webhook_body_bytes = 262144

abbrev pub completed_event : String
completed_event = "checkout.session.completed"

abbrev pub expired_event : String
expired_event = "checkout.session.expired"

-- The parts of `Settings` that the handler reads.
pub record WebhookSettings : Type 0 where
  pub stripe_api_version : String
  pub stripe_expected_livemode : Bool

-- Stripe's client as configured: `verify` and `retrieve`, with SHA-256 and `UUID` of a text.
pub record Stripe : Type 0 where
  pub verify : List ℕ → String → Result StripeEventEnvelope
  pub retrieve : String → Result StripeCheckoutEvidence
  pub sha256 : List ℕ → ℕ
  pub parse_uuid : String → Option ℕ

-- `event_type in ASYNC_EVENTS or event_type not in SUPPORTED_EVENTS`
unfoldable pub is_unsupported : String → Bool
is_unsupported event_type =
    str_eq event_type "checkout.session.async_payment_succeeded"
    || str_eq event_type "checkout.session.async_payment_failed"
    || not (str_eq event_type completed_event || str_eq event_type expired_event)

abbrev pub missing_order : Error
missing_order = persistence_unavailable "commerce order binding is unavailable"

-- `load_order_and_checkout`
unfoldable pub load_order_and_checkout : ℕ → Action Store (OrderRow × CheckoutSessionRow)
load_order_and_checkout order_id = do
  order ← select_or (get_order order_id) missing_order
  checkout ← select_or (get_checkout order_id) missing_order
  pure (order, checkout)

-- `state in {"processed", "ignored", "attention_required"}`
abbrev pub is_closed : ProcessingState → Bool
is_closed received = false
is_closed _ = true

abbrev inbox_message : String
inbox_message = "Stripe event inbox is unavailable"

-- The body of `PaymentWebhookService`. Every event that is verified and recorded is answered by
-- `{"status": "accepted"}`, which is `tt`.
module _ (env : Env) (settings : WebhookSettings) (stripe : Stripe) where
  mark_attention : String → String → Action World (Unit {0})
  mark_attention event_id code =
      transaction env "Stripe event inbox update failed"
        (λ now _. mark_event_attention now event_id code)

  mark_ignored : String → String → Action World (Unit {0})
  mark_ignored event_id code =
      transaction env "Stripe event inbox update failed"
        (λ now _. mark_event_ignored now event_id code)

  reconcile : StripeEventEnvelope → ℕ → StripeCheckoutEvidence → Target → Action World (Unit {0})
  reconcile event order_id evidence target =
      transaction env "payment reconciliation could not be persisted"
        (λ now fresh. apply_reconciliation now fresh event.event_id order_id evidence target)

  -- The two supported kinds of event, on evidence that is bound to the order.
  settle_event : StripeEventEnvelope → ℕ → StripeCheckoutEvidence → Action World (Unit {0})
  unfolding reconcile mark_attention
  settle_event event order_id evidence =
      if str_eq event.event_type completed_event
      then if not (is_paid_evidence evidence)
        then mark_attention event.event_id "payment_not_authoritative"
        else reconcile event order_id evidence Target.paid
      else if str_eq event.event_type expired_event
      then if not (is_expired_evidence evidence)
        then mark_attention event.event_id "expiration_not_authoritative"
        else reconcile event order_id evidence Target.expired
      else pure tt

  -- From the retrieval of the session on.
  check_evidence :
      StripeEventEnvelope → ℕ → String → OrderRow × CheckoutSessionRow → Action World (Unit {0})
  unfolding settle_event
  check_evidence event order_id session_id (order, checkout) = do
    evidence ← lift (stripe.retrieve session_id)
    if not (str_eq evidence.session_id session_id)
        then mark_attention event.event_id "provider_session_id_mismatch"
        else if not
            (is_none (binding_mismatch evidence order checkout settings.stripe_expected_livemode))
        then mark_attention event.event_id "provider_binding_mismatch"
        else settle_event event order_id evidence

  -- `except PersistenceUnavailable` round the loading of the order.
  with_order :
      StripeEventEnvelope
      → ℕ
      → String
      → Result (OrderRow × CheckoutSessionRow)
      → Action World (Unit {0})
  unfolding check_evidence
  with_order event order_id session_id (ok rows) = check_evidence event order_id session_id rows
  with_order event order_id session_id (err (persistence_unavailable _)) =
      mark_attention event.event_id "local_order_not_found"
  with_order event order_id session_id (err e) = raise e

  -- From the correlation of the event with an order on. An empty session id counts as missing.
  correlate : StripeEventEnvelope → Option ℕ → Option String → Action World (Unit {0})
  unfolding with_order
  correlate event (some order_id) (some session_id) =
      if str_eq session_id ""
      then mark_attention event.event_id "event_correlation_invalid"
      else catch
          (transaction env "commerce persistence is unavailable"
            (λ _ _. load_order_and_checkout order_id))
          (with_order event order_id session_id)
  correlate event _ _ = mark_attention event.event_id "event_correlation_invalid"

  -- `_safe_uuid`
  candidate : Option String → Option ℕ
  candidate none = none
  candidate (some text) = stripe.parse_uuid text

  -- What `handle` does with an event that is recorded.
  handle_event : StripeEventEnvelope → Action World (Unit {0})
  unfolding correlate candidate mark_ignored is_unsupported
  handle_event event =
      if not (is_none event.api_version)
        && not (opt_eq str_eq event.api_version (some settings.stripe_api_version))
      then mark_attention event.event_id "event_api_version_mismatch"
      else if not (bool_eq event.livemode settings.stripe_expected_livemode)
      then mark_attention event.event_id "event_livemode_mismatch"
      else if is_unsupported event.event_type
      then mark_ignored event.event_id "unsupported_event"
      else (do
        state ← transaction env inbox_message (λ _ _. get_event_state event.event_id)
        if is_closed state
            then pure tt
            else correlate event (candidate event.candidate_order_id) event.checkout_session_id)

  -- The signature check; a signature that is empty counts as missing.
  verified : List ℕ → Option String → Result StripeEventEnvelope
  verified raw_body none = err (webhook_verification "Stripe-Signature header is required")
  verified raw_body (some signature) =
      if str_eq signature ""
      then err (webhook_verification "Stripe-Signature header is required")
      else stripe.verify raw_body signature

  unfoldable pub handle : List ℕ → Option String → Action World (Unit {0})
  unfolding verified handle_event
  handle raw_body signature = do
    raise_if (ltb max_webhook_body_bytes (length raw_body))
        (webhook_body_too_large "Stripe webhook body exceeds 256 KiB")
    event ← lift (verified raw_body signature)
    transaction env inbox_message (λ now _. record_stripe_event now event (stripe.sha256 raw_body))
    handle_event event
