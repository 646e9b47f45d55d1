-- ===== src/Commerce/Rows.antt =====
-- The rows of the commerce schema (db.py, fulfillment.py) and its tables. A UUID is its number, a
-- time is a number, and a SHA-256 digest is its number. JSON values are kept in canonical form:
-- the keys of an object sorted, and a number, a Boolean or a text by its JSON text.
use sitescore.Common.{ℕ, Bool, String, Option, List}
use sitescore.Commerce.Contracts.{
  OrderState, PaymentState, FulfillmentState, AnalysisState, ReportState, RefundStatus,
}

mutual
  pub data Json : Type 0 where
    null : Json
    scalar : String → Json
    array : Items → Json
    object : Fields → Json

  pub data Items : Type 0 where
    nil : Items
    cons : Json → Items → Items

  pub data Fields : Type 0 where
    end : Fields
    field : String → Json → Fields → Fields

-- `orders`
pub record OrderRow : Type 0 where
  pub order_id : ℕ
  pub product_code : String
  pub catalog_version : String
  pub customer_email : String
  pub purchase_intent : Json
  pub canonical_request_hash : ℕ
  pub order_state : OrderState
  pub payment_state : PaymentState
  pub fulfillment_state : FulfillmentState
  pub created_at : ℕ
  pub updated_at : ℕ

-- `order_idempotency`
pub record OrderIdempotencyRow : Type 0 where
  pub key_digest : ℕ
  pub canonical_request_hash : ℕ
  pub order_id : ℕ
  pub created_at : ℕ

-- `checkout_sessions`
pub record CheckoutSessionRow : Type 0 where
  pub order_id : ℕ
  pub stripe_checkout_session_id : Option String
  pub provider_idempotency_key : String
  pub operation_version : String
  pub catalog_version : String
  pub product_code : String
  pub stripe_price_id : String
  pub quantity : ℕ
  pub customer_email : String
  pub success_url : String
  pub cancel_url : String
  pub checkout_url : Option String
  pub checkout_expires_at : Option ℕ
  pub stripe_payment_intent_id : Option String
  pub stripe_session_status : Option String
  pub stripe_payment_status : Option String
  pub stripe_livemode : Option Bool
  pub reconciled_at : Option ℕ
  pub last_reconciliation_event_id : Option String
  pub created_at : ℕ
  pub updated_at : ℕ

-- The values of `processing_state`.
pub data ProcessingState : Type 0 where
  received processed ignored attention_required : ProcessingState

-- `stripe_event_inbox`
pub record StripeEventInboxRow : Type 0 where
  pub stripe_event_id : String
  pub stripe_event_type : String
  pub stripe_object_id : Option String
  pub candidate_order_id : Option String
  pub event_api_version : Option String
  pub livemode : Bool
  pub event_created_at : ℕ
  pub raw_body_sha256 : ℕ
  pub processing_state : ProcessingState
  pub failure_code : Option String
  pub received_at : ℕ
  pub processed_at : Option ℕ
  pub attempt_count : ℕ

-- `outbox_events`. Every row is written with type `order.paid.v1`, version 1 and a payload made of
-- the order's id, and a check of the table holds the type, so these columns are left out.
pub record OutboxEventRow : Type 0 where
  pub outbox_id : ℕ
  pub order_id : ℕ
  pub created_at : ℕ
  pub published_at : Option ℕ

-- The values of `transition_target`.
pub data Target : Type 0 where
  paid expired : Target

-- `payment_poll_receipts`
pub record PaymentPollReceiptRow : Type 0 where
  pub receipt_id : ℕ
  pub order_id : ℕ
  pub stripe_checkout_session_id : String
  pub observed_session_status : String
  pub observed_payment_status : String
  pub observed_payment_intent_id : Option String
  pub observed_livemode : Bool
  pub evidence_sha256 : ℕ
  pub transition_target : Target
  pub observed_at : ℕ
  pub created_at : ℕ

-- `fulfillment_bindings`
pub record FulfillmentBindingRow : Type 0 where
  pub order_id : ℕ
  pub sitescore_api_target_id : String
  pub sitescore_api_base_url : String
  pub analysis_operation_version : String
  pub analysis_idempotency_key : String
  pub analysis_request_json : Json
  pub analysis_request_sha256 : ℕ
  pub analysis_id : Option ℕ
  pub analysis_state : Option AnalysisState
  pub analysis_last_observed_at : Option ℕ
  pub report_id : Option ℕ
  pub report_state : Option ReportState
  pub report_last_observed_at : Option ℕ
  pub created_at : ℕ
  pub updated_at : ℕ

-- The four reasons of `REFUND_REASON_STATES`.
pub data Reason : Type 0 where
  analysis_not_score_ready analysis_failed analysis_timed_out report_failed : Reason

pub data ResourceType : Type 0 where
  analysis report : ResourceType

-- The values of `server_observed_terminal_state`.
pub data TerminalState : Type 0 where
  not_score_ready failed timed_out : TerminalState

-- `refund_eligibility`
pub record RefundEligibilityRow : Type 0 where
  pub order_id : ℕ
  pub eligibility_reason : Reason
  pub resource_type : ResourceType
  pub resource_id : ℕ
  pub server_observed_terminal_state : TerminalState
  pub observed_at : ℕ
  pub sitescore_api_target_id : String

-- `refund_operations`
pub record RefundOperationRow : Type 0 where
  pub order_id : ℕ
  pub operation_version : String
  pub provider_idempotency_key : String
  pub eligibility_reason : Reason
  pub eligibility_resource_type : ResourceType
  pub eligibility_resource_id : ℕ
  pub stripe_payment_intent_id : String
  pub original_amount_received : ℕ
  pub currency : String
  pub stripe_refund_id : Option String
  pub stripe_refund_status : Option RefundStatus
  pub stripe_refund_amount : Option ℕ
  pub failure_code : Option String
  pub created_at : ℕ
  pub updated_at : ℕ
  pub last_reconciled_at : Option ℕ

pub record Store : Type 0 where
  pub orders : List OrderRow
  pub idempotency : List OrderIdempotencyRow
  pub checkouts : List CheckoutSessionRow
  pub inbox : List StripeEventInboxRow
  pub outbox : List OutboxEventRow
  pub receipts : List PaymentPollReceiptRow
  pub bindings : List FulfillmentBindingRow
  pub eligibility : List RefundEligibilityRow
  pub refunds : List RefundOperationRow
