-- ===== src/Commerce/Evidence.antt =====
-- What the commerce service is told and what it asks for: the evidence records of webhook.py and
-- fulfillment.py, and the durable operations that are sent to the providers.
use sitescore.Common.{
  any, all, not, opt_eq, is_none, ℕ, Bool, String, str_eq, Option, none, some, List, [], ◌∷◌,
  if◌then◌else◌,
}
use sitescore.Commerce.Contracts.{AnalysisState, ReportState, RefundStatus}
use sitescore.Commerce.Rows.{Json, Reason, ResourceType}

-- A `dict[str, str]`.
abbrev pub Metadata : Type 0
Metadata = List (String × String)

-- `metadata.get(key)`
abbrev pub get : String → Metadata → Option String
get key [] = none
get key ((k, v) ∷ rest) = if str_eq k key then some v else get key rest

-- Whether the metadata holds every expected entry.
abbrev pub holds : Metadata → Metadata → Bool
holds expected metadata = all (λ e. opt_eq str_eq (get e.0 metadata) (some e.1)) expected

-- Whether the two dictionaries share a key.
abbrev pub intersects : Metadata → Metadata → Bool
intersects keys metadata = any (λ e. not (is_none (get e.0 metadata))) keys

pub record StripeEventEnvelope : Type 0 where
  pub event_id : String
  pub event_type : String
  pub api_version : Option String
  pub livemode : Bool
  pub created_at : ℕ
  pub checkout_session_id : Option String
  pub candidate_order_id : Option String

pub record StripeLineItemEvidence : Type 0 where
  pub price_id : String
  pub quantity : ℕ
  pub currency : String

pub record StripeCheckoutEvidence : Type 0 where
  pub session_id : String
  pub object_type : String
  pub mode : String
  pub livemode : Bool
  pub client_reference_id : String
  pub metadata : Metadata
  pub status : String
  pub payment_status : String
  pub payment_intent_id : Option String
  pub line_items : List StripeLineItemEvidence

pub record AnalysisOperation : Type 0 where
  pub order_id : ℕ
  pub target_id : String
  pub base_url : String
  pub operation_version : String
  pub idempotency_key : String
  pub request_json : Json
  pub request_sha256 : ℕ
  pub analysis_id : Option ℕ
  pub analysis_state : Option AnalysisState
  pub report_id : Option ℕ
  pub report_state : Option ReportState

pub record AnalysisEvidence : Type 0 where
  pub analysis_id : ℕ
  pub state : AnalysisState

pub record ReportEvidence : Type 0 where
  pub report_id : ℕ
  pub analysis_id : ℕ
  pub state : ReportState

-- Money amounts are in whole cents; Stripe reports none below 0.
pub record PaymentIntentEvidence : Type 0 where
  pub payment_intent_id : String
  pub amount_received : ℕ
  pub currency : String
  pub livemode : Bool
  pub metadata : Metadata

pub record RefundEvidence : Type 0 where
  pub refund_id : String
  pub payment_intent_id : String
  pub amount : ℕ
  pub currency : String
  pub status : RefundStatus
  pub metadata : Metadata

pub record RefundOperation : Type 0 where
  pub order_id : ℕ
  pub operation_version : String
  pub provider_idempotency_key : String
  pub eligibility_reason : Reason
  pub eligibility_resource_type : ResourceType
  pub eligibility_resource_id : ℕ
  pub stripe_payment_intent_id : String
  pub original_amount_received : ℕ
  pub currency : String
