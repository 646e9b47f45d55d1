-- ===== src/Commerce/Tests.antt =====
-- A sample order, and the theorems of the commerce service at it.
use sitescore.Common.{
  if◌then◌else◌, ℕ, true, false, ◌≡◌, refl, ◌⊎◌, inl, String, str_eq, Option, none, some, List, [],
  ◌∷◌,
}
use sitescore.Commerce.Contracts.{
  OrderState, PaymentState, FulfillmentState, AnalysisState, ReportState, is_analysis_state,
  is_report_state, RefundStatus,
}
use sitescore.Commerce.Rows.{
  Json, null, OrderRow, OutboxEventRow, FulfillmentBindingRow, RefundOperationRow, Reason,
  ResourceType, Target, Store,
}
use sitescore.Commerce.Tables.{
  get_order, get_idempotency, get_binding_row, select_or, session_clash,
}
use sitescore.Commerce.Evidence.{
  StripeEventEnvelope, StripeCheckoutEvidence, AnalysisEvidence, ReportEvidence, AnalysisOperation,
  RefundEvidence, RefundOperation,
}
use sitescore.Common.Action.{ok, err, calls, runtime_error}
use sitescore.Commerce.Keeps.{kept}
use sitescore.Commerce.Session.{World, Env, refund_created, sessions}
use sitescore.Commerce.Consistency.{IsConsistent}
use sitescore.Commerce.Payment.{apply_reconciliation, apply_poll_reconciliation}
use sitescore.Commerce.Payment.Truth.{Change, reconciliation-Change, poll-Change}
use sitescore.Commerce.Orders.{OrderRequest, get_or_create_order}
use sitescore.Commerce.Orders.Replay.{get_or_create_order-replays}
use sitescore.Commerce.Outbox.{PaidOutboxEvent, next_unpublished, dispatch_once}
use sitescore.Commerce.Outbox.Delivery.{
  Delivery, is_next, next_unpublished-first, dispatch_once-Delivery,
}
use sitescore.Commerce.Webhook.{WebhookSettings, Stripe, handle}
use sitescore.Commerce.Webhook.Paid.{Settlement, handle-Settlement}
use sitescore.Commerce.Fulfillment.{
  FulfillmentSettings, bind_analysis, analysis_bound_elsewhere, operation_from_row,
}
use sitescore.Commerce.Fulfillment.Identity.{
  analysis_of, states_of, bind_analysis-identity, bind_analysis-reopens,
}
use sitescore.Commerce.RefundBinding.{bind_refund, refund_mismatch, refund_bound_elsewhere}
use sitescore.Commerce.RefundBinding.Money.{payment_of, bind_refund-money}
use sitescore.Commerce.RefundPlan.{refund_plan}
use sitescore.Commerce.Status.{status_of}
use sitescore.Commerce.Status.Advice.{stops, status_of-stops}
use sitescore.Commerce.Advance.{Gateways, is_at_rest, follow, advance}
use sitescore.Commerce.Advance.Consistent.{advance-IsConsistent}
use sitescore.Commerce.Advance.Rest.{IsUntouched, refunded, advance-rest}
use sitescore.Commerce.Advance.Asks.{IsAsked, follow-asks, advance-IsAsked}
use sitescore.Commerce.Inbox.{record_stripe_event, get_event_state}
use sitescore.Commerce.Webhook.{load_order_and_checkout}
use sitescore.Commerce.CheckoutBinding.{binding_mismatch, is_paid_evidence}
use sitescore.Commerce.Uuid.{uuid_text}
use sitescore.Commerce.Checkout.{CheckoutSettings, CheckoutResult, SessionParams}
use sitescore.Commerce.CreateOrder.{OrderCreateRequest, OrderCreateResponse}
use sitescore.Commerce.SiteScoreClient.{
  Request, Response, get_analysis, get_report, request_result, analysis_state_of, report_state_of,
}
use sitescore.Commerce.SiteScoreClient.Answers.{get_analysis-checked, get_report-checked}
use sitescore.Commerce.Reach.{
  empty_store, Reachable, start, step, created, event_recorded, reconciled, reachable-IsConsistent,
}

abbrev request : OrderRequest
request = record {
  customer_email = "a@example.org";
  purchase_intent = null;
  canonical_hash = 41;
  catalog_version = "2026-01";
  price_id = "price_1";
  quantity = 1;
  operation_version = "v1";
  checkout_success_url = "https://example.org/ok";
  checkout_cancel_url = "https://example.org/no";
}

abbrev order_id : ℕ
order_id = 7

abbrev order_text : String
order_text = "00000000-0000-0000-0000-000000000007"

-- The store after the order was created.
abbrev ordered : Store
ordered = kept empty_store (get_or_create_order 10 order_id 5 request none empty_store)

abbrev evidence : StripeCheckoutEvidence
evidence = record {
  session_id = "cs_1";
  object_type = "checkout.session";
  mode = "payment";
  livemode = false;
  client_reference_id = order_text;
  metadata =
      ("sitescore_order_id", order_text)
      ∷ ("sitescore_product_code", "location_report_v1")
      ∷ ("sitescore_catalog_version", "2026-01")
      ∷ [];
  status = "complete";
  payment_status = "paid";
  payment_intent_id = some "pi_1";
  line_items = record { price_id = "price_1"; quantity = 1; currency = "USD" } ∷ [];
}

abbrev event : StripeEventEnvelope
event = record {
  event_id = "evt_1";
  event_type = "checkout.session.completed";
  api_version = none;
  livemode = false;
  created_at = 20;
  checkout_session_id = some "cs_1";
  candidate_order_id = some order_text;
}

abbrev env : Env
env = record { now = λ t. t; fresh = λ t. t; reachable = λ _. true }

abbrev settings : WebhookSettings
settings = record { stripe_api_version = "2026-01-01"; stripe_expected_livemode = false }

abbrev stripe : Stripe
stripe = record {
  verify = λ _ _. ok event;
  retrieve = λ _. ok evidence;
  sha256 = λ _. 1;
  parse_uuid = λ _. some order_id;
}

abbrev world : Store → World
world s = record { store = s; transactions = 0; calls = [] }

abbrev body : List ℕ
body = 123 ∷ 125 ∷ []

-- A signed event with authoritative evidence makes the order paid.
handled :
    payment_of (get_order 7 (handle env settings stripe body (some "sig") (world ordered)).1.store)
    ≡ some PaymentState.paid
unfolding handle calls sessions select_or get_or_create_order session_clash kept record_stripe_event
    get_event_state load_order_and_checkout binding_mismatch uuid_text is_paid_evidence
    apply_reconciliation
handled = refl

-- The store after the event was recorded, and after it was reconciled.
abbrev recorded : Store
recorded = kept ordered (record_stripe_event 20 event 1 ordered)

abbrev paid_store : Store
paid_store =
    kept recorded (apply_reconciliation 30 99 "evt_1" order_id evidence Target.paid recorded)

abbrev digest : Json → ℕ
digest _ = 3

abbrev fulfillment : FulfillmentSettings
fulfillment = record {
  sitescore_api_target_id = "target";
  sitescore_api_base_url = "https://api.example.org";
  stripe_expected_livemode = false;
  request_digest = digest;
}

abbrev history : Reachable fulfillment paid_store
history =
    step (step (step start (created 10 order_id 5 request none)) (event_recorded 20 event 1))
      (reconciled 30 99 "evt_1" order_id evidence Target.paid)

-- The transactions do what the history says.
paid_by_history : payment_of (get_order 7 paid_store) ≡ some PaymentState.paid
unfolding calls select_or get_or_create_order session_clash kept record_stripe_event
    apply_reconciliation
paid_by_history = refl

reachable_example : IsConsistent 7 paid_store
reachable_example = reachable-IsConsistent fulfillment paid_store history 7

handled_example :
    Settlement settings stripe body 7 ordered
      (handle env settings stripe body (some "sig") (world ordered)).1.store
handled_example = handle-Settlement env settings stripe body (some "sig") 7 (world ordered)

abbrev analysis : AnalysisEvidence
analysis = record { analysis_id = 70; state = AnalysisState.queued }

abbrev gateways : Gateways
gateways = record {
  submit_analysis = λ _. ok analysis;
  get_analysis = λ _ _. ok analysis;
  resolve_report = λ _ _. err (runtime_error "none");
  get_report = λ _ _. err (runtime_error "none");
  retrieve_payment_intent = λ _. err (runtime_error "none");
  list_refunds = λ _. ok [];
  create_refund = λ _. err (runtime_error "none");
}

advance_example : IsConsistent 7 (advance env fulfillment gateways 7 (world paid_store)).1.store
advance_example =
    advance-IsConsistent env fulfillment gateways 7 (world paid_store)
      (reachable-IsConsistent fulfillment paid_store history) 7

reconciled_example : Change 30 7 7 Target.paid (get_order 7 recorded) (
    get_order 7
      (kept recorded (apply_reconciliation 30 99 "evt_1" 7 evidence Target.paid recorded)))
reconciled_example = reconciliation-Change 30 99 7 evidence Target.paid recorded "evt_1" 7

poll_example : Change 30 7 7 Target.paid (get_order 7 recorded) (
    get_order 7
      (kept recorded (apply_poll_reconciliation 30 99 98 7 evidence Target.paid 4 29 recorded)))
poll_example = poll-Change 30 99 7 evidence Target.paid recorded 98 7 4 29

-- A second request under the key is given the order of the first.
replay_example :
    get_or_create_order 11 8 5 request (get_idempotency 5 ordered) ordered ≡ (ok 7, ordered)
unfolding get_or_create_order kept
replay_example =
    get_or_create_order-replays 10 7 5 request none empty_store ordered 7 refl (inl refl) 11 8
      request

abbrev accepted : PaidOutboxEvent → Option ℕ
accepted _ = some 200

dispatch_example :
    Delivery accepted paid_store (dispatch_once env accepted (world paid_store)).1.store
dispatch_example = dispatch_once-Delivery env accepted (world paid_store)

abbrev waiting : List OutboxEventRow
waiting =
    record { outbox_id = 2; order_id = 8; created_at = 40; published_at = none }
    ∷ record { outbox_id = 1; order_id = 7; created_at = 30; published_at = none }
    ∷ record { outbox_id = 3; order_id = 9; created_at = 20; published_at = some 21 }
    ∷ []

next_example : is_next (next_unpublished waiting) waiting ≡ true
next_example = next_unpublished-first waiting

abbrev operation : RefundOperation
operation = record {
  order_id = 7;
  operation_version = "stripe_full_refund_v1";
  provider_idempotency_key = "key";
  eligibility_reason = Reason.analysis_failed;
  eligibility_resource_type = ResourceType.analysis;
  eligibility_resource_id = 70;
  stripe_payment_intent_id = "pi_1";
  original_amount_received = 4900;
  currency = "USD";
}

abbrev no_refunds : List RefundEvidence
no_refunds = []

asks_example :
    (follow env fulfillment gateways 7 operation
      (refund_plan operation no_refunds)
      (world paid_store)).1.calls
    ≡ refund_created operation ∷ []
asks_example = follow-asks env fulfillment gateways 7 operation no_refunds (world paid_store)

abbrev paid_order : OrderRow
paid_order = record {
  order_id = 7;
  product_code = "location_report_v1";
  catalog_version = "2026-01";
  customer_email = "a@example.org";
  purchase_intent = null;
  canonical_request_hash = 41;
  order_state = OrderState.fulfillment_in_progress;
  payment_state = PaymentState.paid;
  fulfillment_state = FulfillmentState.analysis_failed;
  created_at = 10;
  updated_at = 20;
}

abbrev refund_row : RefundOperationRow
refund_row = record {
  order_id = 7;
  operation_version = "stripe_full_refund_v1";
  provider_idempotency_key = "key";
  eligibility_reason = Reason.analysis_failed;
  eligibility_resource_type = ResourceType.analysis;
  eligibility_resource_id = 70;
  stripe_payment_intent_id = "pi_1";
  original_amount_received = 4900;
  currency = "USD";
  stripe_refund_id = none;
  stripe_refund_status = none;
  stripe_refund_amount = none;
  failure_code = none;
  created_at = 30;
  updated_at = 30;
  last_reconciled_at = none;
}

abbrev refunding : Store
refunding = record empty_store { orders = paid_order ∷ []; refunds = refund_row ∷ [] }

abbrev refund : RefundEvidence
refund = record {
  refund_id = "re_1";
  payment_intent_id = "pi_1";
  amount = 4900;
  currency = "USD";
  status = RefundStatus.succeeded;
  metadata = [];
}

abbrev refunded_store : Store
refunded_store = (bind_refund 50 operation refund true refunding).1

money_example :
    (refund.amount ≡ operation.original_amount_received)
    × (str_eq refund.currency operation.currency ≡ true)
    × (str_eq refund.payment_intent_id operation.stripe_payment_intent_id ≡ true)
    × (payment_of (get_order 7 refunded_store) ≡ some PaymentState.refunded)
unfolding bind_refund calls select_or refund_mismatch refund_bound_elsewhere
money_example = bind_refund-money 50 operation refund true refunding refunded_store refl

abbrev binding : FulfillmentBindingRow
binding = record {
  order_id = 7;
  sitescore_api_target_id = "target";
  sitescore_api_base_url = "https://api.example.org";
  analysis_operation_version = "sitescore_analysis_v1";
  analysis_idempotency_key = "key";
  analysis_request_json = null;
  analysis_request_sha256 = 3;
  analysis_id = some 70;
  analysis_state = none;
  analysis_last_observed_at = none;
  report_id = none;
  report_state = none;
  report_last_observed_at = none;
  created_at = 30;
  updated_at = 30;
}

-- An order whose refund has succeeded, and whose analysis is observed once more.
abbrev refunded_order_row : OrderRow
refunded_order_row = record paid_order {
  order_state = OrderState.refunded;
  payment_state = PaymentState.refunded;
}

abbrev late : Store
late = record empty_store { orders = refunded_order_row ∷ []; bindings = binding ∷ [] }

abbrev observed : AnalysisOperation
observed = operation_from_row (record binding {
  analysis_state = some AnalysisState.queued;
  analysis_last_observed_at = some 60;
  updated_at = 60;
})

abbrev late_store : Store
late_store = (bind_analysis 60 7 analysis late).1

identity_example :
    ((analysis_of (get_binding_row 7 late) ≡ none)
      ⊎ (analysis_of (get_binding_row 7 late) ≡ some 70))
    × (analysis_bound_elsewhere 7 70 late.bindings ≡ false)
    × (analysis_of (get_binding_row 7 late_store) ≡ some 70)
unfolding bind_analysis calls select_or
identity_example = bind_analysis-identity 60 7 analysis late late_store observed refl

reopens_example :
    states_of (get_order 7 late_store)
    ≡ some (OrderState.fulfillment_in_progress, PaymentState.paid)
unfolding bind_analysis calls select_or
reopens_example = bind_analysis-reopens 60 7 analysis late late_store observed refl

rest_example : IsUntouched (world late) (advance env fulfillment gateways 7 (world late)).1
rest_example =
    advance-rest env fulfillment gateways 7 refunded_order_row (world late) refl (refunded refl)

asked_example :
    IsAsked env fulfillment gateways []
      (advance env fulfillment gateways 7 (world paid_store)).1.calls
asked_example = advance-IsAsked env fulfillment gateways 7 (world paid_store)

stops_example :
    is_at_rest (status_of paid_order) ≡ stops (status_of paid_order).next_action paid_order
stops_example = status_of-stops paid_order

abbrev checkout_settings : CheckoutSettings
checkout_settings = record {
  stripe_price_location_report_v1 = "price_1";
  success_url_base = "https://example.org/ok";
  cancel_url_base = "https://example.org/no";
}

abbrev session_of : SessionParams → Option CheckoutResult
session_of params = some (record {
  session_id = "cs_1";
  url = "https://checkout.example.org/cs_1";
  expires_at = some 90;
  mode = "payment";
  client_reference_id = params.client_reference_id;
  metadata = params.metadata;
})

abbrev sha_of : String → ℕ
sha_of _ = 5

abbrev intent_of : OrderCreateRequest → Json
intent_of r = r.analysis_request

abbrev order_create : OrderCreateRequest
order_create = record {
  customer_email = "a@example.org";
  analysis_request = null;
  canonical_hash = 41;
}

abbrev taken_answer : OrderCreateResponse
taken_answer = record {
  request_id = 3;
  order_id = 0;
  checkout_url = "https://checkout.example.org/cs_1";
  checkout_expires_at = some 90;
}

abbrev answers : Request → Option Response
answers _ = some (record {
  status_code = 200;
  data_fields = some (
      ("api_version", "v1")
      ∷ ("analysis_id", "70")
      ∷ ("report_id", "71")
      ∷ ("state", "failed")
      ∷ []);
})

abbrev read_id : String → Option ℕ
read_id t = if str_eq t "70" then some 70 else if str_eq t "71" then some 71 else none

abbrev failed_analysis : AnalysisEvidence
failed_analysis = record { analysis_id = 70; state = AnalysisState.failed }

get_analysis_example :
    (failed_analysis.analysis_id ≡ 70) × (is_analysis_state failed_analysis.state ≡ true)
unfolding get_analysis request_result analysis_state_of
get_analysis_example =
    get_analysis-checked answers read_id "https://api.example.org" 70 failed_analysis refl

abbrev failed_report : ReportEvidence
failed_report = record { report_id = 71; analysis_id = 70; state = ReportState.failed }

get_report_example : (failed_report.report_id ≡ 71) × (is_report_state failed_report.state ≡ true)
unfolding get_report request_result report_state_of
get_report_example =
    get_report-checked answers read_id "https://api.example.org" 71 failed_report refl
