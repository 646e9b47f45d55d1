-- ===== src/Commerce/Fulfillment.antt =====
-- The fulfillment store (fulfillment.py): the durable operation that asks SiteScore for the
-- analysis of a paid order, and the binding of the analysis and the report that it gave.
pub mod Consistent
pub mod Identity
use sitescore.Common.{
  ℕ, ◌==◌, Bool, false, not, ◌&&◌, ◌||◌, String, str_eq, Option, none, some, List, ◌∷◌, any, opt_eq,
  if◌then◌else◌,
}
use Prim.Native.String.{◌++◌}
use sitescore.Commerce.Contracts.{
  OrderState, PaymentState, FulfillmentState, AnalysisState, ReportState, order_eq, payment_eq,
  fulfillment_eq, is_analysis_state, is_report_state, is_completed,
}
use sitescore.Commerce.Rows.{Json, OrderRow, FulfillmentBindingRow, Store}
use sitescore.Commerce.Tables.{select_or, get_order, get_binding_row, write_order, write_binding}
use sitescore.Commerce.Evidence.{AnalysisOperation, AnalysisEvidence, ReportEvidence}
use sitescore.Common.Action.{
  Action, Error, Result, ok, err, fulfillment_invariant, fulfillment_not_found, pure, require, lift,
  gets, modify, raise_if, ◌>>=◌, ◌>>◌,
}
use sitescore.Commerce.Uuid.{uuid_text}
use sitescore.Commerce.Json.{json_eq, analysis_request}

abbrev pub analysis_operation_version : String
analysis_operation_version = "sitescore_analysis_v1"

-- `_analysis_provider_key`
unfoldable pub analysis_provider_key : ℕ → String
analysis_provider_key order_id = "sitescore:analysis:v1:" ++ uuid_text order_id

-- The parts of `Settings` that the store reads, and the SHA-256 of the canonical text of a request.
pub record FulfillmentSettings : Type 0 where
  pub sitescore_api_target_id : String
  pub sitescore_api_base_url : String
  pub stripe_expected_livemode : Bool
  pub request_digest : Json → ℕ

-- `_operation_from_row`
unfoldable pub operation_from_row : FulfillmentBindingRow → AnalysisOperation
operation_from_row row = record {
  order_id = row.order_id;
  target_id = row.sitescore_api_target_id;
  base_url = row.sitescore_api_base_url;
  operation_version = row.analysis_operation_version;
  idempotency_key = row.analysis_idempotency_key;
  request_json = row.analysis_request_json;
  request_sha256 = row.analysis_request_sha256;
  analysis_id = row.analysis_id;
  analysis_state = row.analysis_state;
  report_id = row.report_id;
  report_state = row.report_state;
}

-- The fulfillment state that stands for a state of the analysis.
unfoldable pub fulfillment_of_analysis : AnalysisState → Option FulfillmentState
fulfillment_of_analysis AnalysisState.queued = some FulfillmentState.analysis_pending
fulfillment_of_analysis AnalysisState.running = some FulfillmentState.analysis_running
fulfillment_of_analysis AnalysisState.completed = some FulfillmentState.report_pending
fulfillment_of_analysis AnalysisState.not_score_ready = some FulfillmentState.not_score_ready
fulfillment_of_analysis AnalysisState.failed = some FulfillmentState.analysis_failed
fulfillment_of_analysis AnalysisState.timed_out = some FulfillmentState.analysis_timed_out
fulfillment_of_analysis (AnalysisState.other _) = none

unfoldable pub fulfillment_of_report : ReportState → Option FulfillmentState
fulfillment_of_report ReportState.ready = some FulfillmentState.delivery_pending
fulfillment_of_report ReportState.failed = some FulfillmentState.report_failed
fulfillment_of_report (ReportState.other _) = none

-- The order while it is being fulfilled.
in_progress : FulfillmentState → ℕ → OrderRow → OrderRow
in_progress state now order = record order {
  order_state = OrderState.fulfillment_in_progress;
  payment_state = PaymentState.paid;
  fulfillment_state = state;
  updated_at = now;
}

-- `_apply_analysis_state`
apply_analysis_state : OrderRow → AnalysisState → ℕ → Result OrderRow
unfolding in_progress fulfillment_of_analysis
apply_analysis_state order state now = elim (fulfillment_of_analysis state) [
  | none ↦ err (fulfillment_invariant "unknown SiteScore analysis state")
  | some f ↦ ok (in_progress f now order)
]

-- `_apply_report_state`
apply_report_state : OrderRow → ReportState → ℕ → Result OrderRow
unfolding in_progress fulfillment_of_report
apply_report_state order state now = elim (fulfillment_of_report state) [
  | none ↦ err (fulfillment_invariant "unknown SiteScore report state")
  | some f ↦ ok (in_progress f now order)
]

-- `_load_order_for_update`
abbrev pub load_order_for_update : ℕ → Action Store OrderRow
load_order_for_update order_id =
    select_or (get_order order_id) (fulfillment_not_found "order not found")

new_binding : FulfillmentSettings → ℕ → ℕ → Json → FulfillmentBindingRow
unfolding analysis_provider_key
new_binding settings now order_id payload = record {
  order_id = order_id;
  sitescore_api_target_id = settings.sitescore_api_target_id;
  sitescore_api_base_url = settings.sitescore_api_base_url;
  analysis_operation_version = analysis_operation_version;
  analysis_idempotency_key = analysis_provider_key order_id;
  analysis_request_json = payload;
  analysis_request_sha256 = settings.request_digest payload;
  analysis_id = none;
  analysis_state = none;
  analysis_last_observed_at = none;
  report_id = none;
  report_state = none;
  report_last_observed_at = none;
  created_at = now;
  updated_at = now;
}

-- An order that has only been paid enters fulfillment with its first operation.
begun : ℕ → OrderRow → OrderRow
begun now order = record order {
  order_state = OrderState.fulfillment_in_progress;
  fulfillment_state = FulfillmentState.analysis_pending;
  updated_at = now;
}

begin : ℕ → OrderRow → Store → Store
unfolding begun
begin now order s =
    if order_eq order.order_state OrderState.paid then write_order (begun now order) s else s

-- The binding of the order, which is written if there is none.
ensure_binding :
    FulfillmentSettings
    → ℕ
    → ℕ
    → OrderRow
    → Option FulfillmentBindingRow
    → Action Store FulfillmentBindingRow
unfolding new_binding begin
ensure_binding settings now order_id order (some row) = pure row
ensure_binding settings now order_id order none = do
  payload ← lift (analysis_request order.purchase_intent)
  let row = new_binding settings now order_id payload
  modify (λ s. begin now order (record s { bindings = row ∷ s.bindings }))
  pure row

-- What must hold of the durable operation before it is sent.
check_operation : FulfillmentSettings → ℕ → OrderRow → AnalysisOperation → Result AnalysisOperation
unfolding analysis_provider_key
check_operation settings order_id order operation =
    if not (str_eq operation.operation_version analysis_operation_version)
    then err (fulfillment_invariant "unsupported durable analysis operation version")
    else if not (str_eq operation.idempotency_key (analysis_provider_key order_id))
    then err (fulfillment_invariant "analysis idempotency identity drift")
    else if not (settings.request_digest operation.request_json == operation.request_sha256)
    then err (fulfillment_invariant "durable analysis request hash mismatch")
    else elim (analysis_request order.purchase_intent) [
      | err e ↦ err e
      | ok payload ↦
          if not (json_eq operation.request_json payload)
          then err (fulfillment_invariant "durable analysis payload/order mismatch")
          else ok operation
    ]

unfoldable pub prepare_analysis_operation :
    FulfillmentSettings → ℕ → ℕ → Action Store AnalysisOperation
unfolding ensure_binding check_operation operation_from_row
prepare_analysis_operation settings now order_id = do
  order ← load_order_for_update order_id
  raise_if (not (payment_eq order.payment_state PaymentState.paid))
      (fulfillment_invariant "analysis requires a paid order")
  raise_if
      (not (
        order_eq order.order_state OrderState.paid
        || order_eq order.order_state OrderState.fulfillment_in_progress))
      (fulfillment_invariant "order state does not permit analysis")
  raise_if
      (fulfillment_eq order.fulfillment_state FulfillmentState.completed
        || fulfillment_eq order.fulfillment_state FulfillmentState.delivery_pending)
      (fulfillment_invariant "fulfillment state does not permit analysis creation")
  existing ← gets (get_binding_row order_id)
  row ← ensure_binding settings now order_id order existing
  lift (check_operation settings order_id order (operation_from_row row))

-- `get_binding`
unfoldable pub get_binding : ℕ → Action Store (Option AnalysisOperation)
unfolding operation_from_row
get_binding order_id = do
  row ← gets (get_binding_row order_id)
  pure (elim row [ none ↦ none | some r ↦ some (operation_from_row r) ])

-- Whether a column that must be unique holds the identity in the row of another order.
unfoldable pub analysis_bound_elsewhere : ℕ → ℕ → List FulfillmentBindingRow → Bool
analysis_bound_elsewhere order_id id rows =
    any (λ r. not (r.order_id == order_id) && opt_eq ◌==◌ r.analysis_id (some id)) rows

unfoldable pub report_bound_elsewhere : ℕ → ℕ → List FulfillmentBindingRow → Bool
report_bound_elsewhere order_id id rows =
    any (λ r. not (r.order_id == order_id) && opt_eq ◌==◌ r.report_id (some id)) rows

-- `x is not None and x != y`
unfoldable pub conflicts : Option ℕ → ℕ → Bool
conflicts none id = false
conflicts (some old) id = not (old == id)

-- The row of the order with what was observed of its analysis.
abbrev bound_analysis : ℕ → AnalysisEvidence → FulfillmentBindingRow → FulfillmentBindingRow
bound_analysis now evidence row = record row {
  analysis_id = some evidence.analysis_id;
  analysis_state = some evidence.state;
  analysis_last_observed_at = some now;
  updated_at = now;
}

unfoldable pub bind_analysis : ℕ → ℕ → AnalysisEvidence → Action Store AnalysisOperation
unfolding conflicts apply_analysis_state analysis_bound_elsewhere operation_from_row
bind_analysis now order_id evidence = do
  raise_if (not (is_analysis_state evidence.state))
      (fulfillment_invariant "unknown SiteScore analysis state")
  order ← load_order_for_update order_id
  row ←
      select_or (get_binding_row order_id)
        (fulfillment_invariant "analysis operation snapshot is unavailable")
  raise_if (conflicts row.analysis_id evidence.analysis_id)
      (fulfillment_invariant "analysis binding conflict")
  let row' = bound_analysis now evidence row
  order' ← lift (apply_analysis_state order evidence.state now)
  taken ← gets (λ s. analysis_bound_elsewhere order_id evidence.analysis_id s.bindings)
  raise_if taken (fulfillment_invariant "analysis identity is already bound to another order")
  modify (λ s. write_order order' (write_binding row' s))
  pure (operation_from_row row')

-- The bound analysis of a report, which must be completed.
completed_analysis : Option FulfillmentBindingRow → Result (FulfillmentBindingRow × ℕ)
completed_analysis none = err (fulfillment_invariant "report requires a completed bound analysis")
completed_analysis (some row) = elim row.analysis_id [
  | none ↦ err (fulfillment_invariant "report requires a completed bound analysis")
  | some id ↦
      if is_completed row.analysis_state
      then ok (row, id)
      else err (fulfillment_invariant "report requires a completed bound analysis")
]

unfoldable pub bind_report : ℕ → ℕ → ReportEvidence → Action Store AnalysisOperation
unfolding conflicts completed_analysis apply_report_state report_bound_elsewhere operation_from_row
bind_report now order_id evidence = do
  raise_if (not (is_report_state evidence.state))
      (fulfillment_invariant "unknown SiteScore report state")
  order ← load_order_for_update order_id
  found ← gets (get_binding_row order_id)
  (row, id) ← lift (completed_analysis found)
  raise_if (not (evidence.analysis_id == id))
      (fulfillment_invariant "report analysis binding mismatch")
  raise_if (conflicts row.report_id evidence.report_id)
      (fulfillment_invariant "report binding conflict")
  let row' = record row {
    report_id = some evidence.report_id;
    report_state = some evidence.state;
    report_last_observed_at = some now;
    updated_at = now;
  }
  order' ← lift (apply_report_state order evidence.state now)
  taken ← gets (λ s. report_bound_elsewhere order_id evidence.report_id s.bindings)
  raise_if taken (fulfillment_invariant "report identity is already bound to another order")
  modify (λ s. write_order order' (write_binding row' s))
  pure (operation_from_row row')
