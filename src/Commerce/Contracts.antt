-- ===== src/Commerce/Contracts.antt =====
-- The enumerations of contracts.py, and the provider states that fulfillment.py knows. A text that
-- a provider sends and that is none of the known states is kept by the constructor `other`.
use sitescore.Common.{ℕ, Bool, true, false, String, Option, some, ◌==◌}

pub data OrderState : Type 0 where
  pending_payment paid fulfillment_in_progress fulfilled attention_required expired refunded :
      OrderState

pub data PaymentState : Type 0 where
  pending paid failed expired refund_pending refunded refund_failed : PaymentState

pub data FulfillmentState : Type 0 where
  not_started analysis_pending analysis_running report_pending delivery_pending completed :
      FulfillmentState
  not_score_ready analysis_failed analysis_timed_out report_failed delivery_failed :
      FulfillmentState

-- `ANALYSIS_STATES`
pub data AnalysisState : Type 0 where
  queued running completed not_score_ready failed timed_out : AnalysisState
  other : String → AnalysisState

-- `REPORT_STATES`
pub data ReportState : Type 0 where
  ready failed : ReportState
  other : String → ReportState

-- `REFUND_STATUSES`
pub data RefundStatus : Type 0 where
  pending requires_action succeeded failed canceled : RefundStatus
  other : String → RefundStatus

-- The position of a state in its enumeration, by which states are compared.
abbrev order_rank : OrderState → ℕ
order_rank OrderState.pending_payment = 0
order_rank OrderState.paid = 1
order_rank OrderState.fulfillment_in_progress = 2
order_rank OrderState.fulfilled = 3
order_rank OrderState.attention_required = 4
order_rank OrderState.expired = 5
order_rank OrderState.refunded = 6

abbrev payment_rank : PaymentState → ℕ
payment_rank PaymentState.pending = 0
payment_rank PaymentState.paid = 1
payment_rank PaymentState.failed = 2
payment_rank PaymentState.expired = 3
payment_rank PaymentState.refund_pending = 4
payment_rank PaymentState.refunded = 5
payment_rank PaymentState.refund_failed = 6

abbrev fulfillment_rank : FulfillmentState → ℕ
fulfillment_rank FulfillmentState.not_started = 0
fulfillment_rank FulfillmentState.analysis_pending = 1
fulfillment_rank FulfillmentState.analysis_running = 2
fulfillment_rank FulfillmentState.report_pending = 3
fulfillment_rank FulfillmentState.delivery_pending = 4
fulfillment_rank FulfillmentState.completed = 5
fulfillment_rank FulfillmentState.not_score_ready = 6
fulfillment_rank FulfillmentState.analysis_failed = 7
fulfillment_rank FulfillmentState.analysis_timed_out = 8
fulfillment_rank FulfillmentState.report_failed = 9
fulfillment_rank FulfillmentState.delivery_failed = 10

abbrev pub order_eq : OrderState → OrderState → Bool
order_eq a b = order_rank a == order_rank b

abbrev pub payment_eq : PaymentState → PaymentState → Bool
payment_eq a b = payment_rank a == payment_rank b

abbrev pub fulfillment_eq : FulfillmentState → FulfillmentState → Bool
fulfillment_eq a b = fulfillment_rank a == fulfillment_rank b

-- `state in ANALYSIS_STATES`
abbrev pub is_analysis_state : AnalysisState → Bool
is_analysis_state (AnalysisState.other _) = false
is_analysis_state _ = true

-- `state in REPORT_STATES`
abbrev pub is_report_state : ReportState → Bool
is_report_state (ReportState.other _) = false
is_report_state _ = true

-- `status in REFUND_STATUSES`
abbrev pub is_refund_status : RefundStatus → Bool
is_refund_status (RefundStatus.other _) = false
is_refund_status _ = true

-- `analysis_state == "completed"`, where the column may be NULL.
abbrev pub is_completed : Option AnalysisState → Bool
is_completed (some AnalysisState.completed) = true
is_completed _ = false
