-- ===== src/Commerce/Reach.antt =====
-- The stores that the transactions of orders, checkout, webhook, polls, dispatcher and fulfillment
-- driver reach: in any order, as requests interleave them, each one committed or rolled back. The
-- transactions of delivery and of recovery are not among them.
use sitescore.Common.{ℕ, Bool, true, false, String, Option, [], ◌≡◌, refl, is_none, arith}
use sitescore.Commerce.Rows.{
  OrderIdempotencyRow, ProcessingState, Reason, ResourceType, TerminalState, Target, Store,
}
use sitescore.Commerce.Tables.{get_refund}
use sitescore.Commerce.Evidence.{
  StripeEventEnvelope, StripeCheckoutEvidence, AnalysisEvidence, ReportEvidence,
  PaymentIntentEvidence, RefundEvidence, RefundOperation,
}
use sitescore.Commerce.Keeps.{kept}
use sitescore.Commerce.Consistency.{IsConsistent}
use sitescore.Commerce.Orders.{OrderRequest, get_or_create_order, bind_checkout}
use sitescore.Commerce.Orders.Consistent.{
  get_or_create_order-IsConsistent, bind_checkout-IsConsistent,
}
use sitescore.Commerce.Inbox.{record_stripe_event, finish_event}
use sitescore.Commerce.Inbox.Consistent.{
  record_stripe_event-IsConsistent, finish_event-IsConsistent,
}
use sitescore.Commerce.Payment.{apply_reconciliation, apply_poll_reconciliation}
use sitescore.Commerce.Payment.Consistent.{
  apply_reconciliation-IsConsistent, apply_poll_reconciliation-IsConsistent,
}
use sitescore.Commerce.Outbox.{mark_published}
use sitescore.Commerce.Outbox.Consistent.{mark_published-IsConsistent}
use sitescore.Commerce.Fulfillment.{
  FulfillmentSettings, prepare_analysis_operation, bind_analysis, bind_report,
}
use sitescore.Commerce.Fulfillment.Consistent.{
  prepare_analysis_operation-IsConsistent, bind_analysis-IsConsistent, bind_report-IsConsistent,
}
use sitescore.Commerce.Refund.{persist_refund_eligibility, prepare_refund_operation}
use sitescore.Commerce.Refund.Consistent.{
  persist_refund_eligibility-IsConsistent, prepare_refund_operation-IsConsistent,
}
use sitescore.Commerce.RefundBinding.{bind_refund, mark_attention}
use sitescore.Commerce.RefundBinding.Consistent.{
  bind_refund-IsConsistent, mark_attention-IsConsistent,
}

abbrev pub empty_store : Store
empty_store = record {
  orders = [];
  idempotency = [];
  checkouts = [];
  inbox = [];
  outbox = [];
  receipts = [];
  bindings = [];
  eligibility = [];
  refunds = [];
}

-- One transaction. Of `mark_attention` with `refund_failure` only the use is a step that the driver
-- makes of it: on an order that has a refund operation.
pub data Step (settings : FulfillmentSettings) (s : Store) : Store → Type 0 where
  created :
      (now order_id key_digest : ℕ) (request : OrderRequest) (seen : Option OrderIdempotencyRow)
      → Step settings s (kept s (get_or_create_order now order_id key_digest request seen s))
  checkout_bound :
      (now order_id : ℕ) (session_id url : String) (expires_at : Option ℕ)
      → Step settings s (kept s (bind_checkout now order_id session_id url expires_at s))
  event_recorded :
      (now : ℕ) (event : StripeEventEnvelope) (sha : ℕ)
      → Step settings s (kept s (record_stripe_event now event sha s))
  event_finished :
      (now : ℕ) (event_id : String) (state : ProcessingState) (code : String)
      → Step settings s (kept s (finish_event now event_id state code s))
  reconciled :
      (now fresh : ℕ) (event_id : String) (order_id : ℕ) (evidence : StripeCheckoutEvidence)
      (t : Target)
      → Step settings s (kept s (apply_reconciliation now fresh event_id order_id evidence t s))
  polled :
      (now fresh receipt_id order_id : ℕ) (evidence : StripeCheckoutEvidence) (t : Target)
      (sha observed_at : ℕ)
      → Step settings s (
          kept s
            (apply_poll_reconciliation now fresh receipt_id order_id evidence t sha observed_at s))
  published : (now event_id : ℕ) → Step settings s (kept s (mark_published now event_id s))
  analysis_prepared :
      (now order_id : ℕ)
      → Step settings s (kept s (prepare_analysis_operation settings now order_id s))
  analysis_bound :
      (now order_id : ℕ) (evidence : AnalysisEvidence)
      → Step settings s (kept s (bind_analysis now order_id evidence s))
  report_bound :
      (now order_id : ℕ) (evidence : ReportEvidence)
      → Step settings s (kept s (bind_report now order_id evidence s))
  eligibility_persisted :
      (now order_id : ℕ) (reason : Reason) (resource_type : ResourceType) (resource_id : ℕ)
      (state : TerminalState)
      → Step settings s (
          kept s (persist_refund_eligibility now order_id reason resource_type resource_id state s))
  refund_prepared :
      (now order_id : ℕ) (payment_intent : PaymentIntentEvidence)
      → Step settings s (kept s (prepare_refund_operation now order_id payment_intent s))
  refund_bound :
      (now : ℕ) (operation : RefundOperation) (evidence : RefundEvidence) (external_full : Bool)
      → Step settings s (kept s (bind_refund now operation evidence external_full s))
  attention_marked :
      (now order_id : ℕ) (code : String) (refund_failure : Bool)
      → (refund_failure ≡ true → is_none (get_refund order_id s) ≡ false)
      → Step settings s (kept s (mark_attention now order_id code refund_failure s))

pub data Reachable (settings : FulfillmentSettings) : Store → Type 0 where
  start : Reachable settings empty_store
  step : {s s' : Store} → Reachable settings s → Step settings s s' → Reachable settings s'

empty-IsConsistent : (k : ℕ) → IsConsistent k empty_store
empty-IsConsistent k = record {
  announced = refl;
  once = ground arith;
  bound = ground arith;
  eligible = ground arith;
  refunding = ground arith;
}

step-IsConsistent :
    (settings : FulfillmentSettings) (s s' : Store)
    → Step settings s s'
    → ((j : ℕ) → IsConsistent j s)
    → (k : ℕ) → IsConsistent k s'
step-IsConsistent settings s s' (created now id key request seen) i k =
    get_or_create_order-IsConsistent k now id s (i k) key request seen
step-IsConsistent settings s s' (checkout_bound now id session url expires) i k =
    bind_checkout-IsConsistent k now id s (i k) session url expires
step-IsConsistent settings s s' (event_recorded now event sha) i k =
    record_stripe_event-IsConsistent k s (i k) now event sha
step-IsConsistent settings s s' (event_finished now event_id state code) i k =
    finish_event-IsConsistent k s (i k) now event_id state code
step-IsConsistent settings s s' (reconciled now fresh event_id id evidence t) i k =
    apply_reconciliation-IsConsistent now fresh k evidence t s (i k) event_id id
step-IsConsistent settings s s' (polled now fresh receipt id evidence t sha at) i k =
    apply_poll_reconciliation-IsConsistent now fresh k evidence t s (i k) receipt id sha at
step-IsConsistent settings s s' (published now event_id) i k =
    mark_published-IsConsistent k now event_id s (i k)
step-IsConsistent settings s s' (analysis_prepared now id) i k =
    prepare_analysis_operation-IsConsistent k now id s (i k) (i id) settings
step-IsConsistent settings s s' (analysis_bound now id evidence) i k =
    bind_analysis-IsConsistent k now id s (i k) (i id) evidence
step-IsConsistent settings s s' (report_bound now id evidence) i k =
    bind_report-IsConsistent k now id s (i k) (i id) evidence
step-IsConsistent settings s s'
      (eligibility_persisted now id reason resource_type resource_id state) i k =
    persist_refund_eligibility-IsConsistent k now id s (i k) reason resource_type resource_id state
step-IsConsistent settings s s' (refund_prepared now id payment_intent) i k =
    prepare_refund_operation-IsConsistent k now id s (i k) payment_intent
step-IsConsistent settings s s' (refund_bound now operation evidence external_full) i k =
    bind_refund-IsConsistent k now s (i k) operation evidence external_full (i operation.order_id)
step-IsConsistent settings s s' (attention_marked now id code refund_failure f) i k =
    mark_attention-IsConsistent k now s (i k) id code refund_failure
      (λ e. (i id).bound ((i id).eligible ((i id).refunding (f e))))

-- In every store that is reached from the empty one by the transactions of orders, checkout, webhook,
-- polls, dispatcher and fulfillment driver, in any order, where an order is marked for a failed refund
-- only if it has a refund operation: the outbox holds the paid event of an order exactly if the order
-- is funded, and once; an operation at SiteScore belongs to a funded order; a refund operation belongs
-- to an order found eligible, and that to one with an operation at SiteScore.
pub reachable-IsConsistent :
    (settings : FulfillmentSettings) (s : Store) → Reachable settings s → (k : ℕ) → IsConsistent k s
reachable-IsConsistent settings s start k = empty-IsConsistent k
reachable-IsConsistent settings s (step r t) k =
    step-IsConsistent settings _ s t (reachable-IsConsistent settings _ r) k
