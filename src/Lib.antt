-- ===== src/Lib.antt =====
-- A verification library for the SiteScore services.
--
-- SiteScore takes orders for a location report (sitescore-commerce), has the location analysed
-- (sitescore-api, over sitescore-core, sitescore-data, sitescore-providers, sitescore-spatial,
-- sitescore-metrics, sitescore-benchmarks, sitescore-pipeline and sitescore-app), renders a report
-- (sitescore-report) and delivers it. The library models the commerce service, the life of an
-- analysis in the analysis service, and the scoring engines. Commerce asks the analysis service for
-- an analysis and a report by HTTP; each side takes the other's answers as parameters.
--
-- The commerce service (paths in sitescore-commerce/src/sitescore_commerce). Its state is a `Store`:
-- one list of rows for each table (Commerce/Rows.antt), with the selections,
-- updates and unique constraints that the code makes (Commerce/Tables.antt). The body of a
-- transaction is an `Action Store A`, which reads and changes the store and gives a value or raises
-- (Common/Action.antt); what it leaves is `kept`, which is the store before it where it raised. A
-- request is an `Action World A` (Commerce/Session.antt): it runs transactions, in which the database
-- may be out of reach, and calls providers. The clock, new UUIDs, the reachability of the database,
-- the answers of Stripe, of SiteScore and of n8n, SHA-256 and the reading of a UUID are parameters.
--
-- - Commerce/Contracts.antt, Rows.antt, Evidence.antt: the states of contracts.py, the tables of
--   db.py and fulfillment.py, the records of webhook.py and fulfillment.py.
-- - Commerce/Orders.antt: CommerceStore.get_or_create_order and bind_checkout (db.py).
-- - Commerce/Checkout.antt, CreateOrder.antt: checkout.py and OrderService.create_order (service.py).
-- - Commerce/Payment.antt: _apply_payment_transition_locked, apply_reconciliation and
--   apply_poll_reconciliation (db.py).
-- - Commerce/Inbox.antt: record_stripe_event, get_event_state and _finish_event (db.py).
-- - Commerce/CheckoutBinding.antt, Webhook.antt: validate_binding and PaymentWebhookService.handle
--   (webhook.py).
-- - Commerce/Fulfillment.antt, Json.antt: the analysis and the report of an order in FulfillmentStore
--   (fulfillment.py).
-- - Commerce/Refund.antt, RefundBinding.antt: the refund of an order in FulfillmentStore.
-- - Commerce/Status.antt: FulfillmentStore.get_status.
-- - Commerce/RefundPlan.antt, Advance.antt: FulfillmentRuntimeService.advance
--   (fulfillment_runtime.py) with the steps that it takes from FulfillmentService.
-- - Commerce/SiteScoreClient.antt: SiteScoreHttpGateway (fulfillment.py).
-- - Commerce/Outbox.antt: the store and the dispatcher of dispatcher.py.
-- - Commerce/Consistency.antt: the invariant of the store; the modules named Consistent are about it,
--   by the rules of Keeps.antt, Stable.antt and Leads.antt, and Reach.antt puts the transactions
--   together as a step relation. Calls.antt has the rules for the calls that leave the service, and
--   Ends.antt those for the answers of a request.
--
-- The analysis service (paths in sitescore-api/src/sitescore_api). Api/Session.antt has its world and
-- its transactions: before each one others may have changed the store by a function, the database may
-- be out of reach, and a commit may take effect, raise, or take effect and raise.
--
-- - Api/Rows.antt: the tables of db_models.py and PreparedReportArtifact of report_artifacts.py.
-- - Api/Row.antt: what a transaction does to the row of an analysis (lifecycle.py, worker.py).
-- - Api/Lifecycle.antt: submit and retrieve (lifecycle.py), reconcile_expired (worker.py).
-- - Api/Dispatcher.antt: CeleryOutboxDispatcher (dispatcher.py).
-- - Api/Auth.antt: auth.py, with the tables of consumers and of keys of db_models.py.
-- - Api/Report.antt, Reconcile.antt, Pair.antt, Finalize.antt: the report of an analysis and the
--   completion of both together, with the reconciliation after a commit that raised (worker.py).
-- - Api/Worker.antt: AnalysisWorkerService.execute_analysis (worker.py).
-- - Api/ReportBackend.antt: PostgresReportArtifactBackend (report_artifacts.py).
-- - Api/Moves.antt, Sound.antt, Evolves.antt, Admits.antt: how a row and the store may change;
--   Keeps.antt has the rules, the modules named Keeping apply them, and Service.antt puts the calls
--   together as a step relation.
--
-- The engines (paths in sitescore-core/src/sitescore). Core/Numbers.antt is the interface of the
-- floating-point numbers: the operations, and the laws that hold of correctly rounded arithmetic on
-- finite numbers, so that no theorem about the engines covers NaN, infinities or overflow.
-- Core/Fixed.antt has numbers that satisfy the laws. Literals are in hundredths.
--
-- - Core/Config.antt: the tables of config. Core/Penalty.antt: engines/penalty.py.
-- - Core/Location.antt: engines/location.py and schemas/location.py.
-- - Core/Revenue.antt: engines/revenue.py and schemas/revenue_inputs.py.
-- - Core/Financial.antt: engines/financial.py, engines/costs.py and schemas/financial.py.
-- - Core/Decision.antt: engines/decision.py and schemas/decision.py.
-- - Core/Confidence.antt: engines/confidence.py and config/confidence_rules.py.
--
-- UUIDs, times and digests are numbers, and JSON is kept in canonical form. Row locks make each
-- transaction one step; the order of the steps of concurrent requests is free. A race that a unique
-- constraint decides shows as the check of that constraint. Loops are over lists; the three
-- attempts to make a report fail are counted down from 3, as in the code.
--
-- Not modelled: the HTTP surfaces, the settings, the clients of Stripe, n8n and S3, the
-- generator of reports, the execution of the pipeline inside the worker, the delivery of reports, the
-- recovery of lost events, and the packages that gather and shape the data.
pub mod Common
pub mod Api
pub mod Core
pub mod Commerce
