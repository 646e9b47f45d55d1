-- ===== src/Commerce.antt =====
-- The commerce service (sitescore-commerce/src/sitescore_commerce): orders and checkout sessions,
-- payment truth from Stripe, the paid-order outbox, and the fulfillment and refund of paid orders.
pub mod Contracts
pub mod Rows
pub mod Evidence
mod Tests
mod Uuid
pub mod Tables
pub mod Keeps
pub mod Payment
pub mod Inbox
pub mod Session
pub mod CheckoutBinding
pub mod Webhook
pub mod Json
pub mod Fulfillment
pub mod Refund
pub mod RefundBinding
pub mod Status
pub mod RefundPlan
pub mod Advance
pub mod Outbox
pub mod Orders
pub mod Consistency
pub mod Stable
pub mod Calls
pub mod Ends
pub mod Leads
pub mod Reach
pub mod Checkout
pub mod CreateOrder
pub mod SiteScoreClient
