-- ===== src/Commerce/CreateOrder/Answers.antt =====
-- What an order that is taken answers (service.py).
use sitescore.Common.{ℕ, true, ◌≡◌, String, Option, nat_eq}
use sitescore.Commerce.Rows.{Json, Store}
use sitescore.Commerce.Tables.{get_idempotency}
use sitescore.Common.Action.{ok}
use sitescore.Commerce.Session.{Env}
use sitescore.Commerce.Orders.Replay.{is_bound}
use sitescore.Commerce.CreateOrder.Open.{IsOffered}
use sitescore.Commerce.Ends.{Ends}
use sitescore.Commerce.Checkout.{CheckoutSettings, CheckoutResult, SessionParams}
use sitescore.Commerce.CreateOrder.{OrderCreateRequest, OrderCreateResponse, digest_idempotency_key}

module _ (env : Env) (settings : CheckoutSettings) (create : SessionParams → Option CheckoutResult)
    (sha256 : String → ℕ) (intent : OrderCreateRequest → Json) where
  Claimed : ℕ → ℕ → ℕ → Store → Type 0
  Claimed key hash order_id s = is_bound hash order_id (get_idempotency key s) ≡ true

  module _ (request : OrderCreateRequest) (idempotency_key : String) where
    -- What the answer and the store are to show.
    Answered : OrderCreateResponse → Store → Type 0
    Answered r s =
        (key : ℕ) × ((digest_idempotency_key sha256 idempotency_key ≡ ok key)
          × IsOffered key request.canonical_hash r s)
