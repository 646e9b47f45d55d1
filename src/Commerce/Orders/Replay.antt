-- ===== src/Commerce/Orders/Replay.antt =====
-- The idempotency keys of get_or_create_order (db.py).
use sitescore.Common.{
  ℕ, ◌==◌, Bool, true, false, ◌&&◌, ◌≡◌, ◌⊎◌, Option, none, some, arith, if◌then◌else◌,
}
use sitescore.Commerce.Rows.{OrderIdempotencyRow, Store}
use sitescore.Commerce.Tables.{get_idempotency}
use sitescore.Common.Action.{Result, ok, err, idempotency_conflict, calls}
use sitescore.Commerce.Orders.{
  OrderRequest, get_or_create_order, insert_order, replayed, reconciled,
}

abbrev conflict : Result ℕ
conflict = err (idempotency_conflict "idempotency key was already used with a different request")

abbrev pub is_bound : ℕ → ℕ → Option OrderIdempotencyRow → Bool
is_bound request_hash order_id none = false
is_bound request_hash order_id (some row) =
    row.canonical_request_hash == request_hash && row.order_id == order_id

-- The row of the key after an order is given.
pub key_bound :
    (now order_id key : ℕ) (request : OrderRequest) (seen : Option OrderIdempotencyRow)
    (s s' : Store) (r : ℕ)
    → get_or_create_order now order_id key request seen s ≡ (ok r, s')
    → (seen ≡ none) ⊎ (seen ≡ get_idempotency key s)
    → is_bound request.canonical_hash r (get_idempotency key s') ≡ true
unfolding get_or_create_order insert_order replayed reconciled calls
key_bound now order_id key request seen s s' r h g = ground arith

module _ (now order_id key : ℕ) (request : OrderRequest) (seen : Option OrderIdempotencyRow)
    (s s' : Store) (r : ℕ) where
  -- Once a key has given an order, the same request under it gives the same order and writes
  -- nothing, and another request under it is refused and writes nothing.
  pub get_or_create_order-replays :
      get_or_create_order now order_id key request seen s ≡ (ok r, s')
      → (seen ≡ none) ⊎ (seen ≡ get_idempotency key s)
      → (now' id' : ℕ) (request' : OrderRequest)
      → get_or_create_order now' id' key request' (get_idempotency key s') s'
        ≡ ((if request.canonical_hash == request'.canonical_hash then ok r else conflict), s')
  unfolding get_or_create_order replayed calls
  get_or_create_order-replays h g now' id' request' =
      ground (arith, key_bound now order_id key request seen s s' r h g)
