-- ===== src/Commerce/Orders/Consistent.antt =====
-- Consistency of the tables under get_or_create_order and bind_checkout (db.py).
use sitescore.Common.{ℕ, ◌≡◌, refl, String, Option, none, some, arith}
use sitescore.Commerce.Rows.{OrderIdempotencyRow, CheckoutSessionRow, Store}
use sitescore.Commerce.Tables.{get_checkout, no_row, session_clash}
use sitescore.Common.Action.{calls}
use sitescore.Commerce.Keeps.{kept, kept_select, kept-raise_if, kept-pure, kept_write, kept-gets}
use sitescore.Commerce.Consistency.{IsConsistent, framed}
use sitescore.Commerce.Orders.{
  OrderRequest, get_or_create_order, insert_order, replayed, reconciled, new_order, bind_checkout,
  bind_row,
}

-- A new order awaits its payment, so nothing announces it yet.
insert_order-IsConsistent :
    (k now order_id key_digest : ℕ) (request : OrderRequest) (s : Store)
    → IsConsistent k s
    → IsConsistent k (kept s (insert_order now order_id key_digest request s))
unfolding insert_order kept reconciled replayed new_order calls
insert_order-IsConsistent k now order_id key_digest request s i = record {
  announced = ground (arith, i.announced);
  once = ground (arith, i.once);
  bound = ground (arith, i.bound);
  eligible = ground (arith, i.eligible);
  refunding = ground (arith, i.refunding);
}

kept-replayed :
    (s : Store) (request_hash : ℕ) (row : OrderIdempotencyRow)
    → kept s (replayed request_hash row s) ≡ s
unfolding replayed kept calls
kept-replayed s request_hash row = ground arith

module _ (k now order_id : ℕ) (s : Store) (i : IsConsistent k s) where
  pub get_or_create_order-IsConsistent :
      (key_digest : ℕ) (request : OrderRequest) (seen : Option OrderIdempotencyRow)
      → IsConsistent k (kept s (get_or_create_order now order_id key_digest request seen s))
  unfolding get_or_create_order replayed
  get_or_create_order-IsConsistent key_digest request none =
      insert_order-IsConsistent k now order_id key_digest request s i
  get_or_create_order-IsConsistent key_digest request (some row) =
      rw (kept-replayed s request.canonical_hash row) i

  bind_row-IsConsistent :
      (session_id url : String) (expires_at : Option ℕ) (row : CheckoutSessionRow)
      (bound : Option String)
      → IsConsistent k (kept s (bind_row now order_id session_id url expires_at row bound s))
  unfolding bind_row
  bind_row-IsConsistent session_id url expires_at row none =
      let P = IsConsistent k in
      kept_write P s s _ _ (
        kept-gets P s _ (session_clash order_id) _ (
          kept-raise_if P s _ i _ _ _
            λ _. kept-pure P s _ _ (framed k s _ refl refl refl refl refl i)))
  bind_row-IsConsistent session_id url expires_at row (some bound) =
      let P = IsConsistent k in kept-raise_if P s s i _ _ _ λ _. kept-pure P s s row i

  pub bind_checkout-IsConsistent :
      (session_id url : String) (expires_at : Option ℕ)
      → IsConsistent k (kept s (bind_checkout now order_id session_id url expires_at s))
  unfolding bind_checkout
  bind_checkout-IsConsistent session_id url expires_at =
      kept_select (IsConsistent k) s s i (get_checkout order_id) no_row _
        λ row _. bind_row-IsConsistent session_id url expires_at row row.stripe_checkout_session_id
