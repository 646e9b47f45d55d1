-- ===== src/Commerce/CreateOrder/Open.antt =====
-- The order of a key and its session row, as create_order reads and writes them (service.py).
use sitescore.Common.{
  ℕ, true, false, ◌≡◌, sym, subst, ◌∙◌, arith, String, Option, none, some, find-put, find_key,
  nat_eq,
}
use sitescore.Commerce.Contracts.{OrderState, PaymentState, FulfillmentState}
use sitescore.Commerce.Rows.{OrderRow, CheckoutSessionRow, Store}
use sitescore.Commerce.Tables.{
  get_order, get_checkout, get_idempotency, write_checkout, checkout_key, no_row, select_or,
}
use sitescore.Common.Action.{ok, require, ◌>>=◌, calls}
use sitescore.Commerce.Orders.{bind_checkout, bind_row}
use sitescore.Commerce.Orders.Replay.{is_bound}
use sitescore.Commerce.Webhook.{load_order_and_checkout}
use sitescore.Commerce.CreateOrder.{OrderCreateResponse, is_started}

-- What a session row that is found and written gives, and what stays.
pub record IsBoundRow (order_id : ℕ) (s t : Store) (c : CheckoutSessionRow) : Type 0 where
  pub found : get_checkout order_id t ≡ some c
  pub orders : t.orders ≡ s.orders
  pub idempotency : t.idempotency ≡ s.idempotency

written_checkout :
    (order_id : ℕ) (s : Store) (row row' : CheckoutSessionRow)
    → get_checkout order_id s ≡ some row
    → row'.order_id ≡ row.order_id
    → get_checkout order_id (write_checkout row' s) ≡ some row'
written_checkout order_id s row row' h e = ground (
  arith,
  find_key checkout_key order_id s.checkouts row h,
  find-put checkout_key order_id row' s.checkouts row,
)

abbrev bound_row : ℕ → String → String → Option ℕ → CheckoutSessionRow → CheckoutSessionRow
bound_row now session_id url expires_at row = record row {
  stripe_checkout_session_id = some session_id;
  checkout_url = some url;
  checkout_expires_at = expires_at;
  updated_at = now;
}

module _ (now order_id : ℕ) (session_id url : String) (expires_at : Option ℕ) (s : Store)
    (row c : CheckoutSessionRow) where
  bind_row-IsBoundRow :
      (bound : Option String)
      → get_checkout order_id s ≡ some row
      → (bind_row now order_id session_id url expires_at row bound s).0 ≡ ok c
      → IsBoundRow order_id s (bind_row now order_id session_id url expires_at row bound s).1 c
  unfolding bind_row calls
  bind_row-IsBoundRow none h e = record {
    found =
        ground
          (arith, written_checkout order_id s row (bound_row now session_id url expires_at row));
    orders = ground arith;
    idempotency = ground arith;
  }
  bind_row-IsBoundRow (some b) h e = record {
    found = ground arith;
    orders = ground arith;
    idempotency = ground arith;
  }

pub bind_checkout-IsBoundRow :
    (now order_id : ℕ) (session_id url : String) (expires_at : Option ℕ) (s : Store)
    (row c : CheckoutSessionRow)
    → get_checkout order_id s ≡ some row
    → (bind_checkout now order_id session_id url expires_at s).0 ≡ ok c
    → IsBoundRow order_id s (bind_checkout now order_id session_id url expires_at s).1 c
unfolding bind_checkout calls select_or
bind_checkout-IsBoundRow now order_id session_id url expires_at s row c h =
    at (get_checkout order_id s) h
  where
    at :
        (o : Option CheckoutSessionRow)
        → o ≡ some row
        → ((require o no_row >>= λ r.
              bind_row now order_id session_id url expires_at r r.stripe_checkout_session_id)
            s).0
          ≡ ok c
        → IsBoundRow order_id s
            ((require o no_row >>= λ r.
                bind_row now order_id session_id url expires_at r r.stripe_checkout_session_id)
              s).1
            c
    at none g e = ground arith
    at (some r) g e =
        bind_row-IsBoundRow now order_id session_id url expires_at s r c _ (h ∙ sym g) e

-- An order that waits for its payment, has been loaded with its session row, and belongs to the key.
pub record IsOpen (key hash order_id : ℕ) (checkout : CheckoutSessionRow) (order : OrderRow)
    (s : Store) : Type 0 where
  pub claimed : is_bound hash order_id (get_idempotency key s) ≡ true
  pub found_order : get_order order_id s ≡ some order
  pub found_checkout : get_checkout order_id s ≡ some checkout

module _ (key hash order_id : ℕ) (order : OrderRow) where
  pub bound-IsOpen :
      (s t : Store) (c c' : CheckoutSessionRow)
      → IsOpen key hash order_id c order s
      → IsBoundRow order_id s t c'
      → IsOpen key hash order_id c' order t
  bound-IsOpen s t c c' i b = record {
    claimed = ground (arith, i.claimed, b.idempotency);
    found_order = ground (arith, i.found_order, b.orders);
    found_checkout = b.found;
  }

pub loaded-IsOpen :
    (key hash order_id : ℕ) (s : Store) (order : OrderRow) (c : CheckoutSessionRow)
    → is_bound hash order_id (get_idempotency key s) ≡ true
    → (load_order_and_checkout order_id s).0 ≡ ok (order, c)
    → IsOpen key hash order_id c order (load_order_and_checkout order_id s).1
unfolding load_order_and_checkout calls select_or
loaded-IsOpen key hash order_id s order c h e = record {
  claimed = ground arith;
  found_order = ground arith;
  found_checkout = ground arith;
}

-- An order that waits for its payment: what the answer says of it is what the store holds.
pub record IsOffered (key hash : ℕ) (r : OrderCreateResponse) (s : Store) : Type 0 where
  pub order : OrderRow
  pub checkout : CheckoutSessionRow
  pub claimed : is_bound hash r.order_id (get_idempotency key s) ≡ true
  pub found_order : get_order r.order_id s ≡ some order
  pub order_state : order.order_state ≡ OrderState.pending_payment
  pub payment_state : order.payment_state ≡ PaymentState.pending
  pub fulfillment_state : order.fulfillment_state ≡ FulfillmentState.not_started
  pub found_checkout : get_checkout r.order_id s ≡ some checkout
  pub url : checkout.checkout_url ≡ some r.checkout_url
  pub expiry : checkout.checkout_expires_at ≡ r.checkout_expires_at

pub offered :
    (key hash order_id : ℕ) (order : OrderRow) (c : CheckoutSessionRow) (s : Store)
    (r : OrderCreateResponse)
    → IsOpen key hash order_id c order s
    → is_started order ≡ false
    → r.order_id ≡ order_id
    → c.checkout_url ≡ some r.checkout_url
    → c.checkout_expires_at ≡ r.checkout_expires_at
    → IsOffered key hash r s
unfolding is_started
offered key hash order_id order c s r i p e u x = record {
  order = order;
  checkout = c;
  claimed = subst (λ k. is_bound hash k (get_idempotency key s) ≡ true) (sym e) i.claimed;
  found_order = subst (λ k. get_order k s ≡ some order) (sym e) i.found_order;
  order_state = ground arith;
  payment_state = ground arith;
  fulfillment_state = ground arith;
  found_checkout = subst (λ k. get_checkout k s ≡ some c) (sym e) i.found_checkout;
  url = u;
  expiry = x;
}
