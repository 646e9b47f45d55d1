-- ===== src/Commerce/Consistency.antt =====
-- The invariant that ties the tables together, order by order.
use sitescore.Common.{
  ℕ, suc, ◌≤◌, ◌==◌, Bool, true, false, ◌≡◌, Option, none, some, List, [], ◌∷◌, is_none, arith,
  if◌then◌else◌,
}
use sitescore.Commerce.Contracts.{PaymentState}
use sitescore.Commerce.Rows.{
  OrderRow, OutboxEventRow, FulfillmentBindingRow, RefundOperationRow, Store,
}
use sitescore.Commerce.Tables.{
  get_order, get_binding_row, get_eligibility, get_refund, has_paid_event, get_order-write,
  get_order_key, get_binding-write, get_refund-write, write_order, write_binding, write_refund,
}

-- Whether the money of an order has arrived (and may have gone back since).
abbrev pub is_funded : PaymentState → Bool
is_funded PaymentState.pending = false
is_funded PaymentState.expired = false
is_funded PaymentState.failed = false
is_funded _ = true

abbrev pub is_funded_row : Option OrderRow → Bool
is_funded_row none = false
is_funded_row (some o) = is_funded o.payment_state

-- How many events the outbox holds for an order.
abbrev pub events_of : ℕ → List OutboxEventRow → ℕ
events_of k [] = 0
events_of k (r ∷ rs) = let rest = events_of k rs in if r.order_id == k then suc rest else rest

-- For the order `k`: the outbox holds its paid event exactly if it is funded, and then once; an
-- operation at SiteScore belongs to a funded order; a refund belongs to an eligible order, and
-- that to one with an operation.
pub record IsConsistent (k : ℕ) (s : Store) : Type 0 where
  pub announced : has_paid_event k s.outbox ≡ is_funded_row (get_order k s)
  pub once : events_of k s.outbox ≤ 1
  pub bound : is_none (get_binding_row k s) ≡ false → is_funded_row (get_order k s) ≡ true
  pub eligible : is_none (get_eligibility k s) ≡ false → is_none (get_binding_row k s) ≡ false
  pub refunding : is_none (get_refund k s) ≡ false → is_none (get_eligibility k s) ≡ false

-- The whole store.
unfoldable pub IsSound : Store → Type 0
IsSound s = (k : ℕ) → IsConsistent k s

-- The tables that the invariant speaks of are all that it depends on.
pub framed :
    (k : ℕ) (s s' : Store)
    → s'.orders ≡ s.orders
    → s'.outbox ≡ s.outbox
    → s'.bindings ≡ s.bindings
    → s'.eligibility ≡ s.eligibility
    → s'.refunds ≡ s.refunds
    → IsConsistent k s
    → IsConsistent k s'
framed k s s' o e b l r i = record {
  announced = ground (arith, i.announced, o, e);
  once = rw e i.once;
  bound = ground (arith, i.bound, o, b);
  eligible = ground (arith, i.eligible, l, b);
  refunding = ground (arith, i.refunding, l, r);
}

-- An order that is written over keeps the tables consistent if it is funded as before.
pub write_order-IsConsistent :
    (k : ℕ) (s : Store) (old new : OrderRow)
    → get_order new.order_id s ≡ some old
    → is_funded new.payment_state ≡ is_funded old.payment_state
    → IsConsistent k s
    → IsConsistent k (write_order new s)
write_order-IsConsistent k s old new h f i = record {
  announced =
      ground (arith, i.announced, f, h, get_order-write k new s old h, get_order_key k s old);
  once = i.once;
  bound = ground (arith, i.bound, f, h, get_order-write k new s old h);
  eligible = i.eligible;
  refunding = i.refunding;
}

pub write_binding-IsConsistent :
    (k : ℕ) (s : Store) (old new : FulfillmentBindingRow)
    → get_binding_row new.order_id s ≡ some old
    → IsConsistent k s
    → IsConsistent k (write_binding new s)
write_binding-IsConsistent k s old new h i = record {
  announced = i.announced;
  once = i.once;
  bound = ground (arith, i.bound, h, get_binding-write k new s old h);
  eligible = ground (arith, i.eligible, h, get_binding-write k new s old h);
  refunding = i.refunding;
}

pub write_refund-IsConsistent :
    (k : ℕ) (s : Store) (old new : RefundOperationRow)
    → get_refund new.order_id s ≡ some old
    → IsConsistent k s
    → IsConsistent k (write_refund new s)
write_refund-IsConsistent k s old new h i = record {
  announced = i.announced;
  once = i.once;
  bound = i.bound;
  eligible = i.eligible;
  refunding = ground (arith, i.refunding, h, get_refund-write k new s old h);
}
