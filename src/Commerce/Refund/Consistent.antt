-- ===== src/Commerce/Refund/Consistent.antt =====
-- Consistency of the tables under the eligibility of an order and the operation of its refund
-- (fulfillment.py).
use sitescore.Common.{ℕ, true, false, ◌≡◌, refl, String, Option, none, some, ◌∷◌, is_none, arith}
use sitescore.Commerce.Rows.{
  CheckoutSessionRow, OrderRow, RefundEligibilityRow, RefundOperationRow, Reason, ResourceType,
  TerminalState, Store,
}
use sitescore.Commerce.Tables.{
  select_or, has_paid_event, get_order, get_checkout, get_binding_row, get_eligibility, get_refund,
}
use sitescore.Common.Action.{ok, fulfillment_invariant, fulfillment_not_found, calls}
use sitescore.Commerce.Evidence.{PaymentIntentEvidence}
use sitescore.Commerce.Keeps.{
  kept, kept_select, kept-raise_if, kept-pure, kept-gets, kept_check, kept_step, kept-modify,
  left_pure, left_modify,
}
use sitescore.Commerce.Consistency.{IsConsistent}
use sitescore.Commerce.Refund.{
  load_refund_context, persist_refund_eligibility, prepare_refund_operation, ensure_refund_row,
  new_refund, ensure_eligibility,
}

insert_eligibility-IsConsistent :
    (k : ℕ) (new : RefundEligibilityRow) (s : Store)
    → is_none (get_binding_row new.order_id s) ≡ false
    → get_eligibility new.order_id s ≡ none
    → IsConsistent k s
    → IsConsistent k (record s { eligibility = new ∷ s.eligibility })
insert_eligibility-IsConsistent k new s b e i = record {
  announced = i.announced;
  once = i.once;
  bound = i.bound;
  eligible = ground (arith, i.eligible, b);
  refunding = ground (arith, i.refunding, e);
}

insert_refund-IsConsistent :
    (k : ℕ) (new : RefundOperationRow) (s : Store)
    → is_none (get_eligibility new.order_id s) ≡ false
    → get_refund new.order_id s ≡ none
    → IsConsistent k s
    → IsConsistent k (record s { refunds = new ∷ s.refunds })
insert_refund-IsConsistent k new s e r i = record {
  announced = i.announced;
  once = i.once;
  bound = i.bound;
  eligible = i.eligible;
  refunding = ground (arith, i.refunding, e);
}

ensure_refund_row-IsConsistent :
    (k now order_id : ℕ) (eligibility : RefundEligibilityRow)
    (payment_intent : PaymentIntentEvidence) (existing : Option RefundOperationRow) (s : Store)
    → is_none (get_eligibility order_id s) ≡ false
    → get_refund order_id s ≡ existing
    → IsConsistent k s
    → IsConsistent k (ensure_refund_row now order_id eligibility payment_intent existing s).1
unfolding ensure_refund_row new_refund
ensure_refund_row-IsConsistent k now order_id eligibility payment_intent (some row) s e r i =
    left_pure (IsConsistent k) s row i
ensure_refund_row-IsConsistent k now order_id eligibility payment_intent none s e r i =
    let row = new_refund now order_id eligibility payment_intent in
    left_modify (IsConsistent k) s _ row (insert_refund-IsConsistent k row s e r i)

-- What the row of the operation keeps, its preparation keeps.
prepare_refund_operation-keeps :
    (now order_id : ℕ) (payment_intent : PaymentIntentEvidence) (P : Store → Type 0) (s : Store)
    → P s
    → ((eligibility : RefundEligibilityRow)
        → get_eligibility order_id s ≡ some eligibility
        → P (ensure_refund_row now order_id eligibility payment_intent (get_refund order_id s) s).1)
    → P (kept s (prepare_refund_operation now order_id payment_intent s))
unfolding prepare_refund_operation
prepare_refund_operation-keeps now order_id payment_intent P s i h =
    let missing = fulfillment_invariant "refund operation prerequisites are unavailable" in
    kept_select P s s i (get_order order_id) (fulfillment_not_found "order not found") _ λ order _.
      kept_select P s s i (get_checkout order_id) missing _ λ checkout _.
        kept_select P s s i (get_eligibility order_id) missing _ λ eligibility e.
          kept-raise_if P s s i _ _ _ λ _. kept-raise_if P s s i _ _ _ λ _.
            kept-raise_if P s s i _ _ _ λ _. kept-gets P s s (get_refund order_id) _ (
              kept_step P s s i
                (ensure_refund_row now order_id eligibility payment_intent (get_refund order_id s))
                _
                λ row _.
                  let s' =
                    (ensure_refund_row now order_id eligibility payment_intent
                      (get_refund order_id s) s).1 in
                  kept-raise_if P s s' i _ _ _ λ _. kept-pure P s s' _ (h eligibility e))

module _ (k now order_id : ℕ) (s : Store) (i : IsConsistent k s) where
  ensure_eligibility-IsConsistent :
      (reason : Reason) (resource_type : ResourceType) (resource_id : ℕ) (state : TerminalState)
      (target : String) (existing : Option RefundEligibilityRow)
      → is_none (get_binding_row order_id s) ≡ false
      → get_eligibility order_id s ≡ existing
      → IsConsistent k (
          kept s (
            ensure_eligibility now order_id reason resource_type resource_id state target existing
              s))
  unfolding ensure_eligibility
  ensure_eligibility-IsConsistent reason resource_type resource_id state target (some row) b e =
      kept_check (IsConsistent k) s s i _ _ λ _. i
  ensure_eligibility-IsConsistent reason resource_type resource_id state target none b e =
      kept-modify (IsConsistent k) s s _ (insert_eligibility-IsConsistent k _ s b e i)

  pub persist_refund_eligibility-IsConsistent :
      (reason : Reason) (resource_type : ResourceType) (resource_id : ℕ) (state : TerminalState)
      → IsConsistent k (
          kept s (persist_refund_eligibility now order_id reason resource_type resource_id state s))
  unfolding persist_refund_eligibility
  persist_refund_eligibility-IsConsistent reason resource_type resource_id state =
      let P = IsConsistent k in
      kept-raise_if P s s i _ _ _ λ _.
        kept_select P s s i (get_order order_id) (fulfillment_not_found "order not found") _
          λ order _.
            kept_select P s s i (get_binding_row order_id)
              (fulfillment_invariant "refund eligibility requires a fulfillment binding") _
              λ binding b. kept-raise_if P s s i _ _ _ λ _. kept-raise_if P s s i _ _ _ λ _.
                kept-gets P s s (get_eligibility order_id) _ (
                  ensure_eligibility-IsConsistent reason resource_type resource_id state
                    binding.sitescore_api_target_id _ (ground (arith, b)) refl)

  pub prepare_refund_operation-IsConsistent :
      (payment_intent : PaymentIntentEvidence)
      → IsConsistent k (kept s (prepare_refund_operation now order_id payment_intent s))
  prepare_refund_operation-IsConsistent payment_intent =
      prepare_refund_operation-keeps now order_id payment_intent (IsConsistent k) s i
        λ eligibility e.
          ensure_refund_row-IsConsistent k now order_id eligibility payment_intent
            (get_refund order_id s) s (ground (arith, e)) refl i

ensure_refund_row_outbox :
    (now order_id : ℕ) (eligibility : RefundEligibilityRow) (payment_intent : PaymentIntentEvidence)
    (existing : Option RefundOperationRow) (s : Store)
    → (ensure_refund_row now order_id eligibility payment_intent existing s).1.outbox ≡ s.outbox
unfolding ensure_refund_row calls
ensure_refund_row_outbox now order_id eligibility payment_intent none s = refl
ensure_refund_row_outbox now order_id eligibility payment_intent (some row) s = refl

pub prepare_refund_operation_outbox :
    (now order_id : ℕ) (payment_intent : PaymentIntentEvidence) (s : Store)
    → (kept s (prepare_refund_operation now order_id payment_intent s)).outbox ≡ s.outbox
prepare_refund_operation_outbox now order_id payment_intent s =
    prepare_refund_operation-keeps now order_id payment_intent (λ s'. s'.outbox ≡ s.outbox) s refl
      λ eligibility _.
        ensure_refund_row_outbox now order_id eligibility payment_intent (get_refund order_id s) s

-- A refund is only looked at where the order is eligible, and so where it was paid.
pub load_refund_context_paid :
    (order_id : ℕ) (s : Store) (r : OrderRow × CheckoutSessionRow)
    → (load_refund_context order_id s).0 ≡ ok r
    → IsConsistent order_id s
    → has_paid_event order_id s.outbox ≡ true
unfolding load_refund_context calls select_or
load_refund_context_paid order_id s r h i = ground (arith, i.announced, i.bound, i.eligible)

pub load_refund_context_same : (order_id : ℕ) (s : Store) → (load_refund_context order_id s).1 ≡ s
unfolding load_refund_context calls select_or
load_refund_context_same order_id s = ground arith
