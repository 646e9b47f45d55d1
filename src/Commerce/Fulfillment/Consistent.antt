-- ===== src/Commerce/Fulfillment/Consistent.antt =====
-- Consistency of the tables under the operations of an analysis and a report (fulfillment.py).
use sitescore.Common.{ℕ, true, false, ◌≡◌, refl, Option, none, some, ◌∷◌, arith, if◌then◌else◌}
use sitescore.Commerce.Contracts.{PaymentState, AnalysisState, ReportState, order_eq, OrderState}
use sitescore.Commerce.Rows.{OrderRow, FulfillmentBindingRow, Store}
use sitescore.Commerce.Tables.{
  get_order, get_order_key, get_binding_row, get_binding_key, write_order, write_binding,
}
use sitescore.Common.Action.{ok, fulfillment_invariant, fulfillment_not_found}
use sitescore.Commerce.Keeps.{
  kept, kept_select, kept-raise_if, kept-pure, kept_write, kept-gets, kept_step, kept-lift,
  kept_result, left_pure, left_lift, left_modify,
}
use sitescore.Commerce.Evidence.{AnalysisEvidence, ReportEvidence}
use sitescore.Commerce.Consistency.{
  is_funded, IsConsistent, write_order-IsConsistent, write_binding-IsConsistent,
}
use sitescore.Commerce.Json.{analysis_request}
use sitescore.Commerce.Fulfillment.{
  FulfillmentSettings, begin, begun, new_binding, ensure_binding, check_operation,
  operation_from_row, apply_analysis_state, apply_report_state, completed_analysis,
  prepare_analysis_operation, bind_analysis, bind_report, in_progress,
}

begin-IsConsistent :
    (k now : ℕ) (order : OrderRow) (s : Store)
    → get_order order.order_id s ≡ some order
    → IsConsistent k s
    → IsConsistent k (begin now order s)
unfolding begin begun
begin-IsConsistent k now order s h i =
    elim (order_eq order.order_state OrderState.paid)
      as (λ b. IsConsistent k (if b then write_order (begun now order) s else s)) [
        | true ↦ write_order-IsConsistent k s order (begun now order) h refl i
        | false ↦ i
      ]

-- The first operation of an order that is paid.
insert_binding-IsConsistent :
    (k : ℕ) (order : OrderRow) (new : FulfillmentBindingRow) (s : Store)
    → get_order new.order_id s ≡ some order
    → is_funded order.payment_state ≡ true
    → get_binding_row new.order_id s ≡ none
    → IsConsistent k s
    → IsConsistent k (record s { bindings = new ∷ s.bindings })
insert_binding-IsConsistent k order new s h f b i = record {
  announced = i.announced;
  once = i.once;
  bound = ground (arith, i.bound, h, f);
  eligible = ground (arith, i.eligible, b);
  refunding = i.refunding;
}

ensure_binding-IsConsistent :
    (k : ℕ) (settings : FulfillmentSettings) (now order_id : ℕ) (order : OrderRow)
    (existing : Option FulfillmentBindingRow) (s : Store)
    → get_order order_id s ≡ some order
    → is_funded order.payment_state ≡ true
    → get_binding_row order_id s ≡ existing
    → IsConsistent k s
    → IsConsistent k (ensure_binding settings now order_id order existing s).1
unfolding ensure_binding new_binding
ensure_binding-IsConsistent k settings now order_id order (some row) s h f b i =
    left_pure (IsConsistent k) s row i
ensure_binding-IsConsistent k settings now order_id order none s h f b i =
    left_lift (IsConsistent k) s (analysis_request order.purchase_intent) _ i λ payload _.
      let row = new_binding settings now order_id payload in
      let s' = record s { bindings = row ∷ s.bindings } in
      left_modify (IsConsistent k) s _ row (
        begin-IsConsistent k now order s' (ground (arith, h, get_order_key order_id s order h))
          (insert_binding-IsConsistent k order row s h f b i))

-- The operations of an analysis and of a report keep the tables consistent.
module _ (k now order_id : ℕ) (s : Store) (i : IsConsistent k s) (j : IsConsistent order_id s) where
  -- The rows that a binding writes.
  bound_rows-IsConsistent :
      (order order' : OrderRow) (row row' : FulfillmentBindingRow)
      → get_order order_id s ≡ some order
      → get_binding_row order_id s ≡ some row
      → row'.order_id ≡ row.order_id
      → (order'.order_id ≡ order.order_id) × (order'.payment_state ≡ PaymentState.paid)
      → IsConsistent k (write_order order' (write_binding row' s))
  bound_rows-IsConsistent order order' row row' o b e (f, p) =
      write_order-IsConsistent k (write_binding row' s) order order'
        (ground (arith, o, f, get_order_key order_id s order)) (ground (arith, p, j.bound, o, b))
        (write_binding-IsConsistent k s row row'
          (ground (arith, b, e, get_binding_key order_id s row)) i)

  analysis_applied :
      (order order' : OrderRow) (state : AnalysisState)
      → apply_analysis_state order state now ≡ ok order'
      → (order'.order_id ≡ order.order_id) × (order'.payment_state ≡ PaymentState.paid)
  unfolding apply_analysis_state in_progress
  analysis_applied order order' state h = ground arith

  report_applied :
      (order order' : OrderRow) (state : ReportState)
      → apply_report_state order state now ≡ ok order'
      → (order'.order_id ≡ order.order_id) × (order'.payment_state ≡ PaymentState.paid)
  unfolding apply_report_state in_progress
  report_applied order order' state h = ground arith

  pub prepare_analysis_operation-IsConsistent :
      (settings : FulfillmentSettings)
      → IsConsistent k (kept s (prepare_analysis_operation settings now order_id s))
  unfolding prepare_analysis_operation
  prepare_analysis_operation-IsConsistent settings =
      let P = IsConsistent k in
      kept_select P s s i (get_order order_id) (fulfillment_not_found "order not found") _
        λ order o. kept-raise_if P s s i _ _ _ λ paid. kept-raise_if P s s i _ _ _ λ _.
          kept-raise_if P s s i _ _ _ λ _. kept-gets P s s (get_binding_row order_id) _ (
            kept_step P s s i
              (ensure_binding settings now order_id order (get_binding_row order_id s)) _
              λ row _.
                kept_result P s
                  (ensure_binding settings now order_id order (get_binding_row order_id s) s).1 i
                  (check_operation settings order_id order (operation_from_row row))
                  (ensure_binding-IsConsistent k settings now order_id order
                    (get_binding_row order_id s) s o (ground (arith, paid)) refl i))

  pub bind_analysis-IsConsistent :
      (evidence : AnalysisEvidence)
      → IsConsistent k (kept s (bind_analysis now order_id evidence s))
  unfolding bind_analysis
  bind_analysis-IsConsistent evidence =
      let P = IsConsistent k in
      kept-raise_if P s s i _ _ _ λ _.
        kept_select P s s i (get_order order_id) (fulfillment_not_found "order not found") _
          λ order o.
            kept_select P s s i (get_binding_row order_id)
              (fulfillment_invariant "analysis operation snapshot is unavailable") _
              λ row b. kept-raise_if P s s i _ _ _ λ _.
                kept-lift P s s i (apply_analysis_state order evidence.state now) _ λ order' e.
                  kept-gets P s s _ _ (
                    kept-raise_if P s s i _ _ _ λ _. kept_write P s s _ _ (
                      kept-pure P s _ _ (
                        bound_rows-IsConsistent order order' row _ o b refl
                          (analysis_applied order order' evidence.state e))))

  completed_row :
      (found : Option FulfillmentBindingRow) (r : FulfillmentBindingRow × ℕ)
      → completed_analysis found ≡ ok r
      → found ≡ some r.0
  unfolding completed_analysis
  completed_row found r h = ground arith

  pub bind_report-IsConsistent :
      (evidence : ReportEvidence) → IsConsistent k (kept s (bind_report now order_id evidence s))
  unfolding bind_report
  bind_report-IsConsistent evidence =
      let P = IsConsistent k in
      kept-raise_if P s s i _ _ _ λ _.
        kept_select P s s i (get_order order_id) (fulfillment_not_found "order not found") _
          λ order o. kept-gets P s s (get_binding_row order_id) _ (
            kept-lift P s s i (completed_analysis (get_binding_row order_id s)) _ λ r b.
              kept-raise_if P s s i _ _ _ λ _. kept-raise_if P s s i _ _ _ λ _.
                kept-lift P s s i (apply_report_state order evidence.state now) _ λ order' e.
                  kept-gets P s s _ _ (
                    kept-raise_if P s s i _ _ _ λ _. kept_write P s s _ _ (
                      kept-pure P s _ _ (
                        bound_rows-IsConsistent order order' r.0 _ o (completed_row _ r b) refl
                          (report_applied order order' evidence.state e)))))
