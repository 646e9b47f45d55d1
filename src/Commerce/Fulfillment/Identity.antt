-- ===== src/Commerce/Fulfillment/Identity.antt =====
-- The identity of the analysis of an order under bind_analysis (fulfillment.py).
use sitescore.Common.{
  Option-cases, ℕ, false, ◌≡◌, ◌⊎◌, inl, inr, Option, none, some, is_none, arith,
}
use sitescore.Commerce.Contracts.{AnalysisState, FulfillmentState, PaymentState, OrderState}
use sitescore.Commerce.Rows.{OrderRow, FulfillmentBindingRow, Store}
use sitescore.Commerce.Tables.{
  select_or, get_order, get_order_key, get_order-write, get_binding_row, get_binding_key,
  get_binding-write,
}
use sitescore.Common.Action.{ok, calls}
use sitescore.Commerce.Evidence.{AnalysisEvidence, AnalysisOperation}
use sitescore.Commerce.Fulfillment.{
  bind_analysis, apply_analysis_state, in_progress, fulfillment_of_analysis, conflicts,
  bound_analysis, analysis_bound_elsewhere,
}

-- The identity that a row holds.
abbrev pub analysis_of : Option FulfillmentBindingRow → Option ℕ
analysis_of none = none
analysis_of (some row) = row.analysis_id

abbrev pub states_of : Option OrderRow → Option (OrderState × PaymentState)
states_of none = none
states_of (some o) = some (o.order_state, o.payment_state)

-- The fulfillment state of a known state.
abbrev state_shown : AnalysisState → FulfillmentState
state_shown state = elim (fulfillment_of_analysis state) [
  | none ↦ FulfillmentState.not_started
  | some f ↦ f
]

module _ (now order_id : ℕ) (evidence : AnalysisEvidence) (s s' : Store)
    (op : AnalysisOperation) where
  bound_identity :
      bind_analysis now order_id evidence s ≡ (ok op, s')
      → ((analysis_of (get_binding_row order_id s) ≡ none)
          ⊎ (analysis_of (get_binding_row order_id s) ≡ some evidence.analysis_id))
        × (analysis_bound_elsewhere order_id evidence.analysis_id s.bindings ≡ false)
  unfolding bind_analysis conflicts calls select_or
  bound_identity h = ground arith

  bound_after :
      (row : FulfillmentBindingRow) (order : OrderRow)
      → get_binding_row order_id s ≡ some row
      → get_order order_id s ≡ some order
      → bind_analysis now order_id evidence s ≡ (ok op, s')
      → (analysis_of (get_binding_row order_id s') ≡ some evidence.analysis_id)
        × (states_of (get_order order_id s')
            ≡ some (OrderState.fulfillment_in_progress, PaymentState.paid))
  unfolding bind_analysis calls select_or apply_analysis_state in_progress
  bound_after row order b o h = (
    ground (
      arith,
      get_binding_key order_id s row,
      get_binding-write order_id (bound_analysis now evidence row) s row,
    ),
    ground (
      arith,
      get_order_key order_id s order,
      get_order-write order_id (in_progress (state_shown evidence.state) now order) s order,
    ),
  )

  found_rows :
      bind_analysis now order_id evidence s ≡ (ok op, s')
      → (is_none (get_binding_row order_id s) ≡ false) × (is_none (get_order order_id s) ≡ false)
  unfolding bind_analysis calls select_or
  found_rows h = ground arith

  -- An analysis that is bound is the one that the order had, if it had one, and belongs to no other
  -- order; from then on the order has it.
  pub bind_analysis-identity :
      bind_analysis now order_id evidence s ≡ (ok op, s')
      → ((analysis_of (get_binding_row order_id s) ≡ none)
          ⊎ (analysis_of (get_binding_row order_id s) ≡ some evidence.analysis_id))
        × (analysis_bound_elsewhere order_id evidence.analysis_id s.bindings ≡ false)
        × (analysis_of (get_binding_row order_id s') ≡ some evidence.analysis_id)
  bind_analysis-identity h =
      let (i, e) = bound_identity h in
      elim (Option-cases (get_binding_row order_id s)) [
        | inr (row, b) ↦ elim (Option-cases (get_order order_id s)) [
          | inr (order, o) ↦ (i, e, (bound_after row order b o h).0)
          | inl o ↦ ground (arith, found_rows h)
        ]
        | inl b ↦ ground (arith, found_rows h)
      ]

  -- Whatever the states of the order were, an observation of its analysis puts it in fulfillment
  -- and marks it as paid.
  pub bind_analysis-reopens :
      bind_analysis now order_id evidence s ≡ (ok op, s')
      → states_of (get_order order_id s')
        ≡ some (OrderState.fulfillment_in_progress, PaymentState.paid)
  bind_analysis-reopens h = elim (Option-cases (get_binding_row order_id s)) [
    | inr (row, b) ↦ elim (Option-cases (get_order order_id s)) [
      | inr (order, o) ↦ (bound_after row order b o h).1
      | inl o ↦ ground (arith, found_rows h)
    ]
    | inl b ↦ ground (arith, found_rows h)
  ]
