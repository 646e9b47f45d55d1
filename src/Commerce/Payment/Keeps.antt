-- ===== src/Commerce/Payment/Keeps.antt =====
-- Rules for apply_reconciliation and apply_poll_reconciliation (db.py).
use sitescore.Common.{String, Option, some, List, none, Bool, true, false, ℕ, ◌≡◌, String, some}
use sitescore.Commerce.Rows.{
  PaymentPollReceiptRow, StripeEventInboxRow, OrderRow, CheckoutSessionRow, Target, Store,
}
use sitescore.Commerce.Tables.{get_order, get_checkout, get_event, no_row, session_clash}
use sitescore.Commerce.Evidence.{StripeCheckoutEvidence}
use sitescore.Common.Action.{Result}
use sitescore.Commerce.Keeps.{
  kept, kept_select, kept-raise_if, kept-raise, kept_step, kept_check, kept_if, kept-pure,
  kept_write, kept-gets,
}
use sitescore.Commerce.Payment.{
  apply_payment_transition_locked, poll_outcome, PollResult, attention, already_terminal,
  transitioned, reconcile_rows, poll_rows, is_processed, has_receipt, check_receipt,
  apply_reconciliation, apply_poll_reconciliation,
}

module _ (P : Store → Type 0) (now fresh order_id : ℕ) (evidence : StripeCheckoutEvidence)
    (t : Target) (s : Store) (base : P s) where
  pub apply_reconciliation_keeps :
      (event_id : String)
      → ((row : StripeEventInboxRow) (order : OrderRow) (checkout : CheckoutSessionRow)
          → get_order order_id s ≡ some order
          → P (reconcile_rows now fresh row order checkout evidence t s))
      → P (kept s (apply_reconciliation now fresh event_id order_id evidence t s))
  unfolding apply_reconciliation
  apply_reconciliation_keeps event_id h =
      kept_select P s s base (get_event event_id) no_row _ λ row _.
        kept_if P s s (is_processed row.processing_state) _ _ (λ _. kept-pure P s s tt base)
          λ _. kept_select P s s base (get_order order_id) no_row _ λ order o.
            kept_select P s s base (get_checkout order_id) no_row _ λ checkout _.
              let s' = reconcile_rows now fresh row order checkout evidence t s in
              kept_write P s s (reconcile_rows now fresh row order checkout evidence t) _ (
                kept-gets P s s' (session_clash order_id) _ (
                  kept_check P s s' base (session_clash order_id s') _ λ _. h row order checkout o))

poll_outcome_keeps :
    (P : Store → Type 0) (now receipt_id : ℕ) (order : OrderRow) (evidence : StripeCheckoutEvidence)
    (t : Target) (sha observed_at : ℕ) (r : Bool × Option String) (s : Store)
    → ((rs : List PaymentPollReceiptRow) → P (record s { receipts = rs }))
    → P s
    → P (poll_outcome now receipt_id order evidence t sha observed_at r s).1
unfolding poll_outcome
poll_outcome_keeps P now receipt_id order evidence t sha observed_at (_, some c) s frame h = h
poll_outcome_keeps P now receipt_id order evidence t sha observed_at (false, none) s frame h = h
poll_outcome_keeps P now receipt_id order evidence t sha observed_at (true, none) s frame h =
    frame _

-- What the transition keeps, the rows of a poll keep, if it does not depend on the receipts.
pub poll_rows_keeps :
    (P : Store → Type 0) (now fresh receipt_id : ℕ) (order : OrderRow)
    (checkout : CheckoutSessionRow) (evidence : StripeCheckoutEvidence) (t : Target)
    (sha observed_at : ℕ) (s : Store)
    → ((rs : List PaymentPollReceiptRow) (s' : Store) → P s' → P (record s' { receipts = rs }))
    → P (apply_payment_transition_locked now fresh order checkout evidence t none s).1
    → P (poll_rows now fresh receipt_id order checkout evidence t sha observed_at s).1
unfolding poll_rows
poll_rows_keeps P now fresh receipt_id order checkout evidence t sha observed_at s frame h =
    let r = apply_payment_transition_locked now fresh order checkout evidence t none s in
    poll_outcome_keeps P now receipt_id order evidence t sha observed_at r.0 r.1
      (λ rs. frame rs r.1 h) h

module _ (P : Store → Type 0) (now fresh receipt_id order_id : ℕ)
    (evidence : StripeCheckoutEvidence) (t : Target) (evidence_sha256 observed_at : ℕ) (s : Store)
    (base : P s) where
  -- The store after the rows of a poll are written.
  abbrev polled : OrderRow → CheckoutSessionRow → Result PollResult × Store
  polled order checkout =
      poll_rows now fresh receipt_id order checkout evidence t evidence_sha256 observed_at s

  pub apply_poll_reconciliation_keeps :
      ((order : OrderRow) (checkout : CheckoutSessionRow)
        → get_order order_id s ≡ some order
        → P (polled order checkout).1)
      → P (
          kept s (
            apply_poll_reconciliation now fresh receipt_id order_id evidence t evidence_sha256
              observed_at s))
  unfolding apply_poll_reconciliation
  apply_poll_reconciliation_keeps h =
      kept_select P s s base (get_order order_id) no_row _ λ order o.
        kept_select P s s base (get_checkout order_id) no_row _ λ checkout _.
          kept-gets P s s (has_receipt order_id) _ (
            kept_step P s s base
              (poll_rows now fresh receipt_id order checkout evidence t evidence_sha256 observed_at)
              _
              λ result _.
                let s' = (polled order checkout).1 in
                kept-gets P s s' (session_clash order_id) _ (
                  kept-raise_if P s s' base (session_clash order_id s') _ _ λ _.
                    elim (has_receipt order_id s) as (λ b. P (kept s (check_receipt b result s'))) [
                      | true ↦ elim result as (λ r. P (kept s (check_receipt true r s'))) [
                        | attention c ↦ kept-pure P s s' (attention c) (h order checkout o)
                        | already_terminal ↦ kept-pure P s s' already_terminal (h order checkout o)
                        | transitioned ↦ kept-raise P s s' base PollResult _
                      ]
                      | false ↦ kept-pure P s s' result (h order checkout o)
                    ]))
