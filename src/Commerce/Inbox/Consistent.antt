-- ===== src/Commerce/Inbox/Consistent.antt =====
-- Consistency of the tables under the inbox of events (db.py).
use sitescore.Common.{ℕ, not, refl, String, Option, none, some}
use sitescore.Commerce.Rows.{StripeEventInboxRow, ProcessingState, Store}
use sitescore.Commerce.Tables.{get_event, no_row}
use sitescore.Commerce.Evidence.{StripeEventEnvelope}
use sitescore.Common.Action.{event_identity_conflict, persistence_unavailable, raise}
use sitescore.Commerce.Keeps.{kept, kept_select, kept_if, kept-pure, kept-modify, kept-raise}
use sitescore.Commerce.Consistency.{IsConsistent, framed}
use sitescore.Commerce.Payment.{is_processed}
use sitescore.Commerce.Inbox.{
  record_stripe_event, get_event_state, finish_event, record_in, same_event,
}

module _ (k : ℕ) (s : Store) (i : IsConsistent k s) where
  record_in-IsConsistent :
      (now : ℕ) (event : StripeEventEnvelope) (sha : ℕ) (row : Option StripeEventInboxRow)
      → IsConsistent k (kept s (record_in now event sha row s))
  unfolding record_in
  record_in-IsConsistent now event sha none =
      kept-modify (IsConsistent k) s s _ (framed k s _ refl refl refl refl refl i)
  record_in-IsConsistent now event sha (some row) =
      kept_if (IsConsistent k) s s (not (same_event row event))
        (raise
          (event_identity_conflict "duplicate Stripe event identity conflicts with durable inbox"))
        _ (λ _. kept-raise (IsConsistent k) s s i _ _)
        (λ _. kept-modify (IsConsistent k) s s _ (framed k s _ refl refl refl refl refl i))

  pub record_stripe_event-IsConsistent :
      (now : ℕ) (event : StripeEventEnvelope) (sha : ℕ)
      → IsConsistent k (kept s (record_stripe_event now event sha s))
  unfolding record_stripe_event
  record_stripe_event-IsConsistent now event sha =
      record_in-IsConsistent now event sha (get_event event.event_id s)

  pub get_event_state-IsConsistent :
      (event_id : String) → IsConsistent k (kept s (get_event_state event_id s))
  unfolding get_event_state
  get_event_state-IsConsistent event_id =
      kept_select (IsConsistent k) s s i (get_event event_id)
        (persistence_unavailable "Stripe event inbox identity is unavailable") _
        λ row _. kept-pure (IsConsistent k) s s row.processing_state i

  pub finish_event-IsConsistent :
      (now : ℕ) (event_id : String) (state : ProcessingState) (code : String)
      → IsConsistent k (kept s (finish_event now event_id state code s))
  unfolding finish_event
  finish_event-IsConsistent now event_id state code =
      kept_select (IsConsistent k) s s i (get_event event_id) no_row _ λ row _.
        kept_if (IsConsistent k) s s (is_processed row.processing_state) _ _
          (λ _. kept-pure (IsConsistent k) s s tt i)
          λ _. kept-modify (IsConsistent k) s s _ (framed k s _ refl refl refl refl refl i)
