-- ===== src/Commerce/Inbox.antt =====
-- The inbox of Stripe events (db.py): each event is recorded once under its identity, and closed
-- with the state in which it left the handler.
pub mod Consistent
use sitescore.Common.{
  ℕ, ◌+◌, ◌==◌, Bool, not, ◌&&◌, String, str_eq, Option, none, some, ◌∷◌, bool_eq, opt_eq,
  if◌then◌else◌,
}
use sitescore.Commerce.Rows.{
  StripeEventInboxRow, ProcessingState, received, ignored, attention_required, Store,
}
use sitescore.Commerce.Tables.{select_or, get_event, write_event, select}
use sitescore.Commerce.Evidence.{StripeEventEnvelope}
use sitescore.Common.Action.{
  Action, event_identity_conflict, persistence_unavailable, pure, raise, require, modify, ◌>>=◌,
}
use sitescore.Commerce.Payment.{close_event, is_processed}

-- `essential == incoming`
unfoldable pub same_event : StripeEventInboxRow → StripeEventEnvelope → Bool
same_event row event =
    str_eq row.stripe_event_type event.event_type
    && opt_eq str_eq row.stripe_object_id event.checkout_session_id
    && opt_eq str_eq row.candidate_order_id event.candidate_order_id
    && opt_eq str_eq row.event_api_version event.api_version
    && bool_eq row.livemode event.livemode
    && (row.event_created_at == event.created_at)

new_event : ℕ → StripeEventEnvelope → ℕ → StripeEventInboxRow
new_event now event raw_body_sha256 = record {
  stripe_event_id = event.event_id;
  stripe_event_type = event.event_type;
  stripe_object_id = event.checkout_session_id;
  candidate_order_id = event.candidate_order_id;
  event_api_version = event.api_version;
  livemode = event.livemode;
  event_created_at = event.created_at;
  raw_body_sha256 = raw_body_sha256;
  processing_state = received;
  failure_code = none;
  received_at = now;
  processed_at = none;
  attempt_count = 1;
}

-- The insertion that a conflict turns into a check of the row that is there.
unfoldable pub record_in :
    ℕ → StripeEventEnvelope → ℕ → Option StripeEventInboxRow → Action Store (Unit {0})
unfolding same_event new_event
record_in now event raw_body_sha256 none =
    modify (λ s. record s { inbox = new_event now event raw_body_sha256 ∷ s.inbox })
record_in now event raw_body_sha256 (some row) =
    if not (same_event row event)
    then raise
        (event_identity_conflict "duplicate Stripe event identity conflicts with durable inbox")
    else modify (write_event (record row { attempt_count = row.attempt_count + 1 }))

unfoldable pub record_stripe_event : ℕ → StripeEventEnvelope → ℕ → Action Store (Unit {0})
unfolding record_in
record_stripe_event now event raw_body_sha256 s =
    record_in now event raw_body_sha256 (get_event event.event_id s) s

unfoldable pub get_event_state : String → Action Store ProcessingState
get_event_state event_id = do
  row ←
      select_or (get_event event_id)
        (persistence_unavailable "Stripe event inbox identity is unavailable")
  pure row.processing_state

-- `_finish_event`
unfoldable pub finish_event : ℕ → String → ProcessingState → String → Action Store (Unit {0})
unfolding is_processed
finish_event now event_id state code = do
  row ← select (get_event event_id)
  if is_processed row.processing_state
      then pure tt
      else modify (write_event (close_event now state (some code) row))

unfoldable pub mark_event_attention : ℕ → String → String → Action Store (Unit {0})
unfolding finish_event
mark_event_attention now event_id code = finish_event now event_id attention_required code

unfoldable pub mark_event_ignored : ℕ → String → String → Action Store (Unit {0})
unfolding finish_event
mark_event_ignored now event_id code = finish_event now event_id ignored code
