-- ===== src/Commerce/Outbox.antt =====
-- The dispatcher of paid-order events to n8n (dispatcher.py): one event is read, sent, and marked as
-- published once it was accepted.
pub mod Consistent
pub mod Delivery
use sitescore.Common.{
  ℕ, ◌==◌, ltb, leb, Bool, ◌&&◌, ◌||◌, Option, none, some, List, [], ◌∷◌, is_none, if◌then◌else◌,
}
use sitescore.Commerce.Rows.{OutboxEventRow, Store}
use sitescore.Commerce.Tables.{select_or, get_outbox_event, write_outbox_event}
use sitescore.Common.Action.{
  Action, Result, ok, err, persistence_unavailable, dispatch_transport, dispatch_rejected, pure,
  raise, require, modify, ◌>>=◌, ◌>>◌,
}
use sitescore.Commerce.Session.{World, Env, transaction}

pub record PaidOutboxEvent : Type 0 where
  pub event_id : ℕ
  pub order_id : ℕ
  pub occurred_at : ℕ

pub data DispatchState : Type 0 where
  empty published unpublished : DispatchState

pub record DispatchResult : Type 0 where
  pub state : DispatchState
  pub event_id : Option ℕ
  pub order_id : Option ℕ
  pub http_status : Option ℕ

-- The order of `order_by(created_at, outbox_id)`.
unfoldable pub is_earlier : OutboxEventRow → OutboxEventRow → Bool
is_earlier a b =
    ltb a.created_at b.created_at || (a.created_at == b.created_at && leb a.outbox_id b.outbox_id)

earliest : OutboxEventRow → Option OutboxEventRow → Option OutboxEventRow
unfolding is_earlier
earliest r none = some r
earliest r (some best) = if is_earlier r best then some r else some best

-- The first row of the selection of `load_next_unpublished`.
unfoldable pub next_unpublished : List OutboxEventRow → Option OutboxEventRow
unfolding earliest
next_unpublished [] = none
next_unpublished (r ∷ rs) =
    let best = next_unpublished rs in if is_none r.published_at then earliest r best else best

pub event_of : OutboxEventRow → PaidOutboxEvent
event_of r = record { event_id = r.outbox_id; order_id = r.order_id; occurred_at = r.created_at }

unfoldable pub load_next_unpublished : Action Store (Option PaidOutboxEvent)
unfolding next_unpublished event_of
load_next_unpublished s =
    (ok (elim (next_unpublished s.outbox) [ none ↦ none | some r ↦ some (event_of r) ]), s)

unfoldable pub mark_published : ℕ → ℕ → Action Store (Unit {0})
mark_published now event_id = do
  row ←
      select_or (get_outbox_event event_id)
        (persistence_unavailable "commerce outbox event identity is unavailable")
  if is_none row.published_at
      then modify (write_outbox_event (record row { published_at = some now }))
      else pure tt

-- `N8nWebhookClient.send`, on the answer of the HTTP client: none where the request failed.
unfoldable pub send : Option ℕ → Result ℕ
send none = err dispatch_transport
send (some status) = if leb 200 status && ltb status 300 then ok status else err dispatch_rejected

-- `PaidOutboxDispatcher.dispatch_once`, where `post` is the HTTP client.
module _ (env : Env) (post : PaidOutboxEvent → Option ℕ) where
  result : DispatchState → PaidOutboxEvent → Option ℕ → DispatchResult
  result state event http_status = record {
    state = state;
    event_id = some event.event_id;
    order_id = some event.order_id;
    http_status = http_status;
  }

  -- What follows the answer to the event.
  answered : PaidOutboxEvent → Result ℕ → Action World DispatchResult
  unfolding result
  answered event (ok http_status) = do
    transaction env "commerce outbox publish state could not be persisted"
        (λ now _. mark_published now event.event_id)
    pure (result DispatchState.published event (some http_status))
  answered event (err dispatch_transport) = pure (result DispatchState.unpublished event none)
  answered event (err dispatch_rejected) = pure (result DispatchState.unpublished event none)
  answered event (err e) = raise e

  dispatch : Option PaidOutboxEvent → Action World DispatchResult
  unfolding answered
  dispatch none =
      pure (record {
        state = DispatchState.empty;
        event_id = none;
        order_id = none;
        http_status = none;
      })
  dispatch (some event) = answered event (send (post event))

  unfoldable pub dispatch_once : Action World DispatchResult
  unfolding dispatch
  dispatch_once = do
    event ← transaction env "commerce outbox is unavailable" (λ _ _. load_next_unpublished)
    dispatch event
