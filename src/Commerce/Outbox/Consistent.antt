-- ===== src/Commerce/Outbox/Consistent.antt =====
-- Consistency of the tables under mark_published (dispatcher.py).
use sitescore.Common.{
  ℕ, ◌≡◌, refl, some, List, [], ◌∷◌, is_none, put, find, find_key, arith, nat_eq,
}
use sitescore.Commerce.Rows.{OutboxEventRow, Store}
use sitescore.Commerce.Tables.{get_outbox_event, has_paid_event, outbox_key}
use sitescore.Common.Action.{persistence_unavailable}
use sitescore.Commerce.Keeps.{kept, kept_select, kept_if, kept-modify, kept-pure}
use sitescore.Commerce.Consistency.{events_of, IsConsistent}
use sitescore.Commerce.Outbox.{mark_published}

put_event :
    (k : ℕ) (new : OutboxEventRow) (es : List OutboxEventRow) (old : OutboxEventRow)
    → find outbox_key new.outbox_id es ≡ some old
    → old.order_id ≡ new.order_id
    → (has_paid_event k (put outbox_key new es) ≡ has_paid_event k es)
      × (events_of k (put outbox_key new es) ≡ events_of k es)
put_event k new [] old h e = ground arith
put_event k new (x ∷ es) old h e =
    (ground (arith, put_event k new es old), ground (arith, put_event k new es old))

published_id :
    (id : ℕ) (es : List OutboxEventRow) (row : OutboxEventRow)
    → find outbox_key id es ≡ some row
    → row.outbox_id ≡ id
published_id id es row h = find_key outbox_key id es row h

pub mark_published-IsConsistent :
    (k now event_id : ℕ) (s : Store)
    → IsConsistent k s
    → IsConsistent k (kept s (mark_published now event_id s))
unfolding mark_published
mark_published-IsConsistent k now event_id s i =
    let P = IsConsistent k in
    kept_select P s s i (get_outbox_event event_id)
      (persistence_unavailable "commerce outbox event identity is unavailable") _
      λ row r.
        kept_if P s s (is_none row.published_at) _ _
          (λ _. kept-modify P s s _ (
            let p =
              put_event k (record row { published_at = some now }) s.outbox row
                (ground (arith, r, published_id event_id s.outbox row)) refl in
            record {
              announced = ground (arith, p, i.announced);
              once = ground (arith, p, i.once);
              bound = i.bound;
              eligible = i.eligible;
              refunding = i.refunding;
            }))
          (λ _. kept-pure P s s tt i)
