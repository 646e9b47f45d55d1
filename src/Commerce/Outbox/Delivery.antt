-- ===== src/Commerce/Outbox/Delivery.antt =====
-- The choice and the delivery of an event (dispatcher.py).
use sitescore.Common.{
  subst, String, ℕ, ◌≤◌, ◌<◌, ltb, leb, Bool, true, false, not, ◌&&◌, ◌||◌, ◌≡◌, refl, Option, none,
  some, List, [], ◌∷◌, is_none, all, ap, ◌∙◌, arith, if◌then◌else◌, Bool-cases, inl, inr,
}
use sitescore.Commerce.Rows.{OutboxEventRow, Store}
use sitescore.Common.Action.{ok, calls}
use sitescore.Commerce.Session.{World, Env, transaction}
use sitescore.Commerce.Keeps.{kept}
use sitescore.Commerce.Stable.{read_then, then-pure, transaction-store}
use sitescore.Commerce.Outbox.{
  DispatchState, PaidOutboxEvent, is_earlier, earliest, next_unpublished, event_of,
  load_next_unpublished, mark_published, send, dispatch, answered, result, dispatch_once,
}

-- A row stands before every row that waits.
abbrev pub is_first : OutboxEventRow → List OutboxEventRow → Bool
is_first r rs = all (λ x. not (is_none x.published_at) || is_earlier r x) rs

earlier_trans :
    (a b c : OutboxEventRow) → is_earlier a b ≡ true → is_earlier b c ≡ true → is_earlier a c ≡ true
unfolding is_earlier
earlier_trans a b c h g = ground arith

earlier_total : (a b : OutboxEventRow) → is_earlier a b ≡ false → is_earlier b a ≡ true
unfolding is_earlier
earlier_total a b h = ground arith

earlier_refl : (a : OutboxEventRow) → is_earlier a a ≡ true
unfolding is_earlier
earlier_refl a = ground arith

first_before :
    (a b : OutboxEventRow) (rs : List OutboxEventRow)
    → is_earlier a b ≡ true
    → is_first b rs ≡ true
    → is_first a rs ≡ true
first_before a b [] h g = refl
first_before a b (x ∷ rs) h g = ground (arith, earlier_trans a b x h, first_before a b rs h)

-- None waits if there is none, and the one that is chosen waits and is the first that does.
abbrev pub is_next : Option OutboxEventRow → List OutboxEventRow → Bool
is_next none rs = all (λ x. not (is_none x.published_at)) rs
is_next (some r) rs = is_none r.published_at && is_first r rs

none_first :
    (a : OutboxEventRow) (rs : List OutboxEventRow)
    → all (λ x. not (is_none x.published_at)) rs ≡ true
    → is_first a rs ≡ true
none_first a [] h = refl
none_first a (x ∷ rs) h = ground (arith, none_first a rs)

next_step :
    (r : OutboxEventRow) (rs : List OutboxEventRow) (best : Option OutboxEventRow)
    → is_next best rs ≡ true
    → is_next (if is_none r.published_at then earliest r best else best) (r ∷ rs) ≡ true
unfolding earliest
next_step r rs none h = ground (arith, none_first r rs, earlier_refl r)
next_step r rs (some b) h = ground (arith, first_before r b rs, earlier_total r b, earlier_refl r)

-- The event that is chosen waits for its publication and comes first, by its time and then by its
-- identity, among those that wait; none is chosen only if none waits.
pub next_unpublished-first : (rs : List OutboxEventRow) → is_next (next_unpublished rs) rs ≡ true
unfolding next_unpublished
next_unpublished-first [] = refl
next_unpublished-first (r ∷ rs) = next_step r rs (next_unpublished rs) (next_unpublished-first rs)

abbrev found_event : Option OutboxEventRow → Option PaidOutboxEvent
found_event none = none
found_event (some r) = some (event_of r)

-- What one dispatch may do to the store.
pub data Delivery (post : PaidOutboxEvent → Option ℕ) (before after : Store) : Type 0 where
  idle : after ≡ before → Delivery post before after
  delivered :
      (row : OutboxEventRow) (http_status now : ℕ)
      → next_unpublished before.outbox ≡ some row
      → post (event_of row) ≡ some http_status
      → 200 ≤ http_status
      → http_status < 300
      → after ≡ kept before (mark_published now row.outbox_id before)
      → Delivery post before after

module _ (env : Env) (post : PaidOutboxEvent → Option ℕ) where
  published_case :
      (row : OutboxEventRow) (http_status : ℕ) (w : World)
      → next_unpublished w.store.outbox ≡ some row
      → post (event_of row) ≡ some http_status
      → leb 200 http_status && ltb http_status 300 ≡ true
      → Delivery post w.store (answered env post (event_of row) (ok http_status) w).1.store
  unfolding answered event_of
  published_case row http_status w n p c =
      let body = λ (now fresh : ℕ). mark_published now row.outbox_id in
      let message : String = "commerce outbox publish state could not be persisted" in
      let now = env.now w.transactions in
      let e : (answered env post (event_of row) (ok http_status) w).1.store ≡ (
          if env.reachable w.transactions
          then kept w.store (body now (env.fresh w.transactions) w.store)
          else w.store) =
        ap (λ (v : World). v.store)
          (then-pure (transaction env message body)
            (result env post DispatchState.published (event_of row) (some http_status)) w)
        ∙ transaction-store env message body w in
      elim (Bool-cases (env.reachable w.transactions)) [
        | inl r ↦
            delivered row http_status now n p (ground (arith, c)) (ground (arith, c))
              (e ∙ rw r refl)
        | inr r ↦ idle (e ∙ rw r refl)
      ]

  answered_case :
      (row : OutboxEventRow) (answer : Option ℕ) (w : World)
      → next_unpublished w.store.outbox ≡ some row
      → post (event_of row) ≡ answer
      → Delivery post w.store (answered env post (event_of row) (send answer) w).1.store
  unfolding answered send calls
  answered_case row none w n p = idle refl
  answered_case row (some http_status) w n p =
      elim (Bool-cases (leb 200 http_status && ltb http_status 300)) [
        | inl c ↦ rw c (published_case row http_status w n p c)
        | inr c ↦ rw c (idle refl)
      ]

  dispatched :
      (found : Option OutboxEventRow) (w : World)
      → next_unpublished w.store.outbox ≡ found
      → Delivery post w.store (dispatch env post (found_event found) w).1.store
  unfolding dispatch calls
  dispatched none w n = idle refl
  dispatched (some row) w n = answered_case row (post (event_of row)) w n refl

  loaded :
      (w : World) (event : Option PaidOutboxEvent)
      → (load_next_unpublished w.store).0 ≡ ok event
      → found_event (next_unpublished w.store.outbox) ≡ event
  unfolding load_next_unpublished
  loaded w event h = ground arith

  -- One dispatch leaves the store, or has had the first waiting event accepted by an answer with a
  -- status from 200 to 299 and then marks it.
  pub dispatch_once-Delivery :
      (w : World) → Delivery post w.store (dispatch_once env post w).1.store
  unfolding dispatch_once load_next_unpublished
  dispatch_once-Delivery w =
      read_then (λ v. Delivery post w.store v.store) (dispatch env post) env _
        (λ _ _. load_next_unpublished) w (λ _ _. refl) (idle refl)
        λ _ _ event v e same _.
          let n = ap (λ (s : Store). next_unpublished s.outbox) same in
          subst (λ s. Delivery post s (dispatch env post event v).1.store) same
            (subst (λ x. Delivery post v.store (dispatch env post x v).1.store) (loaded w event e)
              (dispatched (next_unpublished w.store.outbox) v n))
