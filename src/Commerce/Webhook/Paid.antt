-- ===== src/Commerce/Webhook/Paid.antt =====
-- The payment of an order under the webhook handler (webhook.py).
use sitescore.Common.{
  ℕ, Bool, true, not, ◌&&◌, ◌≡◌, refl, ◌∙◌, ap, sym, subst, String, str_eq, Option, none, some,
  List, bool_eq, opt_eq, is_none, arith,
}
use sitescore.Commerce.Contracts.{OrderState, PaymentState}
use sitescore.Commerce.Rows.{
  OrderRow, CheckoutSessionRow, ProcessingState, ignored, attention_required, Target, Store,
}
use sitescore.Commerce.Tables.{select_or, get_order, get_checkout}
use sitescore.Commerce.Evidence.{StripeEventEnvelope, StripeCheckoutEvidence}
use sitescore.Commerce.CheckoutBinding.{binding_mismatch, is_paid_evidence, is_expired_evidence}
use sitescore.Common.Action.{Action, Error, persistence_unavailable, ok, err, calls}
use sitescore.Commerce.Keeps.{kept}
use sitescore.Commerce.Session.{World, Env, transaction}
use sitescore.Commerce.Stable.{
  Stable, Stable-transaction, Stable-raise_if, Stable-raise, Stable-pure,
}
use sitescore.Commerce.Leads.{
  Leads, Leads-Stable, Leads-then, Leads-lift, Leads-bind, Leads-if, Leads-transaction, Leads-catch,
}
use sitescore.Commerce.Payment.Truth.{Change, unchanged, settled, taken_to, reconciliation-Change}
use sitescore.Commerce.Inbox.{
  mark_event_attention, mark_event_ignored, record_stripe_event, get_event_state, finish_event,
  record_in,
}
use sitescore.Commerce.Webhook.{
  WebhookSettings, Stripe, completed_event, expired_event, is_unsupported, load_order_and_checkout,
  is_closed, mark_attention, mark_ignored, reconcile, settle_event, check_evidence, with_order,
  correlate, candidate, handle_event, verified, handle,
}

-- The rows that the handler reads are as they were.
unfoldable pub IsApart : Store → Store → Type 0
IsApart before s = (s.orders ≡ before.orders) × (s.checkouts ≡ before.checkouts)

abbrev pub is_authoritative : Target → StripeCheckoutEvidence → Bool
is_authoritative Target.paid evidence = is_paid_evidence evidence
is_authoritative Target.expired evidence = is_expired_evidence evidence

-- What one request to the handler may do to the order `k`.
pub data Settlement (settings : WebhookSettings) (stripe : Stripe) (raw_body : List ℕ) (k : ℕ)
    (before after : Store) : Type 0 where
  untouched :
      get_order k after ≡ get_order k before → Settlement settings stripe raw_body k before after
  decided :
      (signature session_id : String) (event : StripeEventEnvelope)
      (evidence : StripeCheckoutEvidence) (order : OrderRow) (checkout : CheckoutSessionRow)
      (t : Target) (now : ℕ)
      → stripe.verify raw_body signature ≡ ok event
      → stripe.retrieve session_id ≡ ok evidence
      → get_order k before ≡ some order
      → get_checkout k before ≡ some checkout
      → binding_mismatch evidence order checkout settings.stripe_expected_livemode ≡ none
      → is_authoritative t evidence ≡ true
      → order.order_state ≡ OrderState.pending_payment
      → order.payment_state ≡ PaymentState.pending
      → get_order k after ≡ some (taken_to now t order)
      → Settlement settings stripe raw_body k before after

finish_event_orders :
    (now : ℕ) (event_id : String) (state : ProcessingState) (code : String) (s : Store)
    → IsApart s (kept s (finish_event now event_id state code s))
unfolding IsApart finish_event kept calls select_or
finish_event_orders now event_id state code s = (ground arith, ground arith)

record_orders :
    (now : ℕ) (event : StripeEventEnvelope) (sha : ℕ) (s : Store)
    → IsApart s (kept s (record_stripe_event now event sha s))
unfolding IsApart record_stripe_event record_in kept calls select_or
record_orders now event sha s = (ground arith, ground arith)

get_event_state_orders :
    (event_id : String) (s : Store) → IsApart s (kept s (get_event_state event_id s))
unfolding IsApart get_event_state kept calls select_or
get_event_state_orders event_id s = (ground arith, ground arith)

load_same : (order_id : ℕ) (s : Store) → (load_order_and_checkout order_id s).1 ≡ s
unfolding load_order_and_checkout calls select_or
load_same order_id s = ground arith

load_rows :
    (order_id : ℕ) (s : Store) (r : OrderRow × CheckoutSessionRow)
    → (load_order_and_checkout order_id s).0 ≡ ok r
    → (get_order order_id s ≡ some r.0) × (get_checkout order_id s ≡ some r.1)
unfolding load_order_and_checkout calls select_or
load_rows order_id s r h = (ground arith, ground arith)

module _ (before : Store) where
  apart :
      {A : Type 0} (env : Env) (message : String) (body : ℕ → ℕ → Action Store A)
      → ((now fresh : ℕ) (s : Store) → IsApart s (kept s (body now fresh s)))
      → Stable (IsApart before) (transaction env message body)
  unfolding IsApart
  apart env message body h =
      Stable-transaction (IsApart before) env message body
        λ now fresh s (o, c). ((h now fresh s).0 ∙ o, (h now fresh s).1 ∙ c)

  rows_before :
      (order_id : ℕ) (s : Store)
      → IsApart before s
      → (get_order order_id s ≡ get_order order_id before)
        × (get_checkout order_id s ≡ get_checkout order_id before)
  unfolding IsApart
  rows_before order_id s (o, c) = (
    ap (λ (l : List OrderRow). get_order order_id (record s { orders = l })) o,
    ap (λ (l : List CheckoutSessionRow). get_checkout order_id (record s { checkouts = l })) c,
  )

-- One request that the handler has verified as `event`.
module _ (env : Env) (settings : WebhookSettings) (stripe : Stripe) (raw_body : List ℕ) (k : ℕ)
    (before : Store) where
  abbrev P : Store → Type 0
  P = IsApart before

  abbrev Q : Store → Type 0
  Q = Settlement settings stripe raw_body k before

  unpaid : (s : Store) → P s → Q s
  unpaid s p = untouched (rows_before before k s p).0

  attention-Leads :
      (event_id code : String) → Leads P Q (mark_attention env settings stripe event_id code)
  unfolding mark_attention mark_event_attention
  attention-Leads event_id code =
      Leads-Stable P Q unpaid _
        (apart before env _ _ λ now _ s. finish_event_orders now event_id attention_required code s)

  ignored-Leads :
      (event_id code : String) → Leads P Q (mark_ignored env settings stripe event_id code)
  unfolding mark_ignored mark_event_ignored
  ignored-Leads event_id code =
      Leads-Stable P Q unpaid _
        (apart before env _ _ λ now _ s. finish_event_orders now event_id ignored code s)

  -- What the reconciliation does, on evidence that was checked.
  decide :
      (signature session_id : String) (event : StripeEventEnvelope) (order_id now : ℕ)
      (evidence : StripeCheckoutEvidence) (order : OrderRow) (checkout : CheckoutSessionRow)
      (t : Target) (s : Store) (after : Store)
      → P s
      → stripe.verify raw_body signature ≡ ok event
      → stripe.retrieve session_id ≡ ok evidence
      → get_order order_id before ≡ some order
      → get_checkout order_id before ≡ some checkout
      → binding_mismatch evidence order checkout settings.stripe_expected_livemode ≡ none
      → is_authoritative t evidence ≡ true
      → Change now order_id k t (get_order k s) (get_order k after)
      → Q after
  decide signature session_id event order_id now evidence order checkout t s after p v r o c b a
        (unchanged e) =
      untouched (e ∙ (rows_before before k s p).0)
  decide signature session_id event order_id now evidence order checkout t s after p v r o c b a
        (settled o' f same state pay e) =
      let same_order : order ≡ o' = ground (arith, o, f, same, (rows_before before k s p).0) in
      decided signature session_id event evidence order checkout t now v r
        (subst (λ i. get_order i before ≡ some order) same o)
        (subst (λ i. get_checkout i before ≡ some checkout) same c) b a (rw same_order state)
        (rw same_order pay) (rw same_order e)

  module _ (signature session_id : String) (event : StripeEventEnvelope)
      (verify : stripe.verify raw_body signature ≡ ok event) where
    reconcile-Leads :
        (order_id : ℕ) (evidence : StripeCheckoutEvidence) (order : OrderRow)
        (checkout : CheckoutSessionRow) (t : Target)
        → stripe.retrieve session_id ≡ ok evidence
        → get_order order_id before ≡ some order
        → get_checkout order_id before ≡ some checkout
        → binding_mismatch evidence order checkout settings.stripe_expected_livemode ≡ none
        → is_authoritative t evidence ≡ true
        → Leads P Q (reconcile env settings stripe event order_id evidence t)
    unfolding reconcile
    reconcile-Leads order_id evidence order checkout t r o c b a =
        Leads-transaction P Q unpaid env _ _ λ now fresh s p.
          decide signature session_id event order_id now evidence order checkout t s _ p verify r o
            c b a (reconciliation-Change now fresh k evidence t s event.event_id order_id)

    settle-Leads :
        (order_id : ℕ) (evidence : StripeCheckoutEvidence) (order : OrderRow)
        (checkout : CheckoutSessionRow)
        → stripe.retrieve session_id ≡ ok evidence
        → get_order order_id before ≡ some order
        → get_checkout order_id before ≡ some checkout
        → binding_mismatch evidence order checkout settings.stripe_expected_livemode ≡ none
        → Leads P Q (settle_event env settings stripe event order_id evidence)
    unfolding settle_event
    settle-Leads order_id evidence order checkout r o c b =
        Leads-if P Q unpaid (str_eq event.event_type completed_event) _ _
          (λ _.
            Leads-if P Q unpaid (not (is_paid_evidence evidence)) _ _
              (λ _. attention-Leads event.event_id _)
              (λ a.
                reconcile-Leads order_id evidence order checkout Target.paid r o c b
                  (ground (arith, a))))
          (λ _.
            Leads-if P Q unpaid (str_eq event.event_type expired_event) _ _
              (λ _.
                Leads-if P Q unpaid (not (is_expired_evidence evidence)) _ _
                  (λ _. attention-Leads event.event_id _)
                  (λ a.
                    reconcile-Leads order_id evidence order checkout Target.expired r o c b
                      (ground (arith, a))))
              (λ _. Leads-Stable P Q unpaid _ (Stable-pure P tt)))

    check-Leads :
        (order_id : ℕ) (rows : OrderRow × CheckoutSessionRow)
        → get_order order_id before ≡ some rows.0
        → get_checkout order_id before ≡ some rows.1
        → Leads P Q (check_evidence env settings stripe event order_id session_id rows)
    unfolding check_evidence
    check-Leads order_id (order, checkout) o c =
        Leads-lift P Q unpaid (stripe.retrieve session_id) _ λ evidence r.
          Leads-if P Q unpaid (not (str_eq evidence.session_id session_id)) _ _
            (λ _. attention-Leads event.event_id _)
            (λ _.
              Leads-if P Q unpaid
                (not (
                  is_none
                    (binding_mismatch evidence order checkout settings.stripe_expected_livemode)))
                _ _ (λ _. attention-Leads event.event_id _)
                (λ b. settle-Leads order_id evidence order checkout r o c (ground (arith, b))))

    failed-Leads :
        (order_id : ℕ) (e : Error)
        → Leads P Q (with_order env settings stripe event order_id session_id (err e))
    unfolding with_order
    failed-Leads order_id (persistence_unavailable _) = attention-Leads event.event_id _
    failed-Leads order_id e = Leads-Stable P Q unpaid _ (Stable-raise P _ e)

    loaded-Leads :
        (order_id : ℕ) (s : Store) (rows : OrderRow × CheckoutSessionRow)
        → P s
        → (load_order_and_checkout order_id s).0 ≡ ok rows
        → Leads P Q (with_order env settings stripe event order_id session_id (ok rows))
    unfolding with_order
    loaded-Leads order_id s rows p e =
        let (o, c) = load_rows order_id s rows e in
        let (same_o, same_c) = rows_before before order_id s p in
        check-Leads order_id rows (sym same_o ∙ o) (sym same_c ∙ c)

  correlate-Leads :
      (signature : String) (event : StripeEventEnvelope) (order : Option ℕ)
      (session : Option String)
      → stripe.verify raw_body signature ≡ ok event
      → Leads P Q (correlate env settings stripe event order session)
  unfolding correlate
  correlate-Leads signature event (some order_id) (some session_id) v =
      Leads-if P Q unpaid (str_eq session_id "") _ _ (λ _. attention-Leads event.event_id _)
        (λ _.
          Leads-catch P Q unpaid env _ (λ _ _. load_order_and_checkout order_id) _
            (λ _ _ s. load_same order_id s) (failed-Leads signature session_id event v order_id)
            (λ _ _ s rows p e. loaded-Leads signature session_id event v order_id s rows p e))
  correlate-Leads signature event _ _ v = attention-Leads event.event_id _

  handle_event-Leads :
      (signature : String) (event : StripeEventEnvelope)
      → stripe.verify raw_body signature ≡ ok event
      → Leads P Q (handle_event env settings stripe event)
  unfolding handle_event
  handle_event-Leads signature event v =
      Leads-if P Q unpaid
        (not (is_none event.api_version)
          && not (opt_eq str_eq event.api_version (some settings.stripe_api_version)))
        _ _ (λ _. attention-Leads event.event_id _)
        (λ _.
          Leads-if P Q unpaid (not (bool_eq event.livemode settings.stripe_expected_livemode)) _ _
            (λ _. attention-Leads event.event_id _)
            (λ _.
              Leads-if P Q unpaid (is_unsupported event.event_type) _ _
                (λ _. ignored-Leads event.event_id _)
                (λ _.
                  Leads-bind P Q unpaid _ _
                    (apart before env _ _ λ _ _ s. get_event_state_orders event.event_id s)
                    λ state.
                      Leads-if P Q unpaid (is_closed state) _ _
                        (λ _. Leads-Stable P Q unpaid _ (Stable-pure P tt))
                        (λ _.
                          correlate-Leads signature event
                            (candidate env settings stripe event.candidate_order_id)
                            event.checkout_session_id v))))

  verified-Leads :
      (signature : Option String) (event : StripeEventEnvelope)
      → verified env settings stripe raw_body signature ≡ ok event
      → Leads P Q (handle_event env settings stripe event)
  unfolding verified
  verified-Leads none event h = ground arith
  verified-Leads (some signature) event h = handle_event-Leads signature event (ground (arith, h))

  handle-Leads :
      (signature : Option String) → Leads P Q (handle env settings stripe raw_body signature)
  unfolding handle
  handle-Leads signature = Leads-then P Q unpaid _ _ (Stable-raise_if P _ _) (
      Leads-lift P Q unpaid (verified env settings stripe raw_body signature) _ λ event v.
        Leads-then P Q unpaid _ _
          (apart before env _ _ λ now _ s. record_orders now event (stripe.sha256 raw_body) s)
          (verified-Leads signature event v))

-- A request to the handler leaves the order `k` as it was, or takes it from awaiting its payment to
-- paid or expired on a signed event and on a session, retrieved from Stripe, that is bound to the
-- order and its session row and that says so.
pub handle-Settlement :
    (env : Env) (settings : WebhookSettings) (stripe : Stripe) (raw_body : List ℕ)
    (signature : Option String) (k : ℕ) (w : World)
    → Settlement settings stripe raw_body k w.store
        (handle env settings stripe raw_body signature w).1.store
unfolding Leads IsApart
handle-Settlement env settings stripe raw_body signature k w =
    handle-Leads env settings stripe raw_body k w.store signature w (refl, refl)
