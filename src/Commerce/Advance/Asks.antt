-- ===== src/Commerce/Advance/Asks.antt =====
-- The calls at the providers that change something, which the driver makes (fulfillment_runtime.py).
use sitescore.Common.{
  ℕ, Bool, true, false, String, Option, none, some, List, [], ◌∷◌, ◌++◌, ◌≡◌, ◌≢◌, refl, sym, subst,
  ◌∙◌, ap, arith, if◌then◌else◌,
}
use sitescore.Common.Action.{Action, Result, ok, err, lift, calls, ◌>>=◌, ◌>>◌}
use sitescore.Commerce.Contracts.{FulfillmentState}
use sitescore.Commerce.Rows.{OrderRow, CheckoutSessionRow, Reason}
use sitescore.Commerce.Evidence.{AnalysisOperation, RefundEvidence, RefundOperation}
use sitescore.Commerce.Session.{World, Env, Call, submitted, refund_created}
use sitescore.Commerce.Fulfillment.{FulfillmentSettings}
use sitescore.Commerce.RefundPlan.{
  RefundPlan, attend, adopt, adopt_external, create, refund_plan, validate_refund_for_operation,
}
use sitescore.Commerce.RefundPlan.Choice.{refund_plan-create}
use sitescore.Commerce.Calls.{
  Sends, Quiet, pure-Quiet, raise-Quiet, lift-Quiet, require-Quiet, raise_if-Quiet, send-Sends,
  transaction-Quiet, after_bind, after_then, bind-Sends, then-Sends, catch-Sends,
}
use sitescore.Commerce.Advance.{
  Gateways, on_invariant, status, bound, ensure_analysis, reconcile_bound, reconcile_analysis,
  report_bound, ensure_report, reprove_eligibility, attention, bind, follow, refund_payment,
  pay_back, ensure_refund, pending_analysis, step, advance,
}

on_invariant-Quiet :
    (h : Action World (Unit {0})) (r : Result (Unit {0})) → Quiet h → Quiet (on_invariant h r)
unfolding Sends calls
on_invariant-Quiet h (err e) q w = ground (arith, q w)
on_invariant-Quiet h (ok _) q w = refl

-- What is sent for the refunds that are listed.
abbrev pub due : RefundOperation → List RefundEvidence → List Call
due operation [] = refund_created operation ∷ []
due operation (_ ∷ _) = []

module _ (env : Env) (settings : FulfillmentSettings) (gateways : Gateways) where
  attention-Quiet :
      (order_id : ℕ) (code : String) (b : Bool)
      → Quiet (attention env settings gateways order_id code b)
  unfolding attention
  attention-Quiet order_id code b = transaction-Quiet env _ _

  bind-Quiet :
      (operation : RefundOperation) (evidence : RefundEvidence) (full : Bool)
      → Quiet (bind env settings gateways operation evidence full)
  unfolding bind
  bind-Quiet operation evidence full = transaction-Quiet env _ _

  -- A refund of the provider's that is checked and then bound.
  adopt-Quiet :
      (operation : RefundOperation) (evidence : RefundEvidence)
      → Quiet (
          lift (validate_refund_for_operation evidence operation)
          >> bind env settings gateways operation evidence false)
  adopt-Quiet operation evidence =
      then-Sends [] _ _ (lift-Quiet _) (bind-Quiet operation evidence false)

  -- What a plan sends.
  asked : RefundOperation → RefundPlan → List Call
  asked operation create = refund_created operation ∷ []
  asked operation _ = []

  follow-Sends :
      (order_id : ℕ) (operation : RefundOperation) (plan : RefundPlan)
      → Sends (asked operation plan) (follow env settings gateways order_id operation plan)
  unfolding follow asked
  follow-Sends order_id operation (attend code) = attention-Quiet order_id code true
  follow-Sends order_id operation (adopt evidence) =
      catch-Sends [] _ _ (adopt-Quiet operation evidence)
        λ r. on_invariant-Quiet _ r (attention-Quiet order_id "matching_refund_conflict" true)
  follow-Sends order_id operation (adopt_external evidence) = bind-Quiet operation evidence true
  follow-Sends order_id operation create =
      catch-Sends (refund_created operation ∷ []) _ _
        (then-Sends _ _ _ (send-Sends (refund_created operation)) (
          bind-Sends [] _ _ (lift-Quiet (gateways.create_refund operation))
            λ evidence. adopt-Quiet operation evidence))
        λ r.
          on_invariant-Quiet _ r (attention-Quiet order_id "refund_provider_binding_mismatch" true)

  asked_none :
      (operation : RefundOperation) (plan : RefundPlan) → plan ≢ create → asked operation plan ≡ []
  unfolding asked
  asked_none operation (attend code) h = refl
  asked_none operation (adopt evidence) h = refl
  asked_none operation (adopt_external evidence) h = refl
  asked_none operation create h = ground (arith, h)

  plan_asks :
      (operation : RefundOperation) (refunds : List RefundEvidence)
      → asked operation (refund_plan operation refunds) ≡ due operation refunds
  unfolding asked
  plan_asks operation [] = ap (asked operation) ((refund_plan-create operation []).1 refl)
  plan_asks operation (r ∷ rs) =
      asked_none operation _ λ (e : refund_plan operation (r ∷ rs) ≡ create).
        ground (arith, (refund_plan-create operation (r ∷ rs)).0 e)

  -- Acting on the refunds that the provider lists for a payment asks for one refund, that of the
  -- operation, if none is listed, and for none otherwise, whatever the provider and the database
  -- answer.
  pub follow-asks :
      (order_id : ℕ) (operation : RefundOperation) (refunds : List RefundEvidence) (w : World)
      → (follow env settings gateways order_id operation (refund_plan operation refunds) w).1.calls
        ≡ due operation refunds ++ w.calls
  unfolding Sends
  follow-asks order_id operation refunds w =
      follow-Sends order_id operation (refund_plan operation refunds) w
      ∙ ap (λ cs. cs ++ w.calls) (plan_asks operation refunds)

  -- The calls before and after: the same, or one more, which submits an analysis, or asks for a refund
  -- of a payment for which the provider lists none.
  pub data IsAsked (before after : List Call) : Type 0 where
    nothing : after ≡ before → IsAsked before after
    analysis :
        (operation : AnalysisOperation)
        → after ≡ submitted operation ∷ before
        → IsAsked before after
    refund :
        (operation : RefundOperation)
        → gateways.list_refunds operation.stripe_payment_intent_id ≡ ok []
        → after ≡ refund_created operation ∷ before
        → IsAsked before after

  Asking : {A : Type 0} → Action World A → Type 0
  Asking m = (w : World) → IsAsked w.calls (m w).1.calls

  Quiet-Asking : {A : Type 0} (m : Action World A) → Quiet m → Asking m
  unfolding Sends Asking
  Quiet-Asking m h w = nothing (h w)

  -- A quiet call and then one that may ask, and the other way round.
  before_Asking :
      {A B : Type 0} (m : Action World A) (f : A → Action World B)
      → Quiet m
      → ((a : A) → Asking (f a))
      → Asking (m >>= f)
  unfolding Sends Asking
  before_Asking m f h g w =
      after_bind (IsAsked w.calls) m f w (nothing (h w))
        λ a _. subst (λ c. IsAsked c (f a (m w).1).1.calls) (h w) (g a (m w).1)

  then_Asking :
      {A B : Type 0} (m : Action World A) (k : Action World B)
      → Quiet m
      → Asking k
      → Asking (m >> k)
  unfolding Sends Asking
  then_Asking m k h g w =
      after_then (IsAsked w.calls) m k w (nothing (h w))
        (subst (λ c. IsAsked c (k (m w).1).1.calls) (h w) (g (m w).1))

  after_Asking :
      {A B : Type 0} (m : Action World A) (k : Action World B)
      → Asking m
      → Quiet k
      → Asking (m >> k)
  unfolding Sends Asking
  after_Asking m k h g w =
      after_then (IsAsked w.calls) m k w (h w) (subst (IsAsked w.calls) (sym (g (m w).1)) (h w))

  known_Asking :
      {A B : Type 0} (r : Result A) (f : A → Action World B)
      → ((a : A) → r ≡ ok a → Asking (f a))
      → Asking (lift r >>= f)
  unfolding Asking calls
  known_Asking r f h w = after_bind (IsAsked w.calls) (lift r) f w (nothing refl) λ a e. h a e w

  if_Asking :
      {A : Type 0} (b : Bool) (m k : Action World A)
      → Asking m
      → Asking k
      → Asking (if b then m else k)
  if_Asking true m k h g = h
  if_Asking false m k h g = g

  due_Asked :
      (operation : RefundOperation) (refunds : List RefundEvidence) (c d : List Call)
      → gateways.list_refunds operation.stripe_payment_intent_id ≡ ok refunds
      → d ≡ due operation refunds ++ c
      → IsAsked c d
  due_Asked operation [] c d h e = refund operation h e
  due_Asked operation (r ∷ rs) c d h e = nothing e

  refund_payment-Asking :
      (order_id : ℕ) (order : OrderRow) (checkout : CheckoutSessionRow) (id : String)
      → Asking (refund_payment env settings gateways order_id order checkout id)
  unfolding refund_payment Asking
  refund_payment-Asking order_id order checkout id =
      known_Asking (gateways.retrieve_payment_intent id) _ λ payment_intent _.
        if_Asking _ _ _ (Quiet-Asking _ (attention-Quiet order_id _ false)) (
          before_Asking _ _ (transaction-Quiet env _ _) λ operation.
            known_Asking (gateways.list_refunds operation.stripe_payment_intent_id) _
              λ refunds e. followed operation refunds e)
    where
      followed :
          (operation : RefundOperation) (refunds : List RefundEvidence)
          → gateways.list_refunds operation.stripe_payment_intent_id ≡ ok refunds
          → Asking (follow env settings gateways order_id operation (refund_plan operation refunds))
      followed operation refunds e w =
          due_Asked operation refunds _ _ e (follow-asks order_id operation refunds w)

  pay_back-Asking :
      (order_id : ℕ) (order : OrderRow) (checkout : CheckoutSessionRow) (id : Option String)
      → Asking (pay_back env settings gateways order_id order checkout id)
  unfolding pay_back
  pay_back-Asking order_id order checkout none = Quiet-Asking _ (attention-Quiet order_id _ false)
  pay_back-Asking order_id order checkout (some id) =
      refund_payment-Asking order_id order checkout id

  reprove-Quiet :
      (order_id : ℕ) (reason : Reason)
      → Quiet (reprove_eligibility env settings gateways order_id reason)
  unfolding reprove_eligibility bound
  reprove-Quiet order_id reason =
      bind-Sends [] _ _ (transaction-Quiet env _ _)
        λ operation. bind-Sends [] _ _ (require-Quiet operation _) λ operation'. lift-Quiet _

  ensure_refund-Asking :
      (order_id : ℕ) (reason : Reason)
      → Asking (ensure_refund env settings gateways order_id reason)
  unfolding ensure_refund
  ensure_refund-Asking order_id reason =
      before_Asking _ _ (reprove-Quiet order_id reason) λ resource_id.
        then_Asking _ _ (transaction-Quiet env _ _) (
          before_Asking _ _ (transaction-Quiet env _ _) λ (order, checkout).
            pay_back-Asking order_id order checkout checkout.stripe_payment_intent_id)

  submission-Asking :
      {A : Type 0} (operation : AnalysisOperation) (m : Action World A)
      → Sends (submitted operation ∷ []) m
      → Asking m
  unfolding Sends Asking
  submission-Asking operation m h w = analysis operation (h w)

  ensure_analysis-Asking : (order_id : ℕ) → Asking (ensure_analysis env settings gateways order_id)
  unfolding ensure_analysis
  ensure_analysis-Asking order_id = before_Asking _ _ (transaction-Quiet env _ _) λ operation.
      submission-Asking operation _ (
        then-Sends _ _ _ (send-Sends (submitted operation)) (
          bind-Sends [] _ _ (lift-Quiet _)
            λ evidence. then-Sends [] _ _ (transaction-Quiet env _ _) (pure-Quiet tt)))

  reconcile_bound-Quiet :
      (order_id : ℕ) (o : Option AnalysisOperation)
      → Quiet (reconcile_bound env settings gateways order_id o)
  unfolding reconcile_bound
  reconcile_bound-Quiet order_id none = raise-Quiet _ _
  reconcile_bound-Quiet order_id (some operation) =
      bind-Sends [] _ _ (require-Quiet operation.analysis_id _) λ analysis_id.
        bind-Sends [] _ _ (lift-Quiet _)
          λ evidence. then-Sends [] _ _ (transaction-Quiet env _ _) (pure-Quiet tt)

  reconcile-Quiet : (order_id : ℕ) → Quiet (reconcile_analysis env settings gateways order_id)
  unfolding reconcile_analysis bound
  reconcile-Quiet order_id =
      bind-Sends [] _ _ (transaction-Quiet env _ _) (reconcile_bound-Quiet order_id)

  report_bound-Quiet :
      (order_id : ℕ) (o : Option AnalysisOperation)
      → Quiet (report_bound env settings gateways order_id o)
  unfolding report_bound
  report_bound-Quiet order_id none = raise-Quiet _ _
  report_bound-Quiet order_id (some operation) =
      bind-Sends [] _ _ (require-Quiet operation.analysis_id _) λ analysis_id.
        then-Sends [] _ _ (raise_if-Quiet _ _) (
          bind-Sends [] _ _ (lift-Quiet _)
            λ evidence. then-Sends [] _ _ (transaction-Quiet env _ _) (pure-Quiet tt))

  report-Quiet : (order_id : ℕ) → Quiet (ensure_report env settings gateways order_id)
  unfolding ensure_report bound
  report-Quiet order_id =
      bind-Sends [] _ _ (transaction-Quiet env _ _) (report_bound-Quiet order_id)

  pending-Asking :
      (order_id : ℕ) (o : Option AnalysisOperation)
      → Asking (pending_analysis env settings gateways order_id o)
  unfolding pending_analysis
  pending-Asking order_id none = ensure_analysis-Asking order_id
  pending-Asking order_id (some operation) =
      if_Asking _ _ _ (ensure_analysis-Asking order_id) (Quiet-Asking _ (reconcile-Quiet order_id))

  step-Asking :
      (order_id : ℕ) (f : FulfillmentState) → Asking (step env settings gateways order_id f)
  unfolding step bound
  step-Asking order_id FulfillmentState.not_started = ensure_analysis-Asking order_id
  step-Asking order_id FulfillmentState.analysis_pending =
      before_Asking _ _ (transaction-Quiet env _ _) (pending-Asking order_id)
  step-Asking order_id FulfillmentState.analysis_running = Quiet-Asking _ (reconcile-Quiet order_id)
  step-Asking order_id FulfillmentState.report_pending = Quiet-Asking _ (report-Quiet order_id)
  step-Asking order_id FulfillmentState.not_score_ready = ensure_refund-Asking order_id _
  step-Asking order_id FulfillmentState.analysis_failed = ensure_refund-Asking order_id _
  step-Asking order_id FulfillmentState.analysis_timed_out = ensure_refund-Asking order_id _
  step-Asking order_id FulfillmentState.report_failed = ensure_refund-Asking order_id _
  step-Asking order_id _ = Quiet-Asking _ (pure-Quiet tt)

  advance-Asking : (order_id : ℕ) → Asking (advance env settings gateways order_id)
  unfolding advance status
  advance-Asking order_id = before_Asking _ _ (transaction-Quiet env _ _) λ s.
      if_Asking _ _ _ (Quiet-Asking _ (pure-Quiet s))
        (after_Asking _ _ (step-Asking order_id s.fulfillment_state) (transaction-Quiet env _ _))

  -- A call of the driver makes at most one request that changes something at a provider: it submits
  -- an analysis, or asks for a refund of a payment for which the provider lists no refund.
  pub advance-IsAsked :
      (order_id : ℕ) (w : World)
      → IsAsked w.calls (advance env settings gateways order_id w).1.calls
  unfolding Asking
  advance-IsAsked order_id w = advance-Asking order_id w
