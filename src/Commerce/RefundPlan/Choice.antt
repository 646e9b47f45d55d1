-- ===== src/Commerce/RefundPlan/Choice.antt =====
-- The choice that _ensure_refund makes from the refunds that the provider lists
-- (fulfillment_runtime.py).
use sitescore.Common.{◌≡◌, refl, ◌↔◌, List, [], ◌∷◌, filter_by, arith}
use sitescore.Commerce.Evidence.{RefundEvidence, RefundOperation}
use sitescore.Commerce.RefundPlan.{
  create, refund_plan, plan_matching, plan_unmatched, is_matching_refund,
}

unmatched_create :
    (operation : RefundOperation) (refunds : List RefundEvidence)
    → plan_unmatched operation refunds ≡ create
    → refunds ≡ []
unfolding plan_unmatched
unmatched_create operation [] h = refl
unmatched_create operation (r ∷ []) h = ground arith
unmatched_create operation (r ∷ r' ∷ rs) h = ground arith

matching_create :
    (operation : RefundOperation) (refunds matches : List RefundEvidence)
    → plan_matching operation refunds matches ≡ create
    → refunds ≡ []
unfolding plan_matching
matching_create operation refunds [] h = unmatched_create operation refunds h
matching_create operation refunds (m ∷ []) h = ground arith
matching_create operation refunds (m ∷ m' ∷ ms) h = ground arith

-- The plan is to create a refund exactly if none is listed.
pub refund_plan-create :
    (operation : RefundOperation) (refunds : List RefundEvidence)
    → (refund_plan operation refunds ≡ create) ↔ (refunds ≡ [])
unfolding refund_plan plan_matching plan_unmatched
refund_plan-create operation refunds = (
  matching_create operation refunds (filter_by (is_matching_refund operation) refunds),
  λ e. rw e refl,
)
