-- ===== src/Common/Action.antt =====
-- Calls that may raise and that change a state: what one raises, and how calls follow one another.
use Prim.Native.String.{String}
use mathlib.Core.Bool.{Bool, true, false}
use mathlib.Core.Option.{Option, none, some}

-- The exceptions of the services, with their texts.
pub data Error : Type 0 where
  persistence_unavailable idempotency_conflict event_identity_conflict checkout_invariant :
      String → Error
  fulfillment_invariant fulfillment_not_found runtime_error : String → Error
  payment_provider_unavailable refund_provider_unavailable : Error
  sitescore_provider_unavailable : String → Bool → Error
  webhook_body_too_large webhook_verification : String → Error
  dispatch_transport dispatch_rejected checkout_provider_unavailable : Error
  invalid_idempotency_key : String → Error
  idempotency_key_required analysis_not_found integrity_error broker_failed : Error
  database_error session_unavailable execution_error report_invariant_violation : Error
  value_error type_error retryable_report_finalization : String → Error
  authentication_required invalid_api_key insufficient_scope : Error
  report_not_found report_not_yet_reportable analysis_not_reportable : Error
  report_content_unavailable report_artifact_integrity report_storage_error : Error

pub data Result {ℓ} (A : Type ℓ) : Type ℓ where
  ok : A → Result A
  err : Error → Result A

-- How a transaction that raises nothing ends.
pub data Ending {ℓ} (A : Type ℓ) : Type ℓ where
  commits rolls_back : A → Ending A

-- A call that reads and changes a state `S`. After an exception the state reached is kept.
abbrev pub Action : Type 0 → Type 0 → Type 0
Action S A = S → Result A × S

module _ {S A : Type 0} where
  unfoldable pub pure : A → Action S A
  pure a s = (ok a, s)

  unfoldable pub raise : Error → Action S A
  raise e s = (err e, s)

  -- A value that may be missing, with the exception for that case.
  unfoldable pub require : Option A → Error → Action S A
  require none e s = (err e, s)
  require (some a) e s = (ok a, s)

  unfoldable pub lift : Result A → Action S A
  lift r s = (r, s)

  unfoldable pub gets : (S → A) → Action S A
  gets f s = (ok (f s), s)

unfoldable pub raise_if : {S : Type 0} → Bool → Error → Action S (Unit {0})
raise_if true e s = (err e, s)
raise_if false e s = (ok tt, s)

unfoldable pub modify : {S : Type 0} → (S → S) → Action S (Unit {0})
modify f s = (ok tt, f s)

infixl 5 ◌>>=◌ ◌>>◌
unfoldable pub ◌>>=◌ : {S A B : Type 0} → Action S A → (A → Action S B) → Action S B
◌>>=◌ m f s = let (r, s') = m s in elim r [ ok a ↦ f a s' | err e ↦ (err e, s') ]

unfoldable pub ◌>>◌ : {S A B : Type 0} → Action S A → Action S B → Action S B
◌>>◌ m k s = let (r, s') = m s in elim r [ ok _ ↦ k s' | err e ↦ (err e, s') ]

-- What the calls and their sequence compute to, by one name for `unfolding` lines.
unfoldable pub calls : Unit {0}
unfolding pure raise require lift gets raise_if modify ◌>>=◌ ◌>>◌
calls = tt
