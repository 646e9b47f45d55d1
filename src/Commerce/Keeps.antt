-- ===== src/Commerce/Keeps.antt =====
-- Rules for what holds of the store that a transaction leaves. `s₀` is the store at its beginning,
-- to which an exception returns, and `s` the store reached so far.
use sitescore.Common.{Bool, true, false, ◌≡◌, refl, Option, none, some, if◌then◌else◌}
use sitescore.Commerce.Rows.{Store}
use sitescore.Commerce.Tables.{select_or}
use sitescore.Common.Action.{
  Action, Error, Result, ok, err, require, lift, raise, raise_if, ◌>>=◌, ◌>>◌, pure, modify, gets,
  calls,
}

-- What a transaction leaves: what it wrote, unless it raised.
unfoldable pub kept : {A : Type 0} → Store → Result A × Store → Store
kept s (ok _, s') = s'
kept s (err _, _) = s

module _ (P : Store → Type 0) (s₀ s : Store) (base : P s₀) where
  -- A row that is selected, with the exception for its absence.
  pub kept_select :
      {A B : Type 0} (o : Store → Option A) (e : Error) (f : A → Action Store B)
      → ((a : A) → o s ≡ some a → P (kept s₀ (f a s)))
      → P (kept s₀ ((select_or o e >>= f) s))
  unfolding kept calls select_or
  kept_select o e f h =
      elim (o s)
          as (λ r.
            ((a : _) → r ≡ some a → P (kept s₀ (f a s))) → P (kept s₀ ((require r e >>= f) s))) [
              | none ↦ λ _. base
              | some a ↦ λ g. g a refl
            ]
        h

  pub kept-lift :
      {A B : Type 0} (r : Result A) (f : A → Action Store B)
      → ((a : A) → r ≡ ok a → P (kept s₀ (f a s)))
      → P (kept s₀ ((lift r >>= f) s))
  unfolding kept calls
  kept-lift (ok a) f h = h a refl
  kept-lift (err e) f h = base

  pub kept_guard :
      {A B : Type 0} (r : Result A) (k : Action Store B)
      → P (kept s₀ (k s))
      → P (kept s₀ ((lift r >> k) s))
  unfolding kept calls
  kept_guard (ok a) k h = h
  kept_guard (err e) k h = base

  -- A check that raises.
  pub kept-raise_if :
      {B : Type 0} (b : Bool) (e : Error) (k : Action Store B)
      → (b ≡ false → P (kept s₀ (k s)))
      → P (kept s₀ ((raise_if b e >> k) s))
  unfolding kept calls
  kept-raise_if true e k h = base
  kept-raise_if false e k h = h refl

  pub kept-raise : (B : Type 0) (e : Error) → P (kept {A = B} s₀ (raise e s))
  unfolding kept calls
  kept-raise B e = base

  -- Any step before the rest.
  pub kept_step :
      {A B : Type 0} (m : Action Store A) (k : A → Action Store B)
      → ((a : A) → (m s).0 ≡ ok a → P (kept s₀ (k a (m s).1)))
      → P (kept s₀ ((m >>= k) s))
  unfolding kept calls
  kept_step {B = B} m k h =
      elim (m s).0
          as (λ r.
            ((a : _) → r ≡ ok a → P (kept s₀ (k a (m s).1)))
            → P (kept {A = B} s₀ (elim r [ ok a ↦ k a (m s).1 | err e ↦ (err e, (m s).1) ]))) [
              | ok a ↦ λ g. g a refl
              | err e ↦ λ _. base
            ]
        h

  pub kept_result : {B : Type 0} (r : Result B) → P s → P (kept s₀ (lift r s))
  unfolding kept calls
  kept_result (ok b) h = h
  kept_result (err e) h = base

  -- A check that ends the transaction.
  pub kept_check : (b : Bool) (e : Error) → (b ≡ false → P s) → P (kept s₀ (raise_if b e s))
  unfolding kept calls
  kept_check true e h = base
  kept_check false e h = h refl

module _ (P : Store → Type 0) (s₀ s : Store) where
  -- The transaction ends, with a value or after its last write.
  pub kept-pure : {B : Type 0} (b : B) → P s → P (kept s₀ (pure b s))
  unfolding kept calls
  kept-pure b h = h

  pub kept-modify : (f : Store → Store) → P (f s) → P (kept s₀ (modify f s))
  unfolding kept calls
  kept-modify f h = h

  -- A write, or a read, before the rest.
  pub kept_write :
      {B : Type 0} (f : Store → Store) (k : Action Store B)
      → P (kept s₀ (k (f s)))
      → P (kept s₀ ((modify f >> k) s))
  unfolding kept calls
  kept_write f k h = h

  pub kept-gets :
      {A B : Type 0} (f : Store → A) (k : A → Action Store B)
      → P (kept s₀ (k (f s) s))
      → P (kept s₀ ((gets f >>= k) s))
  unfolding kept calls
  kept-gets f k h = h

  pub kept_if :
      {B : Type 0} (b : Bool) (m k : Action Store B)
      → (b ≡ true → P (kept s₀ (m s)))
      → (b ≡ false → P (kept s₀ (k s)))
      → P (kept s₀ ((if b then m else k) s))
  unfolding kept calls
  kept_if true m k h g = h refl
  kept_if false m k h g = g refl

-- The store of a step, whether or not it raised.
module _ (P : Store → Type 0) (s : Store) where
  pub left_require :
      {A B : Type 0} (r : Option A) (e : Error) (f : A → Action Store B)
      → P s
      → ((a : A) → r ≡ some a → P (f a s).1)
      → P ((require r e >>= f) s).1
  unfolding calls
  left_require none e f base h = base
  left_require (some a) e f base h = h a refl

  pub left_lift :
      {A B : Type 0} (r : Result A) (f : A → Action Store B)
      → P s
      → ((a : A) → r ≡ ok a → P (f a s).1)
      → P ((lift r >>= f) s).1
  unfolding calls
  left_lift (ok a) f base h = h a refl
  left_lift (err e) f base h = base

  pub left_modify :
      {B : Type 0} (f : Store → Store) (b : B) → P (f s) → P ((modify f >> pure b) s).1
  unfolding calls
  left_modify f b h = h

  pub left_pure : {B : Type 0} (b : B) → P s → P ((pure b) s).1
  unfolding calls
  left_pure b h = h
