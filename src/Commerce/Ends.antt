-- ===== src/Commerce/Ends.antt =====
-- Rules for what holds of the answer of a request and of the store that it leaves.
use sitescore.Common.{ℕ, ◌+◌, Bool, true, false, String, ◌≡◌, refl, subst, arith, if◌then◌else◌}
use sitescore.Commerce.Rows.{Store}
use sitescore.Common.Action.{
  Action, Error, persistence_unavailable, Result, ok, err, lift, raise_if, pure, ◌>>=◌, ◌>>◌, calls,
}
use sitescore.Commerce.Session.{World, Env, transaction, commit}

-- Where `m` begins on a store that satisfies `P` and gives a value, `Q` holds of the value and of the
-- store that is left.
unfoldable pub Ends :
    (Store → Type 0) → {A : Type 0} → Action World A → (A → Store → Type 0) → Type 0
Ends P {A = A} m Q = (w : World) → P w.store → (a : A) → (m w).0 ≡ ok a → Q a (m w).1.store

module _ (P : Store → Type 0) {A B : Type 0} (Q : A → Store → Type 0) (R : B → Store → Type 0) where
  pub bind-Ends :
      (m : Action World A) (f : A → Action World B)
      → Ends P m Q
      → ((a : A) → Ends (Q a) (f a) R)
      → Ends P (m >>= f) R
  unfolding Ends calls
  bind-Ends m f h g w p = at (m w).0 (h w p)
    where
      at :
          (r : Result A)
          → ((a : A) → r ≡ ok a → Q a (m w).1.store)
          → (b : B) → ((lift r >>= f) (m w).1).0 ≡ ok b
          → R b ((lift r >>= f) (m w).1).1.store
      at (ok a) q b e = g a (m w).1 (q a refl) b e
      at (err x) q b e = ground arith

module _ (P : Store → Type 0) {B : Type 0} (R : B → Store → Type 0) where
  -- A value that is read from no store.
  pub lift-Ends :
      {A : Type 0} (r : Result A) (f : A → Action World B)
      → ((a : A) → r ≡ ok a → Ends P (f a) R)
      → Ends P (lift r >>= f) R
  unfolding Ends calls
  lift-Ends (ok a) f h w p = h a refl w p
  lift-Ends (err x) f h w p = λ b e. ground arith

  pub raise_if-Ends :
      (b : Bool) (x : Error) (k : Action World B)
      → (b ≡ false → Ends P k R)
      → Ends P (raise_if b x >> k) R
  unfolding Ends calls
  raise_if-Ends true x k h w p = λ c e. ground arith
  raise_if-Ends false x k h w p = h refl w p

module _ (P : Store → Type 0) {A : Type 0} (Q : A → Store → Type 0) where
  commit_ends :
      (w : World) (r : Result A × Store)
      → ((a : A) → r.0 ≡ ok a → Q a r.1)
      → (a : A) → (commit w r).0 ≡ ok a
      → Q a (commit w r).1.store
  unfolding commit
  commit_ends w (ok b, s) h a e = h a e
  commit_ends w (err x, s) h a e = ground arith

  pub transaction-Ends :
      (env : Env) (message : String) (body : ℕ → ℕ → Action Store A)
      → ((now fresh : ℕ) (s : Store)
          → P s
          → (a : A) → (body now fresh s).0 ≡ ok a
          → Q a (body now fresh s).1)
      → Ends P (transaction env message body) Q
  unfolding Ends transaction
  transaction-Ends env message body h w p =
      let t = w.transactions in
      let w' : World = record w { transactions = t + 1 } in
      let r = body (env.now t) (env.fresh t) w.store in
      let m =
        λ (b : Bool). (if b then commit w' r else (err (persistence_unavailable message), w')) in
      elim (env.reachable t) as (λ b. (a : A) → (m b).0 ≡ ok a → Q a (m b).1.store) [
        | true ↦ commit_ends w' r (h (env.now t) (env.fresh t) w.store p)
        | false ↦ λ a e. unreached w' (persistence_unavailable message) a e
      ]
    where
      unreached : (v : World) (x : Error) (a : A) → err x ≡ ok a → Q a v.store
      unreached v x a e = ground arith

pub pure-Ends : {A : Type 0} (Q : A → Store → Type 0) (a : A) → Ends (Q a) (pure a) Q
unfolding Ends calls
pure-Ends Q a w p b e = subst (λ x. Q x w.store) (same a b e) p
  where
    same : {A : Type 0} (a b : A) → ok a ≡ ok b → a ≡ b
    same a b h = ground arith
