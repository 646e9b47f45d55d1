-- ===== src/Commerce/Leads.antt =====
-- Rules for a request whose last transaction takes the store from `P` to `Q`.
use sitescore.Common.{ℕ, ◌+◌, Bool, true, false, String, ◌≡◌, refl, if◌then◌else◌}
use sitescore.Commerce.Rows.{Store}
use sitescore.Common.Action.{
  Action, Error, persistence_unavailable, Result, ok, err, lift, ◌>>=◌, ◌>>◌, calls,
}
use sitescore.Commerce.Session.{World, Env, transaction, commit, catch}
use sitescore.Commerce.Keeps.{kept}
use sitescore.Commerce.Stable.{Stable}

unfoldable pub Leads : (Store → Type 0) → (Store → Type 0) → {A : Type 0} → Action World A → Type 0
Leads P Q m = (w : World) → P w.store → Q (m w).1.store

module _ (P Q : Store → Type 0) (weaken : (s : Store) → P s → Q s) where
  pub Leads-Stable : {A : Type 0} (m : Action World A) → Stable P m → Leads P Q m
  unfolding Stable Leads
  Leads-Stable m h w p = weaken _ (h w p)

  then_led :
      {A B : Type 0} (r : Result A) (k : Action World B) (w : World)
      → P w.store
      → Leads P Q k
      → Q ((lift r >> k) w).1.store
  unfolding calls Leads
  then_led (ok a) k w p h = h w p
  then_led (err e) k w p h = weaken w.store p

  pub Leads-then :
      {A B : Type 0} (m : Action World A) (k : Action World B)
      → Stable P m
      → Leads P Q k
      → Leads P Q (m >> k)
  unfolding Stable Leads calls
  Leads-then m k h g w p = then_led (m w).0 k (m w).1 (h w p) g

  pub Leads-lift :
      {A B : Type 0} (r : Result A) (f : A → Action World B)
      → ((a : A) → r ≡ ok a → Leads P Q (f a))
      → Leads P Q (lift r >>= f)
  unfolding calls Leads
  Leads-lift (ok a) f h w p = h a refl w p
  Leads-lift (err e) f h w p = weaken w.store p

  bind_led :
      {A B : Type 0} (r : Result A) (f : A → Action World B) (w : World)
      → P w.store
      → ((a : A) → Leads P Q (f a))
      → Q ((lift r >>= f) w).1.store
  unfolding calls Leads
  bind_led (ok a) f w p h = h a w p
  bind_led (err e) f w p h = weaken w.store p

  pub Leads-bind :
      {A B : Type 0} (m : Action World A) (f : A → Action World B)
      → Stable P m
      → ((a : A) → Leads P Q (f a))
      → Leads P Q (m >>= f)
  unfolding Stable Leads calls
  Leads-bind m f h g w p = bind_led (m w).0 f (m w).1 (h w p) g

  pub Leads-if :
      {A : Type 0} (b : Bool) (m k : Action World A)
      → (b ≡ true → Leads P Q m)
      → (b ≡ false → Leads P Q k)
      → Leads P Q (if b then m else k)
  Leads-if true m k h g = h refl
  Leads-if false m k h g = g refl

  commit_led :
      {A : Type 0} (w : World) (r : Result A × Store) → Q (kept w.store r) → Q (commit w r).1.store
  unfolding commit kept
  commit_led w (ok a, s) h = h
  commit_led w (err e, s) h = h

  pub Leads-transaction :
      {A : Type 0} (env : Env) (message : String) (body : ℕ → ℕ → Action Store A)
      → ((now fresh : ℕ) (s : Store) → P s → Q (kept s (body now fresh s)))
      → Leads P Q (transaction env message body)
  unfolding Leads transaction
  Leads-transaction env message body h w p =
      let t = w.transactions in
      let w' : World = record w { transactions = t + 1 } in
      let r = body (env.now t) (env.fresh t) w.store in
      elim (env.reachable t)
        as (λ b.
          Q (if b then commit w' r else (err (persistence_unavailable message), w')).1.store) [
            | true ↦ commit_led w' r (h (env.now t) (env.fresh t) w.store p)
            | false ↦ weaken w.store p
          ]

  caught :
      {A B : Type 0} (w : World) (r : Result A × Store) (f : Result A → Action World B)
      → r.1 ≡ w.store
      → P w.store
      → ((e : Error) → Leads P Q (f (err e)))
      → ((a : A) → r.0 ≡ ok a → Leads P Q (f (ok a)))
      → Q (catch (λ v. commit v r) f w).1.store
  unfolding catch commit Leads
  caught w (ok a, s) f e p h g = g a refl (record w { store = s }) (rw e p)
  caught w (err x, s) f e p h g = h x w p

  -- A transaction that only reads, with a handler for what it raises.
  pub Leads-catch :
      {A B : Type 0} (env : Env) (message : String) (body : ℕ → ℕ → Action Store A)
      (f : Result A → Action World B)
      → ((now fresh : ℕ) (s : Store) → (body now fresh s).1 ≡ s)
      → ((e : Error) → Leads P Q (f (err e)))
      → ((now fresh : ℕ) (s : Store) (a : A)
          → P s
          → (body now fresh s).0 ≡ ok a
          → Leads P Q (f (ok a)))
      → Leads P Q (catch (transaction env message body) f)
  unfolding Leads transaction catch
  Leads-catch env message body f same h g w p =
      let t = w.transactions in
      let w' : World = record w { transactions = t + 1 } in
      let r = body (env.now t) (env.fresh t) w.store in
      let m = λ (b : Bool) (v : World).
        (if b then commit w' r else (err (persistence_unavailable message), w')) in
      elim (env.reachable t) as (λ b. Q (catch (m b) f w).1.store) [
        | true ↦
            caught w' r f (same (env.now t) (env.fresh t) w.store) p h
              (λ a e. g (env.now t) (env.fresh t) w.store a p e)
        | false ↦ h (persistence_unavailable message) w' p
      ]
