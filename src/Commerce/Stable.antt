-- ===== src/Commerce/Stable.antt =====
-- Rules for what the store satisfies before and after the calls of a request, whatever the
-- providers and the database answer.
use sitescore.Common.{
  ℕ, ◌+◌, Bool, true, false, String, Option, none, some, ◌≡◌, refl, if◌then◌else◌,
}
use sitescore.Commerce.Rows.{Store}
use sitescore.Commerce.Tables.{has_paid_event}
use sitescore.Common.Action.{
  Action, Error, persistence_unavailable, Result, ok, err, require, raise, lift, raise_if, pure,
  ◌>>=◌, ◌>>◌, calls,
}
use sitescore.Commerce.Session.{World, Env, Call, transaction, commit, send, catch}
use sitescore.Commerce.Keeps.{kept}
use sitescore.Commerce.Consistency.{IsConsistent, IsSound}

-- A store that satisfies `P` still does after `m`.
unfoldable pub Stable : (Store → Type 0) → {A : Type 0} → Action World A → Type 0
Stable P m = (w : World) → P w.store → P (m w).1.store

module _ (P : Store → Type 0) where
  pub Stable-pure : {A : Type 0} (a : A) → Stable P (pure a)
  unfolding Stable calls
  Stable-pure a w h = h

  pub Stable-raise : (A : Type 0) (e : Error) → Stable P {A = A} (raise e)
  unfolding Stable calls
  Stable-raise A e w h = h

  pub Stable-lift : {A : Type 0} (r : Result A) → Stable P (lift r)
  unfolding Stable calls
  Stable-lift r w h = h

  pub Stable-require : {A : Type 0} (r : Option A) (e : Error) → Stable P (require r e)
  unfolding Stable calls
  Stable-require none e w h = h
  Stable-require (some a) e w h = h

  pub Stable-raise_if : (b : Bool) (e : Error) → Stable P (raise_if b e)
  unfolding Stable calls
  Stable-raise_if true e w h = h
  Stable-raise_if false e w h = h

  pub Stable-send : (c : Call) → Stable P (send c)
  unfolding Stable send
  Stable-send c w h = h

  bind_lift :
      {A B : Type 0} (r : Result A) (f : A → Action World B) (w : World)
      → P w.store
      → ((a : A) → P (f a w).1.store)
      → P ((lift r >>= f) w).1.store
  unfolding calls
  bind_lift (ok a) f w h g = g a
  bind_lift (err e) f w h g = h

  then_lift :
      {A B : Type 0} (r : Result A) (k : Action World B) (w : World)
      → P w.store
      → P (k w).1.store
      → P ((lift r >> k) w).1.store
  unfolding calls
  then_lift (ok a) k w h g = g
  then_lift (err e) k w h g = h

  pub Stable-bind :
      {A B : Type 0} (m : Action World A) (f : A → Action World B)
      → Stable P m
      → ((a : A) → Stable P (f a))
      → Stable P (m >>= f)
  unfolding Stable calls
  Stable-bind m f h g w p = bind_lift (m w).0 f (m w).1 (h w p) (λ a. g a (m w).1 (h w p))

  pub Stable-then :
      {A B : Type 0} (m : Action World A) (k : Action World B)
      → Stable P m
      → Stable P k
      → Stable P (m >> k)
  unfolding Stable calls
  Stable-then m k h g w p = then_lift (m w).0 k (m w).1 (h w p) (g (m w).1 (h w p))

  pub Stable-if :
      {A : Type 0} (b : Bool) (m k : Action World A)
      → Stable P m
      → Stable P k
      → Stable P (if b then m else k)
  Stable-if true m k h g = h
  Stable-if false m k h g = g

  pub Stable-catch :
      {A B : Type 0} (m : Action World A) (f : Result A → Action World B)
      → Stable P m
      → ((r : Result A) → Stable P (f r))
      → Stable P (catch m f)
  unfolding Stable catch
  Stable-catch m f h g w p = g (m w).0 (m w).1 (h w p)

  commit-kept :
      {A : Type 0} (w : World) (r : Result A × Store) → P (kept w.store r) → P (commit w r).1.store
  unfolding commit kept
  commit-kept w (ok a, s) h = h
  commit-kept w (err e, s) h = h

  -- A transaction in an interval of the request, in which the database may be out of reach.
  pub Stable-transaction :
      {A : Type 0} (env : Env) (message : String) (body : ℕ → ℕ → Action Store A)
      → ((now fresh : ℕ) (s : Store) → P s → P (kept s (body now fresh s)))
      → Stable P (transaction env message body)
  unfolding Stable transaction
  Stable-transaction env message body h w p =
      let t = w.transactions in
      let w' : World = record w { transactions = t + 1 } in
      let r = body (env.now t) (env.fresh t) w.store in
      elim (env.reachable t)
        as (λ b.
          P (if b then commit w' r else (err (persistence_unavailable message), w')).1.store) [
            | true ↦ commit-kept w' r (h (env.now t) (env.fresh t) w.store p)
            | false ↦ p
          ]

-- A transaction that keeps each order's tables consistent keeps the store so.
pub sound :
    {A : Type 0} (env : Env) (message : String) (body : ℕ → ℕ → Action Store A)
    → ((k now fresh : ℕ) (s : Store)
        → ((j : ℕ) → IsConsistent j s)
        → IsConsistent k (kept s (body now fresh s)))
    → Stable IsSound (transaction env message body)
unfolding IsSound
sound env message body h =
    Stable-transaction IsSound env message body λ now fresh s i k. h k now fresh s i

-- A store that is consistent, with an order that is announced as paid.
unfoldable pub IsAnnounced : ℕ → Store → Type 0
IsAnnounced order_id s = ((j : ℕ) → IsConsistent j s) × (has_paid_event order_id s.outbox ≡ true)

pub announced :
    {A : Type 0} (order_id : ℕ) (env : Env) (message : String) (body : ℕ → ℕ → Action Store A)
    → ((k now fresh : ℕ) (s : Store)
        → ((j : ℕ) → IsConsistent j s)
        → has_paid_event order_id s.outbox ≡ true
        → IsConsistent k (kept s (body now fresh s)))
    → ((now fresh : ℕ) (s : Store) → (kept s (body now fresh s)).outbox ≡ s.outbox)
    → Stable (IsAnnounced order_id) (transaction env message body)
unfolding IsAnnounced
announced order_id env message body h g =
    Stable-transaction (IsAnnounced order_id) env message body
      λ now fresh s (i, a). ((λ k. h k now fresh s i a), rw (g now fresh s) a)

-- What a transaction that only reads has shown holds for the rest.
module _ (P Q : Store → Type 0) {A B : Type 0} (env : Env) (message : String)
    (body : ℕ → ℕ → Action Store A) (f : A → Action World B) where
  read_commit :
      (w : World) (r : Result A × Store)
      → r.1 ≡ w.store
      → ((a : A) → r.0 ≡ ok a → Q w.store)
      → ((s : Store) → Q s → P s)
      → ((a : A) → Stable Q (f a))
      → P w.store
      → P (((λ v. commit v r) >>= f) w).1.store
  unfolding Stable commit calls
  read_commit w (ok a, s) e q weaken h p = weaken _ (h a (record w { store = s }) (rw e (q a refl)))
  read_commit w (err x, s) e q weaken h p = p

  pub Stable-read :
      ((now fresh : ℕ) (s : Store) → (body now fresh s).1 ≡ s)
      → ((now fresh : ℕ) (s : Store) (a : A) → (body now fresh s).0 ≡ ok a → P s → Q s)
      → ((s : Store) → Q s → P s)
      → ((a : A) → Stable Q (f a))
      → Stable P (transaction env message body >>= f)
  unfolding Stable transaction calls
  Stable-read same read weaken h w p =
      let t = w.transactions in
      let w' : World = record w { transactions = t + 1 } in
      let r = body (env.now t) (env.fresh t) w.store in
      let m = λ (b : Bool) (v : World).
        (if b then commit w' r else (err (persistence_unavailable message), w')) in
      elim (env.reachable t) as (λ b. P (((m b) >>= f) w).1.store) [
        | true ↦
            read_commit w' r (same (env.now t) (env.fresh t) w.store)
              (λ a e. read (env.now t) (env.fresh t) w.store a e p) weaken h p
        | false ↦ p
      ]

commit_store :
    {A : Type 0} (w : World) (r : Result A × Store) → (commit w r).1.store ≡ kept w.store r
unfolding commit kept
commit_store w (ok a, s) = refl
commit_store w (err e, s) = refl

-- What a transaction leaves.
pub transaction-store :
    {A : Type 0} (env : Env) (message : String) (body : ℕ → ℕ → Action Store A) (w : World)
    → (transaction env message body w).1.store ≡ (
        if env.reachable w.transactions
        then kept w.store (body (env.now w.transactions) (env.fresh w.transactions) w.store)
        else w.store)
unfolding transaction
transaction-store env message body w =
    let t = w.transactions in
    let w' : World = record w { transactions = t + 1 } in
    let r = body (env.now t) (env.fresh t) w.store in
    elim (env.reachable t)
      as (λ b.
        (if b then commit w' r else (err (persistence_unavailable message), w')).1.store
        ≡ (if b then kept w.store r else w.store)) [ true ↦ commit_store w' r | false ↦ refl ]

-- What holds after a transaction that only reads and the rest that its result is given to.
module _ (R : World → Type 0) {A B : Type 0} (f : A → Action World B) where
  read_result :
      (w : World) (r : Result A × Store)
      → r.1 ≡ w.store
      → R w
      → ((a : A) (v : World) → r.0 ≡ ok a → v.store ≡ w.store → v.calls ≡ w.calls → R (f a v).1)
      → R (((λ v. commit v r) >>= f) w).1
  unfolding commit calls
  read_result w (ok a, s) e p h = h a (record w { store = s }) refl e refl
  read_result w (err x, s) e p h = p

  pub read_then :
      (env : Env) (message : String) (body : ℕ → ℕ → Action Store A) (w : World)
      → ((now fresh : ℕ) → (body now fresh w.store).1 ≡ w.store)
      → R (record w { transactions = w.transactions + 1 })
      → ((now fresh : ℕ) (a : A) (v : World)
          → (body now fresh w.store).0 ≡ ok a
          → v.store ≡ w.store
          → v.calls ≡ w.calls
          → R (f a v).1)
      → R ((transaction env message body >>= f) w).1
  unfolding transaction calls
  read_then env message body w same p h =
      let t = w.transactions in
      let w' : World = record w { transactions = t + 1 } in
      let r = body (env.now t) (env.fresh t) w.store in
      let m = λ (b : Bool) (v : World).
        (if b then commit w' r else (err (persistence_unavailable message), w')) in
      elim (env.reachable t) as (λ b. R (((m b) >>= f) w).1) [
        | true ↦ read_result w' r (same (env.now t) (env.fresh t)) p (h (env.now t) (env.fresh t))
        | false ↦ p
      ]

-- A value at the end changes nothing.
pub then-pure :
    {A B : Type 0} (m : Action World A) (b : B) (w : World) → ((m >> pure b) w).1 ≡ (m w).1
unfolding calls
then-pure {A = A} m b w =
    let after = λ (r : Result A). ((lift r >> pure b) (m w).1).1 ≡ (m w).1 in
    elim (m w).0 as after [ ok a ↦ refl | err e ↦ refl ]
