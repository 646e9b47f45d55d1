-- ===== src/Api/Keeps.antt =====
-- Rules for what holds of the store that a call of the analysis service leaves, whatever others
-- commit between its transactions.
use sitescore.Common.{ℕ, Bool, true, false, ◌≡◌, refl, arith, if◌then◌else◌}
use sitescore.Common.Action.{
  Ending, commits, rolls_back, Action, Result, ok, err, Error, pure, raise, lift, ◌>>=◌, ◌>>◌,
  calls,
}
use sitescore.Api.Rows.{Store}
use sitescore.Api.Session.{
  World, Env, Delivery, settle, sent_as, transact, send_task, attempt, clock,
}

unfoldable pub Keeps : {A : Type 0} → (Store → Type 0) → Action World A → Type 0
Keeps P m = (w : World) → P w.store → P (m w).1.store

unfoldable pub OthersKeep : Env → (Store → Type 0) → Type 0
OthersKeep env P = (t : ℕ) (s : Store) → P s → P (env.others t s)

-- The store that a body leaves if its transaction is committed.
unfoldable pub kept : {A : Type 0} → Store → Result A × Store → Store
kept s₀ (ok a, s) = s
kept s₀ (err e, s) = s₀

module _ (P : Store → Type 0) where
  settle-kept :
      {A : Type 0} (d : Delivery) (s₀ : Store) (o : Result (Ending A) × Store)
      → P s₀
      → P (kept s₀ o)
      → P (settle d s₀ o).1
  unfolding settle kept
  settle-kept d s₀ (err e, s) p q = p
  settle-kept d s₀ (ok (rolls_back a), s) p q = p
  settle-kept Delivery.done s₀ (ok (commits a), s) p q = q
  settle-kept Delivery.lost s₀ (ok (commits a), s) p q = q
  settle-kept Delivery.refused s₀ (ok (commits a), s) p q = p

  settle_keeps :
      {A : Type 0} (d : Delivery) (s₀ : Store) (o : Result (Ending A) × Store)
      → P s₀
      → P o.1
      → P (settle d s₀ o).1
  unfolding settle
  settle_keeps d s₀ (err e, s) p q = p
  settle_keeps d s₀ (ok (rolls_back a), s) p q = p
  settle_keeps Delivery.done s₀ (ok (commits a), s) p q = q
  settle_keeps Delivery.lost s₀ (ok (commits a), s) p q = q
  settle_keeps Delivery.refused s₀ (ok (commits a), s) p q = p

  either_keeps :
      {A : Type 0} (b : Bool) (x y : Result A × World)
      → P x.1.store
      → P y.1.store
      → P (if b then x else y).1.store
  either_keeps true x y p q = p
  either_keeps false x y p q = q

  module _ (env : Env) (others : OthersKeep env P) where
    pub transact-Keeps :
        {A : Type 0} (body : ℕ → Action Store (Ending A))
        → ((now : ℕ) (s : Store) → P s → P (body now s).1)
        → Keeps P (transact env body)
    unfolding Keeps OthersKeep transact
    transact-Keeps body h w p =
        let q = others w.turn w.store p in
        either_keeps (env.reachable w.turn) _ _
          (settle_keeps (env.commit w.turn) _ _ q (h (env.now w.turn) _ q)) q

    -- The same, where only what is committed counts.
    pub transact-kept-Keeps :
        {A : Type 0} (body : ℕ → Action Store (Ending A))
        → ((now : ℕ) (s : Store) → P s → P (kept s (body now s)))
        → Keeps P (transact env body)
    unfolding Keeps OthersKeep transact
    transact-kept-Keeps body h w p =
        let q = others w.turn w.store p in
        either_keeps (env.reachable w.turn) _ _
          (settle-kept (env.commit w.turn) _ _ q (h (env.now w.turn) _ q)) q

  sent_keeps :
      (d : Delivery) (analysis_id task_id : ℕ) (w : World)
      → P w.store
      → P (sent_as d analysis_id task_id w).1.store
  unfolding sent_as
  sent_keeps Delivery.done analysis_id task_id w p = p
  sent_keeps Delivery.lost analysis_id task_id w p = p
  sent_keeps Delivery.refused analysis_id task_id w p = p

  pub send_task-Keeps :
      (env : Env) (analysis_id task_id : ℕ) → Keeps P (send_task env analysis_id task_id)
  unfolding Keeps send_task
  send_task-Keeps env analysis_id task_id w p =
      sent_keeps (env.broker w.turn) analysis_id task_id _ p

  pub clock-Keeps : (env : Env) → Keeps P (clock env)
  unfolding Keeps clock
  clock-Keeps env w p = p

  pub attempt-Keeps :
      {A B : Type 0} (m : Action World A) (h : Result A → Action World B)
      → Keeps P m
      → ((r : Result A) → Keeps P (h r))
      → Keeps P (attempt m h)
  unfolding Keeps attempt
  attempt-Keeps m h k g w p = g (m w).0 (m w).1 (k w p)

  pub pure-Keeps : (A : Type 0) (a : A) → Keeps P (pure {S = World} a)
  unfolding Keeps calls
  pure-Keeps A a w p = p

  pub raise-Keeps : (A : Type 0) (e : Error) → Keeps P (raise {S = World} {A = A} e)
  unfolding Keeps calls
  raise-Keeps A e w p = p

  pub bind-Keeps :
      {A B : Type 0} (m : Action World A) (k : A → Action World B)
      → Keeps P m
      → ((a : A) → Keeps P (k a))
      → Keeps P (m >>= k)
  unfolding Keeps calls
  bind-Keeps {B} m k h g w p =
      elim (m w).0
        as (λ r.
          P
            (elim r as (λ _. Result B × World) [
              | ok a ↦ k a (m w).1
              | err e ↦ (err e, (m w).1)
            ]).1.store) [ ok a ↦ g a (m w).1 (h w p) | err e ↦ h w p ]

  pub then-Keeps :
      {A B : Type 0} (m : Action World A) (k : Action World B)
      → Keeps P m
      → Keeps P k
      → Keeps P (m >> k)
  unfolding Keeps calls
  then-Keeps {B} m k h g w p =
      elim (m w).0
        as (λ r.
          P
            (elim r as (λ _. Result B × World) [
              | ok a ↦ k (m w).1
              | err e ↦ (err e, (m w).1)
            ]).1.store) [ ok a ↦ g (m w).1 (h w p) | err e ↦ h w p ]

-- What holds of the value that a transaction gives and of the store that it leaves.
module _ {A : Type 0} (Q : A → Store → Type 0) where
  settle_result :
      (d : Delivery) (s₀ : Store) (o : Result (Ending A) × Store) (a : A)
      → ((x : A) → o.0 ≡ ok (commits x) → Q x o.1)
      → ((x : A) → o.0 ≡ ok (rolls_back x) → Q x s₀)
      → (settle d s₀ o).0 ≡ ok a
      → Q a (settle d s₀ o).1
  unfolding settle
  settle_result d s₀ (err e, s) a f g h = ground arith
  settle_result d s₀ (ok (rolls_back x), s) a f g h = g a (ground arith)
  settle_result Delivery.done s₀ (ok (commits x), s) a f g h = f a (ground arith)
  settle_result Delivery.lost s₀ (ok (commits x), s) a f g h = ground arith
  settle_result Delivery.refused s₀ (ok (commits x), s) a f g h = ground arith

  either_result :
      (b : Bool) (x : Result A × World) (e : Error) (w : World) (a : A)
      → (x.0 ≡ ok a → Q a x.1.store)
      → (if b then x else (err e, w)).0 ≡ ok a
      → Q a (if b then x else (err e, w)).1.store
  either_result true x e w a f h = f h
  either_result false x e w a f h = ground arith

  pub transact_result :
      (env : Env) (body : ℕ → Action Store (Ending A))
      → ((now : ℕ) (s : Store) (x : A) → (body now s).0 ≡ ok (commits x) → Q x (body now s).1)
      → ((now : ℕ) (s : Store) (x : A) → (body now s).0 ≡ ok (rolls_back x) → Q x s)
      → (w : World) (a : A) → (transact env body w).0 ≡ ok a
      → Q a (transact env body w).1.store
  unfolding transact
  transact_result env body f g w a =
      either_result (env.reachable w.turn) _ _ _ a
        (settle_result (env.commit w.turn) _ _ a (f _ _) (g _ _))

  bound_result :
      {B : Type 0} (r : Result B) (w : World) (k : B → Action World A) (a : A)
      → ((b : B) → r ≡ ok b → (k b w).0 ≡ ok a → Q a (k b w).1.store)
      → ((lift r >>= k) w).0 ≡ ok a
      → Q a ((lift r >>= k) w).1.store
  unfolding calls
  bound_result (ok b) w k a f h = f b refl h
  bound_result (err e) w k a f h = ground arith

  pub bind_result :
      {B : Type 0} (m : Action World B) (k : B → Action World A) (w : World) (a : A)
      → ((b : B) → (m w).0 ≡ ok b → (k b (m w).1).0 ≡ ok a → Q a (k b (m w).1).1.store)
      → ((m >>= k) w).0 ≡ ok a
      → Q a ((m >>= k) w).1.store
  unfolding calls
  bind_result m k w a f h = bound_result (m w).0 (m w).1 k a f h
