-- ===== src/Api/Dispatcher/Bounds.antt =====
-- How much one drain of the outbox does (`drain_pending` of dispatcher.py).
use sitescore.Common.{ℕ, zero, suc, ◌+◌, ◌≤◌, ◌≡◌, arith, List, [], ◌∷◌, length, is_none, filter_by}
use sitescore.Common.Action.{Result, ok, err, pure, calls}
use sitescore.Api.Rows.{DispatchRow}
use sitescore.Api.Session.{World, Env, transact, attempt}
use sitescore.Api.Keeps.{bind_result, transact_result}
use sitescore.Api.Dispatcher.{
  dispatch_analysis, by_time, first_ids, pending_ids, counted, drain, drain_pending,
}

length-first_ids : (n : ℕ) (rs : List DispatchRow) → length (first_ids n rs) ≤ n
length-first_ids zero rs = ground arith
length-first_ids (suc n) [] = ground arith
length-first_ids (suc n) (r ∷ rs) = ground (arith, length-first_ids n rs)

counted_once : (r : Result (Unit {0})) → counted r ≤ 1
counted_once (ok _) = ground arith
counted_once (err _) = ground arith

pure_answer : (w : World) (m n : ℕ) → (pure {S = World} m w).0 ≡ ok n → m ≡ n
unfolding calls
pure_answer w m n h = ground arith

-- The identities that are read are no more than the limit.
selected_few :
    (env : Env) (limit : ℕ) (w : World) (ids : List ℕ)
    → (transact env (pending_ids limit) w).0 ≡ ok ids
    → length ids ≤ limit
unfolding pending_ids
selected_few env limit w ids =
    transact_result (λ x s. length x ≤ limit) env (pending_ids limit) (λ now s x h. ground arith)
      (λ now s x h.
        let few =
          length-first_ids limit
            (by_time (filter_by (λ (r : DispatchRow). is_none r.dispatched_at) s.dispatches)) in
        ground (arith, few))
      w ids

drain-bounded :
    (env : Env) (ids : List ℕ) (w : World) (n : ℕ) → (drain env ids w).0 ≡ ok n → n ≤ length ids
unfolding drain attempt
drain-bounded env [] w n = λ h. ground (arith, pure_answer w 0 n h)
drain-bounded env (k ∷ ks) w n =
    let r = (dispatch_analysis env k w).0 in
    let w' = (dispatch_analysis env k w).1 in
    bind_result (λ m s. m ≤ suc (length ks)) (drain env ks) _ w' n
      λ m h g.
        let bound = drain-bounded env ks w' m h in
        let sum = pure_answer _ (counted r + m) n g in let once = counted_once r in omega arith

-- A drain counts no more dispatches than its limit.
pub drain_pending-bounded :
    (env : Env) (limit : ℕ) (w : World) (n : ℕ) → (drain_pending env limit w).0 ≡ ok n → n ≤ limit
unfolding drain_pending
drain_pending-bounded env limit w n =
    bind_result (λ m s. m ≤ limit) (transact env (pending_ids limit)) _ w n
      λ ids h g.
        let few = selected_few env limit w ids h in
        let bound = drain-bounded env ids _ n g in omega arith
