-- ===== src/Api/Dispatcher.antt =====
-- The dispatcher of the tasks that wait in the outbox (dispatcher.py).
pub mod Keeping
pub mod Bounds
use sitescore.Common.{
  ℕ, zero, suc, ◌+◌, ltb, leb, Bool, true, false, Option, none, some, List, [], ◌∷◌, is_none,
  filter_by, if◌then◌else◌,
}
use sitescore.Common.Action.{
  Ending, commits, rolls_back, Action, Error, Result, ok, err, pure, raise, ◌>>=◌, ◌>>◌,
}
use sitescore.Api.Rows.{DispatchRow, Store, get_dispatch, write_dispatch}
use sitescore.Api.Session.{World, Env, transact, send_task, attempt}

-- The row to be dispatched, if it still waits.
unfoldable pub pending_row : Option DispatchRow → Option DispatchRow
pending_row none = none
pending_row (some r) = if is_none r.dispatched_at then some r else none

unfoldable pub select_pending : ℕ → ℕ → Action Store (Ending (Option DispatchRow))
unfolding pending_row
select_pending analysis_id now s = (ok (rolls_back (pending_row (get_dispatch analysis_id s))), s)

unfoldable pub failed_attempt : ℕ → DispatchRow → DispatchRow
failed_attempt now r = record r {
  attempt_count = r.attempt_count + 1;
  last_error_code = some "broker_publish_failed";
  last_error_message = some "broker publish failed";
}

unfoldable pub dispatched : ℕ → DispatchRow → DispatchRow
dispatched now r = record r {
  attempt_count = r.attempt_count + 1;
  dispatched_at = some now;
  last_error_code = none;
  last_error_message = none;
}

abbrev pub update_if :
    Bool → (DispatchRow → DispatchRow) → DispatchRow → Store → Result (Ending (Unit {0})) × Store
update_if true change r s = (ok (commits tt), write_dispatch (change r) s)
update_if false change r s = (ok (commits tt), s)

-- `change` of the row that is selected again, if it still waits.
unfoldable pub update_pending :
    (DispatchRow → DispatchRow) → Option DispatchRow → Store → Result (Ending (Unit {0})) × Store
update_pending change none s = (ok (commits tt), s)
update_pending change (some r) s = update_if (is_none r.dispatched_at) change r s

unfoldable pub record_attempt :
    (ℕ → DispatchRow → DispatchRow) → ℕ → ℕ → Action Store (Ending (Unit {0}))
unfolding update_pending
record_attempt change analysis_id now s = update_pending (change now) (get_dispatch analysis_id s) s

unfoldable pub record_published : Env → ℕ → Result (Unit {0}) → Action World (Unit {0})
record_published env analysis_id (ok _) w = transact env (record_attempt dispatched analysis_id) w
record_published env analysis_id (err e) w =
    (transact env (record_attempt failed_attempt analysis_id) >> raise e) w

unfoldable pub publish : Env → ℕ → Option DispatchRow → Action World (Unit {0})
publish env analysis_id none w = (ok tt, w)
publish env analysis_id (some r) w =
    attempt (send_task env analysis_id r.task_id) (record_published env analysis_id) w

unfoldable pub dispatch_analysis : Env → ℕ → Action World (Unit {0})
dispatch_analysis env analysis_id = do
  row ← transact env (select_pending analysis_id)
  publish env analysis_id row

-- `order_by(created_at)`
unfoldable pub insert_by_time : DispatchRow → List DispatchRow → List DispatchRow
insert_by_time r [] = r ∷ []
insert_by_time r (x ∷ xs) =
    let rest = insert_by_time r xs in if leb r.created_at x.created_at then r ∷ x ∷ xs else x ∷ rest

unfoldable pub by_time : List DispatchRow → List DispatchRow
by_time [] = []
by_time (r ∷ rs) = insert_by_time r (by_time rs)

-- `limit(n)`
abbrev pub first_ids : ℕ → List DispatchRow → List ℕ
first_ids zero rs = []
first_ids (suc n) [] = []
first_ids (suc n) (r ∷ rs) = r.analysis_id ∷ first_ids n rs

unfoldable pub pending_ids : ℕ → ℕ → Action Store (Ending (List ℕ))
unfolding by_time
pending_ids limit now s = (
  ok (
      rolls_back (
        first_ids limit
          (by_time (filter_by (λ (r : DispatchRow). is_none r.dispatched_at) s.dispatches)))),
  s,
)

-- One more, unless the dispatch raised.
abbrev pub counted : Result (Unit {0}) → ℕ
counted (ok _) = 1
counted (err _) = 0

unfoldable pub drain : Env → List ℕ → Action World ℕ
drain env [] = pure 0
drain env (analysis_id ∷ ids) =
    attempt (dispatch_analysis env analysis_id) λ r. drain env ids >>= λ n. pure (counted r + n)

unfoldable pub drain_pending : Env → ℕ → Action World ℕ
drain_pending env limit = do ids ← transact env (pending_ids limit); drain env ids
