-- ===== src/Api/Session.antt =====
-- Sessions of the analysis service with its database (db.py) and with the broker. The n-th thing
-- that happens outside the service's own computation is its turn n.
use sitescore.Common.{ℕ, ◌+◌, Bool, List, ◌∷◌, if◌then◌else◌}
use sitescore.Common.Action.{
  Ending, commits, rolls_back, Action, Result, ok, err, database_error, session_unavailable,
  broker_failed,
}
use sitescore.Api.Rows.{Store}

-- What becomes of a commit or of a message: it takes effect, it does so but raises, or it raises.
pub data Delivery : Type 0 where
  done lost refused : Delivery

pub record World : Type 0 where
  pub store : Store
  pub turn : ℕ
  -- The tasks that the broker has accepted, each with its analysis.
  pub tasks : List (ℕ × ℕ)

-- What a turn meets: the time, whether the database answers, what others have committed since the
-- turn before, what becomes of a commit and of a message, and whether a lock is free.
pub record Env : Type 0 where
  pub now : ℕ → ℕ
  pub reachable : ℕ → Bool
  pub others : ℕ → Store → Store
  pub commit : ℕ → Delivery
  pub broker : ℕ → Delivery
  pub authority : ℕ → Bool

-- The answer of a transaction on the store `s₀`, and the store that it leaves.
unfoldable pub settle :
    {A : Type 0} → Delivery → Store → Result (Ending A) × Store → Result A × Store
settle d s₀ (err e, _) = (err e, s₀)
settle d s₀ (ok (rolls_back a), _) = (ok a, s₀)
settle done s₀ (ok (commits a), s) = (ok a, s)
settle lost s₀ (ok (commits a), s) = (err database_error, s)
settle refused s₀ (ok (commits a), s) = (err database_error, s₀)

-- The world at the next turn.
abbrev pub next : World → Store → World
next w s = record w { store = s; turn = w.turn + 1 }

abbrev pub after : {A : Type 0} → World → Result A × Store → Result A × World
after w (r, s) = (r, next w s)

unfoldable pub transact : {A : Type 0} → Env → (ℕ → Action Store (Ending A)) → Action World A
unfolding settle
transact env body w =
    let s = env.others w.turn w.store in
    if env.reachable w.turn
    then after w (settle (env.commit w.turn) s (body (env.now w.turn) s))
    else (err session_unavailable, next w s)

abbrev pub accepted : ℕ → ℕ → World → World
accepted analysis_id task_id w = record w { tasks = (analysis_id, task_id) ∷ w.tasks }

-- A message to the broker.
unfoldable pub sent_as : Delivery → ℕ → ℕ → Action World (Unit {0})
sent_as done analysis_id task_id w = (ok tt, accepted analysis_id task_id w)
sent_as lost analysis_id task_id w = (err broker_failed, accepted analysis_id task_id w)
sent_as refused analysis_id task_id w = (err broker_failed, w)

unfoldable pub send_task : Env → ℕ → ℕ → Action World (Unit {0})
unfolding sent_as
send_task env analysis_id task_id w =
    sent_as (env.broker w.turn) analysis_id task_id (next w w.store)

-- `datetime.now`
unfoldable pub clock : Env → Action World ℕ
clock env w = (ok (env.now w.turn), next w w.store)

-- `try: m` with the handlers `h` of what it gives or raises.
unfoldable pub attempt :
    {A B : Type 0} → Action World A → (Result A → Action World B) → Action World B
attempt m h w = let (r, w') = m w in h r w'
