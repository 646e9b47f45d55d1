-- ===== src/Commerce/Session.antt =====
-- Transactions against the commerce database, and the world around a request: the store, how many
-- transactions it has begun, and the calls that have left the service.
use sitescore.Common.{ℕ, ◌+◌, Bool, String, List, ◌∷◌, if◌then◌else◌}
use sitescore.Commerce.Rows.{Store}
use sitescore.Commerce.Evidence.{AnalysisOperation, RefundOperation}
use sitescore.Common.Action.{Action, Result, ok, err, persistence_unavailable}

-- A call that changes something at a provider.
pub data Call : Type 0 where
  submitted : AnalysisOperation → Call
  refund_created : RefundOperation → Call

pub record World : Type 0 where
  pub store : Store
  pub transactions : ℕ
  pub calls : List Call

-- What the n-th transaction meets: the clock, a new UUID, and whether the database answers.
pub record Env : Type 0 where
  pub now : ℕ → ℕ
  pub fresh : ℕ → ℕ
  pub reachable : ℕ → Bool

-- A transaction commits what it wrote, or raises and leaves the store as it was.
unfoldable pub commit : {A : Type 0} → World → Result A × Store → Result A × World
commit w (ok a, s) = (ok a, record w { store = s })
commit w (err e, s) = (err e, w)

-- `with session_factory.begin()`, where `message` is that of the failure of the database.
unfoldable pub transaction : {A : Type 0} → Env → String → (ℕ → ℕ → Action Store A) → Action World A
unfolding commit
transaction env message body w =
    let t = w.transactions in
    let w' = record w { transactions = t + 1 } in
    if env.reachable t
    then commit w' (body (env.now t) (env.fresh t) w.store)
    else (err (persistence_unavailable message), w')

-- A call to a provider is noted before its answer is known.
unfoldable pub send : Call → Action World (Unit {0})
send c w = (ok tt, record w { calls = c ∷ w.calls })

-- `try: m except h`, where `h` gives the handler of the exceptions that are caught.
unfoldable pub catch :
    {A B : Type 0} → Action World A → (Result A → Action World B) → Action World B
catch m h w = let (r, w') = m w in h r w'

-- What a session's calls compute to, by one name for `unfolding` lines.
unfoldable pub sessions : Unit {0}
unfolding transaction send catch
sessions = tt
