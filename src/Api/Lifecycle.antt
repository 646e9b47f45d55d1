-- ===== src/Api/Lifecycle.antt =====
-- The lifecycle of analyses: submission, retrieval with its timeout, and the sweep of those past
-- their deadline (lifecycle.py; `reconcile_expired` of worker.py).
pub mod Keeping
pub mod Replay
use sitescore.Common.{
  ℕ, zero, suc, ◌+◌, ◌==◌, leb, Bool, true, false, not, ◌&&◌, ◌||◌, String, str_eq, Option, none,
  some, List, [], ◌∷◌, any, is_none, if◌then◌else◌,
}
use sitescore.Common.Action.{
  Ending, commits, rolls_back, Action, Error, integrity_error, idempotency_conflict,
  analysis_not_found, Result, ok, err, pure, raise, ◌>>=◌, ◌>>◌,
}
use sitescore.Commerce.Rows.{Json}
use sitescore.Api.Rows.{
  AnalysisRow, DispatchRow, PublicState, Store, get_analysis, write_analysis, is_terminal,
}
use sitescore.Api.Row.{expire, timeout_row}
use sitescore.Api.Session.{World, Env, transact, attempt}
use sitescore.Api.Dispatcher.{dispatch_analysis}

pub record AcceptedAnalysisResource : Type 0 where
  pub analysis_id : ℕ
  pub state : PublicState

pub record PublicError : Type 0 where
  pub code : String
  pub message : String

pub record RetrievedAnalysisResource : Type 0 where
  pub analysis_id : ℕ
  pub state : PublicState
  pub created_at : ℕ
  pub updated_at : ℕ
  pub result : Option Json
  pub readiness : Option Json
  pub error : Option PublicError

-- What a client submits: the command and the model of the request, the latter by its canonical JSON
-- and the hash of that.
pub record Submission : Type 0 where
  pub analysis_id : ℕ
  pub request_id : ℕ
  pub consumer_id : ℕ
  pub idempotency_key : String
  pub request_payload : Json
  pub request_hash : ℕ

unfoldable pub new_analysis : ℕ → ℕ → ℕ → Submission → AnalysisRow
new_analysis deadline_seconds now task_id c = record {
  analysis_id = c.analysis_id;
  consumer_id = c.consumer_id;
  creation_request_id = c.request_id;
  api_version = "v1";
  state = PublicState.queued;
  request_payload = c.request_payload;
  request_hash = c.request_hash;
  idempotency_key = c.idempotency_key;
  task_id = task_id;
  created_at = now;
  updated_at = now;
  started_at = none;
  finished_at = none;
  deadline_at = now + deadline_seconds;
  canonical_success_at = none;
  result_body = none;
  readiness_body = none;
  failure_code = none;
  failure_message = none;
}

unfoldable pub new_dispatch : ℕ → ℕ → ℕ → DispatchRow
new_dispatch analysis_id task_id now = record {
  analysis_id = analysis_id;
  task_id = task_id;
  created_at = now;
  dispatched_at = none;
  attempt_count = 0;
  last_error_code = none;
  last_error_message = none;
}

-- The condition of `uq_analysis_consumer_idempotency`.
abbrev pub is_of : ℕ → String → AnalysisRow → Bool
is_of consumer_id idempotency_key r =
    r.consumer_id == consumer_id && str_eq r.idempotency_key idempotency_key

-- Whether a constraint of the tables forbids the new rows.
unfoldable pub clashes : Submission → Store → Bool
clashes c s =
    any (λ (r : AnalysisRow). is_of c.consumer_id c.idempotency_key r) s.analyses
    || any (λ (r : AnalysisRow). r.analysis_id == c.analysis_id) s.analyses
    || any (λ (r : DispatchRow). r.analysis_id == c.analysis_id) s.dispatches

unfoldable pub insert_unless :
    Bool → AnalysisRow → DispatchRow → Action Store (Ending AcceptedAnalysisResource)
insert_unless true r d s = (err integrity_error, s)
insert_unless false r d s = (
  ok (commits (record { analysis_id = r.analysis_id; state = r.state })),
  record s { analyses = r ∷ s.analyses; dispatches = d ∷ s.dispatches },
)

-- The first transaction of `submit`.
unfoldable pub insert_analysis :
    ℕ → ℕ → Submission → ℕ → Action Store (Ending AcceptedAnalysisResource)
unfolding insert_unless new_analysis new_dispatch clashes
insert_analysis deadline_seconds task_id c now s =
    insert_unless (clashes c s) (new_analysis deadline_seconds now task_id c)
      (new_dispatch c.analysis_id task_id now) s

-- The row of a consumer's idempotency key.
unfoldable pub find_submission : ℕ → String → List AnalysisRow → Option AnalysisRow
find_submission consumer_id idempotency_key [] = none
find_submission consumer_id idempotency_key (r ∷ rs) =
    if is_of consumer_id idempotency_key r
    then some r
    else find_submission consumer_id idempotency_key rs

-- The answer for a key that has a row.
unfoldable pub replayed : ℕ → Option AnalysisRow → Result (Ending AcceptedAnalysisResource)
replayed request_hash none = err integrity_error
replayed request_hash (some existing) =
    if not (existing.request_hash == request_hash)
    then err (idempotency_conflict "Idempotency-Key was already used with a different payload")
    else ok (rolls_back (record { analysis_id = existing.analysis_id; state = existing.state }))

unfoldable pub replay : Submission → ℕ → Action Store (Ending AcceptedAnalysisResource)
unfolding replayed find_submission
replay c now s =
    (replayed c.request_hash (find_submission c.consumer_id c.idempotency_key s.analyses), s)

-- `except IntegrityError`
unfoldable pub on_clash :
    Env → Submission → Result AcceptedAnalysisResource → Action World AcceptedAnalysisResource
on_clash env c (ok accepted) w = (ok accepted, w)
on_clash env c (err integrity_error) w = transact env (replay c) w
on_clash env c (err e) w = (err e, w)

-- The new analysis, or that of an earlier request with the key. `task_id` is a new UUID.
unfoldable pub accept : Env → ℕ → ℕ → Submission → Action World AcceptedAnalysisResource
accept env deadline_seconds task_id c =
    attempt (transact env (insert_analysis deadline_seconds task_id c)) (on_clash env c)

-- `submit`; what the dispatcher raises is dropped.
unfoldable pub submit : Env → ℕ → ℕ → Submission → Action World AcceptedAnalysisResource
submit env deadline_seconds task_id c = do
  accepted ← accept env deadline_seconds task_id c
  attempt (dispatch_analysis env accepted.analysis_id) λ _. pure accepted

-- `row.failure_message or "analysis failed"`
abbrev pub message_or : Option String → String
message_or none = "analysis failed"
message_or (some m) = if str_eq m "" then "analysis failed" else m

abbrev pub public_error : Option String → Option String → Option PublicError
public_error none message = none
public_error (some code) message = some (record { code = code; message = message_or message })

unfoldable pub resource : AnalysisRow → RetrievedAnalysisResource
resource row = record {
  analysis_id = row.analysis_id;
  state = row.state;
  created_at = row.created_at;
  updated_at = row.updated_at;
  result = row.result_body;
  readiness = row.readiness_body;
  error = public_error row.failure_code row.failure_message;
}

-- The row of an analysis is its consumer's only.
unfoldable pub answer : Bool → AnalysisRow → Action Store (Ending RetrievedAnalysisResource)
unfolding resource
answer true row s = (ok (commits (resource row)), write_analysis row s)
answer false row s = (err analysis_not_found, s)

-- The rest of `retrieve`, once the row has been selected.
unfoldable pub retrieved :
    ℕ → Bool → ℕ → Option AnalysisRow → Action Store (Ending RetrievedAnalysisResource)
unfolding expire answer
retrieved now authority consumer_id none s = (err analysis_not_found, s)
retrieved now authority consumer_id (some row) s =
    answer (row.consumer_id == consumer_id) (expire now authority row) s

unfoldable pub retrieve_row : Bool → ℕ → ℕ → ℕ → Action Store (Ending RetrievedAnalysisResource)
retrieve_row authority analysis_id consumer_id now s =
    retrieved now authority consumer_id (get_analysis analysis_id s) s

unfoldable pub retrieve : Env → ℕ → ℕ → Action World RetrievedAnalysisResource
retrieve env analysis_id consumer_id w =
    transact env (retrieve_row (env.authority w.turn) analysis_id consumer_id) w

-- The selection of `reconcile_expired`.
abbrev pub is_expired : ℕ → AnalysisRow → Bool
is_expired now row =
    not (is_terminal row.state) && is_none row.canonical_success_at && leb row.deadline_at now

-- One more row, if it was selected, and one more change, if it was made.
abbrev pub with_swept : Bool → AnalysisRow → ℕ × List AnalysisRow → ℕ × List AnalysisRow
with_swept true row (n, rows) = (n + 1, row ∷ rows)
with_swept false row (n, rows) = (n, row ∷ rows)

-- The rows of `reconcile_expired`. `selected` says which of the rows past their deadline the
-- database gives, which leaves out locked ones and all beyond the limit.
unfoldable pub sweep : (ℕ → Bool) → (ℕ → Bool) → ℕ → List AnalysisRow → ℕ × List AnalysisRow
unfolding expire
sweep selected authority now [] = (0, [])
sweep selected authority now (r ∷ rs) =
    let free = selected r.analysis_id && authority r.analysis_id in
    with_swept (is_expired now r && free) (expire now free r) (sweep selected authority now rs)

unfoldable pub sweep_rows : (ℕ → Bool) → (ℕ → Bool) → ℕ → Action Store (Ending ℕ)
unfolding sweep
sweep_rows selected authority now s =
    let (n, rows) = sweep selected authority now s.analyses in
    (ok (commits n), record s { analyses = rows })

unfoldable pub reconcile_expired : Env → (ℕ → Bool) → (ℕ → Bool) → Action World ℕ
reconcile_expired env selected authority = transact env (sweep_rows selected authority)
