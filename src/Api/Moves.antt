-- ===== src/Api/Moves.antt =====
-- How the row of an analysis may change, under every operation of the service (lifecycle.py,
-- worker.py).
use sitescore.Common.{ℕ, ◌≤◌, Bool, true, String, none, some, ◌≡◌, refl, ◌∙◌, ◌⊎◌, inl, inr, arith}
use sitescore.Common.Action.{calls}
use sitescore.Commerce.Rows.{Json}
use sitescore.Api.Rows.{AnalysisRow, PublicState, is_terminal}
use sitescore.Api.Row.{
  persist_not_score_ready, persist_completed, complete, mark_success,
  record_canonical_success_boundary, start, fail, end_not_score_ready, end_completed, expire,
}

-- What of an analysis never changes.
pub record Request : Type 0 where
  pub analysis_id : ℕ
  pub consumer_id : ℕ
  pub creation_request_id : ℕ
  pub request_payload : Json
  pub request_hash : ℕ
  pub idempotency_key : String
  pub task_id : ℕ
  pub created_at : ℕ
  pub deadline_at : ℕ

abbrev pub request_of : AnalysisRow → Request
request_of r = record {
  analysis_id = r.analysis_id;
  consumer_id = r.consumer_id;
  creation_request_id = r.creation_request_id;
  request_payload = r.request_payload;
  request_hash = r.request_hash;
  idempotency_key = r.idempotency_key;
  task_id = r.task_id;
  created_at = r.created_at;
  deadline_at = r.deadline_at;
}

-- A deadline that has passed at the time of the end.
pub IsOverdue : AnalysisRow → Type 0
IsOverdue b = (t : ℕ) × (b.finished_at ≡ some t) × (b.deadline_at ≤ t)

pub record Moves (a b : AnalysisRow) : Type 0 where
  pub request : request_of b ≡ request_of a
  pub final : is_terminal a.state ≡ true → b ≡ a
  pub marked : (a.canonical_success_at ≡ none) ⊎ (b.canonical_success_at ≡ a.canonical_success_at)
  pub timeout :
      b.state ≡ PublicState.timed_out → (b ≡ a) ⊎ ((a.canonical_success_at ≡ none) × IsOverdue b)

pub same-Moves : (a : AnalysisRow) → Moves a a
same-Moves a = record {
  request = refl;
  final = λ _. refl;
  marked = inr refl;
  timeout = λ _. inl refl;
}

module _ (now : ℕ) (row : AnalysisRow) where
  pub expire-Moves : (authority : Bool) → Moves row (expire now authority row)
  unfolding expire IsOverdue
  expire-Moves authority = record {
    request = ground arith;
    final = ground arith;
    marked = ground arith;
    timeout = ground arith;
  }

  pub fail-Moves : Moves row (fail now row).1
  unfolding fail IsOverdue
  fail-Moves = record {
    request = ground arith;
    final = ground arith;
    marked = ground arith;
    timeout = ground arith;
  }

  pub persist_not_score_ready-Moves :
      (readiness_projection : Json)
      → Moves row (persist_not_score_ready now readiness_projection row).1
  unfolding persist_not_score_ready calls IsOverdue
  persist_not_score_ready-Moves readiness_projection = record {
    request = ground arith;
    final = ground arith;
    marked = ground arith;
    timeout = ground arith;
  }

  pub persist_completed-Moves :
      (result_body : Json) → Moves row (persist_completed now result_body row).1
  unfolding persist_completed complete IsOverdue
  persist_completed-Moves result_body = record {
    request = ground arith;
    final = ground arith;
    marked = ground arith;
    timeout = ground arith;
  }

  pub boundary-Moves : Moves row (record_canonical_success_boundary now row).1
  unfolding record_canonical_success_boundary mark_success IsOverdue
  boundary-Moves = record {
    request = ground arith;
    final = ground arith;
    marked = ground arith;
    timeout = ground arith;
  }

  pub start-Moves : Moves row (start now row).1
  unfolding start calls IsOverdue
  start-Moves = record {
    request = ground arith;
    final = ground arith;
    marked = ground arith;
    timeout = ground arith;
  }

  pub end_not_score_ready-Moves :
      (readiness_projection : Json) → Moves row (end_not_score_ready now readiness_projection row).1
  unfolding end_not_score_ready persist_not_score_ready IsOverdue
  end_not_score_ready-Moves readiness_projection = record {
    request = ground arith;
    final = ground arith;
    marked = ground arith;
    timeout = ground arith;
  }

  pub end_completed-Moves : (result_body : Json) → Moves row (end_completed now result_body row).1
  unfolding end_completed persist_completed complete IsOverdue
  end_completed-Moves result_body = record {
    request = ground arith;
    final = ground arith;
    marked = ground arith;
    timeout = ground arith;
  }

module _ (a b c : AnalysisRow) where
  pub trans-Moves : Moves a b → Moves b c → Moves a c
  trans-Moves f g = record {
    request = g.request ∙ f.request;
    final = λ h. ground (arith, f.final, g.final);
    marked = ground (arith, f.marked, g.marked);
    timeout = ground (arith, f.timeout, g.timeout, f.marked);
  }
