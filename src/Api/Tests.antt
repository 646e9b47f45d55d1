-- ===== src/Api/Tests.antt =====
-- Runs of the analysis service, and instances of what is proved of it.
use sitescore.Common.{
  ℕ, ◌≤◌, true, ◌≡◌, ◌≢◌, refl, sym, subst, inl, inr, arith, none, some, [], ◌∷◌, Member,
}
use sitescore.Common.Action.{Result, ok, err, report_invariant_violation, calls}
use sitescore.Commerce.Rows.{scalar}
use sitescore.Api.Rows.{
  AnalysisRow, PublicState, PreparedReportArtifact, ReportRow, ReportState, Store, is_ready,
}
use sitescore.Api.Auth.{
  Text, KeyStore, ServiceApiKey, token_of, provision_service_key, insert_key, is_subset,
  authenticate_bearer, bearer_token, split_token, check_record,
}
use sitescore.Api.Auth.RoundTrip.{
  header_of, IsRecorded, authenticate-provided, authenticate-IsRecorded,
}
use sitescore.Api.Sound.{IsSound}
use sitescore.Api.Session.{World, Env, Delivery, transact, settle, send_task, sent_as, attempt}
use sitescore.Api.Keeps.{OthersKeep}
use sitescore.Api.Report.{report_artifact_version}
use sitescore.Api.Admits.{IsPaired}
use sitescore.Api.Evolves.{same-Evolves, OthersEvolve, IsSoundStore}
use sitescore.Api.Dispatcher.{
  dispatch_analysis, select_pending, pending_row, publish, record_published, record_attempt,
  update_pending, dispatched, drain_pending, pending_ids, by_time, insert_by_time, drain,
}
use sitescore.Api.Dispatcher.Bounds.{drain_pending-bounded}
use sitescore.Api.Lifecycle.{
  Submission, AcceptedAnalysisResource, submit, accept, insert_analysis, insert_unless, clashes,
  new_analysis, new_dispatch, on_clash, replay, replayed, find_submission, retrieve,
}
use sitescore.Api.Lifecycle.Replay.{submit-IsAccepted, submit-replays}
use sitescore.Api.Worker.{Services, completed, execute_analysis, Generator}
use sitescore.Api.Worker.Keeping.{IsCurrent}
use sitescore.Api.Worker.Pairing.{execute_analysis-IsPaired}
use sitescore.Api.ReportBackend.{Payload, Storage, content_of, binding, resolve_row}
use sitescore.Api.ReportBackend.Answers.{resolve_row-found, content_of-bound}
use sitescore.Api.Service.{
  Steps, stop, step, submitted, retrieved, executed, terminal-stays, marked-stays, empty_store,
  IsConsistent, reached-IsConsistent,
}

-- Everything answers, nobody else writes, and the clock counts the turns.
abbrev quiet : Env
quiet = record {
  now = λ t. t;
  reachable = λ t. true;
  others = λ t s. s;
  commit = λ t. Delivery.done;
  broker = λ t. Delivery.done;
  authority = λ t. true;
}

quiet_evolves : OthersEvolve quiet
unfolding OthersEvolve
quiet_evolves t s = same-Evolves s

quiet_keeps : OthersKeep quiet IsPaired
unfolding OthersKeep
quiet_keeps t s p = p

abbrev world_of : Store → World
world_of s = record { store = s; turn = 0; tasks = [] }

abbrev request : Submission
request = record {
  analysis_id = 7;
  request_id = 70;
  consumer_id = 1;
  idempotency_key = "order-1";
  request_payload = scalar "coffee";
  request_hash = 99;
}

-- The same request under another identity.
abbrev again : Submission
again = record request { analysis_id = 8; request_id = 80 }

abbrev accepted_7 : AcceptedAnalysisResource
accepted_7 = record { analysis_id = 7; state = PublicState.queued }

abbrev fresh : World
fresh = world_of empty_store

abbrev submitted_world : World
submitted_world = (submit quiet 60 5 request fresh).1

submit_run : (submit quiet 60 5 request fresh).0 ≡ ok accepted_7
unfolding submit accept insert_analysis insert_unless clashes new_analysis new_dispatch on_clash
    transact settle attempt calls dispatch_analysis select_pending pending_row publish
    record_published record_attempt update_pending dispatched send_task sent_as
submit_run = refl

replay_run : (submit quiet 60 6 again submitted_world).0 ≡ ok accepted_7
unfolding submit accept insert_analysis insert_unless clashes new_analysis new_dispatch on_clash
    replay replayed find_submission transact settle attempt calls dispatch_analysis select_pending
    pending_row publish record_published record_attempt update_pending dispatched send_task sent_as
replay_run = refl

reached_example : IsConsistent submitted_world.store
reached_example =
    reached-IsConsistent quiet fresh submitted_world quiet_evolves refl
      (step stop (submitted 60 5 request))

replays_example :
    (accepted_7.analysis_id ≡ accepted_7.analysis_id) × (request.request_hash ≡ again.request_hash)
replays_example =
    submit-replays request again accepted_7 accepted_7 quiet 60 6 submitted_world.store
      submitted_world quiet_evolves reached_example.unique
      (submit-IsAccepted request quiet 60 5 fresh accepted_7 quiet_evolves submit_run)
      (same-Evolves submitted_world.store) refl refl replay_run

abbrev row_7 : AnalysisRow
row_7 = record {
  analysis_id = 7;
  consumer_id = 1;
  creation_request_id = 70;
  api_version = "v1";
  state = PublicState.running;
  request_payload = scalar "coffee";
  request_hash = 99;
  idempotency_key = "order-1";
  task_id = 5;
  created_at = 0;
  updated_at = 1;
  started_at = some 1;
  finished_at = none;
  deadline_at = 60;
  canonical_success_at = some 3;
  result_body = none;
  readiness_body = none;
  failure_code = none;
  failure_message = none;
}

abbrev ended_7 : AnalysisRow
ended_7 = record row_7 {
  state = PublicState.failed;
  finished_at = some 4;
  canonical_success_at = none;
  failure_code = some "analysis_execution_failed";
}

abbrev store_of : AnalysisRow → Store
store_of r = record { analyses = r ∷ []; dispatches = []; reports = [] }

abbrev report_7 : PreparedReportArtifact
report_7 = record {
  report_id = 12;
  analysis_id = 7;
  report_artifact_version = report_artifact_version;
  state = ReportState.ready;
  provenance = record {
    analysis_fingerprint = "f";
    report_schema_version = "1";
    report_projection_version = "1";
    narrative_prompt_version = "1";
    narrative_schema_version = "1";
    narrative_provider = "p";
    narrative_model_id = none;
    narrative_generation_mode = some "fallback";
    narrative_fallback_version = none;
    presentation_schema_version = "1";
    presentation_policy_version = "1";
    template_version = "1";
    stylesheet_version = "1";
    chart_version = "1";
    renderer_version = "1";
    generated_at = 5;
  };
  content_sha256 = some 1234;
  mime_type = some "application/pdf";
  filename = some "report.pdf";
  byte_length = some 10;
  storage_key = some "reports/7";
  failure_code = none;
  failure_message = none;
}

abbrev generator : Generator
generator = λ consumer_id analysis_id body now. some report_7

abbrev services : Services
services = record {
  execute = λ now job. some (completed (scalar "92"));
  report_artifacts = some generator;
  head = λ t key. none;
}

services-IsCurrent : IsCurrent services.report_artifacts
unfolding IsCurrent
services-IsCurrent g c k body now a h e = ground arith

row-IsSound : IsSound row_7
row-IsSound = record {
  unscored = λ _. refl;
  unfinished = refl;
  early = λ t h. ground arith;
  marked = inr (inl refl);
  scored = λ h. ground arith;
  timeout = λ h. ground arith;
}

row_7-IsSound : IsSoundStore (store_of row_7)
unfolding IsSoundStore
row_7-IsSound r (inl e) = subst IsSound (sym e) row-IsSound
row_7-IsSound r (inr m) = elim m [ ]

abbrev later : World → World
later w = (execute_analysis quiet services 7 (retrieve quiet 7 1 w).1).1

later_steps : (w : World) → Steps quiet w (later w)
later_steps w = step (step stop (retrieved 7 1)) (executed services 7 services-IsCurrent)

terminal_example : Member ended_7 (later (world_of (store_of ended_7))).store.analyses
terminal_example =
    terminal-stays quiet quiet_evolves (world_of (store_of ended_7))
      (later (world_of (store_of ended_7))) ended_7 (later_steps (world_of (store_of ended_7)))
      (inl refl) refl

marked_example :
    (r : AnalysisRow) × (Member r (later (world_of (store_of row_7))).store.analyses
      × ((r.analysis_id ≡ 7) × (r.state ≢ PublicState.timed_out)))
marked_example =
    marked-stays quiet quiet_evolves (world_of (store_of row_7)) (later (world_of (store_of row_7)))
      row_7 (later_steps (world_of (store_of row_7))) row_7-IsSound (inl refl) refl

unfinished-IsPaired : IsPaired (store_of row_7)
unfolding IsPaired
unfinished-IsPaired r m e = ground arith

paired_example : IsPaired (execute_analysis quiet services 7 (world_of (store_of row_7))).1.store
paired_example =
    execute_analysis-IsPaired quiet services generator 7 (world_of (store_of row_7)) quiet_keeps
      refl services-IsCurrent unfinished-IsPaired

resolve_example : resolve_row 7 1 (store_of row_7) ≢ err report_invariant_violation
resolve_example = resolve_row-found 7 1 (store_of row_7) unfinished-IsPaired

abbrev shelf : Storage
shelf = record {
  head = λ key. some (record { byte_length = 10; content_type = none });
  get = λ key max_bytes. some (record { length = 10; digest = 1234; is_pdf = true });
}

abbrev shelf_row : ReportRow
shelf_row = record { artifact = report_7; created_at = 6; updated_at = 6 }

abbrev pdf : Payload
pdf = record { length = 10; digest = 1234; is_pdf = true }

content_run : content_of shelf 100 shelf_row ≡ ok pdf
unfolding content_of binding
content_run = refl

bytes_example :
    (is_ready shelf_row.artifact.state ≡ true)
    × ((shelf_row.artifact.content_sha256 ≡ some pdf.digest)
        × ((shelf_row.artifact.byte_length ≡ some pdf.length) × (pdf.is_pdf ≡ true)))
bytes_example = content_of-bound shelf 100 shelf_row pdf content_run

drain_run : (drain_pending quiet 3 submitted_world).0 ≡ ok 0
unfolding drain_pending pending_ids by_time insert_by_time drain submit accept insert_analysis
    insert_unless clashes new_analysis new_dispatch on_clash transact settle attempt calls
    dispatch_analysis select_pending pending_row publish record_published record_attempt
    update_pending dispatched send_task sent_as
drain_run = refl

drain_example : 0 ≤ 3
drain_example = drain_pending-bounded quiet 3 submitted_world 0 drain_run

abbrev key_id : Text
key_id = 107 ∷ 49 ∷ []

abbrev secret : Text
secret = 115 ∷ []

abbrev key_store : KeyStore
key_store = record { consumers = record { consumer_id = 1; active = true } ∷ []; keys = [] }

abbrev digest : Text → ℕ
digest t = 5

provisioned : Result Text × KeyStore
provisioned = provision_service_key digest 10 3 key_id secret 1 ("report:read" ∷ []) key_store

provisioned_token : provisioned.0 ≡ ok (token_of key_id secret)
unfolding provisioned provision_service_key insert_key is_subset
provisioned_token = refl

provided_example :
    authenticate_bearer digest provisioned.1 (some (header_of (token_of key_id secret)))
    ≡ ok (record { consumer_id = 1; key_record_id = 3; scopes = "report:read" ∷ [] })
unfolding provisioned
provided_example =
    authenticate-provided digest 10 3 key_id secret 1 ("report:read" ∷ []) key_store
      (token_of key_id secret) refl refl refl provisioned_token

accepted :
    authenticate_bearer digest provisioned.1 (some (header_of (token_of key_id secret)))
    ≡ ok (record { consumer_id = 1; key_record_id = 3; scopes = "report:read" ∷ [] })
unfolding provisioned provision_service_key insert_key is_subset authenticate_bearer bearer_token
    split_token check_record
accepted = refl

recorded_example :
    (r : ServiceApiKey) × IsRecorded digest provisioned.1
      (some (header_of (token_of key_id secret)))
      (record { consumer_id = 1; key_record_id = 3; scopes = "report:read" ∷ [] })
      r
recorded_example =
    authenticate-IsRecorded digest provisioned.1 (some (header_of (token_of key_id secret)))
      (record { consumer_id = 1; key_record_id = 3; scopes = "report:read" ∷ [] }) accepted
