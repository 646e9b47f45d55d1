-- ===== src/Api/Lifecycle/Replay.antt =====
-- The idempotency keys of submissions (`submit` of lifecycle.py).
use sitescore.Common.{
  ℕ, Bool, true, false, eq_iff, ◌≡◌, refl, sym, ap, subst, ◌∙◌, inl, arith, Option, none, some,
  List, [], ◌∷◌, Member,
}
use sitescore.Common.Action.{commits, rolls_back, Result, ok, err, integrity_error, pure, calls}
use sitescore.Api.Rows.{AnalysisRow, DispatchRow, Store}
use sitescore.Api.Moves.{Request}
use sitescore.Api.Session.{World, Env, transact, attempt}
use sitescore.Api.Keeps.{attempt-Keeps, pure-Keeps, transact_result, bind_result}
use sitescore.Api.Evolves.{
  Evolves, trans-Evolves, Successor, IsUnique, OthersEvolve, others-Evolves, Keeps-Evolves,
}
use sitescore.Api.Dispatcher.{dispatch_analysis}
use sitescore.Api.Dispatcher.Keeping.{dispatch_analysis-Keeps}
use sitescore.Api.Lifecycle.{
  Submission, AcceptedAnalysisResource, is_of, new_analysis, insert_unless, clashes,
  insert_analysis, find_submission, replayed, replay, on_clash, accept, submit,
}
use sitescore.Api.Lifecycle.Keeping.{submit-Keeps}

-- The store has the analysis that was given for the submission.
pub IsAccepted : Submission → AcceptedAnalysisResource → Store → Type 0
IsAccepted c a s =
    (r : AnalysisRow) × (Member r s.analyses
      × ((r.analysis_id ≡ a.analysis_id)
          × ((r.consumer_id ≡ c.consumer_id)
              × ((r.idempotency_key ≡ c.idempotency_key) × (r.request_hash ≡ c.request_hash)))))

-- It stays when the store changes.
pub Evolves-IsAccepted :
    (c : Submission) (a : AcceptedAnalysisResource) (s t : Store)
    → Evolves s t
    → IsAccepted c a s
    → IsAccepted c a t
unfolding IsAccepted Successor
Evolves-IsAccepted c a s t v (r, (m, (i, (n, (k, h))))) =
    let (r', (m', q)) = v.rows r m in
    (
      r',
      (
        m',
        (
          ap (λ (x : Request). x.analysis_id) q.request ∙ i,
          (
            ap (λ (x : Request). x.consumer_id) q.request ∙ n,
            (
              ap (λ (x : Request). x.idempotency_key) q.request ∙ k,
              ap (λ (x : Request). x.request_hash) q.request ∙ h,
            ),
          ),
        ),
      ),
    )

module _ (c : Submission) where
  insert-IsAccepted :
      (b : Bool) (r : AnalysisRow) (d : DispatchRow) (s : Store) (a : AcceptedAnalysisResource)
      → r.consumer_id ≡ c.consumer_id
      → r.idempotency_key ≡ c.idempotency_key
      → r.request_hash ≡ c.request_hash
      → (insert_unless b r d s).0 ≡ ok (commits a)
      → IsAccepted c a (insert_unless b r d s).1
  unfolding insert_unless IsAccepted
  insert-IsAccepted true r d s a n k h e = ground arith
  insert-IsAccepted false r d s a n k h e = (r, (inl refl, (ground arith, (n, (k, h)))))

  no_rollback :
      (b : Bool) (r : AnalysisRow) (d : DispatchRow) (s : Store) (a : AcceptedAnalysisResource)
      → (insert_unless b r d s).0 ≡ ok (rolls_back a)
      → IsAccepted c a s
  unfolding insert_unless
  no_rollback true r d s a h = ground arith
  no_rollback false r d s a h = ground arith

  no_commit :
      (o : Option AnalysisRow) (s : Store) (a : AcceptedAnalysisResource)
      → replayed c.request_hash o ≡ ok (commits a)
      → IsAccepted c a s
  unfolding replayed
  no_commit none s a h = ground arith
  no_commit (some r) s a h = ground arith

  find_submission-Member :
      (rows : List AnalysisRow) (r : AnalysisRow)
      → find_submission c.consumer_id c.idempotency_key rows ≡ some r
      → Member r rows × (is_of c.consumer_id c.idempotency_key r ≡ true)
  unfolding find_submission
  find_submission-Member [] r h = ground arith
  find_submission-Member (x ∷ rs) r h = ground (arith, find_submission-Member rs r)

  replay-IsAccepted :
      (o : Option AnalysisRow) (s : Store) (a : AcceptedAnalysisResource)
      → ((r : AnalysisRow)
          → o ≡ some r
          → Member r s.analyses × (is_of c.consumer_id c.idempotency_key r ≡ true))
      → replayed c.request_hash o ≡ ok (rolls_back a)
      → IsAccepted c a s
  unfolding replayed IsAccepted
  replay-IsAccepted none s a f e = ground arith
  replay-IsAccepted (some r) s a f e =
      let (m, g) = f r refl in
      (
        r,
        (
          m,
          (
            ground arith,
            (
              ground arith,
              (ground (arith, eq_iff r.idempotency_key c.idempotency_key), ground arith),
            ),
          ),
        ),
      )

  IsAccepted-by_insert :
      (env : Env) (deadline_seconds task_id : ℕ) (w : World) (a : AcceptedAnalysisResource)
      → (transact env (insert_analysis deadline_seconds task_id c) w).0 ≡ ok a
      → IsAccepted c a (transact env (insert_analysis deadline_seconds task_id c) w).1.store
  unfolding insert_analysis new_analysis
  IsAccepted-by_insert env deadline_seconds task_id =
      transact_result (IsAccepted c) env _
        (λ now s x. insert-IsAccepted (clashes c s) _ _ s x refl refl refl)
        (λ now s x h. no_rollback (clashes c s) _ _ s x h)

  IsAccepted-by_replay :
      (env : Env) (w : World) (a : AcceptedAnalysisResource)
      → (transact env (replay c) w).0 ≡ ok a
      → IsAccepted c a (transact env (replay c) w).1.store
  unfolding replay
  IsAccepted-by_replay env =
      transact_result (IsAccepted c) env _ (λ now s x. no_commit _ s x)
        (λ now s x. replay-IsAccepted _ s x λ r. find_submission-Member s.analyses r)

  on_clash-IsAccepted :
      (env : Env) (r : Result AcceptedAnalysisResource) (w : World) (a : AcceptedAnalysisResource)
      → ((x : AcceptedAnalysisResource) → r ≡ ok x → IsAccepted c x w.store)
      → (on_clash env c r w).0 ≡ ok a
      → IsAccepted c a (on_clash env c r w).1.store
  unfolding on_clash
  on_clash-IsAccepted env (ok x) w a f h = f a h
  on_clash-IsAccepted env (err integrity_error) w a f h = IsAccepted-by_replay env w a h
  on_clash-IsAccepted env (err e) w a f h = ground arith

  accept-IsAccepted :
      (env : Env) (deadline_seconds task_id : ℕ) (w : World) (a : AcceptedAnalysisResource)
      → (accept env deadline_seconds task_id c w).0 ≡ ok a
      → IsAccepted c a (accept env deadline_seconds task_id c w).1.store
  unfolding accept attempt
  accept-IsAccepted env deadline_seconds task_id w a =
      on_clash-IsAccepted env _ _ a (IsAccepted-by_insert env deadline_seconds task_id w)

  same_answer :
      (env : Env) (b a : AcceptedAnalysisResource) (w : World)
      → (attempt (dispatch_analysis env b.analysis_id) (λ _. pure b) w).0 ≡ ok a
      → b ≡ a
  unfolding attempt calls
  same_answer env b a w h = ground arith

  dispatch-IsAccepted :
      (env : Env) (b a : AcceptedAnalysisResource) (w : World)
      → OthersEvolve env
      → IsAccepted c b w.store
      → (attempt (dispatch_analysis env b.analysis_id) (λ _. pure b) w).0 ≡ ok a
      → IsAccepted c a (attempt (dispatch_analysis env b.analysis_id) (λ _. pure b) w).1.store
  dispatch-IsAccepted env b a w others i h =
      let m = attempt (dispatch_analysis env b.analysis_id) (λ _. pure b) in
      let v = Keeps-Evolves m w (
        attempt-Keeps (Evolves w.store) _ _
          (dispatch_analysis-Keeps w.store env (others-Evolves env w.store others) b.analysis_id)
          λ _. pure-Keeps (Evolves w.store) _ b) in
      subst (λ x. IsAccepted c x (m w).1.store) (same_answer env b a w h)
        (Evolves-IsAccepted c b w.store (m w).1.store v i)

  -- The first transaction and its handler give the analysis; the dispatch leaves it.
  pub submit-IsAccepted :
      (env : Env) (deadline_seconds task_id : ℕ) (w : World) (a : AcceptedAnalysisResource)
      → OthersEvolve env
      → (submit env deadline_seconds task_id c w).0 ≡ ok a
      → IsAccepted c a (submit env deadline_seconds task_id c w).1.store
  unfolding submit
  submit-IsAccepted env deadline_seconds task_id w a others =
      bind_result (IsAccepted c) (accept env deadline_seconds task_id c) _ w a λ b h g.
        dispatch-IsAccepted env b a _ others (accept-IsAccepted env deadline_seconds task_id w b h)
          g

-- Two submissions under one key of a consumer that are both accepted.
module _ (c c' : Submission) (a a' : AcceptedAnalysisResource) where
  pub accepted_once :
      (s : Store)
      → IsUnique s
      → c.consumer_id ≡ c'.consumer_id
      → c.idempotency_key ≡ c'.idempotency_key
      → IsAccepted c a s
      → IsAccepted c' a' s
      → (a.analysis_id ≡ a'.analysis_id) × (c.request_hash ≡ c'.request_hash)
  unfolding IsAccepted IsUnique
  accepted_once s u n k (r, (m, (i, (n₁, (k₁, h₁))))) (r', (m', (i', (n', (k', h'))))) =
      let q = u r r' m m' (n₁ ∙ n ∙ sym n') (k₁ ∙ k ∙ sym k') in
      (
        sym i ∙ ap (λ (x : Request). x.analysis_id) q ∙ i',
        sym h₁ ∙ ap (λ (x : Request). x.request_hash) q ∙ h',
      )

  -- A submission under a key that already has an analysis gives that analysis, and is accepted only
  -- for the same request, whatever has happened since and happens meanwhile.
  pub submit-replays :
      (env : Env) (deadline_seconds task_id : ℕ) (s : Store) (w : World)
      → OthersEvolve env
      → IsUnique s
      → IsAccepted c a s
      → Evolves s w.store
      → c.consumer_id ≡ c'.consumer_id
      → c.idempotency_key ≡ c'.idempotency_key
      → (submit env deadline_seconds task_id c' w).0 ≡ ok a'
      → (a.analysis_id ≡ a'.analysis_id) × (c.request_hash ≡ c'.request_hash)
  submit-replays env deadline_seconds task_id s w others u i v n k h =
      let after = (submit env deadline_seconds task_id c' w).1.store in
      let v' = trans-Evolves s w.store after v (
        Keeps-Evolves _ w (
          submit-Keeps w.store env (others-Evolves env w.store others) deadline_seconds task_id
            c')) in
      accepted_once after (v'.unique u) n k (Evolves-IsAccepted c a s after v' i)
        (submit-IsAccepted c' env deadline_seconds task_id w a' others h)
