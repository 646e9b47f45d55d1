-- ===== src/Api/Lifecycle/Keeping.antt =====
-- The analyses and their tasks under submission, retrieval and the sweep (lifecycle.py,
-- `reconcile_expired` of worker.py).
use sitescore.Common.{
  ℕ, ◌==◌, Bool, true, false, ◌≡◌, refl, ap, ◌⊎◌, ◌&&◌, inl, inr, arith, Option, none, some, List,
  [], ◌∷◌, Member, any, eq_iff, String,
}
use sitescore.Common.Action.{Result, ok, err, integrity_error}
use sitescore.Api.Rows.{AnalysisRow, DispatchRow, Store, get_analysis}
use sitescore.Api.Row.{expire}
use sitescore.Api.Moves.{Moves, expire-Moves}
use sitescore.Api.Sound.{IsSound, expire-IsSound}
use sitescore.Api.Session.{Env}
use sitescore.Api.Keeps.{Keeps, OthersKeep, transact-Keeps, attempt-Keeps, pure-Keeps, bind-Keeps}
use sitescore.Api.Evolves.{
  Evolves, trans-Evolves, same-Evolves, write-Evolves, insert-Evolves, map-Evolves,
}
use sitescore.Api.Dispatcher.Keeping.{dispatch_analysis-Keeps}
use sitescore.Api.Lifecycle.{
  Submission, AcceptedAnalysisResource, new_analysis, new_dispatch, is_of, clashes, insert_unless,
  answer, insert_analysis, replay, on_clash, accept, submit, retrieved, retrieve_row, retrieve,
  sweep, sweep_rows, reconcile_expired, with_swept,
}

new_analysis-IsSound :
    (deadline_seconds now task_id : ℕ) (c : Submission)
    → IsSound (new_analysis deadline_seconds now task_id c)
unfolding new_analysis
new_analysis-IsSound deadline_seconds now task_id c = record {
  unscored = λ _. refl;
  unfinished = refl;
  early = λ t h. ground arith;
  marked = inl refl;
  scored = λ h. ground arith;
  timeout = λ h. ground arith;
}

-- A row that the constraints let in has a new key.
any-Member :
    (consumer_id : ℕ) (key : String) (rows : List AnalysisRow) (x : AnalysisRow)
    → any (λ (r : AnalysisRow). is_of consumer_id key r) rows ≡ false
    → Member x rows
    → is_of consumer_id key x ≡ false
any-Member consumer_id key [] x h m = elim m [ ]
any-Member consumer_id key (r ∷ rs) x h m = ground (arith, any-Member consumer_id key rs x)

insert-unless-Evolves :
    (b : Bool) (r : AnalysisRow) (d : DispatchRow) (s : Store)
    → IsSound r
    → d.analysis_id ≡ r.analysis_id
    → d.task_id ≡ r.task_id
    → (b ≡ false
        → (x : AnalysisRow) → Member x s.analyses
        → is_of r.consumer_id r.idempotency_key x ≡ false)
    → Evolves s (insert_unless b r d s).1
unfolding insert_unless
insert-unless-Evolves true r d s i a t fresh = same-Evolves s
insert-unless-Evolves false r d s i a t fresh =
    insert-Evolves s r d i a t
      λ x m c k. ground (arith, fresh refl x m, eq_iff x.idempotency_key r.idempotency_key)

insert_analysis-Evolves :
    (deadline_seconds task_id : ℕ) (c : Submission) (now : ℕ) (s : Store)
    → Evolves s (insert_analysis deadline_seconds task_id c now s).1
unfolding insert_analysis new_dispatch new_analysis clashes
insert_analysis-Evolves deadline_seconds task_id c now s =
    insert-unless-Evolves (clashes c s) _ _ s (new_analysis-IsSound deadline_seconds now task_id c)
      refl refl λ h x m. any-Member c.consumer_id c.idempotency_key s.analyses x (ground arith) m

answer-Evolves :
    (k : ℕ) (b : Bool) (row row' : AnalysisRow) (s : Store)
    → get_analysis k s ≡ some row
    → Moves row row'
    → (IsSound row → IsSound row')
    → Evolves s (answer b row' s).1
unfolding answer
answer-Evolves k true row row' s h m i = write-Evolves k s row row' h m i
answer-Evolves k false row row' s h m i = same-Evolves s

retrieved-Evolves :
    (k now : ℕ) (authority : Bool) (consumer_id : ℕ) (o : Option AnalysisRow) (s : Store)
    → get_analysis k s ≡ o
    → Evolves s (retrieved now authority consumer_id o s).1
unfolding retrieved
retrieved-Evolves k now authority consumer_id none s h = same-Evolves s
retrieved-Evolves k now authority consumer_id (some row) s h =
    answer-Evolves k (row.consumer_id == consumer_id) row _ s h (expire-Moves now row authority)
      λ i. expire-IsSound now row i authority

module _ (s₀ : Store) (env : Env) (others : OthersKeep env (Evolves s₀)) where
  on_clash-Keeps :
      (c : Submission) (r : Result AcceptedAnalysisResource) → Keeps (Evolves s₀) (on_clash env c r)
  unfolding on_clash Keeps replay
  on_clash-Keeps c (ok _) = λ w p. p
  on_clash-Keeps c (err integrity_error) =
      transact-Keeps (Evolves s₀) env others (replay c) λ now s p. p
  on_clash-Keeps c (err _) = λ w p. p

  pub accept-Keeps :
      (deadline_seconds task_id : ℕ) (c : Submission)
      → Keeps (Evolves s₀) (accept env deadline_seconds task_id c)
  unfolding accept
  accept-Keeps deadline_seconds task_id c =
      attempt-Keeps (Evolves s₀) _ _
        (transact-Keeps (Evolves s₀) env others _ λ now s p.
          trans-Evolves s₀ s _ p (insert_analysis-Evolves deadline_seconds task_id c now s))
        (on_clash-Keeps c)

  pub submit-Keeps :
      (deadline_seconds task_id : ℕ) (c : Submission)
      → Keeps (Evolves s₀) (submit env deadline_seconds task_id c)
  unfolding submit
  submit-Keeps deadline_seconds task_id c =
      bind-Keeps (Evolves s₀) _ _ (accept-Keeps deadline_seconds task_id c) λ a.
        attempt-Keeps (Evolves s₀) _ _ (dispatch_analysis-Keeps s₀ env others a.analysis_id)
          λ _. pure-Keeps (Evolves s₀) _ a

  pub retrieve-Keeps :
      (analysis_id consumer_id : ℕ) → Keeps (Evolves s₀) (retrieve env analysis_id consumer_id)
  unfolding retrieve retrieve_row Keeps
  retrieve-Keeps analysis_id consumer_id w =
      transact-Keeps (Evolves s₀) env others _
        (λ now s p.
          trans-Evolves s₀ s _ p
            (retrieved-Evolves analysis_id now (env.authority w.turn) consumer_id _ s refl))
        w

with_swept-Member :
    (b : Bool) (r x : AnalysisRow) (o : ℕ × List AnalysisRow)
    → Member x (with_swept b r o).1
    → (x ≡ r) ⊎ Member x o.1
with_swept-Member true r x o h = h
with_swept-Member false r x o h = h

Member-with_swept :
    (b : Bool) (r x : AnalysisRow) (o : ℕ × List AnalysisRow)
    → (x ≡ r) ⊎ Member x o.1
    → Member x (with_swept b r o).1
Member-with_swept true r x o h = h
Member-with_swept false r x o h = h

-- Every row of a sweep comes from one before it, and the other way round.
module _ (selected authority : ℕ → Bool) (now : ℕ) where
  swept : AnalysisRow → AnalysisRow
  swept r = expire now (selected r.analysis_id && authority r.analysis_id) r

  sweep-Member :
      (rows : List AnalysisRow) (x : AnalysisRow)
      → Member x (sweep selected authority now rows).1
      → (r : AnalysisRow) × (Member r rows × (x ≡ swept r))
  unfolding sweep swept
  sweep-Member [] x h = elim h [ ]
  sweep-Member (r ∷ rs) x h = elim (with_swept-Member _ (swept r) x _ h) [
    | inl e ↦ (r, (inl refl, e))
    | inr h' ↦ let (r', (g, e)) = sweep-Member rs x h' in (r', (inr g, e))
  ]

  Member-sweep :
      (rows : List AnalysisRow) (r : AnalysisRow)
      → Member r rows
      → Member (swept r) (sweep selected authority now rows).1
  unfolding sweep swept
  Member-sweep [] r h = elim h [ ]
  Member-sweep (x ∷ rs) r (inl e) = Member-with_swept _ (swept x) _ _ (inl (ap swept e))
  Member-sweep (x ∷ rs) r (inr h) = Member-with_swept _ (swept x) _ _ (inr (Member-sweep rs r h))

  sweep_rows-Evolves : (s : Store) → Evolves s (sweep_rows selected authority now s).1
  unfolding sweep_rows swept
  sweep_rows-Evolves s =
      map-Evolves s swept _ (λ r. expire-Moves now r _) (λ r i. expire-IsSound now r i _)
        (Member-sweep s.analyses) (sweep-Member s.analyses)

pub reconcile_expired-Keeps :
    (s₀ : Store) (env : Env) (selected authority : ℕ → Bool)
    → OthersKeep env (Evolves s₀)
    → Keeps (Evolves s₀) (reconcile_expired env selected authority)
unfolding reconcile_expired
reconcile_expired-Keeps s₀ env selected authority others =
    transact-Keeps (Evolves s₀) env others _
      λ now s p. trans-Evolves s₀ s _ p (sweep_rows-Evolves selected authority now s)
