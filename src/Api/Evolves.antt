-- ===== src/Api/Evolves.antt =====
-- How the store of the analysis service may change: analyses move on or are added, rows stay sound,
-- and every analysis keeps a row in the outbox with its task.
use sitescore.Common.{
  ℕ, ◌≡◌, refl, sym, ap, subst, ◌∙◌, inl, inr, some, List, ◌∷◌, Member, find-Member, put-Member,
  put_rest, put_new, find, find_key, nat_eq,
}
use sitescore.Api.Rows.{
  AnalysisRow, DispatchRow, ReportRow, Store, get_analysis, get_dispatch, write_analysis,
  write_dispatch, analysis_key, dispatch_key,
}
use sitescore.Common.Action.{Action}
use sitescore.Api.Session.{World, Env}
use sitescore.Api.Keeps.{Keeps, OthersKeep}
use sitescore.Api.Moves.{Moves, same-Moves, trans-Moves, request_of, Request}
use sitescore.Api.Sound.{IsSound}

unfoldable pub IsSoundStore : Store → Type 0
IsSoundStore s = (r : AnalysisRow) → Member r s.analyses → IsSound r

-- A row of the outbox for the task of the analysis.
unfoldable pub HasTask : AnalysisRow → Store → Type 0
HasTask r s =
    (d : DispatchRow) × (Member d s.dispatches
      × ((d.analysis_id ≡ r.analysis_id) × (d.task_id ≡ r.task_id)))

unfoldable pub IsTasked : Store → Type 0
IsTasked s = (r : AnalysisRow) → Member r s.analyses → HasTask r s

-- One request for an idempotency key of a consumer.
unfoldable pub IsUnique : Store → Type 0
IsUnique s =
    (r r' : AnalysisRow)
    → Member r s.analyses
    → Member r' s.analyses
    → r.consumer_id ≡ r'.consumer_id
    → r.idempotency_key ≡ r'.idempotency_key
    → request_of r ≡ request_of r'

-- A row with the request of `r`.
HasRequest : AnalysisRow → Store → Type 0
HasRequest r s = (x : AnalysisRow) × (Member x s.analyses × (request_of x ≡ request_of r))

-- Uniqueness carries over to a table whose requests are from `s`.
carry-IsUnique :
    (s t : Store)
    → ((r : AnalysisRow) → Member r t.analyses → HasRequest r s)
    → IsUnique s
    → IsUnique t
unfolding IsUnique HasRequest
carry-IsUnique s t from u r r' h h' c k =
    let (x, (g, e)) = from r h in
    let (x', (g', e')) = from r' h' in
    let same =
      u x x' g g'
        (ap (λ (q : Request). q.consumer_id) e ∙ c ∙ ap (λ (q : Request). q.consumer_id) (sym e'))
        (ap (λ (q : Request). q.idempotency_key) e
          ∙ k
          ∙ ap (λ (q : Request). q.idempotency_key) (sym e')) in
    sym e ∙ same ∙ e'

unfoldable pub Successor : AnalysisRow → Store → Type 0
Successor r t = (r' : AnalysisRow) × (Member r' t.analyses × Moves r r')

pub record Evolves (s t : Store) : Type 0 where
  pub rows : (r : AnalysisRow) → Member r s.analyses → Successor r t
  pub sound : IsSoundStore s → IsSoundStore t
  pub tasked : IsTasked s → IsTasked t
  pub unique : IsUnique s → IsUnique t

pub same-Evolves : (s : Store) → Evolves s s
unfolding Successor
same-Evolves s = record {
  rows = λ r h. (r, (h, same-Moves r));
  sound = λ i. i;
  tasked = λ i. i;
  unique = λ i. i;
}

pub trans-Evolves : (s t u : Store) → Evolves s t → Evolves t u → Evolves s u
unfolding Successor
trans-Evolves s t u f g = record {
  rows = λ r h.
      let (r', (h', m)) = f.rows r h in
      let (r'', (h'', m')) = g.rows r' h' in (r'', (h'', trans-Moves r r' r'' m m'));
  sound = λ i. g.sound (f.sound i);
  tasked = λ i. g.tasked (f.tasked i);
  unique = λ i. g.unique (f.unique i);
}

moved-HasTask : (r r' : AnalysisRow) (s : Store) → Moves r r' → HasTask r s → HasTask r' s
unfolding HasTask
moved-HasTask r r' s m (d, (h, (a, t))) =
    let same_id = ap (λ (q : Request). q.analysis_id) m.request in
    let same_task = ap (λ (q : Request). q.task_id) m.request in
    (d, (h, (a ∙ sym same_id, t ∙ sym same_task)))

module _ (k : ℕ) (s : Store) (row row' : AnalysisRow) (h : get_analysis k s ≡ some row)
    (m : Moves row row') where
  key_of : row'.analysis_id ≡ k
  key_of = ap (λ (r : Request). r.analysis_id) m.request ∙ find_key analysis_key k s.analyses row h

  found : find analysis_key row'.analysis_id s.analyses ≡ some row
  found = subst (λ i. find analysis_key i s.analyses ≡ some row) (sym key_of) h

  -- The row of an analysis that is found is replaced by one that it may move to.
  pub write-Evolves : (IsSound row → IsSound row') → Evolves s (write_analysis row' s)
  unfolding Successor IsSoundStore IsTasked HasTask HasRequest
  write-Evolves i = record {
    unique = carry-IsUnique s _ λ r g. elim (put-Member analysis_key row' s.analyses r g) [
      | inl e ↦ (
        row,
        (find-Member analysis_key k s.analyses row h, sym m.request ∙ ap request_of (sym e)),
      )
      | inr g' ↦ (r, (g', refl))
    ];
    rows = λ r g. elim (put_rest analysis_key row' s.analyses row r found g) [
      | inl e ↦ (
        row',
        (put_new analysis_key row' s.analyses row found, subst (λ x. Moves x row') (sym e) m),
      )
      | inr g' ↦ (r, (g', same-Moves r))
    ];
    sound = λ j r g. elim (put-Member analysis_key row' s.analyses r g) [
      | inl e ↦ subst IsSound (sym e) (i (j row (find-Member analysis_key k s.analyses row h)))
      | inr g' ↦ j r g'
    ];
    tasked = λ j r g. elim (put-Member analysis_key row' s.analyses r g) [
      | inl e ↦
          subst (λ x. HasTask x s) (sym e)
            (moved-HasTask row row' s m (j row (find-Member analysis_key k s.analyses row h)))
      | inr g' ↦ j r g'
    ];
  }

module _ (k : ℕ) (s : Store) (d d' : DispatchRow) (h : get_dispatch k s ≡ some d)
    (same_id : d'.analysis_id ≡ d.analysis_id) (same_task : d'.task_id ≡ d.task_id) where
  found_dispatch : find dispatch_key d'.analysis_id s.dispatches ≡ some d
  found_dispatch =
      subst (λ i. find dispatch_key i s.dispatches ≡ some d)
        (sym (same_id ∙ find_key dispatch_key k s.dispatches d h)) h

  -- A row of the outbox keeps its task.
  pub write_dispatch-Evolves : Evolves s (write_dispatch d' s)
  unfolding Successor IsSoundStore IsTasked HasTask IsUnique
  write_dispatch-Evolves = record {
    unique = λ j. j;
    rows = λ r g. (r, (g, same-Moves r));
    sound = λ j. j;
    tasked = λ j r g.
        let (x, (g', (a, t))) = j r g in
        elim (put_rest dispatch_key d' s.dispatches d x found_dispatch g') [
          | inl e ↦ (
            d',
            (
              put_new dispatch_key d' s.dispatches d found_dispatch,
              (
                same_id ∙ ap (λ (y : DispatchRow). y.analysis_id) (sym e) ∙ a,
                same_task ∙ ap (λ (y : DispatchRow). y.task_id) (sym e) ∙ t,
              ),
            ),
          )
          | inr g'' ↦ (x, (g'', (a, t)))
        ];
  }

insert-IsUnique :
    (s : Store) (r : AnalysisRow) (d : DispatchRow)
    → ((x : AnalysisRow)
        → Member x s.analyses
        → x.consumer_id ≡ r.consumer_id
        → x.idempotency_key ≡ r.idempotency_key
        → request_of x ≡ request_of r)
    → IsUnique s
    → IsUnique (record s { analyses = r ∷ s.analyses; dispatches = d ∷ s.dispatches })
unfolding IsUnique
insert-IsUnique s r d fresh u x y (inl e) (inl e') c k = ap request_of (e ∙ sym e')
insert-IsUnique s r d fresh u x y (inl e) (inr h) c k =
    ap request_of e
    ∙ sym (
        fresh y h (sym c ∙ ap (λ (z : AnalysisRow). z.consumer_id) e)
          (sym k ∙ ap (λ (z : AnalysisRow). z.idempotency_key) e))
insert-IsUnique s r d fresh u x y (inr h) (inl e) c k =
    fresh x h (c ∙ ap (λ (z : AnalysisRow). z.consumer_id) e)
      (k ∙ ap (λ (z : AnalysisRow). z.idempotency_key) e)
    ∙ ap request_of (sym e)
insert-IsUnique s r d fresh u x y (inr h) (inr h') c k = u x y h h' c k

-- A sound analysis is added with a row of the outbox for its task.
pub insert-Evolves :
    (s : Store) (r : AnalysisRow) (d : DispatchRow)
    → IsSound r
    → d.analysis_id ≡ r.analysis_id
    → d.task_id ≡ r.task_id
    → ((x : AnalysisRow)
        → Member x s.analyses
        → x.consumer_id ≡ r.consumer_id
        → x.idempotency_key ≡ r.idempotency_key
        → request_of x ≡ request_of r)
    → Evolves s (record s { analyses = r ∷ s.analyses; dispatches = d ∷ s.dispatches })
unfolding Successor IsSoundStore IsTasked HasTask
insert-Evolves s r d i a t fresh = record {
  unique = λ j. insert-IsUnique s r d fresh j;
  rows = λ x g. (x, (inr g, same-Moves x));
  sound = λ j x g. elim g [ inl e ↦ subst IsSound (sym e) i | inr g' ↦ j x g' ];
  tasked = λ j x g. elim g [
    | inl e ↦ (
      d,
      (
        inl refl,
        (
          a ∙ ap (λ (y : AnalysisRow). y.analysis_id) (sym e),
          t ∙ ap (λ (y : AnalysisRow). y.task_id) (sym e),
        ),
      ),
    )
    | inr g' ↦ let (y, (h, q)) = j x g' in (y, (inr h, q))
  ];
}

-- Every row of the table is changed in the same way.
pub map-Evolves :
    (s : Store) (f : AnalysisRow → AnalysisRow) (rows : List AnalysisRow)
    → ((r : AnalysisRow) → Moves r (f r))
    → ((r : AnalysisRow) → IsSound r → IsSound (f r))
    → ((r : AnalysisRow) → Member r s.analyses → Member (f r) rows)
    → ((x : AnalysisRow) → Member x rows → (r : AnalysisRow) × (Member r s.analyses × (x ≡ f r)))
    → Evolves s (record s { analyses = rows })
unfolding Successor IsSoundStore IsTasked HasTask HasRequest
map-Evolves s f rows m i into from = record {
  unique =
      carry-IsUnique s _
        λ x h. let (r, (g, e)) = from x h in (r, (g, sym (m r).request ∙ ap request_of (sym e)));
  rows = λ r h. (f r, (into r h, m r));
  sound = λ j x h. let (r, (g, e)) = from x h in subst IsSound (sym e) (i r (j r g));
  tasked = λ j x h.
      let (r, (g, e)) = from x h in
      subst (λ y. HasTask y s) (sym e) (moved-HasTask r (f r) s (m r) (j r g));
}

-- What others do to the store between the transactions of a call is done by this service too.
unfoldable pub OthersEvolve : Env → Type 0
OthersEvolve env = (t : ℕ) (s : Store) → Evolves s (env.others t s)

pub others-Evolves : (env : Env) (s₀ : Store) → OthersEvolve env → OthersKeep env (Evolves s₀)
unfolding OthersEvolve OthersKeep
others-Evolves env s₀ h t s p = trans-Evolves s₀ s _ p (h t s)

-- A call that keeps what the store has evolved to lets it evolve.
pub Keeps-Evolves :
    {A : Type 0} (m : Action World A) (w : World)
    → Keeps (Evolves w.store) m
    → Evolves w.store (m w).1.store
unfolding Keeps
Keeps-Evolves m w h = h w (same-Evolves w.store)

-- Reports are no part of an analysis.
pub reports-Evolves : (s : Store) (rs : List ReportRow) → Evolves s (record s { reports = rs })
unfolding Successor IsSoundStore IsTasked HasTask IsUnique
reports-Evolves s rs = record {
  rows = λ r h. (r, (h, same-Moves r));
  sound = λ i. i;
  tasked = λ i. i;
  unique = λ i. i;
}
