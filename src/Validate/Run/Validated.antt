-- ===== src/Validate/Run/Validated.antt =====
-- What a validation that returns has done: the rows that it names, what came of each, and the rows that
-- are skipped after a failed one.
use lab_charts.Base.{
  Bool, true, false, ◌&&◌, ◌||◌, Option, none, some, List, [], ◌∷◌, map, ◌≡◌, refl, sym, ap, subst,
  ◌∙◌, inl, inr, arith, Bool-cases, Text, text,
}
use lab_charts.Cluster.Effects.{
  Failure, Try, Act, returned, threw, on_failure, Returned, pure, throw, catch, returned-injective,
  >>=-returned, threw-is-no-returned,
}
use lab_charts.Validate.Check.{CheckedChart, CheckTools, result_of}
use lab_charts.Validate.Check.InOrder.{IsChecked, check-IsChecked}
use lab_charts.Validate.Check.Steps.{Now, check, skipped, tool}
use lab_charts.Validate.Models.{CheckName, Checks, Row, Status, ValidateOutcome}
use lab_charts.Validate.Run

module _ (t : CheckTools) (g : Run.Given t) (q : Run.ValidateRequest) where
  -- a row with its checks names the row that was checked
  abbrev pub IsRowResult : Row → Run.Checked → Type 0
  IsRowResult row (Run.checked r) =
      (record row { checks = r.checks } ≡ r) × IsChecked q.checks r.checks
  IsRowResult row (Run.kept_out message) = Unit

  skipped_checks : List CheckName → Checks
  skipped_checks names = map (λ name. (name, result_of Status.skipped (text "fail-fast"))) names

  -- a row with each check that was asked for skipped
  pub skipped_row : Row → Row
  skipped_row row = record row { checks = skipped_checks (Run.requested_names q.checks) }

  -- what each row comes to: it is checked, or skipped where an earlier one has stopped the run
  abbrev pub Follows : Run.Selection → Bool → List Row → List Run.Checked → Type 0
  Follows s stopped [] [] = Unit
  Follows s true (row ∷ rows) (result ∷ results) =
      (Run.checked (skipped_row row) ≡ result) × Follows s true rows results
  Follows s false (row ∷ rows) (result ∷ results) =
      Returned (Run.check_row t g q s row) result
      × IsRowResult row result
      × Follows s (q.fail_fast && Run.fails result) rows results
  Follows s stopped other results = false ≡ true

  check_found-IsRowResult :
      (row : Row) (found : Option CheckedChart) (w : Now t) {result : Run.Checked} {w' : Now t}
      → Run.check_found t g q row found w ≡ (returned result, w')
      → IsRowResult row result
  unfolding Run.check_found throw pure
  check_found-IsRowResult row none w h = absurd (threw-is-no-returned (ap (λ v. v.0) h))
  check_found-IsRowResult row (some chart) w h =
      let out = t.beside (t.beside q.out row.chart) row.env in
      let (checks, w1, e, h1) = >>=-returned (check t chart row out q.checks) _ w h in
      subst (IsRowResult row) (returned-injective (ap (λ v. v.0) h1))
        (refl, (check-IsChecked t chart row out q.checks w e).checked)

  or_kept_out-IsRowResult :
      (row : Row) (x : Failure) (w : Now t) {result : Run.Checked} {w' : Now t}
      → Run.or_kept_out t g q row x w ≡ (returned result, w')
      → IsRowResult row result
  unfolding Run.or_kept_out throw pure
  or_kept_out-IsRowResult row (Failure.spec_error m) w h =
      subst (IsRowResult row) (returned-injective (ap (λ v. v.0) h)) tt
  or_kept_out-IsRowResult row x w h = absurd (threw-is-no-returned (ap (λ v. v.0) h))

  handled-IsRowResult :
      (row : Row) (r : Try Run.Checked) (w : Now t) {result : Run.Checked} {w' : Now t}
      → (r ≡ returned result → IsRowResult row result)
      → on_failure (Run.or_kept_out t g q row) r w ≡ (returned result, w')
      → IsRowResult row result
  handled-IsRowResult row (returned a) w k h = k (ap (λ v. v.0) h)
  handled-IsRowResult row (threw x) w k h = or_kept_out-IsRowResult row x w h

  check_row-IsRowResult :
      (s : Run.Selection) (row : Row) (w : Now t) {result : Run.Checked} {w' : Now t}
      → Run.check_row t g q s row w ≡ (returned result, w')
      → IsRowResult row result
  unfolding Run.check_row catch
  check_row-IsRowResult s row w h =
      let found = Run.find_chart row.chart s.charts in
      handled-IsRowResult row (Run.check_found t g q row found w).0
        (Run.check_found t g q row found w).1
        (λ e.
          check_found-IsRowResult row found w
            (ap (λ v. (v, (Run.check_found t g q row found w).1)) e))
        h

  skip_each-map :
      (row : Row) (names : List CheckName) (w : Now t) {checks : Checks} {w' : Now t}
      → Run.skip_each t g q row (text "fail-fast") names w ≡ (returned checks, w')
      → skipped_checks names ≡ checks
  unfolding Run.skip_each pure skipped skipped_checks
  skip_each-map row [] w h = returned-injective (ap (λ v. v.0) h)
  skip_each-map row (name ∷ names) w h =
      let (r, w1, e1, h1) = >>=-returned (skipped t row name (text "fail-fast")) _ w h in
      let (rest, w2, e2, h2) =
        >>=-returned (Run.skip_each t g q row (text "fail-fast") names) _ w1 h1 in
      let (u, w3, e3, h3) =
        >>=-returned (tool t (t.row_update row.chart row.env name Status.skipped [])) _ w e1 in
      let same = returned-injective (ap (λ v. v.0) h3) in
      ap (λ r. (name, r) ∷ skipped_checks names) same
      ∙ (ap (λ cs. (name, r) ∷ cs) (skip_each-map row names w1 e2)
          ∙ returned-injective (ap (λ v. v.0) h2))

  skip_all-skipped_row :
      (row : Row) (w : Now t) {result : Run.Checked} {w' : Now t}
      → Run.skip_all t g q row (text "fail-fast") w ≡ (returned result, w')
      → Run.checked (skipped_row row) ≡ result
  unfolding Run.skip_all pure skipped_row
  skip_all-skipped_row row w h =
      let names = Run.requested_names q.checks in
      let (checks, w1, e, h1) =
        >>=-returned (Run.skip_each t g q row (text "fail-fast") names) _ w h in
      ap (λ cs. Run.checked (record row { checks = cs })) (skip_each-map row names w e)
      ∙ returned-injective (ap (λ v. v.0) h1)

  one_at_a_time-Follows :
      (s : Run.Selection) (stopped : Bool) (rows : List Row) (w : Now t)
      {results : List Run.Checked} {w' : Now t}
      → Run.one_at_a_time t g q s stopped rows w ≡ (returned results, w')
      → Follows s stopped rows results
  unfolding Run.one_at_a_time Run.one_row pure
  one_at_a_time-Follows s true [] w h =
      subst (Follows s true []) (returned-injective (ap (λ v. v.0) h)) tt
  one_at_a_time-Follows s false [] w h =
      subst (Follows s false []) (returned-injective (ap (λ v. v.0) h)) tt
  one_at_a_time-Follows s true (row ∷ rows) w h =
      let (r, w1, e1, h1) = >>=-returned (Run.one_row t g q s true row) _ w h in
      let (rest, w2, e2, h2) =
        >>=-returned (Run.one_at_a_time t g q s (true || (q.fail_fast && Run.fails r)) rows) _ w1
          h1 in
      subst (Follows s true (row ∷ rows)) (returned-injective (ap (λ v. v.0) h2))
        (skip_all-skipped_row row w e1, one_at_a_time-Follows s true rows w1 e2)
  one_at_a_time-Follows s false (row ∷ rows) w h =
      let (r, w1, e1, h1) = >>=-returned (Run.one_row t g q s false row) _ w h in
      let (rest, w2, e2, h2) =
        >>=-returned (Run.one_at_a_time t g q s (false || (q.fail_fast && Run.fails r)) rows) _ w1
          h1 in
      subst (Follows s false (row ∷ rows)) (returned-injective (ap (λ v. v.0) h2)) (
        record { before = w; after = w1; run = e1 },
        check_row-IsRowResult s row w e1,
        one_at_a_time-Follows s (q.fail_fast && Run.fails r) rows w1 e2,
      )

  -- each result is what the function returned for its row
  abbrev pub IsPaired : (Row → Act (Now t) Run.Checked) → List Row → List Run.Checked → Type 0
  IsPaired f [] [] = Unit
  IsPaired f (row ∷ rows) (result ∷ results) = Returned (f row) result × IsPaired f rows results
  IsPaired f other results = false ≡ true

  -- the map of a thread pool gives the results in the order of the rows
  pub record IsPool : Type 0 where
    pub paired :
        (f : Row → Act (Now t) Run.Checked) (rows : List Row) (w : Now t)
        (results : List Run.Checked) (w' : Now t)
        → g.pool_map f rows w ≡ (returned results, w')
        → IsPaired f rows results

  IsPaired-Follows :
      (s : Run.Selection) (rows : List Row) (results : List Run.Checked)
      → q.fail_fast ≡ false
      → IsPaired (Run.check_row t g q s) rows results
      → Follows s false rows results
  IsPaired-Follows s [] [] e p = tt
  IsPaired-Follows s [] (r ∷ rs) e p = p
  IsPaired-Follows s (row ∷ rows) [] e p = p
  IsPaired-Follows s (row ∷ rows) (r ∷ rs) e p = (
    p.0,
    check_row-IsRowResult s row p.0.before p.0.run,
    subst (λ b. Follows s (b && Run.fails r) rows rs) (sym e) (IsPaired-Follows s rows rs e p.1),
  )

  results_for-Follows :
      (s : Run.Selection) (w : Now t) {results : List Run.Checked} {w' : Now t}
      → IsPool
      → Run.results_for t g q s w ≡ (returned results, w')
      → Follows s false (Run.rows_for t g q s) results
  unfolding Run.results_for
  results_for-Follows s w {results} {w'} pool h = elim (Bool-cases (q.verbose || q.fail_fast)) [
    | inl e ↦ one_at_a_time-Follows s false (Run.rows_for t g q s) w (rw e at h)
    | inr e ↦
        IsPaired-Follows s (Run.rows_for t g q s) results (ground arith)
          (pool.paired (Run.check_row t g q s) (Run.rows_for t g q s) w results w' (rw e at h))
  ]

  known-require_known :
      (s : Run.Selection) (unknown : List Text) (w : Now t) {u : Unit} {w' : Now t}
      → Run.require_known t g q s unknown w ≡ (returned u, w')
      → unknown ≡ []
  unfolding Run.require_known throw
  known-require_known s [] w h = refl
  known-require_known s (e ∷ es) w h = absurd (threw-is-no-returned (ap (λ v. v.0) h))

  pub record IsValidated (v : ValidateOutcome) : Type 0 where
    pub selection : Run.Selection
    pub results : List Run.Checked
    pub selected : Returned (Run.selection_for t g q q.charts) selection
    pub all_known : Run.unknown_envs t g q selection ≡ []
    pub followed : Follows selection false (Run.rows_for t g q selection) results
    pub is_outcome : Run.outcome_of t g q selection results ≡ v

  -- Where the map of the thread pool keeps the order of the rows, a validation that returns knows every
  -- environment that it was asked for, and reports what each row of the selection has come to: its
  -- checks, each that was asked for and in order, or the error that keeps it out; with fail_fast, the
  -- rows after the first that fails have all their checks skipped.
  pub run-IsValidated :
      (w : Now t) {v : ValidateOutcome} {w' : Now t}
      → IsPool
      → Run.run t g q w ≡ (returned v, w')
      → IsValidated v
  unfolding Run.run pure
  run-IsValidated w pool h =
      let (s, w1, e1, h1) = >>=-returned (Run.selection_for t g q q.charts) _ w h in
      let (u, w2, e2, h2) =
        >>=-returned (Run.require_known t g q s (Run.unknown_envs t g q s)) _ w1 h1 in
      let (results, w3, e3, h3) = >>=-returned (Run.results_for t g q s) _ w2 h2 in
      record {
        selection = s;
        results = results;
        selected = record { before = w; after = w1; run = e1 };
        all_known = known-require_known s (Run.unknown_envs t g q s) w1 e2;
        followed = results_for-Follows s w2 pool e3;
        is_outcome = returned-injective (ap (λ v. v.0) h3);
      }
