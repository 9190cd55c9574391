-- ===== src/Charts/InstallPlan.antt =====
-- shared/charts/install_plan.py: a chart-test profile and all that it requires, dependencies first.
-- What `load_chart` returns for each name and which files exist are read from the checkout, and are
-- parameters. The depth-first search takes fuel, a bound on its depth.
pub mod Order
pub mod Reach
pub mod Depth
pub mod Cycles
pub mod Invariant
use lab_charts.Base.{
  ℕ, zero, suc, Bool, true, false, not, Option, none, some, List, [], ◌∷◌, ◌++◌, map, keep, nat_eq,
  list_eq, pair_eq, ◌==◌, contains, if◌then◌else◌, Text, text,
}
use lab_charts.Charts.Result.{
  Key, ChartError, missing_values, dependency_cycle, Result, ok, err, out_of_fuel, ◌>>=◌,
}
use lab_charts.Charts.Lifecycle.{
  ChartTestRef, ChartTestProfile, Chart, require_chart_test, require_chart_test_profile,
}

pub record InstallPlanEntry : Type 0 where
  pub chart : Chart
  pub profile : Text
  pub spec : ChartTestProfile
  pub namespace : Text
  pub values : List Text

abbrev pub entry_key : InstallPlanEntry → Key
entry_key x = (x.chart.name, x.profile)

abbrev pub ref_key : ChartTestRef → Key
ref_key r = (r.chart, r.profile)

-- the locals of `install_plan` that `visit` changes
pub record Search : Type 0 where
  pub charts : List (Text × Chart)
  pub plan : List InstallPlanEntry
  pub planned : List Key
  pub visiting : List Key

abbrev pub empty_search : Search
empty_search = record { charts = []; plan = []; planned = []; visiting = [] }

unfoldable pub find_chart : Text → List (Text × Chart) → Option Chart
find_chart name [] = none
find_chart name ((n, c) ∷ rest) = if n == name then some c else find_chart name rest

-- `visiting.pop()`
unfoldable pub pop : List Key → List Key
pop [] = []
pop (x ∷ []) = []
pop (x ∷ y ∷ r) = x ∷ pop (y ∷ r)

-- the loop over `spec.requires`
unfoldable pub visit_all :
    (Key → Search → Result Search) → List ChartTestRef → Search → Result Search
visit_all visit [] s = ok s
visit_all visit (r ∷ rs) s = do s' ← visit (ref_key r) s; visit_all visit rs s'

-- what the checkout holds
pub record Checkout : Type 0 where
  pub load_chart : Text → Result Chart
  pub exists : Text → Bool

module _ (k : Checkout) where
  -- `_values`
  unfoldable pub profile_values : Chart → Text → ChartTestProfile → Result (List Text)
  profile_values chart profile spec =
      let paths = map (λ v. chart.path ++ (text "/" ++ v)) spec.values in
      let missing = keep (λ p. not (k.exists p)) paths in
      if missing == [] then ok paths else err (missing_values (chart.name, profile) missing)

  unfoldable pub load_missing : Text → Search → Option Chart → Result (Chart × Search)
  load_missing name s (some c) = ok (c, s)
  load_missing name s none = do
    c ← k.load_chart name
    ok (c, record s { charts = (name, c) ∷ s.charts })

  -- the chart of that name, loaded once
  unfoldable pub cached_chart : Text → Search → Result (Chart × Search)
  unfolding load_missing find_chart
  cached_chart name s = load_missing name s (find_chart name s.charts)

  unfoldable pub test_profile : Chart → Text → Result ChartTestProfile
  test_profile chart profile = do
    spec ← require_chart_test chart.lifecycle chart.name
    require_chart_test_profile spec profile

  -- the last steps of `visit`, once all that the profile requires is planned
  unfoldable pub append_entry : Key → Chart → ChartTestProfile → Search → Result Search
  append_entry key chart spec s = do
    values ← profile_values chart key.1 spec
    ok (record s {
      visiting = pop s.visiting;
      planned = s.planned ++ key ∷ [];
      plan =
          s.plan
          ++ (record {
            chart = chart;
            profile = key.1;
            spec = spec;
            namespace = spec.namespace;
            values = values;
          }
              ∷ []);
    })

  -- a chart that is neither planned nor being visited
  unfoldable pub enter : (Key → Search → Result Search) → Key → Search → Result Search
  unfolding cached_chart append_entry visit_all
  enter visit key s = do
    found ← cached_chart key.0 (record s { visiting = s.visiting ++ key ∷ [] })
    spec ← test_profile found.0 key.1
    s' ← visit_all visit spec.requires found.1
    append_entry key found.0 spec s'

  unfoldable pub visit_step : (Key → Search → Result Search) → Key → Search → Result Search
  unfolding enter
  visit_step visit key s =
      if contains s.planned key
      then ok s
      else if contains s.visiting key
      then err (dependency_cycle (s.visiting ++ key ∷ []))
      else enter visit key s

  unfoldable pub visit : ℕ → Key → Search → Result Search
  visit zero key s = out_of_fuel
  visit (suc depth) key s = visit_step (visit depth) key s

  unfoldable pub install_plan : ℕ → Text → Text → Result (List InstallPlanEntry)
  unfolding visit
  install_plan depth chart profile = do s ← visit depth (chart, profile) empty_search; ok s.plan
