-- ===== src/Test/Select.antt =====
-- commands/test/select.py: the chart tests that changed files, a list of charts or `--all` call for.
-- The charts that there are, what `load_chart` returns, what the LocalCluster names and
-- `fnmatch.fnmatchcase` are given. A path is named by its POSIX text.
pub mod Causes
use lab_charts.Base.{
  ℕ, Bool, true, false, not, ◌&&◌, ◌||◌, Option, none, some, List, [], ◌∷◌, ◌++◌, map, any, keep,
  contains, distinct_of, nat_eq, list_eq, pair_eq, ◌==◌, sorted, text_leb, if◌then◌else◌, Text,
  text,
}
use lab_charts.Charts.Result.{
  Key, ChartError, not_configured, lifecycle_disabled, capability_disabled, no_profiles,
  bad_request, Result, ok, err, out_of_fuel, ◌>>=◌,
}
use lab_charts.Charts.Lifecycle.{
  ChartTestRef, ChartTestProfile, ChartTestSpec, Chart, is_enabled, chart_test_status,
  require_chart_test, require_chart_test_profile, find_profile,
}
use lab_charts.Workspace.{PurePath, path_of, as_posix, chart_name_from_repo_path, pattern_matches}

pub data ReasonCode : Type 0 where
  chart_change declared_dependent_test chart_test_fanout : ReasonCode

pub record Reason : Type 0 where
  pub code : ReasonCode
  pub changed_file : Text
  pub detail : Text

pub record SelectedTest : Type 0 where
  pub chart : Text
  pub profile : Text
  pub reasons : List Reason

-- an entry of `dependentTests` that names no chart test, with the error that says so
pub record SpecIssue : Type 0 where
  pub chart : Text
  pub target : Key
  pub cause : ChartError

pub record Selection : Type 0 where
  pub tests : List SelectedTest
  pub spec_errors : List SpecIssue

-- the parts of a RepositoryWorkspace that the selection reads, and what the checkout holds
pub record Repo : Type 0 where
  pub charts_dir : PurePath
  pub local_cluster : Text
  pub shared_charts : List Text
  pub fanout_chart_test : List Text
  pub chart_names : List Text
  pub load_chart : Text → Result Chart
  -- the kind config and the bootstrap charts of the LocalCluster, where its file is there
  pub cluster_paths : Result (List Text)
  pub fnmatchcase : (name segment : Text) → Bool

abbrev pub workspace_file : Text
workspace_file = text ".chart-manager/workspace.yaml"

-- DEFAULT_PROFILE
abbrev pub default_profile_name : Text
default_profile_name = text "minimal"

unfoldable pub code_beq : ReasonCode → ReasonCode → Bool
code_beq chart_change chart_change = true
code_beq declared_dependent_test declared_dependent_test = true
code_beq chart_test_fanout chart_test_fanout = true
code_beq _ _ = false

unfoldable pub reason_beq : Reason → Reason → Bool
unfolding code_beq
reason_beq a b =
    code_beq a.code b.code && (a.changed_file == b.changed_file && a.detail == b.detail)

-- a dict from (chart, profile) to reasons, in the order of its keys' first use
abbrev pub Reasons : Type 0
Reasons = List (Key × List Reason)

unfoldable pub with_reason : Reason → List Reason → List Reason
unfolding reason_beq
with_reason reason found = if any (reason_beq reason) found then found else found ++ reason ∷ []

-- `add`
unfoldable pub add_reason : Key → Reason → Reasons → Reasons
unfolding with_reason
add_reason key reason [] = (key, with_reason reason []) ∷ []
add_reason key reason ((k, found) ∷ rest) =
    let later = add_reason key reason rest in
    if k == key then (k, with_reason reason found) ∷ rest else (k, found) ∷ later

unfoldable pub first_profile : Text → List Text → Result Text
first_profile chart [] = err (no_profiles chart)
first_profile chart (p ∷ ps) = ok p

-- a CapabilityUnavailableError
unfoldable pub is_unavailable : ChartError → Bool
is_unavailable (not_configured chart) = true
is_unavailable (lifecycle_disabled chart) = true
is_unavailable (capability_disabled chart) = true
is_unavailable _ = false

module _ (r : Repo) where
  -- `_chart_test`
  unfoldable pub chart_test : Text → Result ChartTestSpec
  chart_test chart = do loaded ← r.load_chart chart; require_chart_test loaded.lifecycle chart

  unfoldable pub enabled_among : List Text → Result (List Text)
  enabled_among [] = ok []
  enabled_among (name ∷ rest) = do
    chart ← r.load_chart name
    others ← enabled_among rest
    ok (if is_enabled (chart_test_status chart.lifecycle) then name ∷ others else others)

  -- `_default_profile`
  unfoldable pub default_profile : Text → Result Text
  unfolding chart_test first_profile
  default_profile chart = do
    spec ← chart_test chart
    let names = map (λ (p : Text × ChartTestProfile). p.0) spec.profiles
    if contains names default_profile_name
        then ok default_profile_name
        else first_profile chart (sorted text_leb names)

  -- `{chart: _default_profile(chart) for chart in enabled}`
  unfoldable pub profiles_of : List Text → Result (List Key)
  unfolding default_profile
  profiles_of [] = ok []
  profiles_of (chart ∷ rest) = do
    profile ← default_profile chart
    others ← profiles_of rest
    ok ((chart, profile) ∷ others)

  unfoldable pub repo_chart_path : Text → Text
  repo_chart_path name = as_posix (record r.charts_dir { names = r.charts_dir.names ++ name ∷ [] })

  -- `_fanout_patterns`
  unfoldable pub fanout_patterns : Result (List Text)
  unfolding repo_chart_path distinct_of
  fanout_patterns = do
    cluster ← r.cluster_paths
    ok (
        sorted text_leb (
          distinct_of (
            r.fanout_chart_test
            ++ (r.local_cluster
                ∷ workspace_file
                ∷ (map repo_chart_path r.shared_charts ++ cluster)))))

  unfoldable pub shared_by : Text → List Text → Option Text
  shared_by pattern [] = none
  shared_by pattern (chart ∷ rest) =
      let later = shared_by pattern rest in
      if pattern == repo_chart_path chart then some chart else later

  unfoldable pub detail_of : Text → Option Text → Text
  detail_of pattern (some chart) = chart ++ text " is a shared chart used by every chart test"
  detail_of pattern none =
      if not (contains r.fanout_chart_test pattern)
        && not (contains (r.local_cluster ∷ workspace_file ∷ []) pattern)
      then pattern ++ text " is part of the LocalCluster every chart test runs on"
      else text "workspace chart-test fanout matched " ++ pattern

  -- `_fanout_detail`
  unfoldable pub fanout_detail : Text → Text
  unfolding shared_by detail_of
  fanout_detail pattern = detail_of pattern (shared_by pattern r.shared_charts)

  -- the changed paths, each once and in order
  unfoldable pub changed_paths : List Text → List Text
  unfolding distinct_of
  changed_paths changes =
      sorted text_leb
        (distinct_of (map (λ raw. as_posix (path_of raw)) (keep (λ raw. not (raw == [])) changes)))

  unfoldable pub matching_patterns : Text → List Text → List (Text × Text)
  matching_patterns path patterns =
      map (λ (pattern : Text). (path, pattern))
        (keep (λ pattern. pattern_matches r.fnmatchcase pattern (path_of path)) patterns)

  unfoldable pub fanout_of : List Text → List Text → List (Text × Text)
  unfolding matching_patterns
  fanout_of [] patterns = []
  fanout_of (path ∷ rest) patterns = matching_patterns path patterns ++ fanout_of rest patterns

  unfoldable pub add_fanout : Key → List (Text × Text) → Reasons → Reasons
  unfolding fanout_detail
  add_fanout key [] selected = selected
  add_fanout key ((path, pattern) ∷ rest) selected = add_fanout key rest (
      add_reason key
        (record { code = chart_test_fanout; changed_file = path; detail = fanout_detail pattern })
        selected)

  unfoldable pub add_fanouts : List Key → List (Text × Text) → Reasons → Reasons
  unfolding add_fanout
  add_fanouts [] fanout selected = selected
  add_fanouts (key ∷ rest) fanout selected =
      add_fanouts rest fanout (add_fanout key fanout selected)

  -- the locals `selected` and `errors`
  abbrev pub Found : Type 0
  Found = Reasons × List SpecIssue

  abbrev pub target_text : ChartTestRef → Text
  target_text ref = ref.chart ++ (text ":" ++ ref.profile)

  unfoldable pub add_dependent :
      Text → Text → ChartTestRef → Result ChartTestProfile → Found → Result Found
  add_dependent chart path ref out_of_fuel found = out_of_fuel
  add_dependent chart path ref (err x) (selected, errors) = ok (
    selected,
    errors ++ record { chart = chart; target = (ref.chart, ref.profile); cause = x } ∷ [],
  )
  add_dependent chart path ref (ok profile) (selected, errors) = ok (
    add_reason (ref.chart, ref.profile)
        (record {
          code = declared_dependent_test;
          changed_file = path;
          detail = chart ++ (text " declares dependent test " ++ target_text ref);
        })
        selected,
    errors,
  )

  -- the chart test that a reference names
  unfoldable pub named_profile : ChartTestRef → Result ChartTestProfile
  unfolding chart_test
  named_profile ref = do spec ← chart_test ref.chart; require_chart_test_profile spec ref.profile

  unfoldable pub add_dependents : Text → Text → List ChartTestRef → Found → Result Found
  unfolding add_dependent named_profile
  add_dependents chart path [] found = ok found
  add_dependents chart path (ref ∷ rest) found = do
    next ← add_dependent chart path ref (named_profile ref) found
    add_dependents chart path rest next

  unfoldable pub profile_for : Text → List Key → Option Text
  profile_for chart [] = none
  profile_for chart ((c, p) ∷ rest) =
      let later = profile_for chart rest in if c == chart then some p else later

  -- a path that belongs to a chart with chart tests
  unfoldable pub add_owned : Text → Text → Option Text → Found → Result Found
  unfolding add_dependents chart_test
  add_owned path chart none found = ok found
  add_owned path chart (some profile) (selected, errors) = do
    let change : Reason = record {
      code = chart_change;
      changed_file = path;
      detail = text "changed file belongs to " ++ (chart ++ text ", which has chart tests enabled");
    }
    spec ← chart_test chart
    add_dependents chart path spec.dependent_tests
        (add_reason (chart, profile) change selected, errors)

  unfoldable pub add_path : List Key → Text → Option Text → Found → Result Found
  unfolding add_owned profile_for
  add_path profiles path none found = ok found
  add_path profiles path (some chart) found =
      add_owned path chart (profile_for chart profiles) found

  unfoldable pub add_paths : List Key → List Text → Found → Result Found
  unfolding add_path
  add_paths profiles [] found = ok found
  add_paths profiles (path ∷ rest) found = do
    next ← add_path profiles path (chart_name_from_repo_path r.charts_dir (path_of path)) found
    add_paths profiles rest next

  -- `_reasons_for`
  unfoldable pub reasons_for : List Text → List Key → Result Found
  unfolding fanout_patterns changed_paths fanout_of add_fanouts add_paths
  reasons_for changes profiles = do
    patterns ← fanout_patterns
    let paths = changed_paths changes
    add_paths profiles paths (add_fanouts profiles (fanout_of paths patterns) [], [])

  -- the locals `selected` and `unavailable` of `_explicit`
  pub record Picked : Type 0 where
    pub selected : List SelectedTest
    pub unavailable : List Text

  unfoldable pub pick_one : Text → Result Text → Picked → Result Picked
  pick_one chart out_of_fuel picked = out_of_fuel
  pick_one chart (ok profile) picked = ok (record picked {
    selected = picked.selected ++ record { chart = chart; profile = profile; reasons = [] } ∷ [];
  })
  pick_one chart (err x) picked =
      if is_unavailable x
      then ok (record picked { unavailable = picked.unavailable ++ chart ∷ [] })
      else err x

  unfoldable pub pick_all : List Text → Picked → Result Picked
  unfolding pick_one default_profile
  pick_all [] picked = ok picked
  pick_all (chart ∷ rest) picked = do
    next ← pick_one chart (default_profile chart) picked
    pick_all rest next

  unfoldable pub refuse_bad : List Text → Picked → Result (List SelectedTest)
  refuse_bad unknown picked =
      if unknown == [] && picked.unavailable == []
      then ok picked.selected
      else err (bad_request unknown picked.unavailable)

  -- `_explicit`
  unfoldable pub explicit : List Text → Result (List SelectedTest)
  unfolding pick_all refuse_bad distinct_of
  explicit charts = do
    let requested = sorted text_leb (distinct_of charts)
    picked ←
        pick_all (keep (contains r.chart_names) requested)
          (record { selected = []; unavailable = [] })
    refuse_bad (keep (λ chart. not (contains r.chart_names chart)) requested) picked

  unfoldable pub as_test : Key × List Reason → SelectedTest
  as_test ((chart, profile), reasons) = record {
    chart = chart;
    profile = profile;
    reasons = reasons;
  }

  -- keys compare as tuples; no key stands twice
  unfoldable pub item_leb : Key × List Reason → Key × List Reason → Bool
  item_leb a b = if a.0.0 == b.0.0 then text_leb a.0.1 b.0.1 else text_leb a.0.0 b.0.0

  unfoldable pub select_changed : Option (List Text) → List Key → Result Selection
  unfolding reasons_for item_leb as_test
  select_changed none profiles =
      ok (record { tests = map (λ (key : Key). as_test (key, [])) profiles; spec_errors = [] })
  select_changed (some changes) profiles = do
    found ← reasons_for changes profiles
    ok (record { tests = map as_test (sorted item_leb found.0); spec_errors = found.1 })

  unfoldable pub select_tests : Option (List Text) → Result Selection
  unfolding enabled_among profiles_of select_changed
  select_tests changes = do
    enabled ← enabled_among r.chart_names
    profiles ← profiles_of enabled
    select_changed changes profiles

  unfoldable pub select : Option (List Text) → (charts : List Text) → Result Selection
  unfolding explicit select_tests
  select changes [] = select_tests changes
  select changes (chart ∷ charts) = do
    tests ← explicit (chart ∷ charts)
    ok (record { tests = tests; spec_errors = [] })
