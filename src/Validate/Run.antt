-- ===== src/Validate/Run.antt =====
-- commands/validate/run.py: which rows a request names, their checks on threads or one at a time, and what
-- comes of the run. `select` of commands/validate/select.py, the loading of a chart, the map of the
-- thread pool and `Template.safe_substitute` are given.
pub mod Validated
use lab_charts.Base.{
  ℕ, ◌-◌, Bool, true, false, not, ◌&&◌, ◌||◌, Option, none, some, List, [], ◌∷◌, ◌++◌, map, any,
  keep, contains, distinct_of, length, nat_eq, list_eq, ◌==◌, sorted, text_leb, if◌then◌else◌, Text,
  text, join,
}
use lab_charts.Cluster.Effects.{
  Failure, spec_error, other_error, Try, returned, threw, Act, pure, throw, lift, catch, ◌>>=◌,
  ◌>>◌,
}
use lab_charts.Validate.Check.{
  CheckSpec, CheckedChart, Environment, CheckTools, is_requested, find_environment,
}
use lab_charts.Validate.Check.Steps.{Now, tool, check, skipped}
use lab_charts.Validate.Models.{
  CheckName, CheckResult, Checks, Row, ValidateOutcome, has_status, is_failing,
}

pub record ValidateRequest : Type 0 where
  pub charts : List Text
  pub out : Text
  pub envs : List Text
  pub checks : List CheckName
  pub changes : Option (List Text)
  pub fail_fast : Bool
  pub verbose : Bool

-- `Selection` of commands/validate/select.py, less its reasons
pub record Selection : Type 0 where
  pub rows : List Row
  pub charts : List (Text × CheckedChart)
  pub spec_errors : List Text
  pub warnings : List Text
  pub ignored_changes : List Text
  pub unmatched_changes : List Text
  pub charts_unvalidated : ℕ

-- what loading a chart comes to: `validation` is what `require_validation` makes of its lifecycle
pub data LoadedChart : Type 0 where
  loaded : (name path : Text) (validation : Try CheckSpec) → LoadedChart
  not_found malformed : Text → LoadedChart

-- a row with its checks, or the message of a SpecError
pub data Checked : Type 0 where
  checked : Row → Checked
  kept_out : Text → Checked

unfoldable pub namespace_for : (Text → Text → Text) → Text → Option Text → Option Text → Text
namespace_for substitute env (some (c ∷ cs)) template = c ∷ cs
namespace_for substitute env _ (some template) = substitute template env
namespace_for substitute env _ none = []

unfoldable pub environment_namespace : Option Environment → Option Text
environment_namespace none = none
environment_namespace (some e) = e.namespace

-- `selected_row`, of a section that names a namespace or a template; `substitute` is `Template(template).safe_substitute(env=env)`
unfoldable pub selected_row : (Text → Text → Text) → Text → CheckSpec → Text → Row
unfolding namespace_for environment_namespace find_environment
selected_row substitute chart spec env = record {
  chart = chart;
  env = env;
  release = spec.release_name;
  namespace =
      namespace_for substitute env (environment_namespace (find_environment env spec.environments))
        spec.namespace_template;
  checks = [];
}

unfoldable pub put_chart :
    Text → CheckedChart → List (Text × CheckedChart) → List (Text × CheckedChart)
put_chart name chart [] = (name, chart) ∷ []
put_chart name chart ((n, c) ∷ rest) =
    let later = put_chart name chart rest in if n == name then (n, chart) ∷ rest else (n, c) ∷ later

unfoldable pub find_chart : Text → List (Text × CheckedChart) → Option CheckedChart
find_chart name [] = none
find_chart name ((n, c) ∷ rest) =
    let later = find_chart name rest in if n == name then some c else later

abbrev env_names : CheckSpec → List Text
env_names spec = map (λ (e : Text × Environment). e.0) spec.environments

unfoldable pub fails : Checked → Bool
unfolding has_status
fails (checked row) = has_status is_failing row
fails (kept_out message) = false

unfoldable pub rows_of : List Checked → List Row
rows_of [] = []
rows_of (checked row ∷ rest) = row ∷ rows_of rest
rows_of (kept_out message ∷ rest) = rows_of rest

unfoldable pub errors_of : List Checked → List Text
errors_of [] = []
errors_of (checked row ∷ rest) = errors_of rest
errors_of (kept_out message ∷ rest) = message ∷ errors_of rest

-- the checks that a skipped row names
unfoldable pub requested_names : List CheckName → List CheckName
unfolding is_requested
requested_names requested =
    keep (λ name. is_requested name requested)
      (CheckName.render ∷ (CheckName.schema ∷ (CheckName.policy ∷ [])))

module _ (t : CheckTools) where
  pub record Given : Type 0 where
    pub select : Option (List Text) → Act (Now t) Selection
    pub load_chart : Text → Act (Now t) LoadedChart
    pub safe_substitute : (template env : Text) → Text
    pub pool_map : (Row → Act (Now t) Checked) → List Row → Act (Now t) (List Checked)

  module _ (g : Given) (q : ValidateRequest) where
    -- one name that a request has given
    unfoldable pub note_named : Text → LoadedChart → Selection → Act (Now t) Selection
    unfolding ◌>>=◌ pure throw lift put_chart selected_row
    note_named name (not_found message) s = throw (spec_error message)
    note_named name (malformed message) s =
        pure (record s { spec_errors = s.spec_errors ++ (name ++ (text ": " ++ message)) ∷ [] })
    note_named name (loaded chart path validation) s = do
      spec ← lift validation
      pure (record s {
        charts = put_chart name (record { name = chart; path = path; spec = spec }) s.charts;
        rows = s.rows ++ map (selected_row g.safe_substitute name spec) (env_names spec);
      })

    -- `_named`
    unfoldable pub named_from : List Text → Selection → Act (Now t) Selection
    unfolding ◌>>=◌ pure note_named
    named_from [] s = pure s
    named_from (name ∷ names) s = do
      found ← g.load_chart name
      s' ← note_named name found s
      named_from names s'

    abbrev nothing_selected : Selection
    nothing_selected = record {
      rows = [];
      charts = [];
      spec_errors = [];
      warnings = [];
      ignored_changes = [];
      unmatched_changes = [];
      charts_unvalidated = 0;
    }

    unfoldable pub has_chart : List (Text × CheckedChart) → Row → Bool
    unfolding find_chart
    has_chart charts row = any (λ (c : Text × CheckedChart). c.0 == row.chart) charts

    unfoldable pub and_changed : Selection → Option (List Text) → Act (Now t) Selection
    unfolding ◌>>=◌ pure has_chart
    and_changed named none = pure named
    and_changed named (some changes) = do
      changed ← g.select (some changes)
      pure (record named {
        rows = keep (has_chart named.charts) changed.rows;
        warnings = changed.warnings;
        ignored_changes = changed.ignored_changes;
        unmatched_changes = changed.unmatched_changes;
      })

    -- `_selection`
    unfoldable pub selection_for : List Text → Act (Now t) Selection
    unfolding ◌>>=◌ named_from and_changed
    selection_for [] = g.select q.changes
    selection_for (c ∷ cs) = do
      named ← named_from (c ∷ cs) nothing_selected
      and_changed named q.changes

    unfoldable pub declared : Selection → List Text
    declared s = joined s.charts
      where
        joined : List (Text × CheckedChart) → List Text
        joined [] = []
        joined ((n, c) ∷ rest) = env_names c.spec ++ joined rest

    unfoldable pub unknown_envs : Selection → List Text
    unfolding declared
    unknown_envs s =
        sorted text_leb (distinct_of (keep (λ env. not (contains (declared s) env)) q.envs))

    unfoldable pub require_known : Selection → List Text → Act (Now t) Unit
    unfolding throw pure declared
    require_known s [] = pure tt
    require_known s (e ∷ es) = throw (
        spec_error (
          text "unknown environment(s): "
          ++ (join (text ", ") (e ∷ es)
              ++ (text "; declared: "
                  ++ join (text ", ") (sorted text_leb (distinct_of (declared s)))))))

    -- the rows of the environments asked for
    unfoldable pub rows_for : Selection → List Row
    rows_for s =
        if q.envs == [] then s.rows else keep (λ (row : Row). contains q.envs row.env) s.rows

    unfoldable pub or_kept_out : Row → Failure → Act (Now t) Checked
    unfolding pure throw
    or_kept_out row (spec_error message) = pure (kept_out (row.chart ++ (text ": " ++ message)))
    or_kept_out row x = throw x

    -- the checks of a row, of the chart that is found for it
    unfoldable pub check_found : Row → Option CheckedChart → Act (Now t) Checked
    unfolding ◌>>=◌ pure throw check
    check_found row none = throw (other_error row.chart)
    check_found row (some chart) = do
      checks ← check t chart row (t.beside (t.beside q.out row.chart) row.env) q.checks
      pure (checked (record row { checks = checks }))

    -- `check` of `run`
    unfoldable pub check_row : Selection → Row → Act (Now t) Checked
    unfolding catch check_found or_kept_out find_chart
    check_row s row = catch (check_found row (find_chart row.chart s.charts)) (or_kept_out row)

    unfoldable pub skip_each : Row → Text → List CheckName → Act (Now t) Checks
    unfolding ◌>>=◌ pure skipped
    skip_each row reason [] = pure []
    skip_each row reason (name ∷ names) = do
      result ← skipped t row name reason
      rest ← skip_each row reason names
      pure ((name, result) ∷ rest)

    -- `skip_all`
    unfoldable pub skip_all : Row → Text → Act (Now t) Checked
    unfolding ◌>>=◌ pure skip_each requested_names
    skip_all row reason = do
      checks ← skip_each row reason (requested_names q.checks)
      pure (checked (record row { checks = checks }))

    -- one row, after a failed one or not
    unfoldable pub one_row : Selection → Bool → Row → Act (Now t) Checked
    unfolding skip_all check_row
    one_row s true row = skip_all row (text "fail-fast")
    one_row s false row = check_row s row

    -- `_one_at_a_time`, from a row on
    unfoldable pub one_at_a_time : Selection → Bool → List Row → Act (Now t) (List Checked)
    unfolding ◌>>=◌ pure one_row fails
    one_at_a_time s stopped [] = pure []
    one_at_a_time s stopped (row ∷ rows) = do
      result ← one_row s stopped row
      rest ← one_at_a_time s (stopped || (q.fail_fast && fails result)) rows
      pure (result ∷ rest)

    unfoldable pub results_for : Selection → Act (Now t) (List Checked)
    unfolding one_at_a_time check_row rows_for
    results_for s =
        if q.verbose || q.fail_fast
        then one_at_a_time s false (rows_for s)
        else g.pool_map (check_row s) (rows_for s)

    unfoldable pub outcome_of : Selection → List Checked → ValidateOutcome
    unfolding rows_for rows_of errors_of
    outcome_of s results = record {
      rows = rows_of results;
      spec_errors = s.spec_errors ++ errors_of results;
      warnings = s.warnings;
      diagnostics = record {
        requested_charts = q.charts;
        requested_envs = q.envs;
        ignored_changes = s.ignored_changes;
        unmatched_changes = s.unmatched_changes;
        rows_filtered_out = length s.rows - length (rows_for s);
        charts_unvalidated = s.charts_unvalidated;
      };
    }

    -- `run`
    unfoldable pub run : Act (Now t) ValidateOutcome
    unfolding ◌>>=◌ pure selection_for require_known unknown_envs results_for outcome_of
    run = do
      s ← selection_for q.charts
      require_known s (unknown_envs s)
      results ← results_for s
      pure (outcome_of s results)
