-- ===== src/Charts/Samples.antt =====
-- A checkout of two charts, one of which requires the other, for the tests.
use lab_charts.Base.{
  true, none, some, List, [], ◌∷◌, ◌++◌, ◌==◌, nat_eq, list_eq, pair_eq, if◌then◌else◌, Text, text,
}
use lab_charts.Charts.Result.{Result, ok, err, load_failed}
use lab_charts.Charts.Lifecycle.{ChartTestRef, ChartTestProfile, ChartLifecycle, Chart}
use lab_charts.Charts.InstallPlan.{Checkout}

abbrev pub sample_profile : List ChartTestRef → ChartTestProfile
sample_profile requires = record {
  namespace = text "lab";
  requires = requires;
  values = text "values.yaml" ∷ [];
  helm_test = true;
  timeout = text "5m";
  hooks = none;
}

abbrev pub sample_lifecycle : Text → List ChartTestRef → ChartLifecycle
sample_lifecycle name requires = record {
  name = name;
  enabled = true;
  validation = none;
  chart_test = some (record {
    enabled = true;
    profiles = (text "default", sample_profile requires) ∷ [];
    dependent_tests = [];
  });
}

abbrev pub sample_chart : Text → List ChartTestRef → Chart
sample_chart name requires = record {
  name = name;
  path = text "charts/" ++ name;
  lifecycle = some (sample_lifecycle name requires);
}

abbrev pub db_ref : ChartTestRef
db_ref = record { chart = text "db"; profile = text "default" }

abbrev pub app_chart : Chart
app_chart = sample_chart (text "app") (db_ref ∷ [])

abbrev pub db_chart : Chart
db_chart = sample_chart (text "db") []

unfoldable pub sample_load : Text → Result Chart
sample_load n =
    if n == text "app"
    then ok app_chart
    else if n == text "db"
    then ok db_chart
    else err (load_failed n)

abbrev pub sample_checkout : Checkout
sample_checkout = record { load_chart = sample_load; exists = λ p. true }
