-- ===== src/Test/Tests.antt =====
-- A chart test compiled at a concrete input.
mod Runs
mod Selections
use lab_charts.Base.{
  true, false, none, [], map, keep, list_beq, pair_beq, contains, ◌≡◌, refl, text,
}
use lab_charts.Charts.Result.{Result, ok}
use lab_charts.Charts.Lifecycle.{require_chart_test, require_chart_test_profile}
use lab_charts.Charts.InstallPlan.{visit_step, install_plan, test_profile, profile_values}
use lab_charts.Charts.Samples.{sample_checkout, sample_load}
use lab_charts.Test.Plan.{Requires, ChartTestRequest, Surroundings, Compilation, compilation}
use lab_charts.Test.Plan.Skips.{skipped_entry, left_out}
use lab_charts.Test.Plan.Merging.{distinct, keys_of}
use lab_charts.Test.Plan.Compiled.{IsCompiled, compilation-IsCompiled, compilation-skipped}

abbrev sample_surroundings : Surroundings
sample_surroundings = record {
  checkout = sample_checkout;
  resolve = λ p. p;
  executable_valid = λ x. true;
  bootstrap_owned = [];
}

abbrev sample_request : ChartTestRequest
sample_request = record {
  chart = text "app";
  profile = text "default";
  namespace = none;
  include_dependent_tests = false;
  lint = true;
}

sample_compilation : Result (Compilation sample_surroundings)
sample_compilation = compilation sample_surroundings 3 Requires.skip sample_request

abbrev compilation_of : Result (Compilation sample_surroundings) → Compilation sample_surroundings
compilation_of (ok c) = c
compilation_of _ = record {
  selected = [];
  entries = [];
  result = record {
    plan = record { chart = []; profile = []; actions = []; warnings = [] };
    skipped = [];
  };
}

compilation-IsCompiled_example :
    IsCompiled sample_surroundings 3 Requires.skip sample_request
      (compilation_of sample_compilation)
unfolding sample_compilation compilation install_plan visit_step contains sample_load list_beq text
    test_profile require_chart_test require_chart_test_profile pair_beq profile_values keep
compilation-IsCompiled_example =
    compilation-IsCompiled sample_surroundings 3 Requires.skip sample_request
      (compilation_of sample_compilation) refl

compilation-skipped_example :
    ((compilation_of sample_compilation).result.skipped
      ≡ map (skipped_entry sample_surroundings) (
          keep
            (left_out sample_surroundings Requires.skip true
              (compilation_of sample_compilation).selected)
            (compilation_of sample_compilation).entries))
    × (distinct (keys_of (compilation_of sample_compilation).entries) ≡ true)
unfolding sample_compilation compilation install_plan visit_step contains sample_load list_beq text
    test_profile require_chart_test require_chart_test_profile pair_beq profile_values keep
compilation-skipped_example =
    compilation-skipped sample_surroundings 3 Requires.skip sample_request
      (compilation_of sample_compilation) refl
