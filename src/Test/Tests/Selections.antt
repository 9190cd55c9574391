-- ===== src/Test/Tests/Selections.antt =====
-- Chart tests selected at a concrete change set.
use lab_charts.Charts.Lifecycle.{require_chart_test}
use lab_charts.Base.{
  List, [], ◌∷◌, ◌==◌, nat_eq, list_eq, refl, Text, text, sorted, add_once, contains, list_beq,
  text_leb, keep, starts_with, join, any,
}
use lab_charts.Charts.Result.{Key, ok}
use lab_charts.Charts.Samples.{sample_load}
use lab_charts.Workspace.{
  path_of, chart_name_from_repo_path, parts, split_slash, as_posix, pattern_matches,
  pattern_matches,
}
use lab_charts.Test.Select.{
  Repo, Reasons, chart_change, reasons_for, fanout_patterns, changed_paths, add_reason,
}
use lab_charts.Test.Select.Causes.{AllCaused, reasons_for-AllCaused}

abbrev lab_repo : Repo
lab_repo = record {
  charts_dir = path_of (text "charts");
  local_cluster = text "cluster.yaml";
  shared_charts = [];
  fanout_chart_test = [];
  chart_names = text "app" ∷ text "db" ∷ [];
  load_chart = sample_load;
  cluster_paths = ok [];
  fnmatchcase = λ n s. n == s;
}

abbrev lab_profiles : List Key
lab_profiles = (text "app", text "default") ∷ (text "db", text "default") ∷ []

abbrev lab_changes : List Text
lab_changes = text "charts/app/values.yaml" ∷ []

abbrev lab_patterns : List Text
lab_patterns = text ".chart-manager/workspace.yaml" ∷ text "cluster.yaml" ∷ []

abbrev lab_selected : Reasons
lab_selected =
    (
      (text "app", text "default"),
      record {
        code = chart_change;
        changed_file = text "charts/app/values.yaml";
        detail = text "changed file belongs to app, which has chart tests enabled";
      }
          ∷ [],
    )
    ∷ []

reasons_for-AllCaused_example :
    AllCaused lab_repo lab_profiles (changed_paths lab_repo lab_changes) lab_patterns lab_selected
unfolding reasons_for fanout_patterns text sorted add_once contains list_beq text_leb keep
    chart_name_from_repo_path parts path_of starts_with split_slash as_posix join sample_load
    require_chart_test add_reason pattern_matches any
reasons_for-AllCaused_example =
    reasons_for-AllCaused lab_repo lab_changes lab_profiles lab_patterns
      {found = (lab_selected, [])} refl refl
