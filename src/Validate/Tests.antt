-- ===== src/Validate/Tests.antt =====
-- A chart with two environments at concrete files.
mod Runs
use lab_charts.Base.{
  Bool, false, add_once, map, List, [], ◌∷◌, Every, nat_eq, list_eq, ◌==◌, ◌≡◌, refl, if◌then◌else◌,
  Text, text, sorted, distinct_of, keep, list_beq, contains, text_leb, any, starts_with, join,
  pair_beq,
}
use lab_charts.Charts.Result.{Key}
use lab_charts.Workspace.{
  path_of, pattern_matches, split_slash, as_posix, chart_name_from_repo_path, parts, parts,
}
use lab_charts.Validate.Triggers.{TriggerSpec, some_environments, triggered, stem}
use lab_charts.Validate.Triggers.Laws.{IsTriggered, triggered-IsTriggered}
use lab_charts.Validate.Select.{Reason, RowSource, Specs, reasons_for}
use lab_charts.Validate.Select.Rows.{IsRow, reasons_for-EveryRow}

abbrev two_envs : TriggerSpec
two_envs = record {
  environments = text "ci" ∷ (text "prod" ∷ []);
  triggers = (text "values-ci.yaml", some_environments (text "prod" ∷ [])) ∷ [];
  trigger_ignores = [];
  all_unmatched = false;
}

abbrev same : Text → Text → Bool
same name pattern = name == pattern

-- an authored trigger takes the place of the default one
authored_wins : (triggered same two_envs (path_of (text "values-ci.yaml"))).envs ≡ text "prod" ∷ []
unfolding triggered keep contains list_beq text as_posix path_of starts_with split_slash join
    add_once
authored_wins = refl

stem_of_hidden : stem (path_of (text "a/.env")) ≡ text ".env"
unfolding text stem path_of keep split_slash list_beq any
stem_of_hidden = refl

triggered-IsTriggered_example :
    IsTriggered same two_envs
      (path_of (text "values-ci.yaml"))
      (triggered same two_envs (path_of (text "values-ci.yaml")))
triggered-IsTriggered_example =
    triggered-IsTriggered same two_envs (path_of (text "values-ci.yaml"))

-- a chart of two environments, on which another one depends
abbrev source : RowSource
source = record {
  charts_dir = path_of (text "charts");
  policies_dir = path_of (text "policies");
  fanout_validation = [];
  dependents = λ chart. if chart == text "db" then text "app" ∷ [] else [];
  fnmatchcase = same;
}

abbrev two_charts : Specs
two_charts = (text "app", two_envs) ∷ ((text "db", two_envs) ∷ [])

abbrev two_changes : List Text
two_changes = text "charts/db/values-ci.yaml" ∷ (text "charts/app/README.md" ∷ [])

rows_selected :
    map (λ (row : Key × List Reason). row.0) (reasons_for source two_charts two_changes).reasons
    ≡ (text "app", text "ci") ∷ ((text "app", text "prod") ∷ ((text "db", text "prod") ∷ []))
unfolding reasons_for sorted distinct_of keep list_beq text contains text_leb any pattern_matches
    split_slash as_posix path_of starts_with join chart_name_from_repo_path parts pair_beq
rows_selected = refl

file_unmatched :
    (reasons_for source two_charts two_changes).unmatched ≡ text "charts/app/README.md" ∷ []
unfolding reasons_for sorted distinct_of keep list_beq text contains text_leb any pattern_matches
    split_slash as_posix path_of starts_with join chart_name_from_repo_path parts
file_unmatched = refl

reasons_for-EveryRow_example :
    Every (IsRow source two_charts two_changes) (reasons_for source two_charts two_changes).reasons
reasons_for-EveryRow_example = reasons_for-EveryRow source two_charts two_changes
