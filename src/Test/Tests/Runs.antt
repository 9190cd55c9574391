-- ===== src/Test/Tests/Runs.antt =====
-- Chart tests run and torn down at concrete inputs.
use lab_charts.Base.Lists.{keep}
use lab_charts.Cluster.Releases.{release}
use lab_charts.Cluster.Converge.{converge, kind_leb}
use lab_charts.Base.{
  true, false, none, some, List, [], ◌∷◌, refl, Every, list_beq, pair_beq, contains, keep, text,
  strip, is_space, show, sorted, add_once,
}
use lab_charts.Charts.InstallPlan.{InstallPlanEntry}
use lab_charts.Charts.Samples.{app_chart, db_chart, sample_profile, db_ref}
use lab_charts.Cluster.Effects.{
  returned, pure, lift, catch, attempt, ◌>>=◌, for_each, message_of, is_reported,
}
use lab_charts.Cluster.Tools.{Tools}
use lab_charts.Cluster.Samples.{sample_tools, sample_repository}
use lab_charts.Test.Plan.{
  ActionKind, LifecycleAction, LifecyclePlan, hook_cleanup, helm_test, install, namespace_ensure,
  helm_lint,
}
use lab_charts.Cluster.Bootstrap.{tell}
use lab_charts.Test.Hooks.{HookRunner, is_success, show_code}
use lab_charts.Test.Run.{
  ActionOutcome, ChartTestOutcome, execute, is_ok, failed_of, perform, outcome_of, pass, fail, skip,
  skip_reason, is_cleanup,
}
use lab_charts.Test.Run.Report.{IsReport, execute-IsReport}
use lab_charts.Test.Run.Success.{IsDone, report-IsDone}
use lab_charts.Test.Command.{Setting, RunRequest}
use lab_charts.Test.Command.Teardown.{TeardownRequest, TeardownOutcome}

abbrev db_entry : InstallPlanEntry
db_entry = record {
  chart = db_chart;
  profile = text "default";
  spec = sample_profile [];
  namespace = text "lab";
  values = [];
}

abbrev db_action : ActionKind → LifecycleAction
db_action kind = record { entry = db_entry; kind = kind; command = [] }

abbrev db_plan : LifecyclePlan
db_plan = record {
  chart = text "db";
  profile = text "default";
  actions =
      db_action namespace_ensure
      ∷ db_action helm_test
      ∷ db_action helm_lint
      ∷ db_action hook_cleanup
      ∷ [];
  warnings = [];
}

abbrev lab_hooks : HookRunner
lab_hooks = record { kube_context = text "kind-lab"; cluster_name = text "lab" }

abbrev db_outcomes : List ActionOutcome
db_outcomes =
    outcome_of (db_action namespace_ensure) pass none
    ∷ outcome_of (db_action helm_test) fail (some (text "helm test exited 1: done"))
    ∷ outcome_of (db_action helm_lint) skip (some (skip_reason true))
    ∷ outcome_of (db_action hook_cleanup) skip (some (skip_reason true))
    ∷ []

execute-IsReport_example :
    IsReport sample_tools sample_repository lab_hooks false 0 db_plan.actions db_outcomes 7
unfolding execute ◌>>=◌ attempt pure lift tell is_success list_beq text is_reported strip is_space
    message_of show_code show
execute-IsReport_example =
    execute-IsReport sample_tools sample_repository lab_hooks db_plan 0
      {end = (db_outcomes, text "pods: 0")} {w' = 7} refl

abbrev lab_tools : Tools
lab_tools = record sample_tools {
  list_releases = λ n. (
    returned (record { namespace = text "lab"; name = text "db"; status = text "deployed" } ∷ []),
    n,
  );
}

abbrev lab_setting : Setting
lab_setting = record {
  repository = sample_repository;
  cluster = record { config = text "kind.yaml"; hooks = none; releases = [] };
  charts_root = text "charts";
  executable_valid = λ e. true;
  command_timeout = 60000;
  depth = 3;
}

abbrev lab_request : RunRequest
lab_request = record {
  asked = record {
    chart = text "app";
    profile = text "default";
    namespace = none;
    include_dependent_tests = false;
    lint = false;
  };
  cluster_name = text "lab";
  ensure_cluster = false;
  skip_requires = true;
  run_provision_hooks = true;
}

abbrev app_action : ActionKind → LifecycleAction
app_action kind = record {
  entry = record {
    chart = app_chart;
    profile = text "default";
    spec = sample_profile (db_ref ∷ []);
    namespace = text "lab";
    values = text "charts/app/values.yaml" ∷ [];
  };
  kind = kind;
  command = [];
}

abbrev app_outcome : ChartTestOutcome
app_outcome = record {
  chart = text "app";
  profile = text "default";
  cluster_name = text "lab";
  actions =
      outcome_of (app_action namespace_ensure) pass none
      ∷ outcome_of (app_action install) pass none
      ∷ outcome_of (app_action helm_test) pass none
      ∷ [];
  diagnostics = [];
}

abbrev app_actions : List LifecycleAction
app_actions = app_action namespace_ensure ∷ app_action install ∷ []

abbrev ready_outcomes : List ActionOutcome
ready_outcomes =
    outcome_of (app_action namespace_ensure) pass none
    ∷ outcome_of (app_action install) pass none
    ∷ []

report-IsDone_example : Every (IsDone lab_tools sample_repository lab_hooks) app_actions
unfolding is_ok failed_of outcome_of perform is_cleanup ◌>>=◌ converge catch release lift pure
    for_each sorted add_once contains list_beq text pair_beq kind_leb execute tell attempt
report-IsDone_example =
    report-IsDone lab_tools sample_repository lab_hooks app_actions
      (record app_outcome { actions = ready_outcomes }) 0 4
      (execute-IsReport lab_tools sample_repository lab_hooks
        (record db_plan { actions = app_actions }) 0 {end = (ready_outcomes, [])} {w' = 4} refl)
      refl

abbrev lab_teardown : TeardownRequest
lab_teardown = record {
  chart = text "app";
  profile = text "default";
  namespace = none;
  cluster_name = text "lab";
  include_dependent_tests = false;
  keep_cluster = false;
}

abbrev lab_torn_down : TeardownOutcome
lab_torn_down = record {
  cluster_name = text "lab";
  cleanups = [];
  cluster_deleted = true;
  delete_error = none;
}
