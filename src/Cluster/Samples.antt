-- ===== src/Cluster/Samples.antt =====
-- Tools on which every call succeeds but the Helm test of `db`, for the tests. What lies outside is
-- the number of progress events.
use lab_charts.Base.{
  ℕ, suc, true, none, some, List, [], ◌∷◌, nat_eq, list_eq, ◌==◌, if◌then◌else◌, Text, text,
}
use lab_charts.Charts.Samples.{sample_checkout}
use lab_charts.Cluster.Effects.{spec_error, chart_error, returned, threw}
use lab_charts.Cluster.Tools.{
  Tools, Release, local_chart, CommandResult, exited, Document, scalar, mapping,
}
use lab_charts.Cluster.Releases.{Repository}

abbrev pub sample_documents : List Document
sample_documents =
    mapping (text "Deployment") none (some (text "web"))
    ∷ scalar
    ∷ mapping (text "CustomResourceDefinition") none (some (text "things.example.org"))
    ∷ []

abbrev pub test_result : Text → CommandResult
test_result name = record {
  returncode = exited (if name == text "db" then 1 else 0);
  stdout = text "done";
  stderr = [];
}

abbrev pub sample_tools : Tools
sample_tools = record {
  Outside = ℕ;
  report = λ ev n. suc n;
  parse_duration = λ s. returned 300000;
  parse_yaml_documents = λ s. returned sample_documents;
  redact = λ argv. text "***";
  ensure_dependencies = λ path n. (returned tt, n);
  lint = λ path values n. (returned tt, n);
  upgrade_install = λ r timeout n. (returned (text "applied"), n);
  manifest = λ name ns n. (returned (text "---"), n);
  list_releases = λ n. (returned [], n);
  helm_test = λ name ns timeout n. (returned (test_result name), n);
  create_namespace = λ ns n. (returned tt, n);
  workload_names = λ kind ns selector n. (returned (text "agent" ∷ []), n);
  rollout_status = λ kind name ns timeout n. (returned tt, n);
  wait_established = λ crd timeout n. (returned tt, n);
  wait_nodes_ready = λ timeout n. (returned tt, n);
  wait_workloads_ready = λ ns timeout n. (returned tt, n);
  wait_apiserver_ready = λ timeout n. (returned tt, n);
  diagnostics = λ ns n. (returned (text "pods: 0"), n);
  clusters = λ n. (returned [], n);
  control_plane_ip = λ name n. (returned (text "10.0.0.1"), n);
  ensure_cluster = λ name config n. (returned tt, n);
  delete_cluster = λ name n. (returned true, n);
  run_hook = λ c n. (returned (record { returncode = exited 0; stdout = []; stderr = [] }), n);
  run_checked = λ c n. (returned tt, n);
}

-- the same tools, with an apply that Helm refuses
abbrev pub refusing_tools : Tools
refusing_tools = record sample_tools {
  upgrade_install = λ r timeout n. (threw (chart_error (text "denied")), n);
}

abbrev pub sample_repository : Repository
sample_repository = record {
  root = text "/repo";
  under = λ s. s;
  resolve = λ s. s;
  parent = λ s. s;
  base_name = λ s. s;
  checkout_at = λ s. sample_checkout;
  exception_of = λ e. spec_error (text "chart");
}

abbrev pub sample_release : Release
sample_release = record {
  name = text "app";
  chart = local_chart (text "charts/app");
  namespace = text "lab";
  values = [];
  sets = [];
  timeout = text "5m";
  version = none;
  repo = none;
}
