-- ===== src/Promote/Tests/HelmTests.antt =====
-- A HelmRelease tested at concrete inputs.
use lab_charts.Plumbing.Lines.{truncate_bytes}
use lab_charts.Base.{ℕ, suc, false, none, some, [], ◌∷◌, refl, list_beq, contains, keep, text}
use lab_charts.Cluster.Effects.{returned, pure, attempt, ◌>>=◌}
use lab_charts.Cluster.Tools.{CommandResult, exited}
use lab_charts.Promote.State.{Verdict, Reason, member, is_passing}
use lab_charts.Promote.Status.{HelmReleaseRef, HelmReleaseStatus, condition, released}
use lab_charts.Promote.HelmTest.{
  Lab, TestTarget, TestContext, skip_of, in_flight_phase, stale_phase,
}
use lab_charts.Promote.HelmTest.Finish.{test_one}
use lab_charts.Promote.HelmTest.Outcomes.{IsOutcome, test_one-IsOutcome}

abbrev lab_ref : HelmReleaseRef
lab_ref = record {
  name = text "app";
  namespace = text "lab";
  api_version = text "v2";
  release_name = text "app";
  storage_namespace = text "lab";
  target_namespace = text "lab";
}

abbrev lab_status : HelmReleaseStatus
lab_status = record {
  ref = lab_ref;
  observed_at = 0;
  generation = 1;
  observed_generation = 1;
  resource_version = text "7";
  suspended = false;
  desired_chart_name = some (text "app");
  desired_chart_version = some (text "1.0.0");
  last_applied_revision = none;
  history_chart_version = none;
  conditions =
      record {
        type = text "Released";
        status = text "True";
        reason = text "InstallSucceeded";
        message = text "installed";
        last_transition_time = none;
      }
      ∷ [];
}

abbrev passing_result : CommandResult
passing_result = record { returncode = exited 0; stdout = text "ok"; stderr = [] }

-- What lies outside is the clock, which each reading moves on.
abbrev sample_lab : Lab
sample_lab = record {
  Outside = ℕ;
  clock = λ n. (n, suc n);
  cancel_is_set = λ n. (false, n);
  wall_clock = λ n. (n, n);
  report = λ row n. n;
  list_test_pods = λ ref timeout n. (
    returned
        (record { namespace = text "lab"; name = text "app-test"; phase = text "Succeeded" } ∷ []),
    n,
  );
  delete_pod = λ ns name timeout n. (returned tt, n);
  helm_test = λ release ns timeout cap n. (returned passing_result, n);
  get_helmrelease_status = λ ref timeout n. (returned lab_status, n);
  pod_logs = λ ns name tail previous timeout n. (returned (text "log"), n);
  namespace_events = λ ns timeout n. (text "events", n);
}

abbrev lab_target : TestTarget
lab_target = record {
  chart_name = text "app";
  version = text "1.0.0";
  per_poll = 10000;
  per_hr = 300000;
  pod_log_tail = 200;
  total_deadline = 900000;
}

abbrev start_context : TestContext sample_lab
start_context = record { transitions = []; outside = 0 }

test_one-IsOutcome_example : IsOutcome sample_lab lab_target lab_status (record {
  ref = lab_ref;
  verdict = Verdict.passed;
  reason = member Reason.all_tests_passed;
  returncode = some (exited 0);
  stdout = some (text "ok");
  stderr = some [];
  test_pods = [];
  last_status = some lab_status;
  transitions = (test_one sample_lab lab_target lab_status start_context).1.transitions;
  diagnostics = none;
  duration = 4;
})
unfolding test_one ◌>>=◌ skip_of released condition list_beq text pure attempt keep in_flight_phase
    contains stale_phase is_passing truncate_bytes
test_one-IsOutcome_example =
    test_one-IsOutcome sample_lab lab_target lab_status start_context
      {c' = (test_one sample_lab lab_target lab_status start_context).1} refl
