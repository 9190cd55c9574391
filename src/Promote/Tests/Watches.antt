-- ===== src/Promote/Tests/Watches.antt =====
-- A watch and its decisions at concrete inputs.
use lab_charts.Base.{
  ℕ, suc, ◌+◌, Bool, true, false, none, some, [], ◌∷◌, all, any, ◌≡◌, ◌≢◌, refl, arith, Text, text,
}
use lab_charts.Promote.Monitor.{
  poll_until_terminal, begin, jitter, do_sleep, is_cancelled, poll_loop, turn, evaluate, decide,
  settle, record_new, after_budget, after_evaluate, after_poll, cancelled_end, check_budget,
  disappeared, error_text, fetch_status, fetch_workloads, head_of, is_not_found, list_workloads,
  poll, poll_answer, poll_failed, read_clock, record_deduped, record_phase, redecide,
  same_signature, set_signature, set_status, set_workloads, skip_or_begin, which_budget,
  workloads_answer,
}
use lab_charts.Promote.Status.{condition, test_success, find_condition, released}
use lab_charts.Promote.Classify.{
  converged_hr, converging, not_converged_names, phase_detail, phase_label, status_is, stop,
}
use lab_charts.Promote.Action.{fuel_gone, pure, raise, ◌>>=◌}
use lab_charts.Base.{
  contains, list_beq, option_beq, keep, insert_sorted, sorted, text_leb, is_part, is_space, join,
  lstrip, show, starts_with, strip,
}
use lab_charts.Promote.Fanout.{push}
use lab_charts.Promote.State.{cut, is_terminal_ready_reason, reason_of, reason_value, verdict_beq}
use lab_charts.Promote.Monitor.Watch.{finalize}
use lab_charts.Promote.State.{is_passing, coerce_reason}
use lab_charts.Promote.Status.{
  HelmReleaseRef, ConditionSnapshot, HelmReleaseStatus, OwnedWorkload, WorkloadRollout,
}
use lab_charts.Promote.Classify.{classify}
use lab_charts.Promote.Classify.Laws.{verdict_of, classify_verdict}
use lab_charts.Promote.Action.{Result, ok, out_of_fuel}
use lab_charts.Promote.World.{World, IsMonotonic, answered}
use lab_charts.Promote.Monitor.Watch.{
  MonitorOutcome, WatchRequest, Diagnose, no_match_outcome, watch,
}
use lab_charts.Promote.Monitor.Watch.Laws.{IsJudged, watch_ends, watch_explained}

abbrev sample_ref : HelmReleaseRef
sample_ref = record {
  name = text "web";
  namespace = text "lab";
  api_version = text "v2";
  release_name = text "web";
  storage_namespace = text "lab";
  target_namespace = text "lab";
}

abbrev sample_condition : Text → Text → ConditionSnapshot
sample_condition type reason = record {
  type = type;
  status = text "True";
  reason = reason;
  message = text "done";
  last_transition_time = none;
}

abbrev progressing_status : HelmReleaseStatus
progressing_status = record {
  ref = sample_ref;
  observed_at = 0;
  generation = 2;
  observed_generation = 1;
  resource_version = text "7";
  suspended = false;
  desired_chart_name = some (text "web");
  desired_chart_version = some (text "1.2.0");
  last_applied_revision = none;
  history_chart_version = none;
  conditions = [];
}

abbrev ready_status : HelmReleaseStatus
ready_status = record progressing_status {
  observed_generation = 2;
  last_applied_revision = some (text "1.2.0");
  history_chart_version = some (text "1.2.0");
  conditions =
      sample_condition (text "Ready") (text "InstallSucceeded")
      ∷ sample_condition (text "Released") (text "InstallSucceeded")
      ∷ [];
}

abbrev sample_rollout : Bool → WorkloadRollout
sample_rollout converged = record {
  workload = record {
    kind = text "Deployment";
    namespace = text "lab";
    name = text "web";
    desired = 1;
    ready = 1;
    available = 1;
  };
  converged = converged;
  generation = 1;
  observed_generation = 1;
}

-- The outside is a clock: the release is ready at the first poll.
abbrev sample_world : World
sample_world = record {
  Outside = ℕ;
  now = λ w. w;
  clock = λ w. suc w;
  sleep = λ d w. w + d;
  rand = λ a b w. (a, w);
  cancel_is_set = λ w. (false, w);
  wall_clock = λ w. (w, w);
  report = λ r w. w;
  get_helmrelease_status = λ r t w. (answered ready_status, w);
  list_owned_workloads = λ r t w. (answered (sample_rollout true ∷ []), w);
}

sample_world-IsMonotonic : IsMonotonic sample_world
sample_world-IsMonotonic = record {
  clock_later = λ w. omega arith;
  sleep_long = λ d w. omega arith;
  rand_later = λ a b w. omega arith;
  cancel_later = λ w. omega arith;
  wall_later = λ w. omega arith;
  report_later = λ r w. omega arith;
  status_later = λ r t w. omega arith;
  workloads_later = λ r t w. omega arith;
}

abbrev sample_diagnose : Diagnose sample_world
sample_diagnose state verdict reason w = (text "diagnostics", w)

abbrev sample_request : WatchRequest
sample_request = record {
  version = text "1.2.0";
  per_poll = 1000;
  per_hr = 20000;
  total_deadline = 60000;
}

abbrev outcome_of : Result MonitorOutcome → MonitorOutcome
outcome_of (ok o) = o
outcome_of _ = no_match_outcome sample_ref 0

watched : ℕ → Result MonitorOutcome
watched w = (watch sample_world sample_diagnose 11 sample_request progressing_status w).0

watch_explained_example : IsJudged sample_world sample_request 5 (outcome_of (watched 5))
unfolding watched watch classify lab_charts.Promote.Status.ready all any poll_until_terminal
    condition test_success converged_hr begin ◌>>=◌ jitter do_sleep is_cancelled poll_loop turn
    evaluate decide settle record_new contains list_beq option_beq keep insert_sorted sorted
    text_leb is_part is_space join lstrip show starts_with strip text fuel_gone pure raise
    converging not_converged_names phase_detail phase_label status_is stop push finalize
    after_budget after_evaluate after_poll cancelled_end check_budget disappeared error_text
    fetch_status fetch_workloads head_of is_not_found list_workloads poll poll_answer poll_failed
    read_clock record_deduped record_phase redecide same_signature set_signature set_status
    set_workloads skip_or_begin which_budget workloads_answer coerce_reason cut is_passing
    is_terminal_ready_reason reason_of reason_value verdict_beq find_condition released
watch_explained_example =
    watch_explained sample_world sample_world-IsMonotonic sample_diagnose sample_request 10
      progressing_status 5 (omega arith) (outcome_of (watched 5)) refl

watch_ends_example : watched 5 ≢ out_of_fuel
unfolding watched
watch_ends_example =
    watch_ends sample_world sample_world-IsMonotonic sample_diagnose sample_request 10
      progressing_status 5 (omega arith)

-- A release that is ready but whose workload has not rolled out is waited for.
classify_verdict_example :
    verdict_of (classify ready_status (text "1.2.0") (some (sample_rollout false ∷ []))) ≡ none
unfolding status_is condition list_beq text lab_charts.Promote.Status.ready test_success
    converged_hr option_beq all
classify_verdict_example =
    classify_verdict ready_status (text "1.2.0") (some (sample_rollout false ∷ []))
