-- ===== src/Promote/HelmTest/Finish.antt =====
-- commands/promote/test.py: `_finalize` and the failure report, and `test_one` as a whole.
use lab_charts.Base.{
  ℕ, ◌-◌, Bool, true, false, ◌&&◌, ◌||◌, Option, none, some, List, [], ◌∷◌, ◌++◌, map, take, join,
  nat_eq, list_eq, ◌==◌, if◌then◌else◌, Text, text,
}
use lab_charts.Cluster.Effects.{
  is_external, Try, returned, threw, pure, throw, attempt, ◌>>=◌, ◌>>◌,
}
use lab_charts.Cluster.Tools.{CommandResult, ExitCode}
use lab_charts.Plumbing.Lines.{truncate_bytes}
use lab_charts.Promote.Report.{header, conditions, failure_detail, capped_events}
use lab_charts.Promote.State.{
  Verdict, verdict_eq, verdict_value, is_passing, Reason, reason_value, ReasonLike, member,
  reason_text, Transition,
}
use lab_charts.Promote.Status.{HelmReleaseRef, HelmReleaseStatus}
use lab_charts.Promote.HelmTest.{
  TestPod, Lab, TestTarget, Ending, stale_phase, Step, call, read, record_phase, pipeline,
}

pub record TestPodSnapshot : Type 0 where
  pub namespace : Text
  pub name : Text
  pub phase : Text
  pub logs : Text
  pub previous_logs : Option Text

pub record TestOutcome : Type 0 where
  pub ref : HelmReleaseRef
  pub verdict : Verdict
  pub reason : ReasonLike
  pub returncode : Option ExitCode
  pub stdout : Option Text
  pub stderr : Option Text
  pub test_pods : List TestPodSnapshot
  pub last_status : Option HelmReleaseStatus
  pub transitions : List Transition
  pub diagnostics : Option Text
  pub duration : ℕ

-- `_no_match_outcome`, with NO_MATCH_REF
unfoldable pub no_match_outcome : HelmReleaseRef → ℕ → TestOutcome
no_match_outcome no_match_ref elapsed = record {
  ref = no_match_ref;
  verdict = Verdict.no_match;
  reason = member Reason.no_helmreleases_matched;
  returncode = none;
  stdout = none;
  stderr = none;
  test_pods = [];
  last_status = none;
  transitions = [];
  diagnostics = none;
  duration = elapsed;
}

-- _POD_LOG_MAX_BYTES, _DIAGNOSTICS_POD_CAP, _HELM_OUTPUT_MAX_BYTES
abbrev pub pod_log_max_bytes : ℕ
pod_log_max_bytes = 16384

abbrev pub diagnostics_pod_cap : ℕ
diagnostics_pod_cap = 5

abbrev pub helm_output_max_bytes : ℕ
helm_output_max_bytes = 32768

-- `reason in (Reason.TEST_FAILED, Reason.TEST_POD_CONFLICT)`
unfoldable pub wants_pods : ReasonLike → Bool
wants_pods r =
    reason_text r == reason_value Reason.test_failed
    || reason_text r == reason_value Reason.test_pod_conflict

unfoldable pub snapshot : TestPod → Text → Option Text → TestPodSnapshot
snapshot p logs previous = record {
  namespace = p.namespace;
  name = p.name;
  phase = p.phase;
  logs = logs;
  previous_logs = previous;
}

-- the pods' part of a report: the snapshots, and why there are none if they could not be listed
abbrev pub Snapshots : Type 0
Snapshots = List TestPodSnapshot × Option Text

unfoldable pub text_rows : Text → List Text
text_rows [] = []
text_rows (c ∷ cs) = (c ∷ cs) ∷ []

unfoldable pub previous_rows : Option Text → List Text
previous_rows none = []
previous_rows (some []) = []
previous_rows (some (c ∷ cs)) = text "\n##### previous" ∷ (c ∷ cs) ∷ []

unfoldable pub pod_rows : List TestPodSnapshot → List Text
unfolding text_rows previous_rows
pod_rows [] = []
pod_rows (p ∷ rest) =
    (text "\n#### "
      ++ (p.namespace ++ (text "/" ++ (p.name ++ (text " (phase=" ++ (p.phase ++ text ")"))))))
    ∷ (text_rows p.logs ++ (previous_rows p.previous_logs ++ pod_rows rest))

unfoldable pub snapshot_rows : Snapshots → List Text
unfolding pod_rows
snapshot_rows (pods, some detail) =
    text "\n### Test pod logs" ∷ (text "<test pods unavailable: " ++ (detail ++ text ">")) ∷ []
snapshot_rows ([], none) = []
snapshot_rows (p ∷ ps, none) = text "\n### Test pod logs" ∷ pod_rows (p ∷ ps)

unfoldable pub stale_row : Option Text → List Text
stale_row none = []
stale_row (some detail) =
    (text "- (status not refreshed: " ++ (detail ++ text "; any rows above predate `helm test`)"))
    ∷ []

unfoldable pub in_flight_rows : List TestPod → List Text
in_flight_rows [] = []
in_flight_rows (p ∷ ps) =
    text "\n### In-flight test pods"
    ∷ map
        (λ (p : TestPod).
          text "- "
          ++ (p.namespace ++ (text "/" ++ (p.name ++ (text " (phase=" ++ (p.phase ++ text ")"))))))
        (p ∷ ps)

unfoldable pub residual_rows : List Text → List Text
residual_rows [] = []
residual_rows (r ∷ rs) =
    text "\n### Residual test pods (delete failed)" ∷ map (λ entry. text "- " ++ entry) (r ∷ rs)

unfoldable pub inline_rows : Option Text → List Text
inline_rows none = []
inline_rows (some []) = []
inline_rows (some (c ∷ cs)) = text "\n### Detail" ∷ (c ∷ cs) ∷ []

unfoldable pub stderr_rows : Text → List Text
stderr_rows [] = []
stderr_rows (c ∷ cs) = text "\n#### stderr" ∷ truncate_bytes (c ∷ cs) helm_output_max_bytes ∷ []

unfoldable pub stdout_rows : Text → List Text
stdout_rows [] = []
stdout_rows (c ∷ cs) = truncate_bytes (c ∷ cs) helm_output_max_bytes ∷ []

unfoldable pub output_rows : Option CommandResult → List Text
unfolding stderr_rows stdout_rows
output_rows none = []
output_rows (some r) =
    if r.stdout == [] && r.stderr == []
    then []
    else text "\n### helm test output" ∷ (stdout_rows r.stdout ++ stderr_rows r.stderr)

-- the part of an ending's output that an outcome keeps
unfoldable pub kept_output : (CommandResult → Text) → Option CommandResult → Option Text
kept_output stream none = none
kept_output stream (some r) = some (truncate_bytes (stream r) helm_output_max_bytes)

unfoldable pub returncode_of : Option CommandResult → Option ExitCode
returncode_of none = none
returncode_of (some r) = some r.returncode

module _ (e : Lab) (q : TestTarget) (s : HelmReleaseStatus) where
  -- the logs of the container before, for a pod that has ended and left none
  unfoldable pub previous_logs : Try Text → Step e (Option Text)
  previous_logs (returned []) = pure none
  previous_logs (returned (c ∷ cs)) = pure (some (truncate_bytes (c ∷ cs) pod_log_max_bytes))
  previous_logs (threw x) = if is_external x then pure none else throw x

  unfoldable pub snapshot_with : TestPod → Try Text → Step e TestPodSnapshot
  unfolding previous_logs snapshot call
  snapshot_with p (threw x) =
      if is_external x
      then pure (snapshot p (text "<logs unavailable: " ++ (failure_detail x ++ text ">")) none)
      else throw x
  snapshot_with p (returned logs) =
      if logs == [] && stale_phase p.phase
      then (do
        again ← attempt (call e (e.pod_logs p.namespace p.name q.pod_log_tail true q.per_poll))
        previous ← previous_logs again
        pure (snapshot p (truncate_bytes logs pod_log_max_bytes) previous))
      else pure (snapshot p (truncate_bytes logs pod_log_max_bytes) none)

  unfoldable pub snapshot_all : List TestPod → Step e (List TestPodSnapshot)
  unfolding snapshot_with call
  snapshot_all [] = pure []
  snapshot_all (p ∷ rest) = do
    logs ← attempt (call e (e.pod_logs p.namespace p.name q.pod_log_tail false q.per_poll))
    first ← snapshot_with p logs
    others ← snapshot_all rest
    pure (first ∷ others)

  unfoldable pub snapshot_listed : Try (List TestPod) → Step e Snapshots
  unfolding snapshot_all
  snapshot_listed (threw x) = if is_external x then pure ([], some (failure_detail x)) else throw x
  snapshot_listed (returned pods) = do
    taken ← snapshot_all (take diagnostics_pod_cap pods)
    pure (taken, none)

  -- `_snapshot_test_pods`
  unfoldable pub snapshot_test_pods : Step e Snapshots
  unfolding snapshot_listed call
  snapshot_test_pods = do
    pods ← attempt (call e (e.list_test_pods s.ref q.per_poll))
    snapshot_listed pods

  unfoldable pub wanted_pods : ReasonLike → Step e Snapshots
  unfolding wants_pods snapshot_test_pods
  wanted_pods reason = if wants_pods reason then snapshot_test_pods else pure ([], none)

  unfoldable pub event_rows : Step e (List Text)
  unfolding read
  event_rows = if s.ref.target_namespace == [] then pure [] else (do
    events ← read e (e.namespace_events s.ref.target_namespace q.per_poll)
    pure (
        (text "\n### Events (namespace " ++ (s.ref.target_namespace ++ text ")"))
        ∷ capped_events events
        ∷ []))

  -- the status read again, or why it could not be
  abbrev pub Refreshed : Type 0
  Refreshed = HelmReleaseStatus × Option Text

  unfoldable pub refreshed_status : Try HelmReleaseStatus → Step e Refreshed
  refreshed_status (returned status) = pure (status, none)
  refreshed_status (threw x) = if is_external x then pure (s, some (failure_detail x)) else throw x

  -- `_refresh_status`
  unfoldable pub refresh_status : Step e Refreshed
  unfolding refreshed_status call
  refresh_status = do
    answer ← attempt (call e (e.get_helmrelease_status s.ref q.per_poll))
    refreshed_status answer

  -- `_compose_diagnostics`
  unfoldable pub compose_diagnostics : Ending → Refreshed → Step e (Text × List TestPodSnapshot)
  unfolding wanted_pods event_rows stale_row in_flight_rows residual_rows inline_rows snapshot_rows
      output_rows
  compose_diagnostics end r = do
    pods ← wanted_pods end.reason
    events ← event_rows
    pure (
      join (text "\n") (
          (header s.ref end.verdict end.reason
            ∷ conditions r.0 (text "Ready" ∷ text "Released" ∷ text "TestSuccess" ∷ []))
          ++ (stale_row r.1
              ++ (in_flight_rows end.in_flight
                  ++ (residual_rows end.residual
                      ++ (inline_rows end.inline
                          ++ (snapshot_rows pods ++ (events ++ output_rows end.helm_result))))))),
      pods.0,
    )

  -- what `_finalize` adds to an ending: the report, the pods and the last status
  pub record Findings : Type 0 where
    pub report : Option Text
    pub pods : List TestPodSnapshot
    pub status : HelmReleaseStatus

  unfoldable pub investigate : Ending → Step e Findings
  unfolding refresh_status compose_diagnostics
  investigate end =
      if is_passing end.verdict
      then pure (record { report = none; pods = []; status = s })
      else if end.verdict == Verdict.skipped_not_ready
      then pure (record {
        report =
            some (
              text "HelmRelease has not been Released; run `chart-manager promote monitor` first.");
        pods = [];
        status = s;
      })
      else (do
        r ← refresh_status
        composed ← compose_diagnostics end r
        pure (record { report = some composed.0; pods = composed.1; status = r.0 }))

  unfoldable pub transitions_now : Step e (List Transition)
  transitions_now c = (returned c.transitions, c)

  -- `_finalize`; the elapsed time is read before the report is composed
  unfoldable pub finalize : (started : ℕ) → Ending → Step e TestOutcome
  unfolding investigate transitions_now returncode_of kept_output read record_phase
  finalize started end = do
    now ← read e e.clock
    record_phase e s.ref (text "Finished")
        (verdict_value end.verdict ++ (text ": " ++ reason_text end.reason))
    found ← investigate end
    transitions ← transitions_now
    pure (record {
      ref = s.ref;
      verdict = end.verdict;
      reason = end.reason;
      returncode = returncode_of end.helm_result;
      stdout = kept_output (λ r. r.stdout) end.helm_result;
      stderr = kept_output (λ r. r.stderr) end.helm_result;
      test_pods = found.pods;
      last_status = some found.status;
      transitions = transitions;
      diagnostics = found.report;
      duration = now - started;
    })

  unfoldable pub test_one : Step e TestOutcome
  unfolding finalize pipeline read
  test_one = do started ← read e e.clock; end ← pipeline e q s; finalize started end
