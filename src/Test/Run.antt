-- ===== src/Test/Run.antt =====
-- commands/test/run.py: the actions of a compiled plan, performed in order on a session.

pub mod Report
pub mod Success
use lab_charts.Base.{
  ℕ, Bool, true, false, not, ◌||◌, Option, none, some, List, [], ◌∷◌, ◌++◌, nat_eq, list_eq,
  pair_eq, ◌==◌, contains, any, if◌then◌else◌, Text, text, strip,
}
use lab_charts.Cluster.Effects.{
  Failure, release_failed, chart_error, message_of, is_reported, Try, returned, threw, Act, pure,
  throw, lift, attempt, ◌>>=◌, ◌>>◌,
}
use lab_charts.Cluster.Tools.{
  Tools, ProgressEvent, Severity, severity_step, severity_detail, severity_error, severity_info,
  CommandResult,
}
use lab_charts.Cluster.Converge.{converge, wait, installed}
use lab_charts.Cluster.Releases.{Repository, release}
use lab_charts.Cluster.Bootstrap.{event, tell}
use lab_charts.Test.Plan.{
  ActionKind, namespace_ensure, helm_lint, install, workload_ready, helm_test, hook_pre_install,
  hook_post_install, hook_cleanup, LifecycleAction, LifecyclePlan, SkippedRequirement,
}
use lab_charts.Test.Hooks.{kind_value, show_code, is_success, HookRunner, run_action}

pub data Verdict : Type 0 where
  pass fail skip : Verdict

pub record ActionOutcome : Type 0 where
  pub action_id : Text
  pub kind : Text
  pub verdict : Verdict
  pub detail : Option Text

pub record ChartTestOutcome : Type 0 where
  pub chart : Text
  pub profile : Text
  pub cluster_name : Text
  pub actions : List ActionOutcome
  pub diagnostics : Text

abbrev pub is_fail : Verdict → Bool
is_fail fail = true
is_fail _ = false

-- `ChartTestOutcome.failed`
unfoldable pub failed_of : List ActionOutcome → Option ActionOutcome
failed_of [] = none
failed_of (a ∷ rest) = let later = failed_of rest in if is_fail a.verdict then some a else later

-- `ChartTestOutcome.ok`
unfoldable pub is_ok : ChartTestOutcome → Bool
unfolding failed_of
is_ok o = elim (failed_of o.actions) [ none ↦ true | some a ↦ false ]

-- `LifecycleAction.action_id`
unfoldable pub action_id : LifecycleAction → Text
action_id a =
    text "chart-test."
    ++ (a.entry.chart.name ++ (text "." ++ (a.entry.profile ++ (text "." ++ kind_value a.kind))))

unfoldable pub subject_of : LifecycleAction → Text
subject_of a =
    a.entry.chart.name ++ (text ":" ++ (a.entry.profile ++ (text " in " ++ a.entry.namespace)))

-- `_LABELS`
unfoldable pub label_of : ActionKind → Text
label_of namespace_ensure = text "Ensuring namespace"
label_of helm_lint = text "Linting"
label_of install = text "Installing"
label_of workload_ready = text "Waiting for workloads"
label_of helm_test = text "Running Helm tests"
label_of hook_pre_install = text "Running pre-install hook"
label_of hook_post_install = text "Running post-install hook"
label_of hook_cleanup = text "Running cleanup hook"

unfoldable pub is_cleanup : ActionKind → Bool
is_cleanup hook_cleanup = true
is_cleanup _ = false

unfoldable pub outcome_of : LifecycleAction → Verdict → Option Text → ActionOutcome
unfolding action_id
outcome_of a v detail = record {
  action_id = action_id a;
  kind = kind_value a.kind;
  verdict = v;
  detail = detail;
}

-- why an action is skipped
unfoldable pub skip_reason : (failed : Bool) → Text
skip_reason false = text "cleanup hooks run at teardown"
skip_reason true = text "an earlier action failed"

-- `(result.stderr or result.stdout).strip()`
unfoldable pub output_of : CommandResult → Text
output_of r = strip (if r.stderr == [] then r.stdout else r.stderr)

unfoldable pub helm_test_failed : CommandResult → Failure
unfolding output_of
helm_test_failed r = chart_error (
    text "helm test exited "
    ++ (show_code r.returncode ++ (if output_of r == [] then [] else text ": " ++ output_of r)))

unfoldable pub check_test : CommandResult → Try Unit
unfolding helm_test_failed
check_test r = if is_success r.returncode then returned tt else threw (helm_test_failed r)

module _ (t : Tools) (p : Repository) (h : HookRunner) where
  abbrev pub Step : Type 0 → Type 0
  Step A = Act t.Outside A

  -- `_perform`
  unfoldable pub perform : LifecycleAction → Step Unit
  unfolding check_test
  perform a = elim a.kind [
    | namespace_ensure ↦ t.create_namespace a.entry.namespace
    | helm_lint ↦ do
      t.ensure_dependencies a.entry.chart.path
      t.lint a.entry.chart.path a.entry.values
    | install ↦ do _ ← converge t (release a.entry []); pure tt
    | workload_ready ↦ wait t (release a.entry [])
    | helm_test ↦ do
      timeout ← lift (t.parse_duration a.entry.spec.timeout)
      result ← t.helm_test a.entry.chart.name a.entry.namespace timeout
      lift (check_test result)
    | _ ↦ run_action t p h a
  ]

  -- `_diagnostics`
  unfoldable pub diagnostics_of : LifecycleAction → Failure → Step Text
  diagnostics_of a (release_failed message diagnostics) = pure diagnostics
  diagnostics_of a x = t.diagnostics a.entry.namespace

  unfoldable pub tell_diagnostics : Text → Step Unit
  tell_diagnostics diagnostics =
      if strip diagnostics == []
      then pure tt
      else tell t p (record { severity = severity_info; message = diagnostics; label = none })

  -- an action's outcome, and the diagnostics if it failed
  abbrev pub Ended : Type 0
  Ended = ActionOutcome × Option Text

  unfoldable pub ended : LifecycleAction → Try Unit → Step Ended
  unfolding outcome_of diagnostics_of tell_diagnostics subject_of
  ended a (returned _) = do
    tell t p (event severity_detail (text "Completed") (subject_of a))
    pure (outcome_of a pass none, none)
  ended a (threw x) =
      if is_reported x
      then (do
        diagnostics ← diagnostics_of a x
        tell t p
            (event severity_error (text "Failed") (subject_of a ++ (text ": " ++ message_of x)))
        tell_diagnostics diagnostics
        pure (outcome_of a fail (some (message_of x)), some diagnostics))
      else throw x

  unfoldable pub skipped : Bool → LifecycleAction → Step Ended
  unfolding outcome_of skip_reason subject_of
  skipped failed a = do
    tell t p (event severity_detail (text "Skipped") (subject_of a))
    pure (outcome_of a skip (some (skip_reason failed)), none)

  unfoldable pub attempted : LifecycleAction → Step Ended
  unfolding ended perform label_of subject_of
  attempted a = do
    tell t p (event severity_step (label_of a.kind) (subject_of a))
    result ← attempt (perform a)
    ended a result

  -- one turn of the loop of `_execute`
  unfoldable pub one_action : Bool → LifecycleAction → Step Ended
  unfolding skipped attempted is_cleanup
  one_action failed a = if is_cleanup a.kind || failed then skipped failed a else attempted a

  unfoldable pub fails : Bool → Option Text → Bool
  fails failed none = failed
  fails failed (some d) = true

  unfoldable pub latest : Text → Option Text → Text
  latest diagnostics none = diagnostics
  latest diagnostics (some d) = d

  -- the loop, from where `failed` and `diagnostics` stand
  unfoldable pub execute_from :
      (failed : Bool) (diagnostics : Text) → List LifecycleAction → Step (List ActionOutcome × Text)
  unfolding one_action fails latest
  execute_from failed diagnostics [] = pure ([], diagnostics)
  execute_from failed diagnostics (a ∷ rest) = do
    end ← one_action failed a
    last ← execute_from (fails failed end.1) (latest diagnostics end.1) rest
    pure (end.0 ∷ last.0, last.1)

  -- `_execute`
  unfoldable pub execute : LifecyclePlan → Step (List ActionOutcome × Text)
  unfolding execute_from
  execute plan = execute_from false [] plan.actions
