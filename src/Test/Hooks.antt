-- ===== src/Test/Hooks.antt =====
-- commands/test/hooks.py: a chart test's hooks, run from the repository root.
use lab_charts.Base.{
  ℕ, ◌-◌, Bool, false, List, [], ◌∷◌, ◌++◌, length, drop, nat_eq, list_eq, ◌==◌, if◌then◌else◌,
  Text, text, show, strip,
}
use lab_charts.Cluster.Effects.{
  Failure, command_timeout, command_failed, Act, pure, throw, lift, catch, ◌>>=◌,
}
use lab_charts.Cluster.Releases.{Repository}
use lab_charts.Cluster.Tools.{Tools, HookCommand, CommandResult, ExitCode, exited, signalled}
use lab_charts.Plumbing.Lines.{splitlines}
use lab_charts.Test.Plan.{
  ActionKind, namespace_ensure, helm_lint, install, workload_ready, helm_test, hook_pre_install,
  hook_post_install, hook_cleanup, LifecycleAction,
}

-- the value of an ActionKind
unfoldable pub kind_value : ActionKind → Text
kind_value namespace_ensure = text "namespace-ensure"
kind_value helm_lint = text "helm-lint"
kind_value install = text "install"
kind_value workload_ready = text "workload-ready"
kind_value helm_test = text "helm-test"
kind_value hook_pre_install = text "hook-pre-install"
kind_value hook_post_install = text "hook-post-install"
kind_value hook_cleanup = text "hook-cleanup"

-- `action.kind.value.removeprefix("hook-")`
unfoldable pub hook_phase : ActionKind → Text
unfolding kind_value
hook_phase hook_pre_install = text "pre-install"
hook_phase hook_post_install = text "post-install"
hook_phase hook_cleanup = text "cleanup"
hook_phase kind = kind_value kind

-- `f"{returncode}"`
unfoldable pub show_code : ExitCode → Text
show_code (exited n) = show n
show_code (signalled n) = text "-" ++ show n

unfoldable pub is_success : ExitCode → Bool
is_success (exited n) = n == 0
is_success (signalled n) = false

-- each line after a line feed
unfoldable pub each_line : List Text → Text
each_line [] = []
each_line (l ∷ ls) = text "\n" ++ (l ++ each_line ls)

-- `_tail`, of `_STDERR_TAIL_LINES` lines
unfoldable pub tail_of : Text → Text
unfolding each_line
tail_of stderr = let lines = splitlines (strip stderr) in each_line (drop (length lines - 20) lines)

-- a ChartTestHookRunner
pub record HookRunner : Type 0 where
  pub kube_context : Text
  pub cluster_name : Text

module _ (t : Tools) (p : Repository) (h : HookRunner) where
  unfoldable pub hook_command : LifecycleAction → ℕ → HookCommand
  unfolding hook_phase
  hook_command a timeout = record {
    argv = a.command;
    cwd = p.resolve p.root;
    timeout = timeout;
    env =
        (text "CHART_MANAGER_HOOK_PHASE", hook_phase a.kind)
        ∷ (text "CHART_MANAGER_ROOT", p.resolve p.root)
        ∷ (text "CHART_MANAGER_CHART", a.entry.chart.name)
        ∷ (text "CHART_MANAGER_CHART_PATH", a.entry.chart.path)
        ∷ (text "CHART_MANAGER_PROFILE", a.entry.profile)
        ∷ (text "CHART_MANAGER_RELEASE", a.entry.chart.name)
        ∷ (text "CHART_MANAGER_NAMESPACE", a.entry.namespace)
        ∷ (text "CHART_MANAGER_KUBE_CONTEXT", h.kube_context)
        ∷ (text "CHART_MANAGER_CLUSTER_NAME", h.cluster_name)
        ∷ [];
  }

  -- the `except CommandTimeout` clause
  unfoldable pub hook_timed_out : LifecycleAction → Failure → Act t.Outside CommandResult
  unfolding hook_phase tail_of
  hook_timed_out a (command_timeout message stderr) = throw (
      command_timeout
        (hook_phase a.kind
          ++ (text " hook timed out after "
              ++ (a.entry.spec.timeout ++ (text ": " ++ (t.redact a.command ++ tail_of stderr)))))
        stderr)
  hook_timed_out a x = throw x

  unfoldable pub hook_failed : LifecycleAction → CommandResult → Failure
  unfolding hook_phase tail_of show_code
  hook_failed a result =
      command_failed
        (hook_phase a.kind
          ++ (text " hook exited "
              ++ (show_code result.returncode
                  ++ (text ": " ++ (t.redact a.command ++ tail_of result.stderr)))))
        result.stderr

  -- `ChartTestHookRunner.run`
  unfoldable pub run_action : LifecycleAction → Act t.Outside Unit
  unfolding hook_command hook_timed_out hook_failed is_success
  run_action a = do
    timeout ← lift (t.parse_duration a.entry.spec.timeout)
    result ← catch (t.run_hook (hook_command a timeout)) (hook_timed_out a)
    if is_success result.returncode then pure tt else throw (hook_failed a result)
