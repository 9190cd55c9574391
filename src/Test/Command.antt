-- ===== src/Test/Command.antt =====
-- commands/test/run.py: `chart test` from the request to the outcome. The loaded LocalCluster is
-- given.
pub mod Teardown
pub mod Outcomes
pub mod Cleanups
use lab_charts.Base.{
  ℕ, Bool, true, false, not, ◌&&◌, Option, none, some, List, [], ◌∷◌, ◌++◌, map, keep, nat_eq,
  list_eq, ◌==◌, pair_eq, contains, if◌then◌else◌, Text, text, strip,
}
use lab_charts.Charts.InstallPlan.{Checkout}
use lab_charts.Cluster.Effects.{
  Failure, release_failed, chart_error, message_of, is_expected, Try, returned, threw, Act, pure,
  throw, lift, catch, attempt, ◌>>=◌, ◌>>◌,
}
use lab_charts.Cluster.Tools.{
  Tools, severity_step, severity_detail, severity_error, severity_warn, severity_info,
}
use lab_charts.Cluster.Converge.{installed}
use lab_charts.Cluster.Releases.{Repository}
use lab_charts.Cluster.Bootstrap.{
  BootstrapStep, BootstrapOutcome, Session, event, tell, preflight, owned, verify, raise_error,
}
use lab_charts.Cluster.Bootstrap.Install.{bootstrap}
use lab_charts.Cluster.Session.{LocalCluster, Provisioning, attach, find, provision, delete_session}
use lab_charts.Test.Plan.{
  LifecycleAction, LifecyclePlan, SkippedRequirement, CompiledPlan, Requires, install_all, skip,
  install_untested, ChartTestRequest, Surroundings, Identity, compile_plan,
}
use lab_charts.Test.Hooks.{HookRunner, run_action}
use lab_charts.Test.Run.{
  pass, fail, ActionOutcome, ChartTestOutcome, is_cleanup, is_fail, outcome_of, subject_of,
  label_of, execute,
}

-- a ChartTestRequest; `asked` is the part that the compiler reads
pub record RunRequest : Type 0 where
  pub asked : ChartTestRequest
  pub cluster_name : Text
  pub ensure_cluster : Bool
  pub skip_requires : Bool
  pub run_provision_hooks : Bool

-- what a run is given beside its request
pub record Setting : Type 0 where
  pub repository : Repository
  pub cluster : LocalCluster
  pub charts_root : Text
  pub executable_valid : Text → Bool
  pub command_timeout : ℕ
  pub depth : ℕ

-- the compiler's surroundings, once the environment's releases are known
abbrev pub with_owned : Setting → List Identity → Surroundings
with_owned g identities = record {
  checkout = g.repository.checkout_at g.charts_root;
  resolve = g.repository.resolve;
  executable_valid = g.executable_valid;
  bootstrap_owned = identities;
}

unfoldable pub surroundings : Setting → List BootstrapStep → Surroundings
unfolding owned
surroundings g steps = with_owned g (owned (with_owned g []) steps)

unfoldable pub requires_of : (fresh_cluster skip_requires : Bool) → Requires
requires_of true skip_requires = install_untested
requires_of false true = skip
requires_of false false = install_all

unfoldable pub dry_run_warning : (ensure_cluster : Bool) → Text
dry_run_warning true =
    text
      "--skip-requires bootstrap behavior: reuse verifies bootstrap and required releases without upgrading them; a missing cluster installs bootstrap and required charts but Helm-tests only selected targets"
dry_run_warning false =
    text
      "--skip-requires bootstrap behavior: --no-ensure-cluster creates nothing and verifies existing bootstrap and required releases without upgrading them"

unfoldable pub with_warning : RunRequest → LifecyclePlan → LifecyclePlan
unfolding dry_run_warning
with_warning q plan =
    if not q.skip_requires
    then plan
    else record plan { warnings = dry_run_warning q.ensure_cluster ∷ plan.warnings }

unfoldable pub not_there : ChartTestRequest → SkippedRequirement → Text
not_there q s =
    q.chart
    ++ (text " requires "
        ++ (s.chart
            ++ (text ":"
                ++ (s.profile
                    ++ (text ", not installed in "
                        ++ (s.namespace ++ text "; run once without --skip-requires"))))))

unfoldable pub require_present :
    ChartTestRequest → List (Text × Text) → List SkippedRequirement → Try Unit
unfolding not_there
require_present q present [] = returned tt
require_present q present (s ∷ rest) =
    let others = require_present q present rest in
    if contains present (s.namespace, s.release)
    then others
    else threw (chart_error (not_there q s))

module _ (t : Tools) (g : Setting) where
  abbrev pub Step : Type 0 → Type 0
  Step A = Act t.Outside A

  -- `_compile`
  unfoldable pub compile :
      ChartTestRequest → (lint : Bool) → Requires → Step (CompiledPlan × List BootstrapStep)
  unfolding surroundings
  compile q lint requires = do
    steps ← preflight t g.repository g.depth lint g.cluster.releases
    compiled ←
        lift (raise_error g.repository (compile_plan (surroundings g steps) g.depth requires q))
    pure (compiled, steps)

  unfoldable pub plan : RunRequest → Step LifecyclePlan
  unfolding compile with_warning requires_of
  plan q = do
    found ← compile q.asked false (requires_of false q.skip_requires)
    pure (with_warning q found.0.plan)

  -- `_require_skipped`
  unfoldable pub require_skipped : ChartTestRequest → List SkippedRequirement → Step Unit
  unfolding require_present
  require_skipped q [] = pure tt
  require_skipped q (s ∷ rest) = do
    present ← installed t
    lift (require_present q present (s ∷ rest))

  -- `find` is asked only where its answer matters
  unfoldable pub is_fresh : RunRequest → Step Bool
  is_fresh q =
      if q.skip_requires && q.ensure_cluster
      then (do
        found ← find t g.repository q.cluster_name
        pure (elim found [ none ↦ true | some s ↦ false ]))
      else pure false

  unfoldable pub fresh_message : Text → Text
  fresh_message name =
      text "cluster "
      ++ (name
          ++ text
              " does not exist; --skip-requires must install bootstrap and required charts before testing the selected target; required charts will not be Helm-tested")

  unfoldable pub warn_fresh : Bool → Text → Step Unit
  unfolding fresh_message
  warn_fresh false name = pure tt
  warn_fresh true name =
      tell t g.repository (event severity_warn (text "warn:") (fresh_message name))

  unfoldable pub open_session : RunRequest → Step Session
  open_session q =
      if q.ensure_cluster
      then provision t g.repository (record {
        cluster = g.cluster;
        name = q.cluster_name;
        run_hooks = q.run_provision_hooks;
        replace = false;
        command_timeout = g.command_timeout;
      })
      else pure (attach q.cluster_name)

  -- the `except ReleaseFailed` clause around bootstrap
  unfoldable pub show_diagnostics : Failure → Step (List BootstrapOutcome)
  show_diagnostics (release_failed message diagnostics) =
      if strip diagnostics == [] then throw (release_failed message diagnostics) else (do
        tell t g.repository
            (record { severity = severity_info; message = diagnostics; label = none })
        throw (release_failed message diagnostics))
  show_diagnostics x = throw x

  unfoldable pub make_ready : (verify_only : Bool) → Session → List BootstrapStep → Step Unit
  unfolding show_diagnostics
  make_ready true session steps = do present ← installed t; lift (verify g.repository steps present)
  make_ready false session steps = do
    _ ← catch (bootstrap t g.repository session steps) show_diagnostics
    pure tt

  unfoldable pub runner_for : Session → HookRunner
  runner_for s = record { kube_context = s.context; cluster_name = s.name }

  unfoldable pub run : RunRequest → Step ChartTestOutcome
  unfolding is_fresh compile warn_fresh open_session make_ready require_skipped runner_for
      requires_of
  run q = do
    fresh ← is_fresh q
    let verify_only = q.skip_requires && not fresh
    found ← compile q.asked (q.asked.lint && not verify_only) (requires_of fresh q.skip_requires)
    warn_fresh fresh q.cluster_name
    session ← open_session q
    make_ready verify_only session found.1
    require_skipped q.asked found.0.skipped
    end ← execute t g.repository (runner_for session) found.0.plan
    pure (record {
      chart = q.asked.chart;
      profile = q.asked.profile;
      cluster_name = q.cluster_name;
      actions = end.0;
      diagnostics = end.1;
    })
